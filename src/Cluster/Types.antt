-- ===== src/Cluster/Types.antt =====
-- src/rcm/cluster.py: members, workload evidence and snapshots, with their checks.
use rcm_windows.Prelude.{
  if◌then◌else◌, all, any, select, is_empty, codes, nonempty, contains, unique, ◌>>◌, guard, Result,
  value_error, lookup_error, ok, err, ℤ, pos, negsuc, ℕ, String, Bool, true, false, not, ◌&&◌, ◌||◌,
  Option, none, some, List, [], ◌∷◌, map, str_eq,
}
use rcm_windows.Core.Text.{elem}
use rcm_windows.Core.Types.{allows_reconfiguration, is_head, BusyState, Node}

pub data ClusterMemberState : Type 0 where
  alive stopped unreachable unknown_state : ClusterMemberState

abbrev pub is_alive : ClusterMemberState → Bool
is_alive alive = true
is_alive stopped = false
is_alive unreachable = false
is_alive unknown_state = false

abbrev pub is_stopped : ClusterMemberState → Bool
is_stopped alive = false
is_stopped stopped = true
is_stopped unreachable = false
is_stopped unknown_state = false

abbrev pub is_some : Option ℕ → Bool
is_some none = false
is_some (some n) = true

abbrev pub max_observed_nodes : ℕ
max_observed_nodes = 32

-- _non_negative_int
unfoldable pub non_negative_int : ℤ → Result ℕ
non_negative_int (pos n) = ok n
non_negative_int (negsuc n) = err value_error

pub record ClusterMember : Type 0 where
  pub node : Node
  pub state : ClusterMemberState
  pub observed_at : ℕ
  pub active_jobs : Option ℕ
  pub active_tasks : Option ℕ
  pub workload_evidence_fresh : Bool

unfoldable pub check_member : ClusterMember → Result ClusterMember
check_member m = do
  guard (is_alive m.state || not (is_some m.active_jobs || is_some m.active_tasks)) value_error
  ok m

pub record ClusterWorkloadEvidence : Type 0 where
  pub observed_at : ℕ
  pub active_jobs : Option ℕ
  pub active_tasks : Option ℕ
  pub active_actors : Option ℕ
  pub active_placement_groups : Option ℕ
  pub complete : Bool
  pub reasons : List String

abbrev pub counts : ClusterWorkloadEvidence → List (Option ℕ)
counts w = w.active_jobs ∷ w.active_tasks ∷ w.active_actors ∷ w.active_placement_groups ∷ []

abbrev reason_characters : List ℕ
reason_characters = codes "abcdefghijklmnopqrstuvwxyz0123456789_:"

abbrev is_reason : String → Bool
is_reason reason = nonempty reason && all (λ c. elem c reason_characters) (codes reason)

unfoldable pub check_evidence : ClusterWorkloadEvidence → Result ClusterWorkloadEvidence
check_evidence w = do
  guard (all is_reason w.reasons) value_error
  guard (unique w.reasons) value_error
  guard (not (w.complete && (any (λ c. not (is_some c)) (counts w) || not (is_empty w.reasons))))
      value_error
  ok w

pub record ClusterSnapshot : Type 0 where
  pub epoch : ℕ
  pub expected_head_id : String
  pub members : List ClusterMember
  pub captured_at : ℕ
  pub workload : Option ClusterWorkloadEvidence

abbrev pub node_ids : List Node → List String
node_ids = map (λ (n : Node). n.node_id)

abbrev pub heads : List Node → List Node
heads = select (λ (n : Node). is_head n.role)

-- len(heads) == 1 and heads[0].node_id == expected_head_id
abbrev pub is_only_head : String → List Node → Bool
is_only_head expected [] = false
is_only_head expected (n ∷ []) = str_eq n.node_id expected
is_only_head expected (n ∷ m ∷ rest) = false

abbrev pub member_nodes : List ClusterMember → List Node
member_nodes = map (λ (m : ClusterMember). m.node)

unfoldable pub check_snapshot : ClusterSnapshot → Result ClusterSnapshot
check_snapshot s = do
  guard (nonempty s.expected_head_id) value_error
  guard (not (is_empty s.members)) value_error
  guard (unique (node_ids (member_nodes s.members))) value_error
  guard (contains s.expected_head_id (node_ids (member_nodes s.members))) value_error
  guard (is_only_head s.expected_head_id (heads (member_nodes s.members))) value_error
  ok s

-- ClusterSnapshot.member
unfoldable pub find_member : String → List ClusterMember → Result ClusterMember
find_member node_id [] = err lookup_error
find_member node_id (m ∷ ms) =
    if str_eq m.node.node_id node_id then ok m else find_member node_id ms

pub record BusyAssessment : Type 0 where
  pub state : BusyState
  pub epoch : ℕ
  pub reasons : List String

abbrev pub safe_for_maintenance : BusyAssessment → Bool
safe_for_maintenance a = allows_reconfiguration a.state
