-- ===== src/Reconfiguration/Types.antt =====
-- src/rcm/reconfiguration.py: topologies, plans, outcomes, checkpoints and results.
--
-- The digests are taken with json and hashlib: a `Hasher` maps what is encoded to the digest. A Python
-- set is a list of which membership is read; `sorted_set` is what `sorted` makes of it.
use rcm_windows.Prelude.{
  ltb, ◌==◌, if◌then◌else◌, all, codes, nonempty, contains, unique, ◌>>◌, guard, Result,
  value_error, ok, ℕ, ◌+◌, String, Bool, true, false, not, ◌&&◌, ◌||◌, Option, none, some, List, [],
  ◌∷◌, map, str_eq,
}
use rcm_windows.Core.Text.{allowed, elem, code}
use rcm_windows.Core.Types.{is_head, is_worker, Node}

unfoldable pub token : String → Result String
token value = do
  guard (nonempty value && all (λ c. elem c allowed) (codes value)) value_error
  ok value

pub data ReconfigurationPhase : Type 0 where
  preflight stop push start join verify rollback : ReconfigurationPhase

abbrev pub phase_value : ReconfigurationPhase → String
phase_value preflight = "preflight"
phase_value stop = "stop"
phase_value push = "push"
phase_value start = "start"
phase_value join = "join"
phase_value verify = "verify"
phase_value rollback = "rollback"

abbrev pub is_rollback : ReconfigurationPhase → Bool
is_rollback rollback = true
is_rollback _ = false

-- phase in {STOP, PUSH, START}
abbrev pub is_mutation : ReconfigurationPhase → Bool
is_mutation stop = true
is_mutation push = true
is_mutation start = true
is_mutation _ = false

pub data ReconfigurationStatus : Type 0 where
  succeeded partial failed cancelled : ReconfigurationStatus

pub record ClusterTopology : Type 0 where
  pub epoch : ℕ
  pub head : Node
  pub workers : List Node

abbrev pub ids_of : List Node → List String
ids_of = map (λ (n : Node). n.node_id)

abbrev pub worker_ids : ClusterTopology → List String
worker_ids t = ids_of t.workers

abbrev pub head_id : ClusterTopology → String
head_id t = t.head.node_id

abbrev pub node_ids : ClusterTopology → List String
node_ids t = head_id t ∷ worker_ids t

abbrev pub nodes : ClusterTopology → List Node
nodes t = t.head ∷ t.workers

unfoldable pub check_topology : ClusterTopology → Result ClusterTopology
check_topology t = do
  guard (is_head t.head.role) value_error
  guard (all (λ (n : Node). is_worker n.role) t.workers) value_error
  guard (not (contains (head_id t) (worker_ids t))) value_error
  guard (unique (worker_ids t)) value_error
  ok t

abbrev pub with_epoch : ℕ → ClusterTopology → ClusterTopology
with_epoch epoch t = record t { epoch = epoch }

-- The loop of `ClusterTopology.node`; none is its LookupError.
abbrev pub find_node : String → List Node → Option Node
find_node node_id [] = none
find_node node_id (n ∷ ns) = if str_eq n.node_id node_id then some n else find_node node_id ns

pub record ReconfigurationPlan : Type 0 where
  pub operation_id : String
  pub expected : ClusterTopology
  pub desired : ClusterTopology

unfoldable pub check_plan : ReconfigurationPlan → Result ReconfigurationPlan
unfolding token
check_plan p = do
  token p.operation_id
  guard (p.desired.epoch == p.expected.epoch + 1) value_error
  ok p

pub record Hasher : Type 0 where
  pub manifest_digest : ClusterTopology → String
  pub pair_digest : (ℕ × String) × (ℕ × String) → String

abbrev pub fingerprint : Hasher → ReconfigurationPlan → String
fingerprint h p = h.pair_digest (
  (p.expected.epoch, h.manifest_digest p.expected),
  (p.desired.epoch, h.manifest_digest p.desired),
)

pub record StepOutcome : Type 0 where
  pub is_ok : Bool
  pub code : String

unfoldable pub check_outcome : StepOutcome → Result StepOutcome
unfolding token
check_outcome o = do
  token o.code
  guard (not (o.is_ok && not (str_eq o.code "ok"))) value_error
  guard (not (not o.is_ok && str_eq o.code "ok")) value_error
  ok o

abbrev pub success : StepOutcome
success = record { is_ok = true; code = "ok" }

abbrev pub failure : String → StepOutcome
failure code = record { is_ok = false; code = code }

pub record PhaseReport : Type 0 where
  pub phase : ReconfigurationPhase
  pub node_id : String
  pub outcome : StepOutcome

pub record ReconfigurationResult : Type 0 where
  pub operation_id : String
  pub status : ReconfigurationStatus
  pub effective_epoch : ℕ
  pub effective_head_id : String
  pub reports : List PhaseReport
  pub missing_worker_ids : List String
  pub rollback_performed : Bool
  pub effective_state_known : Bool

pub record ReconfigurationCheckpoint : Type 0 where
  pub plan_fingerprint : String
  pub completed_steps : List String
  pub reports : List PhaseReport
  pub unavailable_nodes : List String
  pub new_head_healthy : Bool
  pub inflight_step : Option String
  pub rollback_status : Option ReconfigurationStatus
  pub result : Option ReconfigurationResult

abbrev pub fresh_checkpoint : String → ReconfigurationCheckpoint
fresh_checkpoint plan_fingerprint = record {
  plan_fingerprint = plan_fingerprint;
  completed_steps = [];
  reports = [];
  unavailable_nodes = [];
  new_head_healthy = false;
  inflight_step = none;
  rollback_status = none;
  result = none;
}

-- Strings are ordered by their code points.
abbrev pub codes_lt : List ℕ → List ℕ → Bool
codes_lt [] [] = false
codes_lt [] (y ∷ ys) = true
codes_lt (x ∷ xs) [] = false
codes_lt (x ∷ xs) (y ∷ ys) = ltb x y || (x == y && codes_lt xs ys)

abbrev pub insert : String → List String → List String
insert k [] = k ∷ []
insert k (x ∷ xs) =
    let rest = insert k xs in
    if str_eq k x then x ∷ xs else if codes_lt (codes k) (codes x) then k ∷ x ∷ xs else x ∷ rest

-- tuple(sorted(set(values)))
abbrev pub sorted_set : List String → List String
sorted_set [] = []
sorted_set (x ∷ xs) = insert x (sorted_set xs)
