-- ===== src/Cluster/Service.antt =====
-- src/rcm/cluster.py: `ClusterStateService.diagnose`. The observer is an argument: it returns a
-- snapshot, something else, or raises. So is the service's own clock.
use rcm_windows.Prelude.{
  ltb, ◌==◌, if◌then◌else◌, ==_iff, Bool-cases, length, select, is_empty, contains, unique, ◌>>=◌,
  Result, ok, ℤ, pos, ℕ, ◌≤◌, String, ◌≡◌, refl, ap, ◌∙◌, subst, inl, inr, Bool, true, false, not,
  ◌&&◌, Option, none, some, List, [], ◌∷◌, arith,
}
use rcm_windows.Core.Types.{Node, idle, unknown}
use rcm_windows.Cluster.Types.{
  max_observed_nodes, non_negative_int, node_ids, heads, is_only_head, ClusterSnapshot,
  BusyAssessment,
}
use rcm_windows.Cluster.Policy.{found, assess}
use rcm_windows.Cluster.Policy.Idle.{IsProvenIdle, assess-IsProvenIdle}

pub data Observed : Type 0 where
  snapshot_of : ClusterSnapshot → Observed
  not_a_snapshot observer_raised : Observed

pub record Observer : Type 0 where
  pub observe : List Node → String → ℕ → Observed

pub record ClusterDiagnosis : Type 0 where
  pub assessment : BusyAssessment
  pub snapshot : Option ClusterSnapshot

-- _unknown
abbrev pub unknown_because : ℕ → String → ClusterDiagnosis
unknown_because epoch reason = record {
  assessment = found unknown epoch (reason ∷ []);
  snapshot = none;
}

abbrev pub enabled_nodes : List Node → List Node
enabled_nodes = select (λ (n : Node). n.enabled)

-- The expected head is configured, no identifier stands twice, and it is the only head.
abbrev pub has_clear_topology : List Node → String → Bool
has_clear_topology enabled expected_head_id =
    contains expected_head_id (node_ids enabled)
    && unique (node_ids enabled)
    && is_only_head expected_head_id (heads enabled)

abbrev pub the_time : Option ℕ → ℕ → ℕ
the_time none clock = clock
the_time (some now) clock = now

module _ (observer : Observer) (max_age clock : ℕ) where
  abbrev pub judge : ℕ → Option ℕ → Observed → ClusterDiagnosis
  judge epoch now observer_raised = unknown_because epoch "observer:failed"
  judge epoch now not_a_snapshot = unknown_because epoch "observer:invalid_snapshot"
  judge epoch now (snapshot_of s) =
      if s.epoch == epoch
      then record { assessment = assess max_age (the_time now clock) s false; snapshot = some s }
      else unknown_because epoch "observer:invalid_snapshot"

  unfoldable pub diagnose : List Node → String → ℤ → Option ℕ → Result ClusterDiagnosis
  unfolding non_negative_int
  diagnose nodes expected_head_id epoch now = do
    e ← non_negative_int epoch
    let enabled = enabled_nodes nodes
    ok (
        if is_empty enabled
        then unknown_because e "configuration:no_enabled_nodes"
        else if ltb max_observed_nodes (length enabled)
        then unknown_because e "configuration:too_many_nodes"
        else if not (has_clear_topology enabled expected_head_id)
        then unknown_because e "configuration:ambiguous_topology"
        else judge e now (observer.observe enabled expected_head_id e))

  -- What a diagnosis that allows maintenance rests on.
  pub record Grounds (nodes : List Node) (head_id : String) (epoch : ℕ) (now : Option ℕ)
      (d : ClusterDiagnosis) : Type 0 where
    pub some_enabled : is_empty (enabled_nodes nodes) ≡ false
    pub few : length (enabled_nodes nodes) ≤ max_observed_nodes
    pub topology : has_clear_topology (enabled_nodes nodes) head_id ≡ true
    pub seen : ClusterSnapshot
    pub observed : observer.observe (enabled_nodes nodes) head_id epoch ≡ snapshot_of seen
    pub same_epoch : seen.epoch ≡ epoch
    pub reported : d.snapshot ≡ some seen
    pub proven : IsProvenIdle max_age (the_time now clock) seen false

  if_safe :
      (b : Bool) (x y : ClusterDiagnosis)
      → ¬ (x.assessment.state ≡ idle)
      → (if b then x else y).assessment.state ≡ idle
      → (b ≡ false) × (y.assessment.state ≡ idle)
  if_safe true x y h e = absurd (h e)
  if_safe false x y h e = (refl, e)

  judge-idle :
      (epoch : ℕ) (now : Option ℕ) (o : Observed)
      → (judge epoch now o).assessment.state ≡ idle
      → (s : ClusterSnapshot) × (o ≡ snapshot_of s)
        × (s.epoch ≡ epoch)
        × ((judge epoch now o).snapshot ≡ some s)
        × IsProvenIdle max_age (the_time now clock) s false
  judge-idle epoch now observer_raised e = absurd (cc)
  judge-idle epoch now not_a_snapshot e = absurd (cc)
  judge-idle epoch now (snapshot_of s) e = elim (Bool-cases (s.epoch == epoch)) [
    | inl q ↦ (
      s,
      refl,
      (==_iff s.epoch epoch).0 q,
      rw (q, if◌then◌else◌),
      assess-IsProvenIdle max_age (the_time now clock) s false (rw (q, if◌then◌else◌) at e),
    )
    | inr q ↦ let f : unknown ≡ idle = rw (q, if◌then◌else◌) at e in absurd (cc)
  ]

  chosen : List Node → String → ℕ → Option ℕ → ClusterDiagnosis
  chosen nodes head_id e now =
      let enabled = enabled_nodes nodes in
      if is_empty enabled
      then unknown_because e "configuration:no_enabled_nodes"
      else if ltb max_observed_nodes (length enabled)
      then unknown_because e "configuration:too_many_nodes"
      else if not (has_clear_topology enabled head_id)
      then unknown_because e "configuration:ambiguous_topology"
      else judge e now (observer.observe enabled head_id e)

  chosen-Grounds :
      (nodes : List Node) (head_id : String) (epoch : ℕ) (now : Option ℕ)
      → (chosen nodes head_id epoch now).assessment.state ≡ idle
      → Grounds nodes head_id epoch now (chosen nodes head_id epoch now)
  unfolding chosen
  chosen-Grounds nodes head_id epoch now safe =
      let enabled = enabled_nodes nodes in
      let (some_enabled, e1) = if_safe (is_empty enabled) _ _ (λ x. cc) safe in
      let (few, e2) = if_safe (ltb max_observed_nodes (length enabled)) _ _ (λ x. cc) e1 in
      let (clear, e3) = if_safe (not (has_clear_topology enabled head_id)) _ _ (λ x. cc) e2 in
      let (s, seen, epoch_eq, reported, proven) =
        judge-idle epoch now (observer.observe enabled head_id epoch) e3 in
      record {
        some_enabled = some_enabled;
        few = ground (arith, few);
        topology = ground (arith, clear);
        seen = s;
        observed = seen;
        same_epoch = epoch_eq;
        reported = rw (some_enabled, few, clear, if◌then◌else◌) reported;
        proven = proven;
      }

  -- A diagnosis of an idle cluster rests on a bounded, unambiguous configuration and on a snapshot of
  -- the epoch asked for that proves the cluster idle at the time of the diagnosis.
  pub diagnose-idle :
      (nodes : List Node) (head_id : String) (epoch : ℕ) (now : Option ℕ) (d : ClusterDiagnosis)
      → diagnose nodes head_id (pos epoch) now ≡ ok d
      → d.assessment.state ≡ idle
      → Grounds nodes head_id epoch now d
  unfolding diagnose chosen
  diagnose-idle nodes head_id epoch now d e safe =
      let q : chosen nodes head_id epoch now ≡ d = ground (arith, e) in
      subst (Grounds nodes head_id epoch now) q (
        chosen-Grounds nodes head_id epoch now
          (ap (λ (x : ClusterDiagnosis). x.assessment.state) q ∙ safe))
