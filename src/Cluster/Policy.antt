-- ===== src/Cluster/Policy.antt =====
-- src/rcm/cluster.py: `ClusterBusyPolicy.assess`.
pub mod Idle
use rcm_windows.Prelude.{
  ltb, if◌then◌else◌, any, is_empty, Result, value_error, ok, err, ℤ, pos, negsuc, ℕ, zero, suc,
  ◌-◌, String, ◌<>◌, ◌⊎◌, inl, inr, Bool, true, false, not, ◌||◌, Option, none, some, List, [], ◌∷◌,
  ◌++◌,
}
use rcm_windows.Core.Types.{BusyState, idle, busy, unknown, maintenance}
use rcm_windows.Cluster.Types.{
  is_alive, is_stopped, is_some, counts, ClusterMember, ClusterWorkloadEvidence, ClusterSnapshot,
  BusyAssessment,
}

-- ClusterBusyPolicy.__init__
unfoldable pub new_policy : ℤ → Result ℕ
new_policy (pos zero) = err value_error
new_policy (pos (suc n)) = ok (suc n)
new_policy (negsuc n) = err value_error

abbrev pub positive : Option ℕ → Bool
positive none = false
positive (some n) = ltb 0 n

-- What one member adds.
pub data Finding : Type 0 where
  quiet : Finding
  unknown_for active_for : String → Finding

abbrev pub found : BusyState → ℕ → List String → BusyAssessment
found state epoch reasons = record { state = state; epoch = epoch; reasons = reasons }

-- workload.reasons or ("workload:incomplete",)
abbrev pub incomplete_reasons : Option ClusterWorkloadEvidence → List String
incomplete_reasons none = []
incomplete_reasons (some w) =
    if w.complete then [] else if is_empty w.reasons then "workload:incomplete" ∷ [] else w.reasons

abbrev pub has_workload : Option ClusterWorkloadEvidence → Bool
has_workload none = false
has_workload (some w) = true

abbrev pub finish : ClusterSnapshot → List String ⊎ String → BusyAssessment
finish s (inr reason) = found busy s.epoch (reason ∷ [])
finish s (inl unknowns) =
    let all_unknowns = unknowns ++ incomplete_reasons s.workload in
    if is_empty all_unknowns then found idle s.epoch [] else found unknown s.epoch all_unknowns

module _ (max_age now : ℕ) where
  -- current - observed_at > self._max_age, where the source has ruled out a time in the future.
  abbrev pub is_stale : ℕ → Bool
  is_stale observed_at = ltb max_age (now - observed_at)

  abbrev pub assess_workload : Bool → ClusterMember → Finding
  assess_workload true m = quiet
  assess_workload false m =
      if not m.workload_evidence_fresh
        || not (is_some m.active_jobs)
        || not (is_some m.active_tasks)
      then unknown_for (m.node.node_id <> ":workload_unknown")
      else if positive m.active_jobs || positive m.active_tasks
      then active_for (m.node.node_id <> ":active_workload")
      else quiet

  -- The body of the loop over the members.
  unfoldable pub assess_member : Bool → ClusterMember → Finding
  assess_member has_evidence m =
      if ltb now m.observed_at
      then unknown_for (m.node.node_id <> ":clock_skew")
      else if is_stale m.observed_at
      then unknown_for (m.node.node_id <> ":stale")
      else if is_stopped m.state
      then quiet
      else if not (is_alive m.state)
      then unknown_for (m.node.node_id <> ":unavailable")
      else assess_workload has_evidence m

  -- The loop: the unknown reasons collected, or the reason of the first busy member.
  unfoldable pub scan : Bool → List String → List ClusterMember → List String ⊎ String
  scan has_evidence unknowns [] = inl unknowns
  scan has_evidence unknowns (m ∷ ms) = elim (assess_member has_evidence m) [
    | quiet ↦ scan has_evidence unknowns ms
    | unknown_for reason ↦ scan has_evidence (unknowns ++ reason ∷ []) ms
    | active_for reason ↦ inr reason
  ]

  abbrev pub assess_members : ClusterSnapshot → BusyAssessment
  assess_members s = finish s (scan (has_workload s.workload) [] s.members)

  abbrev pub assess_evidence : ClusterSnapshot → Option ClusterWorkloadEvidence → BusyAssessment
  assess_evidence s none = assess_members s
  assess_evidence s (some w) =
      if ltb now w.observed_at
      then found unknown s.epoch ("workload:clock_skew" ∷ [])
      else if is_stale w.observed_at
      then found unknown s.epoch ("workload:stale" ∷ [])
      else if any positive (counts w)
      then found busy s.epoch ("cluster:active_workload" ∷ [])
      else assess_members s

  unfoldable pub assess : ClusterSnapshot → Bool → BusyAssessment
  unfolding scan assess_member
  assess s under_maintenance =
      if under_maintenance
      then found maintenance s.epoch ("maintenance_lock" ∷ [])
      else if ltb now s.captured_at
      then found unknown s.epoch ("clock_skew" ∷ [])
      else if is_stale s.captured_at
      then found unknown s.epoch ("stale_snapshot" ∷ [])
      else assess_evidence s s.workload
