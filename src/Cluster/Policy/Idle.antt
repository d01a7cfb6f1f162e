-- ===== src/Cluster/Policy/Idle.antt =====
-- About `ClusterBusyPolicy.assess`: the evidence on which a cluster counts as idle.
use rcm_windows.Core.Types.{idle}
use rcm_windows.Prelude.{
  ltb, if◌then◌else◌, any, All, ℕ, ◌+◌, ◌-◌, ◌≤◌, String, ◌≡◌, refl, sym, ap, ◌∙◌, ◌⊎◌, inl, inr,
  Bool, true, false, Option, none, some, List, [], ◌∷◌, ◌++◌, arith,
}
use rcm_windows.Cluster.Types.{
  is_some, counts, ClusterMember, ClusterWorkloadEvidence, ClusterSnapshot, BusyAssessment, alive,
  stopped,
}
use rcm_windows.Cluster.Policy.{
  positive, found, incomplete_reasons, has_workload, finish, is_stale, assess_workload,
  assess_member, scan, assess_members, assess_evidence, assess, Finding, quiet, unknown_for,
  active_for,
}

-- An observation at `t` counts at `now`: it is not from the future and not older than `max_age`.
abbrev pub IsFresh : ℕ → ℕ → ℕ → Type 0
IsFresh max_age now t = (t ≤ now) × (now ≤ t + max_age)

abbrev pub Zero : Option ℕ → Type 0
Zero o = o ≡ some 0

-- A member that stands in the way of nothing: seen lately, and stopped, or alive and, where there is
-- no evidence for the whole cluster, with fresh counts of no job and no task.
abbrev pub IsQuiet : ℕ → ℕ → Bool → ClusterMember → Type 0
IsQuiet max_age now has_evidence m =
    IsFresh max_age now m.observed_at
    × ((m.state ≡ stopped)
        ⊎ ((m.state ≡ alive)
            × ((has_evidence ≡ true)
                ⊎ ((m.workload_evidence_fresh ≡ true) × Zero m.active_jobs × Zero m.active_tasks))))

-- Complete evidence of no job, task, actor or placement group (a count may be absent only where the
-- evidence has been called complete without it, which `check_evidence` refuses).
abbrev pub EvidenceIsQuiet : ℕ → ℕ → Option ClusterWorkloadEvidence → Type 0
EvidenceIsQuiet max_age now none = Unit
EvidenceIsQuiet max_age now (some w) =
    IsFresh max_age now w.observed_at × (any positive (counts w) ≡ false) × (w.complete ≡ true)

abbrev pub IsProvenIdle : ℕ → ℕ → ClusterSnapshot → Bool → Type 0
IsProvenIdle max_age now s under_maintenance =
    (under_maintenance ≡ false)
    × IsFresh max_age now s.captured_at
    × EvidenceIsQuiet max_age now s.workload
    × All (IsQuiet max_age now (has_workload s.workload)) s.members

none_active : (o : Option ℕ) → is_some o ≡ true → positive o ≡ false → Zero o
none_active none e f = cc
none_active (some n) e f = ground arith

Finding-cases :
    (f : Finding)
    → (f ≡ quiet) ⊎ (((r : String) × (f ≡ unknown_for r)) ⊎ ((r : String) × (f ≡ active_for r)))
Finding-cases quiet = inl refl
Finding-cases (unknown_for r) = inr (inl (r, refl))
Finding-cases (active_for r) = inr (inr (r, refl))

snoc≢nil : (xs : List String) (x : String) → ¬ (xs ++ x ∷ [] ≡ [])
snoc≢nil [] x e = cc
snoc≢nil (y ∷ ys) x e = cc

not_future : (now t : ℕ) → t ≤ now → ltb now t ≡ false
not_future now t h = ground arith

not_stale : (max_age now t : ℕ) → now ≤ t + max_age → ltb max_age (now - t) ≡ false
not_stale max_age now t h = ground arith

-- A test whose `then` is not idle has failed where the result is idle.
if_idle :
    (b : Bool) (x y : BusyAssessment)
    → ¬ (x.state ≡ idle)
    → (if b then x else y).state ≡ idle
    → (b ≡ false) × (y.state ≡ idle)
if_idle true x y h e = absurd (h e)
if_idle false x y h e = (refl, e)

module _ (max_age now : ℕ) where
  assess_workload-quiet :
      (has_evidence : Bool) (m : ClusterMember)
      → assess_workload max_age now has_evidence m ≡ quiet
      → (has_evidence ≡ true)
        ⊎ ((m.workload_evidence_fresh ≡ true) × Zero m.active_jobs × Zero m.active_tasks)
  assess_workload-quiet true m e = inl refl
  assess_workload-quiet false m e =
      ground (arith, e, none_active m.active_jobs, none_active m.active_tasks)

  assess_member-IsQuiet :
      (has_evidence : Bool) (m : ClusterMember)
      → assess_member max_age now has_evidence m ≡ quiet
      → IsQuiet max_age now has_evidence m
  unfolding assess_member
  assess_member-IsQuiet has_evidence m e = ground (arith, e, assess_workload-quiet has_evidence m)

  IsQuiet-assess_member :
      (has_evidence : Bool) (m : ClusterMember)
      → IsQuiet max_age now has_evidence m
      → assess_member max_age now has_evidence m ≡ quiet
  unfolding assess_member
  IsQuiet-assess_member has_evidence m h = ground (arith, h)

  scan-IsQuiet :
      (has_evidence : Bool) (unknowns : List String) (ms : List ClusterMember)
      → scan max_age now has_evidence unknowns ms ≡ inl []
      → (unknowns ≡ []) × All (IsQuiet max_age now has_evidence) ms
  unfolding scan
  scan-IsQuiet b unknowns [] e = (ground (arith, e), tt)
  scan-IsQuiet b unknowns (m ∷ ms) e = elim (Finding-cases (assess_member max_age now b m)) [
    | inl q ↦
        let (none_before, rest) = scan-IsQuiet b unknowns ms (rw (q, scan) at e) in
        (none_before, (assess_member-IsQuiet b m q, rest))
    | inr (inl (r, q)) ↦
        absurd (snoc≢nil unknowns r (scan-IsQuiet b (unknowns ++ r ∷ []) ms (rw (q, scan) at e)).0)
    | inr (inr (r, q)) ↦ let f : inr r ≡ inl [] = rw (q, scan) at e in cc
  ]

  quiet-scan :
      (has_evidence : Bool) (ms : List ClusterMember)
      → All (IsQuiet max_age now has_evidence) ms
      → scan max_age now has_evidence [] ms ≡ inl []
  unfolding scan
  quiet-scan b [] h = refl
  quiet-scan b (m ∷ ms) h = rw (IsQuiet-assess_member b m h.0, scan) (quiet-scan b ms h.1)

  finish-idle :
      (s : ClusterSnapshot) (out : List String ⊎ String)
      → (finish s out).state ≡ idle
      → (out ≡ inl []) × (incomplete_reasons s.workload ≡ [])
  finish-idle s (inr r) e = absurd (cc)
  finish-idle s (inl []) e = ground (arith, e)
  finish-idle s (inl (x ∷ xs)) e = absurd (cc)

  complete_of_reasons :
      (w : ClusterWorkloadEvidence) → incomplete_reasons (some w) ≡ [] → w.complete ≡ true
  complete_of_reasons w e = ground (arith, e)

  assess_members-idle :
      (s : ClusterSnapshot)
      → (assess_members max_age now s).state ≡ idle
      → (incomplete_reasons s.workload ≡ [])
        × All (IsQuiet max_age now (has_workload s.workload)) s.members
  assess_members-idle s e =
      let (q, complete) =
        finish-idle s (scan max_age now (has_workload s.workload) [] s.members) e in
      (complete, (scan-IsQuiet (has_workload s.workload) [] s.members q).1)

  assess_evidence-idle :
      (s : ClusterSnapshot) (o : Option ClusterWorkloadEvidence)
      → s.workload ≡ o
      → (assess_evidence max_age now s o).state ≡ idle
      → EvidenceIsQuiet max_age now o × ((assess_members max_age now s).state ≡ idle)
  assess_evidence-idle s none q e = (tt, e)
  assess_evidence-idle s (some w) q e =
      let (past, e1) = if_idle (ltb now w.observed_at) _ _ (λ x. cc) e in
      let (young, e2) = if_idle (is_stale max_age now w.observed_at) _ _ (λ x. cc) e1 in
      let (none_active, e3) = if_idle (any positive (counts w)) _ _ (λ x. cc) e2 in
      let complete = (assess_members-idle s e3).0 in
      (
        (
          (ground (arith, past), ground (arith, past, young)),
          none_active,
          complete_of_reasons w (ap incomplete_reasons (sym q) ∙ complete),
        ),
        e3,
      )

  -- The cluster is found idle only on evidence: no maintenance, nothing from the future and nothing
  -- older than `max_age`, complete evidence without an active count where there is such evidence, and
  -- every member stopped or alive, and without such evidence with fresh counts of zero.
  pub assess-IsProvenIdle :
      (s : ClusterSnapshot) (under_maintenance : Bool)
      → (assess max_age now s under_maintenance).state ≡ idle
      → IsProvenIdle max_age now s under_maintenance
  unfolding assess
  assess-IsProvenIdle s under_maintenance e =
      let (free, e1) = if_idle under_maintenance _ _ (λ x. cc) e in
      let (past, e2) = if_idle (ltb now s.captured_at) _ _ (λ x. cc) e1 in
      let (young, e3) = if_idle (is_stale max_age now s.captured_at) _ _ (λ x. cc) e2 in
      let (evidence, e4) = assess_evidence-idle s s.workload refl e3 in
      (
        free,
        (ground (arith, past), ground (arith, past, young)),
        evidence,
        (assess_members-idle s e4).1,
      )

  reasons_of_complete :
      (o : Option ClusterWorkloadEvidence)
      → EvidenceIsQuiet max_age now o
      → incomplete_reasons o ≡ []
  reasons_of_complete none h = refl
  reasons_of_complete (some w) h = rw (h.2)

  assess_members-of-quiet :
      (s : ClusterSnapshot)
      → incomplete_reasons s.workload ≡ []
      → All (IsQuiet max_age now (has_workload s.workload)) s.members
      → assess_members max_age now s ≡ found idle s.epoch []
  assess_members-of-quiet s c h = rw (quiet-scan (has_workload s.workload) s.members h, c)

  assess_evidence-of-quiet :
      (s : ClusterSnapshot) (o : Option ClusterWorkloadEvidence)
      → EvidenceIsQuiet max_age now o
      → assess_members max_age now s ≡ found idle s.epoch []
      → assess_evidence max_age now s o ≡ found idle s.epoch []
  assess_evidence-of-quiet s none h e = e
  assess_evidence-of-quiet s (some w) h e =
      rw (not_future now w.observed_at h.0.0, not_stale max_age now w.observed_at h.0.1, h.1) e

  -- A cluster that is proven idle is found idle, at the epoch of the snapshot and with no reason
  -- against it.
  pub IsProvenIdle-assess :
      (s : ClusterSnapshot) (under_maintenance : Bool)
      → IsProvenIdle max_age now s under_maintenance
      → assess max_age now s under_maintenance ≡ found idle s.epoch []
  unfolding assess
  IsProvenIdle-assess s under_maintenance h =
      rw (h.0, not_future now s.captured_at h.1.0, not_stale max_age now s.captured_at h.1.1)
        (assess_evidence-of-quiet s s.workload h.2
          (assess_members-of-quiet s (reasons_of_complete s.workload h.2) h.3))
