-- ===== src/Reconfiguration/Available.antt =====
-- About `_preflight`: the nodes that are available when it comes to its end.
use rcm_windows.Prelude.{
  Bool-cases, contains, discard, contains-discard, String, ◌≡◌, refl, sym, ◌∙◌, subst, inl, inr,
  Bool, true, false, not, ◌||◌, List, [], ◌∷◌, ◌++◌, arith, str_eq, eq_iff,
}
use rcm_windows.Core.Types.{}
use rcm_windows.Reconfiguration.Types.{
  head_id, node_ids, ReconfigurationPlan, Hasher, StepOutcome, ReconfigurationCheckpoint, preflight,
}
use rcm_windows.Reconfiguration.Control.{keep, step_key, Environment, ask_preflight}
use rcm_windows.Reconfiguration.Phases.{
  or_fail, command, any_node, critical, note_availability, preflight_all,
}
use rcm_windows.Reconfiguration.Steps.{
  then-Ends, any-Ends, if_Ends, return-Ends, or_fail-Ends, call-Called, Ends, Called,
}

module _ (env : Environment) (hash : Hasher) (plan : ReconfigurationPlan) where
  abbrev is_critical : String → Bool
  is_critical n = contains n (node_ids plan.expected ++ head_id plan.desired ∷ [])

  -- The node `n` is still to be asked, or it is available.
  abbrev pub Covered : String → List String → List String → Type 0
  Covered n ns absent = (contains n ns || not (contains n absent)) ≡ true

  note_availability-same :
      (m : String) (absent : List String) (c : ReconfigurationCheckpoint) (o : StepOutcome)
      → c.unavailable_nodes ≡ absent
      → Ends
          (λ next. next.0.unavailable_nodes ≡ next.1)
          (note_availability env hash plan m absent c o)
  unfolding note_availability
  note_availability-same m absent c o same =
      let c1 = record c { unavailable_nodes = m ∷ absent } in
      let c2 = record c { unavailable_nodes = discard m absent } in
      if_Ends (not o.is_ok)
        (λ _. then-Ends (any-Ends (keep plan c1)) (λ _ _.
          then-Ends (any-Ends (or_fail (not (is_critical m)) c1))
            (λ _ _. return-Ends (c1, m ∷ absent) refl)))
        (λ _.
          if_Ends (contains m absent)
            (λ _.
              then-Ends (any-Ends (keep plan c2)) (λ _ _. return-Ends (c2, discard m absent) refl))
            (λ _. return-Ends (c, absent) same))

  note_availability-Covered :
      (n m : String) (ns absent : List String) (c : ReconfigurationCheckpoint) (o : StepOutcome)
      → is_critical n ≡ true
      → c.unavailable_nodes ≡ absent
      → Covered n (m ∷ ns) absent
      → Ends
          (λ next. (next.0.unavailable_nodes ≡ next.1) × Covered n ns next.1)
          (note_availability env hash plan m absent c o)
  unfolding note_availability
  note_availability-Covered n m ns absent c o critical same covered =
      let c1 = record c { unavailable_nodes = m ∷ absent } in
      let c2 = record c { unavailable_nodes = discard m absent } in
      if_Ends (not o.is_ok)
        (λ _. then-Ends (any-Ends (keep plan c1)) (λ _ _.
          then-Ends (or_fail-Ends (not (is_critical m)) c1) (λ _ passed.
            return-Ends (c1, m ∷ absent)
              (refl, ground (arith, critical, covered, passed, eq_iff m n)))))
        (λ _.
          if_Ends (contains m absent)
            (λ _. then-Ends (any-Ends (keep plan c2)) (λ _ _.
              return-Ends (c2, discard m absent)
                (refl, ground (arith, covered, contains-discard m n absent))))
            (λ available.
              return-Ends (c, absent) (same, ground (arith, covered, available, eq_iff m n))))

  pub preflight_all-Covered :
      (n : String) (ns absent : List String) (c : ReconfigurationCheckpoint)
      → is_critical n ≡ true
      → c.unavailable_nodes ≡ absent
      → Covered n ns absent
      → Ends (λ d. contains n d.unavailable_nodes ≡ false) (preflight_all env hash plan ns absent c)
  unfolding preflight_all
  preflight_all-Covered n [] absent c critical same covered =
      return-Ends c (ground (arith, same, covered))
  preflight_all-Covered n (m ∷ ns) absent c critical same covered =
      then-Ends
        (call-Called env plan c preflight m
          (command (λ k. ask_preflight k plan.desired.epoch) (any_node env hash plan m)) m)
        (λ out called.
          then-Ends
            (note_availability-Covered n m ns absent out.0 out.1 critical (called.same_nodes ∙ same)
              covered)
            (λ next after. preflight_all-Covered n ns next.1 next.0 critical after.0 after.1))

  -- The node `n` has passed its preflight, or it is unavailable.
  abbrev pub Asked : String → ReconfigurationCheckpoint → List String → Type 0
  Asked n c absent =
      (contains (step_key env preflight n) c.completed_steps || contains n absent) ≡ true

  note_availability-Asked :
      (n m : String) (absent : List String) (b c : ReconfigurationCheckpoint) (o : StepOutcome)
      → c.unavailable_nodes ≡ absent
      → Called (step_key env preflight m) b c o
      → (str_eq m n ≡ false → Asked n b absent)
      → Ends
          (λ next. (next.0.unavailable_nodes ≡ next.1) × Asked n next.0 next.1)
          (note_availability env hash plan m absent c o)
  unfolding note_availability
  note_availability-Asked n m absent b c o same called asked =
      let c1 = record c { unavailable_nodes = m ∷ absent } in
      let c2 = record c { unavailable_nodes = discard m absent } in
      let kept = called.grows.remembers (step_key env preflight n) in
      let moved : m ≡ n
          → contains (step_key env preflight m) c.completed_steps ≡ true
          → contains (step_key env preflight n) c.completed_steps ≡ true =
        λ e. subst (λ k. contains (step_key env preflight k) c.completed_steps ≡ true) e in
      if_Ends (not o.is_ok)
        (λ _. then-Ends (any-Ends (keep plan c1)) (λ _ _.
          then-Ends (or_fail-Ends (not (is_critical m)) c1)
            (λ _ passed. return-Ends (c1, m ∷ absent) (refl, ground (arith, asked, kept)))))
        (λ good.
          if_Ends (contains m absent)
            (λ _. then-Ends (any-Ends (keep plan c2)) (λ _ _.
              return-Ends (c2, discard m absent)
                (
                  refl,
                  ground (
                    arith,
                    asked,
                    kept,
                    good,
                    called.completes,
                    moved,
                    eq_iff m n,
                    contains-discard m n absent,
                  ),
                )))
            (λ available.
              return-Ends (c, absent)
                (same, ground (arith, asked, kept, good, called.completes, moved, eq_iff m n))))

  pub preflight_all-Asked :
      (n : String) (ns absent : List String) (c : ReconfigurationCheckpoint)
      → c.unavailable_nodes ≡ absent
      → (contains n ns ≡ false → Asked n c absent)
      → Ends (λ d. Asked n d d.unavailable_nodes) (preflight_all env hash plan ns absent c)
  unfolding preflight_all
  preflight_all-Asked n [] absent c same asked =
      return-Ends c (subst (Asked n c) (sym same) (asked refl))
  preflight_all-Asked n (m ∷ ns) absent c same asked =
      then-Ends
        (call-Called env plan c preflight m
          (command (λ k. ask_preflight k plan.desired.epoch) (any_node env hash plan m)) m)
        (λ out called. elim (Bool-cases (contains n (m ∷ ns))) [
          | inl e ↦ elim (Bool-cases (contains n ns)) [
            | inl f ↦
                then-Ends {P = λ next. next.0.unavailable_nodes ≡ next.1}
                  (note_availability-same m absent out.0 out.1 (called.same_nodes ∙ same))
                  (λ next after.
                    preflight_all-Asked n ns next.1 next.0 after (λ g. absurd (cc (f, g))))
            | inr f ↦
                then-Ends
                  (note_availability-Asked n m absent c out.0 out.1 (called.same_nodes ∙ same)
                    called (λ g. absurd (ground (arith, e, f, g))))
                  (λ next after. preflight_all-Asked n ns next.1 next.0 after.0 (λ _. after.1))
          ]
          | inr e ↦
              then-Ends
                (note_availability-Asked n m absent c out.0 out.1 (called.same_nodes ∙ same) called
                  (λ _. asked e))
                (λ next after. preflight_all-Asked n ns next.1 next.0 after.0 (λ _. after.1))
        ])
