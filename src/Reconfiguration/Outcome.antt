-- ===== src/Reconfiguration/Outcome.antt =====
-- About the body of `_execute`: the steps behind a result with success.
use rcm_windows.Reconfiguration.Run.{forward_result, forward}
use rcm_windows.Prelude.{
  if◌then◌else◌, Bool-cases, is_empty, All, All-map, contains, contains-append, String, ◌≡◌, refl,
  ap, ◌∙◌, inl, inr, Bool, true, false, ◌&&◌, List, [], ◌∷◌, ◌++◌, arith,
}
use rcm_windows.Core.Types.{}
use rcm_windows.Reconfiguration.Types.{
  worker_ids, head_id, node_ids, insert, sorted_set, ReconfigurationPlan, Hasher,
  ReconfigurationResult, ReconfigurationCheckpoint, preflight, stop, push, start, join, verify,
  succeeded, partial,
}
use rcm_windows.Reconfiguration.Control.{step_key, Environment}
use rcm_windows.Reconfiguration.Phases.{epoch}
use rcm_windows.Reconfiguration.Steps.{then-Ends, return-Ends, pair-Ends, Grows-trans, Ends}
use rcm_windows.Reconfiguration.Success.{
  Has, Advances-trans, AllHave, all_grow, push_all-Ends, Advances, Pushed,
}
use rcm_windows.Reconfiguration.Completed.{
  start_phase-Ends, verify_head-Ends, join_all-Ends, verify_cluster-Ends,
}
use rcm_windows.Reconfiguration.Reached.{
  AllReached, preflight-Ends, asked-Ends, passed-All, reached_All, reached_head, stops-Ends,
  Pushed-All,
}

is_empty-insert : (k : String) (xs : List String) → is_empty (sorted_set (k ∷ xs)) ≡ false
is_empty-insert k xs = inserted k (sorted_set xs)
  where
    inserted : (k : String) (ys : List String) → is_empty (insert k ys) ≡ false
    inserted k [] = refl
    inserted k (y ∷ ys) = ground arith

nothing_missing : (xs ys : List String) → is_empty (sorted_set (xs ++ ys)) ≡ true → xs ≡ []
nothing_missing [] ys h = refl
nothing_missing (x ∷ xs) ys h = absurd (ground (arith, h, is_empty-insert x (xs ++ ys)))

status_good :
    (b e : Bool) → (if b && e then succeeded else partial) ≡ succeeded → (b ≡ true) × (e ≡ true)
status_good true true h = (refl, refl)
status_good true false h = absurd cc
status_good false e h = absurd cc

nil_of_is_empty : (xs : List String) → is_empty xs ≡ true → xs ≡ []
nil_of_is_empty [] h = refl
nil_of_is_empty (x ∷ xs) h = absurd cc

module _ (env : Environment) (hash : Hasher) (plan : ReconfigurationPlan) where
  -- Every step of the plan is among the completed ones.
  pub record IsCarriedOut (d : ReconfigurationCheckpoint) : Type 0 where
    pub expected_checked : AllHave env hash plan preflight (node_ids plan.expected) d
    pub desired_checked : AllHave env hash plan preflight (node_ids plan.desired) d
    pub stopped : AllHave env hash plan stop (node_ids plan.expected) d
    pub pushed : AllHave env hash plan push (node_ids plan.desired) d
    pub started : Has d (step_key env start (head_id plan.desired))
    pub head_verified : Has d (step_key env verify "head")
    pub joined : AllHave env hash plan join (worker_ids plan.desired) d
    pub cluster_verified : Has d (step_key env verify "cluster")

  abbrev Succeeds : ReconfigurationCheckpoint × ReconfigurationResult → Type 0
  Succeeds out =
      out.1.status ≡ succeeded
      → IsCarriedOut out.0
        × (out.1.missing_worker_ids ≡ [])
        × (out.1.effective_epoch ≡ plan.desired.epoch)
        × (out.1.effective_head_id ≡ head_id plan.desired)

  absent_before :
      (n : String) (a b d : List String)
      → b ≡ a
      → (contains n b ≡ true → contains n d ≡ true)
      → contains n d ≡ false
      → contains n a ≡ false
  absent_before n a b d same more free = elim (Bool-cases (contains n a)) [
    | inl e ↦ absurd (cc (free, more (rw same e)))
    | inr e ↦ e
  ]

  -- The nodes that are available after the pushes were so after the preflights.
  free_at_first :
      (c1 c2 c3 c5 : ReconfigurationCheckpoint)
      → AllReached env hash plan c1
      → Advances c1 c2
      → Pushed env hash plan (node_ids plan.desired) c2 c3
      → Advances c3 c5
      → All (λ n. contains n c5.unavailable_nodes ≡ false) (worker_ids plan.desired)
      → All (λ n. contains n c1.unavailable_nodes ≡ false) (node_ids plan.expected)
        × All (λ n. contains n c1.unavailable_nodes ≡ false) (node_ids plan.desired)
  free_at_first c1 c2 c3 c5 reached s p a free = (
    reached_All env hash plan c1 reached,
    (
      reached_head env hash plan c1 reached,
      All-map (λ n. contains n c5.unavailable_nodes ≡ false)
          (λ n. contains n c1.unavailable_nodes ≡ false) (worker_ids plan.desired)
          (λ n h.
            absent_before n c1.unavailable_nodes c2.unavailable_nodes c5.unavailable_nodes
              s.same_nodes (λ e. ap (contains n) a.same_nodes ∙ p.keeps_absent n e) h)
          free,
    ),
  )

  -- The phases one after the other.
  pub forward-IsCarriedOut :
      (c : ReconfigurationCheckpoint) → Ends Succeeds (forward env hash plan c)
  unfolding forward
  forward-IsCarriedOut c =
      then-Ends (pair-Ends (preflight-Ends env hash plan c) (asked-Ends env hash plan c))
        (λ c1 (reached, asked). then-Ends (stops-Ends env hash plan c1 reached) (λ c2 s.
          then-Ends (push_all-Ends env hash plan (node_ids plan.desired) c2) (λ c3 p.
            then-Ends (start_phase-Ends env hash plan c3) (λ c4 t.
              then-Ends (verify_head-Ends env hash plan c4) (λ c5 v.
                then-Ends (join_all-Ends env hash plan (worker_ids plan.desired) [] c5) (λ j jj.
                  then-Ends (verify_cluster-Ends env hash plan j.0) (λ u k.
                    return-Ends (u.0, forward_result plan u.0 u.2 (sorted_set (j.1 ++ u.1)))
                      (λ good.
                        let (verified, complete) =
                          status_good u.2 (is_empty (sorted_set (j.1 ++ u.1))) good in
                        let (_, (has, free)) = jj.1 (nothing_missing j.1 u.1 complete) in
                        let g5 = Grows-trans c5 j.0 u.0 jj.0.grows k.0.grows in
                        let g4 = Grows-trans c4 c5 u.0 v.0.grows g5 in
                        let g3 = Grows-trans c3 c4 u.0 t.0.grows g4 in
                        let g2 = Grows-trans c2 c3 u.0 p.grows g3 in
                        let g1 = Grows-trans c1 c2 u.0 s.0.grows g2 in
                        let (expected_free, desired_free) =
                          free_at_first c1 c2 c3 c5 reached s.0 p (Advances-trans c3 c4 c5 t.0 v.0)
                            free in
                        let reached' : AllReached env hash plan c2 =
                          λ n m. ground (arith, reached n m, s.0.same_nodes) in
                        let pushes =
                          Pushed-All env hash plan c2 c3 c5 reached' p
                            (Advances-trans c3 c4 c5 t.0 v.0) free in
                        (
                          record {
                            expected_checked =
                                all_grow env hash plan preflight (node_ids plan.expected) c1 u.0 g1
                                  (passed-All env hash plan c1 (node_ids plan.expected) asked
                                    (λ n m. ground (
                                      arith,
                                      m,
                                      contains-append n (node_ids plan.expected)
                                          (node_ids plan.desired),
                                    ))
                                    expected_free);
                            desired_checked =
                                all_grow env hash plan preflight (node_ids plan.desired) c1 u.0 g1 (
                                  passed-All env hash plan c1 (node_ids plan.desired) asked
                                    (λ n m. ground (
                                      arith,
                                      m,
                                      contains-append n (node_ids plan.expected)
                                          (node_ids plan.desired),
                                    ))
                                    desired_free);
                            stopped =
                                all_grow env hash plan stop (node_ids plan.expected) c2 u.0 g2 s.1;
                            pushed =
                                all_grow env hash plan push (node_ids plan.desired) c3 u.0 g3
                                  pushes;
                            started = g4.remembers (step_key env start (head_id plan.desired)) t.1;
                            head_verified = g5.remembers (step_key env verify "head") v.1;
                            joined =
                                all_grow env hash plan join (worker_ids plan.desired) j.0 u.0
                                  k.0.grows has;
                            cluster_verified = k.1 verified;
                          },
                          nil_of_is_empty (sorted_set (j.1 ++ u.1)) complete,
                          refl,
                          refl,
                        )))))))))
