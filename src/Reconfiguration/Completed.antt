-- ===== src/Reconfiguration/Completed.antt =====
-- The start of the head and the joins of the workers, as far as they come to their end.
use rcm_windows.Prelude.{
  if◌then◌else◌, All, All-map, contains, String, ◌≡◌, refl, Bool, true, false, not, some, List, [],
  ◌∷◌, ◌++◌, arith,
}
use rcm_windows.Core.Types.{}
use rcm_windows.Reconfiguration.Types.{
  head_id, nodes, ReconfigurationPlan, Hasher, ReconfigurationCheckpoint, start, join, verify,
}
use rcm_windows.Reconfiguration.Control.{keep, step_key, Environment, ask_start, ask_verify}
use rcm_windows.Reconfiguration.Phases.{
  start_phase, verify_head, join_one, join_all, verify_cluster,
}
use rcm_windows.Reconfiguration.Steps.{
  then-Ends, any-Ends, if_Ends, return-Ends, map-Ends, or_fail-Ends, call-Called, Ends,
}
use rcm_windows.Reconfiguration.Success.{
  Has, Advances-refl, Advances-trans, must, AllHave, Advances,
}

none_added :
    (b : Bool) (missing : List String) (n : String)
    → (if b then missing ++ n ∷ [] else missing) ≡ []
    → (b ≡ false) × (missing ≡ [])
none_added true [] n e = absurd cc
none_added true (m ∷ ms) n e = absurd cc
none_added false missing n e = (refl, e)

module _ (env : Environment) (hash : Hasher) (plan : ReconfigurationPlan) where
  pub start_phase-Ends :
      (c : ReconfigurationCheckpoint)
      → Ends
          (λ d. Advances c d × Has d (step_key env start (head_id plan.desired)))
          (start_phase env hash plan c)
  unfolding start_phase
  start_phase-Ends c = must env hash plan (step_key env start (head_id plan.desired)) c _ (
      call-Called env plan c start (head_id plan.desired)
        (some (ask_start plan.desired.head plan.desired.epoch)) (head_id plan.desired))

  pub verify_head-Ends :
      (c : ReconfigurationCheckpoint)
      → Ends (λ d. Advances c d × Has d (step_key env verify "head")) (verify_head env hash plan c)
  unfolding verify_head
  verify_head-Ends c =
      then-Ends
        (call-Called env plan c verify plan.desired.head.node_id
          (some (ask_verify (plan.desired.head ∷ []) plan.desired.head plan.desired.epoch)) "head")
        (λ out called. then-Ends (or_fail-Ends out.1.is_ok out.0) (λ _ passed.
          let c1 = record out.0 { new_head_healthy = true } in
          then-Ends (any-Ends (keep plan c1)) (λ _ _. return-Ends c1 (
            record {
              grows = record { remembers = called.grows.remembers };
              same_nodes = called.same_nodes;
            },
            called.completes passed,
          ))))

  -- A worker that is not missing is available and has joined.
  join_one-Ends :
      (n : String) (c : ReconfigurationCheckpoint)
      → Ends
          (λ out.
            Advances c out.0
            × (out.1 ≡ false
                → Has out.0 (step_key env join n) × (contains n c.unavailable_nodes ≡ false)))
          (join_one env hash plan n c)
  unfolding join_one
  join_one-Ends n c =
      if_Ends (contains n c.unavailable_nodes)
        (λ e. return-Ends (c, true) (Advances-refl c, λ e. absurd cc))
        (λ e. then-Ends (call-Called env plan c join n _ n) (λ out called.
          return-Ends (out.0, not out.1.is_ok)
            (
              record { grows = called.grows; same_nodes = called.same_nodes },
              λ q. (called.completes (ground (arith, q)), e),
            )))

  -- What the joins leave if no worker is missing.
  abbrev pub Joined : List String → ReconfigurationCheckpoint → ReconfigurationCheckpoint → Type 0
  Joined ns c d =
      AllHave env hash plan join ns d × All (λ n. contains n c.unavailable_nodes ≡ false) ns

  pub join_all-Ends :
      (ns missing : List String) (c : ReconfigurationCheckpoint)
      → Ends
          (λ out. Advances c out.0 × (out.1 ≡ [] → (missing ≡ []) × Joined ns c out.0))
          (join_all env hash plan ns missing c)
  unfolding join_all
  join_all-Ends [] missing c = return-Ends (c, missing) (Advances-refl c, λ e. (e, (tt, tt)))
  join_all-Ends (n ∷ ns) missing c = then-Ends (join_one-Ends n c) (λ one p.
      map-Ends
        (λ out q. (
          Advances-trans c one.0 out.0 p.0 q.0,
          λ e.
              let (none_left, (rest, present)) = q.1 e in
              let (was_joined, none_before) = none_added one.1 missing n none_left in
              let (has, free) = p.1 was_joined in
              (
                none_before,
                (
                  (q.0.grows.remembers (step_key env join n) has, rest),
                  (
                    free,
                    All-map (λ k. contains k one.0.unavailable_nodes ≡ false)
                        (λ k. contains k c.unavailable_nodes ≡ false) ns
                        (λ k h. ground (arith, h, p.0.same_nodes)) present,
                  ),
                ),
              ),
        ))
        (join_all-Ends ns (if one.1 then missing ++ n ∷ [] else missing) one.0))

  pub verify_cluster-Ends :
      (c : ReconfigurationCheckpoint)
      → Ends
          (λ out. Advances c out.0 × (out.2 ≡ true → Has out.0 (step_key env verify "cluster")))
          (verify_cluster env hash plan c)
  unfolding verify_cluster
  verify_cluster-Ends c =
      then-Ends
        (call-Called env plan c verify "cluster"
          (some (ask_verify (nodes plan.desired) plan.desired.head plan.desired.epoch)) "cluster")
        (λ out called.
          return-Ends _
            (record { grows = called.grows; same_nodes = called.same_nodes }, called.completes))
