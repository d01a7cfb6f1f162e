-- ===== src/Reconfiguration/Framed.antt =====
-- The frame rule of Frame, for the forward phases.
use rcm_windows.Prelude.{
  if◌then◌else◌, contains, from_keys, String, Bool, true, not, Option, some, List, [], ◌∷◌, ◌++◌,
}
use rcm_windows.Core.Types.{}
use rcm_windows.Reconfiguration.Types.{
  worker_ids, node_ids, nodes, sorted_set, ReconfigurationPhase, ReconfigurationPlan, Hasher,
  StepOutcome, ReconfigurationCheckpoint, preflight, stop, push, start, join, verify,
}
use rcm_windows.Reconfiguration.Control.{
  Action, ◌>>=◌, return, keep, call, Command, Environment, World, ask_start, ask_verify,
}
use rcm_windows.Reconfiguration.Phases.{
  or_fail, note_availability, preflight_all, stop_one, stop_all, push_one, push_all, start_phase,
  verify_head, join_one, join_all, verify_cluster,
}
use rcm_windows.Reconfiguration.Run.{forward_result, forward}
use rcm_windows.Reconfiguration.Frame.{
  then-Moves, either, give, keeping, or_fail-Moves, call-Moves, IsFrame, Moves,
}

module _ (env : Environment) (hash : Hasher) (plan : ReconfigurationPlan)
    (R : World → World → Type 0) (frame : IsFrame env plan R) where
  abbrev Goes {ℓ} : {A : Type ℓ} → Action A → Type 0
  Goes m = Moves env hash plan R frame m

  abbrev called :
      (c : ReconfigurationCheckpoint) (phase : ReconfigurationPhase) (node_id : String)
      (action : Option Command) (suffix : String)
      → Goes (call env plan c phase node_id action suffix)
  called = call-Moves env hash plan R frame

  abbrev and_then {ℓ κ} :
      {A : Type ℓ} {B : Type κ} {m : Action A} {f : A → Action B}
      → Goes m
      → ((a : A) → Goes (f a))
      → Goes (m >>= f)
  and_then = then-Moves env hash plan R frame

  abbrev on {ℓ} :
      {A : Type ℓ} {m n : Action A} (b : Bool) → Goes m → Goes n → Goes (if b then m else n)
  on = either env hash plan R frame

  abbrev gives {ℓ} : {A : Type ℓ} (a : A) → Goes (return a)
  gives = give env hash plan R frame

  abbrev saves : (c : ReconfigurationCheckpoint) → Goes (keep plan c)
  saves = keeping env hash plan R frame

  abbrev may_fail : (b : Bool) (c : ReconfigurationCheckpoint) → Goes (or_fail b c)
  may_fail = or_fail-Moves env hash plan R frame

  note_availability-Moves :
      (n : String) (absent : List String) (c : ReconfigurationCheckpoint) (o : StepOutcome)
      → Goes (note_availability env hash plan n absent c o)
  unfolding note_availability
  note_availability-Moves n absent c o =
      on (not o.is_ok) (and_then (saves _) (λ _. and_then (may_fail _ _) (λ _. gives _)))
        (on (contains n absent) (and_then (saves _) (λ _. gives _)) (gives _))

  preflight_all-Moves :
      (ns absent : List String) (c : ReconfigurationCheckpoint)
      → Goes (preflight_all env hash plan ns absent c)
  unfolding preflight_all
  preflight_all-Moves [] absent c = gives c
  preflight_all-Moves (n ∷ ns) absent c = and_then (called c preflight n _ n) (λ out.
      and_then (note_availability-Moves n absent out.0 out.1)
        (λ next. preflight_all-Moves ns next.1 next.0))

  stop_one-Moves : (n : String) (c : ReconfigurationCheckpoint) → Goes (stop_one env hash plan n c)
  unfolding stop_one
  stop_one-Moves n c =
      on (contains n c.unavailable_nodes) (gives c)
        (and_then (called c stop n _ n) (λ out. and_then (may_fail _ _) (λ _. gives out.0)))

  stop_all-Moves :
      (ns : List String) (c : ReconfigurationCheckpoint) → Goes (stop_all env hash plan ns c)
  unfolding stop_all
  stop_all-Moves [] c = gives c
  stop_all-Moves (n ∷ ns) c = and_then (stop_one-Moves n c) (λ c1. stop_all-Moves ns c1)

  push_one-Moves : (n : String) (c : ReconfigurationCheckpoint) → Goes (push_one env hash plan n c)
  unfolding push_one
  push_one-Moves n c =
      on (contains n c.unavailable_nodes) (gives c)
        (and_then (called c push n _ n) (λ out. and_then (may_fail _ _) (λ _. gives _)))

  push_all-Moves :
      (ns : List String) (c : ReconfigurationCheckpoint) → Goes (push_all env hash plan ns c)
  unfolding push_all
  push_all-Moves [] c = gives c
  push_all-Moves (n ∷ ns) c = and_then (push_one-Moves n c) (λ c1. push_all-Moves ns c1)

  start_phase-Moves : (c : ReconfigurationCheckpoint) → Goes (start_phase env hash plan c)
  unfolding start_phase
  start_phase-Moves c =
      and_then
        (called c start plan.desired.head.node_id
          (some (ask_start plan.desired.head plan.desired.epoch)) plan.desired.head.node_id)
        (λ out. and_then (may_fail out.1.is_ok out.0) (λ _. gives out.0))

  verify_head-Moves : (c : ReconfigurationCheckpoint) → Goes (verify_head env hash plan c)
  unfolding verify_head
  verify_head-Moves c =
      and_then
        (called c verify plan.desired.head.node_id
          (some (ask_verify (plan.desired.head ∷ []) plan.desired.head plan.desired.epoch)) "head")
        (λ out. and_then (may_fail out.1.is_ok out.0) (λ _.
          and_then (saves (record out.0 { new_head_healthy = true }))
            (λ _. gives (record out.0 { new_head_healthy = true }))))

  join_one-Moves : (n : String) (c : ReconfigurationCheckpoint) → Goes (join_one env hash plan n c)
  unfolding join_one
  join_one-Moves n c =
      on (contains n c.unavailable_nodes) (gives (c, true))
        (and_then (called c join n _ n) (λ out. gives _))

  join_all-Moves :
      (ns missing : List String) (c : ReconfigurationCheckpoint)
      → Goes (join_all env hash plan ns missing c)
  unfolding join_all
  join_all-Moves [] missing c = gives (c, missing)
  join_all-Moves (n ∷ ns) missing c =
      and_then (join_one-Moves n c) (λ out. join_all-Moves ns _ out.0)

  verify_cluster-Moves : (c : ReconfigurationCheckpoint) → Goes (verify_cluster env hash plan c)
  unfolding verify_cluster
  verify_cluster-Moves c =
      and_then
        (called c verify "cluster"
          (some (ask_verify (nodes plan.desired) plan.desired.head plan.desired.epoch)) "cluster")
        (λ out. gives _)

  pub forward-Moves : (c : ReconfigurationCheckpoint) → Goes (forward env hash plan c)
  unfolding forward
  forward-Moves c =
      and_then
        (preflight_all-Moves (from_keys (node_ids plan.expected ++ node_ids plan.desired))
          c.unavailable_nodes c)
        (λ c1. and_then (stop_all-Moves (node_ids plan.expected) c1) (λ c2.
          and_then (push_all-Moves (node_ids plan.desired) c2) (λ c3.
            and_then (start_phase-Moves c3) (λ c4. and_then (verify_head-Moves c4) (λ c5.
              and_then (join_all-Moves (worker_ids plan.desired) [] c5) (λ j.
                and_then (verify_cluster-Moves j.0)
                  (λ v. gives (v.0, forward_result plan v.0 v.2 (sorted_set (j.1 ++ v.1))))))))))
