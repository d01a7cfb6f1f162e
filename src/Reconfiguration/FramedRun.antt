-- ===== src/Reconfiguration/FramedRun.antt =====
-- The frame rule of Frame, for the rollback and `_execute`.
use rcm_windows.Reconfiguration.Rollback.{
  safe_outcome, target, act_now, acted, act, undo_result, push_one_back, push_back, join_one_back,
  join_back, bring_back, restart, begin_undo, go_back, roll_back, Undo,
}
use rcm_windows.Reconfiguration.Journal.{is_key, load}
use rcm_windows.Prelude.{
  if◌then◌else◌, contains, conflict_error, ◌+◌, String, ◌<>◌, Bool, false, not, ◌&&◌, Option, none,
  some, List, [], ◌∷◌, ◌++◌, arith, str_eq,
}
use rcm_windows.Core.Types.{Node}
use rcm_windows.Reconfiguration.Types.{
  worker_ids, head_id, nodes, fingerprint, success, failure, fresh_checkpoint,
  ReconfigurationStatus, ClusterTopology, ReconfigurationPlan, Hasher, ReconfigurationResult,
  ReconfigurationCheckpoint, partial, failed, cancelled,
}
use rcm_windows.Reconfiguration.Control.{
  Action, ◌>>=◌, return, keep, Command, Environment, World, Ending, ask_stop, ask_start, ask_verify,
  done, cancelled_at, phase_failed, raised,
}
use rcm_windows.Reconfiguration.Phases.{or_fail}
use rcm_windows.Reconfiguration.Run.{
  terminal_result, needs_rollback, forward, recover, handle, finish, proceed, resume, execute_from,
  execute,
}
use rcm_windows.Reconfiguration.Frame.{
  bind_from, then-Moves, either, stay, give, keeping, fencing, asking, or_fail-Moves, IsFrame,
  Moves,
}
use rcm_windows.Reconfiguration.Framed.{forward-Moves}

module _ (env : Environment) (hash : Hasher) (plan : ReconfigurationPlan)
    (R : World → World → Type 0) (frame : IsFrame env plan R) where
  abbrev Goes {ℓ} : {A : Type ℓ} → Action A → Type 0
  Goes m = Moves env hash plan R frame m

  abbrev and_then {ℓ κ} :
      {A : Type ℓ} {B : Type κ} {m : Action A} {f : A → Action B}
      → Goes m
      → ((a : A) → Goes (f a))
      → Goes (m >>= f)
  and_then = then-Moves env hash plan R frame

  abbrev on {ℓ} :
      {A : Type ℓ} {m n : Action A} (b : Bool) → Goes m → Goes n → Goes (if b then m else n)
  on = either env hash plan R frame

  abbrev gives {ℓ} : {A : Type ℓ} (a : A) → Goes (return a)
  gives = give env hash plan R frame

  abbrev saves : (c : ReconfigurationCheckpoint) → Goes (keep plan c)
  saves = keeping env hash plan R frame

  abbrev may_fail : (b : Bool) (c : ReconfigurationCheckpoint) → Goes (or_fail b c)
  may_fail = or_fail-Moves env hash plan R frame

  act_now-Moves :
      (key : String) (action : Command) (c : ReconfigurationCheckpoint)
      → Goes (act_now env hash plan key action c)
  unfolding act_now
  act_now-Moves key action c =
      and_then (fencing env hash plan R frame (plan.desired.epoch + 1) (omega arith)) (λ _.
        and_then (saves (record c { inflight_step = some key })) (λ _.
          and_then (asking env hash plan R frame (some action))
            (λ reply. stay env hash plan R frame (safe_outcome env reply))))

  act-Moves :
      (key node_id : String) (action : Command) (u : Undo)
      → Goes (act env hash plan key node_id action u)
  unfolding act
  act-Moves key node_id action u =
      on (contains (key <> ":ok") u.checkpoint.completed_steps) (gives (success, u)) (
        on (contains (key <> ":failed") u.checkpoint.completed_steps)
          (gives (failure "rollback.previous_failure", u))
          (and_then
            (on (is_key u.checkpoint.inflight_step key) (gives (failure "step.outcome_unknown"))
              (act_now-Moves key action u.checkpoint))
            (λ o.
              and_then (saves (acted env hash plan key node_id o u).checkpoint)
                (λ _. gives (o, acted env hash plan key node_id o u)))))

  push_one_back-Moves : (n : Node) (b : Bool) (u : Undo) → Goes (push_one_back env hash plan n b u)
  unfolding push_one_back
  push_one_back-Moves n b u =
      on
        (contains n.node_id u.checkpoint.unavailable_nodes
          && not (str_eq n.node_id (head_id (target env hash plan))))
        (gives (b, u))
        (and_then (act-Moves _ _ _ u) (λ out.
          gives (
            (if str_eq n.node_id (head_id (target env hash plan)) then out.0.is_ok else b),
            out.1,
          )))

  push_back-Moves : (ns : List Node) (b : Bool) (u : Undo) → Goes (push_back env hash plan ns b u)
  unfolding push_back
  push_back-Moves [] b u = gives (b, u)
  push_back-Moves (n ∷ ns) b u =
      and_then (push_one_back-Moves n b u) (λ out. push_back-Moves ns out.0 out.1)

  join_one_back-Moves : (n : Node) (u : Undo) → Goes (join_one_back env hash plan n u)
  unfolding join_one_back
  join_one_back-Moves n u =
      on (contains n.node_id u.failed_nodes) (gives u)
        (and_then (act-Moves _ _ _ u) (λ out. gives out.1))

  join_back-Moves : (ns : List Node) (u : Undo) → Goes (join_back env hash plan ns u)
  unfolding join_back
  join_back-Moves [] u = gives u
  join_back-Moves (n ∷ ns) u = and_then (join_one_back-Moves n u) (λ u1. join_back-Moves ns u1)

  abbrev goal : ClusterTopology
  goal = target env hash plan

  bring_back-Moves : (u : Undo) → Goes (bring_back env hash plan u)
  unfolding bring_back
  bring_back-Moves u = and_then (join_back-Moves goal.workers u) (λ u1.
      and_then
        (act-Moves "rollback:verify:cluster" "cluster"
          (ask_verify (nodes goal) goal.head goal.epoch) u1)
        (λ out. gives (
          out.0.is_ok,
          (if out.0.is_ok
              then out.1
              else record out.1 { failed_nodes = out.1.failed_nodes ++ worker_ids goal }),
        )))

  restart-Moves : (u : Undo) → Goes (restart env hash plan u)
  unfolding restart
  restart-Moves u =
      and_then
        (act-Moves ("rollback:start:" <> head_id goal) (head_id goal)
          (ask_start goal.head goal.epoch) u)
        (λ started.
          and_then
            (on started.0.is_ok
              (act-Moves ("rollback:verify:" <> head_id goal) (head_id goal)
                (ask_verify (goal.head ∷ []) goal.head goal.epoch) started.1)
              (gives (failure "rollback.head_not_started", started.1)))
            (λ verified.
              on verified.0.is_ok (bring_back-Moves verified.1) (gives (false, verified.1))))

  go_back-Moves : (u : Undo) → Goes (go_back env hash plan u)
  unfolding go_back
  go_back-Moves u =
      and_then (push_back-Moves (nodes goal) false u)
        (λ pushed. on pushed.0 (restart-Moves pushed.1) (gives (false, pushed.1)))

  pub roll_back-Moves :
      (status : ReconfigurationStatus) (c : ReconfigurationCheckpoint)
      → Goes (roll_back env hash plan status c)
  unfolding roll_back
  roll_back-Moves status c = and_then (saves (begin_undo env hash plan status c).checkpoint) (λ _.
      and_then
        (act-Moves ("rollback:stop:" <> head_id plan.desired) (head_id plan.desired)
          (ask_stop plan.desired.head goal.epoch) (begin_undo env hash plan status c))
        (λ stopped.
          and_then (on stopped.0.is_ok (go_back-Moves stopped.1) (gives (false, stopped.1)))
            (λ out. gives (out.1.checkpoint, undo_result env hash plan status out.0 out.1))))

  recover-Moves :
      (status stable : ReconfigurationStatus) (c : ReconfigurationCheckpoint)
      → Goes (recover env hash plan status stable c)
  unfolding recover
  recover-Moves status stable c =
      on c.new_head_healthy (gives (c, terminal_result plan c stable plan.desired)) (
        on (not (needs_rollback c)) (gives (c, terminal_result plan c status plan.expected))
          (roll_back-Moves status c))

  pub handle-Moves :
      (w : World) (out : Ending (ReconfigurationCheckpoint × ReconfigurationResult) × World)
      → R w out.1
      → R w (handle env hash plan out).1
  unfolding handle
  handle-Moves w (cancelled_at c, v) r =
      frame.follows r ((recover-Moves cancelled cancelled c).moves v)
  handle-Moves w (phase_failed c, v) r = frame.follows r ((recover-Moves failed partial c).moves v)
  handle-Moves w (done out, v) r = r
  handle-Moves w (raised e, v) r = r

  finish-Moves :
      (out : ReconfigurationCheckpoint × ReconfigurationResult) → Goes (finish env hash plan out)
  unfolding finish
  finish-Moves (c, r) = and_then (saves (record c { result = some r })) (λ _. gives r)

  pub proceed-Moves :
      (o : Option ReconfigurationStatus) (c : ReconfigurationCheckpoint)
      → Goes (proceed env hash plan o c)
  proceed-Moves none c = record {
    moves = λ w.
        bind_from env hash plan R frame w _ _
          (handle-Moves w (forward env hash plan c w)
            ((forward-Moves env hash plan R frame c).moves w))
          finish-Moves;
  }
  proceed-Moves (some status) c = and_then (roll_back-Moves status c) finish-Moves

  resume-Moves :
      (o : Option ReconfigurationResult) (c : ReconfigurationCheckpoint)
      → Goes (resume env hash plan o c)
  resume-Moves (some r) c = gives r
  resume-Moves none c = proceed-Moves c.rollback_status c

  execute_from-Moves : (o : Option ReconfigurationCheckpoint) → Goes (execute_from env hash plan o)
  execute_from-Moves none =
      and_then (saves (fresh_checkpoint (fingerprint hash plan)))
        (λ _. proceed-Moves none (fresh_checkpoint (fingerprint hash plan)))
  execute_from-Moves (some c) =
      on (str_eq c.plan_fingerprint (fingerprint hash plan)) (resume-Moves c.result c)
        (stay env hash plan R frame (raised conflict_error))

  -- Whatever every primitive keeps, `_execute` keeps.
  pub execute-Moves : (w : World) → R w (execute env hash plan w).1
  unfolding execute
  execute-Moves w = (execute_from-Moves (load plan.operation_id w.journal)).moves w
