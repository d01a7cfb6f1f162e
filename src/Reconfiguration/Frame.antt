-- ===== src/Reconfiguration/Frame.antt =====
-- Relations between the worlds before and after a piece of the reconfigurator that all of its
-- primitives keep, and `_call`.
use rcm_windows.Prelude.{if◌then◌else◌, contains, ℕ, ◌≤◌, String, Bool, true, false, Option, arith}
use rcm_windows.Reconfiguration.Types.{
  is_mutation, failure, ReconfigurationPhase, ReconfigurationPlan, Hasher,
  ReconfigurationCheckpoint,
}
use rcm_windows.Reconfiguration.Journal.{is_some}
use rcm_windows.Reconfiguration.Control.{
  Action, bind, ◌>>=◌, return, end, keep, fence, read_token, ask, check_cancelled, first_judgement,
  judge, step_key, attempt, call, Command, Reply, Environment, World, Ending, answers, other_object,
  raises, interrupts, done, cancelled_at, phase_failed, raised,
}
use rcm_windows.Reconfiguration.Phases.{or_fail}

pub record IsFrame (env : Environment) (plan : ReconfigurationPlan) (R : World → World → Type 0)
    : Type 0 where
  pub stays : (w : World) → R w w
  pub follows : {u v w : World} → R u v → R v w → R u w
  pub keeps : (c : ReconfigurationCheckpoint) (w : World) → R w (keep plan c w).1
  pub fences : (n : ℕ) (w : World) → plan.desired.epoch ≤ n → R w (fence n w).1
  pub reads : (w : World) → R w (read_token env w).1
  pub asks : (o : Option Command) (w : World) → R w (ask env o w).1

module _ (env : Environment) (hash : Hasher) (plan : ReconfigurationPlan)
    (R : World → World → Type 0) (frame : IsFrame env plan R) where
  -- From every world the action leads to a related one.
  pub record Moves {ℓ} {A : Type ℓ} (m : Action A) : Type 0 where
    pub moves : (w : World) → R w (m w).1

  pub bind_from {ℓ κ} :
      {A : Type ℓ} {B : Type κ} (w : World) (out : Ending A × World) (f : A → Action B)
      → R w out.1
      → ((a : A) → Moves (f a))
      → R w (bind out f).1
  bind_from w (done a, v) f r h = frame.follows r ((h a).moves v)
  bind_from w (cancelled_at c, v) f r h = r
  bind_from w (phase_failed c, v) f r h = r
  bind_from w (raised e, v) f r h = r

  pub then-Moves {ℓ κ} :
      {A : Type ℓ} {B : Type κ} {m : Action A} {f : A → Action B}
      → Moves m
      → ((a : A) → Moves (f a))
      → Moves (m >>= f)
  then-Moves {m} {f} h k = record { moves = λ w. bind_from w (m w) f (h.moves w) k }

  pub either {ℓ} :
      {A : Type ℓ} {m n : Action A} (b : Bool) → Moves m → Moves n → Moves (if b then m else n)
  either true h k = h
  either false h k = k

  pub stay {ℓ} : {A : Type ℓ} (e : Ending A) → Moves (end e)
  stay e = record { moves = frame.stays }

  pub give {ℓ} : {A : Type ℓ} (a : A) → Moves (return a)
  give a = record { moves = frame.stays }

  pub keeping : (c : ReconfigurationCheckpoint) → Moves (keep plan c)
  keeping c = record { moves = frame.keeps c }

  pub fencing : (n : ℕ) → plan.desired.epoch ≤ n → Moves (fence n)
  fencing n h = record { moves = λ w. frame.fences n w h }

  reading : Moves (read_token env)
  reading = record { moves = frame.reads }

  pub asking : (o : Option Command) → Moves (ask env o)
  asking o = record { moves = frame.asks o }

  pub or_fail-Moves : (b : Bool) (c : ReconfigurationCheckpoint) → Moves (or_fail b c)
  or_fail-Moves true c = give tt
  or_fail-Moves false c = stay (phase_failed c)

  check_cancelled-Moves : (c : ReconfigurationCheckpoint) → Moves (check_cancelled env c)
  unfolding check_cancelled
  check_cancelled-Moves c = then-Moves reading (λ b. either b (stay (cancelled_at c)) (give tt))

  first_judgement-Moves : (r : Reply) → Moves (first_judgement env r)
  unfolding first_judgement
  first_judgement-Moves (answers r) = give _
  first_judgement-Moves other_object = give _
  first_judgement-Moves raises =
      then-Moves reading (λ b.
        give (if b then (failure "cancelled", true) else (failure "adapter.exception", false)))
  first_judgement-Moves interrupts = stay _

  judge-Moves : (r : Reply) → Moves (judge env r)
  unfolding judge
  judge-Moves r =
      then-Moves (first_judgement-Moves r)
        (λ o. then-Moves reading (λ b. give (if b then (failure "cancelled", true) else o)))

  attempt-Moves :
      (c : ReconfigurationCheckpoint) (phase : ReconfigurationPhase) (node_id key : String)
      (action : Option Command)
      → Moves (attempt env plan c phase node_id key action)
  unfolding attempt
  attempt-Moves c phase node_id key action =
      then-Moves (either (is_mutation phase) (fencing plan.desired.epoch (omega arith)) (give tt))
        (λ _. then-Moves (keeping _) (λ _. then-Moves (asking action) (λ reply.
          then-Moves (judge-Moves reply)
            (λ o. then-Moves (keeping _) (λ _. either o.1 (stay _) (give _))))))

  pub call-Moves :
      (c : ReconfigurationCheckpoint) (phase : ReconfigurationPhase) (node_id : String)
      (action : Option Command) (suffix : String)
      → Moves (call env plan c phase node_id action suffix)
  unfolding call
  call-Moves c phase node_id action suffix = then-Moves (check_cancelled-Moves c) (λ _.
      either (contains (step_key env phase suffix) c.completed_steps) (give _) (
        either (is_some c.inflight_step) (then-Moves (keeping _) (λ _. give _))
          (attempt-Moves c phase node_id (step_key env phase suffix) action)))
