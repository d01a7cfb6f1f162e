-- ===== src/Reconfiguration/Control.antt =====
-- src/rcm/reconfiguration.py: how the reconfigurator speaks with the journal, the cancellation token
-- and the Ray adapter, and `_call`, the one step of the forward phases.
--
-- The adapter and the token are the environment: what they answer may depend on everything that was
-- done before. An answer is an `ActionResult`, another object, an exception, or an interrupt that the
-- handlers of `Exception` let through. The type checks are the types of the arguments.
use rcm_windows.Prelude.{
  if◌then◌else◌, contains, Exn, Result, keyboard_interrupt, ok, err, ℕ, String, ◌<>◌, Bool, true,
  false, Option, none, some, List, [], ◌∷◌, ◌++◌,
}
use rcm_windows.Core.Types.{is_cancelled, action_ok, Node, ActionResult}
use rcm_windows.Reconfiguration.Types.{
  phase_value, is_mutation, check_outcome, success, failure, ReconfigurationPhase,
  ReconfigurationPlan, StepOutcome, ReconfigurationCheckpoint,
}
use rcm_windows.Reconfiguration.Journal.{is_some, advance_epoch, save, Journal}

pub data Command : Type 0 where
  ask_preflight ask_stop ask_start : Node → ℕ → Command
  ask_push : Node → String → ℕ → Command
  ask_join : Node → Node → ℕ → Command
  ask_verify : List Node → Node → ℕ → Command

pub data Reply : Type 0 where
  answers : ActionResult → Reply
  other_object raises interrupts : Reply

pub data Event : Type 0 where
  token_read : Event
  advanced : ℕ → Event
  saved : ReconfigurationCheckpoint → Event
  issued : Command → Event

pub record Environment : Type 0 where
  pub answer : List Event → Command → Reply
  pub cancel_requested : List Event → Bool

-- The newest event comes first.
pub record World : Type 0 where
  pub journal : Journal
  pub trace : List Event

-- How a piece of the reconfigurator ends: `_Cancelled` and `_PhaseFailed` carry a checkpoint.
pub data Ending {ℓ} (A : Type ℓ) : Type ℓ where
  done : A → Ending A
  cancelled_at phase_failed : ReconfigurationCheckpoint → Ending A
  raised : Exn → Ending A

abbrev pub Action {ℓ} : Type ℓ → Type ℓ
Action A = World → Ending A × World

abbrev pub bind {ℓ κ} :
    {A : Type ℓ} {B : Type κ} → Ending A × World → (A → Action B) → Ending B × World
bind (done a, w) f = f a w
bind (cancelled_at c, w) f = (cancelled_at c, w)
bind (phase_failed c, w) f = (phase_failed c, w)
bind (raised e, w) f = (raised e, w)

infixl 5 ◌>>=◌ ◌>>◌
abbrev pub ◌>>=◌ {ℓ κ} : {A : Type ℓ} {B : Type κ} → Action A → (A → Action B) → Action B
(m >>= f) w = bind (m w) f

abbrev pub ◌>>◌ {ℓ κ} : {A : Type ℓ} {B : Type κ} → Action A → Action B → Action B
m >> k = m >>= λ _. k

abbrev pub return {ℓ} : {A : Type ℓ} → A → Action A
return a w = (done a, w)

abbrev pub end {ℓ} : {A : Type ℓ} → Ending A → Action A
end e w = (e, w)

abbrev written : Result Journal → Event → World → Ending (Unit {0}) × World
written (ok j) e w = (done tt, record { journal = j; trace = e ∷ w.trace })
written (err x) e w = (raised x, w)

unfoldable pub keep : ReconfigurationPlan → ReconfigurationCheckpoint → Action (Unit {0})
unfolding save
keep plan c w = written (save plan.operation_id c w.journal) (saved c) w

unfoldable pub fence : ℕ → Action (Unit {0})
unfolding advance_epoch
fence epoch w = written (advance_epoch epoch w.journal) (advanced epoch) w

module _ (env : Environment) where
  unfoldable pub read_token : Action Bool
  read_token w = (done (env.cancel_requested w.trace), record w { trace = token_read ∷ w.trace })

  -- A command whose node is not found raises before the adapter is reached.
  unfoldable pub ask : Option Command → Action Reply
  ask none w = (done raises, w)
  ask (some c) w = (done (env.answer w.trace c), record w { trace = issued c ∷ w.trace })

  unfoldable pub check_cancelled : ReconfigurationCheckpoint → Action (Unit {0})
  unfolding read_token
  check_cancelled c = do stop_now ← read_token; if stop_now then end (cancelled_at c) else return tt

  abbrev pub or_invalid_code : Result StepOutcome → StepOutcome
  or_invalid_code (ok o) = o
  or_invalid_code (err e) = failure "adapter.invalid_code"

  -- _step_outcome
  abbrev pub step_outcome : ActionResult → StepOutcome
  step_outcome r = if action_ok r then success else or_invalid_code (check_outcome (failure r.code))

  -- The first judgement of `_call`, before the token is looked at again, and whether it cancels.
  unfoldable pub first_judgement : Reply → Action (StepOutcome × Bool)
  unfolding read_token
  first_judgement (answers r) = return (step_outcome r, is_cancelled r.status)
  first_judgement other_object = return (failure "adapter.invalid_result", false)
  first_judgement raises = do
    stop_now ← read_token
    return (if stop_now then (failure "cancelled", true) else (failure "adapter.exception", false))
  first_judgement interrupts = end (raised keyboard_interrupt)

  unfoldable pub judge : Reply → Action (StepOutcome × Bool)
  unfolding read_token first_judgement
  judge reply = do
    first ← first_judgement reply
    stop_now ← read_token
    return (if stop_now then (failure "cancelled", true) else first)

  abbrev pub step_key : ReconfigurationPhase → String → String
  step_key phase suffix = phase_value phase <> ":" <> suffix

  abbrev pub reported :
      ReconfigurationPhase
      → String
      → String
      → StepOutcome
      → ReconfigurationCheckpoint
      → ReconfigurationCheckpoint
  reported phase node_id key outcome c = record c {
    completed_steps = if outcome.is_ok then c.completed_steps ++ key ∷ [] else c.completed_steps;
    reports = c.reports ++ record { phase = phase; node_id = node_id; outcome = outcome } ∷ [];
    inflight_step = none;
  }

  module _ (plan : ReconfigurationPlan) where
    -- The part of `_call` that has the adapter act.
    unfoldable pub attempt :
        ReconfigurationCheckpoint
        → ReconfigurationPhase
        → String
        → String
        → Option Command
        → Action (ReconfigurationCheckpoint × StepOutcome)
    unfolding keep fence ask judge
    attempt c phase node_id key action = do
      if is_mutation phase then fence plan.desired.epoch else return tt
      let c1 = record c { inflight_step = some key }
      keep plan c1
      reply ← ask action
      judgement ← judge reply
      let c2 = reported phase node_id key judgement.0 c1
      keep plan c2
      if judgement.1 then end (cancelled_at c2) else return (c2, judgement.0)

    -- A step that was begun and of which the journal has no outcome.
    abbrev pub outcome_unknown :
        ReconfigurationCheckpoint
        → ReconfigurationPhase
        → String
        → Action (ReconfigurationCheckpoint × StepOutcome)
    outcome_unknown c phase node_id = do
      let o = failure "step.outcome_unknown"
      let c1 = record c {
        inflight_step = none;
        reports = c.reports ++ record { phase = phase; node_id = node_id; outcome = o } ∷ [];
      }
      keep plan c1
      return (c1, o)

    -- _call; the suffix of the key is given.
    unfoldable pub call :
        ReconfigurationCheckpoint
        → ReconfigurationPhase
        → String
        → Option Command
        → String
        → Action (ReconfigurationCheckpoint × StepOutcome)
    unfolding keep check_cancelled attempt
    call c phase node_id action suffix = do
      check_cancelled c
      let key = step_key phase suffix
      if contains key c.completed_steps
          then return (c, success)
          else if is_some c.inflight_step
          then outcome_unknown c phase node_id
          else attempt c phase node_id key action
