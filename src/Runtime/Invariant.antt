-- ===== src/Runtime/Invariant.antt =====
-- What every operation of the coordinator keeps, whatever the host does.
use rcm_windows.Prelude.{
  if◌then◌else◌, Bool-cases, is_empty, ok, err, ℕ, String, ◌≡◌, refl, ap, ◌∙◌, ◌⊎◌, inl, inr, true,
  Option, none, some, List, [], ◌∷◌, ◌++◌, arith,
}
use rcm_windows.Runtime.Defs.{
  timeout_of, new_runtime, run_units, RuntimeState, RuntimeUnit, Host, Seconds, Runtime, StartEnd,
  stopped, starting, running, stopping, failed, completed, raised,
}
use rcm_windows.Runtime.Ops.{
  begin_start, cancel, finish_stop, stop_timeout, start_failed, finish_start, start_from, start,
  stop_from, stop_within, stop,
}
use rcm_windows.Runtime.Calls.{run_units_all, shutdown-ShutDown, ShutDown}

-- A coordinator between two operations.
pub record IsWellFormed (r : Runtime) : Type 0 where
  pub quiescent : (r.state ≡ stopped) ⊎ ((r.state ≡ running) ⊎ (r.state ≡ failed))
  pub running_all : r.state ≡ running → r.active ≡ r.units
  pub stopped_none : r.state ≡ stopped → r.active ≡ []

nil_of_is_empty : (us : List RuntimeUnit) → is_empty us ≡ true → us ≡ []
nil_of_is_empty [] e = refl
nil_of_is_empty (u ∷ us) e = cc

module _ (h : Host) where
  finish_start-IsWellFormed :
      (us : List RuntimeUnit) (e : StartEnd) (r : Runtime)
      → r.units ≡ us
      → (e ≡ completed → r.active ≡ us)
      → IsWellFormed (finish_start h (e, r)).1
  unfolding start_failed
  finish_start-IsWellFormed us completed r u a = ground (arith, a refl)
  finish_start-IsWellFormed us (raised x) r u a = ground arith

  started-IsWellFormed :
      (r : Runtime)
      → is_empty r.active ≡ true
      → IsWellFormed (finish_start h (run_units h r.units (begin_start r))).1
  started-IsWellFormed r e =
      let (end, t) = run_units h r.units (begin_start r) in
      let all = run_units_all h r.units (begin_start r) in
      finish_start-IsWellFormed r.units end t all.0
        (λ q. all.1 q ∙ ap (λ us. us ++ r.units) (nil_of_is_empty r.active e))

  start_from-IsWellFormed :
      (st : RuntimeState) (r : Runtime) → IsWellFormed r → IsWellFormed (start_from h st r).1
  start_from-IsWellFormed running r v = v
  start_from-IsWellFormed starting r v = v
  start_from-IsWellFormed stopping r v = v
  start_from-IsWellFormed stopped r v = elim (Bool-cases (is_empty r.active)) [
    | inl e ↦ rw (e, if◌then◌else◌) (started-IsWellFormed r e)
    | inr e ↦ rw (e, if◌then◌else◌) v
  ]
  start_from-IsWellFormed failed r v = elim (Bool-cases (is_empty r.active)) [
    | inl e ↦ rw (e, if◌then◌else◌) (started-IsWellFormed r e)
    | inr e ↦ rw (e, if◌then◌else◌) v
  ]

  -- A start, whether it returns or raises, leaves the coordinator well formed.
  pub start-IsWellFormed : (r : Runtime) → IsWellFormed r → IsWellFormed (start h r).1
  unfolding start
  start-IsWellFormed r v = start_from-IsWellFormed r.state r v

  finish_stop-IsWellFormed :
      (r : Runtime) (first : Option String) (t : Runtime)
      → ShutDown stopped r first t
      → IsWellFormed (finish_stop (first, t)).1
  finish_stop-IsWellFormed r none t d = ground (arith, d)
  finish_stop-IsWellFormed r (some c) t d = ground arith

  stop_from-IsWellFormed :
      (st : RuntimeState) (timeout : ℕ) (r : Runtime)
      → IsWellFormed r
      → IsWellFormed (stop_from h st timeout r).1
  stop_from-IsWellFormed stopping timeout r v = v
  stop_from-IsWellFormed stopped timeout r v = ground (
    arith,
    v,
    finish_stop-IsWellFormed _ _ _
        (shutdown-ShutDown h timeout stopped (record r { state = stopping })),
  )
  stop_from-IsWellFormed _ timeout r v =
      finish_stop-IsWellFormed _ _ _
        (shutdown-ShutDown h timeout stopped (record r { state = stopping }))

  cancel-IsWellFormed : (r : Runtime) → IsWellFormed r → IsWellFormed (cancel r)
  unfolding cancel
  cancel-IsWellFormed r v = ground arith

  pub stop-IsWellFormed :
      (timeout : Option Seconds) (r : Runtime) → IsWellFormed r → IsWellFormed (stop h timeout r).1
  unfolding stop
  stop-IsWellFormed timeout r v =
      elim (stop_timeout timeout (cancel r)) as (λ t. IsWellFormed (stop_within h t (cancel r)).1) [
        | ok t ↦ stop_from-IsWellFormed r.state t (cancel r) (cancel-IsWellFormed r v)
        | err e ↦ cancel-IsWellFormed r v
      ]

-- A call of the coordinator by its owner.
pub data Call : Type 0 where
  starts cancels : Call
  stops : Option Seconds → Call

unfoldable pub step : Host → Runtime → Call → Runtime
step h r starts = (start h r).1
step h r cancels = cancel r
step h r (stops timeout) = (stop h timeout r).1

unfoldable pub run : Host → Runtime → List Call → Runtime
run h r [] = r
run h r (c ∷ cs) = run h (step h r c) cs

step-IsWellFormed : (h : Host) (r : Runtime) (c : Call) → IsWellFormed r → IsWellFormed (step h r c)
unfolding step
step-IsWellFormed h r starts v = start-IsWellFormed h r v
step-IsWellFormed h r cancels v = cancel-IsWellFormed h r v
step-IsWellFormed h r (stops timeout) v = stop-IsWellFormed h timeout r v

run_from-IsWellFormed :
    (h : Host) (r : Runtime) (cs : List Call) → IsWellFormed r → IsWellFormed (run h r cs)
unfolding run
run_from-IsWellFormed h r [] v = v
run_from-IsWellFormed h r (c ∷ cs) v =
    run_from-IsWellFormed h (step h r c) cs (step-IsWellFormed h r c v)

new_runtime-IsWellFormed :
    (units : List RuntimeUnit) (timeout : Seconds) (r : Runtime)
    → new_runtime units timeout ≡ ok r
    → IsWellFormed r
unfolding new_runtime timeout_of
new_runtime-IsWellFormed units timeout r e = ground arith

-- After any calls on a new coordinator it is stopped, running or failed, it is running only with all
-- of its units active, and it is stopped only with none.
pub run-IsWellFormed :
    (h : Host) (units : List RuntimeUnit) (timeout : Seconds) (r : Runtime) (cs : List Call)
    → new_runtime units timeout ≡ ok r
    → IsWellFormed (run h r cs)
run-IsWellFormed h units timeout r cs e =
    run_from-IsWellFormed h r cs (new_runtime-IsWellFormed units timeout r e)
