-- ===== src/Runtime/Ops.antt =====
-- src/rcm/runtime.py: shutdown, and the operations `start`, `stop` and `cancel`.
use rcm_windows.Prelude.{
  if◌then◌else◌, select, is_empty, contains, Exn, Result, runtime_lifecycle_error,
  runtime_start_error, runtime_shutdown_error, keyboard_interrupt, ok, err, ℕ, String, ◌<>◌, Bool,
  true, false, Option, none, some, List, [], ◌∷◌, ◌++◌, reverse,
}
use rcm_windows.Runtime.Defs.{
  timeout_of, names, snapshot, call_stop, call_join, read_clock, run_units, RuntimeState,
  RuntimeUnit, JoinReply, Host, Seconds, Runtime, RuntimeSnapshot, StartEnd, stopped, starting,
  running, stopping, failed, joined, not_joined, invalid_result, join_raised, completed, raised,
}

-- if first_failure is None: first_failure = …
abbrev pub or_first : Option String → String → Option String
or_first none code = some code
or_first (some first) code = some first

-- The failure that one `join` records, and whether the component was joined.
unfoldable pub join_outcome : RuntimeUnit → JoinReply → Option String → Option String × Bool
join_outcome u joined first = (first, true)
join_outcome u not_joined first = (or_first first (u.name <> ":join:timeout"), false)
join_outcome u invalid_result first = (or_first first (u.name <> ":join:invalid_result"), false)
join_outcome u join_raised first = (or_first first (u.name <> ":join:error"), false)

abbrev pub keep_unresolved : List RuntimeUnit → List RuntimeUnit → List RuntimeUnit
keep_unresolved unresolved = select (λ (u : RuntimeUnit). contains u.name (names unresolved))

-- The state after a shutdown without a failure.
abbrev pub settled : RuntimeState → Runtime → Runtime
settled stopped r = record r { state = stopped; failure_code = none }
settled final r = record r { state = final }

abbrev pub conclude :
    RuntimeState → Option String × List RuntimeUnit × Runtime → Option String × Runtime
conclude final (none, unresolved, r) =
    (none, settled final (record r { active = keep_unresolved unresolved r.active }))
conclude final (some code, unresolved, r) =
    (some code, record r { active = keep_unresolved unresolved r.active })

abbrev pub or_code : Option String → Runtime → Runtime
or_code none r = r
or_code (some code) r = record r { failure_code = some code }

abbrev pub start_exn : Exn → Exn
start_exn keyboard_interrupt = keyboard_interrupt
start_exn _ = runtime_start_error

abbrev pub begin_start : Runtime → Runtime
begin_start r = record r { state = starting; failure_code = none; cancelled = false }

unfoldable pub cancel : Runtime → Runtime
cancel r = record r { cancelled = true }

abbrev pub finish_stop : Option String × Runtime → Result RuntimeSnapshot × Runtime
finish_stop (none, r) = (ok (snapshot r), r)
finish_stop (some code, r) =
    (err runtime_shutdown_error, record r { state = failed; failure_code = some code })

abbrev pub stop_timeout : Option Seconds → Runtime → Result ℕ
stop_timeout none r = ok r.shutdown_timeout
stop_timeout (some t) r = timeout_of t

module _ (h : Host) where
  -- One round of the first loop of `_shutdown`: whether `stop` raised, and the state after it.
  abbrev pub stop_one : ℕ → RuntimeUnit → Runtime → Bool × Runtime
  stop_one deadline u r =
      let (now, r1) = read_clock h r in call_stop h u (h.time_left deadline now) r1

  unfoldable pub stop_all : ℕ → List RuntimeUnit → Option String → Runtime → Option String × Runtime
  unfolding read_clock call_stop
  stop_all deadline [] first r = (first, r)
  stop_all deadline (u ∷ us) first r =
      let (fails, r1) = stop_one deadline u r in
      stop_all deadline us (if fails then or_first first (u.name <> ":stop:error") else first) r1

  -- One round of the second loop: what `join` did, and the state after it.
  abbrev pub join_one : ℕ → RuntimeUnit → Runtime → JoinReply × Runtime
  join_one deadline u r =
      let (now, r1) = read_clock h r in call_join h u (h.time_left deadline now) r1

  unfoldable pub join_all :
      ℕ
      → List RuntimeUnit
      → Option String
      → List RuntimeUnit
      → Runtime
      → Option String × List RuntimeUnit × Runtime
  unfolding read_clock call_join join_outcome
  join_all deadline [] first unresolved r = (first, unresolved, r)
  join_all deadline (u ∷ us) first unresolved r =
      let (reply, r1) = join_one deadline u r in
      let (first', was_joined) = join_outcome u reply first in
      join_all deadline us first' (if was_joined then unresolved else unresolved ++ u ∷ []) r1

  -- _shutdown
  unfoldable pub shutdown : ℕ → RuntimeState → Runtime → Option String × Runtime
  unfolding read_clock stop_all join_all
  shutdown timeout final r =
      let (now, r1) = read_clock h r in
      let deadline = h.add_time now timeout in
      let active = reverse r1.active in
      let (first, r2) = stop_all deadline active none r1 in
      conclude final (join_all deadline active first [] r2)

  -- The `except` of `_start`.
  unfoldable pub start_failed : Exn → Runtime → Result RuntimeSnapshot × Runtime
  unfolding shutdown
  start_failed e r =
      let (problem, r1) =
        shutdown r.shutdown_timeout failed
          (record r { cancelled = true; failure_code = some "start_error" }) in
      (err (start_exn e), record (or_code problem r1) { state = failed })

  abbrev pub finish_start : StartEnd × Runtime → Result RuntimeSnapshot × Runtime
  finish_start (completed, r) = let r1 = record r { state = running } in (ok (snapshot r1), r1)
  finish_start (raised e, r) = start_failed e r

  abbrev pub start_from : RuntimeState → Runtime → Result RuntimeSnapshot × Runtime
  start_from running r = (ok (snapshot r), r)
  start_from starting r = (err runtime_lifecycle_error, r)
  start_from stopping r = (err runtime_lifecycle_error, r)
  start_from _ r =
      let go = finish_start (run_units h r.units (begin_start r)) in
      if is_empty r.active then go else (err runtime_lifecycle_error, r)

  -- start, _start
  unfoldable pub start : Runtime → Result RuntimeSnapshot × Runtime
  unfolding run_units start_failed
  start r = start_from r.state r

  abbrev pub stop_from : RuntimeState → ℕ → Runtime → Result RuntimeSnapshot × Runtime
  stop_from stopping timeout r = (ok (snapshot r), r)
  stop_from stopped timeout r =
      let go = finish_stop (shutdown timeout stopped (record r { state = stopping })) in
      if is_empty r.active then (ok (snapshot r), r) else go
  stop_from _ timeout r = finish_stop (shutdown timeout stopped (record r { state = stopping }))

  abbrev pub stop_within : Result ℕ → Runtime → Result RuntimeSnapshot × Runtime
  stop_within (ok timeout) r = stop_from r.state timeout r
  stop_within (err e) r = (err e, r)

  -- stop, _stop: the token is cancelled before the timeout is looked at.
  unfoldable pub stop : Option Seconds → Runtime → Result RuntimeSnapshot × Runtime
  unfolding cancel shutdown
  stop timeout r = let r1 = cancel r in stop_within (stop_timeout timeout r1) r1
