-- ===== src/Runtime/Defs.antt =====
-- src/rcm/runtime.py: the state of the coordinator and its operations.
use rcm_windows.Prelude.{
  if◌then◌else◌, unique, ◌>>=◌, ◌>>◌, guard, Exn, Result, value_error, runtime_error,
  runtime_cancelled_error, keyboard_interrupt, ok, err, ℤ, pos, negsuc, ℕ, String, Bool, false,
  ◌||◌, Option, none, List, [], ◌∷◌, ◌++◌, map,
}

pub data RuntimeState : Type 0 where
  stopped starting running stopping failed : RuntimeState

pub record RuntimeUnit : Type 0 where
  pub name : String

pub data Event : Type 0 where
  checked clock_read : Event
  started : String → Event
  -- With the time that is left for the call.
  stopped_unit joined_unit : String → ℕ → Event

pub data StartReply : Type 0 where
  started_ok start_raised start_interrupted : StartReply

pub data JoinReply : Type 0 where
  joined not_joined invalid_result join_raised : JoinReply

pub record Host : Type 0 where
  pub start_reply : List Event → String → StartReply
  pub stop_raises : List Event → String → ℕ → Bool
  pub join_reply : List Event → String → ℕ → JoinReply
  pub cancel_arrived : List Event → Bool
  pub monotonic : List Event → ℕ
  -- The sum of two times, and max(0.0, a - b), as the floating-point numbers round them.
  pub add_time : ℕ → ℕ → ℕ
  pub time_left : ℕ → ℕ → ℕ

-- A number as it is handed to `_timeout`: a finite one, which is negative or not, or none.
pub data Seconds : Type 0 where
  finite : ℤ → Seconds
  not_finite : Seconds

unfoldable pub timeout_of : Seconds → Result ℕ
timeout_of (finite (pos n)) = ok n
timeout_of (finite (negsuc n)) = err value_error
timeout_of not_finite = err value_error

pub record Runtime : Type 0 where
  pub units : List RuntimeUnit
  pub shutdown_timeout : ℕ
  pub state : RuntimeState
  pub active : List RuntimeUnit
  pub cancelled : Bool
  pub failure_code : Option String
  pub trace : List Event

abbrev pub names : List RuntimeUnit → List String
names = map (λ u. u.name)

-- RuntimeCoordinator.__init__
unfoldable pub new_runtime : List RuntimeUnit → Seconds → Result Runtime
new_runtime units shutdown_timeout = do
  guard (unique (names units)) value_error
  timeout ← timeout_of shutdown_timeout
  ok (record {
    units = units;
    shutdown_timeout = timeout;
    state = stopped;
    active = [];
    cancelled = false;
    failure_code = none;
    trace = [];
  })

pub record RuntimeSnapshot : Type 0 where
  pub state : RuntimeState
  pub configured : List String
  pub active : List String
  pub cancellation_requested : Bool
  pub failure_code : Option String

unfoldable pub snapshot : Runtime → RuntimeSnapshot
snapshot r = record {
  state = r.state;
  configured = names r.units;
  active = names r.active;
  cancellation_requested = r.cancelled;
  failure_code = r.failure_code;
}

-- How the `try` of `_start` ended.
pub data StartEnd : Type 0 where
  completed : StartEnd
  raised : Exn → StartEnd

module _ (h : Host) where
  -- self._cancellation.cancelled
  unfoldable pub check : Runtime → Runtime
  check r = record r {
    cancelled = r.cancelled || h.cancel_arrived r.trace;
    trace = checked ∷ r.trace;
  }

  unfoldable pub call_start : RuntimeUnit → Runtime → StartReply × Runtime
  call_start u r = (h.start_reply r.trace u.name, record r { trace = started u.name ∷ r.trace })

  unfoldable pub call_stop : RuntimeUnit → ℕ → Runtime → Bool × Runtime
  call_stop u remaining r = (
    h.stop_raises r.trace u.name remaining,
    record r { trace = stopped_unit u.name remaining ∷ r.trace },
  )

  unfoldable pub call_join : RuntimeUnit → ℕ → Runtime → JoinReply × Runtime
  call_join u remaining r = (
    h.join_reply r.trace u.name remaining,
    record r { trace = joined_unit u.name remaining ∷ r.trace },
  )

  unfoldable pub read_clock : Runtime → ℕ × Runtime
  read_clock r = (h.monotonic r.trace, record r { trace = clock_read ∷ r.trace })

  -- self._active.append(unit), after the check of the token.
  abbrev pub entered : RuntimeUnit → Runtime → Runtime
  entered u r = let r1 = check r in record r1 { active = r1.active ++ u ∷ [] }

  -- unit.component.start(…) and the check after it.
  abbrev pub launched : RuntimeUnit → Runtime → Runtime
  launched u r = check (call_start u (entered u r)).1

  -- What follows the call of `start`; `rest` is the rest of the loop.
  abbrev pub after_start :
      RuntimeUnit → Runtime → StartReply → StartEnd × Runtime → StartEnd × Runtime
  after_start u r start_raised rest = (raised runtime_error, (call_start u (entered u r)).1)
  after_start u r start_interrupted rest =
      (raised keyboard_interrupt, (call_start u (entered u r)).1)
  after_start u r started_ok rest =
      if (launched u r).cancelled then (raised runtime_cancelled_error, launched u r) else rest

  -- for unit in self._units: …
  unfoldable pub run_units : List RuntimeUnit → Runtime → StartEnd × Runtime
  unfolding check call_start
  run_units [] r = (completed, r)
  run_units (u ∷ us) r =
      let rest = run_units us (launched u r) in
      let entry = after_start u r (call_start u (entered u r)).0 rest in
      if (check r).cancelled then (raised runtime_cancelled_error, check r) else entry
