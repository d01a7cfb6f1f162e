-- ===== src/Tests/RuntimeUnits.antt =====
-- Three components, of which the third fails to start and the first is slow to end.
use rcm_windows.Prelude.{
  if◌then◌else◌, length, runtime_start_error, ok, err, pos, ℕ, ◌+◌, ◌-◌, ◌*◌, String, ◌≡◌, refl,
  inl, false, none, some, List, [], ◌∷◌, ◌++◌, reverse, str_eq,
}
use rcm_windows.Runtime.{
  timeout_of, names, new_runtime, RuntimeUnit, Event, Host, Runtime, stopped, running, clock_read,
  started_ok, start_raised, joined, not_joined, finite, shutdown, start,
}
use rcm_windows.Runtime.History.{
  history, starts_of, stops_of, joins_of, history-shutdown, stop_of, join_of,
}
use rcm_windows.Runtime.Invariant.{run, run-IsWellFormed, IsWellFormed, starts, cancels, stops}
use rcm_windows.Runtime.Grants.{shutdown-GrantsFrom, GrantsFrom}
use rcm_windows.Runtime.Unwind.{start_fails_unwinds}

abbrev unit_named : String → RuntimeUnit
unit_named name = record { name = name }

abbrev three : List RuntimeUnit
three = unit_named "poller" ∷ unit_named "server" ∷ unit_named "ray" ∷ []

abbrev clock : List Event → ℕ
clock es = 2 * length es

abbrev flaky : Host
flaky = record {
  start_reply = λ es n. if str_eq n "ray" then start_raised else started_ok;
  stop_raises = λ es n t. str_eq n "server";
  join_reply = λ es n t. if str_eq n "poller" then not_joined else joined;
  cancel_arrived = λ es. false;
  monotonic = clock;
  add_time = λ a b. a + b;
  time_left = λ a b. a - b;
}

abbrev idle_runtime : Runtime
idle_runtime = record {
  units = three;
  shutdown_timeout = 10;
  state = stopped;
  active = [];
  cancelled = false;
  failure_code = none;
  trace = [];
}

new_three : new_runtime three (finite (pos 10)) ≡ ok idle_runtime
unfolding new_runtime timeout_of
new_three = refl

abbrev all_started : Runtime
all_started = record idle_runtime { state = running; active = three }

flaky_fails : (start flaky idle_runtime).0 ≡ err runtime_start_error
unfolding start
flaky_fails = refl

flaky_leaves : names (start flaky idle_runtime).1.active ≡ "poller" ∷ []
unfolding start
flaky_leaves = refl

run-IsWellFormed_example :
    IsWellFormed (run flaky idle_runtime (starts ∷ stops (some (finite (pos 3))) ∷ cancels ∷ []))
run-IsWellFormed_example =
    run-IsWellFormed flaky three (finite (pos 10)) idle_runtime
      (starts ∷ stops (some (finite (pos 3))) ∷ cancels ∷ []) new_three

history-shutdown_example :
    history (shutdown flaky 10 stopped all_started).1.trace
    ≡ stop_of "ray"
      ∷ stop_of "server"
      ∷ stop_of "poller"
      ∷ join_of "ray"
      ∷ join_of "server"
      ∷ join_of "poller"
      ∷ []
history-shutdown_example = history-shutdown flaky 10 stopped all_started

start_fails_unwinds_example :
    (attempted : List RuntimeUnit) × (others : List RuntimeUnit) × (three ≡ attempted ++ others)
    × (history (start flaky idle_runtime).1.trace
        ≡ starts_of attempted ++ (stops_of (reverse attempted) ++ joins_of (reverse attempted)))
start_fails_unwinds_example =
    start_fails_unwinds flaky idle_runtime runtime_start_error (inl refl) refl flaky_fails

-- The clock moves on by two at each call, so that later components get less time.
shutdown-GrantsFrom_example :
    GrantsFrom flaky 10 (clock_read ∷ []) (shutdown flaky 10 stopped all_started).1.trace
shutdown-GrantsFrom_example = shutdown-GrantsFrom flaky 10 stopped all_started
