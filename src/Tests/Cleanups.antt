-- ===== src/Tests/Cleanups.antt =====
-- The cleanup of one process that ends only when it is forced.
use rcm_windows.Prelude.{
  All, rejected_error, ok, err, String, ◌≡◌, refl, Bool, true, false, some, List, [], ◌∷◌, ◌++◌,
}
use rcm_windows.Cleanup.Types.{
  matches, ProcessIdentity, ProcessObservation, CleanupRule, CleanupPolicy,
}
use rcm_windows.Cleanup.Facade.{
  new_facade, scan, execute, CleanupCandidate, Event, Host, World, Facade, forced, scanned,
  force_sent, clock_read, wall_read,
}
use rcm_windows.Cleanup.Evidence.{Good}
use rcm_windows.Cleanup.History.{created, scans, executes, Reach-Good, Reach}
use rcm_windows.Cleanup.Once.{execute_once}

abbrev digest : String
digest = "00000000000000000000000000000000000000000000000000000000000000ff"

abbrev worker : ProcessIdentity
worker = record {
  pid = 40;
  create_time = 7;
  image_name = "raylet.exe";
  owner_token = digest;
  session_id = 1;
}

abbrev other : ProcessIdentity
other = record worker { pid = 41; session_id = 2 }

abbrev rule : CleanupRule
rule = record {
  rule_id = "raylet";
  image_names = "raylet.exe" ∷ [];
  command_fingerprints = digest ∷ [];
  minimum_age_seconds = 5;
  allow_connections = false;
  image_case_sensitive = true;
}

abbrev policy : CleanupPolicy
policy = record {
  owner_token = digest;
  session_id = 1;
  rules = rule ∷ [];
  max_processes = 8;
  result_max_age_seconds = 30;
  graceful_timeout_seconds = 10;
  force_timeout_seconds = 30;
}

abbrev observed : ProcessIdentity → ProcessObservation
observed p = record { identity = p; command_fingerprint = digest; connection_count = 0 }

abbrev was_forced : List Event → Bool
was_forced [] = false
was_forced (force_sent p a ∷ rest) = true
was_forced (e ∷ rest) = was_forced rest

abbrev stubborn : Host
stubborn = record {
  scan = λ events limit. ok (observed worker ∷ observed other ∷ []);
  inspect = λ events pid. ok (some worker);
  request_graceful = λ events p. ok true;
  wait = λ events pid seconds. ok (was_forced events);
  force = λ events p. ok true;
  monotonic = λ events. 100;
  now = λ events. some 50;
}

abbrev same : String → String
same s = s

abbrev empty : World
empty = record { events = []; objects = 3 }

abbrev found : CleanupCandidate
found = record {
  object = 3;
  ticket = 1;
  identity = worker;
  command_fingerprint = digest;
  rule_id = "raylet";
  scanned_monotonic = 100;
}

abbrev filled : Facade
filled = record { policy = policy; next_ticket = 2; issued = found ∷ [] }

abbrev log : World
log = record {
  events =
      wall_read (some 50)
      ∷ clock_read 100
      ∷ scanned 9 (ok (observed worker ∷ observed other ∷ []))
      ∷ [];
  objects = 4;
}

scan_fills : scan same stubborn (new_facade policy) empty ≡ (
  ok (record { candidates = found ∷ []; inspected_count = 2; scanned_monotonic = 100 }),
  filled,
  log,
)
unfolding scan matches
scan_fills = refl

forced_at_last :
    (execute stubborn (found ∷ []) filled log).0 ≡ ok (record { pid = 40; outcome = forced } ∷ [])
unfolding execute
forced_at_last = refl

filled-Reach : Reach same stubborn policy filled log
unfolding scan matches
filled-Reach = scans (new_facade policy) empty (created 3)

executed-Reach :
    Reach same stubborn policy
      (execute stubborn (found ∷ []) filled log).1
      (execute stubborn (found ∷ []) filled log).2
executed-Reach = executes (found ∷ []) filled log (((λ _. refl), tt), tt) filled-Reach

Reach-Good_example :
    Good same policy
      (execute stubborn (found ∷ []) filled log).1
      (execute stubborn (found ∷ []) filled log).2
Reach-Good_example =
    Reach-Good same stubborn policy (execute stubborn (found ∷ []) filled log).1
      (execute stubborn (found ∷ []) filled log).2 executed-Reach

execute_once_example :
    All
      (λ c.
        (before after : List CleanupCandidate) (v : World)
        → execute stubborn (before ++ c ∷ after) (execute stubborn (found ∷ []) filled log).1 v
          ≡ (err rejected_error, (execute stubborn (found ∷ []) filled log).1, v))
      (found ∷ [])
execute_once_example =
    execute_once stubborn (found ∷ []) filled log (record { pid = 40; outcome = forced } ∷ [])
      forced_at_last
