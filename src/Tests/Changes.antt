-- ===== src/Tests/Changes.antt =====
-- Concrete runs of the reconfigurator: the head moves from one node to the other, and every command
-- succeeds.
use rcm_windows.Reconfiguration.Again.{execute_again}
use rcm_windows.Prelude.{ok, String, ◌≡◌, refl, true, false, none, some, [], ◌∷◌}
use rcm_windows.Core.Types.{NodeRole, ActionStatus, Node, ActionResult, head, worker}
use rcm_windows.Cluster.Guard.{MaintenanceLease, Guard}
use rcm_windows.Reconfiguration.Types.{
  check_plan, fresh_checkpoint, ReconfigurationStatus, ClusterTopology, ReconfigurationPlan, Hasher,
  ReconfigurationResult, ReconfigurationCheckpoint,
}
use rcm_windows.Reconfiguration.Journal.{new_journal, claim, goes_back, load}
use rcm_windows.Reconfiguration.Control.{
  interrupts, ask_stop, Command, Reply, Environment, World, Ending, answers, raises, done,
  cancelled_at, phase_failed, raised,
}
use rcm_windows.Reconfiguration.Run.{terminal_result, forward, execute, run}
use rcm_windows.Reconfiguration.Claims.{run_returns_claims, stale_plan-Refused, Refused}

abbrev node : String → NodeRole → Node
node name role = record {
  node_id = name;
  address = "10.0.0.1";
  role = role;
  enabled = true;
  capabilities = [];
}

abbrev before : ClusterTopology
before = record { epoch = 3; head = node "a" head; workers = node "b" worker ∷ [] }

abbrev after : ClusterTopology
after = record { epoch = 4; head = node "b" head; workers = node "a" worker ∷ [] }

abbrev move : ReconfigurationPlan
move = record { operation_id = "move-1"; expected = before; desired = after }

abbrev late : ReconfigurationPlan
late = record { operation_id = "late-1"; expected = before; desired = after }

-- The next move, from epoch 4 on.
abbrev onward : ReconfigurationPlan
onward = record {
  operation_id = "move-2";
  expected = record before { epoch = 4 };
  desired = record after { epoch = 5 };
}

abbrev hash : Hasher
hash = record { manifest_digest = λ t. "m"; pair_digest = λ p. "p" }

abbrev fine : ActionResult
fine = record {
  status = ActionStatus.succeeded;
  code = "ok";
  message = "";
  retryable = false;
  details = [];
}

abbrev willing : Environment
willing = record { answer = λ trace c. answers fine; cancel_requested = λ trace. false }

-- The lease of the operation, issued and not in use.
abbrev lease : MaintenanceLease
lease = record { request_id = "move-1"; epoch = 3; token = 0 }

abbrev next_lease : MaintenanceLease
next_lease = record { request_id = "move-2"; epoch = 4; token = 0 }

abbrev lease_guard : Guard
lease_guard = record {
  lease = some lease;
  tokens = λ i. record { active = true; in_use = false };
  issued = 1;
}

abbrev calm : World
calm = record { journal = new_journal; trace = [] }

-- A journal that has come to epoch 4.
abbrev later : World
later = record { journal = record new_journal { epoch = some 4 }; trace = [] }

plan_is_valid : check_plan move ≡ ok move
unfolding check_plan
plan_is_valid = refl

run_returns_claims_example :
    ((run willing hash move lease lease_guard calm).2.journal.active_operation
      ≡ calm.journal.active_operation)
    × (((run willing hash move lease lease_guard calm).1.tokens 0).in_use
        ≡ (lease_guard.tokens 0).in_use)
run_returns_claims_example = run_returns_claims willing hash move lease lease_guard calm 0

-- A plan that starts from epoch 3 is behind it, and after the next move as well.
is_behind : goes_back late.expected.epoch later.journal.epoch ≡ true
unfolding new_journal
is_behind = refl

is_unknown :
    load late.operation_id (run willing hash onward next_lease lease_guard later).2.journal ≡ none
unfolding run new_journal
is_unknown = refl

stale_plan-Refused_example :
    let (e, h, v) = run willing hash onward next_lease lease_guard later in
    Refused v (run willing hash late lease h v)
stale_plan-Refused_example =
    stale_plan-Refused willing hash onward late next_lease lease lease_guard later is_behind
      is_unknown

abbrev value :
    Ending (ReconfigurationCheckpoint × ReconfigurationResult)
    → ReconfigurationCheckpoint × ReconfigurationResult
value (done x) = x
value (cancelled_at c) = (c, terminal_result move c ReconfigurationStatus.cancelled before)
value (phase_failed c) = (c, terminal_result move c ReconfigurationStatus.failed before)
value (raised e) = (
  fresh_checkpoint "",
  terminal_result move (fresh_checkpoint "") ReconfigurationStatus.failed before,
)

abbrev claimed_world : World
claimed_world = record { journal = (claim "move-1" 3 new_journal).1; trace = [] }

abbrev moved : Ending (ReconfigurationCheckpoint × ReconfigurationResult) × World
moved = forward willing hash move (fresh_checkpoint "p") claimed_world

-- The adapter that fails everything, for the second time.
abbrev unwilling : Environment
unwilling = record { answer = λ trace c. raises; cancel_requested = λ trace. true }

abbrev result_of : Ending ReconfigurationResult → ReconfigurationResult
result_of (done r) = r
result_of (cancelled_at c) = terminal_result move c ReconfigurationStatus.cancelled before
result_of (phase_failed c) = terminal_result move c ReconfigurationStatus.failed before
result_of (raised e) =
    terminal_result move (fresh_checkpoint "") ReconfigurationStatus.failed before

abbrev first_time : Ending ReconfigurationResult × World
first_time = execute willing hash move claimed_world

returns : first_time.0 ≡ done (result_of first_time.0)
unfolding execute claim new_journal
returns = refl

execute_again_example :
    execute unwilling hash move first_time.1 ≡ (done (result_of first_time.0), first_time.1)
execute_again_example =
    execute_again willing unwilling hash move claimed_world (result_of first_time.0) returns

-- An adapter whose host is interrupted during a stop.
abbrev breaks_on_stop : Command → Reply
breaks_on_stop (ask_stop n e) = interrupts
breaks_on_stop _ = answers fine

abbrev breaking : Environment
breaking = record { answer = λ trace c. breaks_on_stop c; cancel_requested = λ trace. false }

abbrev broken : Ending ReconfigurationResult × World
broken = execute breaking hash move claimed_world

abbrev second : ReconfigurationResult
second = result_of (execute unwilling hash move broken.1).0

-- After an interrupted stop, a cancelled second run reports the expected topology as known.
second_report :
    (second.effective_state_known ≡ true)
    × (second.effective_epoch ≡ 3)
    × (second.rollback_performed ≡ false)
unfolding execute claim new_journal
second_report = (refl, refl, refl)
