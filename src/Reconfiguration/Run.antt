-- ===== src/Reconfiguration/Run.antt =====
-- src/rcm/reconfiguration.py: `_execute` with its recovery, and `run` under the maintenance lease.
use rcm_windows.Prelude.{
  ◌==◌, if◌then◌else◌, any, is_empty, Result, conflict_error, stale_error, ok, err, String, Bool,
  true, false, not, ◌&&◌, Option, none, some, List, [], ◌++◌, str_eq,
}
use rcm_windows.Cluster.Guard.{
  claim as claim_lease, is_active, release_claim, MaintenanceLease, Guard,
}
use rcm_windows.Reconfiguration.Types.{
  is_mutation, worker_ids, head_id, node_ids, fingerprint, fresh_checkpoint, sorted_set,
  ReconfigurationStatus, ClusterTopology, ReconfigurationPlan, Hasher, PhaseReport,
  ReconfigurationResult, ReconfigurationCheckpoint, succeeded, partial, failed, cancelled,
}
use rcm_windows.Reconfiguration.Journal.{claim, release, load, Journal}
use rcm_windows.Reconfiguration.Control.{
  Action, bind, ◌>>=◌, ◌>>◌, return, end, keep, Environment, World, Ending, done, cancelled_at,
  phase_failed, raised,
}
use rcm_windows.Reconfiguration.Phases.{
  preflight_all, preflight_phase, stop_all, push_all, start_phase, verify_head, join_all,
  verify_cluster,
}
use rcm_windows.Reconfiguration.Rollback.{roll_back}

abbrev pub terminal_result :
    ReconfigurationPlan
    → ReconfigurationCheckpoint
    → ReconfigurationStatus
    → ClusterTopology
    → ReconfigurationResult
terminal_result plan c status t = record {
  operation_id = plan.operation_id;
  status = status;
  effective_epoch = t.epoch;
  effective_head_id = head_id t;
  reports = c.reports;
  missing_worker_ids = sorted_set c.unavailable_nodes;
  rollback_performed = false;
  effective_state_known = true;
}

abbrev pub needs_rollback : ReconfigurationCheckpoint → Bool
needs_rollback c = any (λ (r : PhaseReport). is_mutation r.phase) c.reports

-- The result of the forward phases.
abbrev pub forward_result :
    ReconfigurationPlan → ReconfigurationCheckpoint → Bool → List String → ReconfigurationResult
forward_result plan c verified missing = record {
  operation_id = plan.operation_id;
  status = if verified && is_empty missing then succeeded else partial;
  effective_epoch = plan.desired.epoch;
  effective_head_id = head_id plan.desired;
  reports = c.reports;
  missing_worker_ids = missing;
  rollback_performed = false;
  effective_state_known = true;
}

module _ (env : Environment) (hash : Hasher) (plan : ReconfigurationPlan) where
  -- The body of the `try` of `_execute`.
  unfoldable pub forward :
      ReconfigurationCheckpoint → Action (ReconfigurationCheckpoint × ReconfigurationResult)
  unfolding preflight_all stop_all push_all start_phase verify_head join_all verify_cluster
  forward c = do
    c1 ← preflight_phase env hash plan c
    c2 ← stop_all env hash plan (node_ids plan.expected) c1
    c3 ← push_all env hash plan (node_ids plan.desired) c2
    c4 ← start_phase env hash plan c3
    c5 ← verify_head env hash plan c4
    joined ← join_all env hash plan (worker_ids plan.desired) [] c5
    verified ← verify_cluster env hash plan joined.0
    let missing = sorted_set (joined.1 ++ verified.1)
    return (verified.0, forward_result plan verified.0 verified.2 missing)

  unfoldable pub recover :
      ReconfigurationStatus
      → ReconfigurationStatus
      → ReconfigurationCheckpoint
      → Action (ReconfigurationCheckpoint × ReconfigurationResult)
  unfolding roll_back
  recover status stable c =
      if c.new_head_healthy
      then return (c, terminal_result plan c stable plan.desired)
      else if not (needs_rollback c)
      then return (c, terminal_result plan c status plan.expected)
      else roll_back env hash plan status c

  -- The handlers of `_execute`.
  unfoldable pub handle :
      Ending (ReconfigurationCheckpoint × ReconfigurationResult) × World
      → Ending (ReconfigurationCheckpoint × ReconfigurationResult) × World
  unfolding recover
  handle (cancelled_at c, w) = recover cancelled cancelled c w
  handle (phase_failed c, w) = recover failed partial c w
  handle (done out, w) = (done out, w)
  handle (raised e, w) = (raised e, w)

  -- checkpoint = replace(checkpoint, result=result); save; return result
  unfoldable pub finish :
      ReconfigurationCheckpoint × ReconfigurationResult → Action ReconfigurationResult
  unfolding keep
  finish (c, r) = do keep plan (record c { result = some r }); return r

  abbrev pub proceed :
      Option ReconfigurationStatus → ReconfigurationCheckpoint → Action ReconfigurationResult
  proceed none c = λ w. bind (handle (forward c w)) finish
  proceed (some status) c = do out ← roll_back env hash plan status c; finish out

  abbrev pub resume :
      Option ReconfigurationResult → ReconfigurationCheckpoint → Action ReconfigurationResult
  resume (some r) c = return r
  resume none c = proceed c.rollback_status c

  abbrev pub execute_from : Option ReconfigurationCheckpoint → Action ReconfigurationResult
  execute_from none = do
    let c = fresh_checkpoint (fingerprint hash plan)
    keep plan c
    proceed none c
  execute_from (some c) =
      if str_eq c.plan_fingerprint (fingerprint hash plan)
      then resume c.result c
      else end (raised conflict_error)

  -- _execute
  unfoldable pub execute : Action ReconfigurationResult
  unfolding keep forward handle finish roll_back
  execute w = execute_from (load plan.operation_id w.journal) w

  -- finally: self._journal.release(…), whose own error would take the place of the ending.
  abbrev pub released_with {ℓ} : {A : Type ℓ} → Result Journal → Ending A → World → Ending A × World
  released_with (ok j) e w = (e, record w { journal = j })
  released_with (err x) e w = (raised x, w)

  abbrev pub run_claimed : Result Bool × Journal → World → Ending ReconfigurationResult × World
  run_claimed (err x, j) w = (raised x, record w { journal = j })
  run_claimed (ok false, j) w = (raised conflict_error, record w { journal = j })
  run_claimed (ok true, j) w =
      let (e, w1) = execute (record w { journal = j }) in
      released_with (release plan.operation_id w1.journal) e w1

  abbrev pub run_leased :
      MaintenanceLease → Bool × Guard → World → Ending ReconfigurationResult × Guard × World
  run_leased lease (false, g) w = (raised conflict_error, g, w)
  run_leased lease (true, g) w =
      let (e, w1) = run_claimed (claim plan.operation_id plan.expected.epoch w.journal) w in
      (e, release_claim lease g, w1)

  -- run
  unfoldable pub run :
      MaintenanceLease → Guard → World → Ending ReconfigurationResult × Guard × World
  unfolding execute release claim_lease claim release_claim
  run lease g w =
      if not (is_active g lease)
      then (raised conflict_error, g, w)
      else if not (str_eq lease.request_id plan.operation_id)
      then (raised conflict_error, g, w)
      else if not (lease.epoch == plan.expected.epoch)
      then (raised stale_error, g, w)
      else run_leased lease (claim_lease lease g) w
