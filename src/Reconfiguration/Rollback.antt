-- ===== src/Reconfiguration/Rollback.antt =====
-- src/rcm/reconfiguration.py: `_rollback`, the way back to the expected topology at a later epoch.
--
-- The variables that its inner function `act` changes are the fields of `Undo`.
use rcm_windows.Prelude.{
  if◌then◌else◌, select, is_empty, contains, keyboard_interrupt, ◌+◌, String, ◌<>◌, Bool, true,
  false, not, ◌&&◌, none, some, List, [], ◌∷◌, ◌++◌, str_eq,
}
use rcm_windows.Core.Types.{Node}
use rcm_windows.Reconfiguration.Types.{
  is_rollback, worker_ids, head_id, nodes, with_epoch, success, failure, sorted_set,
  ReconfigurationStatus, ClusterTopology, ReconfigurationPlan, Hasher, StepOutcome, PhaseReport,
  ReconfigurationResult, ReconfigurationCheckpoint, rollback,
}
use rcm_windows.Reconfiguration.Journal.{is_key}
use rcm_windows.Reconfiguration.Control.{
  Action, ◌>>=◌, ◌>>◌, return, end, keep, fence, ask, step_outcome, Command, Reply, Environment,
  Ending, ask_stop, ask_start, ask_push, ask_join, ask_verify, answers, other_object, raises,
  interrupts, done, raised,
}

pub record Undo : Type 0 where
  pub checkpoint : ReconfigurationCheckpoint
  pub reports : List PhaseReport
  pub failed_nodes : List String

-- _safe_action, for a reply that has come.
abbrev pub safe_outcome : Environment → Reply → Ending StepOutcome
safe_outcome env (answers r) = done (step_outcome env r)
safe_outcome env other_object = done (failure "adapter.invalid_result")
safe_outcome env raises = done (failure "adapter.exception")
safe_outcome env interrupts = raised keyboard_interrupt

abbrev pub failed_rollbacks : List PhaseReport → List String
failed_rollbacks [] = []
failed_rollbacks (r ∷ rs) =
    let rest = failed_rollbacks rs in
    if is_rollback r.phase && not r.outcome.is_ok then r.node_id ∷ rest else rest

module _ (env : Environment) (hash : Hasher) (plan : ReconfigurationPlan) where
  abbrev pub target : ClusterTopology
  target = with_epoch (plan.desired.epoch + 1) plan.expected

  -- The branch of `act` that has the adapter act.
  unfoldable pub act_now : String → Command → ReconfigurationCheckpoint → Action StepOutcome
  unfolding keep fence ask
  act_now key action c = do
    fence target.epoch
    keep plan (record c { inflight_step = some key })
    reply ← ask env (some action)
    end (safe_outcome env reply)

  abbrev pub acted : String → String → StepOutcome → Undo → Undo
  acted key node_id o u =
      let reports = u.reports ++ record { phase = rollback; node_id = node_id; outcome = o } ∷ [] in
      record {
        checkpoint = record u.checkpoint {
          reports = reports;
          inflight_step = none;
          completed_steps =
              u.checkpoint.completed_steps ++ (key <> (if o.is_ok then ":ok" else ":failed")) ∷ [];
        };
        reports = reports;
        failed_nodes = if o.is_ok then u.failed_nodes else u.failed_nodes ++ node_id ∷ [];
      }

  -- act
  unfoldable pub act : String → String → Command → Undo → Action (StepOutcome × Undo)
  unfolding keep act_now
  act key node_id action u =
      if contains (key <> ":ok") u.checkpoint.completed_steps
      then return (success, u)
      else if contains (key <> ":failed") u.checkpoint.completed_steps
      then return (failure "rollback.previous_failure", u)
      else (do
        o ←
            if is_key u.checkpoint.inflight_step key
            then return (failure "step.outcome_unknown")
            else act_now key action u.checkpoint
        let u1 = acted key node_id o u
        keep plan u1.checkpoint
        return (o, u1))

  abbrev pub undo_result : ReconfigurationStatus → Bool → Undo → ReconfigurationResult
  undo_result status known u = record {
    operation_id = plan.operation_id;
    status = status;
    effective_epoch = target.epoch;
    effective_head_id = head_id target;
    reports = u.checkpoint.reports;
    missing_worker_ids = sorted_set (select (λ n. contains n (worker_ids target)) u.failed_nodes);
    rollback_performed = true;
    effective_state_known = known && is_empty u.failed_nodes;
  }

  -- A round of the loop that pushes the manifest back: whether the head has it, and the state.
  unfoldable pub push_one_back : Node → Bool → Undo → Action (Bool × Undo)
  unfolding act
  push_one_back n head_ok u =
      if contains n.node_id u.checkpoint.unavailable_nodes
        && not (str_eq n.node_id (head_id target))
      then return (head_ok, u)
      else (do
        out ←
            act ("rollback:push:" <> n.node_id) n.node_id
              (ask_push n (hash.manifest_digest target) target.epoch) u
        return ((if str_eq n.node_id (head_id target) then out.0.is_ok else head_ok), out.1))

  unfoldable pub push_back : List Node → Bool → Undo → Action (Bool × Undo)
  unfolding push_one_back
  push_back [] head_ok u = return (head_ok, u)
  push_back (n ∷ ns) head_ok u = do out ← push_one_back n head_ok u; push_back ns out.0 out.1

  unfoldable pub join_one_back : Node → Undo → Action Undo
  unfolding act
  join_one_back n u = if contains n.node_id u.failed_nodes then return u else (do
    out ← act ("rollback:join:" <> n.node_id) n.node_id (ask_join n target.head target.epoch) u
    return out.1)

  unfoldable pub join_back : List Node → Undo → Action Undo
  unfolding join_one_back
  join_back [] u = return u
  join_back (n ∷ ns) u = do u1 ← join_one_back n u; join_back ns u1

  -- What follows a verified head: the workers, and whether the cluster is verified.
  unfoldable pub bring_back : Undo → Action (Bool × Undo)
  unfolding act join_back
  bring_back u = do
    u1 ← join_back target.workers u
    out ←
        act "rollback:verify:cluster" "cluster" (ask_verify (nodes target) target.head target.epoch)
          u1
    return (
      out.0.is_ok,
      (if out.0.is_ok
          then out.1
          else record out.1 { failed_nodes = out.1.failed_nodes ++ worker_ids target }),
    )

  unfoldable pub restart : Undo → Action (Bool × Undo)
  unfolding act bring_back
  restart u = do
    started ←
        act ("rollback:start:" <> head_id target) (head_id target)
          (ask_start target.head target.epoch) u
    verified ←
        if started.0.is_ok
        then act ("rollback:verify:" <> head_id target) (head_id target)
            (ask_verify (target.head ∷ []) target.head target.epoch) started.1
        else return (failure "rollback.head_not_started", started.1)
    if verified.0.is_ok then bring_back verified.1 else return (false, verified.1)

  abbrev pub begin_undo : ReconfigurationStatus → ReconfigurationCheckpoint → Undo
  begin_undo status c = record {
    checkpoint = record c { rollback_status = some status };
    reports = c.reports;
    failed_nodes = c.unavailable_nodes ++ failed_rollbacks c.reports;
  }

  -- What follows once the candidate for the head has stopped.
  unfoldable pub go_back : Undo → Action (Bool × Undo)
  unfolding push_back restart
  go_back u = do
    pushed ← push_back (nodes target) false u
    if pushed.0 then restart pushed.1 else return (false, pushed.1)

  -- _rollback
  unfoldable pub roll_back :
      ReconfigurationStatus
      → ReconfigurationCheckpoint
      → Action (ReconfigurationCheckpoint × ReconfigurationResult)
  unfolding keep act go_back
  roll_back status c = do
    let u = begin_undo status c
    keep plan u.checkpoint
    stopped ←
        act ("rollback:stop:" <> head_id plan.desired) (head_id plan.desired)
          (ask_stop plan.desired.head target.epoch) u
    out ← if stopped.0.is_ok then go_back stopped.1 else return (false, stopped.1)
    return (out.1.checkpoint, undo_result status out.0 out.1)
