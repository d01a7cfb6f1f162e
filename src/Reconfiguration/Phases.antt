-- ===== src/Reconfiguration/Phases.antt =====
-- src/rcm/reconfiguration.py: the forward phases, from `_preflight` to `_verify`. The loops go down
-- the list of the nodes that are left.
use rcm_windows.Prelude.{
  if◌then◌else◌, select, contains, discard, from_keys, ℕ, String, Bool, true, false, not, ◌||◌,
  Option, none, some, List, [], ◌∷◌, ◌++◌, str_eq,
}
use rcm_windows.Core.Types.{Node}
use rcm_windows.Reconfiguration.Types.{
  worker_ids, head_id, node_ids, nodes, find_node, ReconfigurationPlan, Hasher, StepOutcome,
  ReconfigurationCheckpoint, preflight, stop, push, start, join, verify,
}
use rcm_windows.Reconfiguration.Control.{
  Action, ◌>>=◌, ◌>>◌, return, end, keep, call, Command, Environment, ask_preflight, ask_stop,
  ask_start, ask_push, ask_join, ask_verify, phase_failed,
}

-- if not test: raise
abbrev pub or_fail : Bool → ReconfigurationCheckpoint → Action (Unit {0})
or_fail true c = return tt
or_fail false c = end (phase_failed c)

-- An option of a node as the command that it makes.
abbrev pub command : (Node → Command) → Option Node → Option Command
command make none = none
command make (some n) = some (make n)

-- _node: the desired topology first, then the expected one.
abbrev pub either_node : Option Node → Option Node → Option Node
either_node (some n) other = some n
either_node none other = other

module _ (env : Environment) (hash : Hasher) (plan : ReconfigurationPlan) where
  abbrev pub epoch : ℕ
  epoch = plan.desired.epoch

  abbrev pub any_node : String → Option Node
  any_node node_id =
      either_node (find_node node_id (nodes plan.desired)) (find_node node_id (nodes plan.expected))

  abbrev pub critical : List String
  critical = node_ids plan.expected ++ head_id plan.desired ∷ []

  -- What a round of `_preflight` makes of its outcome: the checkpoint and the set `unavailable`.
  unfoldable pub note_availability :
      String
      → List String
      → ReconfigurationCheckpoint
      → StepOutcome
      → Action (ReconfigurationCheckpoint × List String)
  unfolding keep
  note_availability node_id absent c o =
      let more = node_id ∷ absent in
      let less = discard node_id absent in
      if not o.is_ok
      then (do
        let c1 = record c { unavailable_nodes = more }
        keep plan c1
        or_fail (not (contains node_id critical)) c1
        return (c1, more))
      else if contains node_id absent
      then (do let c1 = record c { unavailable_nodes = less }; keep plan c1; return (c1, less))
      else return (c, absent)

  unfoldable pub preflight_all :
      List String → List String → ReconfigurationCheckpoint → Action ReconfigurationCheckpoint
  unfolding call note_availability
  preflight_all [] absent c = return c
  preflight_all (n ∷ ns) absent c = do
    out ← call env plan c preflight n (command (λ m. ask_preflight m epoch) (any_node n)) n
    next ← note_availability n absent out.0 out.1
    preflight_all ns next.1 next.0

  abbrev pub preflight_phase : ReconfigurationCheckpoint → Action ReconfigurationCheckpoint
  preflight_phase c =
      preflight_all (from_keys (node_ids plan.expected ++ node_ids plan.desired))
        c.unavailable_nodes c

  abbrev stop_command : String → Option Command
  stop_command n = command (λ m. ask_stop m epoch) (find_node n (nodes plan.expected))

  unfoldable pub stop_one : String → ReconfigurationCheckpoint → Action ReconfigurationCheckpoint
  unfolding call
  stop_one n c = if contains n c.unavailable_nodes then return c else (do
    out ← call env plan c stop n (stop_command n) n
    or_fail out.1.is_ok out.0
    return out.0)

  unfoldable pub stop_all :
      List String → ReconfigurationCheckpoint → Action ReconfigurationCheckpoint
  unfolding stop_one
  stop_all [] c = return c
  stop_all (n ∷ ns) c = do c1 ← stop_one n c; stop_all ns c1

  abbrev push_command : String → Option Command
  push_command n =
      command (λ m. ask_push m (hash.manifest_digest plan.desired) epoch)
        (find_node n (nodes plan.desired))

  -- A worker that refuses the manifest becomes unavailable, here without a save.
  unfoldable pub push_one : String → ReconfigurationCheckpoint → Action ReconfigurationCheckpoint
  unfolding call
  push_one n c = if contains n c.unavailable_nodes then return c else (do
    out ← call env plan c push n (push_command n) n
    or_fail (out.1.is_ok || not (str_eq n (head_id plan.desired))) out.0
    return (
        if out.1.is_ok
        then out.0
        else record out.0 { unavailable_nodes = out.0.unavailable_nodes ++ n ∷ [] }))

  unfoldable pub push_all :
      List String → ReconfigurationCheckpoint → Action ReconfigurationCheckpoint
  unfolding push_one
  push_all [] c = return c
  push_all (n ∷ ns) c = do c1 ← push_one n c; push_all ns c1

  unfoldable pub start_phase : ReconfigurationCheckpoint → Action ReconfigurationCheckpoint
  unfolding call
  start_phase c = do
    let n = head_id plan.desired
    out ← call env plan c start n (some (ask_start plan.desired.head epoch)) n
    or_fail out.1.is_ok out.0
    return out.0

  unfoldable pub verify_head : ReconfigurationCheckpoint → Action ReconfigurationCheckpoint
  unfolding call keep
  verify_head c = do
    let head = plan.desired.head
    out ← call env plan c verify head.node_id (some (ask_verify (head ∷ []) head epoch)) "head"
    or_fail out.1.is_ok out.0
    let c1 = record out.0 { new_head_healthy = true }
    keep plan c1
    return c1

  abbrev join_command : String → Option Command
  join_command n =
      command (λ m. ask_join m plan.desired.head epoch) (find_node n (nodes plan.desired))

  -- A round of `_join`: the checkpoint and whether the worker is missing.
  unfoldable pub join_one :
      String → ReconfigurationCheckpoint → Action (ReconfigurationCheckpoint × Bool)
  unfolding call
  join_one n c =
      if contains n c.unavailable_nodes
      then return (c, true)
      else (do out ← call env plan c join n (join_command n) n; return (out.0, not out.1.is_ok))

  unfoldable pub join_all :
      List String
      → List String
      → ReconfigurationCheckpoint
      → Action (ReconfigurationCheckpoint × List String)
  unfolding join_one
  join_all [] missing c = return (c, missing)
  join_all (n ∷ ns) missing c = do
    out ← join_one n c
    join_all ns (if out.1 then missing ++ n ∷ [] else missing) out.0

  -- _verify: the checkpoint, the missing workers, and whether the cluster was verified.
  unfoldable pub verify_cluster :
      ReconfigurationCheckpoint → Action (ReconfigurationCheckpoint × List String × Bool)
  unfolding call
  verify_cluster c = do
    out ←
        call env plan c verify "cluster"
          (some (ask_verify (nodes plan.desired) plan.desired.head epoch)) "cluster"
    let missing = select (λ n. contains n out.0.unavailable_nodes) (worker_ids plan.desired)
    return (out.0, (if out.1.is_ok then missing else worker_ids plan.desired), out.1.is_ok)
