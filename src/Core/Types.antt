-- ===== src/Core/Types.antt =====
-- src/rcm/core.py: the enumerations, and the records of capabilities, nodes, action results and
-- failures, each with the checks of its `__post_init__`.
use rcm_windows.Prelude.{
  unique, ◌>>◌, guard, Exn, Result, value_error, conflict_error, busy_error, stale_error,
  rejected_error, unavailable_error, unsupported_error, permission_denied_error, ok, err, String,
  Bool, true, false, not, ◌&&◌, List, [], map,
}
use rcm_windows.Core.Text.{max_text, max_identifier, text, code, pairs}

pub data NodeRole : Type 0 where
  head worker observer : NodeRole

pub data MetricState : Type 0 where
  ok_reading unavailable unsupported permission_denied stale : MetricState

pub data CapabilityState : Type 0 where
  available unavailable unsupported permission_denied : CapabilityState

pub data BusyState : Type 0 where
  idle busy unknown maintenance : BusyState

abbrev pub allows_reconfiguration : BusyState → Bool
allows_reconfiguration idle = true
allows_reconfiguration busy = false
allows_reconfiguration unknown = false
allows_reconfiguration maintenance = false

pub data ActionStatus : Type 0 where
  succeeded failed skipped cancelled : ActionStatus

abbrev pub is_head : NodeRole → Bool
is_head head = true
is_head worker = false
is_head observer = false

abbrev pub is_worker : NodeRole → Bool
is_worker head = false
is_worker worker = true
is_worker observer = false

pub record Capability : Type 0 where
  pub name : String
  pub state : CapabilityState
  pub detail_code : String

unfoldable pub check_capability : Capability → Result Capability
check_capability c = do code c.name false; code c.detail_code true; ok c

abbrev is_available : CapabilityState → Bool
is_available CapabilityState.available = true
is_available CapabilityState.unavailable = false
is_available CapabilityState.unsupported = false
is_available CapabilityState.permission_denied = false

pub record Node : Type 0 where
  pub node_id : String
  pub address : String
  pub role : NodeRole
  pub enabled : Bool
  pub capabilities : List Capability

unfoldable pub check_node : Node → Result Node
check_node n = do
  text n.node_id false max_identifier
  text n.address false 253
  guard (unique (map (λ (c : Capability). c.name) n.capabilities)) value_error
  ok n

pub record ActionResult : Type 0 where
  pub status : ActionStatus
  pub code : String
  pub message : String
  pub retryable : Bool
  pub details : List (String × String)

abbrev pub is_succeeded : ActionStatus → Bool
is_succeeded succeeded = true
is_succeeded failed = false
is_succeeded skipped = false
is_succeeded cancelled = false

abbrev pub is_cancelled : ActionStatus → Bool
is_cancelled succeeded = false
is_cancelled failed = false
is_cancelled skipped = false
is_cancelled cancelled = true

unfoldable pub check_action_result : ActionResult → Result ActionResult
check_action_result r = do
  code r.code false
  text r.message true max_text
  pairs r.details
  guard (not (is_succeeded r.status && r.retryable)) value_error
  ok r

abbrev pub action_ok : ActionResult → Bool
action_ok r = is_succeeded r.status

-- The class attributes `code` and `retryable` of the typed failures.
abbrev pub retryable : Exn → Bool
retryable unavailable_error = true
retryable stale_error = true
retryable busy_error = true
retryable conflict_error = true
retryable _ = false

abbrev pub error_code : Exn → String
error_code unavailable_error = "unavailable"
error_code unsupported_error = "unsupported"
error_code permission_denied_error = "permission_denied"
error_code stale_error = "stale"
error_code busy_error = "busy"
error_code conflict_error = "conflict"
error_code rejected_error = "rejected"
error_code _ = "rcm_error"

-- RcmError.to_result
unfoldable pub to_result : Exn → Result ActionResult
to_result e = check_action_result (record {
  status = failed;
  code = error_code e;
  message = "";
  retryable = retryable e;
  details = [];
})

unfoldable pub error_from_state : CapabilityState → Result Exn
error_from_state CapabilityState.available = err value_error
error_from_state CapabilityState.unavailable = ok unavailable_error
error_from_state CapabilityState.unsupported = ok unsupported_error
error_from_state CapabilityState.permission_denied = ok permission_denied_error
