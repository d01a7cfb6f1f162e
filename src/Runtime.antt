-- ===== src/Runtime.antt =====
-- src/rcm/runtime.py: `RuntimeCoordinator`, the owner of the long-lived components.
--
-- A component is known by the name of its unit, and what it does is the `Host`'s: what its methods
-- return or raise, when another thread cancels the token, and what the clock reads. The host answers
-- by what has happened before, which the coordinator's state keeps as a trace, newest event first; a
-- read of the token and a read of the clock are events too, so that nothing is assumed to stand still
-- between two reads. Times are floating-point numbers, which the coordinator only adds, subtracts and
-- hands on: a number stands for each of them, and what their sums and differences round to is the
-- host's too.
mod Defs
mod Ops
mod Calls
pub mod Invariant
pub mod History
pub mod Unwind
pub mod Grants
unfoldable pub use Defs.*
unfoldable pub use Ops.*
