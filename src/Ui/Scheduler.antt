-- ===== src/Ui/Scheduler.antt =====
-- src/rcm/ui/scheduler.py: the bounded queue of events and the scheduler that delivers them on the
-- UI thread.
--
-- The schedule port is known by the requests that it gets; it answers a request for a callback with a
-- token, here the number of the request. `consume` belongs to the program's other parts: it is known
-- by the calls that it makes on the scheduler and by the exception that it then may raise.
mod Defs
pub mod Fifo
pub mod Wakeup
pub mod Delivery
pub mod Threads
unfoldable pub use Defs.*
