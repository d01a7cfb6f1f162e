-- ===== src/Reconfiguration.antt =====
-- src/rcm/reconfiguration.py, the change of a cluster from one topology to the next.
pub mod Types
pub mod Journal
pub mod Control
pub mod Phases
pub mod Rollback
pub mod Run
pub mod Frame
pub mod Framed
pub mod FramedRun
pub mod Claims
pub mod Steps
pub mod Available
pub mod Success
pub mod Completed
pub mod Reached
pub mod Reported
pub mod Outcome
pub mod Recorded
pub mod Again
