-- ===== src/Cleanup.antt =====
-- src/rcm/cleanup.py: the cleanup of local processes.
pub mod Types
pub mod Facade
pub mod Force
pub mod Growth
pub mod Rules
pub mod Evidence
pub mod History
pub mod Once
