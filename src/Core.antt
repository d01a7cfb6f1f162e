-- ===== src/Core.antt =====
-- src/rcm/core.py: the contracts that the services share.
pub mod Text
pub mod Types
pub mod Plan
