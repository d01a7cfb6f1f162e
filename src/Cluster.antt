-- ===== src/Cluster.antt =====
-- src/rcm/cluster.py: what is known of the cluster, whether it is idle, and the maintenance lease.
--
-- A time is a whole number of clock ticks, and a difference is taken only where it is not negative.
pub mod Types
pub mod Policy
pub mod Service
pub mod Guard
