-- ===== src/Tests.antt =====
-- Runs on concrete inputs, and each theorem at an input that meets its hypotheses.
mod CorePlan
mod RuntimeUnits
mod UiEvents
mod ClusterState
mod Changes
mod PlainFormat
mod StoredConfigs
mod Cleanups
mod Windows
