-- ===== src/Tests.antt =====
-- The theorems at concrete inputs, and tests of the definitions.
mod Queue
mod Freshness
mod Planner
mod Batcher
mod Maintenance
mod Settings
mod Schedule
mod Editor
mod Readbacks
mod Clock
mod Handover
mod Execution
