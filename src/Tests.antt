-- ===== src/Tests.antt =====
-- The theorems on concrete workflows, grants and runs.
mod Samples
mod Compiled
mod Dispatched
mod Runs
mod Commands
mod Flows
mod Reports
mod Wakes
mod Lanes
mod Lines
