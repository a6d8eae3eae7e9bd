-- ===== src/Run.antt =====
-- The control plane (packages/runtime/src/control-plane): scheduling, the run loop, approval,
-- cancellation and recovery.
pub mod Manifest
pub mod Loop
pub mod Persist
pub mod Pending
pub mod Progress
pub mod Rounds
pub mod Ended
pub mod Recovery
pub mod Operator
pub mod Resumed
pub mod Cancelled
pub mod Recovered
pub mod Restored
pub mod Closed
pub mod Approval
pub mod Deadlock
pub mod Reports
pub mod Predicted
pub mod Latest
