-- ===== src/Scheduler.antt =====
-- The task scheduler (src/lib/scheduler/core.ts).
pub mod Control
pub mod Paths
pub mod Types
pub mod Locks
pub mod Retry
pub mod Priority
pub mod Eligibility
pub mod Selection
pub mod Capacity
mod Samples
mod Witnesses
