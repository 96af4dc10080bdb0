-- ===== src/Missions.antt =====
-- Mission Control: the reducer of mission events (src/lib/missions/core.ts) and its types.
pub mod Types
pub mod Result
pub mod Validate
pub mod Candidates
pub mod Outbox
pub mod Graph
pub mod Derive
pub mod Refresh
pub mod Handlers
pub mod Reduce
pub mod Effects
pub mod Revisions
pub mod Idempotence
pub mod History
pub mod Acyclicity
pub mod Authority
pub mod Schedules
pub mod Status
mod Samples
mod Witnesses
