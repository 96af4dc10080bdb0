-- ===== src/Missions/Effects.antt =====
-- What a handled event does to each dictionary of the projection (the cases of reduceMissionEvent in
-- src/lib/missions/core.ts).
mod Opened
mod Frame
pub mod Attempts
pub mod Schedules
pub mod Tasks
pub use Frame.*
