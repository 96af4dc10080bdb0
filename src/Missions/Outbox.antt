-- ===== src/Missions/Outbox.antt =====
-- The mission outbox, the write-ahead queue of commands (src/lib/missions/outbox.ts).
pub mod Types
pub mod Commands
pub mod Claims
pub mod Delivery
pub mod Keyed
pub mod Writes
pub mod Steps
pub mod Finality
pub mod Kept
pub mod Runs
pub mod Held
pub mod Exclusion
pub mod Idempotence
mod Witnesses
