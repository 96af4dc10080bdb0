-- ===== src/Missions/Types.antt =====
-- The domain types of missions (src/lib/missions/types.ts).
mod Core
mod Evidence
mod Event
pub use Core.*
pub use Evidence.*
pub use Event.*
