-- ===== src/Missions/Handlers.antt =====
-- The cases of `switch (event.type)` in reduceMissionEvent (src/lib/missions/core.ts), one function
-- each. `event` is the event, `mission` the mission after its time and revision were set, and `state`
-- the copied projection that holds it.
mod Common
mod Mission
mod Task
mod Attempt
mod Gate
mod Train
mod Candidate
mod Schedule
unfoldable pub use Common.*
unfoldable pub use Mission.*
unfoldable pub use Task.*
unfoldable pub use Attempt.*
unfoldable pub use Gate.*
unfoldable pub use Train.*
unfoldable pub use Candidate.*
unfoldable pub use Schedule.*
