-- ===== src/Lib.antt =====
-- SwarmZ, a desktop control room for teams of coding agents. Its long-lived work is a Mission: tasks with
-- dependencies, worker attempts, evidence, quality gates, an integration train, candidate comparisons
-- and reminders. A mission is event sourced: controllers append events to a log, a pure reducer turns
-- the log into a projection or refuses an event with an error, and the scheduler reads the projection
-- to decide how much work may run. This library models that core.
--
-- Files and code:
--   Base: numbers, strings, dictionaries and lists of JavaScript as the program uses them.
--   Missions/Types: src/lib/missions/types.ts, the records, enums and events.
--   Missions/Result: MissionInvariantError and the errors that the reducer throws.
--   Missions/Validate: assertId, assertString, assertStringList, unique, assertTaskInput and the
--     policy checks of src/lib/missions/core.ts.
--   Missions/Graph: assertAcyclicMissionTasks and the dependency edges.
--   Missions/Derive, Missions/Refresh: deriveTaskStatus, deriveMissionStatus, refreshMission.
--   Missions/Handlers: the cases of reduceMissionEvent, a file for each kind of entity.
--   Missions/Reduce: reduceMissionEvent around the cases (fingerprints, idempotency keys, revisions,
--     recording), replayMissionEvents, nextMissionRevision.
--   Missions/Effects, Missions/Reduce/Outcome, Missions/Refresh/Frame: what each case, an accepted event
--     and a refresh can write; the theorems below rest on them.
--   Missions/Revisions, Idempotence, History, Acyclicity, Authority, Status: the theorems about the reducer.
--   Missions/Schedules: src/lib/missions/schedule-core.ts.
--   Missions/Candidates: src/lib/missions/candidates.ts, the selection among attempts; Evidence below it
--     takes the candidates of a batch from the projection, for the reducer's call. Ranking, Scores and
--     Authority are the theorems.
--   Missions/Outbox: src/lib/missions/outbox.ts, the write-ahead queue of commands. Types, Commands (how
--     they enter), Claims (with expiry) and Delivery (with failure, adoption and manual retry) are the
--     code; Steps has the operations as steps of a state machine; Keyed, Writes, Finality, Kept, Runs,
--     Held, Exclusion and Idempotence are the theorems.
--   Scheduler/Types: src/lib/scheduler/types.ts.
--   Scheduler/Paths, Scheduler/Locks: src/lib/scheduler/conflicts.ts, declared paths and lock keys.
--   Scheduler/Priority, Eligibility, Selection, Retry, Capacity, Control: effectivePriority and the
--     comparators, staticEligibility, schedule, retryAfterFailure, adaptiveCapacity and controlTask of
--     src/lib/scheduler/core.ts. The modules below each are its theorems.
--   Missions/Samples, Scheduler/Samples and the modules called Witnesses: sample data and instances.
--
-- How the code is modelled:
--   A function that throws returns a Result, `err` with a constructor for each error. The projection
--   is passed on from call to call; the copy that the reducer works on is the value it returns, so a
--   refused event leaves no trace.
--   A number is a finite double as an exact count of 2 ^ -1074, an infinity or NaN. Sums with whole
--   milliseconds are exact, which they are in the program below 2 ^ 53. Revisions and counts of
--   deliveries are natural numbers.
--   A string is its list of UTF-16 units. A dictionary holds own properties only, in the order of their
--   insertion.
--   Checks that a value has the type it is declared with (typeof, Array.isArray) are left out.
--   JSON.stringify on an event's identities, localeCompare, toLowerCase and String are the fields of
--   the record Surroundings, on which every theorem about the reducer is parametric; none of them
--   needs a hypothesis about them. The scheduler and the candidates take localeCompare, as `compare`,
--   in the same way. The delays after a failure are computed on doubles, with their rounding (Base/Doubles).
--   The outbox takes JSON.stringify on commands and receipts, the key order inside a receipt's values,
--   localeCompare and the decimal text of a number as the fields of OutboxSurroundings, without a
--   hypothesis about them. Its snapshot says whether its records inherit from Object.prototype, since
--   the code then finds a function under an id such as toString; where the code goes on with such a
--   function as a record, which no record of the model can be, the model stops with an error of its own,
--   `inherited_record`, and the runs that the theorems are about contain no such call.
--   A glob is the list of the items that its regular expression has. The text of a scheduler's reason
--   is a function of a constructor and its arguments, which stand for it.
--
-- Bounds: `visit` of the cycle check takes the depth of its calls, the number of tasks and one more; the
-- calls under way are for different tasks, so this is enough, which assert_acyclic_total includes. The
-- refresh makes as many passes as the source's own loop, the number of the mission's tasks and one more.
-- The scheduler's search for a dependency cycle takes the number of tasks and two more, which
-- dependency_cycle_enough shows to be enough; its loop takes as many rounds as tasks are pending, one
-- for each, and schedule_answers shows that no task is left out.
--
-- Not modelled: the outbox's pruning, which compares records by object identity, and its saving, the
-- integration train's planner, the mission controllers, the orchestrator, sessions, import and the user
-- interface, and the native backend in Rust. They call the reducer or surround it with processes, files
-- and display.
pub mod Base
pub mod Missions
pub mod Scheduler
