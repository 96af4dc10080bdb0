-- ===== src/Scheduler/Eligibility.antt =====
-- What keeps a task from being started whatever the capacity is (src/lib/scheduler/core.ts).
pub mod Ready
pub mod Cycles
pub mod Acyclic
use swarm_z.Base.{
  ℕ, zero, suc, ◌+◌, Bool, true, false, not, ◌&&◌, ◌||◌, Option, none, some, or_else, List, [], ◌∷◌,
  ◌++◌, length, select, sort_by, if◌then◌else◌, of_nat, lt_num, Text, text_eq, text_lt, is_empty,
  mem, distinct, Dict, get, put,
}
use swarm_z.Missions.Types.{TaskStatus}
use swarm_z.Scheduler.Control.{is_terminal_status}
use swarm_z.Scheduler.Types.{
  SchedulableTask, SchedulerInput, SchedulerReason, incomplete_identity, already_active, terminal,
  needs_intervention, task_paused, running_without_lease, draft_task, mission_paused,
  not_schedulable, dependency_missing, dependency_failed, dependency_pending, retry_backoff,
}

-- `taskById`: of the tasks of one id, the first in the order of the ids.
unfoldable pub index_tasks : List SchedulableTask → Dict SchedulableTask → Dict SchedulableTask
index_tasks [] index = index
index_tasks (c ∷ cs) index =
    index_tasks cs
      (elim (get index c.task.id) [ none ↦ put index c.task.id c | some found ↦ index ])

unfoldable pub task_by_id : (Text → Text → Bool) → List SchedulableTask → Dict SchedulableTask
task_by_id compare tasks = index_tasks (sort_by (λ a b. compare a.task.id b.task.id) tasks) []

-- `[...new Set(ids)].sort()`.
unfoldable pub sorted_set : List Text → List Text
sorted_set ids = sort_by text_lt (distinct ids)

unfoldable pub is_missing : Dict SchedulableTask → Text → Bool
is_missing tasks id = elim (get tasks id) [ none ↦ true | some found ↦ false ]

-- `["failed", "cancelled", "archived"].includes(status)`.
unfoldable pub is_lost : TaskStatus → Bool
is_lost TaskStatus.failed = true
is_lost TaskStatus.cancelled = true
is_lost TaskStatus.archived = true
is_lost _ = false

unfoldable pub is_done : TaskStatus → Bool
is_done TaskStatus.succeeded = true
is_done _ = false

unfoldable pub has_failed : Dict SchedulableTask → Text → Bool
has_failed tasks id = elim (get tasks id) [ none ↦ false | some found ↦ is_lost found.task.status ]

unfoldable pub is_pending : Dict SchedulableTask → Text → Bool
is_pending tasks id = elim (get tasks id) [
  | none ↦ false
  | some found ↦ not (is_lost found.task.status) && not (is_done found.task.status)
]

-- A reason with its blockers, where there are some, and otherwise what follows.
unfoldable pub if_any :
    List Text → (List Text → SchedulerReason) → Option SchedulerReason → Option SchedulerReason
if_any [] reason other = other
if_any (x ∷ xs) reason other = some (reason (x ∷ xs))

unfoldable pub dependency_reason : SchedulableTask → Dict SchedulableTask → Option SchedulerReason
dependency_reason candidate tasks =
    let ids = sorted_set candidate.task.dependency_ids in
    if_any (select (is_missing tasks) ids) dependency_missing (
      if_any (select (has_failed tasks) ids) dependency_failed
        (if_any (select (is_pending tasks) ids) dependency_pending none))

-- The loop over the dependencies of `task_id`; `visit` takes the next id and the ids seen before it.
unfoldable pub visit_dependencies :
    (Text → List Text → List Text → Option (List Text))
    → Text
    → Text
    → List Text
    → List Text
    → List Text
    → Option (List Text)
visit_dependencies visit origin task_id path seen [] = none
visit_dependencies visit origin task_id path seen (id ∷ ids) =
    let rest = visit_dependencies visit origin task_id path seen ids in
    let deeper : Option (List Text) = elim (visit id (path ++ task_id ∷ []) (id ∷ seen)) [
      | some cycle ↦ some cycle
      | none ↦ rest
    ] in
    if text_eq id origin
    then some (path ++ task_id ∷ origin ∷ [])
    else if mem id seen
    then rest
    else deeper

-- `visit(taskId, path, seen)`. The first argument bounds the depth of the calls.
unfoldable pub visit_task :
    Dict SchedulableTask → Text → ℕ → Text → List Text → List Text → Option (List Text)
visit_task tasks origin zero task_id path seen = none
visit_task tasks origin (suc depth) task_id path seen = elim (get tasks task_id) [
  | none ↦ none
  | some current ↦
      visit_dependencies (visit_task tasks origin depth) origin task_id path seen
        (sorted_set current.task.dependency_ids)
]

-- Each call but the last is for another task of the index.
unfoldable pub dependency_cycle : SchedulableTask → Dict SchedulableTask → Option (List Text)
dependency_cycle candidate tasks =
    visit_task tasks candidate.task.id (length tasks + 2) candidate.task.id []
      (candidate.task.id ∷ [])

unfoldable pub needs_person : TaskStatus → Bool
needs_person TaskStatus.needs_human = true
needs_person TaskStatus.blocked = true
needs_person _ = false

unfoldable pub is_paused_task : TaskStatus → Bool
is_paused_task TaskStatus.paused = true
is_paused_task _ = false

unfoldable pub is_running_task : TaskStatus → Bool
is_running_task TaskStatus.running = true
is_running_task _ = false

unfoldable pub is_draft_task : TaskStatus → Bool
is_draft_task TaskStatus.draft = true
is_draft_task _ = false

-- `status === "ready" || status === "blocked_by_dependency"`.
unfoldable pub is_schedulable : TaskStatus → Bool
is_schedulable TaskStatus.ready = true
is_schedulable TaskStatus.blocked_by_dependency = true
is_schedulable _ = false

-- The reasons in the task alone.
unfoldable pub status_reason : TaskStatus → Option SchedulerReason
status_reason status =
    if is_terminal_status status
    then some (terminal status)
    else if needs_person status
    then some (needs_intervention status)
    else if is_paused_task status
    then some task_paused
    else if is_running_task status
    then some running_without_lease
    else if is_draft_task status
    then some draft_task
    else none

unfoldable pub is_incomplete : SchedulableTask → Bool
is_incomplete candidate =
    is_empty candidate.task.id
    || is_empty candidate.task.mission_id
    || is_empty candidate.task.root.project_id
    || is_empty candidate.task.root.path

-- The reasons in the other tasks and in time.
unfoldable pub waiting_reason :
    SchedulableTask → SchedulerInput → Dict SchedulableTask → Option SchedulerReason
waiting_reason candidate input tasks = elim (dependency_cycle candidate tasks) [
  | some cycle ↦ some (SchedulerReason.dependency_cycle cycle)
  | none ↦ elim (dependency_reason candidate tasks) [
    | some reason ↦ some reason
    | none ↦
        if lt_num input.now (or_else candidate.next_eligible_at (of_nat 0))
        then some (retry_backoff (or_else candidate.next_eligible_at (of_nat 0)))
        else if is_schedulable candidate.task.status
        then none
        else some (not_schedulable candidate.task.status)
  ]
]

unfoldable pub static_eligibility :
    SchedulableTask → SchedulerInput → Dict SchedulableTask → List Text → Option SchedulerReason
static_eligibility candidate input tasks active_task_ids =
    if is_incomplete candidate
    then some incomplete_identity
    else if mem candidate.task.id active_task_ids
    then some already_active
    else elim (status_reason candidate.task.status) [
      | some reason ↦ some reason
      | none ↦
          if mem candidate.task.mission_id (or_else input.paused_mission_ids [])
          then some mission_paused
          else waiting_reason candidate input tasks
    ]
