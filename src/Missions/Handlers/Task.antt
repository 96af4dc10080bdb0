-- ===== src/Missions/Handlers/Task.antt =====
-- The events of a task (src/lib/missions/core.ts).
use swarm_z.Base.{
  Bool, true, false, not, ◌&&◌, ◌||◌, Option, none, some, is_some, or_else, List, [], ◌∷◌, ◌++◌,
  length, any, last, ltb, if◌then◌else◌, Number, Text, text_eq, trim, get,
}
use swarm_z.Missions.Types.{
  TaskStatus, AttemptStatus, Mission, MissionTask, TaskAttempt, MissionProjection, MissionEvent,
  MissionTaskInput, TaskPatch,
}
use swarm_z.Missions.Result.{
  Label, Result, ok, err, ◌>>=◌, ◌>>◌, throw_if, description_too_long, invalid_priority,
  task_unknown, task_not_editable, noop_needs_human, max_attempts_out_of_range, invalid_root,
  task_has_running_attempt, task_not_paused, task_not_pausable, requeue_needs_human,
  requeue_not_latest,
}
use swarm_z.Missions.Validate.{
  assert_string, unique, is_outside, assert_dependencies, is_root_blank, is_root_too_long,
  assert_task_lists, assert_task_input,
}
use swarm_z.Missions.Graph.{assert_acyclic, replace_task_dependencies}
use swarm_z.Missions.Handlers.Common.{
  put_mission, put_task, own_task, is_human, is_status_running, is_running,
}

-- `allowNoop: event.data.allowNoop === true`.
unfoldable pub is_true : Option Bool → Bool
is_true (some true) = true
is_true _ = false

unfoldable pub new_task : MissionTaskInput → MissionTask
new_task input = record {
  id = input.id;
  mission_id = input.mission_id;
  title = trim input.title;
  description = trim input.description;
  status = TaskStatus.draft;
  priority = input.priority;
  role = input.role;
  risk = input.risk;
  acceptance_criteria = input.acceptance_criteria;
  root = input.root;
  worktree_policy = input.worktree_policy;
  dependency_ids = input.dependency_ids;
  declared_files = input.declared_files;
  declared_globs = input.declared_globs;
  max_attempts = input.max_attempts;
  attempt_ids = [];
  quality_gate_ids = [];
  artifact_ids = [];
  created_at = input.created_at;
  updated_at = input.created_at;
  archived_at = none;
  paused_at = none;
  resume_instruction = none;
  requeued_after_attempt_id = none;
  selected_candidate_attempt_id = none;
  allow_noop = some (is_true input.allow_noop);
}

unfoldable pub add_task :
    MissionEvent → Mission → MissionProjection → MissionTaskInput → Result MissionProjection
add_task event mission state input = do
  assert_task_input state event.mission_id input
  let task = new_task input
  let with_task = replace_task_dependencies (put_task state task.id task) task
  assert_acyclic with_task.tasks event.mission_id
  ok (put_mission with_task event (record mission { task_ids = mission.task_ids ++ task.id ∷ [] }))

unfoldable pub apply_patch : MissionTask → TaskPatch → Number → MissionTask
apply_patch task patch updated_at = record task {
  title = or_else patch.title task.title;
  description = or_else patch.description task.description;
  priority = or_else patch.priority task.priority;
  role = or_else patch.role task.role;
  risk = or_else patch.risk task.risk;
  acceptance_criteria = or_else patch.acceptance_criteria task.acceptance_criteria;
  root = or_else patch.root task.root;
  worktree_policy = or_else patch.worktree_policy task.worktree_policy;
  dependency_ids = or_else patch.dependency_ids task.dependency_ids;
  declared_files = or_else patch.declared_files task.declared_files;
  declared_globs = or_else patch.declared_globs task.declared_globs;
  max_attempts = or_else patch.max_attempts task.max_attempts;
  allow_noop = elim patch.allow_noop [ none ↦ task.allow_noop | some b ↦ some b ];
  updated_at = updated_at;
}

unfoldable pub is_priority_bad : Option Number → Bool
is_priority_bad none = false
is_priority_bad (some n) = is_outside n 0 100

-- `patch.maxAttempts` is no integer from the attempt count to 20.
unfoldable pub is_max_attempts_bad : MissionTask → Option Number → Bool
is_max_attempts_bad task none = false
is_max_attempts_bad task (some n) = is_outside n (length task.attempt_ids) 20

unfoldable pub assert_patch_dependencies :
    MissionProjection → MissionEvent → Option (List Text) → Result (Unit {0})
assert_patch_dependencies state event none = ok tt
assert_patch_dependencies state event (some ids) = do
  unique ids Label.task_dependencies
  assert_dependencies state.tasks event.mission_id ids

-- The checks of the complete edited task.
unfoldable pub assert_candidate : MissionTask → Result (Unit {0})
assert_candidate task = do
  assert_string Label.task_title task.title 300
  throw_if (ltb 20000 (length task.description)) description_too_long
  assert_string Label.task_role task.role 100
  throw_if (is_root_blank task.root || is_root_too_long task.root) invalid_root
  assert_task_lists task.acceptance_criteria task.declared_files task.declared_globs

unfoldable pub update_task :
    MissionEvent → MissionProjection → Text → Number → TaskPatch → Result MissionProjection
update_task event state id updated_at patch = do
  task ← own_task state event id task_unknown
  throw_if (is_status_running task.status || is_some task.archived_at) task_not_editable
  throw_if (is_some patch.allow_noop && not (is_human event.actor)) noop_needs_human
  throw_if (is_priority_bad patch.priority) invalid_priority
  throw_if (is_max_attempts_bad task patch.max_attempts) max_attempts_out_of_range
  assert_patch_dependencies state event patch.dependency_ids
  let candidate = apply_patch task patch updated_at
  assert_candidate candidate
  let edited = replace_task_dependencies (put_task state task.id candidate) candidate
  assert_acyclic edited.tasks event.mission_id
  ok edited

unfoldable pub archive_task :
    MissionEvent → MissionProjection → Text → Number → Result MissionProjection
archive_task event state id archived_at = do
  task ← own_task state event id task_unknown
  throw_if (is_status_running task.status || any (is_running state) task.attempt_ids)
      task_has_running_attempt
  ok (
      put_task state task.id
        (record task { archived_at = some archived_at; updated_at = event.occurred_at }))

-- `["succeeded", "failed", "cancelled", "archived"].includes(status)`.
unfoldable pub is_status_final : TaskStatus → Bool
is_status_final TaskStatus.succeeded = true
is_status_final TaskStatus.failed = true
is_status_final TaskStatus.cancelled = true
is_status_final TaskStatus.archived = true
is_status_final _ = false

unfoldable pub is_status_paused : TaskStatus → Bool
is_status_paused TaskStatus.paused = true
is_status_paused _ = false

unfoldable pub pause_task :
    MissionEvent → MissionProjection → Text → Number → Result MissionProjection
pause_task event state id paused_at = do
  task ← own_task state event id task_unknown
  throw_if (is_status_final task.status) task_not_pausable
  ok (
      put_task state task.id
        (record task { paused_at = some paused_at; updated_at = event.occurred_at }))

unfoldable pub resume_task : MissionEvent → MissionProjection → Text → Result MissionProjection
resume_task event state id = do
  task ← own_task state event id task_unknown
  throw_if (not (is_status_paused task.status)) task_not_paused
  ok (put_task state task.id (record task { paused_at = none; updated_at = event.occurred_at }))

-- `["needs_human", "blocked", "failed", "cancelled"].includes(status)`.
unfoldable pub is_retriable : AttemptStatus → Bool
is_retriable AttemptStatus.needs_human = true
is_retriable AttemptStatus.blocked = true
is_retriable AttemptStatus.failed = true
is_retriable AttemptStatus.cancelled = true
is_retriable _ = false

-- The latest attempt of the task, if it is there.
unfoldable pub latest_attempt : MissionProjection → MissionTask → Option TaskAttempt
latest_attempt state task = elim (last task.attempt_ids) [
  | none ↦ none
  | some id ↦ get state.attempts id
]

unfoldable pub requeue_task :
    MissionEvent
    → MissionProjection
    → (task_id after_attempt_id instruction : Text) → Number
    → Result MissionProjection
requeue_task event state id after_attempt_id instruction requeued_at = do
  throw_if (not (is_human event.actor)) requeue_needs_human
  task ← own_task state event id task_unknown
  latest ← elim (latest_attempt state task) [
    | none ↦ err requeue_not_latest
    | some attempt ↦
        if text_eq attempt.id after_attempt_id && is_retriable attempt.status
        then ok attempt
        else err requeue_not_latest
  ]
  assert_string Label.resume_instruction instruction 4000
  ok (
      put_task state task.id (record task {
        resume_instruction = some (trim instruction);
        requeued_after_attempt_id = some latest.id;
        updated_at = requeued_at;
      }))
