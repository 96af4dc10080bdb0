-- ===== src/Missions/Handlers/Attempt.antt =====
-- The events of an attempt, and recorded artifacts (src/lib/missions/core.ts).
use swarm_z.Base.{
  Bool, true, false, not, ◌||◌, ◌+◌, Option, none, some, is_some, [], ◌∷◌, ◌++◌, length,
  if◌then◌else◌, Number, of_nat, lt_num, le_num, Text, text_eq, truthy, get, put,
}
use swarm_z.Missions.Types.{
  TaskStatus, AttemptStatus, MissionTask, TaskAttempt, CandidateBatch, MissionArtifact,
  MissionProjection, MissionEvent, AttemptStartedPayload, FinishedStatus, AttemptFinishedPayload,
}
use swarm_z.Missions.Result.{
  Label, Result, ok, err, ◌>>=◌, ◌>>◌, throw_if, need, task_unknown, attempt_exists,
  batch_cannot_accept, task_cannot_start, retry_budget_exhausted, attempt_unknown,
  terminal_attempt_immutable, finishes_before_start, invalid_artifact, artifact_task_unknown,
  artifact_attempt_unknown, ill_typed,
}
use swarm_z.Missions.Validate.{assert_id}
use swarm_z.Missions.Handlers.Common.{put_task, put_attempt, put_batch, own, own_task, is_terminal}

-- The batch that the attempt joins, where its id is not the empty string.
unfoldable pub joined_batch :
    MissionProjection → MissionTask → Option Text → Result (Option CandidateBatch)
joined_batch state task none = ok none
joined_batch state task (some id) = elim (get state.candidate_batches id) [
  | none ↦ err batch_cannot_accept
  | some batch ↦
      if not (text_eq batch.task_id task.id)
        || is_some batch.selected_attempt_id
        || le_num batch.count (of_nat (length batch.attempt_ids))
      then err batch_cannot_accept
      else ok (some batch)
]

unfoldable pub cannot_start : TaskStatus → Option CandidateBatch → Bool
cannot_start TaskStatus.cancelled batch = true
cannot_start TaskStatus.archived batch = true
cannot_start TaskStatus.paused batch = true
cannot_start TaskStatus.blocked_by_dependency batch = true
cannot_start TaskStatus.succeeded batch = not (is_some batch)
cannot_start TaskStatus.running batch = not (is_some batch)
cannot_start _ batch = false

unfoldable pub new_attempt :
    MissionEvent → MissionTask → Option CandidateBatch → AttemptStartedPayload → TaskAttempt
new_attempt event task batch input = record {
  id = input.id;
  mission_id = event.mission_id;
  task_id = task.id;
  ordinal = length task.attempt_ids + 1;
  status = AttemptStatus.running;
  session_id = input.session_id;
  worker_label = input.worker_label;
  resume_instruction = task.resume_instruction;
  started_at = some input.started_at;
  finished_at = none;
  summary = none;
  error = none;
  report = none;
  artifact_ids = [];
  candidate_batch_id = elim batch [ none ↦ none | some b ↦ some b.id ];
}

unfoldable pub with_attempt :
    MissionEvent → MissionTask → Option CandidateBatch → Text → MissionTask
with_attempt event task batch id = record task {
  attempt_ids = task.attempt_ids ++ id ∷ [];
  resume_instruction = none;
  requeued_after_attempt_id = none;
  selected_candidate_attempt_id = elim batch [
    | none ↦ none
    | some b ↦ task.selected_candidate_attempt_id
  ];
  updated_at = event.occurred_at;
}

unfoldable pub join_batch : MissionProjection → Option CandidateBatch → Text → MissionProjection
join_batch state none id = state
join_batch state (some batch) id =
    put_batch state (record batch { attempt_ids = batch.attempt_ids ++ id ∷ [] })

unfoldable pub start_attempt :
    MissionEvent → MissionProjection → AttemptStartedPayload → Result MissionProjection
start_attempt event state input = do
  assert_id Label.attempt_id input.id
  throw_if (is_some (get state.attempts input.id)) attempt_exists
  task ← own_task state event input.task_id task_unknown
  batch ← joined_batch state task (truthy input.candidate_batch_id)
  throw_if (cannot_start task.status batch) task_cannot_start
  throw_if (le_num task.max_attempts (of_nat (length task.attempt_ids))) retry_budget_exhausted
  let attempt = new_attempt event task batch input
  let started = put_attempt state attempt
  ok (join_batch (put_task started task.id (with_attempt event task batch input.id)) batch input.id)

unfoldable pub finished_status : FinishedStatus → AttemptStatus
finished_status FinishedStatus.succeeded = AttemptStatus.succeeded
finished_status FinishedStatus.failed = AttemptStatus.failed
finished_status FinishedStatus.blocked = AttemptStatus.blocked
finished_status FinishedStatus.needs_human = AttemptStatus.needs_human
finished_status FinishedStatus.cancelled = AttemptStatus.cancelled

-- `attempt.startedAt ?? 0`.
unfoldable pub start_or_zero : Option Number → Number
start_or_zero none = of_nat 0
start_or_zero (some at_time) = at_time

-- The source would write a task of no fields but `updatedAt` if the attempt's task were missing.
unfoldable pub finish_attempt :
    MissionEvent → MissionProjection → AttemptFinishedPayload → Result MissionProjection
finish_attempt event state input = do
  attempt ← own (λ a. a.mission_id) state.attempts event.mission_id input.attempt_id attempt_unknown
  throw_if (is_terminal attempt.status) terminal_attempt_immutable
  throw_if (lt_num input.finished_at (start_or_zero attempt.started_at)) finishes_before_start
  task ← need (get state.tasks attempt.task_id) ill_typed
  let finished = record attempt {
    status = finished_status input.status;
    finished_at = some input.finished_at;
    summary = input.summary;
    error = input.error;
    report = input.report;
  }
  ok (
      put_task (put_attempt state finished) attempt.task_id
        (record task { updated_at = event.occurred_at }))

-- The artifact is listed by its task, where the task's id is not the empty string.
unfoldable pub list_in_task :
    MissionEvent → MissionProjection → MissionArtifact → Option Text → Result MissionProjection
list_in_task event state artifact none = ok state
list_in_task event state artifact (some id) = do
  task ← own_task state event id artifact_task_unknown
  ok (put_task state task.id (record task { artifact_ids = task.artifact_ids ++ artifact.id ∷ [] }))

-- `attempt.taskId !== artifact.taskId`.
unfoldable pub is_task_of : Text → Option Text → Bool
is_task_of id none = false
is_task_of id (some j) = text_eq id j

-- The artifact is listed by its attempt, where the attempt's id is not the empty string.
unfoldable pub list_in_attempt :
    MissionEvent → MissionProjection → MissionArtifact → Option Text → Result MissionProjection
list_in_attempt event state artifact none = ok state
list_in_attempt event state artifact (some id) = do
  attempt ← own (λ a. a.mission_id) state.attempts event.mission_id id artifact_attempt_unknown
  throw_if (not (is_task_of attempt.task_id artifact.task_id)) artifact_attempt_unknown
  throw_if (is_terminal attempt.status) terminal_attempt_immutable
  ok (
      put_attempt state
        (record attempt { artifact_ids = attempt.artifact_ids ++ artifact.id ∷ [] }))

unfoldable pub record_artifact :
    MissionEvent → MissionProjection → MissionArtifact → Result MissionProjection
record_artifact event state artifact = do
  assert_id Label.artifact_id artifact.id
  throw_if
      (not (text_eq artifact.mission_id event.mission_id)
        || is_some (get state.artifacts artifact.id))
      invalid_artifact
  listed ← list_in_task event state artifact (truthy artifact.task_id)
  done ← list_in_attempt event listed artifact (truthy artifact.attempt_id)
  ok (record done { artifacts = put done.artifacts artifact.id artifact })
