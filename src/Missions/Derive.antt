-- ===== src/Missions/Derive.antt =====
-- Statuses derived from the projection (deriveTaskStatus, deriveMissionStatus of
-- src/lib/missions/core.ts). `compare` stands for `localeCompare`: `compare a b` says that a comes
-- before b.
use swarm_z.Base.{
  Bool, true, false, not, ◌||◌, Option, none, some, is_some, List, [], ◌∷◌, ◌++◌, map, length,
  if◌then◌else◌, of_nat, lt_num, any, every, select, first, last, sort_by, filter_map, Text,
  text_eq, mem, get, values,
}
use swarm_z.Missions.Types.{
  MissionStatus, TaskStatus, AttemptStatus, Mission, MissionTask, TaskAttempt, CandidateBatch,
  QualityGate, QualityGateStatus, EntryStatus, IntegrationTrain, TrainStatus, IntegrationMode,
  MissionProjection,
}
use swarm_z.Missions.Result.{Result, ok, err, ◌>>=◌, type_error}

unfoldable pub task_attempts : MissionProjection → MissionTask → List TaskAttempt
task_attempts state task = filter_map (get state.attempts) task.attempt_ids

unfoldable pub is_succeeded : AttemptStatus → Bool
is_succeeded AttemptStatus.succeeded = true
is_succeeded _ = false

unfoldable pub selected_attempt_for_task : MissionProjection → MissionTask → Option TaskAttempt
selected_attempt_for_task state task = elim task.selected_candidate_attempt_id [
  | some id ↦ get state.attempts id
  | none ↦ last (select (λ attempt. is_succeeded attempt.status) (task_attempts state task))
]

-- `status !== "passed" && status !== "waived"`.
unfoldable pub is_open_gate : QualityGateStatus → Bool
is_open_gate QualityGateStatus.passed = false
is_open_gate QualityGateStatus.waived = false
is_open_gate _ = true

unfoldable pub is_failed_gate : QualityGateStatus → Bool
is_failed_gate QualityGateStatus.failed = true
is_failed_gate _ = false

unfoldable pub required_gates : MissionProjection → MissionTask → List QualityGate
required_gates state task =
    select (λ gate. gate.required) (filter_map (get state.quality_gates) task.quality_gate_ids)

unfoldable pub has_succeeded : Option TaskAttempt → Bool
has_succeeded none = false
has_succeeded (some attempt) = is_succeeded attempt.status

-- The body of `dependencies.some(...)` on a task that exists.
unfoldable pub blocks : MissionProjection → MissionTask → TaskStatus → Bool
blocks state dep TaskStatus.succeeded = false
blocks state dep TaskStatus.archived =
    not (has_succeeded (last (task_attempts state dep)))
    || any (λ gate. is_open_gate gate.status) (required_gates state dep)
blocks state dep _ = true

-- `dependencies.some(...)`, in order up to the first that blocks; reading the status of a dependency
-- that is not there throws a TypeError.
unfoldable pub is_blocked : MissionProjection → List Text → Result Bool
is_blocked state [] = ok false
is_blocked state (id ∷ ids) = elim (get state.tasks id) [
  | none ↦ err type_error
  | some dep ↦ if blocks state dep dep.status then ok true else is_blocked state ids
]

unfoldable pub is_running_attempt : TaskAttempt → Bool
is_running_attempt attempt = elim attempt.status [ AttemptStatus.running ↦ true | _ ↦ false ]

module _ (compare : Text → Text → Bool) where
  -- `right.requestedAt - left.requestedAt || right.id.localeCompare(left.id)`.
  unfoldable pub is_later_batch : CandidateBatch → CandidateBatch → Bool
  is_later_batch left right =
      if lt_num right.requested_at left.requested_at
      then true
      else if lt_num left.requested_at right.requested_at
      then false
      else compare right.id left.id

  unfoldable pub latest_batch : MissionProjection → MissionTask → Option CandidateBatch
  latest_batch state task = first (
      sort_by is_later_batch
        (select (λ batch. text_eq batch.task_id task.id) (values state.candidate_batches)))

-- A task whose latest batch has no selection.
unfoldable pub open_batch_status : MissionProjection → CandidateBatch → TaskStatus
open_batch_status state batch =
    let attempts = filter_map (get state.attempts) batch.attempt_ids in
    if lt_num (of_nat (length attempts)) batch.count
    then elim attempts [ [] ↦ TaskStatus.ready | attempt ∷ rest ↦ TaskStatus.running ]
    else if any is_running_attempt attempts
    then TaskStatus.running
    else TaskStatus.needs_human

unfoldable pub gate_status : List QualityGate → TaskStatus
gate_status gates =
    if any (λ gate. is_failed_gate gate.status) gates
    then TaskStatus.failed
    else if any (λ gate. is_open_gate gate.status) gates
    then TaskStatus.blocked
    else TaskStatus.succeeded

unfoldable pub attempt_outcome : MissionProjection → MissionTask → AttemptStatus → TaskStatus
attempt_outcome state task AttemptStatus.queued = TaskStatus.running
attempt_outcome state task AttemptStatus.running = TaskStatus.running
attempt_outcome state task AttemptStatus.cancelled = TaskStatus.cancelled
attempt_outcome state task AttemptStatus.needs_human = TaskStatus.needs_human
attempt_outcome state task AttemptStatus.blocked = TaskStatus.blocked
attempt_outcome state task AttemptStatus.failed =
    if lt_num (of_nat (length (task_attempts state task))) task.max_attempts
    then TaskStatus.ready
    else TaskStatus.failed
attempt_outcome state task AttemptStatus.succeeded = gate_status (required_gates state task)

-- `task.requeuedAfterAttemptId === latest.id`.
unfoldable pub is_requeued_after : MissionTask → TaskAttempt → Bool
is_requeued_after task latest = elim task.requeued_after_attempt_id [
  | none ↦ false
  | some id ↦ text_eq id latest.id
]

unfoldable pub latest_status : MissionProjection → MissionTask → Option TaskAttempt → TaskStatus
latest_status state task none = TaskStatus.ready
latest_status state task (some latest) =
    if is_requeued_after task latest
    then TaskStatus.ready
    else attempt_outcome state task latest.status

-- `selected ?? attempts[attempts.length - 1]`.
unfoldable pub latest_or : Option TaskAttempt → Option TaskAttempt → Option TaskAttempt
latest_or none o = o
latest_or (some a) o = some a

-- The status once nothing blocks the task.
unfoldable pub unblocked_status :
    MissionProjection → MissionTask → Option CandidateBatch → TaskStatus
unblocked_status state task none = latest_status state task (last (task_attempts state task))
unblocked_status state task (some batch) = elim batch.selected_attempt_id [
  | none ↦ open_batch_status state batch
  | some id ↦
      latest_status state task (latest_or (get state.attempts id) (last (task_attempts state task)))
]

unfoldable pub derive_task_status :
    (Text → Text → Bool) → MissionProjection → MissionTask → Result TaskStatus
derive_task_status compare state task =
    if is_some task.archived_at
    then ok TaskStatus.archived
    else if is_some task.paused_at
    then ok TaskStatus.paused
    else (is_blocked state task.dependency_ids >>= λ blocked. ok (
        if blocked
        then TaskStatus.blocked_by_dependency
        else unblocked_status state task (latest_batch compare state task)))

unfoldable pub is_status_archived : TaskStatus → Bool
is_status_archived TaskStatus.archived = true
is_status_archived _ = false

unfoldable pub is_status_succeeded : TaskStatus → Bool
is_status_succeeded TaskStatus.succeeded = true
is_status_succeeded _ = false

unfoldable pub is_status_needs_human : TaskStatus → Bool
is_status_needs_human TaskStatus.needs_human = true
is_status_needs_human _ = false

unfoldable pub is_status_failed : TaskStatus → Bool
is_status_failed TaskStatus.failed = true
is_status_failed _ = false

unfoldable pub is_status_live : TaskStatus → Bool
is_status_live TaskStatus.running = true
is_status_live TaskStatus.ready = true
is_status_live _ = false

unfoldable pub is_train_completed : TrainStatus → Bool
is_train_completed TrainStatus.completed = true
is_train_completed _ = false

unfoldable pub is_train_blocked : TrainStatus → Bool
is_train_blocked TrainStatus.blocked = true
is_train_blocked _ = false

unfoldable pub is_train_cancelled : TrainStatus → Bool
is_train_cancelled TrainStatus.cancelled = true
is_train_cancelled _ = false

unfoldable pub is_entry_done : EntryStatus → Bool
is_entry_done EntryStatus.integrated = true
is_entry_done EntryStatus.skipped = true
is_entry_done _ = false

-- The task ids of the finished entries of completed trains.
unfoldable pub integrated_task_ids : List IntegrationTrain → List Text
integrated_task_ids [] = []
integrated_task_ids (train ∷ trains) =
    let rest = integrated_task_ids trains in
    if is_train_completed train.status
    then map (λ entry. entry.task_id) (select (λ entry. is_entry_done entry.status) train.entries)
      ++ rest
    else rest

-- A mission in train mode whose live tasks all succeeded.
unfoldable pub train_mode_status : List IntegrationTrain → List MissionTask → MissionStatus
train_mode_status trains live =
    if any (λ train. is_train_blocked train.status) trains
    then MissionStatus.blocked
    else if any (λ train. is_train_cancelled train.status) trains
    then MissionStatus.failed
    else if any (λ train. not (is_train_completed train.status)) trains
        || any (λ task. not (mem task.id (integrated_task_ids trains))) live
    then MissionStatus.active
    else MissionStatus.succeeded

-- A mission with live tasks that did not all succeed.
unfoldable pub unfinished_status : List MissionTask → MissionStatus
unfinished_status live =
    if any (λ task. is_status_needs_human task.status) live
    then MissionStatus.needs_human
    else if any (λ task. is_status_live task.status) live
    then MissionStatus.active
    else if any (λ task. is_status_failed task.status) live
    then MissionStatus.failed
    else MissionStatus.blocked

unfoldable pub live_status : MissionProjection → Mission → List MissionTask → MissionStatus
live_status state mission [] =
    if is_some mission.activated_at then MissionStatus.active else MissionStatus.draft
live_status state mission (task ∷ tasks) =
    let live = task ∷ tasks in
    if every (λ t. is_status_succeeded t.status) live
    then elim mission.policy.integration_mode [
      | IntegrationMode.manual ↦ MissionStatus.succeeded
      | IntegrationMode.train ↦
          train_mode_status
            (filter_map (get state.integration_trains) mission.integration_train_ids) live
    ]
    else unfinished_status live

unfoldable pub live_tasks : MissionProjection → Mission → List MissionTask
live_tasks state mission =
    select (λ task. not (is_status_archived task.status))
      (filter_map (get state.tasks) mission.task_ids)

unfoldable pub derive_mission_status : MissionProjection → Mission → MissionStatus
derive_mission_status state mission =
    if is_some mission.archived_at
    then MissionStatus.archived
    else if is_some mission.cancelled_at
    then MissionStatus.cancelled
    else if is_some mission.paused_at
    then MissionStatus.paused
    else live_status state mission (live_tasks state mission)
