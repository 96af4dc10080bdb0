-- ===== src/Missions/Handlers/Mission.antt =====
-- The events of a mission as a whole (src/lib/missions/core.ts).
use swarm_z.Base.{Bool, false, none, some, [], any, Number, Text, trim, is_blank, get}
use swarm_z.Missions.Types.{
  MissionStatus, Mission, MissionProjection, MissionEvent, MissionCreatedPayload,
}
use swarm_z.Missions.Result.{
  Label, Result, ok, ◌>>◌, throw_if, project_required, invalid_parallelism,
  invalid_execution_policy, invalid_budget, mission_has_running_tasks,
}
use swarm_z.Missions.Validate.{assert_string, is_outside, is_policy_invalid, is_budget_invalid}
use swarm_z.Missions.Handlers.Common.{put_mission, is_status_running}

unfoldable pub new_mission : MissionEvent → MissionCreatedPayload → Mission
new_mission event input = record {
  id = event.mission_id;
  project_id = input.project_id;
  title = trim input.title;
  objective = trim input.objective;
  status = MissionStatus.draft;
  task_ids = [];
  integration_train_ids = [];
  policy = input.policy;
  budget = input.budget;
  created_at = input.created_at;
  updated_at = event.occurred_at;
  archived_at = none;
  cancelled_at = none;
  paused_at = none;
  activated_at = none;
  revision = event.revision;
}

-- "mission.created", the mission being new.
unfoldable pub create_mission :
    MissionEvent → MissionProjection → MissionCreatedPayload → Result MissionProjection
create_mission event state input = do
  assert_string Label.mission_title input.title 300
  assert_string Label.mission_objective input.objective 10000
  throw_if (is_blank input.project_id) project_required
  throw_if (is_outside input.policy.max_parallel_attempts 1 48) invalid_parallelism
  throw_if (is_policy_invalid input.policy) invalid_execution_policy
  throw_if (is_budget_invalid input.budget) invalid_budget
  ok (put_mission state event (new_mission event input))

-- `state.tasks[id]?.status === "running"`.
unfoldable pub is_task_running : MissionProjection → Text → Bool
is_task_running state id = elim (get state.tasks id) [
  | none ↦ false
  | some task ↦ is_status_running task.status
]

unfoldable pub archive_mission :
    MissionEvent → Mission → MissionProjection → Number → Result MissionProjection
archive_mission event mission state archived_at = do
  throw_if (any (is_task_running state) mission.task_ids) mission_has_running_tasks
  ok (put_mission state event (record mission { archived_at = some archived_at }))

unfoldable pub cancel_mission :
    MissionEvent → Mission → MissionProjection → Number → Result MissionProjection
cancel_mission event mission state cancelled_at =
    ok (put_mission state event (record mission { cancelled_at = some cancelled_at }))

unfoldable pub activate_mission :
    MissionEvent → Mission → MissionProjection → Number → Result MissionProjection
activate_mission event mission state activated_at = ok (
    put_mission state event (record mission { activated_at = some activated_at; paused_at = none }))

unfoldable pub pause_mission :
    MissionEvent → Mission → MissionProjection → Number → Result MissionProjection
pause_mission event mission state paused_at =
    ok (put_mission state event (record mission { paused_at = some paused_at }))

unfoldable pub resume_mission :
    MissionEvent → Mission → MissionProjection → Result MissionProjection
resume_mission event mission state =
    ok (put_mission state event (record mission { paused_at = none }))
