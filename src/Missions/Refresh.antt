-- ===== src/Missions/Refresh.antt =====
-- Recomputing the statuses of a mission (refreshMission of src/lib/missions/core.ts).
pub mod Frame
use swarm_z.Base.{
  ℕ, zero, suc, Bool, true, false, not, ◌==◌, ◌||◌, none, some, List, [], ◌∷◌, length,
  if◌then◌else◌, Text, get, put,
}
use swarm_z.Missions.Types.{TaskStatus, MissionTask, MissionProjection}
use swarm_z.Missions.Result.{Result, ok, err, ◌>>=◌, type_error}
use swarm_z.Missions.Derive.{derive_task_status, derive_mission_status}

-- A number for each status.
unfoldable pub status_index : TaskStatus → ℕ
status_index TaskStatus.draft = 0
status_index TaskStatus.paused = 1
status_index TaskStatus.blocked_by_dependency = 2
status_index TaskStatus.ready = 3
status_index TaskStatus.running = 4
status_index TaskStatus.needs_human = 5
status_index TaskStatus.blocked = 6
status_index TaskStatus.failed = 7
status_index TaskStatus.succeeded = 8
status_index TaskStatus.cancelled = 9
status_index TaskStatus.archived = 10

-- `a !== b`.
unfoldable pub is_other : TaskStatus → TaskStatus → Bool
unfolding status_index
is_other a b = not (status_index a == status_index b)

unfoldable pub set_status : MissionProjection → Text → MissionTask → TaskStatus → MissionProjection
set_status state id task status = record state {
  tasks = put state.tasks id (record task { status = status });
}

module _ (compare : Text → Text → Bool) where
  -- The inner loop: one pass over the tasks, with the flag `changed`.
  unfoldable pub refresh_pass :
      List Text → Bool → MissionProjection → Result (Bool × MissionProjection)
  refresh_pass [] changed state = ok (changed, state)
  refresh_pass (id ∷ ids) changed state = elim (get state.tasks id) [
    | none ↦ refresh_pass ids changed state
    | some task ↦ derive_task_status compare state task >>= λ status.
        refresh_pass ids (changed || is_other status task.status)
          (if is_other status task.status then set_status state id task status else state)
  ]

  -- The outer loop: at most one pass more than there are tasks, and none after one without a change.
  unfoldable pub refresh_passes : ℕ → List Text → MissionProjection → Result MissionProjection
  refresh_passes zero ids state = ok state
  refresh_passes (suc n) ids state = refresh_pass ids false state >>= λ r. elim r.0 [
    | true ↦ refresh_passes n ids r.1
    | false ↦ ok r.1
  ]

  unfoldable pub refresh_mission : MissionProjection → Text → Result MissionProjection
  refresh_mission state mission_id = elim (get state.missions mission_id) [
    | none ↦ ok state
    | some mission ↦
        refresh_passes (suc (length mission.task_ids)) mission.task_ids state >>= λ done.
        elim (get done.missions mission_id) [
          | none ↦ err type_error
          | some updated ↦ ok (record done {
            missions =
                put done.missions mission_id
                  (record updated { status = derive_mission_status done updated });
          })
        ]
  ]
