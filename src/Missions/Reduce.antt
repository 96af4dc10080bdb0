-- ===== src/Missions/Reduce.antt =====
-- The reducer of mission events and the replay of a log (reduceMissionEvent, replayMissionEvents of
-- src/lib/missions/core.ts).
pub mod Outcome
use swarm_z.Base.{
  ℕ, ◌+◌, not, ◌||◌, Option, none, some, is_some, List, [], ◌∷◌, ◌==◌, if◌then◌else◌, of_nat,
  is_finite, lt_num, Text, text_eq, is_empty, get, put,
}
use swarm_z.Missions.Types.{
  Mission, MissionProjection, MissionEvent, MissionEventPayload, mission_created, mission_archived,
  mission_cancelled, mission_activated, mission_paused, mission_resumed, task_added, task_updated,
  task_archived, task_paused, task_resumed, task_requeued, attempt_started, attempt_finished,
  artifact_recorded, quality_gate_added, quality_gate_resulted, integration_train_created,
  integration_train_updated, candidate_batch_requested, candidate_batch_selected,
  candidate_batch_overridden, schedule_created, schedule_cancelled, schedule_claimed,
  schedule_delivery_failed, schedule_fired,
}
use swarm_z.Missions.Result.{
  Label, Result, ok, err, ◌>>=◌, ◌>>◌, throw_if, event_id_conflict, idempotency_key_conflict,
  stale_revision, invalid_timestamp, mission_exists, mission_missing, mission_archived_immutable,
}
use swarm_z.Missions.Validate.{assert_id, assert_string}
use swarm_z.Missions.Refresh.{refresh_mission}
use swarm_z.Missions.Handlers.{
  Surroundings, put_mission, create_mission, archive_mission, cancel_mission, activate_mission,
  pause_mission, resume_mission, add_task, update_task, archive_task, pause_task, resume_task,
  requeue_task, start_attempt, finish_attempt, record_artifact, add_gate, record_gate_result,
  create_train, update_train, request_batch, choose_candidate, create_schedule, cancel_schedule,
  claim_schedule, fail_delivery, fire_schedule,
}

unfoldable pub empty_mission_projection : MissionProjection
empty_mission_projection = record {
  missions = [];
  tasks = [];
  dependencies = [];
  attempts = [];
  artifacts = [];
  quality_gates = [];
  integration_trains = [];
  candidate_batches = [];
  schedules = [];
  applied_event_ids = [];
  idempotency_keys = [];
}

-- The revision that the next event of a mission must have.
unfoldable pub revision_after : Option Mission → ℕ
revision_after none = 1
revision_after (some mission) = mission.revision + 1

unfoldable pub next_mission_revision : MissionProjection → Text → ℕ
next_mission_revision state mission_id = revision_after (get state.missions mission_id)

module _ (env : Surroundings) where
  unfoldable pub mission_event_fingerprint : MissionEvent → Text
  mission_event_fingerprint event = env.stringify_event (record {
    mission_id = event.mission_id;
    revision = event.revision;
    occurred_at = event.occurred_at;
    actor = event.actor;
    payload = event.payload;
  })

  unfoldable pub mission_command_fingerprint : MissionEvent → Text
  mission_command_fingerprint event =
      env.stringify_command
        (record { mission_id = event.mission_id; actor = event.actor; payload = event.payload })

  -- `switch (event.type)`, for a mission that exists.
  unfoldable pub handle :
      MissionEvent → Mission → MissionProjection → MissionEventPayload → Result MissionProjection
  handle event mission state (mission_created input) = err mission_exists
  handle event mission state (mission_archived archived_at) =
      archive_mission event mission state archived_at
  handle event mission state (mission_cancelled cancelled_at) =
      cancel_mission event mission state cancelled_at
  handle event mission state (mission_activated activated_at) =
      activate_mission event mission state activated_at
  handle event mission state (mission_paused paused_at) =
      pause_mission event mission state paused_at
  handle event mission state (mission_resumed resumed_at) = resume_mission event mission state
  handle event mission state (task_added input) = add_task event mission state input
  handle event mission state (task_updated id updated_at patch) =
      update_task event state id updated_at patch
  handle event mission state (task_archived id archived_at) =
      archive_task event state id archived_at
  handle event mission state (task_paused id paused_at) = pause_task event state id paused_at
  handle event mission state (task_resumed id resumed_at) = resume_task event state id
  handle event mission state (task_requeued id after_attempt_id instruction requeued_at) =
      requeue_task event state id after_attempt_id instruction requeued_at
  handle event mission state (attempt_started input) = start_attempt event state input
  handle event mission state (attempt_finished input) = finish_attempt event state input
  handle event mission state (artifact_recorded artifact) = record_artifact event state artifact
  handle event mission state (quality_gate_added gate) = add_gate event state gate
  handle event mission state (quality_gate_resulted input) = record_gate_result event state input
  handle event mission state (integration_train_created train) =
      create_train event mission state train
  handle event mission state (integration_train_updated input) = update_train event state input
  handle event mission state (candidate_batch_requested input) = request_batch event state input
  handle event mission state (candidate_batch_selected batch_id attempt_id selected_at) =
      choose_candidate env event state batch_id attempt_id none selected_at
  handle event mission state (candidate_batch_overridden batch_id attempt_id reason selected_at) =
      choose_candidate env event state batch_id attempt_id (some reason) selected_at
  handle event mission state (schedule_created schedule) =
      create_schedule event mission state schedule
  handle event mission state (schedule_cancelled id cancelled_at) =
      cancel_schedule event state id cancelled_at
  handle event mission state (schedule_claimed id claimed_at) =
      claim_schedule event state id claimed_at
  handle event mission state (schedule_delivery_failed id failed_at error next_attempt_at) =
      fail_delivery event state id failed_at error next_attempt_at
  handle event mission state (schedule_fired id fired_at) = fire_schedule event state id fired_at

  -- The first event of a mission.
  unfoldable pub handle_first :
      MissionEvent → MissionProjection → MissionEventPayload → Result MissionProjection
  handle_first event state (mission_created input) = create_mission event state input
  handle_first event state _ = err mission_missing

  -- An archived mission takes no event; "mission.created" is refused by `handle` in any case.
  unfoldable pub refuse_archived : Mission → MissionEventPayload → Result (Unit {0})
  refuse_archived mission (mission_created input) = ok tt
  refuse_archived mission _ = throw_if (is_some mission.archived_at) mission_archived_immutable

  -- An event of a mission that exists: its time and revision are set, then the event is handled.
  unfoldable pub handle_next : MissionEvent → Mission → MissionProjection → Result MissionProjection
  handle_next event previous state = do
    refuse_archived previous event.payload
    let mission = record previous { updated_at = event.occurred_at; revision = event.revision }
    handle event mission (put_mission state event mission) event.payload

  unfoldable pub apply_event : MissionProjection → MissionEvent → Result MissionProjection
  apply_event current event = elim (get current.missions event.mission_id) [
    | none ↦ handle_first event current event.payload
    | some previous ↦ handle_next event previous current
  ]

  -- `event.idempotencyKey`, where the empty string counts as absent.
  unfoldable pub key_of : MissionEvent → Option Text
  key_of event = elim event.idempotency_key [
    | none ↦ none
    | some key ↦ if is_empty key then none else some key
  ]

  unfoldable pub put_key : MissionProjection → MissionEvent → Option Text → MissionProjection
  put_key state event none = state
  put_key state event (some key) = record state {
    idempotency_keys = put state.idempotency_keys key (mission_command_fingerprint event);
  }

  unfoldable pub record_event : MissionProjection → MissionEvent → MissionProjection
  record_event state event =
      put_key
        (record state {
          applied_event_ids =
              put state.applied_event_ids event.event_id (mission_event_fingerprint event);
        })
        event (key_of event)

  -- A new event: it is checked, applied and recorded, and the mission's statuses are refreshed.
  unfoldable pub admit : MissionProjection → MissionEvent → Result MissionProjection
  admit current event = do
    throw_if (not (event.revision == next_mission_revision current event.mission_id)) stale_revision
    throw_if (not (is_finite event.occurred_at) || lt_num event.occurred_at (of_nat 0))
        invalid_timestamp
    state ← apply_event current event
    refresh_mission env.comes_before (record_event state event) event.mission_id

  -- The command was seen before, or the event is new.
  unfoldable pub check_key :
      MissionProjection → MissionEvent → Option Text → Result MissionProjection
  check_key current event none = admit current event
  check_key current event (some key) =
      assert_string Label.idempotency_key key 200 >> elim (get current.idempotency_keys key) [
        | none ↦ admit current event
        | some prior ↦
            if text_eq prior (mission_command_fingerprint event)
            then ok current
            else err idempotency_key_conflict
      ]

  unfoldable pub reduce_mission_event : MissionProjection → MissionEvent → Result MissionProjection
  reduce_mission_event current event = do
    assert_id Label.event_id event.event_id
    assert_id Label.mission_id event.mission_id
    elim (get current.applied_event_ids event.event_id) [
      | none ↦ check_key current event (key_of event)
      | some applied ↦
          if text_eq applied (mission_event_fingerprint event)
          then ok current
          else err event_id_conflict
    ]

  unfoldable pub replay_from : MissionProjection → List MissionEvent → Result MissionProjection
  replay_from state [] = ok state
  replay_from state (event ∷ events) =
      reduce_mission_event state event >>= λ state'. replay_from state' events

  unfoldable pub replay_mission_events : List MissionEvent → Result MissionProjection
  replay_mission_events events = replay_from empty_mission_projection events
