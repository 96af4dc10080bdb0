-- ===== src/Missions/Handlers/Schedule.antt =====
-- The events of a schedule, the durable reminders of a mission (src/lib/missions/core.ts).
use swarm_z.Base.{
  ℕ, ◌+◌, Bool, not, ◌||◌, none, some, is_some, or_else, Number, is_finite, lt_num, add_nat,
  sub_nat, Text, text_eq, trim, get,
}
use swarm_z.Missions.Types.{Mission, MissionSchedule, MissionProjection, MissionEvent}
use swarm_z.Missions.Result.{
  Label, Result, ok, ◌>>=◌, ◌>>◌, throw_if, invalid_schedule, invalid_schedule_time,
  schedule_not_pending, schedule_unknown, schedule_not_cancellable, schedule_not_claimable,
  schedule_not_claimed, invalid_retry_time, schedule_not_fireable,
}
use swarm_z.Missions.Validate.{assert_id, assert_string}
use swarm_z.Missions.Handlers.Common.{put_schedule, own, is_system}

-- 365 days in milliseconds.
abbrev pub year_ms : ℕ
year_ms = 31536000000

unfoldable pub is_time_bad : Number → Number → Bool
is_time_bad occurred_at at_time =
    not (is_finite at_time)
    || lt_num at_time (sub_nat occurred_at 60000)
    || lt_num (add_nat occurred_at year_ms) at_time

unfoldable pub new_schedule : MissionSchedule → MissionSchedule
new_schedule schedule = record schedule {
  note = trim schedule.note;
  delivery_attempts = some (or_else schedule.delivery_attempts 0);
}

unfoldable pub create_schedule :
    MissionEvent → Mission → MissionProjection → MissionSchedule → Result MissionProjection
create_schedule event mission state schedule = do
  assert_id Label.schedule_id schedule.id
  throw_if
      (not (text_eq schedule.mission_id event.mission_id)
        || not (text_eq schedule.project_id mission.project_id)
        || is_some (get state.schedules schedule.id))
      invalid_schedule
  assert_string Label.schedule_note schedule.note 500
  throw_if (is_time_bad event.occurred_at schedule.at_time) invalid_schedule_time
  throw_if
      (is_some schedule.cancelled_at || is_some schedule.claimed_at || is_some schedule.fired_at)
      schedule_not_pending
  ok (put_schedule state (new_schedule schedule))

unfoldable pub own_schedule : MissionProjection → MissionEvent → Text → Result MissionSchedule
own_schedule state event id =
    own (λ s. s.mission_id) state.schedules event.mission_id id schedule_unknown

unfoldable pub cancel_schedule :
    MissionEvent → MissionProjection → Text → Number → Result MissionProjection
cancel_schedule event state id cancelled_at = do
  schedule ← own_schedule state event id
  throw_if (is_some schedule.claimed_at || is_some schedule.cancelled_at) schedule_not_cancellable
  ok (put_schedule state (record schedule { cancelled_at = some cancelled_at }))

unfoldable pub claim_schedule :
    MissionEvent → MissionProjection → Text → Number → Result MissionProjection
claim_schedule event state id claimed_at = do
  schedule ← own_schedule state event id
  throw_if
      (not (is_system event.actor) || is_some schedule.cancelled_at || is_some schedule.claimed_at)
      schedule_not_claimable
  ok (
      put_schedule state (record schedule {
        claimed_at = some claimed_at;
        delivery_attempts = some (or_else schedule.delivery_attempts 0 + 1);
        last_delivery_error = none;
      }))

unfoldable pub fail_delivery :
    MissionEvent → MissionProjection → Text → Number → Text → Number → Result MissionProjection
fail_delivery event state id failed_at error next_attempt_at = do
  schedule ← own_schedule state event id
  throw_if
      (not (is_system event.actor)
        || not (is_some schedule.claimed_at)
        || is_some schedule.fired_at
        || is_some schedule.cancelled_at)
      schedule_not_claimed
  assert_string Label.schedule_delivery_error error 1000
  throw_if (not (is_finite next_attempt_at) || lt_num next_attempt_at failed_at) invalid_retry_time
  ok (
      put_schedule state (record schedule {
        claimed_at = none;
        last_delivery_error = some (trim error);
        next_attempt_at = some next_attempt_at;
      }))

unfoldable pub fire_schedule :
    MissionEvent → MissionProjection → Text → Number → Result MissionProjection
fire_schedule event state id fired_at = do
  schedule ← own_schedule state event id
  throw_if
      (not (is_system event.actor)
        || not (is_some schedule.claimed_at)
        || is_some schedule.fired_at)
      schedule_not_fireable
  ok (
      put_schedule state (record schedule {
        fired_at = some fired_at;
        last_delivery_error = none;
        next_attempt_at = none;
      }))
