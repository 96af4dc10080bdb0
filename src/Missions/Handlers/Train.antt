-- ===== src/Missions/Handlers/Train.antt =====
-- The events of an integration train (src/lib/missions/core.ts).
use swarm_z.Base.{
  ℕ, Bool, false, not, ◌&&◌, ◌||◌, Option, none, some, is_some, or_else, List, [], ◌∷◌, ◌++◌,
  length, any, every, ltb, leb, Number, of_nat, is_integer, lt_num, eq_num, Text, text_eq,
  is_hex_digit, mem, get, put,
}
use swarm_z.Missions.Types.{
  Mission, IntegrationTrainEntry, IntegrationTrain, MissionProjection, MissionEvent,
  TrainUpdatedPayload,
}
use swarm_z.Missions.Result.{
  Label, Result, ok, ◌>>=◌, ◌>>◌, throw_if, train_task_unknown, train_entries_not_unique,
  invalid_entry_commit, invalid_entry_detail, invalid_retry_revision, invalid_operation_id,
  invalid_train, train_unknown,
}
use swarm_z.Missions.Validate.{assert_id, is_outside, is_bad_text, is_foreign}
use swarm_z.Missions.Handlers.Common.{put_mission, own}

-- `x !== null && test(x)`.
unfoldable pub fails {ℓ} : {A : Type ℓ} → (A → Bool) → Option A → Bool
fails p none = false
fails p (some a) = p a

unfoldable pub is_hex_digit_any_case : ℕ → Bool
is_hex_digit_any_case c = is_hex_digit c || leb b'A' c && leb c b'F'

-- `/^[0-9a-f]{7,64}$/i` does not match.
unfoldable pub is_commit_bad : Text → Bool
is_commit_bad s = not (every is_hex_digit_any_case s) || ltb (length s) 7 || ltb 64 (length s)

-- `!Number.isInteger(position) || position < 0`, or the position or the task was met before.
unfoldable pub is_entry_repeated : List Number → List Text → IntegrationTrainEntry → Bool
is_entry_repeated positions tasks entry =
    not (is_integer entry.position)
    || lt_num entry.position (of_nat 0)
    || any (eq_num entry.position) positions
    || mem entry.task_id tasks

-- The loop of assertTrainEntries, with the positions and tasks met so far. The entry's status is
-- valid by its type, and an integer of at most 1000 is a safe one.
unfoldable pub assert_entries :
    MissionProjection
    → Text
    → List Number
    → List Text
    → List IntegrationTrainEntry
    → Result (Unit {0})
assert_entries state mission_id positions tasks [] = ok tt
assert_entries state mission_id positions tasks (entry ∷ entries) = do
  throw_if (is_foreign state.tasks mission_id entry.task_id) train_task_unknown
  throw_if (is_entry_repeated positions tasks entry) train_entries_not_unique
  throw_if (fails is_commit_bad entry.commit) invalid_entry_commit
  throw_if (fails (λ detail. ltb 2000 (length detail)) entry.detail) invalid_entry_detail
  throw_if (fails (λ n. is_outside n 0 1000) entry.retry_revision) invalid_retry_revision
  throw_if (fails (λ id. is_bad_text id 240) entry.operation_id) invalid_operation_id
  assert_entries state mission_id (entry.position ∷ positions) (entry.task_id ∷ tasks) entries

unfoldable pub assert_train_entries :
    MissionProjection → Text → List IntegrationTrainEntry → Result (Unit {0})
assert_train_entries state mission_id entries = assert_entries state mission_id [] [] entries

unfoldable pub put_train : MissionProjection → IntegrationTrain → MissionProjection
put_train state train = record state {
  integration_trains = put state.integration_trains train.id train;
}

unfoldable pub create_train :
    MissionEvent → Mission → MissionProjection → IntegrationTrain → Result MissionProjection
create_train event mission state train = do
  assert_id Label.integration_train_id train.id
  throw_if
      (not (text_eq train.mission_id event.mission_id)
        || is_some (get state.integration_trains train.id))
      invalid_train
  assert_train_entries state event.mission_id train.entries
  ok (
      put_mission (put_train state train) event
        (record mission { integration_train_ids = mission.integration_train_ids ++ train.id ∷ [] }))

unfoldable pub update_train :
    MissionEvent → MissionProjection → TrainUpdatedPayload → Result MissionProjection
update_train event state input = do
  train ←
      own (λ t. t.mission_id) state.integration_trains event.mission_id input.train_id train_unknown
  let entries = or_else input.entries train.entries
  assert_train_entries state event.mission_id entries
  ok (
      put_train state (record train {
        status = or_else input.status train.status;
        entries = entries;
        updated_at = input.updated_at;
      }))
