-- ===== src/Missions/Outbox/Commands.antt =====
-- How commands enter the outbox (src/lib/missions/outbox.ts).
use swarm_z.Base.{
  ℕ, Bool, true, false, not, ◌&&◌, ◌||◌, Option, none, some, or_else, is_some, [], ◌∷◌, length,
  every, find, ltb, leb, ◌==◌, if◌then◌else◌, Number, of_nat, is_finite, lt_num, max_num, min_num,
  floor_num, Text, codes, text_eq, is_empty, is_blank, is_alphanumeric, is_hex_digit, mem, get, put,
  values,
}
use swarm_z.Missions.Outbox.Types.{
  OutboxHydration, OutboxStatus, SpawnPayload, MissionOutboxCommand, spawn, prompt, settle,
  integrate, gate, MissionOutboxRecord, MissionOutboxSnapshot, EnqueueMissionCommand,
  MutationDecision, OutboxLabel, invalid_id, not_hydrated, invalid_timestamp, payload_too_large,
  invalid_base_sha, copies_environment, spawn_incomplete, prompt_missing, invalid_commits,
  invalid_gate, key_bound_to_other_command, record_exists, backpressure, capacity_exhausted,
  OutboxResult, thrown, done, ◌>>=◌, ◌>>◌, refuse_if,
}

-- `[A-Za-z0-9_-]` and `[A-Za-z0-9._:-]`.
is_id_start : ℕ → Bool
is_id_start c = is_alphanumeric c || c == b'_' || c == b'-'

is_id_part : ℕ → Bool
is_id_part c = is_alphanumeric c || c == b'.' || c == b'_' || c == b':' || c == b'-'

-- `ID_RE`, and none of the three names.
unfoldable pub is_valid_id : Text → Bool
unfolding is_id_start is_id_part
is_valid_id [] = false
is_valid_id (c ∷ cs) =
    is_id_start c
    && every is_id_part cs
    && leb (length cs) 191
    && not (mem (c ∷ cs) (codes "__proto__" ∷ codes "prototype" ∷ codes "constructor" ∷ []))

unfoldable pub assert_id : OutboxLabel → Text → OutboxResult (Unit {0})
assert_id label value = refuse_if (not (is_valid_id value)) (invalid_id label)

unfoldable pub is_ready : OutboxHydration → Bool
is_ready OutboxHydration.ready = true
is_ready _ = false

unfoldable pub assert_ready : MissionOutboxSnapshot → OutboxResult (Unit {0})
assert_ready snapshot = refuse_if (not (is_ready snapshot.hydration)) not_hydrated

unfoldable pub finite_time : Number → OutboxResult Number
finite_time value =
    if not (is_finite value) || lt_num value (of_nat 0)
    then thrown invalid_timestamp
    else done (floor_num value)

-- A digit of `/[0-9a-f]/i`.
is_hex : ℕ → Bool
is_hex c = is_hex_digit c || (leb b'A' c && leb c b'F')

-- `/^[0-9a-f]{low,64}$/i`.
unfoldable pub is_sha : ℕ → Text → Bool
unfolding is_hex
is_sha low s = every is_hex s && leb low (length s) && leb (length s) 64

unfoldable pub validate_spawn : SpawnPayload → OutboxResult (Unit {0})
validate_spawn payload = do
  assert_id OutboxLabel.task_id payload.task_id
  assert_id OutboxLabel.attempt_id payload.attempt_id
  elim payload.session_id [
    | none ↦ done tt
    | some id ↦ if is_empty id then done tt else assert_id OutboxLabel.session_id id
  ]
  elim payload.base_sha [
    | none ↦ done tt
    | some sha ↦ refuse_if (not (is_empty sha) && not (is_sha 40 sha)) invalid_base_sha
  ]
  elim payload.copy_env [ none ↦ done tt | some copies ↦ refuse_if copies copies_environment ]
  assert_id OutboxLabel.project_id payload.project_id
  refuse_if (is_blank payload.cwd || is_blank payload.prompt) spawn_incomplete

unfoldable pub validate_payload : MissionOutboxCommand → OutboxResult (Unit {0})
validate_payload (spawn payload) = validate_spawn payload
validate_payload (prompt payload) = do
  assert_id OutboxLabel.session_id payload.session_id
  assert_id OutboxLabel.task_id payload.task_id
  assert_id OutboxLabel.attempt_id payload.attempt_id
  refuse_if (is_blank payload.prompt) prompt_missing
validate_payload (settle payload) = do
  assert_id OutboxLabel.task_id payload.task_id
  assert_id OutboxLabel.attempt_id payload.attempt_id
  assert_id OutboxLabel.completion_id payload.completion_id
validate_payload (integrate payload) = do
  assert_id OutboxLabel.train_id payload.train_id
  assert_id OutboxLabel.task_id payload.task_id
  assert_id OutboxLabel.operation_id payload.operation_id
  refuse_if (not (is_sha 7 payload.commit) || not (is_sha 7 payload.expected_head)) invalid_commits
validate_payload (gate payload) = do
  assert_id OutboxLabel.gate_id payload.gate_id
  assert_id OutboxLabel.plan_id payload.plan_id
  refuse_if (is_blank payload.command || not (is_sha 7 payload.expected_head)) invalid_gate

unfoldable pub empty_mission_outbox : MissionOutboxSnapshot
empty_mission_outbox = record { hydration = OutboxHydration.ready; inherits = false; records = [] }

-- The ids among the names of the properties of `Object.prototype`.
unfoldable pub is_inherited : Text → Bool
is_inherited id = mem id (
    codes "toString"
    ∷ codes "toLocaleString"
    ∷ codes "valueOf"
    ∷ codes "hasOwnProperty"
    ∷ codes "isPrototypeOf"
    ∷ codes "propertyIsEnumerable"
    ∷ codes "constructor"
    ∷ codes "__proto__"
    ∷ codes "__defineGetter__"
    ∷ codes "__defineSetter__"
    ∷ codes "__lookupGetter__"
    ∷ codes "__lookupSetter__"
    ∷ [])

-- `snapshot.records[id]`, which has no record of its own, is a function of `Object.prototype`.
unfoldable pub has_inherited : MissionOutboxSnapshot → Text → Bool
has_inherited snapshot id = snapshot.inherits && is_inherited id

unfoldable pub is_settle : MissionOutboxCommand → Bool
is_settle (settle payload) = true
is_settle _ = false

unfoldable pub replace_record : MissionOutboxSnapshot → MissionOutboxRecord → MissionOutboxSnapshot
replace_record snapshot r = record snapshot {
  inherits = true;
  records = put snapshot.records r.id r;
}

unfoldable pub find_key : MissionOutboxSnapshot → Text → Option MissionOutboxRecord
find_key snapshot key =
    find (λ (r : MissionOutboxRecord). text_eq r.idempotency_key key) (values snapshot.records)

unfoldable pub attempt_limit : Option Number → Number
attempt_limit max_attempts =
    min_num (of_nat 20) (max_num (of_nat 1) (floor_num (or_else max_attempts (of_nat 5))))

unfoldable pub new_record : EnqueueMissionCommand → Text → Number → MissionOutboxRecord
new_record command record_id now = record {
  id = record_id;
  mission_id = command.mission_id;
  idempotency_key = command.idempotency_key;
  command = command.command;
  status = OutboxStatus.pending;
  created_at = now;
  updated_at = now;
  attempts = 0;
  max_attempts = attempt_limit command.max_attempts;
  next_attempt_at = now;
  lease = none;
  delivery = none;
  last_error = none;
}

-- `payload_text` is `JSON.stringify` of a command's payload, and `fingerprint mission key command` that
-- of the three with sorted keys.
module _ (payload_text : MissionOutboxCommand → Text)
    (fingerprint : Text → Text → MissionOutboxCommand → Text) where
  unfoldable pub command_fingerprint : EnqueueMissionCommand → Text
  command_fingerprint command =
      fingerprint command.mission_id command.idempotency_key command.command

  unfoldable pub record_fingerprint : MissionOutboxRecord → Text
  record_fingerprint r = fingerprint r.mission_id r.idempotency_key r.command

  unfoldable pub validate_command : EnqueueMissionCommand → OutboxResult (Unit {0})
  validate_command command = do
    assert_id OutboxLabel.mission_id command.mission_id
    assert_id OutboxLabel.idempotency_key command.idempotency_key
    refuse_if (ltb 100000 (length (payload_text command.command))) payload_too_large
    validate_payload command.command

  -- The command's key is that of a record.
  unfoldable pub reuse_record :
      MissionOutboxSnapshot
      → EnqueueMissionCommand
      → MissionOutboxRecord
      → OutboxResult MutationDecision
  reuse_record snapshot command found =
      if not (text_eq (record_fingerprint found) (command_fingerprint command))
      then thrown key_bound_to_other_command
      else done (record { snapshot = snapshot; written = found; changed = false })

  unfoldable pub admit_command :
      MissionOutboxSnapshot → EnqueueMissionCommand → Text → Number → OutboxResult MutationDecision
  admit_command snapshot command record_id now = do
    refuse_if (is_some (get snapshot.records record_id) || has_inherited snapshot record_id)
        record_exists
    refuse_if (leb 9500 (length snapshot.records) && not (is_settle command.command)) backpressure
    refuse_if (leb 10000 (length snapshot.records)) capacity_exhausted
    done (record {
      snapshot = replace_record snapshot (new_record command record_id now);
      written = new_record command record_id now;
      changed = true;
    })

  unfoldable pub enqueue_mission_command :
      MissionOutboxSnapshot → EnqueueMissionCommand → Text → Number → OutboxResult MutationDecision
  enqueue_mission_command snapshot command record_id now = do
    assert_ready snapshot
    validate_command command
    assert_id OutboxLabel.record_id record_id
    time ← finite_time now
    elim (find_key snapshot command.idempotency_key) [
      | some found ↦ reuse_record snapshot command found
      | none ↦ admit_command snapshot command record_id now
    ]
