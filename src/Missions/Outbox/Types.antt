-- ===== src/Missions/Outbox/Types.antt =====
-- The records of the mission outbox and the errors of its operations (src/lib/missions/outbox.ts). The
-- explanations of a decision are display text and are left out.
use swarm_z.Base.{◌≡◌, refl, ℕ, Bool, true, false, Option, Number, Text, Dict, List}
use swarm_z.Missions.Types.{Json}

pub data OutboxHydration : Type 0 where
  unknown ready failed : OutboxHydration

pub data OutboxStatus : Type 0 where
  pending claimed delivered failed dead_letter : OutboxStatus

pub data TerminalAttemptStatus : Type 0 where
  succeeded failed blocked needs_human cancelled : TerminalAttemptStatus

pub record SpawnPayload : Type 0 where
  pub task_id : Text
  pub attempt_id : Text
  pub session_id : Option Text
  pub project_id : Text
  pub cwd : Text
  pub root : Option Text
  pub branch : Option Text
  pub base_sha : Option Text
  pub copy_env : Option Bool
  pub prompt : Text
  pub model : Option Text
  pub effort : Option Text

pub record PromptPayload : Type 0 where
  pub session_id : Text
  pub task_id : Text
  pub attempt_id : Text
  pub prompt : Text
  pub expect_report : Bool

pub record SettlePayload : Type 0 where
  pub task_id : Text
  pub attempt_id : Text
  pub status : TerminalAttemptStatus
  pub summary : Option Text
  pub error : Option Text
  pub completion_id : Text
  pub report : Option (Dict Json)

pub data Strategy : Type 0 where
  merge rebase cherry_pick : Strategy

pub record IntegratePayload : Type 0 where
  pub train_id : Text
  pub task_id : Text
  pub operation_id : Text
  pub strategy : Strategy
  pub commit : Text
  pub expected_head : Text

pub record GatePayload : Type 0 where
  pub gate_id : Text
  pub plan_id : Text
  pub command : Text
  pub expected_head : Text

pub data MissionOutboxCommand : Type 0 where
  spawn : SpawnPayload → MissionOutboxCommand
  prompt : PromptPayload → MissionOutboxCommand
  settle : SettlePayload → MissionOutboxCommand
  integrate : IntegratePayload → MissionOutboxCommand
  gate : GatePayload → MissionOutboxCommand

pub record OutboxLease : Type 0 where
  pub owner_id : Text
  pub claim_id : Text
  pub claimed_at : Number
  pub expires_at : Number

pub record OutboxDelivery : Type 0 where
  pub delivered_at : Number
  pub receipt : Dict Json

pub record MissionOutboxRecord : Type 0 where
  pub id : Text
  pub mission_id : Text
  pub idempotency_key : Text
  pub command : MissionOutboxCommand
  pub status : OutboxStatus
  pub created_at : Number
  pub updated_at : Number
  pub attempts : ℕ
  pub max_attempts : Number
  pub next_attempt_at : Number
  pub lease : Option OutboxLease
  pub delivery : Option OutboxDelivery
  pub last_error : Option Text

-- `inherits` says that `records` has the properties of `Object.prototype`, as each object but those that
-- `Object.create(null)` made.
pub record MissionOutboxSnapshot : Type 0 where
  pub hydration : OutboxHydration
  pub inherits : Bool
  pub records : Dict MissionOutboxRecord

pub record EnqueueMissionCommand : Type 0 where
  pub command : MissionOutboxCommand
  pub mission_id : Text
  pub idempotency_key : Text
  pub max_attempts : Option Number

pub data OutboxReason : Type 0 where
  ready not_due lease_active already_delivered dead attempts_exhausted : OutboxReason

pub record OutboxEvaluation : Type 0 where
  pub record_id : Text
  pub eligible : Bool
  pub reason : OutboxReason

pub record ClaimDecision : Type 0 where
  pub snapshot : MissionOutboxSnapshot
  pub claimed : Option MissionOutboxRecord
  pub evaluations : List OutboxEvaluation

pub record MutationDecision : Type 0 where
  pub snapshot : MissionOutboxSnapshot
  pub written : MissionOutboxRecord
  pub changed : Bool

-- The labels of `assertId`, a constructor for each message that is thrown, and `inherited_record` where
-- the code takes a function of `Object.prototype` for a record and the model stops.
pub data OutboxLabel : Type 0 where
  mission_id idempotency_key task_id attempt_id session_id project_id completion_id train_id
        operation_id gate_id plan_id record_id claim_owner claim_id :
      OutboxLabel

pub data OutboxError : Type 0 where
  invalid_id : OutboxLabel → OutboxError
  not_hydrated invalid_timestamp receipt_too_large payload_too_large invalid_base_sha
        copies_environment spawn_incomplete prompt_missing invalid_commits invalid_gate :
      OutboxError
  key_bound_to_other_command record_exists backpressure capacity_exhausted record_unknown
        stale_claim inherited_record :
      OutboxError

-- A function that throws returns `thrown`.
pub data OutboxResult {κ} (V : Type κ) : Type κ where
  thrown : OutboxError → OutboxResult V
  done : V → OutboxResult V

infixl 5 ◌>>=◌
abbrev pub ◌>>=◌ {κ μ} :
    {V : Type κ} {W : Type μ} (statement : OutboxResult V) (rest : V → OutboxResult W)
    → OutboxResult W
thrown e >>= rest = thrown e
done value >>= rest = rest value

infixl 5 ◌>>◌
abbrev pub ◌>>◌ {κ} :
    {W : Type κ} (statement : OutboxResult (Unit {0})) (rest : OutboxResult W) → OutboxResult W
statement >> rest = statement >>= λ value. rest

abbrev pub refuse_if : Bool → OutboxError → OutboxResult (Unit {0})
refuse_if false e = done tt
refuse_if true e = thrown e

-- What a run of two statements that did not throw says of each.
pub >>=-eq-done {κ μ} :
    {V : Type κ} {W : Type μ} (statement : OutboxResult V) (rest : V → OutboxResult W) {w : W}
    → (statement >>= rest) ≡ done w
    → (v : V) × (statement ≡ done v) × (rest v ≡ done w)
>>=-eq-done (thrown e) rest ran = cc
>>=-eq-done (done value) rest ran = (value, refl, ran)
