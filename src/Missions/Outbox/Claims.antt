-- ===== src/Missions/Outbox/Claims.antt =====
-- How commands of the outbox are claimed and how claims expire (src/lib/missions/outbox.ts).
use swarm_z.Base.{
  finite, pos, unit, round_even, round_num, mul_num, ℕ, ◌+◌, ◌-◌, ◌^◌, ◌*◌, min, Bool, true, false,
  not, any, ◌&&◌, ◌||◌, Option, none, some, List, [], ◌∷◌, ◌++◌, sort_by, if◌then◌else◌, Number,
  of_nat, lt_num, le_num, eq_num, add_num, max_num, min_num, floor_num, max_safe_integer, Text,
  codes, Dict, get, values,
}
use swarm_z.Scheduler.Retry.{stable_hash, hash_fraction}
use swarm_z.Missions.Outbox.Types.{
  OutboxStatus, MissionOutboxRecord, MissionOutboxSnapshot, OutboxReason, OutboxEvaluation,
  ClaimDecision, OutboxLabel, record_unknown, inherited_record, OutboxResult, thrown, done, ◌>>=◌,
  ◌>>◌,
}
use swarm_z.Missions.Outbox.Commands.{
  assert_id, assert_ready, finite_time, has_inherited, replace_record,
}

unfoldable pub is_delivered : OutboxStatus → Bool
is_delivered OutboxStatus.delivered = true
is_delivered _ = false

unfoldable pub is_claimed : OutboxStatus → Bool
is_claimed OutboxStatus.claimed = true
is_claimed _ = false

unfoldable pub is_dead : OutboxStatus → Bool
is_dead OutboxStatus.dead_letter = true
is_dead _ = false

-- `record.attempts >= record.maxAttempts`.
unfoldable pub is_exhausted : MissionOutboxRecord → Bool
is_exhausted r = le_num r.max_attempts (of_nat r.attempts)

-- `Math.min(60 * 60_000, Math.max(1_000, Math.floor(leaseMs)))`.
unfoldable pub lease_duration : Number → Number
lease_duration lease_ms = min_num (of_nat 3600000) (max_num (of_nat 1000) (floor_num lease_ms))

-- The record as one claim takes it.
unfoldable pub claim_record :
    Text → Text → Number → Number → MissionOutboxRecord → MissionOutboxRecord
claim_record owner_id claim_id now lease_ms r = record r {
  status = OutboxStatus.claimed;
  attempts = r.attempts + 1;
  updated_at = now;
  lease = some (record {
    owner_id = owner_id;
    claim_id = claim_id;
    claimed_at = now;
    expires_at = add_num now (lease_duration lease_ms);
  });
  last_error = none;
}

-- The record whose retry budget is exhausted.
unfoldable pub bury_record : Number → MissionOutboxRecord → MissionOutboxRecord
bury_record now r = record r {
  status = OutboxStatus.dead_letter;
  lease = none;
  updated_at = now;
  next_attempt_at = of_nat max_safe_integer;
}

-- Why a record cannot be claimed, where it cannot.
unfoldable pub claim_blocker : Number → MissionOutboxRecord → Option OutboxReason
claim_blocker now r =
    if is_delivered r.status
    then some OutboxReason.already_delivered
    else if is_dead r.status
    then some OutboxReason.dead
    else if is_claimed r.status
    then some OutboxReason.lease_active
    else if is_exhausted r
    then some OutboxReason.attempts_exhausted
    else if lt_num now r.next_attempt_at
    then some OutboxReason.not_due
    else none

unfoldable pub is_attempts_exhausted : OutboxReason → Bool
is_attempts_exhausted OutboxReason.attempts_exhausted = true
is_attempts_exhausted _ = false

-- What a record that cannot be claimed leaves: one without attempts left is dead.
unfoldable pub after_blocker :
    Number → MissionOutboxSnapshot → MissionOutboxRecord → OutboxReason → MissionOutboxSnapshot
after_blocker now snapshot r reason =
    if is_attempts_exhausted reason then replace_record snapshot (bury_record now r) else snapshot

unfoldable pub refusal : MissionOutboxRecord → OutboxReason → OutboxEvaluation
refusal r reason = record { record_id = r.id; eligible = false; reason = reason }

-- What the loop does with one record: the snapshot, the selected record and the evaluations after it.
unfoldable pub claim_step :
    (owner_id claim_id : Text)
    → (now lease_ms : Number) → MissionOutboxRecord
    → ClaimDecision
    → ClaimDecision
claim_step owner_id claim_id now lease_ms r decision = elim (claim_blocker now r) [
  | some reason ↦ record {
    snapshot = after_blocker now decision.snapshot r reason;
    claimed = decision.claimed;
    evaluations = decision.evaluations ++ refusal r reason ∷ [];
  }
  | none ↦ elim decision.claimed [
    | some other ↦ record decision {
      evaluations = decision.evaluations ++ refusal r OutboxReason.not_due ∷ [];
    }
    | none ↦
        let taken = claim_record owner_id claim_id now lease_ms r in
        record {
          snapshot = replace_record decision.snapshot taken;
          claimed = some taken;
          evaluations =
              decision.evaluations
              ++ record { record_id = r.id; eligible = true; reason = OutboxReason.ready } ∷ [];
        }
  ]
]

-- The loop over the ordered records.
unfoldable pub claim_first :
    (owner_id claim_id : Text)
    → (now lease_ms : Number) → List MissionOutboxRecord
    → ClaimDecision
    → ClaimDecision
claim_first owner_id claim_id now lease_ms [] decision = decision
claim_first owner_id claim_id now lease_ms (r ∷ rs) decision =
    claim_first owner_id claim_id now lease_ms rs
      (claim_step owner_id claim_id now lease_ms r decision)

-- The lease has run out.
unfoldable pub is_expired : Number → MissionOutboxRecord → Bool
is_expired now r = elim r.lease [
  | none ↦ false
  | some lease ↦ is_claimed r.status && not (lt_num now lease.expires_at)
]

-- By `nextAttemptAt`, then `createdAt`, then id.
unfoldable pub is_due_before :
    (Text → Text → Bool) → MissionOutboxRecord → MissionOutboxRecord → Bool
is_due_before compare a b =
    if not (eq_num a.next_attempt_at b.next_attempt_at)
    then lt_num a.next_attempt_at b.next_attempt_at
    else if not (eq_num a.created_at b.created_at)
    then lt_num a.created_at b.created_at
    else compare a.id b.id

-- The doubles that the literals 0.9 and 0.2 denote, in units.
abbrev units_09 : ℕ
units_09 = 8106479329266893 * 2 ^ 1021

abbrev units_02 : ℕ
units_02 = 3602879701896397 * 2 ^ 1020

-- `0.9 + hash / 0xffff_ffff * 0.2`.
unfoldable pub retry_jitter : ℕ → Number
retry_jitter hash =
    finite (pos (round_even (units_09 + round_even (hash_fraction hash * units_02) unit) 1))

-- `to_text` is the decimal text of a number.
module _ (to_text : ℕ → Text) where
  unfoldable pub retry_delay : MissionOutboxRecord → Number
  retry_delay r =
      let hash = stable_hash (r.id ++ (codes ":" ++ to_text r.attempts)) in
      round_num (mul_num (of_nat (min 300000 (1000 * 2 ^ (r.attempts - 1)))) (retry_jitter hash))

  -- The record once its lease has run out.
  unfoldable pub expired_record : Number → MissionOutboxRecord → MissionOutboxRecord
  expired_record now r = record r {
    status = if is_exhausted r then OutboxStatus.dead_letter else OutboxStatus.failed;
    updated_at = now;
    next_attempt_at =
        if is_exhausted r then of_nat max_safe_integer else add_num now (retry_delay r);
    lease = none;
    last_error = some (codes "claim lease expired before durable delivery acknowledgement");
  }

  unfoldable pub expire_lease : Number → MissionOutboxRecord → MissionOutboxRecord
  expire_lease now r = elim r.lease [
    | none ↦ r
    | some lease ↦
        if not (is_claimed r.status) || lt_num now lease.expires_at then r else expired_record now r
  ]

  unfoldable pub expire_all : Number → Dict MissionOutboxRecord → Dict MissionOutboxRecord
  expire_all now [] = []
  expire_all now ((id, r) ∷ rs) = (id, expire_lease now r) ∷ expire_all now rs

  -- The records are a new object where a lease has run out.
  unfoldable pub reaped_snapshot : Number → MissionOutboxSnapshot → MissionOutboxSnapshot
  reaped_snapshot now snapshot = record snapshot {
    inherits = snapshot.inherits || any (is_expired now) (values snapshot.records);
    records = expire_all now snapshot.records;
  }

  unfoldable pub reap_expired_claims :
      MissionOutboxSnapshot → Number → OutboxResult MissionOutboxSnapshot
  reap_expired_claims snapshot now = do
    assert_ready snapshot
    time ← finite_time now
    done (reaped_snapshot now snapshot)

  -- The checks that both claims start with, and the reaped snapshot.
  unfoldable pub open_claim :
      MissionOutboxSnapshot → Text → Text → Number → OutboxResult MissionOutboxSnapshot
  open_claim snapshot owner_id claim_id now = do
    assert_id OutboxLabel.claim_owner owner_id
    assert_id OutboxLabel.claim_id claim_id
    time ← finite_time now
    reap_expired_claims snapshot now

  unfoldable pub claim_mission_command_by_id :
      MissionOutboxSnapshot
      → (record_id owner_id claim_id : Text) → (now lease_ms : Number) → OutboxResult ClaimDecision
  claim_mission_command_by_id snapshot record_id owner_id claim_id now lease_ms = do
    assert_ready snapshot
    assert_id OutboxLabel.record_id record_id
    current ← open_claim snapshot owner_id claim_id now
    elim (get current.records record_id) [
      | none ↦
          if has_inherited current record_id then thrown inherited_record else thrown record_unknown
      | some r ↦ elim (claim_blocker now r) [
        | some reason ↦ done (record {
          snapshot = after_blocker now current r reason;
          claimed = none;
          evaluations = refusal r reason ∷ [];
        })
        | none ↦
            let taken = claim_record owner_id claim_id now lease_ms r in
            done (record {
              snapshot = replace_record current taken;
              claimed = some taken;
              evaluations =
                  record { record_id = record_id; eligible = true; reason = OutboxReason.ready }
                  ∷ [];
            })
      ]
    ]

  module _ (compare : Text → Text → Bool) where
    unfoldable pub claim_next_mission_command :
        MissionOutboxSnapshot
        → (owner_id claim_id : Text) → (now lease_ms : Number) → OutboxResult ClaimDecision
    claim_next_mission_command snapshot owner_id claim_id now lease_ms = do
      assert_ready snapshot
      current ← open_claim snapshot owner_id claim_id now
      let decision =
          claim_first owner_id claim_id now lease_ms
            (sort_by (is_due_before compare) (values current.records))
            (record { snapshot = current; claimed = none; evaluations = [] })
      done (record decision {
        evaluations =
            sort_by (λ (a b : OutboxEvaluation). compare a.record_id b.record_id)
              decision.evaluations;
      })
