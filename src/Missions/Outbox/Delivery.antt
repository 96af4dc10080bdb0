-- ===== src/Missions/Outbox/Delivery.antt =====
-- How claimed commands of the outbox are settled (src/lib/missions/outbox.ts).
use swarm_z.Base.{
  ℕ, Bool, true, false, not, ◌||◌, Option, none, some, [], ◌∷◌, take, length, sort_by, map, ltb,
  if◌then◌else◌, Number, of_nat, add_num, max_safe_integer, trim, is_space, is_empty, Text, codes,
  text_eq, Dict, get,
}
use swarm_z.Missions.Types.{Json}
use swarm_z.Missions.Outbox.Types.{
  OutboxStatus, OutboxLease, MissionOutboxRecord, MissionOutboxSnapshot, MutationDecision,
  record_unknown, inherited_record, stale_claim, receipt_too_large, OutboxResult, thrown, done,
  ◌>>=◌, ◌>>◌,
}
use swarm_z.Missions.Outbox.Commands.{
  assert_ready, finite_time, has_inherited, replace_record, find_key,
}
use swarm_z.Missions.Outbox.Claims.{is_delivered, is_claimed, is_dead, is_exhausted, retry_delay}

unfoldable pub is_lease_of : Text → Option OutboxLease → Bool
is_lease_of claim_id none = false
is_lease_of claim_id (some lease) = text_eq lease.claim_id claim_id

unfoldable pub record_for_claim :
    MissionOutboxSnapshot → (record_id claim_id : Text) → OutboxResult MissionOutboxRecord
record_for_claim snapshot record_id claim_id = elim (get snapshot.records record_id) [
  | none ↦ if has_inherited snapshot record_id then thrown stale_claim else thrown record_unknown
  | some r ↦
      if is_delivered r.status
      then done r
      else if not (is_claimed r.status) || not (is_lease_of claim_id r.lease)
      then thrown stale_claim
      else done r
]

unfoldable pub unchanged : MissionOutboxSnapshot → MissionOutboxRecord → MutationDecision
unchanged snapshot r = record { snapshot = snapshot; written = r; changed = false }

unfoldable pub changed_to : MissionOutboxSnapshot → MissionOutboxRecord → MutationDecision
changed_to snapshot r = record { snapshot = replace_record snapshot r; written = r; changed = true }

-- `s.replace(/\s+/g, " ")`, after a white space where `after_space` holds.
unfoldable pub collapse : Bool → Text → Text
collapse after_space [] = []
collapse after_space (c ∷ cs) =
    let rest = collapse true cs in
    let other = collapse false cs in
    if is_space c then (if after_space then rest else 32 ∷ rest) else c ∷ other

unfoldable pub error_text : Text → Text
error_text error =
    let text = take 2000 (collapse false (trim error)) in
    if is_empty text then codes "delivery failed" else text

-- `receipt_text` is `JSON.stringify`, and `stable_value` sorts the keys inside a value.
module _ (receipt_text : Dict Json → Text) (stable_value : Json → Json)
    (compare : Text → Text → Bool) where
  unfoldable pub safe_receipt : Dict Json → OutboxResult (Dict Json)
  safe_receipt receipt =
      if ltb 32768 (length (receipt_text receipt))
      then thrown receipt_too_large
      else done (
          map (λ (entry : Text × Json). (entry.0, stable_value entry.1))
            (sort_by (λ (a b : Text × Json). compare a.0 b.0) receipt))

  -- The record as a delivery leaves it.
  unfoldable pub delivered_record : Number → Dict Json → MissionOutboxRecord → MissionOutboxRecord
  delivered_record now receipt r = record r {
    status = OutboxStatus.delivered;
    updated_at = now;
    lease = none;
    delivery = some (record { delivered_at = now; receipt = receipt });
    last_error = none;
  }

  -- What follows in a delivery and in an adoption once the record is found.
  unfoldable pub deliver_record :
      MissionOutboxSnapshot
      → Dict Json
      → Number
      → MissionOutboxRecord
      → OutboxResult MutationDecision
  deliver_record snapshot receipt now r =
      if is_delivered r.status
      then done (unchanged snapshot r)
      else safe_receipt receipt >>= λ (safe : Dict Json).
          done (changed_to snapshot (delivered_record now safe r))

  unfoldable pub deliver_mission_command :
      MissionOutboxSnapshot
      → (record_id claim_id : Text) → Dict Json
      → Number
      → OutboxResult MutationDecision
  deliver_mission_command snapshot record_id claim_id receipt now = do
    assert_ready snapshot
    time ← finite_time now
    r ← record_for_claim snapshot record_id claim_id
    deliver_record snapshot receipt now r

  -- null where no record has the key.
  unfoldable pub adopt_mission_command_receipt :
      MissionOutboxSnapshot
      → (idempotency_key : Text) → Dict Json
      → Number
      → OutboxResult (Option MutationDecision)
  adopt_mission_command_receipt snapshot idempotency_key receipt delivered_at = do
    assert_ready snapshot
    time ← finite_time delivered_at
    elim (find_key snapshot idempotency_key) [
      | none ↦ done none
      | some r ↦ deliver_record snapshot receipt delivered_at r >>= λ (decision : MutationDecision).
          done (some decision)
    ]

module _ (to_text : ℕ → Text) where
  unfoldable pub failed_record : Bool → Text → Number → MissionOutboxRecord → MissionOutboxRecord
  failed_record dead error now r = record r {
    status = if dead then OutboxStatus.dead_letter else OutboxStatus.failed;
    updated_at = now;
    lease = none;
    next_attempt_at = if dead then of_nat max_safe_integer else add_num now (retry_delay to_text r);
    last_error = some (error_text error);
  }

  unfoldable pub fail_mission_command :
      MissionOutboxSnapshot
      → (record_id claim_id error : Text) → Number
      → (retryable : Bool) → OutboxResult MutationDecision
  fail_mission_command snapshot record_id claim_id error now retryable = do
    assert_ready snapshot
    time ← finite_time now
    r ← record_for_claim snapshot record_id claim_id
    done (
        if is_delivered r.status
        then unchanged snapshot r
        else changed_to snapshot (failed_record (not retryable || is_exhausted r) error now r))

unfoldable pub rearmed_record : Number → Number → MissionOutboxRecord → MissionOutboxRecord
rearmed_record time now r = record r {
  status = OutboxStatus.pending;
  attempts = 0;
  next_attempt_at = time;
  updated_at = now;
  lease = none;
  last_error = none;
}

unfoldable pub retry_dead_letter :
    MissionOutboxSnapshot → Text → Number → OutboxResult MutationDecision
retry_dead_letter snapshot record_id now = do
  assert_ready snapshot
  elim (get snapshot.records record_id) [
    | none ↦
        if has_inherited snapshot record_id then thrown inherited_record else thrown record_unknown
    | some r ↦
        if not (is_dead r.status)
        then done (unchanged snapshot r)
        else finite_time now >>= λ (time : Number).
            done (changed_to snapshot (rearmed_record time now r))
  ]
