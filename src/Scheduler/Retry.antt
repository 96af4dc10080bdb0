-- ===== src/Scheduler/Retry.antt =====
-- The backoff of a failed task (src/lib/scheduler/core.ts).
pub mod Bounds
use Prim.Native.Nat.{bit_xor}
use swarm_z.Base.{
  ℕ, ◌+◌, ◌-◌, ◌*◌, ◌%◌, ◌^◌, ◌<◌, ◌≡◌, refl, ◌↔◌, inl, inr, Bool, true, false, not, ◌&&◌, ◌||◌,
  Option, none, some, or_else, List, [], ◌∷◌, ◌++◌, length, if◌then◌else◌, ℤ, pos, negsuc, sub_ℕ,
  pos_part, neg_part, ltb, unit, product, round_even, round_signed, mul_num, round_num, Number,
  finite, infinity, neg_infinity, nan, of_nat, is_finite, lt_num, le_num, add_num, max_num, min_num,
  Text, codes, Bool-cases, arith,
}
use swarm_z.Missions.Types.{MissionTask}
use swarm_z.Scheduler.Types.{RecoveryAction}
use swarm_z.Scheduler.Capacity.{ratio_05}
use swarm_z.Scheduler.Priority.{finite_or}

pub record RetryPolicy : Type 0 where
  pub base_delay_ms : Number
  pub max_delay_ms : Number
  pub jitter_ratio : Option Number

-- The text that explains a decision: with the attempt's number and the cap, for a retry.
pub data RetryReason : Type 0 where
  attempts_exhausted not_retryable : RetryReason
  bounded_backoff : (attempt : ℕ) (max_attempts : Number) → RetryReason

pub record RetryDecision : Type 0 where
  pub task_id : Text
  pub action : RecoveryAction
  pub attempt_number : ℕ
  pub next_eligible_at : Option Number
  pub delay_ms : Number
  pub reason : RetryReason

-- One round on 32-bit words: `hash ^= c; hash = Math.imul(hash, 16_777_619);`.
unfoldable pub mix : ℕ → ℕ → ℕ
mix hash c = bit_xor hash c * 16777619 % 4294967296

hash_from : ℕ → Text → ℕ
hash_from hash [] = hash
hash_from hash (c ∷ cs) = hash_from (mix hash c) cs

unfoldable pub stable_hash : Text → ℕ
unfolding hash_from
stable_hash value = hash_from 2166136261 value

-- The double that the literal 0.1 denotes.
abbrev pub ratio_01 : Number
ratio_01 = finite (pos (3602879701896397 * 2 ^ 1019))

-- `2 ** k`.
unfoldable pub power_of_two : ℕ → Number
power_of_two k = if ltb k 1024 then of_nat (2 ^ k) else infinity

-- The double `hash / 0xffff_ffff`, in units.
unfoldable pub hash_fraction : ℕ → ℕ
hash_fraction hash = round_even (hash * unit) 4294967295

-- `1 + (hash / 0xffff_ffff * 2 - 1) * ratio`, for a finite ratio; no step of it is above 2 ^ 1024, since
-- the ratio is at most 0.5.
unfoldable pub jitter_of : Number → ℕ → Number
jitter_of (finite ratio) hash =
    let swing = round_signed (sub_ℕ (2 * hash_fraction hash) unit) 1 in
    let part = round_signed (product swing ratio) unit in
    finite (round_signed (sub_ℕ (pos_part part + unit) (neg_part part)) 1)
jitter_of other hash = nan

unfoldable pub base_delay : RetryPolicy → Number
base_delay policy = max_num (of_nat 0) (finite_or policy.base_delay_ms (of_nat 0))

unfoldable pub delay_cap : RetryPolicy → Number
delay_cap policy = max_num (base_delay policy) (finite_or policy.max_delay_ms (base_delay policy))

unfoldable pub jitter_ratio_of : RetryPolicy → Number
jitter_ratio_of policy =
    min_num ratio_05
      (max_num (of_nat 0) (finite_or (or_else policy.jitter_ratio ratio_01) (of_nat 0)))

unfoldable pub cannot_retry : MissionTask → Bool → Bool
cannot_retry task retryable =
    not retryable || le_num task.max_attempts (of_nat (length task.attempt_ids))

-- `to_text` is the decimal text of a number.
module _ (to_text : ℕ → Text) where
  unfoldable pub retry_delay : MissionTask → RetryPolicy → Number
  retry_delay task policy =
      let attempt = length task.attempt_ids in
      let cap = delay_cap policy in
      let exponential = min_num cap (mul_num (base_delay policy) (power_of_two (attempt - 1))) in
      let jitter =
        jitter_of (jitter_ratio_of policy)
          (stable_hash (task.id ++ (codes ":" ++ to_text attempt))) in
      max_num (of_nat 0) (min_num cap (round_num (mul_num exponential jitter)))

  unfoldable pub retry_after_failure : MissionTask → Number → Bool → RetryPolicy → RetryDecision
  retry_after_failure task now retryable policy =
      let attempt = length task.attempt_ids in
      if cannot_retry task retryable
      then record {
        task_id = task.id;
        action = RecoveryAction.fail;
        attempt_number = attempt;
        next_eligible_at = none;
        delay_ms = of_nat 0;
        reason = if retryable then attempts_exhausted else not_retryable;
      }
      else record {
        task_id = task.id;
        action = RecoveryAction.retry;
        attempt_number = attempt;
        next_eligible_at = some (add_num now (retry_delay task policy));
        delay_ms = retry_delay task policy;
        reason = bounded_backoff (attempt + 1) task.max_attempts;
      }
