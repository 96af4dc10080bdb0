-- ===== src/Scheduler/Retry/Bounds.antt =====
-- The backoff stays within the policy's cap (src/lib/scheduler/core.ts).
use swarm_z.Scheduler.Capacity.{ratio_05}
use swarm_z.Base.{
  ℕ, ◌-◌, ◌*◌, ◌^◌, ◌<◌, ◌≤◌, ltb, ℤ, pos, negsuc, unit, or_else, mul_num, round_num,
  mul_num-number, mul_num-pos, round_num-number, max_num-finite, max_num-le, le_num_trans, ◌≡◌,
  refl, ◌⊎◌, inl, inr, Bool, true, false, none, some, ◌++◌, length, Number, finite, infinity,
  neg_infinity, nan, of_nat, is_finite, lt_num, le_num, add_num, max_num, min_num, Text, codes,
  Bool-cases, arith,
}
use swarm_z.Missions.Types.{MissionTask}
use swarm_z.Scheduler.Types.{RecoveryAction}
use swarm_z.Scheduler.Priority.{finite_or}
use swarm_z.Scheduler.Retry.{
  RetryPolicy, stable_hash, power_of_two, jitter_of, ratio_01, base_delay, delay_cap,
  jitter_ratio_of, cannot_retry, retry_delay, retry_after_failure,
}

finite_or-finite : (a b : Number) → is_finite b ≡ true → is_finite (finite_or a b) ≡ true
unfolding finite_or
finite_or-finite a b h = ground arith

of_nat-finite : (n : ℕ) → is_finite (of_nat n) ≡ true
unfolding is_finite of_nat
of_nat-finite n = refl

-- Of `Math.max(0, Math.min(cap, x))` for a finite cap that is not negative, and x no NaN.
clamped :
    (cap x : Number)
    → is_finite cap ≡ true
    → le_num (of_nat 0) cap ≡ true
    → le_num x x ≡ true
    → (le_num (of_nat 0) (max_num (of_nat 0) (min_num cap x)) ≡ true)
      × (le_num (max_num (of_nat 0) (min_num cap x)) cap ≡ true)
unfolding max_num min_num is_finite lt_num le_num of_nat
clamped (finite c) (finite x) h k o = ground arith
clamped (finite c) infinity h k o = ground arith
clamped (finite c) neg_infinity h k o = ground arith
clamped (finite c) nan h k o = cc
clamped infinity x h k o = cc
clamped neg_infinity x h k o = cc
clamped nan x h k o = cc

base_delay-finite : (policy : RetryPolicy) → is_finite (base_delay policy) ≡ true
unfolding base_delay
base_delay-finite policy =
    max_num-finite (of_nat 0) (finite_or policy.base_delay_ms (of_nat 0)) (of_nat-finite 0)
      (finite_or-finite policy.base_delay_ms (of_nat 0) (of_nat-finite 0))

delay_cap-finite : (policy : RetryPolicy) → is_finite (delay_cap policy) ≡ true
unfolding delay_cap
delay_cap-finite policy =
    max_num-finite (base_delay policy) (finite_or policy.max_delay_ms (base_delay policy))
      (base_delay-finite policy)
      (finite_or-finite policy.max_delay_ms (base_delay policy) (base_delay-finite policy))

delay_cap-le : (policy : RetryPolicy) → le_num (of_nat 0) (delay_cap policy) ≡ true
unfolding delay_cap base_delay
delay_cap-le policy =
    let base = finite_or policy.base_delay_ms (of_nat 0) in
    let most = finite_or policy.max_delay_ms (base_delay policy) in
    le_num_trans (of_nat 0) (base_delay policy) (delay_cap policy)
      (max_num-le (of_nat 0) base (of_nat-finite 0)
        (finite_or-finite policy.base_delay_ms (of_nat 0) (of_nat-finite 0))).0
      (max_num-le (base_delay policy) most (base_delay-finite policy)
        (finite_or-finite policy.max_delay_ms (base_delay policy) (base_delay-finite policy))).0

zero_le : le_num (of_nat 0) (of_nat 0) ≡ true
unfolding le_num of_nat
zero_le = refl

-- A finite number that is not negative.
pos-of :
    (x : Number) → is_finite x ≡ true → le_num (of_nat 0) x ≡ true → (n : ℕ) × (x ≡ finite (pos n))
unfolding is_finite le_num of_nat
pos-of (finite (pos n)) h k = (n, refl)
pos-of (finite (negsuc n)) h k = absurd (ground arith)
pos-of infinity h k = cc
pos-of neg_infinity h k = cc
pos-of nan h k = cc

finite-of : (x : Number) → is_finite x ≡ true → (k : ℤ) × (x ≡ finite k)
unfolding is_finite
finite-of (finite k) h = (k, refl)
finite-of infinity h = cc
finite-of neg_infinity h = cc
finite-of nan h = cc

min_num-finite :
    (cap x : Number)
    → is_finite cap ≡ true
    → le_num (of_nat 0) x ≡ true
    → is_finite (min_num cap x) ≡ true
unfolding min_num is_finite lt_num le_num of_nat
min_num-finite (finite c) (finite x) h k = ground arith
min_num-finite (finite c) infinity h k = refl
min_num-finite (finite c) neg_infinity h k = cc
min_num-finite (finite c) nan h k = cc
min_num-finite infinity x h k = cc
min_num-finite neg_infinity x h k = cc
min_num-finite nan x h k = cc

base_delay-le : (policy : RetryPolicy) → le_num (of_nat 0) (base_delay policy) ≡ true
unfolding base_delay
base_delay-le policy =
    let base = finite_or policy.base_delay_ms (of_nat 0) in
    (max_num-le (of_nat 0) base (of_nat-finite 0)
      (finite_or-finite policy.base_delay_ms (of_nat 0) (of_nat-finite 0))).0

power_of_two-lem : (k : ℕ) → k < 1024 → (m : ℕ) × (power_of_two k ≡ finite (pos m))
unfolding power_of_two of_nat
power_of_two-lem k h = (2 ^ k * unit, let small : ltb k 1024 ≡ true = ground arith in rw small refl)

exponential-finite :
    (policy : RetryPolicy) (k : ℕ)
    → k < 1024
    → is_finite (min_num (delay_cap policy) (mul_num (base_delay policy) (power_of_two k))) ≡ true
exponential-finite policy k h =
    let (n, base) = pos-of (base_delay policy) (base_delay-finite policy) (base_delay-le policy) in
    let (m, power) = power_of_two-lem k h in
    min_num-finite (delay_cap policy) (mul_num (base_delay policy) (power_of_two k))
      (delay_cap-finite policy) (rw (base, power) (mul_num-pos n m))

ratio_05-finite : is_finite ratio_05 ≡ true
unfolding is_finite ratio_05
ratio_05-finite = refl

jitter_ratio_of-finite : (policy : RetryPolicy) → is_finite (jitter_ratio_of policy) ≡ true
unfolding jitter_ratio_of
jitter_ratio_of-finite policy =
    let wanted = finite_or (or_else policy.jitter_ratio ratio_01) (of_nat 0) in
    let wanted_finite =
      finite_or-finite (or_else policy.jitter_ratio ratio_01) (of_nat 0) (of_nat-finite 0) in
    min_num-finite ratio_05 (max_num (of_nat 0) wanted) ratio_05-finite
      (max_num-le (of_nat 0) wanted (of_nat-finite 0) wanted_finite).0

jitter_of-finite :
    (ratio : Number) (hash : ℕ) → is_finite ratio ≡ true → is_finite (jitter_of ratio hash) ≡ true
unfolding jitter_of is_finite
jitter_of-finite (finite r) hash h = refl
jitter_of-finite infinity hash h = cc
jitter_of-finite neg_infinity hash h = cc
jitter_of-finite nan hash h = cc

product-number :
    (x y : Number)
    → is_finite x ≡ true
    → is_finite y ≡ true
    → le_num (round_num (mul_num x y)) (round_num (mul_num x y)) ≡ true
product-number x y h k =
    let (a, is_a) = finite-of x h in
    let (b, is_b) = finite-of y k in
    round_num-number (mul_num x y) (rw (is_a, is_b) (mul_num-number a b))

module _ (to_text : ℕ → Text) where
  retry_delay-bounded :
      (task : MissionTask) (policy : RetryPolicy)
      → length task.attempt_ids ≤ 1024
      → (le_num (of_nat 0) (retry_delay to_text task policy) ≡ true)
        × (le_num (retry_delay to_text task policy) (delay_cap policy) ≡ true)
  unfolding retry_delay
  retry_delay-bounded task policy few =
      let attempt = length task.attempt_ids in
      let hash = stable_hash (task.id ++ (codes ":" ++ to_text attempt)) in
      clamped (delay_cap policy) _ (delay_cap-finite policy) (delay_cap-le policy) (
        product-number _ (jitter_of (jitter_ratio_of policy) hash)
          (exponential-finite policy (attempt - 1) (omega (arith, few)))
          (jitter_of-finite (jitter_ratio_of policy) hash (jitter_ratio_of-finite policy)))

  -- A failed task with at most 1024 attempts waits for a number of milliseconds from 0 to the policy's
  -- cap. It is retried, at the time after the delay, where the failure is retryable and the attempts are
  -- not as many as the task may have; else it fails for good, with no next time and no delay.
  pub retry_after_failure_lem :
      (task : MissionTask) (now : Number) (retryable : Bool) (policy : RetryPolicy)
      → length task.attempt_ids ≤ 1024
      → let d = retry_after_failure to_text task now retryable policy in
        (le_num (of_nat 0) d.delay_ms ≡ true)
        × (le_num d.delay_ms (delay_cap policy) ≡ true)
        × (((d.action ≡ RecoveryAction.retry)
              × (retryable ≡ true)
              × (le_num task.max_attempts (of_nat (length task.attempt_ids)) ≡ false)
              × (d.next_eligible_at ≡ some (add_num now d.delay_ms)))
            ⊎ ((d.action ≡ RecoveryAction.fail)
                × ((retryable ≡ false)
                    ⊎ (le_num task.max_attempts (of_nat (length task.attempt_ids)) ≡ true))
                × (d.next_eligible_at ≡ none)
                × (d.delay_ms ≡ of_nat 0)))
  unfolding retry_after_failure cannot_retry
  retry_after_failure_lem task now false policy few =
      (zero_le, delay_cap-le policy, inr (refl, inl refl, refl, refl))
  retry_after_failure_lem task now true policy few =
      let spent = le_num task.max_attempts (of_nat (length task.attempt_ids)) in
      let (low, high) = retry_delay-bounded task policy few in
      elim (Bool-cases spent) [
        | inl stop ↦ rw stop (zero_le, delay_cap-le policy, inr (refl, inr refl, refl, refl))
        | inr go ↦ rw go (low, high, inl (refl, refl, refl, refl))
      ]
