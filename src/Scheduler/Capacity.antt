-- ===== src/Scheduler/Capacity.antt =====
-- The fleet's capacity under health signals (src/lib/scheduler/core.ts).
pub mod Bounds
use swarm_z.Base.{
  Dict, min, max, ℕ, ◌+◌, ◌-◌, ◌*◌, ◌/◌, ◌^◌, ◌≤◌, ◌≡◌, Bool, true, false, ◌&&◌, ◌||◌, Option, none,
  some, List, [], ◌∷◌, ◌++◌, ltb, leb, ◌==◌, if◌then◌else◌, pos, Number, finite, unit, of_nat,
  is_finite, lt_num, le_num, arith,
}

-- A cap for all ids, or the object of the caps of some ids and of `default`.
pub data ConcurrencyLimit : Type 0 where
  for_all : Number → ConcurrencyLimit
  by_id : Dict Number → ConcurrencyLimit

pub record SchedulerLimits : Type 0 where
  pub global_concurrency : Number
  pub per_project_concurrency : ConcurrencyLimit
  pub per_mission_concurrency : Option ConcurrencyLimit
  pub hard_backend_cap : Number
  pub aging_interval_ms : Number

pub data Health : Type 0 where
  healthy degraded critical : Health

pub record SchedulerHealthSignals : Type 0 where
  pub health : Option Health
  pub rate_limit_remaining_ratio : Option Number
  pub recent_failure_ratio : Option Number
  pub memory_pressure : Option Number
  pub paused : Option Bool

-- The texts of `reasons`.
pub data CapacityReason : Type 0 where
  globally_paused health_critical health_degraded rate_limit_exhausted rate_limit_low :
      CapacityReason
  failures_halved failures_reduced memory_critical memory_high : CapacityReason
  capped : (hard_cap : ℕ) → CapacityReason
  fully_occupied all_healthy : CapacityReason

pub record AdaptiveCapacity : Type 0 where
  pub requested : ℕ
  pub effective : ℕ
  pub available : ℕ
  pub hard_backend_available : ℕ
  pub reasons : List CapacityReason

-- `Math.max(0, Math.floor(finite(value)))`.
unfoldable pub non_negative_integer : Number → ℕ
unfolding unit
non_negative_integer (finite (pos n)) = n / unit
non_negative_integer _ = 0

-- `Math.min(1, Math.max(0, value))` where the value is a finite number.
unfoldable pub ratio : Option Number → Option Number
unfolding is_finite lt_num of_nat
ratio none = none
ratio (some value) =
    if is_finite value
    then some (
        if lt_num value (of_nat 0)
        then of_nat 0
        else if lt_num (of_nat 1) value
        then of_nat 1
        else value)
    else none

-- The doubles that the literals 0.05, 0.2, 0.25, 0.5, 0.75 and 0.9 denote.
unfoldable pub ratio_005 : Number
ratio_005 = finite (pos (3602879701896397 * 2 ^ 1018))

unfoldable pub ratio_02 : Number
ratio_02 = finite (pos (3602879701896397 * 2 ^ 1020))

unfoldable pub ratio_025 : Number
ratio_025 = finite (pos (2 ^ 1072))

unfoldable pub ratio_05 : Number
ratio_05 = finite (pos (2 ^ 1073))

unfoldable pub ratio_075 : Number
ratio_075 = finite (pos (3 * 2 ^ 1072))

unfoldable pub ratio_09 : Number
ratio_09 = finite (pos (8106479329266893 * 2 ^ 1021))

-- `value != null && value <= bound`, and `value != null && value >= bound`.
unfoldable pub at_most : Option Number → Number → Bool
at_most none bound = false
at_most (some value) bound = le_num value bound

unfoldable pub at_least : Option Number → Number → Bool
at_least none bound = false
at_least (some value) bound = le_num bound value

-- The cap so far, and the reasons for it.
pub record Reduced : Type 0 where
  pub effective : ℕ
  pub reasons : List CapacityReason

unfoldable pub reduce_to : ℕ → CapacityReason → Reduced → Reduced
reduce_to effective reason r = record {
  effective = effective;
  reasons = r.reasons ++ (reason ∷ []);
}

unfoldable pub is_degraded : Option Health → Bool
is_degraded (some Health.degraded) = true
is_degraded _ = false

unfoldable pub is_critical : Option Health → Bool
is_critical (some Health.critical) = true
is_critical _ = false

unfoldable pub is_paused : Option Bool → Bool
is_paused (some true) = true
is_paused _ = false

unfoldable pub by_health : Option Health → Reduced → Reduced
by_health health r =
    if is_degraded health && ltb 1 r.effective
    then reduce_to (max 1 ((r.effective + 1) / 2)) health_degraded r
    else r

unfoldable pub by_rate_limit : Option Number → Reduced → Reduced
by_rate_limit remaining r =
    if at_most remaining ratio_005
    then reduce_to 0 rate_limit_exhausted r
    else if at_most remaining ratio_02 && ltb 1 r.effective
    then reduce_to 1 rate_limit_low r
    else r

unfoldable pub by_failures : Option Number → Reduced → Reduced
by_failures failures r =
    if at_least failures ratio_05 && ltb 1 r.effective
    then reduce_to (max 1 (r.effective / 2)) failures_halved r
    else if at_least failures ratio_025 && ltb 1 r.effective
    then reduce_to (r.effective - 1) failures_reduced r
    else r

unfoldable pub by_memory : Option Number → Reduced → Reduced
by_memory memory r =
    if at_least memory ratio_09
    then reduce_to 0 memory_critical r
    else if at_least memory ratio_075 && ltb 1 r.effective
    then reduce_to (max 1 (r.effective / 2)) memory_high r
    else r

unfoldable pub reduce_capacity : SchedulerHealthSignals → Reduced → Reduced
reduce_capacity signals r =
    if is_paused signals.paused
    then reduce_to 0 globally_paused r
    else if is_critical signals.health
    then reduce_to 0 health_critical r
    else by_memory (ratio signals.memory_pressure) (
        by_failures (ratio signals.recent_failure_ratio)
          (by_rate_limit (ratio signals.rate_limit_remaining_ratio) (by_health signals.health r)))

unfoldable pub or_all_healthy : List CapacityReason → List CapacityReason
or_all_healthy [] = all_healthy ∷ []
or_all_healthy (x ∷ xs) = x ∷ xs

unfoldable pub closing_reasons : ℕ → ℕ → ℕ → List CapacityReason → List CapacityReason
closing_reasons requested hard_cap hard_available reasons = or_all_healthy (
    (reasons ++ (if ltb hard_cap requested then capped hard_cap ∷ [] else []))
    ++ (if (hard_available == 0) && ltb 0 hard_cap then fully_occupied ∷ [] else []))

-- Subtraction stops at 0 here, which is what `Math.max(0, a - b)` computes.
unfoldable pub adaptive_capacity :
    SchedulerLimits → Number → Number → SchedulerHealthSignals → AdaptiveCapacity
adaptive_capacity limits backend_active_count managed_active_count signals =
    let requested = non_negative_integer limits.global_concurrency in
    let hard_cap = non_negative_integer limits.hard_backend_cap in
    let reduced =
      reduce_capacity signals (record { effective = min requested hard_cap; reasons = [] }) in
    let hard_available = hard_cap - non_negative_integer backend_active_count in
    let managed_available = reduced.effective - non_negative_integer managed_active_count in
    record {
      requested = requested;
      effective = reduced.effective;
      available = min hard_available managed_available;
      hard_backend_available = hard_available;
      reasons = closing_reasons requested hard_cap hard_available reduced.reasons;
    }

-- The signals that stop the scheduler.
unfoldable pub is_stopping : SchedulerHealthSignals → Bool
is_stopping signals =
    is_paused signals.paused
    || is_critical signals.health
    || at_most (ratio signals.rate_limit_remaining_ratio) ratio_005
    || at_least (ratio signals.memory_pressure) ratio_09
