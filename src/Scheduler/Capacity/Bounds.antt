-- ===== src/Scheduler/Capacity/Bounds.antt =====
-- The fleet's capacity keeps its limits (src/lib/scheduler/core.ts).
use swarm_z.Base.{min, max, ℕ, ◌+◌, ◌≤◌, ◌≡◌, true, Option, [], Number, arith}
use swarm_z.Scheduler.Capacity.{
  Health, SchedulerLimits, SchedulerHealthSignals, non_negative_integer, ratio, ratio_005, ratio_09,
  at_most, at_least, Reduced, reduce_to, by_health, by_rate_limit, by_failures, by_memory,
  reduce_capacity, adaptive_capacity, is_stopping,
}

pub min_le : (a b : ℕ) → (min a b ≤ a) × (min a b ≤ b)
min_le a b = ground arith

by_health-effective : (h : Option Health) (r : Reduced) → (by_health h r).effective ≤ r.effective
unfolding by_health reduce_to
by_health-effective h r = ground arith

by_rate_limit-effective :
    (o : Option Number) (r : Reduced) → (by_rate_limit o r).effective ≤ r.effective
unfolding by_rate_limit reduce_to
by_rate_limit-effective o r = ground arith

by_failures-effective :
    (o : Option Number) (r : Reduced) → (by_failures o r).effective ≤ r.effective
unfolding by_failures reduce_to
by_failures-effective o r = ground arith

by_memory-effective : (o : Option Number) (r : Reduced) → (by_memory o r).effective ≤ r.effective
unfolding by_memory reduce_to
by_memory-effective o r = ground arith

-- No signal raises the cap.
reduce_capacity-effective :
    (signals : SchedulerHealthSignals) (r : Reduced)
    → (reduce_capacity signals r).effective ≤ r.effective
unfolding reduce_capacity reduce_to
reduce_capacity-effective signals r =
    let r1 = by_health signals.health r in
    let r2 = by_rate_limit (ratio signals.rate_limit_remaining_ratio) r1 in
    let r3 = by_failures (ratio signals.recent_failure_ratio) r2 in
    ground (
      arith,
      by_health-effective signals.health r,
      by_rate_limit-effective (ratio signals.rate_limit_remaining_ratio) r1,
      by_failures-effective (ratio signals.recent_failure_ratio) r2,
      by_memory-effective (ratio signals.memory_pressure) r3,
    )

-- The slots that are reported available keep both limits: started together with what already runs,
-- they stay within the hard backend cap and within the effective cap wherever the running work does,
-- and the effective cap is at most the requested and the hard one.
pub adaptive_capacity-bounded :
    (limits : SchedulerLimits) (backend managed : Number) (signals : SchedulerHealthSignals)
    → let capacity = adaptive_capacity limits backend managed signals in
      let hard_cap = non_negative_integer limits.hard_backend_cap in
      (capacity.effective ≤ hard_cap)
      × (capacity.effective ≤ capacity.requested)
      × (capacity.available + non_negative_integer backend
          ≤ max hard_cap (non_negative_integer backend))
      × (capacity.available + non_negative_integer managed
          ≤ max capacity.effective (non_negative_integer managed))
unfolding adaptive_capacity
adaptive_capacity-bounded limits backend managed signals =
    let requested = non_negative_integer limits.global_concurrency in
    let hard_cap = non_negative_integer limits.hard_backend_cap in
    let start : Reduced = record { effective = min requested hard_cap; reasons = [] } in
    ground (arith, reduce_capacity-effective signals start, min_le requested hard_cap)

by_rate_limit-exhausted :
    (o : Option Number) (r : Reduced)
    → at_most o ratio_005 ≡ true
    → (by_rate_limit o r).effective ≡ 0
unfolding by_rate_limit reduce_to
by_rate_limit-exhausted o r h = ground arith

by_memory-critical :
    (o : Option Number) (r : Reduced) → at_least o ratio_09 ≡ true → (by_memory o r).effective ≡ 0
unfolding by_memory reduce_to
by_memory-critical o r h = ground arith

reduce_capacity-stopped :
    (signals : SchedulerHealthSignals) (r : Reduced)
    → is_stopping signals ≡ true
    → (reduce_capacity signals r).effective ≡ 0
unfolding reduce_capacity reduce_to is_stopping
reduce_capacity-stopped signals r h =
    let remaining = ratio signals.rate_limit_remaining_ratio in
    let r1 = by_health signals.health r in
    let r2 = by_rate_limit remaining r1 in
    let r3 = by_failures (ratio signals.recent_failure_ratio) r2 in
    ground (
      arith,
      by_rate_limit-exhausted remaining r1,
      by_failures-effective (ratio signals.recent_failure_ratio) r2,
      by_memory-effective (ratio signals.memory_pressure) r3,
      by_memory-critical (ratio signals.memory_pressure) r3,
    )

-- A paused scheduler, critical health, a nearly exhausted rate limit or critical memory pressure
-- leaves no slot, whatever the limits and the other signals are.
pub adaptive_capacity-stopped :
    (limits : SchedulerLimits) (backend managed : Number) (signals : SchedulerHealthSignals)
    → is_stopping signals ≡ true
    → (adaptive_capacity limits backend managed signals).available ≡ 0
unfolding adaptive_capacity
adaptive_capacity-stopped limits backend managed signals h =
    let requested = non_negative_integer limits.global_concurrency in
    let hard_cap = non_negative_integer limits.hard_backend_cap in
    let start : Reduced = record { effective = min requested hard_cap; reasons = [] } in
    ground (arith, reduce_capacity-stopped signals start h)
