-- ===== src/Scheduler/Priority.antt =====
-- The order in which tasks are considered, and the caps of projects and missions
-- (src/lib/scheduler/core.ts). `compare` stands for `localeCompare`: `compare a b` says that a comes
-- before b.
use swarm_z.Base.{
  ℕ, ◌+◌, ◌*◌, ◌/◌, Bool, true, false, none, some, or_else, ltb, if◌then◌else◌, pos, negsuc, sub_ℕ,
  Number, finite, nan, unit, of_nat, is_finite, lt_num, eq_num, add_num, sub_num, max_num, min_num,
  Text, codes, get, max,
}
use swarm_z.Scheduler.Types.{SchedulableTask}
use swarm_z.Scheduler.Capacity.{
  ConcurrencyLimit, for_all, by_id, SchedulerLimits, non_negative_integer,
}

-- `finite(value, fallback)`.
unfoldable pub finite_or : Number → Number → Number
finite_or value fallback = if is_finite value then value else fallback

-- `Math.floor(age / interval)`, for a whole interval that is not 0.
unfoldable pub floor_div : Number → ℕ → Number
unfolding unit
floor_div (finite (pos n)) interval = of_nat (n / (interval * unit))
floor_div (finite (negsuc n)) interval = finite (sub_ℕ 0 ((n / (interval * unit) + 1) * unit))
floor_div other interval = other

unfoldable pub effective_priority : SchedulableTask → Number → Number → Number
effective_priority candidate now aging_interval_ms =
    let age =
      max_num (of_nat 0)
        (sub_num (finite_or now (of_nat 0)) (finite_or candidate.enqueued_at now)) in
    let interval = max 1 (non_negative_integer aging_interval_ms) in
    let priority =
      min_num (of_nat 100) (max_num (of_nat 0) (finite_or candidate.task.priority (of_nat 0))) in
    add_num priority (floor_div age interval)

module _ (compare : Text → Text → Bool) where
  -- `left.localeCompare(right)`, where it is not 0, and otherwise what follows.
  unfoldable pub by_text : Text → Text → Bool → Bool
  by_text left right tied =
      if compare left right then true else if compare right left then false else tied

  unfoldable pub by_identity : SchedulableTask → SchedulableTask → Bool
  by_identity left right = by_text left.task.root.project_id right.task.root.project_id (
      by_text left.task.mission_id right.task.mission_id (by_text left.task.id right.task.id false))

  unfoldable pub by_waiting : SchedulableTask → SchedulableTask → Bool
  by_waiting left right =
      if lt_num left.enqueued_at right.enqueued_at
      then true
      else if eq_num left.enqueued_at right.enqueued_at
      then by_identity left right
      else false

  -- `compareCandidates(left, right, now, interval) < 0`.
  unfoldable pub compare_candidates : Number → Number → SchedulableTask → SchedulableTask → Bool
  compare_candidates now interval left right =
      let a = effective_priority left now interval in
      let b = effective_priority right now interval in
      if lt_num b a then true else if eq_num a b then by_waiting left right else false

  -- The comparator of the pending tasks, with the numbers of tasks that the projects run.
  unfoldable pub compare_pending :
      (Text → ℕ) → Number → Number → SchedulableTask → SchedulableTask → Bool
  compare_pending project_count now interval left right =
      let ranked = compare_candidates now interval left right in
      let a = project_count left.task.root.project_id in
      let b = project_count right.task.root.project_id in
      if eq_num (effective_priority left now interval) (effective_priority right now interval)
      then (if ltb a b then true else if ltb b a then false else ranked)
      else ranked

-- `configured` at an id, or at `default`.
unfoldable pub configured_limit : ConcurrencyLimit → Text → ℕ
configured_limit (for_all n) id = non_negative_integer n
configured_limit (by_id caps) id =
    non_negative_integer (or_else (get caps id) (or_else (get caps (codes "default")) nan))

unfoldable pub project_limit : SchedulerLimits → Text → ℕ
project_limit limits project_id = configured_limit limits.per_project_concurrency project_id

unfoldable pub mission_limit : SchedulerLimits → Text → ℕ
mission_limit limits mission_id = elim limits.per_mission_concurrency [
  | none ↦ non_negative_integer limits.global_concurrency
  | some configured ↦ configured_limit configured mission_id
]
