-- ===== src/Scheduler/Witnesses.antt =====
-- The theorems about the scheduler at concrete tasks and limits, and tests of the definitions.
use mathlib.Core.List.{Mem}
use swarm_z.Base.{
  mul_num, round_num, library, ◌⊎◌, max, ◌+◌, ◌≤◌, ◌≡◌, refl, true, false, none, some, List, [],
  ◌∷◌, map, length, All, of_nat, codes, unit, is_finite, lt_num, le_num, add_num, text_lt, arith,
}
use swarm_z.Scheduler.Types.{SchedulableTask, RecoveryAction}
use swarm_z.Scheduler.Paths.{path_intents_overlap}
use swarm_z.Scheduler.Paths.Overlap.{path_intents_overlap_sound, path_intents_overlap_comm}
use swarm_z.Scheduler.Priority.{project_limit, mission_limit}
use swarm_z.Scheduler.Eligibility.{task_by_id, visit_task, dependency_cycle}
use swarm_z.Scheduler.Eligibility.Cycles.{dependency_cycle_enough}
use swarm_z.Scheduler.Selection.{schedule, start_decision}
use swarm_z.Scheduler.Selection.Safety.{
  project_load, mission_load, Separate, length-starts, schedule_within_caps, schedule-Separate,
}
use swarm_z.Scheduler.Selection.Answers.{IsReadyStart, IsAnswered, starts-IsReady, schedule_answers}
use swarm_z.Scheduler.Priority.{finite_or}
use swarm_z.Scheduler.Retry.{
  RetryPolicy, delay_cap, jitter_of, jitter_ratio_of, hash_fraction, retry_after_failure,
}
use swarm_z.Scheduler.Retry.Bounds.{retry_after_failure_lem}
use swarm_z.Missions.Types.{TaskStatus}
use swarm_z.Scheduler.Control.{
  TaskControlCommand, control_task, is_terminal_status, is_active_status, is_paused_status,
  control_task-idempotent, control_task-terminal, control_task-interrupt,
}
use swarm_z.Scheduler.Capacity.{
  adaptive_capacity, non_negative_integer, is_stopping, is_paused, is_critical, is_degraded,
  reduce_capacity, by_health, by_rate_limit, by_failures, by_memory, reduce_to, ratio, at_most,
  at_least, ratio_005, ratio_02, ratio_05,
}
use swarm_z.Scheduler.Capacity.Bounds.{adaptive_capacity-bounded, adaptive_capacity-stopped}
use swarm_z.Scheduler.Samples.{
  program, task, limits, signals, degraded, stopped, input, path_a, done_task,
}

control_task-idempotent_example :
    ((control_task
        (control_task (task TaskStatus.paused) TaskControlCommand.resume (of_nat 2)).task
        TaskControlCommand.resume
        (of_nat 3)).task
      ≡ (control_task (task TaskStatus.paused) TaskControlCommand.resume (of_nat 2)).task)
    × ((control_task
          (control_task (task TaskStatus.paused) TaskControlCommand.resume (of_nat 2)).task
          TaskControlCommand.resume
          (of_nat 3)).changed
        ≡ false)
control_task-idempotent_example =
    control_task-idempotent (task TaskStatus.paused) TaskControlCommand.resume (of_nat 2) (of_nat 3)

control_task-terminal_example :
    ((control_task (task TaskStatus.failed) TaskControlCommand.cancel (of_nat 2)).task
      ≡ task TaskStatus.failed)
    × ((control_task (task TaskStatus.failed) TaskControlCommand.cancel (of_nat 2)).changed ≡ false)
unfolding is_terminal_status
control_task-terminal_example =
    control_task-terminal (task TaskStatus.failed) TaskControlCommand.cancel (of_nat 2) refl

control_task-interrupt_example :
    (is_active_status TaskStatus.running ≡ true)
    × ((control_task (task TaskStatus.running) TaskControlCommand.pause (of_nat 2)).changed ≡ true)
    × (is_active_status
          (control_task (task TaskStatus.running) TaskControlCommand.pause (of_nat 2)).task.status
        ≡ false)
unfolding control_task is_active_status is_paused_status is_terminal_status
control_task-interrupt_example =
    control_task-interrupt (task TaskStatus.running) TaskControlCommand.pause (of_nat 2) refl

adaptive_capacity-bounded_example :
    let capacity = adaptive_capacity limits (of_nat 5) (of_nat 2) degraded in
    let hard_cap = non_negative_integer limits.hard_backend_cap in
    (capacity.effective ≤ hard_cap)
    × (capacity.effective ≤ capacity.requested)
    × (capacity.available + non_negative_integer (of_nat 5)
        ≤ max hard_cap (non_negative_integer (of_nat 5)))
    × (capacity.available + non_negative_integer (of_nat 2)
        ≤ max capacity.effective (non_negative_integer (of_nat 2)))
adaptive_capacity-bounded_example = adaptive_capacity-bounded limits (of_nat 5) (of_nat 2) degraded

adaptive_capacity-stopped_example :
    (adaptive_capacity limits (of_nat 0) (of_nat 0) stopped).available ≡ 0
unfolding is_stopping is_paused
adaptive_capacity-stopped_example =
    adaptive_capacity-stopped limits (of_nat 0) (of_nat 0) stopped refl

effective-degraded : (adaptive_capacity limits (of_nat 5) (of_nat 2) degraded).effective ≡ 4
unfolding adaptive_capacity reduce_capacity by_health by_rate_limit by_failures by_memory reduce_to
    is_paused is_critical is_degraded ratio at_most at_least non_negative_integer of_nat unit
effective-degraded = refl

available-degraded : (adaptive_capacity limits (of_nat 5) (of_nat 2) degraded).available ≡ 2
unfolding adaptive_capacity reduce_capacity by_health by_rate_limit by_failures by_memory reduce_to
    is_paused is_critical is_degraded ratio at_most at_least non_negative_integer of_nat unit
available-degraded = refl

-- At 0.2 of the rate limit one slot is left.
effective-low :
    (adaptive_capacity limits (of_nat 0) (of_nat 0) (signals (some ratio_02) false)).effective ≡ 1
unfolding adaptive_capacity reduce_capacity by_health by_rate_limit by_failures by_memory reduce_to
    is_paused is_critical is_degraded ratio at_most at_least non_negative_integer of_nat unit
    ratio_005 ratio_02 is_finite lt_num le_num
effective-low = refl

path_intents_overlap_sound_example :
    path_intents_overlap (codes "src/a.ts" ∷ []) [] [] (codes "src/**" ∷ []) ≡ true
unfolding program
path_intents_overlap_sound_example =
    path_intents_overlap_sound path_a (codes "src/a.ts" ∷ []) [] [] (codes "src/**" ∷ []) refl refl

path_intents_overlap_comm_example :
    path_intents_overlap (codes "src/a.ts" ∷ []) [] [] (codes "src/**" ∷ [])
    ≡ path_intents_overlap [] (codes "src/**" ∷ []) (codes "src/a.ts" ∷ []) []
path_intents_overlap_comm_example =
    path_intents_overlap_comm (codes "src/a.ts" ∷ []) [] [] (codes "src/**" ∷ [])

length-starts_example :
    length (schedule text_lt input).starts ≤ (schedule text_lt input).capacity.available
length-starts_example = length-starts text_lt input

schedule_within_caps_example :
    (project_load input (codes "p") (schedule text_lt input).starts
      ≤ max (project_limit input.limits (codes "p")) (project_load input (codes "p") []))
    × (mission_load input (codes "p") (schedule text_lt input).starts
        ≤ max (mission_limit input.limits (codes "p")) (mission_load input (codes "p") []))
schedule_within_caps_example = schedule_within_caps text_lt input (codes "p")

schedule-Separate_example :
    (started : List SchedulableTask) × (map (start_decision input) started
      ≡ (schedule text_lt input).starts)
    × All (λ c. Mem c input.tasks) started
    × Separate input.active_leases [] started
schedule-Separate_example = schedule-Separate text_lt input

starts-IsReady_example : All (IsReadyStart text_lt input) (schedule text_lt input).starts
starts-IsReady_example = starts-IsReady text_lt input

schedule_answers_example :
    All
      (λ c.
        IsAnswered (schedule text_lt input).evaluations (schedule text_lt input).starts c.task.id)
      input.tasks
schedule_answers_example = schedule_answers text_lt input

dependency_cycle_enough_example :
    visit_task
      (task_by_id text_lt input.tasks)
      (codes "t0")
      (7 + (length (task_by_id text_lt input.tasks) + 2))
      (codes "t0")
      []
      (codes "t0" ∷ [])
    ≡ dependency_cycle done_task (task_by_id text_lt input.tasks)
dependency_cycle_enough_example =
    dependency_cycle_enough done_task (task_by_id text_lt input.tasks) 7

abbrev policy : RetryPolicy
policy = record { base_delay_ms = of_nat 1000; max_delay_ms = of_nat 30000; jitter_ratio = none }

-- The delay that the program computes for a hash of 0 and for the greatest hash.
delay-least : round_num (mul_num (of_nat 1000) (jitter_of (jitter_ratio_of policy) 0)) ≡ of_nat 900
unfolding jitter_of jitter_ratio_of hash_fraction finite_or ratio_05 library
delay-least = refl

delay-greatest :
    round_num (mul_num (of_nat 1000) (jitter_of (jitter_ratio_of policy) 4294967295)) ≡ of_nat 1100
unfolding jitter_of jitter_ratio_of hash_fraction finite_or ratio_05 library
delay-greatest = refl

delay-between :
    round_num (mul_num (of_nat 30000) (jitter_of (jitter_ratio_of policy) 123456789)) ≡ of_nat 27172
unfolding jitter_of jitter_ratio_of hash_fraction finite_or ratio_05 library
delay-between = refl

retry_after_failure_lem_example :
    let d = retry_after_failure (λ n. n ∷ []) (task TaskStatus.ready) (of_nat 5) true policy in
    (le_num (of_nat 0) d.delay_ms ≡ true)
    × (le_num d.delay_ms (delay_cap policy) ≡ true)
    × (((d.action ≡ RecoveryAction.retry)
          × (true ≡ true)
          × (le_num
                (task TaskStatus.ready).max_attempts
                (of_nat (length (task TaskStatus.ready).attempt_ids))
              ≡ false)
          × (d.next_eligible_at ≡ some (add_num (of_nat 5) d.delay_ms)))
        ⊎ ((d.action ≡ RecoveryAction.fail)
            × ((true ≡ false)
                ⊎ (le_num
                      (task TaskStatus.ready).max_attempts
                      (of_nat (length (task TaskStatus.ready).attempt_ids))
                    ≡ true))
            × (d.next_eligible_at ≡ none)
            × (d.delay_ms ≡ of_nat 0)))
retry_after_failure_lem_example =
    retry_after_failure_lem (λ n. n ∷ []) (task TaskStatus.ready) (of_nat 5) true policy
      (omega arith)
