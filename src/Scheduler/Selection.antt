-- ===== src/Scheduler/Selection.antt =====
-- The admission plan (schedule of src/lib/scheduler/core.ts). `compare` stands for `localeCompare`.
pub mod Loop
pub mod Safety
pub mod Evaluated
pub mod Answers
use swarm_z.Base.{
  ℕ, zero, suc, ◌+◌, ◌-◌, Bool, true, false, ◌&&◌, ◌||◌, Option, none, some, or_else, List, [], ◌∷◌,
  ◌++◌, map, length, select, first, find, sort_by, filter_map, ltb, leb, ◌==◌, if◌then◌else◌,
  Number, of_nat, lt_num, sub_num, max_num, max, Text, text_eq, text_lt, Dict, get, put, values,
}
use swarm_z.Missions.Types.{TaskAttempt, TaskStatus}
use swarm_z.Scheduler.Capacity.{AdaptiveCapacity, adaptive_capacity, SchedulerLimits}
use swarm_z.Scheduler.Types.{
  SchedulableTask, ActiveLease, SchedulerInput, SchedulerReason, selected, backend_capacity,
  global_capacity, health_paused, project_capacity, mission_capacity, TaskEvaluation, StartDecision,
  RecoveryAction, RecoveryDecision, SchedulerDecision,
}
use swarm_z.Scheduler.Locks.{lock_keys_for_task, conflict_with_leases, provisional_lease}
use swarm_z.Scheduler.Priority.{
  effective_priority, compare_candidates, compare_pending, project_limit, mission_limit,
}
use swarm_z.Scheduler.Eligibility.{task_by_id, static_eligibility, is_running_task}

unfoldable pub capacity_reason : AdaptiveCapacity → SchedulerReason
capacity_reason capacity =
    if capacity.hard_backend_available == 0
    then backend_capacity
    else if capacity.effective == 0
    then health_paused capacity.reasons
    else global_capacity

-- `Math.max` of the attempts listed and the last ordinal, below `maxAttempts`.
unfoldable pub can_retry : SchedulableTask → Option TaskAttempt → Bool
can_retry candidate attempt =
    let used =
      max (length candidate.task.attempt_ids) (elim attempt [ none ↦ 0 | some a ↦ a.ordinal ]) in
    lt_num (of_nat used) candidate.task.max_attempts

-- A count in a map, 0 where it has none.
unfoldable pub count_of : Dict ℕ → Text → ℕ
count_of counts id = or_else (get counts id) 0

unfoldable pub count_up : Dict ℕ → Text → Dict ℕ
count_up counts id = put counts id (count_of counts id + 1)

unfoldable pub count_leases : (ActiveLease → Text) → List ActiveLease → Dict ℕ → Dict ℕ
count_leases key [] counts = counts
count_leases key (lease ∷ leases) counts = count_leases key leases (count_up counts (key lease))

-- The variables of the loop.
pub record Round : Type 0 where
  pub active : List ActiveLease
  pub project_counts : Dict ℕ
  pub mission_counts : Dict ℕ
  pub remaining : ℕ
  pub evaluations : Dict TaskEvaluation
  pub starts : List StartDecision

module _ (input : SchedulerInput) where
  unfoldable pub score_of : SchedulableTask → Number
  score_of candidate = effective_priority candidate input.now input.limits.aging_interval_ms

  unfoldable pub evaluation : SchedulableTask → Bool → SchedulerReason → TaskEvaluation
  evaluation candidate eligible reason = record {
    task_id = candidate.task.id;
    mission_id = candidate.task.mission_id;
    project_id = candidate.task.root.project_id;
    eligible = eligible;
    effective_priority = score_of candidate;
    wait_ms = max_num (of_nat 0) (sub_num input.now candidate.enqueued_at);
    reason = reason;
  }

  -- `evaluations.set(task.id, ...)` for a task that is not started.
  unfoldable pub refuse : SchedulableTask → SchedulerReason → Round → Round
  refuse candidate reason round = record round {
    evaluations = put round.evaluations candidate.task.id (evaluation candidate false reason);
  }

  unfoldable pub refuse_all : SchedulerReason → List SchedulableTask → Round → Round
  refuse_all reason [] round = round
  refuse_all reason (c ∷ cs) round = refuse_all reason cs (refuse c reason round)

  unfoldable pub start_decision : SchedulableTask → StartDecision
  start_decision candidate = record {
    task_id = candidate.task.id;
    mission_id = candidate.task.mission_id;
    project_id = candidate.task.root.project_id;
    effective_priority = score_of candidate;
    reason = selected (score_of candidate);
    lock_keys = lock_keys_for_task candidate;
  }

  unfoldable pub admit_task : SchedulableTask → Round → Round
  admit_task candidate round = record {
    active = round.active ++ provisional_lease candidate ∷ [];
    project_counts = count_up round.project_counts candidate.task.root.project_id;
    mission_counts = count_up round.mission_counts candidate.task.mission_id;
    remaining = round.remaining - 1;
    evaluations =
        put round.evaluations candidate.task.id
          (evaluation candidate true (selected (score_of candidate)));
    starts = round.starts ++ start_decision candidate ∷ [];
  }

  unfoldable pub initial_round : AdaptiveCapacity → Round
  initial_round capacity = record {
    active = input.active_leases;
    project_counts = count_leases (λ lease. lease.project_id) input.active_leases [];
    mission_counts = count_leases (λ lease. lease.mission_id) input.active_leases [];
    remaining = capacity.available;
    evaluations = [];
    starts = [];
  }

  -- The first loop: tasks with a reason of their own are evaluated, the others are pending.
  unfoldable pub screen :
      Dict SchedulableTask
      → List Text
      → List SchedulableTask
      → List SchedulableTask
      → Round
      → List SchedulableTask × Round
  screen tasks active_ids [] pending round = (pending, round)
  screen tasks active_ids (c ∷ cs) pending round =
      elim (static_eligibility c input tasks active_ids) [
        | some reason ↦ screen tasks active_ids cs pending (refuse c reason round)
        | none ↦ screen tasks active_ids cs (pending ++ c ∷ []) round
      ]

unfoldable pub capacity_of : SchedulerInput → AdaptiveCapacity
capacity_of input =
    adaptive_capacity input.limits input.backend_active_count (of_nat (length input.active_leases))
      input.signals

module _ (compare : Text → Text → Bool) where
  -- The attempt with the greatest ordinal, and of these the one with the last id.
  unfoldable pub latest_attempt : Text → List TaskAttempt → Option TaskAttempt
  latest_attempt task_id attempts = first (
      sort_by (λ a b. ltb b.ordinal a.ordinal || (a.ordinal == b.ordinal && compare b.id a.id))
        (select (λ a. text_eq a.task_id task_id) attempts))

  unfoldable pub recovery_decision : SchedulerInput → Text → Option RecoveryDecision
  recovery_decision input task_id = elim (find (λ c. text_eq c.task.id task_id) input.tasks) [
    | none ↦ none
    | some candidate ↦
        let attempt = latest_attempt task_id (or_else input.attempts []) in
        if is_running_task candidate.task.status
        then some (record {
          task_id = task_id;
          attempt_id = elim attempt [ none ↦ none | some a ↦ some a.id ];
          action =
              if can_retry candidate attempt then RecoveryAction.retry else RecoveryAction.fail;
        })
        else none
  ]

  unfoldable pub recovery_decisions : SchedulerInput → List RecoveryDecision
  recovery_decisions input =
      filter_map (recovery_decision input)
        (sort_by text_lt (or_else input.missing_backend_task_ids []))

  module _ (input : SchedulerInput) where
    -- What the loop does with the task that it takes while slots remain.
    unfoldable pub consider : SchedulableTask → Round → Round
    consider candidate round =
        let cap = project_limit input.limits candidate.task.root.project_id in
        let mission_cap = mission_limit input.limits candidate.task.mission_id in
        if leb cap (count_of round.project_counts candidate.task.root.project_id)
        then refuse input candidate (project_capacity cap) round
        else if leb mission_cap (count_of round.mission_counts candidate.task.mission_id)
        then refuse input candidate (mission_capacity mission_cap) round
        else elim (conflict_with_leases compare candidate round.active) [
          | some conflict ↦ refuse input candidate conflict round
          | none ↦ admit_task input candidate round
        ]

    unfoldable pub sort_pending : Round → List SchedulableTask → List SchedulableTask
    sort_pending round pending =
        sort_by
          (compare_pending compare (count_of round.project_counts) input.now
            input.limits.aging_interval_ms)
          pending

    -- One round, given the sorted pending tasks and the rounds after it.
    unfoldable pub take_next :
        AdaptiveCapacity
        → (List SchedulableTask → Round → Round)
        → List SchedulableTask
        → Round
        → Round
    take_next capacity next [] round = round
    take_next capacity next (candidate ∷ waiting) round =
        if round.remaining == 0
        then refuse_all input (capacity_reason capacity) (candidate ∷ waiting) round
        else next waiting (consider candidate round)

    -- The loop over the pending tasks, which takes one in each round: `rounds` is their number.
    unfoldable pub select_tasks : ℕ → AdaptiveCapacity → List SchedulableTask → Round → Round
    select_tasks zero capacity pending round = round
    select_tasks (suc rounds) capacity pending round =
        take_next capacity (select_tasks rounds capacity) (sort_pending round pending) round

  -- The tasks that the first loop leaves pending, and what it evaluated.
  unfoldable pub screened : SchedulerInput → List SchedulableTask × Round
  screened input =
      screen input (task_by_id compare input.tasks)
        (map (λ lease. lease.task_id) input.active_leases)
        (sort_by (compare_candidates compare input.now input.limits.aging_interval_ms) input.tasks)
        [] (initial_round input (capacity_of input))

  -- The variables at the end of both loops.
  unfoldable pub final_round : SchedulerInput → Round
  final_round input =
      select_tasks input (length (screened input).0) (capacity_of input) (screened input).0
        (screened input).1

  unfoldable pub schedule : SchedulerInput → SchedulerDecision
  schedule input = record {
    starts = (final_round input).starts;
    evaluations =
        sort_by (λ a b. compare a.task_id b.task_id) (values (final_round input).evaluations);
    recovery = recovery_decisions input;
    capacity = capacity_of input;
  }
