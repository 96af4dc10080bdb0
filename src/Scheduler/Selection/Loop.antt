-- ===== src/Scheduler/Selection/Loop.antt =====
-- An induction rule for the two loops of `schedule` (src/lib/scheduler/core.ts): what every refusal
-- and every admission keep holds at the end.
use mathlib.Core.List.{Mem}
use swarm_z.Base.{
  All-Mem, ℕ, zero, suc, ◌≡◌, sym, subst, ◌⊎◌, inl, inr, Bool, false, none, List, [], ◌∷◌, ◌++◌,
  map, length, sort_by, All, All-sort_by, All-append, leb, ◌==◌, Text, Bool-cases, Option-cases,
  arith,
}
use swarm_z.Scheduler.Capacity.{AdaptiveCapacity}
use swarm_z.Scheduler.Types.{
  SchedulableTask, SchedulerInput, SchedulerReason, ActiveLease, project_capacity, mission_capacity,
}
use swarm_z.Scheduler.Locks.{conflict_with_leases}
use swarm_z.Scheduler.Priority.{project_limit, mission_limit, compare_candidates}
use swarm_z.Scheduler.Eligibility.{static_eligibility, task_by_id}
use swarm_z.Scheduler.Selection.{
  Round, count_of, refuse, refuse_all, admit_task, consider, sort_pending, select_tasks, take_next,
  screen, capacity_reason, initial_round, capacity_of, screened, final_round,
}

module _ (compare : Text → Text → Bool) (input : SchedulerInput) where
  -- What the loop has checked of a task that it admits.
  pub record Admission (candidate : SchedulableTask) (round : Round) : Type 0 where
    pub slot : (round.remaining == 0) ≡ false
    pub project :
        leb
          (project_limit input.limits candidate.task.root.project_id)
          (count_of round.project_counts candidate.task.root.project_id)
        ≡ false
    pub mission :
        leb
          (mission_limit input.limits candidate.task.mission_id)
          (count_of round.mission_counts candidate.task.mission_id)
        ≡ false
    pub free : conflict_with_leases compare candidate round.active ≡ none

  -- The task is of the input and has no reason of its own against a start.
  abbrev pub IsEligible : SchedulableTask → Type 0
  IsEligible candidate =
      Mem candidate input.tasks
      × (static_eligibility candidate input (task_by_id compare input.tasks)
            (map (λ (lease : ActiveLease). lease.task_id) input.active_leases)
          ≡ none)

  -- A task is admitted under these checks or refused with a reason.
  pub consider-cases :
      (candidate : SchedulableTask) (round : Round)
      → (round.remaining == 0) ≡ false
      → ((reason : SchedulerReason) × (consider compare input candidate round
            ≡ refuse input candidate reason round))
        ⊎ (Admission candidate round
            × (consider compare input candidate round ≡ admit_task input candidate round))
  unfolding consider
  consider-cases candidate round slot =
      let cap = project_limit input.limits candidate.task.root.project_id in
      let mission_cap = mission_limit input.limits candidate.task.mission_id in
      elim (Bool-cases (leb cap (count_of round.project_counts candidate.task.root.project_id))) [
        | inl full ↦ inl (project_capacity cap, rw full)
        | inr open_project ↦
            elim (Bool-cases
              (leb mission_cap (count_of round.mission_counts candidate.task.mission_id))) [
                | inl full ↦ inl (mission_capacity mission_cap, rw (open_project, full))
                | inr open_mission ↦
                    elim (Option-cases (conflict_with_leases compare candidate round.active)) [
                      | inr (conflict, e) ↦ inl (conflict, rw (open_project, open_mission, e))
                      | inl free ↦ inr (
                        record {
                          slot = slot;
                          project = open_project;
                          mission = open_mission;
                          free = free;
                        },
                        rw (open_project, open_mission, free),
                      )
                    ]
              ]
      ]

  -- A property of the variables that refusals and admissions of eligible tasks keep.
  pub record IsKept {κ} (P : Round → Type κ) : Type κ where
    pub refused :
        (candidate : SchedulableTask) (reason : SchedulerReason) (round : Round)
        → P round
        → P (refuse input candidate reason round)
    pub admitted :
        (candidate : SchedulableTask) (round : Round)
        → IsEligible candidate
        → Admission candidate round
        → P round
        → P (admit_task input candidate round)

  module _ {κ} (P : Round → Type κ) (kept : IsKept P) where
    refuse_all-kept :
        (reason : SchedulerReason) (cs : List SchedulableTask) (round : Round)
        → P round
        → P (refuse_all input reason cs round)
    unfolding refuse_all
    refuse_all-kept reason [] round h = h
    refuse_all-kept reason (c ∷ cs) round h =
        refuse_all-kept reason cs (refuse input c reason round) (kept.refused c reason round h)

    consider-kept :
        (candidate : SchedulableTask) (round : Round)
        → (round.remaining == 0) ≡ false
        → IsEligible candidate
        → P round
        → P (consider compare input candidate round)
    consider-kept candidate round slot ok h = elim (consider-cases candidate round slot) [
      | inl (reason, e) ↦ rw e (kept.refused candidate reason round h)
      | inr (a, e) ↦ rw e (kept.admitted candidate round ok a h)
    ]

    take_next-kept :
        (capacity : AdaptiveCapacity) (next : List SchedulableTask → Round → Round)
        (pending : List SchedulableTask) (round : Round)
        → ((waiting : List SchedulableTask) (r : Round)
            → All IsEligible waiting
            → P r
            → P (next waiting r))
        → All IsEligible pending
        → P round
        → P (take_next compare input capacity next pending round)
    unfolding take_next
    take_next-kept capacity next [] round f ok h = h
    take_next-kept capacity next (candidate ∷ waiting) round f ok h =
        elim (Bool-cases (round.remaining == 0)) [
          | inl full ↦
              rw full (refuse_all-kept (capacity_reason capacity) (candidate ∷ waiting) round h)
          | inr slot ↦ rw slot (
              f waiting (consider compare input candidate round) ok.1
                (consider-kept candidate round slot ok.0 h))
        ]

    pub select_tasks-kept :
        (rounds : ℕ) (capacity : AdaptiveCapacity) (pending : List SchedulableTask) (round : Round)
        → All IsEligible pending
        → P round
        → P (select_tasks compare input rounds capacity pending round)
    unfolding select_tasks sort_pending
    select_tasks-kept zero capacity pending round ok h = h
    select_tasks-kept (suc rounds) capacity pending round ok h =
        take_next-kept capacity (select_tasks compare input rounds capacity)
          (sort_pending compare input round pending) round
          (λ waiting r o k. select_tasks-kept rounds capacity waiting r o k)
          (All-sort_by _ IsEligible pending ok) h

    abbrev Screened : List SchedulableTask × Round → Type κ
    Screened r = All IsEligible r.0 × P r.1

    -- The first loop keeps the property and leaves eligible tasks pending.
    screen-kept :
        (cs pending : List SchedulableTask) (round : Round)
        → All (λ c. Mem c input.tasks) cs
        → All IsEligible pending
        → P round
        → Screened (
            screen input
              (task_by_id compare input.tasks)
              (map (λ (lease : ActiveLease). lease.task_id) input.active_leases)
              cs
              pending
              round)
    unfolding screen
    screen-kept [] pending round listed ok h = (ok, h)
    screen-kept (c ∷ cs) pending round (here, listed) ok h =
        let tasks = task_by_id compare input.tasks in
        let ids = map (λ (lease : ActiveLease). lease.task_id) input.active_leases in
        elim (Option-cases (static_eligibility c input tasks ids)) [
          | inr (reason, e) ↦
              let step : screen input tasks ids (c ∷ cs) pending round
                  ≡ screen input tasks ids cs pending (refuse input c reason round) =
                ground arith in
              subst Screened (sym step) (
                screen-kept cs pending (refuse input c reason round) listed ok
                  (kept.refused c reason round h))
          | inl e ↦
              let step : screen input tasks ids (c ∷ cs) pending round
                  ≡ screen input tasks ids cs (pending ++ c ∷ []) round =
                ground arith in
              subst Screened (sym step) (
                screen-kept cs (pending ++ c ∷ []) round listed
                  (All-append IsEligible pending (c ∷ []) ok ((here, e), tt)) h)
        ]

    -- What holds at the start holds at the end.
    pub final_round-kept :
        P (initial_round input (capacity_of input)) → P (final_round compare input)
    unfolding final_round screened
    final_round-kept h =
        let ordered =
          sort_by (compare_candidates compare input.now input.limits.aging_interval_ms)
            input.tasks in
        let listed =
          All-sort_by (compare_candidates compare input.now input.limits.aging_interval_ms)
            (λ c. Mem c input.tasks) input.tasks (All-Mem input.tasks) in
        let r = screen-kept ordered [] (initial_round input (capacity_of input)) listed tt h in
        select_tasks-kept (length (screened compare input).0) (capacity_of input)
          (screened compare input).0 (screened compare input).1 r.0 r.1

  -- The tasks that the first loop leaves pending are eligible.
  pub screened-IsEligible : All IsEligible (screened compare input).0
  unfolding screened
  screened-IsEligible =
      let before = compare_candidates compare input.now input.limits.aging_interval_ms in
      (screen-kept (λ round. Unit {0})
        (record { refused = λ c reason round h. tt; admitted = λ c round ok a h. tt })
        (sort_by before input.tasks) [] (initial_round input (capacity_of input))
        (All-sort_by before (λ c. Mem c input.tasks) input.tasks (All-Mem input.tasks)) tt tt).0
