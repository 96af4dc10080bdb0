-- ===== src/Scheduler/Selection/Evaluated.antt =====
-- The two loops of `schedule` evaluate every task (src/lib/scheduler/core.ts).
use swarm_z.Base.{
  ℕ, zero, suc, ◌≤◌, ◌≡◌, sym, subst, inl, inr, Bool, true, false, none, some, is_some, List, [],
  ◌∷◌, ◌++◌, map, length, length-sort_by, All, All-sort_by, sort_by, sort_by-All, append-All, ◌==◌,
  Text, Dict, get, put, get-put, get-put_self, ap, Bool-cases, Option-cases, arith,
}
use swarm_z.Scheduler.Types.{
  SchedulableTask, SchedulerInput, ActiveLease, SchedulerReason, TaskEvaluation, selected,
}
use swarm_z.Scheduler.Capacity.{AdaptiveCapacity}
use swarm_z.Scheduler.Priority.{compare_candidates, compare_pending}
use swarm_z.Scheduler.Eligibility.{static_eligibility, task_by_id}
use swarm_z.Scheduler.Selection.{
  Round, count_of, evaluation, score_of, refuse, refuse_all, admit_task, consider, sort_pending,
  take_next, select_tasks, screen, capacity_reason, initial_round, capacity_of, screened,
  final_round,
}
use swarm_z.Scheduler.Selection.Loop.{
  IsEligible, IsKept, consider-cases, select_tasks-kept, screened-IsEligible,
}

module _ (compare : Text → Text → Bool) (input : SchedulerInput) where
  HasAnswer : Text → Round → Type 0
  HasAnswer id round = is_some (get round.evaluations id) ≡ true

  HasAnswer-put :
      (evaluations : Dict TaskEvaluation) (k id : Text) (e : TaskEvaluation)
      → is_some (get evaluations id) ≡ true
      → is_some (get (put evaluations k e) id) ≡ true
  HasAnswer-put evaluations k id e h = ground (arith, get-put evaluations k id e)

  HasAnswer-refuse :
      (candidate : SchedulableTask) (reason : SchedulerReason) (round : Round)
      → HasAnswer candidate.task.id (refuse input candidate reason round)
  unfolding HasAnswer refuse
  HasAnswer-refuse candidate reason round =
      ap is_some
        (get-put_self round.evaluations candidate.task.id (evaluation input candidate false reason))

  HasAnswer-admit_task :
      (candidate : SchedulableTask) (round : Round)
      → HasAnswer candidate.task.id (admit_task input candidate round)
  unfolding HasAnswer admit_task
  HasAnswer-admit_task candidate round = ap is_some (
      get-put_self round.evaluations candidate.task.id
        (evaluation input candidate true (selected (score_of input candidate))))

  HasAnswer-kept : (id : Text) → IsKept compare input (HasAnswer id)
  unfolding HasAnswer refuse admit_task
  HasAnswer-kept id = record {
    refused = λ candidate reason round h. HasAnswer-put round.evaluations candidate.task.id id _ h;
    admitted = λ candidate round ok a h. HasAnswer-put round.evaluations candidate.task.id id _ h;
  }

  HasAnswer-refuse_all :
      (id : Text) (reason : SchedulerReason) (cs : List SchedulableTask) (round : Round)
      → HasAnswer id round
      → HasAnswer id (refuse_all input reason cs round)
  unfolding refuse_all
  HasAnswer-refuse_all id reason [] round h = h
  HasAnswer-refuse_all id reason (c ∷ cs) round h =
      HasAnswer-refuse_all id reason cs (refuse input c reason round)
        ((HasAnswer-kept id).refused c reason round h)

  refuse_all_answers :
      (reason : SchedulerReason) (cs : List SchedulableTask) (round : Round)
      → All (λ c. HasAnswer c.task.id (refuse_all input reason cs round)) cs
  unfolding refuse_all
  refuse_all_answers reason [] round = tt
  refuse_all_answers reason (c ∷ cs) round = (
    HasAnswer-refuse_all c.task.id reason cs (refuse input c reason round)
        (HasAnswer-refuse c reason round),
    refuse_all_answers reason cs (refuse input c reason round),
  )

  HasAnswer-consider :
      (candidate : SchedulableTask) (round : Round)
      → (round.remaining == 0) ≡ false
      → HasAnswer candidate.task.id (consider compare input candidate round)
  HasAnswer-consider candidate round slot =
      elim (consider-cases compare input candidate round slot) [
        | inl (reason, e) ↦ rw e (HasAnswer-refuse candidate reason round)
        | inr (a, e) ↦ rw e (HasAnswer-admit_task candidate round)
      ]

  take_next_answers :
      (rounds : ℕ) (capacity : AdaptiveCapacity) (pending : List SchedulableTask) (round : Round)
      → ((waiting : List SchedulableTask) (r : Round)
          → All (IsEligible compare input) waiting
          → length waiting ≤ rounds
          → All
              (λ c. HasAnswer c.task.id (select_tasks compare input rounds capacity waiting r))
              waiting)
      → All (IsEligible compare input) pending
      → length pending ≤ suc rounds
      → All
          (λ c. HasAnswer c.task.id (
            take_next compare input capacity
              (select_tasks compare input rounds capacity)
              pending
              round))
          pending
  unfolding take_next
  take_next_answers rounds capacity [] round f ok enough = tt
  take_next_answers rounds capacity (candidate ∷ waiting) round f ok enough =
      let next = select_tasks compare input rounds capacity in
      elim (Bool-cases (round.remaining == 0)) [
        | inl full ↦
            let step : take_next compare input capacity next (candidate ∷ waiting) round
                ≡ refuse_all input (capacity_reason capacity) (candidate ∷ waiting) round =
              rw full in
            subst (λ (r : Round). All (λ c. HasAnswer c.task.id r) (candidate ∷ waiting)) (sym step)
              (refuse_all_answers (capacity_reason capacity) (candidate ∷ waiting) round)
        | inr slot ↦
            let after = consider compare input candidate round in
            let step : take_next compare input capacity next (candidate ∷ waiting) round
                ≡ next waiting after =
              rw slot in
            subst (λ (r : Round). All (λ c. HasAnswer c.task.id r) (candidate ∷ waiting)) (sym step)
              (
                select_tasks-kept compare input (HasAnswer candidate.task.id)
                    (HasAnswer-kept candidate.task.id) rounds capacity waiting after ok.1
                    (HasAnswer-consider candidate round slot),
                f waiting after ok.1 (omega arith),
              )
      ]

  select_tasks_answers :
      (rounds : ℕ) (capacity : AdaptiveCapacity) (pending : List SchedulableTask) (round : Round)
      → All (IsEligible compare input) pending
      → length pending ≤ rounds
      → All
          (λ c. HasAnswer c.task.id (select_tasks compare input rounds capacity pending round))
          pending
  unfolding select_tasks sort_pending
  select_tasks_answers zero capacity [] round ok enough = tt
  select_tasks_answers zero capacity (c ∷ cs) round ok enough = absurd (omega arith)
  select_tasks_answers (suc rounds) capacity pending round ok enough =
      let sorted = sort_pending compare input round pending in
      sort_by-All _ _ pending (
        take_next_answers rounds capacity sorted round
          (λ waiting r o e. select_tasks_answers rounds capacity waiting r o e)
          (All-sort_by _ (IsEligible compare input) pending ok)
          (omega (
            arith,
            length-sort_by
                (compare_pending compare (count_of round.project_counts) input.now
                  input.limits.aging_interval_ms)
                pending,
          )))

  screen_refused :
      (tasks : Dict SchedulableTask) (ids : List Text) (c : SchedulableTask)
      (cs pending : List SchedulableTask) (round : Round) (reason : SchedulerReason)
      → static_eligibility c input tasks ids ≡ some reason
      → screen input tasks ids (c ∷ cs) pending round
        ≡ screen input tasks ids cs pending (refuse input c reason round)
  unfolding screen
  screen_refused tasks ids c cs pending round reason e = ground arith

  screen_pending :
      (tasks : Dict SchedulableTask) (ids : List Text) (c : SchedulableTask)
      (cs pending : List SchedulableTask) (round : Round)
      → static_eligibility c input tasks ids ≡ none
      → screen input tasks ids (c ∷ cs) pending round
        ≡ screen input tasks ids cs (pending ++ c ∷ []) round
  unfolding screen
  screen_pending tasks ids c cs pending round e = ground arith

  -- Screening keeps what was answered and what was pending.
  HasAnswer-screen :
      (id : Text) (tasks : Dict SchedulableTask) (ids : List Text)
      (cs pending : List SchedulableTask) (round : Round)
      → HasAnswer id round
      → HasAnswer id (screen input tasks ids cs pending round).1
  unfolding screen
  HasAnswer-screen id tasks ids [] pending round h = h
  HasAnswer-screen id tasks ids (c ∷ cs) pending round h =
      elim (Option-cases (static_eligibility c input tasks ids)) [
        | inr (reason, e) ↦
            subst (λ (r : List SchedulableTask × Round). HasAnswer id r.1)
              (sym (screen_refused tasks ids c cs pending round reason e))
              (HasAnswer-screen id tasks ids cs pending (refuse input c reason round)
                ((HasAnswer-kept id).refused c reason round h))
        | inl e ↦
            subst (λ (r : List SchedulableTask × Round). HasAnswer id r.1)
              (sym (screen_pending tasks ids c cs pending round e))
              (HasAnswer-screen id tasks ids cs (pending ++ c ∷ []) round h)
      ]

  module _ (Q : SchedulableTask → Type 0) where
    screen-pending :
        (tasks : Dict SchedulableTask) (ids : List Text) (cs pending : List SchedulableTask)
        (round : Round)
        → All Q (screen input tasks ids cs pending round).0
        → All Q pending
    unfolding screen
    screen-pending tasks ids [] pending round h = h
    screen-pending tasks ids (c ∷ cs) pending round h =
        elim (Option-cases (static_eligibility c input tasks ids)) [
          | inr (reason, e) ↦ screen-pending tasks ids cs pending (refuse input c reason round) (
              subst (λ (r : List SchedulableTask × Round). All Q r.0)
                (screen_refused tasks ids c cs pending round reason e) h)
          | inl e ↦
              (append-All Q pending (c ∷ []) (
                screen-pending tasks ids cs (pending ++ c ∷ []) round (
                  subst (λ (r : List SchedulableTask × Round). All Q r.0)
                    (screen_pending tasks ids c cs pending round e) h))).0
        ]

    -- What holds of the pending tasks and of those that are answered holds of all.
    screen-All :
        (tasks : Dict SchedulableTask) (ids : List Text) (cs pending : List SchedulableTask)
        (round : Round)
        → ((c : SchedulableTask)
            → HasAnswer c.task.id (screen input tasks ids cs pending round).1
            → Q c)
        → All Q (screen input tasks ids cs pending round).0
        → All Q cs
    screen-All tasks ids [] pending round f h = tt
    screen-All tasks ids (c ∷ cs) pending round f h =
        elim (Option-cases (static_eligibility c input tasks ids)) [
          | inr (reason, e) ↦
              let step = screen_refused tasks ids c cs pending round reason e in
              (
                f c (
                    subst (λ (r : List SchedulableTask × Round). HasAnswer c.task.id r.1) (sym step)
                      (HasAnswer-screen c.task.id tasks ids cs pending (refuse input c reason round)
                        (HasAnswer-refuse c reason round))),
                screen-All tasks ids cs pending (refuse input c reason round)
                    (λ d k. f d (
                      subst (λ (r : List SchedulableTask × Round). HasAnswer d.task.id r.1)
                        (sym step) k))
                    (subst (λ (r : List SchedulableTask × Round). All Q r.0) step h),
              )
          | inl e ↦
              let step = screen_pending tasks ids c cs pending round e in
              let h' = subst (λ (r : List SchedulableTask × Round). All Q r.0) step h in
              (
                (append-All Q pending (c ∷ [])
                    (screen-pending tasks ids cs (pending ++ c ∷ []) round h')).1.0,
                screen-All tasks ids cs (pending ++ c ∷ []) round
                    (λ d k. f d (
                      subst (λ (r : List SchedulableTask × Round). HasAnswer d.task.id r.1)
                        (sym step) k))
                    h',
              )
        ]

  -- The loops evaluate every task of the input.
  pub final_round-HasAnswer :
      All (λ c. is_some (get (final_round compare input).evaluations c.task.id) ≡ true) input.tasks
  unfolding final_round screened HasAnswer
  final_round-HasAnswer =
      let before = compare_candidates compare input.now input.limits.aging_interval_ms in
      let r = screened compare input in
      let ok = screened-IsEligible compare input in
      let capacity = capacity_of input in
      sort_by-All before (λ c. HasAnswer c.task.id (final_round compare input)) input.tasks
        (screen-All (λ c. HasAnswer c.task.id (final_round compare input))
          (task_by_id compare input.tasks)
          (map (λ (lease : ActiveLease). lease.task_id) input.active_leases)
          (sort_by before input.tasks) [] (initial_round input capacity)
          (λ c k.
            select_tasks-kept compare input (HasAnswer c.task.id) (HasAnswer-kept c.task.id)
              (length r.0) capacity r.0 r.1 ok k)
          (select_tasks_answers (length r.0) capacity r.0 r.1 ok (omega arith)))
