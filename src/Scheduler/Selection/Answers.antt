-- ===== src/Scheduler/Selection/Answers.antt =====
-- An admission plan starts ready tasks only and answers for every task (src/lib/scheduler/core.ts).
use mathlib.Core.List.{Mem, mem-append_left, mem-append_right, mem-cons_self}
use swarm_z.Base.{
  ◌≡◌, refl, subst, inl, inr, Bool, true, false, some, is_some, List, [], ◌∷◌, ◌++◌, map, All,
  All-append, sort_by, sort_by-All, Text, Dict, get, put, get-put, values, All-get, All-Mem,
  text_eq, text_eq_sound, All-mono, ◌⊎◌, Bool-cases, Option-cases, arith,
}
use swarm_z.Scheduler.Types.{
  SchedulableTask, SchedulerInput, ActiveLease, StartDecision, TaskEvaluation, selected,
}
use swarm_z.Scheduler.Eligibility.{task_by_id}
use swarm_z.Scheduler.Eligibility.Ready.{IsReady, static_eligibility-none}
use swarm_z.Scheduler.Selection.{
  Round, evaluation, score_of, refuse, admit_task, start_decision, initial_round, final_round,
  schedule,
}
use swarm_z.Scheduler.Selection.Loop.{IsKept, final_round-kept}
use swarm_z.Scheduler.Selection.Evaluated.{final_round-HasAnswer}

-- The plan evaluates the task of the id, as one that is not started or else with a start.
abbrev pub IsAnswered : List TaskEvaluation → List StartDecision → Text → Type 0
IsAnswered evaluations starts id =
    (e : TaskEvaluation) × Mem e evaluations
    × (e.task_id ≡ id)
    × ((e.eligible ≡ false) ⊎ ((start : StartDecision) × Mem start starts × (start.task_id ≡ id)))

module _ (compare : Text → Text → Bool) (input : SchedulerInput) where
  -- The start of a task of the input that is ready.
  abbrev pub IsReadyStart : StartDecision → Type 0
  IsReadyStart start =
      (candidate : SchedulableTask) × Mem candidate input.tasks
      × (start_decision input candidate ≡ start)
      × IsReady candidate input (task_by_id compare input.tasks)
          (map (λ (lease : ActiveLease). lease.task_id) input.active_leases)

  StartsReady : Round → Type 0
  StartsReady round = All IsReadyStart round.starts

  StartsReady-kept : IsKept compare input StartsReady
  unfolding StartsReady refuse admit_task
  StartsReady-kept = record {
    refused = λ candidate reason round h. h;
    admitted = λ candidate round ok a h.
        All-append IsReadyStart round.starts (start_decision input candidate ∷ []) h
          ((candidate, ok.0, refl, static_eligibility-none candidate input _ _ ok.1), tt);
  }

  -- Each start is of a task of the input that is ready: complete, not active, of a schedulable status,
  -- of a mission that is not paused, past its retry time, with every dependency succeeded, and not
  -- dependent on itself over any way through the tasks of the input.
  pub starts-IsReady : All IsReadyStart (schedule compare input).starts
  unfolding schedule initial_round StartsReady
  starts-IsReady = final_round-kept compare input StartsReady StartsReady-kept tt

  -- The task of the id was evaluated as one that is not started, or is among the starts.
  Told : List StartDecision → Text → TaskEvaluation → Type 0
  Told starts id e =
      (e.task_id ≡ id)
      × ((e.eligible ≡ false) ⊎ ((start : StartDecision) × Mem start starts × (start.task_id ≡ id)))

  Told-more :
      (starts : List StartDecision) (s : StartDecision) (id : Text) (e : TaskEvaluation)
      → Told starts id e
      → Told (starts ++ s ∷ []) id e
  unfolding Told
  Told-more starts s id e (same, inl not_started) = (same, inl not_started)
  Told-more starts s id e (same, inr (start, here, of_task)) =
      (same, inr (start, mem-append_left (s ∷ []) here, of_task))

  AllTold : Round → Type 0
  AllTold round =
      (id : Text) (e : TaskEvaluation) → get round.evaluations id ≡ some e → Told round.starts id e

  Told-put :
      (evaluations : Dict TaskEvaluation) (starts : List StartDecision) (k id : Text)
      (e e' : TaskEvaluation)
      → (get evaluations id ≡ some e' → Told starts id e')
      → Told starts k e
      → get (put evaluations k e) id ≡ some e'
      → Told starts id e'
  Told-put evaluations starts k id e e' before now h = elim (Bool-cases (text_eq k id)) [
    | inl same ↦
        let is_e : e ≡ e' = ground (arith, get-put evaluations k id e) in
        subst (Told starts id) is_e
          (subst (λ (j : Text). Told starts j e) (text_eq_sound k id same) now)
    | inr other ↦ before (ground (arith, get-put evaluations k id e))
  ]

  AllTold-kept : IsKept compare input AllTold
  unfolding AllTold Told refuse admit_task evaluation start_decision
  AllTold-kept = record {
    refused = λ candidate reason round h id e found.
        Told-put round.evaluations round.starts candidate.task.id id
          (evaluation input candidate false reason) e (h id e) (refl, inl refl) found;
    admitted = λ candidate round ok a h id e found.
        let s = start_decision input candidate in
        Told-put round.evaluations (round.starts ++ s ∷ []) candidate.task.id id
          (evaluation input candidate true (selected (score_of input candidate))) e
          (λ old. Told-more round.starts s id e (h id e old))
          (refl, inr (s, mem-append_right round.starts mem-cons_self, refl)) found;
  }

  -- The plan answers for every task of the input: one of its evaluations is of the task's id, and it is
  -- of a task that is not started, or one of the plan's starts is of the task's id.
  pub schedule_answers :
      All
        (λ c.
          IsAnswered (schedule compare input).evaluations (schedule compare input).starts c.task.id)
        input.tasks
  unfolding schedule initial_round AllTold Told get
  schedule_answers =
      let end = final_round compare input in
      let before : TaskEvaluation → TaskEvaluation → Bool = λ a b. compare a.task_id b.task_id in
      let sorted = sort_by before (values end.evaluations) in
      let told =
        final_round-kept compare input AllTold AllTold-kept (λ id e h. absurd (ground arith)) in
      All-mono (λ c. is_some (get end.evaluations c.task.id) ≡ true) _
        (λ c h. elim (Option-cases (get end.evaluations c.task.id)) [
          | inl missing ↦ absurd (ground arith)
          | inr (e, found) ↦ (
            e,
            All-get (λ x. Mem x sorted) end.evaluations c.task.id e
                (sort_by-All before (λ x. Mem x sorted) (values end.evaluations) (All-Mem sorted))
                found,
            (told c.task.id e found).0,
            (told c.task.id e found).1,
          )
        ])
        input.tasks (final_round-HasAnswer compare input)
