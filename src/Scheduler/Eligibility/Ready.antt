-- ===== src/Scheduler/Eligibility/Ready.antt =====
-- What a task without a reason against its start is (src/lib/scheduler/core.ts).
use swarm_z.Base.{
  ◌≡◌, refl, inl, inr, Bool, true, false, Option, none, some, or_else, List, [], ◌∷◌, select, All,
  sort_by-All, of_nat, lt_num, Text, text_lt, mem, distinct, distinct-All, Dict, get, Bool-cases,
  Option-cases, arith,
}
use swarm_z.Scheduler.Types.{
  SchedulableTask, SchedulerInput, SchedulerReason, dependency_missing, dependency_failed,
  dependency_pending,
}
use swarm_z.Scheduler.Eligibility.{
  sorted_set, is_missing, has_failed, is_pending, is_done, if_any, dependency_reason,
  is_schedulable, is_incomplete, waiting_reason, static_eligibility,
}
use swarm_z.Scheduler.Eligibility.Acyclic.{DependsOn, dependency_cycle-none}

-- The task of the id is there and has succeeded.
abbrev pub HasSucceeded : Dict SchedulableTask → Text → Type 0
HasSucceeded tasks id =
    (found : SchedulableTask) × (get tasks id ≡ some found) × (is_done found.task.status ≡ true)

pub record IsReady (candidate : SchedulableTask) (input : SchedulerInput)
    (tasks : Dict SchedulableTask) (active_task_ids : List Text) : Type 0 where
  pub identity : is_incomplete candidate ≡ false
  pub idle : mem candidate.task.id active_task_ids ≡ false
  pub status : is_schedulable candidate.task.status ≡ true
  pub mission : mem candidate.task.mission_id (or_else input.paused_mission_ids []) ≡ false
  pub waited : lt_num input.now (or_else candidate.next_eligible_at (of_nat 0)) ≡ false
  pub acyclic : ¬ DependsOn tasks candidate.task.id [] candidate.task.id
  pub dependencies : All (HasSucceeded tasks) candidate.task.dependency_ids

select-nil : (p : Text → Bool) (xs : List Text) → select p xs ≡ [] → All (λ x. p x ≡ false) xs
unfolding select
select-nil p [] h = tt
select-nil p (x ∷ xs) h = elim (Bool-cases (p x)) [
  | inl e ↦ absurd (ground arith)
  | inr e ↦ (e, select-nil p xs (ground arith))
]

if_any-none :
    (xs : List Text) (reason : List Text → SchedulerReason) (other : Option SchedulerReason)
    → if_any xs reason other ≡ none
    → (xs ≡ []) × (other ≡ none)
unfolding if_any
if_any-none [] reason other h = (refl, h)
if_any-none (x ∷ xs) reason other h = cc

All-three :
    (tasks : Dict SchedulableTask) (ids : List Text)
    → All (λ id. is_missing tasks id ≡ false) ids
    → All (λ id. has_failed tasks id ≡ false) ids
    → All (λ id. is_pending tasks id ≡ false) ids
    → All (HasSucceeded tasks) ids
unfolding is_missing has_failed is_pending
All-three tasks [] a b c = tt
All-three tasks (id ∷ ids) (ha, a) (hb, b) (hc, c) = (
  elim (Option-cases (get tasks id)) [
    | inl e ↦ absurd (ground arith)
    | inr (found, e) ↦ (found, e, ground arith)
  ],
  All-three tasks ids a b c,
)

pub dependency_reason-none :
    (candidate : SchedulableTask) (tasks : Dict SchedulableTask)
    → dependency_reason candidate tasks ≡ none
    → All (HasSucceeded tasks) candidate.task.dependency_ids
unfolding dependency_reason sorted_set
dependency_reason-none candidate tasks h =
    let ids = candidate.task.dependency_ids in
    let set = sorted_set ids in
    let r = if_any-none (select (is_missing tasks) set) dependency_missing _ h in
    let r' = if_any-none (select (has_failed tasks) set) dependency_failed _ r.1 in
    let r'' = if_any-none (select (is_pending tasks) set) dependency_pending none r'.1 in
    distinct-All (HasSucceeded tasks) ids (
      sort_by-All text_lt (HasSucceeded tasks) (distinct ids) (
        All-three tasks set (select-nil (is_missing tasks) set r.0)
          (select-nil (has_failed tasks) set r'.0) (select-nil (is_pending tasks) set r''.0)))

pub static_eligibility-none :
    (candidate : SchedulableTask) (input : SchedulerInput) (tasks : Dict SchedulableTask)
    (active_task_ids : List Text)
    → static_eligibility candidate input tasks active_task_ids ≡ none
    → IsReady candidate input tasks active_task_ids
unfolding static_eligibility waiting_reason
static_eligibility-none candidate input tasks active h = record {
  identity = ground arith;
  idle = ground arith;
  status = ground arith;
  mission = ground arith;
  waited = ground arith;
  acyclic = dependency_cycle-none candidate tasks (ground arith);
  dependencies = dependency_reason-none candidate tasks (ground arith);
}
