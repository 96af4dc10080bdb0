-- ===== src/Scheduler/Eligibility/Cycles.antt =====
-- The depth given to the search for a dependency cycle is enough (src/lib/scheduler/core.ts).
use swarm_z.Base.{
  ℕ, zero, suc, ◌+◌, ◌≤◌, ◌<◌, ◌≡◌, refl, sym, ap, ◌∙◌, inl, inr, false, Option, none, some, List,
  [], ◌∷◌, ◌++◌, length, if◌then◌else◌, Text, text_eq, text_eq_sound, text_eq_refl, mem, Dict, get,
  Bool-cases, Option-cases, arith,
}
use swarm_z.Scheduler.Types.{SchedulableTask}
use swarm_z.Scheduler.Eligibility.{sorted_set, visit_dependencies, visit_task, dependency_cycle}

-- How many tasks of the index have an id that was not seen.
pub unseen : Dict SchedulableTask → List Text → ℕ
unseen [] seen = 0
unseen ((k, t) ∷ tasks) seen = let rest = unseen tasks seen in if mem k seen then rest else suc rest

pub unseen-le-length :
    (tasks : Dict SchedulableTask) (seen : List Text) → unseen tasks seen ≤ length tasks
unfolding unseen
unseen-le-length [] seen = omega arith
unseen-le-length ((k, t) ∷ tasks) seen = ground (arith, unseen-le-length tasks seen)

unseen-le :
    (tasks : Dict SchedulableTask) (seen : List Text) (id : Text)
    → unseen tasks (id ∷ seen) ≤ unseen tasks seen
unfolding unseen mem
unseen-le [] seen id = omega arith
unseen-le ((k, t) ∷ tasks) seen id = ground (arith, unseen-le tasks seen id)

-- A task of the index that is seen for the first time is counted no more.
pub unseen-lt :
    (tasks : Dict SchedulableTask) (seen : List Text) (id : Text) (t : SchedulableTask)
    → get tasks id ≡ some t
    → mem id seen ≡ false
    → unseen tasks (id ∷ seen) < unseen tasks seen
unfolding unseen mem get
unseen-lt [] seen id t h new = cc
unseen-lt ((k, t') ∷ tasks) seen id t h new = elim (Bool-cases (text_eq k id)) [
  | inl same ↦
      let e = text_eq_sound k id same in ground (arith, e, text_eq_refl id, unseen-le tasks seen id)
  | inr other ↦ ground (arith, other, unseen-lt tasks seen id t, unseen-le tasks seen id)
]

-- Two visits that agree on ids not seen give the same search.
visit_dependencies-congr :
    (f g : Text → List Text → List Text → Option (List Text)) (origin task_id : Text)
    (path seen ids : List Text)
    → ((id : Text)
        → mem id seen ≡ false
        → f id (path ++ task_id ∷ []) (id ∷ seen) ≡ g id (path ++ task_id ∷ []) (id ∷ seen))
    → visit_dependencies f origin task_id path seen ids
      ≡ visit_dependencies g origin task_id path seen ids
unfolding visit_dependencies
visit_dependencies-congr f g origin task_id path seen [] agree = refl
visit_dependencies-congr f g origin task_id path seen (id ∷ ids) agree =
    ground (arith, agree id, visit_dependencies-congr f g origin task_id path seen ids agree)

module _ (tasks : Dict SchedulableTask) (origin : Text) where
  visit_missing :
      (n : ℕ) (id : Text) (path seen : List Text)
      → get tasks id ≡ none
      → visit_task tasks origin n id path seen ≡ none
  unfolding visit_task
  visit_missing zero id path seen h = refl
  visit_missing (suc n) id path seen h = ground arith

  pub visit_found :
      (n : ℕ) (id : Text) (path seen : List Text) (current : SchedulableTask)
      → get tasks id ≡ some current
      → visit_task tasks origin (suc n) id path seen
        ≡ visit_dependencies
            (visit_task tasks origin n)
            origin
            id
            path
            seen
            (sorted_set current.task.dependency_ids)
  unfolding visit_task
  visit_found n id path seen current h = ground arith

  -- Searches that agree below agree.
  visit_agrees :
      (n : ℕ) (id : Text) (path seen : List Text)
      → ((d : Text)
          → mem d seen ≡ false
          → visit_task tasks origin n d (path ++ id ∷ []) (d ∷ seen)
            ≡ visit_task tasks origin (suc n) d (path ++ id ∷ []) (d ∷ seen))
      → visit_task tasks origin (suc n) id path seen
        ≡ visit_task tasks origin (suc (suc n)) id path seen
  visit_agrees n id path seen deeper = elim (Option-cases (get tasks id)) [
    | inl e ↦
        visit_missing (suc n) id path seen e ∙ sym (visit_missing (suc (suc n)) id path seen e)
    | inr (current, e) ↦
        visit_found n id path seen current e
        ∙ visit_dependencies-congr (visit_task tasks origin n) (visit_task tasks origin (suc n))
            origin id path seen (sorted_set current.task.dependency_ids) deeper
        ∙ sym (visit_found (suc n) id path seen current e)
  ]

  visit_stable :
      (n : ℕ) (id : Text) (path seen : List Text)
      → unseen tasks seen ≤ n
      → visit_task tasks origin (suc n) id path seen
        ≡ visit_task tasks origin (suc (suc n)) id path seen
  visit_stable zero id path seen bound = visit_agrees zero id path seen λ d new.
      elim (Option-cases (get tasks d)) [
        | inl e ↦ visit_missing zero d _ _ e ∙ sym (visit_missing (suc zero) d _ _ e)
        | inr (t, e) ↦ absurd (omega (arith, unseen-lt tasks seen d t e new))
      ]
  visit_stable (suc n) id path seen bound = visit_agrees (suc n) id path seen λ d new.
      elim (Option-cases (get tasks d)) [
        | inl e ↦ visit_missing (suc n) d _ _ e ∙ sym (visit_missing (suc (suc n)) d _ _ e)
        | inr (t, e) ↦
            visit_stable n d (path ++ id ∷ []) (d ∷ seen)
              (omega (arith, unseen-lt tasks seen d t e new))
      ]

  visit_enough :
      (k n : ℕ) (id : Text) (path seen : List Text)
      → unseen tasks seen ≤ n
      → visit_task tasks origin (k + suc n) id path seen
        ≡ visit_task tasks origin (suc n) id path seen
  visit_enough zero n id path seen bound =
      ap (λ (m : ℕ). visit_task tasks origin m id path seen) (omega arith)
  visit_enough (suc k) n id path seen bound =
      ap (λ (m : ℕ). visit_task tasks origin m id path seen) (omega arith)
      ∙ sym (visit_stable (k + n) id path seen (omega arith))
      ∙ ap (λ (m : ℕ). visit_task tasks origin m id path seen) (omega arith)
      ∙ visit_enough k n id path seen bound

-- The search for a cycle that is given any greater depth gives the same answer, so the depth never
-- cuts it short.
pub dependency_cycle_enough :
    (candidate : SchedulableTask) (tasks : Dict SchedulableTask) (k : ℕ)
    → visit_task tasks candidate.task.id
        (k + (length tasks + 2))
        candidate.task.id
        []
        (candidate.task.id ∷ [])
      ≡ dependency_cycle candidate tasks
unfolding dependency_cycle
dependency_cycle_enough candidate tasks k =
    let id = candidate.task.id in
    ap (λ (m : ℕ). visit_task tasks id m id [] (id ∷ [])) (omega arith)
    ∙ visit_enough tasks id k (length tasks + 1) id [] (id ∷ [])
        (omega (arith, unseen-le-length tasks (id ∷ [])))
    ∙ ap (λ (m : ℕ). visit_task tasks id m id [] (id ∷ [])) (omega arith)
