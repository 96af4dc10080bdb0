-- ===== src/Scheduler/Eligibility/Acyclic.antt =====
-- The search for a dependency cycle misses none (src/lib/scheduler/core.ts).
use swarm_z.Base.{
  ℕ, zero, suc, ◌+◌, ◌≤◌, ◌≡◌, sym, subst, ◌∙◌, ◌⊎◌, inl, inr, true, false, Option, none, some,
  List, [], ◌∷◌, ◌++◌, length, All, sort_by-All, Text, text_eq, text_eq_sound, text_eq_refl,
  text_lt, mem, distinct, distinct-All, Dict, get, Bool-cases, Option-cases, arith,
}
use swarm_z.Scheduler.Types.{SchedulableTask}
use swarm_z.Scheduler.Eligibility.{sorted_set, visit_dependencies, visit_task, dependency_cycle}
use swarm_z.Scheduler.Eligibility.Cycles.{unseen, unseen-le-length, unseen-lt, visit_found}

-- The task of `id` depends on that of `origin`, through tasks whose ids are not among `avoided`.
pub data DependsOn (tasks : Dict SchedulableTask) (origin : Text) (avoided : List Text)
    : Text → Type 0 where
  direct :
      {id : Text} (current : SchedulableTask)
      → get tasks id ≡ some current
      → mem origin current.task.dependency_ids ≡ true
      → DependsOn tasks origin avoided id
  through :
      {id : Text} (current : SchedulableTask) (next : Text)
      → get tasks id ≡ some current
      → mem next current.task.dependency_ids ≡ true
      → mem next avoided ≡ false
      → DependsOn tasks origin avoided next
      → DependsOn tasks origin avoided id

module _ (tasks : Dict SchedulableTask) (origin : Text) where
  -- A way can also avoid an id, or there is a way from that id on.
  avoid :
      (avoided : List Text) (a : Text) {id : Text}
      → DependsOn tasks origin avoided id
      → DependsOn tasks origin (a ∷ avoided) id ⊎ DependsOn tasks origin (a ∷ avoided) a
  unfolding mem
  avoid avoided a (direct current found here) = inl (direct current found here)
  avoid avoided a (through current next found here new way) = elim (avoid avoided a way) [
    | inr from_a ↦ inr from_a
    | inl rest ↦ elim (Bool-cases (text_eq a next)) [
      | inl same ↦
          inr (subst (DependsOn tasks origin (a ∷ avoided)) (sym (text_eq_sound a next same)) rest)
      | inr other ↦ inl (through current next found here (ground arith) rest)
    ]
  ]

  All-at_mem {κ} :
      (P : Text → Type κ) (xs : List Text) (x : Text) → All P xs → mem x xs ≡ true → P x
  unfolding mem
  All-at_mem P [] x h here = absurd (ground arith)
  All-at_mem P (y ∷ ys) x (hy, h) here = elim (Bool-cases (text_eq y x)) [
    | inl same ↦ subst P (text_eq_sound y x same) hy
    | inr other ↦ All-at_mem P ys x h (ground arith)
  ]

  sorted_set-All {κ} : (P : Text → Type κ) (ids : List Text) → All P (sorted_set ids) → All P ids
  unfolding sorted_set
  sorted_set-All P ids h = distinct-All P ids (sort_by-All text_lt P (distinct ids) h)

  -- Where the search finds nothing, no dependency is the origin, and from each that was not seen the
  -- search was continued and found nothing.
  visit_dependencies-none :
      (visit : Text → List Text → List Text → Option (List Text)) (id : Text)
      (path seen ids : List Text)
      → visit_dependencies visit origin id path seen ids ≡ none
      → All
          (λ d.
            (text_eq d origin ≡ false)
            × (mem d seen ≡ false → visit d (path ++ id ∷ []) (d ∷ seen) ≡ none))
          ids
  unfolding visit_dependencies
  visit_dependencies-none visit id path seen [] h = tt
  visit_dependencies-none visit id path seen (d ∷ ds) h = elim (Bool-cases (text_eq d origin)) [
    | inl same ↦ absurd (ground arith)
    | inr other ↦ elim (Bool-cases (mem d seen)) [
      | inl old ↦ (
        (other, λ new. absurd (ground arith)),
        visit_dependencies-none visit id path seen ds (ground arith),
      )
      | inr new ↦ elim (Option-cases (visit d (path ++ id ∷ []) (d ∷ seen))) [
        | inl e ↦ ((other, λ n. e), visit_dependencies-none visit id path seen ds (ground arith))
        | inr (cycle, e) ↦ absurd (ground arith)
      ]
    ]
  ]

  -- The task at the start of a way is there.
  DependsOn-get :
      (avoided : List Text) {id : Text}
      → DependsOn tasks origin avoided id
      → (current : SchedulableTask) × (get tasks id ≡ some current)
  DependsOn-get avoided (direct current found here) = (current, found)
  DependsOn-get avoided (through current next found here new way) = (current, found)

  clear_dependencies :
      (n : ℕ) (id : Text) (path seen : List Text) (current : SchedulableTask)
      → get tasks id ≡ some current
      → visit_task tasks origin (suc n) id path seen ≡ none
      → All
          (λ d.
            (text_eq d origin ≡ false)
            × (mem d seen ≡ false
                → visit_task tasks origin n d (path ++ id ∷ []) (d ∷ seen) ≡ none))
          current.task.dependency_ids
  clear_dependencies n id path seen current found nothing =
      sorted_set-All _ current.task.dependency_ids (
        visit_dependencies-none (visit_task tasks origin n) id path seen
          (sorted_set current.task.dependency_ids)
          (sym (visit_found tasks origin n id path seen current found) ∙ nothing))

  -- A search of enough depth that finds nothing leaves no way to the origin.
  visit_task-none :
      (n : ℕ) (id : Text) (path seen : List Text)
      → unseen tasks seen ≤ n
      → visit_task tasks origin (suc n) id path seen ≡ none
      → ¬ DependsOn tasks origin seen id
  visit_task-none n id path seen bound nothing (direct current found here) =
      let clear = clear_dependencies n id path seen current found nothing in
      let no = (All-at_mem _ current.task.dependency_ids origin clear here).0 in
      absurd (ground (arith, no, text_eq_refl origin))
  visit_task-none zero id path seen bound nothing (through current next found here new way) =
      let there = DependsOn-get seen way in
      absurd (omega (arith, unseen-lt tasks seen next there.0 there.1 new))
  visit_task-none (suc n) id path seen bound nothing (through current next found here new way) =
      let clear = clear_dependencies (suc n) id path seen current found nothing in
      let there = DependsOn-get seen way in
      let shorter = unseen-lt tasks seen next there.0 there.1 new in
      let deeper = (All-at_mem _ current.task.dependency_ids next clear here).1 new in
      visit_task-none n next (path ++ id ∷ []) (next ∷ seen) (omega (arith, shorter)) deeper
        (elim (avoid seen next way) [ inl around ↦ around | inr from_next ↦ from_next ])

pub dependency_cycle-none :
    (candidate : SchedulableTask) (tasks : Dict SchedulableTask)
    → dependency_cycle candidate tasks ≡ none
    → ¬ DependsOn tasks candidate.task.id [] candidate.task.id
unfolding dependency_cycle
dependency_cycle-none candidate tasks nothing way =
    let id = candidate.task.id in
    visit_task-none tasks id (length tasks + 1) id [] (id ∷ [])
      (omega (arith, unseen-le-length tasks (id ∷ []))) (ground (arith, nothing))
      (elim (avoid tasks id [] id way) [ inl around ↦ around | inr from_id ↦ from_id ])
