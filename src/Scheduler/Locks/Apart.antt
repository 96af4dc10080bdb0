-- ===== src/Scheduler/Locks/Apart.antt =====
-- A task without a conflict is apart from every lease (src/lib/scheduler/conflicts.ts).
use swarm_z.Base.{
  ◌≡◌, refl, inl, inr, Bool, true, false, not, ◌&&◌, text_eq, none, some, List, [], ◌∷◌, map, any,
  find, select, sort_by, All, All-select, All-sort_by, All-mono, All-every, sort_by-All, Text,
  is_empty, mem, text_lt, All-distinct, distinct, Bool-cases, Option-cases, arith,
}
use swarm_z.Scheduler.Types.{SchedulableTask, ActiveLease}
use swarm_z.Scheduler.Paths.{normalize, unique_sorted, path_intents_overlap}
use swarm_z.Scheduler.Locks.{
  lock_keys, lock_keys_for_task, lock_keys_for_lease, resource_reason, intents_conflict,
  lease_conflict, first_conflict, conflict_with_leases, provisional_lease,
}

-- Two sets of keys have none in common.
abbrev pub share_key : List Text → List Text → Bool
share_key xs ys = any (λ key. mem key ys) xs

-- The task holds no key of the lease and, in one project, declares no path that the lease declares.
pub record IsApart (candidate : SchedulableTask) (lease : ActiveLease) : Type 0 where
  pub keys : share_key (lock_keys_for_task candidate) (lock_keys_for_lease lease) ≡ false
  pub intents :
      (text_eq candidate.task.root.project_id lease.project_id
        && path_intents_overlap candidate.task.declared_files candidate.task.declared_globs
            lease.declared_files lease.declared_globs)
      ≡ false

abbrev IsFull : Text → Type 0
IsFull key = is_empty key ≡ false

unique_sorted-IsFull : (values : List Text) → All IsFull (unique_sorted values)
unfolding unique_sorted
unique_sorted-IsFull values =
    let normal = map normalize values in
    let full = select (λ v. not (is_empty v)) normal in
    All-sort_by text_lt IsFull (distinct full) (
      All-distinct IsFull full (
        All-mono (λ v. Unit {0} × (not (is_empty v) ≡ true)) IsFull (λ v h. ground (arith, h.1))
          full
          (All-select (λ v. not (is_empty v)) (λ v. Unit {0}) normal
            (All-every (λ v. Unit {0}) (λ v. tt) normal))))

find-IsFull :
    (p : Text → Bool) (xs : List Text) (x : Text)
    → All IsFull xs
    → find p xs ≡ some x
    → is_empty x ≡ false
unfolding find
find-IsFull p [] x h e = cc
find-IsFull p (y ∷ ys) x (hy, h) e = elim (Bool-cases (p y)) [
  | inl here ↦ ground (arith, hy)
  | inr later ↦ find-IsFull p ys x h (ground arith)
]

find-none : (p : Text → Bool) (xs : List Text) → find p xs ≡ none → any p xs ≡ false
unfolding find any
find-none p [] h = refl
find-none p (x ∷ xs) h = ground (arith, find-none p xs)

resource_reason-none :
    (keys : List Text) (lease : ActiveLease)
    → All IsFull keys
    → resource_reason keys lease ≡ none
    → share_key keys (lock_keys_for_lease lease) ≡ false
unfolding resource_reason
resource_reason-none keys lease full h =
    let p : Text → Bool = λ key. mem key (lock_keys_for_lease lease) in
    elim (Option-cases (find p keys)) [
      | inl e ↦ find-none p keys e
      | inr (key, e) ↦ let named = find-IsFull p keys key full e in absurd (ground (arith, named))
    ]

lease_conflict-none :
    (candidate : SchedulableTask) (lease : ActiveLease)
    → lease_conflict candidate lease ≡ none
    → IsApart candidate lease
unfolding lease_conflict lock_keys_for_task lock_keys intents_conflict
lease_conflict-none candidate lease h =
    elim (Option-cases (resource_reason (lock_keys_for_task candidate) lease)) [
      | inr (reason, e) ↦ absurd (ground arith)
      | inl e ↦ record {
        keys = resource_reason-none (lock_keys_for_task candidate) lease (unique_sorted-IsFull _) e;
        intents = ground arith;
      }
    ]

first_conflict-none :
    (candidate : SchedulableTask) (leases : List ActiveLease)
    → first_conflict candidate leases ≡ none
    → All (IsApart candidate) leases
unfolding first_conflict
first_conflict-none candidate [] h = tt
first_conflict-none candidate (lease ∷ leases) h =
    elim (Option-cases (lease_conflict candidate lease)) [
      | inr (reason, e) ↦ absurd (ground arith)
      | inl e ↦ (
        lease_conflict-none candidate lease e,
        first_conflict-none candidate leases (ground arith),
      )
    ]

-- Where no conflict is reported, the task is apart from each lease.
pub conflict_with_leases-none :
    (compare : Text → Text → Bool) (candidate : SchedulableTask) (leases : List ActiveLease)
    → conflict_with_leases compare candidate leases ≡ none
    → All (IsApart candidate) leases
unfolding conflict_with_leases
conflict_with_leases-none compare candidate leases h =
    sort_by-All (λ a b. compare a.task_id b.task_id) (IsApart candidate) leases
      (first_conflict-none candidate (sort_by (λ a b. compare a.task_id b.task_id) leases) h)

-- A started task's provisional lease holds the very keys that were tested for the task.
pub lock_keys-provisional_lease :
    (candidate : SchedulableTask)
    → lock_keys_for_lease (provisional_lease candidate) ≡ lock_keys_for_task candidate
unfolding lock_keys_for_lease lock_keys_for_task provisional_lease
lock_keys-provisional_lease candidate = refl
