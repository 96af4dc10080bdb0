-- ===== src/Scheduler/Locks.antt =====
-- The locks of tasks and leases (src/lib/scheduler/conflicts.ts). `compare` stands for `localeCompare`:
-- `compare a b` says that a comes before b.
pub mod Apart
use swarm_z.Base.{
  ◌≡◌, refl, ◌⊎◌, inl, inr, Bool, true, false, ◌&&◌, ◌||◌, Option, none, some, or_else, List, [],
  ◌∷◌, ◌++◌, map, any, find, sort_by, All, if◌then◌else◌, Text, codes, text_eq, is_empty, is_prefix,
  mem, Bool-cases, Option-cases, arith,
}
use swarm_z.Scheduler.Types.{
  SchedulableTask, ActiveLease, LockKind, worktree_lock, root_lock, resource_lock, SchedulerReason,
  locked, declared_file_conflict,
}
use swarm_z.Scheduler.Paths.{normalize, unique_sorted, path_intents_overlap}

-- The key of the checkout that is written: the worktree, or the project's root.
unfoldable pub checkout_key : Option Text → Text → Text
checkout_key worktree_path root_path =
    let worktree = normalize (or_else worktree_path []) in
    if is_empty worktree
    then codes "root:" ++ normalize root_path
    else codes "worktree:" ++ worktree

unfoldable pub lock_keys : List Text → Option Text → Text → List Text
lock_keys resource_keys worktree_path root_path = unique_sorted (
    unique_sorted (map (λ key. codes "resource:" ++ key) resource_keys)
    ++ checkout_key worktree_path root_path ∷ [])

unfoldable pub lock_keys_for_task : SchedulableTask → List Text
lock_keys_for_task candidate =
    lock_keys (or_else candidate.resource_keys []) candidate.worktree_path candidate.task.root.path

unfoldable pub lock_keys_for_lease : ActiveLease → List Text
lock_keys_for_lease lease = lock_keys lease.resource_keys lease.worktree_path lease.root_path

unfoldable pub lock_kind : Text → LockKind
lock_kind key =
    if is_prefix (codes "worktree:") key
    then worktree_lock
    else if is_prefix (codes "root:") key
    then root_lock
    else resource_lock

unfoldable pub resource_reason : List Text → ActiveLease → Option SchedulerReason
resource_reason keys blocker = elim (find (λ key. mem key (lock_keys_for_lease blocker)) keys) [
  | none ↦ none
  | some key ↦ if is_empty key then none else some (locked (lock_kind key) key blocker.task_id)
]

-- `candidate` and `lease` are of one project and may write one file.
unfoldable pub intents_conflict : SchedulableTask → ActiveLease → Bool
intents_conflict candidate lease =
    text_eq candidate.task.root.project_id lease.project_id
    && path_intents_overlap candidate.task.declared_files candidate.task.declared_globs
        lease.declared_files lease.declared_globs

unfoldable pub lease_conflict : SchedulableTask → ActiveLease → Option SchedulerReason
lease_conflict candidate lease = elim (resource_reason (lock_keys_for_task candidate) lease) [
  | some reason ↦ some reason
  | none ↦
      if intents_conflict candidate lease then some (declared_file_conflict lease.task_id) else none
]

unfoldable pub first_conflict : SchedulableTask → List ActiveLease → Option SchedulerReason
first_conflict candidate [] = none
first_conflict candidate (lease ∷ leases) =
    let rest = first_conflict candidate leases in
    elim (lease_conflict candidate lease) [ some reason ↦ some reason | none ↦ rest ]

unfoldable pub conflict_with_leases :
    (Text → Text → Bool) → SchedulableTask → List ActiveLease → Option SchedulerReason
conflict_with_leases compare candidate leases =
    first_conflict candidate (sort_by (λ a b. compare a.task_id b.task_id) leases)

unfoldable pub provisional_lease : SchedulableTask → ActiveLease
provisional_lease candidate = record {
  task_id = candidate.task.id;
  attempt_id = codes "pending:" ++ candidate.task.id;
  mission_id = candidate.task.mission_id;
  project_id = candidate.task.root.project_id;
  backend_id = codes "pending:" ++ candidate.task.id;
  root_path = candidate.task.root.path;
  worktree_path = candidate.worktree_path;
  acquired_at = candidate.enqueued_at;
  declared_files = candidate.task.declared_files;
  declared_globs = candidate.task.declared_globs;
  resource_keys = or_else candidate.resource_keys [];
}
