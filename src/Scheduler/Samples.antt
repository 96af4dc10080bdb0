-- ===== src/Scheduler/Samples.antt =====
-- Small scheduler inputs, and what the scheduler does on them.
use swarm_z.Base.{
  ◌≡◌, refl, Bool, true, false, Option, none, some, List, [], ◌∷◌, map, Number, of_nat, Text, codes,
  text_lt, library,
}
use swarm_z.Missions.Types.{TaskStatus, MissionRisk, WorktreePolicy, MissionTask}
use swarm_z.Scheduler.Types.{SchedulableTask, ActiveLease, SchedulerInput, StartDecision}
use swarm_z.Scheduler.Capacity.{for_all, SchedulerLimits, Health, SchedulerHealthSignals}
use swarm_z.Scheduler.Capacity
use swarm_z.Scheduler.Control
use swarm_z.Scheduler.Paths
use swarm_z.Scheduler.Paths.{path_intents_overlap, path_matches_declared_intent, glob_matches}
use swarm_z.Scheduler.Locks
use swarm_z.Scheduler.Priority
use swarm_z.Scheduler.Eligibility
use swarm_z.Scheduler.Selection
use swarm_z.Scheduler.Selection.{schedule}
use swarm_z.Scheduler.Retry
use swarm_z.Scheduler.Retry.{stable_hash}

-- Everything that a run of the scheduler computes with.
unfoldable pub program : Unit {0}
unfolding library Control.is_terminal_status Paths.normalize Paths.unique_sorted Paths.is_wildcard
    Paths.piece_at Paths.mode_after Paths.pieces_from Paths.glob_pieces Paths.matches
    Paths.glob_matches Paths.path_matches_declared_intent Paths.has_wildcard Paths.before_wildcard
    Paths.static_prefix Paths.segment_prefix_could_overlap Paths.globs_overlap
    Paths.path_intents_overlap Locks.checkout_key Locks.lock_keys Locks.lock_keys_for_task
    Locks.lock_keys_for_lease Locks.lock_kind Locks.resource_reason Locks.intents_conflict
    Locks.lease_conflict Locks.first_conflict Locks.conflict_with_leases Locks.provisional_lease
    Priority.finite_or Priority.floor_div Priority.effective_priority Priority.by_text
    Priority.by_identity Priority.by_waiting Priority.compare_candidates Priority.compare_pending
    Priority.configured_limit Priority.project_limit Priority.mission_limit Eligibility.index_tasks
    Eligibility.task_by_id Eligibility.sorted_set Eligibility.is_missing Eligibility.is_lost
    Eligibility.is_done Eligibility.has_failed Eligibility.is_pending Eligibility.if_any
    Eligibility.dependency_reason Eligibility.visit_dependencies Eligibility.visit_task
    Eligibility.dependency_cycle Eligibility.needs_person Eligibility.is_paused_task
    Eligibility.is_running_task Eligibility.is_draft_task Eligibility.is_schedulable
    Eligibility.status_reason Eligibility.is_incomplete Eligibility.waiting_reason
    Eligibility.static_eligibility Selection.capacity_reason Selection.can_retry Selection.count_of
    Selection.count_up Selection.count_leases Selection.score_of Selection.evaluation
    Selection.refuse Selection.refuse_all Selection.start_decision Selection.admit_task
    Selection.initial_round Selection.screen Selection.capacity_of Selection.latest_attempt
    Selection.recovery_decision Selection.recovery_decisions Selection.consider
    Selection.sort_pending Selection.take_next Selection.select_tasks Selection.screened
    Selection.final_round Selection.schedule Retry.mix Retry.stable_hash Retry.power_of_two
    Retry.hash_fraction Retry.jitter_of Retry.base_delay Retry.delay_cap Retry.jitter_ratio_of
    Retry.cannot_retry Retry.retry_delay Retry.retry_after_failure Capacity.non_negative_integer
    Capacity.ratio Capacity.ratio_005 Capacity.ratio_02 Capacity.ratio_025 Capacity.ratio_05
    Capacity.ratio_075 Capacity.ratio_09 Capacity.at_most Capacity.at_least Capacity.reduce_to
    Capacity.is_degraded Capacity.is_critical Capacity.is_paused Capacity.by_health
    Capacity.by_rate_limit Capacity.by_failures Capacity.by_memory Capacity.reduce_capacity
    Capacity.or_all_healthy Capacity.closing_reasons Capacity.adaptive_capacity Capacity.is_stopping
program = tt

abbrev pub task : TaskStatus → MissionTask
task status = record {
  id = codes "t1";
  mission_id = codes "m1";
  title = codes "Task";
  description = [];
  status = status;
  priority = of_nat 50;
  role = codes "worker";
  risk = MissionRisk.low;
  acceptance_criteria = [];
  root = record { project_id = codes "p"; path = codes "/p" };
  worktree_policy = WorktreePolicy.new;
  dependency_ids = codes "t0" ∷ [];
  declared_files = [];
  declared_globs = [];
  max_attempts = of_nat 2;
  attempt_ids = [];
  quality_gate_ids = [];
  artifact_ids = [];
  created_at = of_nat 1;
  updated_at = of_nat 1;
  archived_at = none;
  paused_at = none;
  resume_instruction = none;
  requeued_after_attempt_id = none;
  selected_candidate_attempt_id = none;
  allow_noop = none;
}

abbrev pub limits : SchedulerLimits
limits = record {
  global_concurrency = of_nat 9;
  per_project_concurrency = for_all (of_nat 2);
  per_mission_concurrency = none;
  hard_backend_cap = of_nat 8;
  aging_interval_ms = of_nat 60000;
}

abbrev pub signals : Option Number → Bool → SchedulerHealthSignals
signals remaining paused = record {
  health = some Health.degraded;
  rate_limit_remaining_ratio = remaining;
  recent_failure_ratio = none;
  memory_pressure = none;
  paused = some paused;
}

abbrev pub degraded : SchedulerHealthSignals
degraded = signals none false

abbrev pub stopped : SchedulerHealthSignals
stopped = signals none true

abbrev pub queued : Text → List Text → Text → List Text → SchedulableTask
queued id dependencies worktree files = record {
  task = record (task TaskStatus.ready) {
    id = id;
    dependency_ids = dependencies;
    declared_globs = files;
  };
  enqueued_at = of_nat 1000;
  next_eligible_at = none;
  worktree_path = some worktree;
  resource_keys = none;
}

abbrev pub done_task : SchedulableTask
done_task = record (queued (codes "t0") [] (codes "/w/0") []) {
  task = record (task TaskStatus.succeeded) { id = codes "t0"; dependency_ids = [] };
}

abbrev pub lease : ActiveLease
lease = record {
  task_id = codes "t9";
  attempt_id = codes "a9";
  mission_id = codes "m9";
  project_id = codes "q";
  backend_id = codes "b9";
  root_path = codes "/q";
  worktree_path = none;
  acquired_at = of_nat 500;
  declared_files = [];
  declared_globs = [];
  resource_keys = [];
}

abbrev pub input : SchedulerInput
input = record {
  tasks =
      queued (codes "t4") (codes "t1" ∷ []) (codes "/w/4") []
      ∷ queued (codes "t3") [] (codes "/w/3") []
      ∷ queued (codes "t2") [] (codes "/w/2") (codes "src/a.ts" ∷ [])
      ∷ queued (codes "t1") (codes "t0" ∷ []) (codes "/w/1") (codes "src/**" ∷ [])
      ∷ done_task
      ∷ [];
  attempts = none;
  active_leases = lease ∷ [];
  backend_active_count = of_nat 1;
  now = of_nat 61000;
  limits = limits;
  signals = record degraded { health = none };
  paused_mission_ids = none;
  missing_backend_task_ids = none;
}

abbrev pub path_a : Text
path_a = codes "./src/a.ts"

-- t1 and t3 are started; t2 declares a file in the range of t1, and t4 waits for t1.
starts-input :
    map (λ (s : StartDecision). s.task_id) (schedule text_lt input).starts
    ≡ codes "t1" ∷ codes "t3" ∷ []
unfolding program
starts-input = refl

hash-t1 : stable_hash (codes "t1:1") ≡ 1342566895
unfolding program
hash-t1 = refl

glob_star : glob_matches (codes "src/*.ts") (codes "src/a.ts") ≡ true
unfolding program
glob_star = refl

glob_star_slash : glob_matches (codes "src/*.ts") (codes "src/b/a.ts") ≡ false
unfolding program
glob_star_slash = refl

glob_brackets : glob_matches (codes "a[xyz]c/**") (codes "abc/d/e") ≡ true
unfolding program
glob_brackets = refl
