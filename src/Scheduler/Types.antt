-- ===== src/Scheduler/Types.antt =====
-- The scheduler's input and decisions (src/lib/scheduler/types.ts). The text of a reason is a function of
-- its constructor and arguments, which stand for it.
use swarm_z.Base.{ℕ, Bool, Option, List, Number, Text}
use swarm_z.Missions.Types.{TaskStatus, MissionTask, TaskAttempt}
use swarm_z.Scheduler.Capacity.{
  SchedulerLimits, SchedulerHealthSignals, AdaptiveCapacity, CapacityReason,
}

pub record SchedulableTask : Type 0 where
  pub task : MissionTask
  pub enqueued_at : Number
  pub next_eligible_at : Option Number
  pub worktree_path : Option Text
  pub resource_keys : Option (List Text)

pub record ActiveLease : Type 0 where
  pub task_id : Text
  pub attempt_id : Text
  pub mission_id : Text
  pub project_id : Text
  pub backend_id : Text
  pub root_path : Text
  pub worktree_path : Option Text
  pub acquired_at : Number
  pub declared_files : List Text
  pub declared_globs : List Text
  pub resource_keys : List Text

pub record SchedulerInput : Type 0 where
  pub tasks : List SchedulableTask
  pub attempts : Option (List TaskAttempt)
  pub active_leases : List ActiveLease
  pub backend_active_count : Number
  pub now : Number
  pub limits : SchedulerLimits
  pub signals : SchedulerHealthSignals
  pub paused_mission_ids : Option (List Text)
  pub missing_backend_task_ids : Option (List Text)

-- What a task holds that a lock guards.
pub data LockKind : Type 0 where
  worktree_lock root_lock resource_lock : LockKind

pub data SchedulerReason : Type 0 where
  selected : (score : Number) → SchedulerReason
  incomplete_identity already_active : SchedulerReason
  terminal needs_intervention : (status : TaskStatus) → SchedulerReason
  task_paused running_without_lease draft_task mission_paused : SchedulerReason
  not_schedulable : (status : TaskStatus) → SchedulerReason
  dependency_cycle dependency_missing dependency_failed dependency_pending :
      (blockers : List Text) → SchedulerReason
  retry_backoff : (until : Number) → SchedulerReason
  backend_capacity global_capacity : SchedulerReason
  health_paused : (reasons : List CapacityReason) → SchedulerReason
  project_capacity mission_capacity : (cap : ℕ) → SchedulerReason
  locked : (kind : LockKind) (key : Text) (blocker : Text) → SchedulerReason
  declared_file_conflict : (blocker : Text) → SchedulerReason

pub record TaskEvaluation : Type 0 where
  pub task_id : Text
  pub mission_id : Text
  pub project_id : Text
  pub eligible : Bool
  pub effective_priority : Number
  pub wait_ms : Number
  pub reason : SchedulerReason

pub record StartDecision : Type 0 where
  pub task_id : Text
  pub mission_id : Text
  pub project_id : Text
  pub effective_priority : Number
  pub reason : SchedulerReason
  pub lock_keys : List Text

pub data RecoveryAction : Type 0 where
  retry fail : RecoveryAction

pub record RecoveryDecision : Type 0 where
  pub task_id : Text
  pub attempt_id : Option Text
  pub action : RecoveryAction

pub record SchedulerDecision : Type 0 where
  pub starts : List StartDecision
  pub evaluations : List TaskEvaluation
  pub recovery : List RecoveryDecision
  pub capacity : AdaptiveCapacity
