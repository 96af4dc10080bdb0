-- ===== src/Missions/Types/Event.antt =====
-- Mission events and their payloads (src/lib/missions/types.ts).
use swarm_z.Base.{ℕ, Number, Text, Dict, List, Option, Bool}
use swarm_z.Missions.Types.Core.{
  MissionPolicy, MissionBudget, MissionRisk, TaskRoot, WorktreePolicy, Json,
}
use swarm_z.Missions.Types.Evidence.{
  MissionSchedule, MissionArtifact, QualityGateKind, IntegrationTrainEntry, TrainStatus,
  IntegrationTrain,
}

pub record MissionCreatedPayload : Type 0 where
  pub project_id : Text
  pub title : Text
  pub objective : Text
  pub policy : MissionPolicy
  pub budget : MissionBudget
  pub created_at : Number

pub record MissionTaskInput : Type 0 where
  pub id : Text
  pub mission_id : Text
  pub title : Text
  pub description : Text
  pub priority : Number
  pub role : Text
  pub risk : MissionRisk
  pub acceptance_criteria : List Text
  pub root : TaskRoot
  pub worktree_policy : WorktreePolicy
  pub dependency_ids : List Text
  pub declared_files : List Text
  pub declared_globs : List Text
  pub max_attempts : Number
  pub allow_noop : Option Bool
  pub created_at : Number

-- The patch of "task.updated".
pub record TaskPatch : Type 0 where
  pub title : Option Text
  pub description : Option Text
  pub priority : Option Number
  pub role : Option Text
  pub risk : Option MissionRisk
  pub acceptance_criteria : Option (List Text)
  pub root : Option TaskRoot
  pub worktree_policy : Option WorktreePolicy
  pub dependency_ids : Option (List Text)
  pub declared_files : Option (List Text)
  pub declared_globs : Option (List Text)
  pub max_attempts : Option Number
  pub allow_noop : Option Bool

pub record AttemptStartedPayload : Type 0 where
  pub id : Text
  pub task_id : Text
  pub candidate_batch_id : Option Text
  pub session_id : Option Text
  pub worker_label : Option Text
  pub started_at : Number

-- `Exclude<AttemptStatus, "queued" | "running">`.
pub data FinishedStatus : Type 0 where
  succeeded failed blocked needs_human cancelled : FinishedStatus

pub record AttemptFinishedPayload : Type 0 where
  pub attempt_id : Text
  pub status : FinishedStatus
  pub finished_at : Number
  pub summary : Option Text
  pub error : Option Text
  pub report : Option (Dict Json)

pub record QualityGateInput : Type 0 where
  pub id : Text
  pub mission_id : Text
  pub task_id : Option Text
  pub kind : QualityGateKind
  pub label : Text
  pub command : Option Text
  pub required : Bool
  pub created_at : Number

-- `Exclude<QualityGateStatus, "pending" | "running">`.
pub data GateResult : Type 0 where
  passed failed waived : GateResult

pub record GateResultedPayload : Type 0 where
  pub gate_id : Text
  pub status : GateResult
  pub details : Option Text
  pub artifact_ids : Option (List Text)
  pub updated_at : Number

pub record TrainUpdatedPayload : Type 0 where
  pub train_id : Text
  pub status : Option TrainStatus
  pub entries : Option (List IntegrationTrainEntry)
  pub updated_at : Number

pub record CandidateRequestedPayload : Type 0 where
  pub id : Text
  pub mission_id : Text
  pub task_id : Text
  pub count : Number
  pub instruction : Text
  pub minimum_evidence_count : Number
  pub minimum_score_margin : Number
  pub requested_at : Number

pub data MissionEventPayload : Type 0 where
  mission_created : MissionCreatedPayload → MissionEventPayload
  mission_archived : (archived_at : Number) → MissionEventPayload
  mission_cancelled : (cancelled_at : Number) → MissionEventPayload
  mission_activated : (activated_at : Number) → MissionEventPayload
  mission_paused : (paused_at : Number) → MissionEventPayload
  mission_resumed : (resumed_at : Number) → MissionEventPayload
  task_added : MissionTaskInput → MissionEventPayload
  task_updated : (task_id : Text) (updated_at : Number) → TaskPatch → MissionEventPayload
  task_archived : (task_id : Text) (archived_at : Number) → MissionEventPayload
  task_paused : (task_id : Text) (paused_at : Number) → MissionEventPayload
  task_resumed : (task_id : Text) (resumed_at : Number) → MissionEventPayload
  task_requeued :
      (task_id after_attempt_id instruction : Text) (requeued_at : Number) → MissionEventPayload
  attempt_started : AttemptStartedPayload → MissionEventPayload
  attempt_finished : AttemptFinishedPayload → MissionEventPayload
  artifact_recorded : MissionArtifact → MissionEventPayload
  quality_gate_added : QualityGateInput → MissionEventPayload
  quality_gate_resulted : GateResultedPayload → MissionEventPayload
  integration_train_created : IntegrationTrain → MissionEventPayload
  integration_train_updated : TrainUpdatedPayload → MissionEventPayload
  candidate_batch_requested : CandidateRequestedPayload → MissionEventPayload
  candidate_batch_selected :
      (batch_id attempt_id : Text) (selected_at : Number) → MissionEventPayload
  candidate_batch_overridden :
      (batch_id attempt_id reason : Text) (selected_at : Number) → MissionEventPayload
  schedule_created : MissionSchedule → MissionEventPayload
  schedule_cancelled : (schedule_id : Text) (cancelled_at : Number) → MissionEventPayload
  schedule_claimed : (schedule_id : Text) (claimed_at : Number) → MissionEventPayload
  schedule_delivery_failed :
      (schedule_id : Text) (failed_at : Number) (error : Text) (next_attempt_at : Number)
      → MissionEventPayload
  schedule_fired : (schedule_id : Text) (fired_at : Number) → MissionEventPayload

pub data Actor : Type 0 where
  human orchestrator scheduler system : Actor

pub record MissionEvent : Type 0 where
  pub event_id : Text
  pub mission_id : Text
  pub revision : ℕ
  pub occurred_at : Number
  pub idempotency_key : Option Text
  pub actor : Actor
  pub payload : MissionEventPayload
