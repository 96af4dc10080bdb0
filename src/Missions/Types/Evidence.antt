-- ===== src/Missions/Types/Evidence.antt =====
-- Candidate batches, schedules, artifacts, quality gates, integration trains, and the projection
-- that holds all entities (src/lib/missions/types.ts).
use swarm_z.Base.{ℕ, Number, Text, Dict, List, Option, Bool}
use swarm_z.Missions.Types.Core.{Mission, MissionTask, MissionDependency, TaskAttempt, Json}

pub record CandidateBatch : Type 0 where
  pub id : Text
  pub mission_id : Text
  pub task_id : Text
  pub count : Number
  pub instruction : Text
  pub minimum_evidence_count : Number
  pub minimum_score_margin : Number
  pub attempt_ids : List Text
  pub selected_attempt_id : Option Text
  pub requested_at : Number
  pub selected_at : Option Number

pub record MissionSchedule : Type 0 where
  pub id : Text
  pub mission_id : Text
  pub project_id : Text
  pub note : Text
  pub at_time : Number
  pub created_at : Number
  pub cancelled_at : Option Number
  pub claimed_at : Option Number
  pub fired_at : Option Number
  pub delivery_attempts : Option ℕ
  pub last_delivery_error : Option Text
  pub next_attempt_at : Option Number

pub data ArtifactKind : Type 0 where
  file diff commit pull_request report log test_result other : ArtifactKind

pub record MissionArtifact : Type 0 where
  pub id : Text
  pub mission_id : Text
  pub task_id : Option Text
  pub attempt_id : Option Text
  pub kind : ArtifactKind
  pub label : Text
  pub uri : Option Text
  pub metadata : Dict Json
  pub created_at : Number

pub data QualityGateKind : Type 0 where
  typecheck unit_tests integration_tests lint build security review custom : QualityGateKind

pub data QualityGateStatus : Type 0 where
  pending running passed failed waived : QualityGateStatus

pub record QualityGate : Type 0 where
  pub id : Text
  pub mission_id : Text
  pub task_id : Option Text
  pub kind : QualityGateKind
  pub label : Text
  pub command : Option Text
  pub required : Bool
  pub status : QualityGateStatus
  pub details : Option Text
  pub artifact_ids : List Text
  pub created_at : Number
  pub updated_at : Number

pub data EntryStatus : Type 0 where
  queued integrating integrated failed skipped : EntryStatus

pub record IntegrationTrainEntry : Type 0 where
  pub task_id : Text
  pub position : Number
  pub status : EntryStatus
  pub commit : Option Text
  pub detail : Option Text
  pub retry_revision : Option Number
  pub operation_id : Option Text

pub data TrainStatus : Type 0 where
  open_train running blocked completed cancelled : TrainStatus

pub record IntegrationTrain : Type 0 where
  pub id : Text
  pub mission_id : Text
  pub base_branch : Text
  pub integration_branch : Text
  pub status : TrainStatus
  pub entries : List IntegrationTrainEntry
  pub created_at : Number
  pub updated_at : Number

pub record MissionProjection : Type 0 where
  pub missions : Dict Mission
  pub tasks : Dict MissionTask
  pub dependencies : Dict MissionDependency
  pub attempts : Dict TaskAttempt
  pub artifacts : Dict MissionArtifact
  pub quality_gates : Dict QualityGate
  pub integration_trains : Dict IntegrationTrain
  pub candidate_batches : Dict CandidateBatch
  pub schedules : Dict MissionSchedule
  pub applied_event_ids : Dict Text
  pub idempotency_keys : Dict Text
