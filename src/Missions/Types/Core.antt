-- ===== src/Missions/Types/Core.antt =====
-- Missions, tasks, attempts and what names them (src/lib/missions/types.ts). A field that may be
-- null or absent is an `Option`.
use swarm_z.Base.{ℕ, Number, Text, Dict, List, Option, Bool}

pub data MissionStatus : Type 0 where
  draft paused active needs_human blocked failed succeeded cancelled archived : MissionStatus

pub data TaskStatus : Type 0 where
  draft paused blocked_by_dependency ready running needs_human blocked failed succeeded cancelled
        archived :
      TaskStatus

pub data AttemptStatus : Type 0 where
  queued running succeeded failed blocked needs_human cancelled : AttemptStatus

pub data MissionRisk : Type 0 where
  low medium high critical : MissionRisk

pub record MissionRuntimeBinding : Type 0 where
  pub environment_id : Text
  pub spec_fingerprint : Text

pub data IntegrationMode : Type 0 where
  manual train : IntegrationMode

pub data NetworkAuthority : Type 0 where
  deny read_only allow : NetworkAuthority

pub data GithubAuthority : Type 0 where
  deny read_only write : GithubAuthority

pub data StopAction : Type 0 where
  continue pause_mission needs_human cancel_mission : StopAction

pub record MissionPolicy : Type 0 where
  pub max_parallel_attempts : Number
  pub stop_on_critical_failure : Bool
  pub require_quality_gates : Bool
  pub integration_mode : IntegrationMode
  pub network_authority : Option NetworkAuthority
  pub github_authority : Option GithubAuthority
  pub allowed_tools : Option (List Text)
  pub quality_commands : Option (List Text)
  pub stop_on_regression : Option StopAction
  pub stop_on_conflict : Option StopAction
  pub runtime_environment : Option MissionRuntimeBinding

pub record MissionBudget : Type 0 where
  pub max_attempts_total : Option Number
  pub max_active_minutes : Option Number
  pub max_tokens : Option Number
  pub max_cost_usd : Option Number

pub record TaskRoot : Type 0 where
  pub project_id : Text
  pub path : Text

pub data WorktreePolicy : Type 0 where
  none_mode new integration : WorktreePolicy
  shared : (shared_with_task_id : Text) → WorktreePolicy

-- The only kind is "hard".
pub record MissionDependency : Type 0 where
  pub id : Text
  pub mission_id : Text
  pub task_id : Text
  pub depends_on_task_id : Text
  pub created_at : Number

pub record Mission : Type 0 where
  pub id : Text
  pub project_id : Text
  pub title : Text
  pub objective : Text
  pub status : MissionStatus
  pub task_ids : List Text
  pub integration_train_ids : List Text
  pub policy : MissionPolicy
  pub budget : MissionBudget
  pub created_at : Number
  pub updated_at : Number
  pub archived_at : Option Number
  pub cancelled_at : Option Number
  pub paused_at : Option Number
  pub activated_at : Option Number
  pub revision : ℕ

pub record MissionTask : Type 0 where
  pub id : Text
  pub mission_id : Text
  pub title : Text
  pub description : Text
  pub status : TaskStatus
  pub priority : Number
  pub role : Text
  pub risk : MissionRisk
  pub acceptance_criteria : List Text
  pub root : TaskRoot
  pub worktree_policy : WorktreePolicy
  pub dependency_ids : List Text
  pub declared_files : List Text
  pub declared_globs : List Text
  pub max_attempts : Number
  pub attempt_ids : List Text
  pub quality_gate_ids : List Text
  pub artifact_ids : List Text
  pub created_at : Number
  pub updated_at : Number
  pub archived_at : Option Number
  pub paused_at : Option Number
  pub resume_instruction : Option Text
  pub requeued_after_attempt_id : Option Text
  pub selected_candidate_attempt_id : Option Text
  pub allow_noop : Option Bool

-- A value of `unknown` that came from JSON: null, a text, a number, or anything else.
pub data Json : Type 0 where
  null : Json
  text : Text → Json
  number : Number → Json
  other : Text → Json

pub record TaskAttempt : Type 0 where
  pub id : Text
  pub mission_id : Text
  pub task_id : Text
  pub ordinal : ℕ
  pub status : AttemptStatus
  pub session_id : Option Text
  pub worker_label : Option Text
  pub resume_instruction : Option Text
  pub started_at : Option Number
  pub finished_at : Option Number
  pub summary : Option Text
  pub error : Option Text
  pub report : Option (Dict Json)
  pub artifact_ids : List Text
  pub candidate_batch_id : Option Text
