-- ===== src/Missions/Handlers/Common.antt =====
-- Writes and lookups that several handlers of src/lib/missions/core.ts share, and what they use of
-- their surroundings.
use swarm_z.Base.{
  ℕ, Bool, true, false, none, some, if◌then◌else◌, Number, Text, text_eq, Dict, get, put,
}
use swarm_z.Missions.Types.{
  Mission, MissionTask, TaskAttempt, CandidateBatch, QualityGate, MissionSchedule,
  MissionProjection, MissionEvent, MissionEventPayload, Actor, Json, TaskStatus, AttemptStatus,
}
use swarm_z.Missions.Result.{InvariantError, Result, ok, err}

-- What `missionEventFingerprint` and `missionCommandFingerprint` hand to `JSON.stringify`.
pub record EventIdentity : Type 0 where
  pub mission_id : Text
  pub revision : ℕ
  pub occurred_at : Number
  pub actor : Actor
  pub payload : MissionEventPayload

pub record CommandIdentity : Type 0 where
  pub mission_id : Text
  pub actor : Actor
  pub payload : MissionEventPayload

-- JavaScript's `JSON.stringify` on the two identities, `a.localeCompare(b) < 0`, `toLowerCase` and
-- `String`.
pub record Surroundings : Type 0 where
  pub stringify_event : EventIdentity → Text
  pub stringify_command : CommandIdentity → Text
  pub comes_before : Text → Text → Bool
  pub to_lower_case : Text → Text
  pub to_text : Json → Text

unfoldable pub put_mission : MissionProjection → MissionEvent → Mission → MissionProjection
put_mission state event mission = record state {
  missions = put state.missions event.mission_id mission;
}

unfoldable pub put_task : MissionProjection → Text → MissionTask → MissionProjection
put_task state id task = record state { tasks = put state.tasks id task }

unfoldable pub put_attempt : MissionProjection → TaskAttempt → MissionProjection
put_attempt state attempt = record state { attempts = put state.attempts attempt.id attempt }

unfoldable pub put_batch : MissionProjection → CandidateBatch → MissionProjection
put_batch state batch = record state {
  candidate_batches = put state.candidate_batches batch.id batch;
}

unfoldable pub put_gate : MissionProjection → QualityGate → MissionProjection
put_gate state gate = record state { quality_gates = put state.quality_gates gate.id gate }

unfoldable pub put_schedule : MissionProjection → MissionSchedule → MissionProjection
put_schedule state schedule = record state { schedules = put state.schedules schedule.id schedule }

-- `const x = d[id]; if (!x || x.missionId !== event.missionId) throw e;`.
unfoldable pub own {ℓ} :
    {A : Type ℓ} → (A → Text) → Dict A → Text → Text → InvariantError → Result A
own mission_of d mission_id id e = elim (get d id) [
  | none ↦ err e
  | some a ↦ if text_eq (mission_of a) mission_id then ok a else err e
]

unfoldable pub own_task :
    MissionProjection → MissionEvent → Text → InvariantError → Result MissionTask
own_task state event id e = own (λ task. task.mission_id) state.tasks event.mission_id id e

unfoldable pub is_human : Actor → Bool
is_human Actor.human = true
is_human _ = false

unfoldable pub is_system : Actor → Bool
is_system Actor.system = true
is_system _ = false

unfoldable pub is_status_running : TaskStatus → Bool
is_status_running TaskStatus.running = true
is_status_running _ = false

-- `state.attempts[id]?.status === "running"`.
unfoldable pub is_running : MissionProjection → Text → Bool
is_running state id = elim (get state.attempts id) [
  | none ↦ false
  | some attempt ↦ elim attempt.status [ AttemptStatus.running ↦ true | _ ↦ false ]
]

-- `TERMINAL_ATTEMPT.has(status)`.
unfoldable pub is_terminal : AttemptStatus → Bool
is_terminal AttemptStatus.queued = false
is_terminal AttemptStatus.running = false
is_terminal _ = true
