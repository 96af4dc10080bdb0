-- ===== src/Missions/Handlers/Gate.antt =====
-- The events of a quality gate (src/lib/missions/core.ts).
use swarm_z.Base.{
  Bool, true, not, ◌||◌, Option, none, some, is_some, [], ◌∷◌, ◌++◌, any, Text, text_eq, truthy,
  get, or_else,
}
use swarm_z.Missions.Types.{
  QualityGate, QualityGateStatus, MissionProjection, MissionEvent, QualityGateInput, GateResult,
  GateResultedPayload,
}
use swarm_z.Missions.Result.{
  Label, Result, ok, ◌>>=◌, ◌>>◌, throw_if, invalid_gate, gate_task_unknown, gate_unknown,
  gate_artifact_unknown,
}
use swarm_z.Missions.Validate.{assert_id}
use swarm_z.Missions.Handlers.Common.{put_task, put_gate, own, own_task}

-- The gate is listed by its task, where the task's id is not the empty string.
unfoldable pub list_gate :
    MissionEvent → MissionProjection → Text → Option Text → Result MissionProjection
list_gate event state gate_id none = ok state
list_gate event state gate_id (some id) = do
  task ← own_task state event id gate_task_unknown
  ok (
      put_task state task.id
        (record task { quality_gate_ids = task.quality_gate_ids ++ gate_id ∷ [] }))

unfoldable pub new_gate : QualityGateInput → QualityGate
new_gate gate = record {
  id = gate.id;
  mission_id = gate.mission_id;
  task_id = gate.task_id;
  kind = gate.kind;
  label = gate.label;
  command = gate.command;
  required = gate.required;
  status = QualityGateStatus.pending;
  details = none;
  artifact_ids = [];
  created_at = gate.created_at;
  updated_at = gate.created_at;
}

unfoldable pub add_gate :
    MissionEvent → MissionProjection → QualityGateInput → Result MissionProjection
add_gate event state gate = do
  assert_id Label.quality_gate_id gate.id
  throw_if
      (not (text_eq gate.mission_id event.mission_id) || is_some (get state.quality_gates gate.id))
      invalid_gate
  listed ← list_gate event state gate.id (truthy gate.task_id)
  ok (put_gate listed (new_gate gate))

-- The artifact is not one of the mission's.
unfoldable pub is_artifact_foreign : MissionProjection → MissionEvent → Text → Bool
is_artifact_foreign state event id = elim (get state.artifacts id) [
  | none ↦ true
  | some artifact ↦ not (text_eq artifact.mission_id event.mission_id)
]

unfoldable pub result_status : GateResult → QualityGateStatus
result_status GateResult.passed = QualityGateStatus.passed
result_status GateResult.failed = QualityGateStatus.failed
result_status GateResult.waived = QualityGateStatus.waived

unfoldable pub record_gate_result :
    MissionEvent → MissionProjection → GateResultedPayload → Result MissionProjection
record_gate_result event state input = do
  gate ← own (λ g. g.mission_id) state.quality_gates event.mission_id input.gate_id gate_unknown
  throw_if (any (is_artifact_foreign state event) (or_else input.artifact_ids []))
      gate_artifact_unknown
  ok (
      put_gate state (record gate {
        status = result_status input.status;
        details = input.details;
        artifact_ids = or_else input.artifact_ids [];
        updated_at = input.updated_at;
      }))
