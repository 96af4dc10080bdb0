-- ===== src/Missions/Handlers/Candidate.antt =====
-- The events of a candidate batch (src/lib/missions/core.ts).
use swarm_z.Base.{
  ℕ, Bool, true, false, not, ◌&&◌, ◌||◌, Option, none, some, is_some, List, [], ◌∷◌, ◌++◌, reverse,
  length, any, select, find, take, sort_by, if◌then◌else◌, Number, of_nat, is_finite, lt_num,
  eq_num, add_nat, Text, codes, text_eq, is_empty, mem, get, values,
}
use swarm_z.Missions.Types.{
  TaskStatus, TaskAttempt, Json, CandidateBatch, ArtifactKind, MissionArtifact, QualityGate,
  QualityGateStatus, EntryStatus, MissionProjection, MissionEvent, CandidateRequestedPayload,
}
use swarm_z.Missions.Result.{
  Label, Result, ok, err, ◌>>=◌, ◌>>◌, throw_if, need, candidates_need_human,
  candidate_task_unknown, batch_exists, invalid_candidate_count, candidate_budget_exceeded,
  batch_already_open, task_already_integrated, invalid_evidence_policy, choice_needs_human,
  batch_unknown, batch_not_terminal, choice_not_successful, choice_without_evidence,
  choice_not_evident, override_of_evident_choice, ill_typed,
}
use swarm_z.Missions.Validate.{assert_id, assert_string, is_outside}
use swarm_z.Missions.Derive.{is_succeeded}
use swarm_z.Missions.Candidates.{Decision}
use swarm_z.Missions.Candidates.Evidence.{is_text, is_artifact_of, select_for_batch}
use swarm_z.Missions.Handlers.Common.{
  Surroundings, put_task, put_batch, put_gate, own_task, is_human, is_running,
}

-- `["ready", "failed", "blocked", "needs_human", "succeeded"].includes(status)`.
unfoldable pub can_request : TaskStatus → Bool
can_request TaskStatus.ready = true
can_request TaskStatus.failed = true
can_request TaskStatus.blocked = true
can_request TaskStatus.needs_human = true
can_request TaskStatus.succeeded = true
can_request _ = false

-- `attempts + count > maxAttempts`, for a whole count from 2 to 8.
unfoldable pub exceeds : ℕ → Number → Number → Bool
exceeds attempts count max_attempts = lt_num max_attempts (add_nat count attempts)

unfoldable pub has_open_batch : MissionProjection → Text → Bool
has_open_batch state task_id =
    any (λ batch. text_eq batch.task_id task_id && not (is_some batch.selected_attempt_id))
      (values state.candidate_batches)

unfoldable pub is_entry_integrated : EntryStatus → Bool
is_entry_integrated EntryStatus.integrated = true
is_entry_integrated _ = false

unfoldable pub is_integrated : MissionProjection → Text → Text → Bool
is_integrated state mission_id task_id =
    any
      (λ train.
        text_eq train.mission_id mission_id
        && any (λ entry. text_eq entry.task_id task_id && is_entry_integrated entry.status)
            train.entries)
      (values state.integration_trains)

unfoldable pub is_evidence_policy_bad : CandidateRequestedPayload → Bool
is_evidence_policy_bad input =
    is_outside input.minimum_evidence_count 1 64
    || not (is_finite input.minimum_score_margin)
    || lt_num input.minimum_score_margin (of_nat 0)
    || lt_num (of_nat 10000) input.minimum_score_margin

unfoldable pub new_batch : CandidateRequestedPayload → CandidateBatch
new_batch input = record {
  id = input.id;
  mission_id = input.mission_id;
  task_id = input.task_id;
  count = input.count;
  instruction = input.instruction;
  minimum_evidence_count = input.minimum_evidence_count;
  minimum_score_margin = input.minimum_score_margin;
  attempt_ids = [];
  selected_attempt_id = none;
  requested_at = input.requested_at;
  selected_at = none;
}

unfoldable pub request_batch :
    MissionEvent → MissionProjection → CandidateRequestedPayload → Result MissionProjection
request_batch event state input = do
  throw_if (not (is_human event.actor)) candidates_need_human
  assert_id Label.candidate_batch_id input.id
  task ← own_task state event input.task_id candidate_task_unknown
  throw_if (is_some (get state.candidate_batches input.id)) batch_exists
  throw_if (is_outside input.count 2 8) invalid_candidate_count
  throw_if
      (not (can_request task.status)
        || exceeds (length task.attempt_ids) input.count task.max_attempts)
      candidate_budget_exceeded
  throw_if (has_open_batch state task.id) batch_already_open
  throw_if (is_integrated state event.mission_id task.id) task_already_integrated
  assert_string Label.candidate_instruction input.instruction 4000
  throw_if (is_evidence_policy_bad input) invalid_evidence_policy
  ok (put_batch state (new_batch input))

unfoldable pub is_test_result : ArtifactKind → Bool
is_test_result ArtifactKind.test_result = true
is_test_result _ = false

-- The artifact is native evidence for the gate.
unfoldable pub is_evidence_for : QualityGate → MissionArtifact → Bool
is_evidence_for gate artifact =
    is_text artifact.metadata (codes "authority") (codes "swarmz_native") && elim gate.command [
      | none ↦ is_text artifact.metadata (codes "evidenceKind") (codes "review")
      | some command ↦
          if is_empty command
          then is_text artifact.metadata (codes "evidenceKind") (codes "review")
          else is_test_result artifact.kind
            && is_text artifact.metadata (codes "evidenceKind") (codes "test")
            && is_text artifact.metadata (codes "command") command
    ]

unfoldable pub is_exit_zero : MissionArtifact → Bool
is_exit_zero artifact = elim (get artifact.metadata (codes "exitCode")) [
  | some (Json.number n) ↦ eq_num n (of_nat 0)
  | _ ↦ false
]

unfoldable pub is_exit_nonzero : MissionArtifact → Bool
is_exit_nonzero artifact = elim (get artifact.metadata (codes "exitCode")) [
  | some (Json.number n) ↦ not (eq_num n (of_nat 0))
  | _ ↦ false
]

module _ (env : Surroundings) where
  -- By `createdAt`, then by id.
  unfoldable pub is_earlier : MissionArtifact → MissionArtifact → Bool
  is_earlier left right =
      if lt_num left.created_at right.created_at
      then true
      else if lt_num right.created_at left.created_at
      then false
      else env.comes_before left.id right.id

  unfoldable pub selected_artifacts : MissionProjection → Text → Text → List MissionArtifact
  selected_artifacts state task_id attempt_id =
      sort_by is_earlier (select (is_artifact_of task_id attempt_id) (values state.artifacts))

  -- `raw === s`, for the status in lower case.
  unfoldable pub is_raw : MissionArtifact → Text → Bool
  is_raw artifact s = elim (get artifact.metadata (codes "status")) [
    | some (Json.text t) ↦ text_eq (env.to_lower_case t) s
    | _ ↦ false
  ]

  unfoldable pub evidence_status : MissionArtifact → QualityGateStatus
  evidence_status artifact =
      if is_raw artifact (codes "passed")
        || is_raw artifact (codes "success")
        || is_exit_zero artifact
      then QualityGateStatus.passed
      else if is_raw artifact (codes "failed")
          || is_raw artifact (codes "failure")
          || is_exit_nonzero artifact
      then QualityGateStatus.failed
      else QualityGateStatus.pending

  unfoldable pub evidence_details : MissionArtifact → Text
  evidence_details artifact = take 1000 (elim (get artifact.metadata (codes "detail")) [
    | none ↦ codes "Selected candidate evidence: " ++ artifact.label
    | some Json.null ↦ codes "Selected candidate evidence: " ++ artifact.label
    | some json ↦ env.to_text json
  ])

  -- The gate as the selected attempt's evidence has it.
  unfoldable pub rematerialize : QualityGate → Option MissionArtifact → Number → QualityGate
  rematerialize gate none selected_at = record gate {
    status = QualityGateStatus.pending;
    details = some (codes "Selected candidate has no matching native evidence for this gate");
    artifact_ids = [];
    updated_at = selected_at;
  }
  rematerialize gate (some artifact) selected_at = record gate {
    status = evidence_status artifact;
    details = some (evidence_details artifact);
    artifact_ids = artifact.id ∷ [];
    updated_at = selected_at;
  }

  unfoldable pub is_waived : QualityGateStatus → Bool
  is_waived QualityGateStatus.waived = true
  is_waived _ = false

  -- The loop over the task's gates.
  unfoldable pub rematerialize_all :
      List MissionArtifact → Number → List Text → MissionProjection → MissionProjection
  rematerialize_all artifacts selected_at [] state = state
  rematerialize_all artifacts selected_at (id ∷ ids) state =
      rematerialize_all artifacts selected_at ids (elim (get state.quality_gates id) [
        | none ↦ state
        | some gate ↦
            if is_waived gate.status
            then state
            else put_gate state
                (rematerialize gate (find (is_evidence_for gate) (reverse artifacts)) selected_at)
      ])

  -- "candidate_batch.selected" (no reason) and "candidate_batch.overridden".
  unfoldable pub assert_choice : Option Text → Decision → Text → Result (Unit {0})
  assert_choice none (Decision.selected id) attempt_id =
      throw_if (not (text_eq id attempt_id)) choice_not_evident
  assert_choice none _ attempt_id = err choice_not_evident
  assert_choice (some reason) (Decision.selected id) attempt_id = do
    assert_string Label.candidate_override_reason reason 1000
    err override_of_evident_choice
  assert_choice (some reason) _ attempt_id =
      assert_string Label.candidate_override_reason reason 1000

  unfoldable pub closable_batch : MissionEvent → MissionProjection → Text → Result CandidateBatch
  closable_batch event state batch_id = elim (get state.candidate_batches batch_id) [
    | none ↦ err batch_unknown
    | some batch ↦
        if not (text_eq batch.mission_id event.mission_id) || is_some batch.selected_attempt_id
        then err batch_unknown
        else if not (eq_num (of_nat (length batch.attempt_ids)) batch.count)
            || any (is_running state) batch.attempt_ids
        then err batch_not_terminal
        else ok batch
  ]

  unfoldable pub chosen_attempt : MissionProjection → CandidateBatch → Text → Result TaskAttempt
  chosen_attempt state batch attempt_id = elim (get state.attempts attempt_id) [
    | none ↦ err choice_not_successful
    | some attempt ↦
        if not (mem attempt.id batch.attempt_ids) || not (is_succeeded attempt.status)
        then err choice_not_successful
        else ok attempt
  ]

  unfoldable pub choose_candidate :
      MissionEvent
      → MissionProjection
      → (batch_id attempt_id : Text) → Option Text
      → Number
      → Result MissionProjection
  choose_candidate event state batch_id attempt_id reason selected_at = do
    throw_if (not (is_human event.actor)) choice_needs_human
    batch ← closable_batch event state batch_id
    attempt ← chosen_attempt state batch attempt_id
    throw_if (not (any (is_artifact_of batch.task_id attempt.id) (values state.artifacts)))
        choice_without_evidence
    selection ← select_for_batch env.comes_before env.to_lower_case state batch
    assert_choice reason selection.decision attempt.id
    task ← need (get state.tasks batch.task_id) ill_typed
    let closed =
        put_batch state
          (record batch { selected_attempt_id = some attempt.id; selected_at = some selected_at })
    let chosen =
        put_task closed batch.task_id (record task {
          selected_candidate_attempt_id = some attempt.id;
          updated_at = selected_at;
        })
    ok (
        rematerialize_all (selected_artifacts state batch.task_id attempt.id) selected_at
          task.quality_gate_ids chosen)
