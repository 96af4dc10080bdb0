-- ===== src/Missions/Candidates/Evidence.antt =====
-- The evidence of candidate attempts, from the artifacts of a projection
-- (src/lib/missions/candidates.ts).
use swarm_z.Base.{
  Bool, true, false, not, ◌&&◌, ◌||◌, Option, none, some, List, [], ◌∷◌, ◌++◌, any, select, find,
  filter_map, if◌then◌else◌, Number, of_nat, eq_num, sub_num, max_num, floor_num, Text, codes,
  text_eq, Dict, get, values,
}
use swarm_z.Missions.Types.{
  AttemptStatus, TaskAttempt, Json, CandidateBatch, ArtifactKind, MissionArtifact,
  MissionProjection,
}
use swarm_z.Missions.Result.{Result, ok, err, ◌>>=◌, selection_error, candidate_missing}
use swarm_z.Missions.Candidates.{
  CandidateEvidenceStatus, passed, failed, missing, CandidateEvidenceKind, test, review, custom,
  CandidateEvidence, CandidateTerminalStatus, CandidateAttempt, CandidateSelectionPolicy,
  TieBreaker, CandidateSelection, is_missing, select_candidate_attempt,
}

-- `x === s`, for a field of the metadata.
unfoldable pub is_text : Dict Json → Text → Text → Bool
is_text metadata key s = elim (get metadata key) [ some (Json.text t) ↦ text_eq t s | _ ↦ false ]

-- The artifacts that the application recorded itself.
unfoldable pub is_native : MissionArtifact → Bool
is_native artifact = is_text artifact.metadata (codes "authority") (codes "swarmz_native")

unfoldable pub is_review : MissionArtifact → Bool
is_review artifact = is_text artifact.metadata (codes "evidenceKind") (codes "review")

unfoldable pub kind_weight : ArtifactKind → Option Number
kind_weight ArtifactKind.commit = some (of_nat 50)
kind_weight ArtifactKind.test_result = some (of_nat 45)
kind_weight ArtifactKind.report = some (of_nat 25)
kind_weight ArtifactKind.diff = some (of_nat 20)
kind_weight ArtifactKind.pull_request = some (of_nat 15)
kind_weight _ = none

unfoldable pub evidence_weight : MissionArtifact → Option Number
evidence_weight artifact =
    if is_review artifact then some (of_nat 40) else kind_weight artifact.kind

unfoldable pub as_number : Option Json → Option Number
as_number (some (Json.number n)) = some n
as_number _ = none

unfoldable pub or_number : Option Number → Option Number → Option Number
or_number (some n) other = some n
or_number none other = other

unfoldable pub exit_code : MissionArtifact → Option Number
exit_code artifact =
    or_number (as_number (get artifact.metadata (codes "exitCode")))
      (as_number (get artifact.metadata (codes "exit_code")))

unfoldable pub is_zero_exit : Option Number → Bool
is_zero_exit none = false
is_zero_exit (some n) = eq_num n (of_nat 0)

unfoldable pub is_failed_exit : Option Number → Bool
is_failed_exit none = false
is_failed_exit (some n) = not (eq_num n (of_nat 0))

-- `kind === "commit" || kind === "diff" || kind === "pull_request"`.
unfoldable pub is_change : ArtifactKind → Bool
is_change ArtifactKind.commit = true
is_change ArtifactKind.diff = true
is_change ArtifactKind.pull_request = true
is_change _ = false

unfoldable pub is_commit : ArtifactKind → Bool
is_commit ArtifactKind.commit = true
is_commit _ = false

unfoldable pub evidence_kind : MissionArtifact → CandidateEvidenceKind
evidence_kind artifact =
    if is_review artifact
    then review
    else elim artifact.kind [ ArtifactKind.test_result ↦ test | _ ↦ custom ]

unfoldable pub is_artifact_of_attempt : Text → MissionArtifact → Bool
is_artifact_of_attempt attempt_id artifact = elim artifact.attempt_id [
  | none ↦ false
  | some id ↦ text_eq id attempt_id
]

-- The attempt's artifacts of the task.
unfoldable pub is_artifact_of : Text → Text → MissionArtifact → Bool
is_artifact_of task_id attempt_id artifact =
    is_artifact_of_attempt attempt_id artifact
    && elim artifact.task_id [ none ↦ false | some id ↦ text_eq id task_id ]

unfoldable pub is_usage_of : Text → MissionArtifact → Bool
is_usage_of attempt_id artifact =
    is_artifact_of_attempt attempt_id artifact
    && text_eq artifact.label (codes "mission-usage")
    && is_native artifact

unfoldable pub tokens_of : Option MissionArtifact → Option Number
tokens_of none = none
tokens_of (some usage) = elim (as_number (get usage.metadata (codes "tokens"))) [
  | none ↦ none
  | some n ↦ some (max_num (of_nat 0) (floor_num n))
]

unfoldable pub duration_of : TaskAttempt → Option Number
duration_of attempt = elim attempt.started_at [
  | none ↦ none
  | some started ↦ elim attempt.finished_at [
    | none ↦ none
    | some finished ↦ some (max_num (of_nat 0) (sub_num finished started))
  ]
]

unfoldable pub terminal_candidate_status : TaskAttempt → CandidateTerminalStatus
terminal_candidate_status attempt = elim attempt.status [
  | AttemptStatus.succeeded ↦ CandidateTerminalStatus.succeeded
  | AttemptStatus.failed ↦ CandidateTerminalStatus.failed
  | AttemptStatus.cancelled ↦ CandidateTerminalStatus.cancelled
  | _ ↦ CandidateTerminalStatus.blocked
]

-- The record that stands for a commit that is not there.
unfoldable pub missing_commit : TaskAttempt → CandidateEvidence
missing_commit attempt = record {
  id = codes "missing-commit-" ++ attempt.id;
  label = codes "Verified attempt commit";
  kind = custom;
  status = missing;
  required = true;
  weight = of_nat 50;
  artifact_id = none;
}

unfoldable pub with_commit : TaskAttempt → List CandidateEvidence → List CandidateEvidence
with_commit attempt evidence =
    if any (λ (e : CandidateEvidence). e.required) evidence
    then evidence
    else missing_commit attempt ∷ evidence

module _ (to_lower_case : Text → Text) where
  unfoldable pub is_raw_status : MissionArtifact → Text → Bool
  is_raw_status artifact s = elim (get artifact.metadata (codes "status")) [
    | some (Json.text t) ↦ text_eq (to_lower_case t) s
    | _ ↦ false
  ]

  unfoldable pub artifact_status : MissionArtifact → CandidateEvidenceStatus
  artifact_status artifact =
      if is_change artifact.kind
      then passed
      else if is_raw_status artifact (codes "passed")
          || is_raw_status artifact (codes "success")
          || is_zero_exit (exit_code artifact)
      then passed
      else if is_raw_status artifact (codes "failed")
          || is_raw_status artifact (codes "failure")
          || is_failed_exit (exit_code artifact)
      then failed
      else missing

  unfoldable pub artifact_evidence : MissionArtifact → Option CandidateEvidence
  artifact_evidence artifact =
      if is_native artifact
      then elim (evidence_weight artifact) [
        | none ↦ none
        | some weight ↦ some (record {
          id = artifact.id;
          label = artifact.label;
          kind = evidence_kind artifact;
          status = artifact_status artifact;
          required = is_commit artifact.kind;
          weight = weight;
          artifact_id = if is_missing (artifact_status artifact) then none else some artifact.id;
        })
      ]
      else none

  unfoldable pub candidate_of : List MissionArtifact → Text → TaskAttempt → CandidateAttempt
  candidate_of artifacts task_id attempt = record {
    attempt_id = attempt.id;
    task_id = task_id;
    terminal_status = terminal_candidate_status attempt;
    evidence =
        with_commit attempt
          (filter_map artifact_evidence (select (is_artifact_of task_id attempt.id) artifacts));
    tokens_used = tokens_of (find (is_usage_of attempt.id) artifacts);
    duration_ms = duration_of attempt;
  }

  unfoldable pub candidate_at :
      Dict TaskAttempt → List MissionArtifact → Text → Text → Result CandidateAttempt
  candidate_at attempts artifacts task_id id = elim (get attempts id) [
    | none ↦ err (selection_error (candidate_missing id))
    | some attempt ↦
        if text_eq attempt.task_id task_id
        then ok (candidate_of artifacts task_id attempt)
        else err (selection_error (candidate_missing id))
  ]

  unfoldable pub candidates_from :
      Dict TaskAttempt → List MissionArtifact → Text → List Text → Result (List CandidateAttempt)
  candidates_from attempts artifacts task_id [] = ok []
  candidates_from attempts artifacts task_id (id ∷ ids) = do
    candidate ← candidate_at attempts artifacts task_id id
    candidates ← candidates_from attempts artifacts task_id ids
    ok (candidate ∷ candidates)

  unfoldable pub candidates_for_batch :
      MissionProjection → CandidateBatch → Result (List CandidateAttempt)
  candidates_for_batch projection batch =
      candidates_from projection.attempts (values projection.artifacts) batch.task_id
        batch.attempt_ids

-- The call of the selector in src/lib/missions/core.ts.
unfoldable pub batch_policy : CandidateBatch → CandidateSelectionPolicy
batch_policy batch = record {
  minimum_evidence_count = batch.minimum_evidence_count;
  minimum_score_margin = batch.minimum_score_margin;
  tie_breakers = TieBreaker.lower_tokens ∷ TieBreaker.lower_duration ∷ TieBreaker.attempt_id ∷ [];
}

unfoldable pub select_for_batch :
    (Text → Text → Bool)
    → (Text → Text)
    → MissionProjection
    → CandidateBatch
    → Result CandidateSelection
select_for_batch compare to_lower_case state batch = do
  candidates ← candidates_for_batch to_lower_case state batch
  select_candidate_attempt compare candidates (batch_policy batch)
