-- ===== src/Missions/Candidates/Witnesses.antt =====
-- Small candidate batches, and the theorems about the selection at them.
use swarm_z.Base.{
  ◌≡◌, refl, true, false, none, some, List, [], ◌∷◌, map, of_nat, Text, codes, put, library,
}
use swarm_z.Missions.Types.{ArtifactKind, MissionArtifact, CandidateBatch, Json}
use swarm_z.Missions.Result.{ok, err, selection_error, too_few_or_many_candidates}
use swarm_z.Missions.Validate.{validation}
use swarm_z.Missions.Candidates
use swarm_z.Missions.Candidates.{
  CandidateEvidenceStatus, CandidateEvidenceKind, CandidateEvidence, CandidateTerminalStatus,
  CandidateAttempt, CandidateSelectionPolicy, TieBreaker, Decision, selected, indeterminate,
  no_eligible_candidate, CandidateSelection, assess, select_candidate_attempt,
}
use swarm_z.Missions.Candidates.Evidence
use swarm_z.Missions.Candidates.Evidence.{select_for_batch, is_native}
use swarm_z.Missions.Candidates.Ranking.{IsBest, select_candidate_attempt_sound}
use swarm_z.Missions.Candidates.Authority.{select_for_batch-put_foreign}
use swarm_z.Missions.Samples.{comes_before, program, log, after, m1}

-- What a run of the selection computes with.
unfoldable selection : Unit {0}
unfolding library validation comes_before Candidates.is_passed Candidates.is_missing
    Candidates.is_success Candidates.is_bad_name Candidates.has_no_artifact
    Candidates.is_bad_artifact Candidates.validate_evidence Candidates.validate_all_evidence
    Candidates.is_bad_amount Candidates.validate_candidate Candidates.observed_evidence
    Candidates.evidence_blockers Candidates.status_blockers Candidates.count_blockers
    Candidates.add_score Candidates.score_from Candidates.has_none Candidates.assess
    Candidates.is_same_tie_breaker Candidates.has_repeated Candidates.amount_of
    Candidates.index_candidates Candidates.validate_policy Candidates.decide Candidates.break_tie
    Candidates.compare_with_policy Candidates.rank_eligible Candidates.select_among
    Candidates.select_candidate_attempt
selection = tt

abbrev commit : Text → CandidateEvidence
commit id = record {
  id = id;
  label = codes "Commit";
  kind = CandidateEvidenceKind.custom;
  status = CandidateEvidenceStatus.passed;
  required = true;
  weight = of_nat 50;
  artifact_id = some id;
}

abbrev broken_test : CandidateEvidence
broken_test = record {
  id = codes "t";
  label = codes "Tests";
  kind = CandidateEvidenceKind.test;
  status = CandidateEvidenceStatus.failed;
  required = false;
  weight = of_nat 45;
  artifact_id = some (codes "t");
}

abbrev attempt_with : Text → List CandidateEvidence → CandidateAttempt
attempt_with id evidence = record {
  attempt_id = id;
  task_id = codes "t1";
  terminal_status = CandidateTerminalStatus.succeeded;
  evidence = evidence;
  tokens_used = some (of_nat 100);
  duration_ms = none;
}

abbrev two_attempts : List CandidateAttempt
two_attempts =
    attempt_with (codes "a1") (commit (codes "c1") ∷ broken_test ∷ [])
    ∷ attempt_with (codes "a2") (commit (codes "c2") ∷ [])
    ∷ []

abbrev policy : CandidateSelectionPolicy
policy = record {
  minimum_evidence_count = of_nat 1;
  minimum_score_margin = of_nat 10;
  tie_breakers = TieBreaker.lower_tokens ∷ TieBreaker.attempt_id ∷ [];
}

abbrev choice : CandidateSelection
choice = record {
  task_id = codes "t1";
  decision = selected (codes "a2");
  assessments = map (assess policy) two_attempts;
}

two_attempts-decision : select_candidate_attempt comes_before two_attempts policy ≡ ok choice
unfolding selection
two_attempts-decision = refl

-- Attempts with the same evidence are too close.
equal_attempts-decision :
    select_candidate_attempt comes_before
      (attempt_with (codes "a1") (commit (codes "c1") ∷ [])
        ∷ attempt_with (codes "a2") (commit (codes "c2") ∷ [])
        ∷ [])
      policy
    ≡ ok (record {
      task_id = codes "t1";
      decision = indeterminate;
      assessments = map (assess policy) (
          attempt_with (codes "a1") (commit (codes "c1") ∷ [])
          ∷ attempt_with (codes "a2") (commit (codes "c2") ∷ [])
          ∷ []);
    })
unfolding selection
equal_attempts-decision = refl

one_attempt-decision :
    select_candidate_attempt comes_before (attempt_with (codes "a1") [] ∷ []) policy
    ≡ err (selection_error too_few_or_many_candidates)
unfolding selection
one_attempt-decision = refl

select_candidate_attempt_sound_example : IsBest policy two_attempts (codes "a2")
unfolding selection
select_candidate_attempt_sound_example =
    select_candidate_attempt_sound comes_before two_attempts policy choice (codes "a2") refl refl

abbrev claim : MissionArtifact
claim = record {
  id = codes "x";
  mission_id = m1;
  task_id = some (codes "t1");
  attempt_id = some (codes "a1");
  kind = ArtifactKind.commit;
  label = codes "Commit";
  uri = none;
  metadata = (codes "authority", Json.text (codes "worker")) ∷ [];
  created_at = of_nat 6;
}

abbrev batch : CandidateBatch
batch = record {
  id = codes "b1";
  mission_id = m1;
  task_id = codes "t1";
  count = of_nat 2;
  instruction = codes "Try";
  minimum_evidence_count = of_nat 1;
  minimum_score_margin = of_nat 10;
  attempt_ids = codes "a1" ∷ codes "a1" ∷ [];
  selected_attempt_id = none;
  requested_at = of_nat 5;
  selected_at = none;
}

select_for_batch-put_foreign_example :
    select_for_batch comes_before
      (λ s. s)
      (record (after log) { artifacts = put (after log).artifacts (codes "x") claim })
      batch
    ≡ select_for_batch comes_before (λ s. s) (after log) batch
unfolding program after Evidence.is_native Evidence.is_text
select_for_batch-put_foreign_example =
    select_for_batch-put_foreign comes_before (λ s. s) (after log) batch (codes "x") claim refl refl
