-- ===== src/Missions/Candidates.antt =====
-- The selection among candidate attempts (src/lib/missions/candidates.ts). `compare` stands for
-- `localeCompare`: `compare a b` says that a comes before b.
pub mod Evidence
mod Authority
pub mod Ranking
mod Scores
mod Witnesses
use swarm_z.Base.{
  ℕ, ◌+◌, Bool, true, false, not, ◌&&◌, ◌||◌, Option, none, some, or_else, List, [], ◌∷◌, ◌++◌, map,
  length, select, first, find, sort_by, ltb, ◌==◌, if◌then◌else◌, Number, of_nat, is_finite,
  is_integer, lt_num, le_num, eq_num, add_num, sub_num, is_safe_natural, max_safe_integer, Text,
  text_eq, is_empty, is_blank, mem, Dict, get, put,
}
use swarm_z.Missions.Result.{
  Result, ok, err, ◌>>=◌, ◌>>◌, throw_if, selection_error, CandidateSelectionError,
  invalid_candidate_evidence_id, duplicate_candidate, invalid_evidence_label, invalid_weight,
  unobserved_artifact, invalid_evidence_artifact, too_few_or_many_candidates,
  invalid_minimum_evidence, invalid_minimum_margin, repeated_tie_breaker, invalid_candidate_attempt,
  invalid_candidate_task, too_much_evidence, invalid_tokens, invalid_duration, mixed_tasks,
}
use swarm_z.Missions.Validate.{is_outside}

pub data CandidateEvidenceStatus : Type 0 where
  passed failed missing : CandidateEvidenceStatus

pub data CandidateEvidenceKind : Type 0 where
  quality_gate test review benchmark custom : CandidateEvidenceKind

pub record CandidateEvidence : Type 0 where
  pub id : Text
  pub label : Text
  pub kind : CandidateEvidenceKind
  pub status : CandidateEvidenceStatus
  pub required : Bool
  pub weight : Number
  pub artifact_id : Option Text

pub data CandidateTerminalStatus : Type 0 where
  succeeded failed blocked cancelled : CandidateTerminalStatus

pub record CandidateAttempt : Type 0 where
  pub attempt_id : Text
  pub task_id : Text
  pub terminal_status : CandidateTerminalStatus
  pub evidence : List CandidateEvidence
  pub tokens_used : Option Number
  pub duration_ms : Option Number

pub data TieBreaker : Type 0 where
  lower_tokens lower_duration attempt_id : TieBreaker

pub record CandidateSelectionPolicy : Type 0 where
  pub minimum_evidence_count : Number
  pub minimum_score_margin : Number
  pub tie_breakers : List TieBreaker

-- The texts of `blockers`.
pub data CandidateBlocker : Type 0 where
  attempt_is : CandidateTerminalStatus → CandidateBlocker
  fewer_observed : (minimum : Number) → CandidateBlocker
  evidence_is : (label : Text) → CandidateEvidenceStatus → CandidateBlocker

pub record CandidateAssessment : Type 0 where
  pub attempt_id : Text
  pub eligible : Bool
  pub score : Number
  pub passed_evidence : ℕ
  pub blockers : List CandidateBlocker

-- `decision` with `selectedAttemptId`, which is null but for a selection.
pub data Decision : Type 0 where
  selected : (attempt_id : Text) → Decision
  indeterminate no_eligible_candidate : Decision

pub record CandidateSelection : Type 0 where
  pub task_id : Text
  pub decision : Decision
  pub assessments : List CandidateAssessment

unfoldable pub is_passed : CandidateEvidenceStatus → Bool
is_passed CandidateEvidenceStatus.passed = true
is_passed _ = false

unfoldable pub is_missing : CandidateEvidenceStatus → Bool
is_missing CandidateEvidenceStatus.missing = true
is_missing _ = false

unfoldable pub is_success : CandidateTerminalStatus → Bool
is_success CandidateTerminalStatus.succeeded = true
is_success _ = false

-- `throw new CandidateSelectionError(...)` under a test.
abbrev pub refuse_if : Bool → CandidateSelectionError → Result (Unit {0})
refuse_if bad e = throw_if bad (selection_error e)

-- `!id.trim() || id.length > limit`.
unfoldable pub is_bad_name : ℕ → Text → Bool
is_bad_name limit name = is_blank name || ltb limit (length name)

-- `!evidence.artifactId`.
unfoldable pub has_no_artifact : Option Text → Bool
has_no_artifact none = true
has_no_artifact (some id) = is_empty id

unfoldable pub is_bad_artifact : Option Text → Bool
is_bad_artifact none = false
is_bad_artifact (some id) = is_bad_name 240 id

unfoldable pub validate_evidence : Text → List Text → CandidateEvidence → Result (Unit {0})
validate_evidence candidate ids evidence = do
  refuse_if (is_bad_name 120 evidence.id || mem evidence.id ids)
      (invalid_candidate_evidence_id candidate)
  refuse_if (is_bad_name 300 evidence.label) (invalid_evidence_label candidate)
  refuse_if (is_outside evidence.weight 1 100) (invalid_weight evidence.id)
  refuse_if (not (is_missing evidence.status) && has_no_artifact evidence.artifact_id)
      (unobserved_artifact evidence.id)
  refuse_if (is_bad_artifact evidence.artifact_id) (invalid_evidence_artifact evidence.id)

-- The loop over the evidence, with the set of ids.
unfoldable pub validate_all_evidence : Text → List Text → List CandidateEvidence → Result (Unit {0})
validate_all_evidence candidate ids [] = ok tt
validate_all_evidence candidate ids (e ∷ es) =
    validate_evidence candidate ids e >> validate_all_evidence candidate (e.id ∷ ids) es

unfoldable pub is_bad_amount : Option Number → Bool
is_bad_amount none = false
is_bad_amount (some n) = not (is_safe_natural n)

unfoldable pub validate_candidate : CandidateAttempt → Result (Unit {0})
validate_candidate candidate = do
  refuse_if (is_bad_name 120 candidate.attempt_id) invalid_candidate_attempt
  refuse_if (is_bad_name 120 candidate.task_id) invalid_candidate_task
  refuse_if (ltb 64 (length candidate.evidence)) too_much_evidence
  validate_all_evidence candidate.attempt_id [] candidate.evidence
  refuse_if (is_bad_amount candidate.tokens_used) invalid_tokens
  refuse_if (is_bad_amount candidate.duration_ms) invalid_duration

unfoldable pub observed_evidence : List CandidateEvidence → ℕ
observed_evidence evidence =
    length (select (λ (e : CandidateEvidence). not (is_missing e.status)) evidence)

-- The blockers of the evidence that is required and has not passed.
unfoldable pub evidence_blockers : List CandidateEvidence → List CandidateBlocker
evidence_blockers [] = []
evidence_blockers (e ∷ es) =
    let rest = evidence_blockers es in
    if e.required && not (is_passed e.status) then evidence_is e.label e.status ∷ rest else rest

unfoldable pub status_blockers : CandidateTerminalStatus → List CandidateBlocker
status_blockers status = if is_success status then [] else attempt_is status ∷ []

unfoldable pub count_blockers :
    List CandidateEvidence → CandidateSelectionPolicy → List CandidateBlocker
count_blockers evidence policy =
    if lt_num (of_nat (observed_evidence evidence)) policy.minimum_evidence_count
    then fewer_observed policy.minimum_evidence_count ∷ []
    else []

-- `sum + weight`, `sum - weight` or `sum`.
unfoldable pub add_score : Number → CandidateEvidence → Number
add_score sum evidence = elim evidence.status [
  | CandidateEvidenceStatus.passed ↦ add_num sum evidence.weight
  | CandidateEvidenceStatus.failed ↦ sub_num sum evidence.weight
  | CandidateEvidenceStatus.missing ↦ sum
]

unfoldable pub score_from : Number → List CandidateEvidence → Number
score_from sum [] = sum
score_from sum (e ∷ es) = score_from (add_score sum e) es

unfoldable pub has_none : List CandidateBlocker → Bool
has_none [] = true
has_none (b ∷ bs) = false

unfoldable pub assess : CandidateSelectionPolicy → CandidateAttempt → CandidateAssessment
assess policy candidate =
    let blockers =
      status_blockers candidate.terminal_status
      ++ (count_blockers candidate.evidence policy ++ evidence_blockers candidate.evidence) in
    record {
      attempt_id = candidate.attempt_id;
      eligible = has_none blockers;
      score = score_from (of_nat 0) candidate.evidence;
      passed_evidence =
          length (select (λ (e : CandidateEvidence). is_passed e.status) candidate.evidence);
      blockers = blockers;
    }

unfoldable pub is_same_tie_breaker : TieBreaker → TieBreaker → Bool
is_same_tie_breaker TieBreaker.lower_tokens TieBreaker.lower_tokens = true
is_same_tie_breaker TieBreaker.lower_duration TieBreaker.lower_duration = true
is_same_tie_breaker TieBreaker.attempt_id TieBreaker.attempt_id = true
is_same_tie_breaker _ _ = false

-- `new Set(items).size !== items.length`.
unfoldable pub has_repeated : List TieBreaker → Bool
has_repeated [] = false
has_repeated (t ∷ ts) =
    let rest = has_repeated ts in
    elim (find (is_same_tie_breaker t) ts) [ some found ↦ true | none ↦ rest ]

-- `value ?? Number.MAX_SAFE_INTEGER`, of a candidate of the id.
unfoldable pub amount_of :
    (CandidateAttempt → Option Number) → Dict CandidateAttempt → Text → Number
amount_of amount candidates id = elim (get candidates id) [
  | none ↦ of_nat max_safe_integer
  | some candidate ↦ or_else (amount candidate) (of_nat max_safe_integer)
]

-- The loop over the candidates after the first check: valid, of one task, with different ids.
unfoldable pub index_candidates :
    Text → Dict CandidateAttempt → List CandidateAttempt → Result (Dict CandidateAttempt)
index_candidates task_id index [] = ok index
index_candidates task_id index (c ∷ cs) = do
  validate_candidate c
  refuse_if (not (text_eq c.task_id task_id)) mixed_tasks
  elim (get index c.attempt_id) [
    | some found ↦ err (selection_error (duplicate_candidate c.attempt_id))
    | none ↦ index_candidates task_id (put index c.attempt_id c) cs
  ]

unfoldable pub validate_policy :
    List CandidateAttempt → CandidateSelectionPolicy → Result (Unit {0})
validate_policy candidates policy = do
  refuse_if (ltb (length candidates) 2 || ltb 8 (length candidates)) too_few_or_many_candidates
  refuse_if (is_outside policy.minimum_evidence_count 1 64) invalid_minimum_evidence
  refuse_if
      (not (is_finite policy.minimum_score_margin)
        || lt_num policy.minimum_score_margin (of_nat 0)
        || lt_num (of_nat 10000) policy.minimum_score_margin)
      invalid_minimum_margin
  refuse_if (has_repeated policy.tie_breakers) repeated_tie_breaker

-- The decision on the ranked assessments that are eligible.
unfoldable pub decide : CandidateSelectionPolicy → List CandidateAssessment → Decision
decide policy [] = no_eligible_candidate
decide policy (best ∷ []) = selected best.attempt_id
decide policy (best ∷ second ∷ rest) =
    if lt_num (sub_num best.score second.score) policy.minimum_score_margin
    then indeterminate
    else selected best.attempt_id

module _ (compare : Text → Text → Bool) where
  -- The tie breakers in turn, and the attempt's id at last: whether the left one comes first.
  unfoldable pub break_tie : Dict CandidateAttempt → Text → Text → List TieBreaker → Bool
  break_tie candidates left right [] = compare left right
  break_tie candidates left right (t ∷ ts) =
      let rest = break_tie candidates left right ts in
      let by_amount =
        λ (a b : Number). if lt_num a b then true else if eq_num a b then rest else false in
      elim t [
        | TieBreaker.lower_tokens ↦
            by_amount (amount_of (λ c. c.tokens_used) candidates left)
              (amount_of (λ c. c.tokens_used) candidates right)
        | TieBreaker.lower_duration ↦
            by_amount (amount_of (λ c. c.duration_ms) candidates left)
              (amount_of (λ c. c.duration_ms) candidates right)
        | TieBreaker.attempt_id ↦
            if compare left right then true else if compare right left then false else rest
      ]

  -- `compareWithPolicy(left, right, candidates, policy) < 0`.
  unfoldable pub compare_with_policy :
      Dict CandidateAttempt
      → CandidateSelectionPolicy
      → CandidateAssessment
      → CandidateAssessment
      → Bool
  compare_with_policy candidates policy left right =
      if not (eq_num left.score right.score)
      then lt_num right.score left.score
      else if not (left.passed_evidence == right.passed_evidence)
      then ltb right.passed_evidence left.passed_evidence
      else break_tie candidates left.attempt_id right.attempt_id policy.tie_breakers

  -- The eligible assessments, the best first.
  unfoldable pub rank_eligible :
      Dict CandidateAttempt
      → CandidateSelectionPolicy
      → List CandidateAssessment
      → List CandidateAssessment
  rank_eligible candidates policy assessments =
      sort_by (compare_with_policy candidates policy)
        (select (λ (a : CandidateAssessment). a.eligible) assessments)

  unfoldable pub select_among :
      CandidateAttempt
      → List CandidateAttempt
      → CandidateSelectionPolicy
      → Result CandidateSelection
  select_among head candidates policy = do
    validate_candidate head
    by_id ← index_candidates head.task_id [] candidates
    let assessments = map (assess policy) candidates
    ok (record {
      task_id = head.task_id;
      decision = decide policy (rank_eligible by_id policy assessments);
      assessments = assessments;
    })

  unfoldable pub select_candidate_attempt :
      List CandidateAttempt → CandidateSelectionPolicy → Result CandidateSelection
  select_candidate_attempt candidates policy =
      validate_policy candidates policy >> elim candidates [
        | [] ↦ err (selection_error too_few_or_many_candidates)
        | head ∷ rest ↦ select_among head (head ∷ rest) policy
      ]
