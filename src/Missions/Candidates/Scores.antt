-- ===== src/Missions/Candidates/Scores.antt =====
-- The scores of valid candidates (src/lib/missions/candidates.ts).
use swarm_z.Base.{
  ℕ, ◌≡◌, refl, inl, inr, Bool, true, false, not, ◌||◌, List, [], ◌∷◌, map, length, All,
  add_num-finite, sub_num-finite, le_num-of_lt, le_num-of_finite, Number, finite, infinity,
  neg_infinity, nan, of_nat, is_finite, is_integer, le_num, eq_num, ltb, Text, text_eq, mem, Dict,
  get, put, Bool-cases, Option-cases, arith,
}
use swarm_z.Missions.Result.{
  Result, ok, ◌>>◌, throw_if, >>=-eq-ok, InvariantError, selection_error, invalid_weight,
}
use swarm_z.Missions.Validate.{is_outside}
use swarm_z.Missions.Candidates.{
  CandidateEvidence, CandidateAttempt, CandidateSelectionPolicy, CandidateAssessment, is_bad_name,
  validate_evidence, validate_all_evidence, validate_candidate, index_candidates, add_score,
  score_from, assess, compare_with_policy,
}

throw_if-ok : (b : Bool) (e : InvariantError) {v : Unit {0}} → throw_if b e ≡ ok v → b ≡ false
throw_if-ok false e h = refl
throw_if-ok true e h = cc

-- The guard before a statement, of a run that did not throw.
guard {κ} :
    {W : Type κ} (b : Bool) (e : InvariantError) (rest : Result W) {w : W}
    → throw_if b e >> rest ≡ ok w
    → (b ≡ false) × (rest ≡ ok w)
guard false e rest h = (refl, h)
guard true e rest h = cc

abbrev HasFiniteWeight : CandidateEvidence → Type 0
HasFiniteWeight e = is_finite e.weight ≡ true

is_outside-finite : (n : Number) (low high : ℕ) → is_outside n low high ≡ false → is_finite n ≡ true
unfolding is_outside is_integer is_finite
is_outside-finite (finite k) low high h = refl
is_outside-finite infinity low high h = cc
is_outside-finite neg_infinity low high h = cc
is_outside-finite nan low high h = cc

validate_evidence-finite :
    (candidate : Text) (ids : List Text) (e : CandidateEvidence) {v : Unit {0}}
    → validate_evidence candidate ids e ≡ ok v
    → HasFiniteWeight e
unfolding validate_evidence
validate_evidence-finite candidate ids e ran =
    let named = guard (is_bad_name 120 e.id || mem e.id ids) _ _ ran in
    let labelled = guard (is_bad_name 300 e.label) _ _ named.1 in
    is_outside-finite e.weight 1 100
      (guard (is_outside e.weight 1 100) (selection_error (invalid_weight e.id)) _ labelled.1).0

validate_all_evidence-finite :
    (candidate : Text) (ids : List Text) (es : List CandidateEvidence) {v : Unit {0}}
    → validate_all_evidence candidate ids es ≡ ok v
    → All HasFiniteWeight es
unfolding validate_all_evidence
validate_all_evidence-finite candidate ids [] ran = tt
validate_all_evidence-finite candidate ids (e ∷ es) ran =
    let (done, first, rest) = >>=-eq-ok (validate_evidence candidate ids e) _ ran in
    (
      validate_evidence-finite candidate ids e first,
      validate_all_evidence-finite candidate (e.id ∷ ids) es rest,
    )

abbrev pub HasFiniteWeights : CandidateAttempt → Type 0
HasFiniteWeights c = All HasFiniteWeight c.evidence

validate_candidate-finite :
    (c : CandidateAttempt) {v : Unit {0}} → validate_candidate c ≡ ok v → HasFiniteWeights c
unfolding validate_candidate
validate_candidate-finite c ran =
    let attempt = guard (is_bad_name 120 c.attempt_id) _ _ ran in
    let task = guard (is_bad_name 120 c.task_id) _ _ attempt.1 in
    let count = guard (ltb 64 (length c.evidence)) _ _ task.1 in
    let (done, valid, rest) =
      >>=-eq-ok (validate_all_evidence c.attempt_id [] c.evidence) _ count.1 in
    validate_all_evidence-finite c.attempt_id [] c.evidence valid

pub index_candidates-finite :
    (task_id : Text) (index : Dict CandidateAttempt) (cs : List CandidateAttempt)
    (by_id : Dict CandidateAttempt)
    → index_candidates task_id index cs ≡ ok by_id
    → All HasFiniteWeights cs
unfolding index_candidates
index_candidates-finite task_id index [] by_id ran = tt
index_candidates-finite task_id index (c ∷ cs) by_id ran =
    let (done, valid, rest) = >>=-eq-ok (validate_candidate c) _ ran in
    let same = guard (not (text_eq c.task_id task_id)) _ _ rest in
    elim (Option-cases (get index c.attempt_id)) [
      | inl e ↦ (
        validate_candidate-finite c valid,
        index_candidates-finite task_id (put index c.attempt_id c) cs by_id
            (ground (arith, e, same.1)),
      )
      | inr (found, e) ↦ absurd (ground (arith, e, same.1))
    ]

add_score-finite :
    (sum : Number) (e : CandidateEvidence)
    → is_finite sum ≡ true
    → HasFiniteWeight e
    → is_finite (add_score sum e) ≡ true
unfolding add_score
add_score-finite sum e h k =
    ground (arith, add_num-finite sum e.weight, sub_num-finite sum e.weight)

score_from-finite :
    (sum : Number) (es : List CandidateEvidence)
    → is_finite sum ≡ true
    → All HasFiniteWeight es
    → is_finite (score_from sum es) ≡ true
unfolding score_from
score_from-finite sum [] h k = h
score_from-finite sum (e ∷ es) h (hw, k) =
    score_from-finite (add_score sum e) es (add_score-finite sum e h hw) k

-- The score is finite.
abbrev pub HasScore : CandidateAssessment → Type 0
HasScore a = is_finite a.score ≡ true

pub assess-HasScore :
    (policy : CandidateSelectionPolicy) (cs : List CandidateAttempt)
    → All HasFiniteWeights cs
    → All HasScore (map (assess policy) cs)
unfolding assess is_finite of_nat
assess-HasScore policy [] h = tt
assess-HasScore policy (c ∷ cs) (hc, h) =
    (score_from-finite (of_nat 0) c.evidence refl hc, assess-HasScore policy cs h)

-- The score is at least the other's.
abbrev pub ScoresOver : CandidateAssessment → CandidateAssessment → Type 0
ScoresOver a b = le_num b.score a.score ≡ true

module _ (compare : Text → Text → Bool) (index : Dict CandidateAttempt)
    (policy : CandidateSelectionPolicy) where
  pub compare_with_policy-first :
      (a b : CandidateAssessment)
      → compare_with_policy compare index policy a b ≡ true
      → ScoresOver a b
  unfolding compare_with_policy eq_num
  compare_with_policy-first a b h = elim (Bool-cases (eq_num a.score b.score)) [
    | inl e ↦ ground (arith, e)
    | inr e ↦ le_num-of_lt b.score a.score (ground (arith, e))
  ]

  pub compare_with_policy-second :
      (a b : CandidateAssessment)
      → HasScore a
      → HasScore b
      → compare_with_policy compare index policy b a ≡ false
      → ScoresOver a b
  unfolding compare_with_policy eq_num
  compare_with_policy-second a b ha hb h = elim (Bool-cases (eq_num b.score a.score)) [
    | inl e ↦ ground (arith, e)
    | inr e ↦ le_num-of_finite a.score b.score ha hb (ground (arith, e))
  ]
