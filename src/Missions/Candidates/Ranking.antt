-- ===== src/Missions/Candidates/Ranking.antt =====
-- What a selected candidate attempt is (src/lib/missions/candidates.ts).
use mathlib.Core.List.{Mem}
use swarm_z.Missions.Candidates.Scores.{
  HasFiniteWeights, HasScore, ScoresOver, index_candidates-finite, assess-HasScore,
  compare_with_policy-first, compare_with_policy-second,
}
use swarm_z.Base.{
  IsOrdered, sort_by-IsOrdered, sort_by-All, All-both, All-Mem, sub_num-le, le_num_trans, ◌≡◌, refl,
  sym, ◌∙◌, subst, ◌⊎◌, inl, inr, Bool, true, false, not, ◌&&◌, List, [], ◌∷◌, ◌++◌, map, All,
  All-select, All-sort_by, All-mono, select, sort_by, of_nat, lt_num, sub_num, if◌then◌else◌, Text,
  Dict, Bool-cases, arith,
}
use swarm_z.Missions.Result.{Result, ok, >>=-eq-ok}
use swarm_z.Missions.Candidates.{
  CandidateEvidence, CandidateAttempt, CandidateSelectionPolicy, CandidateBlocker,
  CandidateAssessment, selected, CandidateSelection, is_passed, is_success, observed_evidence,
  evidence_blockers, status_blockers, count_blockers, has_none, assess, decide, compare_with_policy,
  rank_eligible, validate_candidate, index_candidates, validate_policy, select_among,
  select_candidate_attempt,
}

-- The attempt succeeded, has enough observed evidence, and all evidence that is required has passed.
pub record IsEvident (policy : CandidateSelectionPolicy) (c : CandidateAttempt) : Type 0 where
  pub success : is_success c.terminal_status ≡ true
  pub observed :
      lt_num (of_nat (observed_evidence c.evidence)) policy.minimum_evidence_count ≡ false
  pub required :
      All (λ (e : CandidateEvidence). (e.required && not (is_passed e.status)) ≡ false) c.evidence

has_none-append :
    (xs ys : List CandidateBlocker)
    → has_none (xs ++ ys) ≡ true
    → (has_none xs ≡ true) × (has_none ys ≡ true)
unfolding has_none
has_none-append [] ys h = (refl, h)
has_none-append (x ∷ xs) ys h = cc

evidence_blockers-none :
    (es : List CandidateEvidence)
    → has_none (evidence_blockers es) ≡ true
    → All (λ (e : CandidateEvidence). (e.required && not (is_passed e.status)) ≡ false) es
unfolding has_none evidence_blockers
evidence_blockers-none [] h = tt
evidence_blockers-none (e ∷ es) h = elim (Bool-cases (e.required && not (is_passed e.status))) [
  | inl bad ↦ absurd (ground arith)
  | inr fine ↦ (fine, evidence_blockers-none es (ground arith))
]

assess-IsEvident :
    (policy : CandidateSelectionPolicy) (c : CandidateAttempt)
    → (assess policy c).eligible ≡ true
    → IsEvident policy c
unfolding assess status_blockers count_blockers has_none
assess-IsEvident policy c h =
    let r = has_none-append (status_blockers c.terminal_status) _ h in
    let s = has_none-append (count_blockers c.evidence policy) _ r.1 in
    let success = r.0 in
    let observed = s.0 in
    record {
      success = ground (arith, success);
      observed = ground (arith, observed);
      required = evidence_blockers-none c.evidence s.1;
    }

-- A candidate with this assessment, which is eligible.
abbrev Chosen : CandidateSelectionPolicy → List CandidateAttempt → CandidateAssessment → Type 0
Chosen policy candidates a = (c : CandidateAttempt) × Mem c candidates × (assess policy c ≡ a)

All-assess :
    (policy : CandidateSelectionPolicy) (candidates more : List CandidateAttempt)
    → All (λ c. Mem c candidates) more
    → All (Chosen policy candidates) (map (assess policy) more)
All-assess policy candidates [] h = tt
All-assess policy candidates (c ∷ cs) (m, h) = ((c, m, refl), All-assess policy candidates cs h)

-- The assessment is the best one's, or its score is behind by the margin at least.
abbrev pub Trails : CandidateSelectionPolicy → CandidateAssessment → CandidateAssessment → Type 0
Trails policy best a =
    (a.attempt_id ≡ best.attempt_id)
    ⊎ (lt_num (sub_num best.score a.score) policy.minimum_score_margin ≡ false)

Trails-self :
    (policy : CandidateSelectionPolicy) (best : CandidateAssessment) → Trails policy best best
Trails-self policy best = inl refl

Trails-second :
    (policy : CandidateSelectionPolicy) (best second : CandidateAssessment)
    → lt_num (sub_num best.score second.score) policy.minimum_score_margin ≡ false
    → Trails policy best second
Trails-second policy best second ahead = inr ahead

selected-inj : {a b : Text} → selected a ≡ selected b → a ≡ b
selected-inj h = cc

Trails-mono :
    (policy : CandidateSelectionPolicy) (best second a : CandidateAssessment)
    → HasScore best
    → HasScore second
    → HasScore a
    → ScoresOver second a
    → lt_num (sub_num best.score second.score) policy.minimum_score_margin ≡ false
    → Trails policy best a
Trails-mono policy best second a hb hs ha over ahead =
    inr (sub_num-le best.score second.score a.score policy.minimum_score_margin hb hs ha over ahead)

decide-selected :
    (P : CandidateAssessment → Type 0) (policy : CandidateSelectionPolicy)
    (ranked : List CandidateAssessment) (id : Text)
    → decide policy ranked ≡ selected id
    → All P ranked
    → All HasScore ranked
    → IsOrdered ScoresOver ranked
    → (best : CandidateAssessment) × P best
      × (best.attempt_id ≡ id)
      × All (Trails policy best) ranked
unfolding decide
decide-selected P policy [] id h ps scores o = cc
decide-selected P policy (best ∷ []) id h (p, ps) scores o =
    (best, p, selected-inj h, (Trails-self policy best, tt))
decide-selected P policy (best ∷ second ∷ rest) id h (p, ps) (b, (s, scores)) (ob, (os, o)) =
    elim (Bool-cases (lt_num (sub_num best.score second.score) policy.minimum_score_margin)) [
      | inl close ↦ absurd (ground (arith, close))
      | inr ahead ↦ (
        best,
        p,
        selected-inj (ground (arith, ahead)),
        (
          Trails-self policy best,
          (
            Trails-second policy best second ahead,
            All-mono (λ a. HasScore a × ScoresOver second a) (Trails policy best)
                (λ a k. Trails-mono policy best second a b s k.0 k.1 ahead) rest
                (All-both HasScore (ScoresOver second) rest scores os),
          ),
        ),
      )
    ]

decision-inj : {s t : CandidateSelection} → Result.ok s ≡ ok t → t.decision ≡ s.decision
decision-inj h = cc

-- What holds of all eligible assessments, of each.
All-select_or :
    (P : CandidateAssessment → Type 0) (xs : List CandidateAssessment)
    → All P (select (λ (a : CandidateAssessment). a.eligible) xs)
    → All (λ a. (a.eligible ≡ false) ⊎ P a) xs
unfolding select
All-select_or P [] h = tt
All-select_or P (x ∷ xs) h =
    let chosen = select (λ (a : CandidateAssessment). a.eligible) xs in
    elim (Bool-cases x.eligible) [
      | inl e ↦
          let k = subst (λ (b : Bool). All P (if b then x ∷ chosen else chosen)) e h in
          (inr k.0, All-select_or P xs k.1)
      | inr e ↦ (
        inl e,
        All-select_or P xs (subst (λ (b : Bool). All P (if b then x ∷ chosen else chosen)) e h),
      )
    ]

map-All :
    (policy : CandidateSelectionPolicy) (Q : CandidateAssessment → Type 0)
    (cs : List CandidateAttempt)
    → All Q (map (assess policy) cs)
    → All (λ c. Q (assess policy c)) cs
map-All policy Q [] h = tt
map-All policy Q (c ∷ cs) (q, h) = (q, map-All policy Q cs h)

-- An evident candidate of the id, which every other candidate that is eligible trails.
abbrev pub IsBest : CandidateSelectionPolicy → List CandidateAttempt → Text → Type 0
IsBest policy candidates id =
    (c : CandidateAttempt) × Mem c candidates
    × (c.attempt_id ≡ id)
    × IsEvident policy c
    × All
        (λ other.
          ((assess policy other).eligible ≡ false)
          ⊎ Trails policy (assess policy c) (assess policy other))
        candidates

module _ (compare : Text → Text → Bool) where
  select_among-ok :
      (head : CandidateAttempt) (candidates : List CandidateAttempt)
      (policy : CandidateSelectionPolicy) (selection : CandidateSelection)
      → select_among compare head candidates policy ≡ ok selection
      → (by_id : Dict CandidateAttempt) × (index_candidates head.task_id [] candidates ≡ ok by_id)
        × (selection.decision
            ≡ decide policy (rank_eligible compare by_id policy (map (assess policy) candidates)))
  unfolding select_among
  select_among-ok head candidates policy selection ran =
      let (done, valid, rest) = >>=-eq-ok (validate_candidate head) _ ran in
      let (by_id, indexed, last) = >>=-eq-ok (index_candidates head.task_id [] candidates) _ rest in
      (by_id, indexed, decision-inj last)

  ranked-IsBest :
      (by_id : Dict CandidateAttempt) (policy : CandidateSelectionPolicy)
      (candidates : List CandidateAttempt) (id : Text)
      → All HasFiniteWeights candidates
      → decide policy (rank_eligible compare by_id policy (map (assess policy) candidates))
        ≡ selected id
      → IsBest policy candidates id
  unfolding rank_eligible assess
  ranked-IsBest by_id policy candidates id weights h =
      let all = map (assess policy) candidates in
      let eligible = λ (a : CandidateAssessment). a.eligible in
      let before = compare_with_policy compare by_id policy in
      let known =
        All-select eligible (Chosen policy candidates) all
          (All-assess policy candidates candidates (All-Mem candidates)) in
      let scores =
        All-mono (λ a. HasScore a × (a.eligible ≡ true)) HasScore (λ a k. k.0) (select eligible all)
          (All-select eligible HasScore all (assess-HasScore policy candidates weights)) in
      let ordered =
        sort_by-IsOrdered before ScoresOver HasScore
          (λ a b ha hb e. compare_with_policy-first compare by_id policy a b e)
          (λ a b ha hb e. compare_with_policy-second compare by_id policy a b ha hb e)
          (λ x y z h k. le_num_trans z.score y.score x.score k h) (select eligible all) scores in
      let (best, ((c, listed, made), fit), named, trail) =
        decide-selected (λ a. Chosen policy candidates a × (a.eligible ≡ true)) policy
          (sort_by before (select eligible all)) id h
          (All-sort_by before _ (select eligible all) known)
          (All-sort_by before HasScore (select eligible all) scores) ordered in
      (
        c,
        listed,
        subst (λ (a : CandidateAssessment). a.attempt_id ≡ id) (sym made) named,
        assess-IsEvident policy c
            (subst (λ (a : CandidateAssessment). a.eligible ≡ true) (sym made) fit),
        map-All policy _ candidates (
            All-select_or (Trails policy (assess policy c)) all (
              sort_by-All before (Trails policy (assess policy c)) (select eligible all) (
                subst
                  (λ (b : CandidateAssessment).
                    All (Trails policy b) (sort_by before (select eligible all)))
                  (sym made) trail))),
      )

  -- A selection by `selectCandidateAttempt` is of a candidate of the list that succeeded, has at least
  -- the policy's observed evidence and passed all its required evidence. Every other candidate that
  -- is eligible has a score behind by the policy's margin at least.
  pub select_candidate_attempt_sound :
      (candidates : List CandidateAttempt) (policy : CandidateSelectionPolicy)
      (selection : CandidateSelection) (id : Text)
      → select_candidate_attempt compare candidates policy ≡ ok selection
      → selection.decision ≡ selected id
      → IsBest policy candidates id
  unfolding select_candidate_attempt
  select_candidate_attempt_sound [] policy selection id ran h =
      let (done, valid, rest) = >>=-eq-ok (validate_policy [] policy) _ ran in cc
  select_candidate_attempt_sound (head ∷ tail) policy selection id ran h =
      let (done, valid, rest) = >>=-eq-ok (validate_policy (head ∷ tail) policy) _ ran in
      let (by_id, indexed, decision) = select_among-ok head (head ∷ tail) policy selection rest in
      ranked-IsBest by_id policy (head ∷ tail) id
        (index_candidates-finite head.task_id [] (head ∷ tail) by_id indexed) (sym decision ∙ h)
