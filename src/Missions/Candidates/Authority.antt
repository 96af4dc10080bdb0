-- ===== src/Missions/Candidates/Authority.antt =====
-- Which artifacts count as evidence (src/lib/missions/candidates.ts).
use swarm_z.Base.{
  ◌≡◌, refl, ap, inl, inr, Bool, false, none, some, List, [], ◌∷◌, ◌++◌, select, find, filter_map,
  Text, Dict, get, put, values, values-put_new, Bool-cases, Option-cases, arith,
}
use swarm_z.Missions.Types.{TaskAttempt, CandidateBatch, MissionArtifact, MissionProjection}
use swarm_z.Missions.Candidates.{CandidateEvidence}
use swarm_z.Missions.Candidates.Evidence.{
  is_native, is_artifact_of, is_usage_of, artifact_evidence, candidate_of, candidate_at,
  candidates_from, candidates_for_batch, select_for_batch,
}

find-snoc_none :
    (p : MissionArtifact → Bool) (xs : List MissionArtifact) (a : MissionArtifact)
    → p a ≡ false
    → find p (xs ++ a ∷ []) ≡ find p xs
unfolding find
find-snoc_none p [] a h = ground (arith, h)
find-snoc_none p (x ∷ xs) a h = ground (arith, find-snoc_none p xs a h)

module _ (to_lower_case : Text → Text) where
  filter_map-none :
      (a : MissionArtifact) (xs : List MissionArtifact)
      → artifact_evidence to_lower_case a ≡ none
      → filter_map (artifact_evidence to_lower_case) (a ∷ xs)
        ≡ filter_map (artifact_evidence to_lower_case) xs
  unfolding filter_map
  filter_map-none a xs h = ground (arith, h)

  filter_map-cons :
      (x : MissionArtifact) (xs ys : List MissionArtifact)
      → filter_map (artifact_evidence to_lower_case) xs
        ≡ filter_map (artifact_evidence to_lower_case) ys
      → filter_map (artifact_evidence to_lower_case) (x ∷ xs)
        ≡ filter_map (artifact_evidence to_lower_case) (x ∷ ys)
  unfolding filter_map
  filter_map-cons x xs ys h =
      ap
        (λ (rest : List CandidateEvidence). elim (artifact_evidence to_lower_case x) [
          | none ↦ rest
          | some y ↦ y ∷ rest
        ])
        h

  evidence-snoc_none :
      (p : MissionArtifact → Bool) (xs : List MissionArtifact) (a : MissionArtifact)
      → artifact_evidence to_lower_case a ≡ none
      → filter_map (artifact_evidence to_lower_case) (select p (xs ++ a ∷ []))
        ≡ filter_map (artifact_evidence to_lower_case) (select p xs)
  unfolding filter_map select
  evidence-snoc_none p [] a h = elim (Bool-cases (p a)) [
    | inl e ↦ rw e (filter_map-none a [] h)
    | inr e ↦ rw e
  ]
  evidence-snoc_none p (x ∷ xs) a h = elim (Bool-cases (p x)) [
    | inl e ↦
        rw e
          (filter_map-cons x (select p (xs ++ a ∷ [])) (select p xs) (evidence-snoc_none p xs a h))
    | inr e ↦ rw (e, evidence-snoc_none p xs a h)
  ]

  candidate_of-snoc :
      (xs : List MissionArtifact) (a : MissionArtifact) (task_id : Text) (attempt : TaskAttempt)
      → is_native a ≡ false
      → candidate_of to_lower_case (xs ++ a ∷ []) task_id attempt
        ≡ candidate_of to_lower_case xs task_id attempt
  unfolding candidate_of artifact_evidence is_usage_of
  candidate_of-snoc xs a task_id attempt h =
      let no_evidence : artifact_evidence to_lower_case a ≡ none = ground (arith, h) in
      let no_usage : is_usage_of attempt.id a ≡ false = ground (arith, h) in
      rw (
        evidence-snoc_none (is_artifact_of task_id attempt.id) xs a no_evidence,
        find-snoc_none (is_usage_of attempt.id) xs a no_usage,
      )

  candidate_at-snoc :
      (attempts : Dict TaskAttempt) (xs : List MissionArtifact) (a : MissionArtifact)
      (task_id id : Text)
      → is_native a ≡ false
      → candidate_at to_lower_case attempts (xs ++ a ∷ []) task_id id
        ≡ candidate_at to_lower_case attempts xs task_id id
  unfolding candidate_at
  candidate_at-snoc attempts xs a task_id id h = elim (Option-cases (get attempts id)) [
    | inl e ↦ rw (e, candidate_at)
    | inr (attempt, e) ↦ rw (e, candidate_at, candidate_of-snoc xs a task_id attempt h)
  ]

  candidates_from-snoc :
      (attempts : Dict TaskAttempt) (xs : List MissionArtifact) (a : MissionArtifact)
      (task_id : Text) (ids : List Text)
      → is_native a ≡ false
      → candidates_from to_lower_case attempts (xs ++ a ∷ []) task_id ids
        ≡ candidates_from to_lower_case attempts xs task_id ids
  unfolding candidates_from
  candidates_from-snoc attempts xs a task_id [] h = refl
  candidates_from-snoc attempts xs a task_id (id ∷ ids) h = rw (
    candidate_at-snoc attempts xs a task_id id h,
    candidates_from-snoc attempts xs a task_id ids h,
  )

-- An artifact that is new and without the application's own authority does not change the
-- selection of a batch, whatever evidence it claims to be.
pub select_for_batch-put_foreign :
    (compare : Text → Text → Bool) (to_lower_case : Text → Text) (state : MissionProjection)
    (batch : CandidateBatch) (id : Text) (artifact : MissionArtifact)
    → get state.artifacts id ≡ none
    → is_native artifact ≡ false
    → select_for_batch compare to_lower_case
        (record state { artifacts = put state.artifacts id artifact })
        batch
      ≡ select_for_batch compare to_lower_case state batch
unfolding select_for_batch candidates_for_batch
select_for_batch-put_foreign compare to_lower_case state batch id artifact new foreign = rw (
  values-put_new state.artifacts id artifact new,
  candidates_from-snoc to_lower_case state.attempts (values state.artifacts) artifact batch.task_id
      batch.attempt_ids foreign,
)
