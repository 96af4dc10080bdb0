-- ===== src/Missions/Result.antt =====
-- `MissionInvariantError` as a value: one constructor for each message that src/lib/missions/core.ts
-- throws, and the sequencing of statements that may throw.
use swarm_z.Base.{Text, ◌≡◌, refl, ◌⊎◌, inl, inr, Bool, true, false, Option, none, some}

-- The labels that `assertId`, `assertString`, `assertStringList` and `unique` put in a message.
pub data Label : Type 0 where
  event_id mission_id task_id attempt_id artifact_id quality_gate_id integration_train_id
        candidate_batch_id schedule_id idempotency_key mission_title mission_objective task_title
        task_role acceptance_criterion declared_file declared_glob task_dependencies
        resume_instruction candidate_instruction candidate_override_reason schedule_note
        schedule_delivery_error :
      Label

-- `CandidateSelectionError` of src/lib/missions/candidates.ts, with the id or label in its message.
pub data CandidateSelectionError : Type 0 where
  candidate_missing invalid_candidate_evidence_id duplicate_candidate :
      Text → CandidateSelectionError
  invalid_evidence_label invalid_weight unobserved_artifact invalid_evidence_artifact :
      Text → CandidateSelectionError
  too_few_or_many_candidates invalid_minimum_evidence invalid_minimum_margin repeated_tie_breaker
        invalid_candidate_attempt invalid_candidate_task too_much_evidence invalid_tokens
        invalid_duration mixed_tasks :
      CandidateSelectionError

pub data InvariantError : Type 0 where
  invalid_id too_long_or_empty contains_duplicates too_many_items : Label → InvariantError
  event_id_conflict idempotency_key_conflict stale_revision invalid_timestamp : InvariantError
  mission_exists project_required invalid_parallelism invalid_execution_policy invalid_budget
        mission_missing mission_archived_immutable mission_has_running_tasks :
      InvariantError
  task_of_another_mission task_exists description_too_long invalid_priority invalid_max_attempts
        task_root_missing task_root_too_long too_many_dependencies unknown_dependency
        dependency_cycle task_unknown task_not_editable noop_needs_human max_attempts_out_of_range
        invalid_root task_has_running_attempt task_not_paused task_not_pausable :
      InvariantError
  requeue_needs_human requeue_not_latest : InvariantError
  attempt_exists batch_cannot_accept task_cannot_start retry_budget_exhausted attempt_unknown
        terminal_attempt_immutable finishes_before_start :
      InvariantError
  invalid_artifact artifact_task_unknown artifact_attempt_unknown : InvariantError
  invalid_gate gate_task_unknown gate_unknown gate_artifact_unknown : InvariantError
  train_task_unknown train_entries_not_unique invalid_entry_commit invalid_entry_detail
        invalid_retry_revision invalid_operation_id invalid_train train_unknown :
      InvariantError
  candidates_need_human candidate_task_unknown batch_exists invalid_candidate_count
        candidate_budget_exceeded batch_already_open task_already_integrated invalid_evidence_policy
        choice_needs_human batch_unknown batch_not_terminal choice_not_successful
        choice_without_evidence choice_not_evident override_of_evident_choice :
      InvariantError
  selection_error : CandidateSelectionError → InvariantError
  invalid_schedule invalid_schedule_time schedule_not_pending schedule_unknown
        schedule_not_cancellable schedule_not_claimable schedule_not_claimed invalid_retry_time
        schedule_not_fireable :
      InvariantError
  -- Not thrown by the source's own statements: a `TypeError` on a property of `undefined`, a value
  -- that its types do not allow, and the model's fuel.
  type_error ill_typed out_of_fuel : InvariantError

pub data Result {κ} (V : Type κ) : Type κ where
  err : (thrown : InvariantError) → Result V
  ok : (value : V) → Result V

-- `const x = d[k]; if (!x) throw e;`.
abbrev pub need {ℓ} : {A : Type ℓ} → Option A → InvariantError → Result A
need none e = err e
need (some a) e = ok a

-- `if (test) throw e;`.
abbrev pub throw_if : Bool → InvariantError → Result (Unit {0})
throw_if false e = ok tt
throw_if true e = err e

-- A statement and what the code does with its value, where it has one.
infixl 5 ◌>>=◌
abbrev pub ◌>>=◌ {κ μ} :
    {V : Type κ} {W : Type μ} (statement : Result V) (rest : V → Result W) → Result W
err thrown >>= rest = err thrown
ok value >>= rest = rest value

infixl 5 ◌>>◌
abbrev pub ◌>>◌ {κ} : {W : Type κ} (statement : Result (Unit {0})) (rest : Result W) → Result W
statement >> rest = statement >>= λ done. rest

-- What a run of two statements that did not throw says of each.
pub >>=-eq-ok {κ μ} :
    {V : Type κ} {W : Type μ} (statement : Result V) (rest : V → Result W) {w : W}
    → (statement >>= rest) ≡ ok w
    → (v : V) × (statement ≡ ok v) × (rest v ≡ ok w)
>>=-eq-ok (err thrown) rest ran = cc
>>=-eq-ok (ok value) rest ran = (value, refl, ran)

-- To split on whether a statement throws.
pub Result-cases {κ} :
    {V : Type κ} (r : Result V) → ((v : V) × (r ≡ ok v)) ⊎ ((e : InvariantError) × (r ≡ err e))
Result-cases (err thrown) = inr (thrown, refl)
Result-cases (ok value) = inl (value, refl)
