-- ===== src/Missions/Effects/Tasks.antt =====
-- How a handler writes the tasks (src/lib/missions/core.ts).
use swarm_z.Base.{
  truthy, ℕ, suc, ◌≡◌, refl, ◌∙◌, subst, ◌⊎◌, inl, inr, true, false, Option, none, some, or_else,
  [], ◌∷◌, ◌++◌, length, length-append, Number, of_nat, is_integer, le_num, le_num-suc,
  le_num-of_not_lt, Text, text_eq, text_eq_refl, text_eq_sound, trim, le_num-zero, get, put,
  get-put, Bool-cases, Option-cases, arith,
}
use swarm_z.Missions.Types.{
  Mission, MissionTask, MissionArtifact, MissionProjection, MissionEvent, MissionEventPayload,
  MissionTaskInput, TaskPatch, AttemptStartedPayload, AttemptFinishedPayload, QualityGateInput,
  mission_created, task_added, task_updated, task_archived, task_paused, task_resumed,
  task_requeued, attempt_started, attempt_finished, artifact_recorded, quality_gate_added,
  candidate_batch_selected, candidate_batch_overridden,
}
use swarm_z.Missions.Result.{ok, Result-cases}
use swarm_z.Missions.Validate.{is_outside, assert_task_input}
use swarm_z.Missions.Graph.{replace_task_dependencies}
use swarm_z.Missions.Handlers.{
  Surroundings, own, own_task, put_task, put_mission, put_attempt, put_batch, put_gate, new_task,
  apply_patch, is_max_attempts_bad, add_task, update_task, archive_task, pause_task, resume_task,
  requeue_task, joined_batch, join_batch, with_attempt, start_attempt, finish_attempt, list_in_task,
  latest_attempt, list_in_attempt, record_artifact, list_gate, add_gate, choose_candidate,
  closable_batch, chosen_attempt,
}
use swarm_z.Missions.Reduce.{handle}
use swarm_z.Missions.Effects.Opened.{handlers}
use swarm_z.Missions.Effects.Frame.{rematerialize_all-SameButGates}

-- A task stands under its own id, and has at most `maxAttempts` attempts, a whole number.
pub record IsWithinBudget (k : Text) (t : MissionTask) : Type 0 where
  pub keyed : text_eq t.id k ≡ true
  pub whole : is_integer t.max_attempts ≡ true
  pub within : le_num (of_nat (length t.attempt_ids)) t.max_attempts ≡ true

abbrev pub TasksWithinBudget : MissionProjection → Type 0
TasksWithinBudget s = (k : Text) (t : MissionTask) → get s.tasks k ≡ some t → IsWithinBudget k t

-- A task within its budget is written.
pub record TaskWrite (s s' : MissionProjection) : Type 0 where
  pub key : Text
  pub task : MissionTask
  pub written : s'.tasks ≡ put s.tasks key task
  pub within_budget : IsWithinBudget key task

is_outside_bounds :
    (n : Number) (low high : ℕ)
    → is_outside n low high ≡ false
    → (is_integer n ≡ true) × (le_num (of_nat low) n ≡ true)
unfolding is_outside
is_outside_bounds n low high h =
    let whole : is_integer n ≡ true = ground arith in
    (whole, le_num-of_not_lt n low whole (ground arith))

patched_limit :
    {k : Text} (t : MissionTask) (o : Option Number)
    → IsWithinBudget k t
    → is_max_attempts_bad t o ≡ false
    → (is_integer (or_else o t.max_attempts) ≡ true)
      × (le_num (of_nat (length t.attempt_ids)) (or_else o t.max_attempts) ≡ true)
unfolding is_max_attempts_bad
patched_limit t none b good = (b.whole, b.within)
patched_limit t (some n) b good = is_outside_bounds n (length t.attempt_ids) 20 good

-- One attempt more, where the limit is not reached.
one_more :
    {k : Text} (t : MissionTask) (id : Text)
    → IsWithinBudget k t
    → le_num t.max_attempts (of_nat (length t.attempt_ids)) ≡ false
    → le_num (of_nat (length (t.attempt_ids ++ id ∷ []))) t.max_attempts ≡ true
one_more t id b room =
    let more : length (t.attempt_ids ++ id ∷ []) ≡ suc (length t.attempt_ids) =
      omega (arith, length-append t.attempt_ids (id ∷ [])) in
    rw more (le_num-suc t.max_attempts (length t.attempt_ids) b.whole room)

assert_task_input-max_attempts :
    (event : MissionEvent) (s : MissionProjection) (i : MissionTaskInput)
    → assert_task_input s event.mission_id i ≡ ok tt
    → is_outside i.max_attempts 1 20 ≡ false
unfolding assert_task_input
assert_task_input-max_attempts event s i h = ground arith

module _ (event : MissionEvent) (s : MissionProjection) {s' : MissionProjection} where
  add_task-write :
      (mission : Mission) (i : MissionTaskInput)
      → add_task event mission s i ≡ ok s'
      → TaskWrite s s'
  unfolding add_task put_task put_mission replace_task_dependencies new_task
  add_task-write mission i h =
      let (whole, one) =
        is_outside_bounds i.max_attempts 1 20
          (assert_task_input-max_attempts event s i (ground arith)) in
      record {
        key = i.id;
        task = new_task i;
        written = ground arith;
        within_budget = record {
          keyed = text_eq_refl i.id;
          whole = whole;
          within = le_num-zero _ one;
        };
      }

  module _ (budgets : TasksWithinBudget s) where
    -- An update of the task found under `id` that leaves its attempts and limit alone.
    kept :
        (id : Text) (t u : MissionTask)
        → get s.tasks id ≡ some t
        → u.id ≡ t.id
        → u.max_attempts ≡ t.max_attempts
        → u.attempt_ids ≡ t.attempt_ids
        → s'.tasks ≡ put s.tasks t.id u
        → TaskWrite s s'
    kept id t u here same limit attempts written =
        let b = budgets id t here in
        record {
          key = t.id;
          task = u;
          written = written;
          within_budget = record {
            keyed = rw same (text_eq_refl t.id);
            whole = rw limit b.whole;
            within = rw (limit, attempts) b.within;
          };
        }

    archive_task-write :
        (id : Text) (t : Number) → archive_task event s id t ≡ ok s' → TaskWrite s s'
    unfolding archive_task put_task own_task own
    archive_task-write id t h = elim (Option-cases (get s.tasks id)) [
      | inl n ↦ absurd (ground arith)
      | inr (task, here) ↦
          kept id task (record task { archived_at = some t; updated_at = event.occurred_at }) here
            refl refl refl (ground arith)
    ]

    pause_task-write : (id : Text) (t : Number) → pause_task event s id t ≡ ok s' → TaskWrite s s'
    unfolding pause_task put_task own_task own
    pause_task-write id t h = elim (Option-cases (get s.tasks id)) [
      | inl n ↦ absurd (ground arith)
      | inr (task, here) ↦
          kept id task (record task { paused_at = some t; updated_at = event.occurred_at }) here
            refl refl refl (ground arith)
    ]

    resume_task-write : (id : Text) → resume_task event s id ≡ ok s' → TaskWrite s s'
    unfolding resume_task put_task own_task own
    resume_task-write id h = elim (Option-cases (get s.tasks id)) [
      | inl n ↦ absurd (ground arith)
      | inr (task, here) ↦
          kept id task (record task { paused_at = none; updated_at = event.occurred_at }) here refl
            refl refl (ground arith)
    ]

    requeue_task-write :
        (id after instruction : Text) (t : Number)
        → requeue_task event s id after instruction t ≡ ok s'
        → TaskWrite s s'
    unfolding requeue_task put_task own_task own
    requeue_task-write id after instruction t h = elim (Option-cases (get s.tasks id)) [
      | inl n ↦ absurd (ground arith)
      | inr (task, here) ↦ elim (Option-cases (latest_attempt s task)) [
        | inl n ↦ absurd (ground arith)
        | inr (latest, l) ↦
            kept id task
              (record task {
                resume_instruction = some (trim instruction);
                requeued_after_attempt_id = some latest.id;
                updated_at = t;
              })
              here refl refl refl (ground arith)
      ]
    ]

    update_task-write :
        (id : Text) (t : Number) (patch : TaskPatch)
        → update_task event s id t patch ≡ ok s'
        → TaskWrite s s'
    unfolding update_task put_task own_task own replace_task_dependencies apply_patch
    update_task-write id t patch h = elim (Option-cases (get s.tasks id)) [
      | inl n ↦ absurd (ground arith)
      | inr (task, here) ↦
          let b = budgets id task here in
          let (whole, within) = patched_limit task patch.max_attempts b (ground arith) in
          record {
            key = task.id;
            task = apply_patch task patch t;
            written = ground arith;
            within_budget = record { keyed = text_eq_refl task.id; whole = whole; within = within };
          }
    ]

    start_attempt-write :
        (i : AttemptStartedPayload) → start_attempt event s i ≡ ok s' → TaskWrite s s'
    unfolding start_attempt put_task put_attempt join_batch put_batch own_task own with_attempt
    start_attempt-write i h = elim (Option-cases (get s.tasks i.task_id)) [
      | inl n ↦ absurd (ground arith)
      | inr (task, here) ↦ elim (Result-cases (joined_batch s task (truthy i.candidate_batch_id))) [
        | inr (e, x) ↦ absurd (ground arith)
        | inl (batch, x) ↦
            let b = budgets i.task_id task here in
            record {
              key = task.id;
              task = with_attempt event task batch i.id;
              written = ground arith;
              within_budget = record {
                keyed = text_eq_refl task.id;
                whole = b.whole;
                within = one_more task i.id b (ground arith);
              };
            }
      ]
    ]

    finish_attempt-write :
        (i : AttemptFinishedPayload) → finish_attempt event s i ≡ ok s' → TaskWrite s s'
    unfolding finish_attempt put_task put_attempt own
    finish_attempt-write i h = elim (Option-cases (get s.attempts i.attempt_id)) [
      | inl n ↦ absurd (ground arith)
      | inr (attempt, found) ↦ elim (Option-cases (get s.tasks attempt.task_id)) [
        | inl n ↦ absurd (ground arith)
        | inr (task, here) ↦
            let b = budgets attempt.task_id task here in
            record {
              key = attempt.task_id;
              task = record task { updated_at = event.occurred_at };
              written = ground arith;
              within_budget = record { keyed = b.keyed; whole = b.whole; within = b.within };
            }
      ]
    ]

    list_in_task-write :
        (a : MissionArtifact) (id : Text)
        → list_in_task event s a (some id) ≡ ok s'
        → TaskWrite s s'
    unfolding list_in_task put_task own_task own
    list_in_task-write a id h = elim (Option-cases (get s.tasks id)) [
      | inl n ↦ absurd (ground arith)
      | inr (task, here) ↦
          kept id task (record task { artifact_ids = task.artifact_ids ++ a.id ∷ [] }) here refl
            refl refl (ground arith)
    ]

    list_gate-write : (g id : Text) → list_gate event s g (some id) ≡ ok s' → TaskWrite s s'
    unfolding list_gate put_task own_task own
    list_gate-write g id h = elim (Option-cases (get s.tasks id)) [
      | inl n ↦ absurd (ground arith)
      | inr (task, here) ↦
          kept id task (record task { quality_gate_ids = task.quality_gate_ids ++ g ∷ [] }) here
            refl refl refl (ground arith)
    ]

    choose_candidate-write :
        (env : Surroundings) (batch_id attempt_id : Text) (reason : Option Text) (t : Number)
        → choose_candidate env event s batch_id attempt_id reason t ≡ ok s'
        → TaskWrite s s'
    unfolding choose_candidate put_task put_batch
    choose_candidate-write env batch_id attempt_id reason t h =
        elim (Result-cases (closable_batch env event s batch_id)) [
          | inr (e, x) ↦ absurd (ground arith)
          | inl (batch, x) ↦ elim (Option-cases (get s.tasks batch.task_id)) [
            | inl n ↦ absurd (ground arith)
            | inr (task, here) ↦ elim (Result-cases (chosen_attempt env s batch attempt_id)) [
              | inr (e, y) ↦ absurd (ground arith)
              | inl (attempt, y) ↦
                  let b = budgets batch.task_id task here in
                  record {
                    key = batch.task_id;
                    task = record task {
                      selected_candidate_attempt_id = some attempt.id;
                      updated_at = t;
                    };
                    written = grind (arith, rematerialize_all-SameButGates);
                    within_budget = record { keyed = b.keyed; whole = b.whole; within = b.within };
                  }
            ]
          ]
        ]

-- The task of an artifact or a gate may be absent.
list_in_task-tasks :
    (event : MissionEvent) (s : MissionProjection) (a : MissionArtifact) (o : Option Text)
    {t : MissionProjection}
    → TasksWithinBudget s
    → list_in_task event s a o ≡ ok t
    → (t.tasks ≡ s.tasks) ⊎ TaskWrite s t
list_in_task-tasks event s a none budgets h = inl (unfold list_in_task in ground arith)
list_in_task-tasks event s a (some id) budgets h = inr (list_in_task-write event s budgets a id h)

list_gate-tasks :
    (event : MissionEvent) (s : MissionProjection) (g : Text) (o : Option Text)
    {t : MissionProjection}
    → TasksWithinBudget s
    → list_gate event s g o ≡ ok t
    → (t.tasks ≡ s.tasks) ⊎ TaskWrite s t
list_gate-tasks event s g none budgets h = inl (unfold list_gate in ground arith)
list_gate-tasks event s g (some id) budgets h = inr (list_gate-write event s budgets g id h)

-- A later state with the same tasks.
then_same :
    {s t u : MissionProjection}
    → u.tasks ≡ t.tasks
    → (t.tasks ≡ s.tasks) ⊎ TaskWrite s t
    → (u.tasks ≡ s.tasks) ⊎ TaskWrite s u
then_same e (inl same) = inl (e ∙ same)
then_same e (inr w) = inr (record {
  key = w.key;
  task = w.task;
  written = e ∙ w.written;
  within_budget = w.within_budget;
})

record_artifact-tasks :
    (event : MissionEvent) (s : MissionProjection) (a : MissionArtifact) {s' : MissionProjection}
    → TasksWithinBudget s
    → record_artifact event s a ≡ ok s'
    → (s'.tasks ≡ s.tasks) ⊎ TaskWrite s s'
unfolding record_artifact list_in_attempt put_attempt
record_artifact-tasks event s a {s'} budgets h =
    elim (Result-cases (list_in_task event s a (truthy a.task_id))) [
      | inr (e, x) ↦ absurd (ground arith)
      | inl (t, listed) ↦
          let same : s'.tasks ≡ t.tasks = ground arith in
          then_same same (list_in_task-tasks event s a (truthy a.task_id) budgets listed)
    ]

add_gate-tasks :
    (event : MissionEvent) (s : MissionProjection) (g : QualityGateInput) {s' : MissionProjection}
    → TasksWithinBudget s
    → add_gate event s g ≡ ok s'
    → (s'.tasks ≡ s.tasks) ⊎ TaskWrite s s'
unfolding add_gate put_gate
add_gate-tasks event s g {s'} budgets h =
    elim (Result-cases (list_gate event s g.id (truthy g.task_id))) [
      | inr (e, x) ↦ absurd (ground arith)
      | inl (t, listed) ↦
          let same : s'.tasks ≡ t.tasks = ground arith in
          then_same same (list_gate-tasks event s g.id (truthy g.task_id) budgets listed)
    ]

-- A handler writes at most one task.
pub handle-tasks :
    (env : Surroundings) (event : MissionEvent) (mission : Mission) (s : MissionProjection)
    (p : MissionEventPayload) {s' : MissionProjection}
    → TasksWithinBudget s
    → handle env event mission s p ≡ ok s'
    → (s'.tasks ≡ s.tasks) ⊎ TaskWrite s s'
unfolding handlers
handle-tasks env event mission s (mission_created i) b h = inl (ground arith)
handle-tasks env event mission s (task_added i) b h = inr (add_task-write event s mission i h)
handle-tasks env event mission s (task_updated id t p) b h =
    inr (update_task-write event s b id t p h)
handle-tasks env event mission s (task_archived id t) b h =
    inr (archive_task-write event s b id t h)
handle-tasks env event mission s (task_paused id t) b h = inr (pause_task-write event s b id t h)
handle-tasks env event mission s (task_resumed id t) b h = inr (resume_task-write event s b id h)
handle-tasks env event mission s (task_requeued id a i t) b h =
    inr (requeue_task-write event s b id a i t h)
handle-tasks env event mission s (attempt_started i) b h = inr (start_attempt-write event s b i h)
handle-tasks env event mission s (attempt_finished i) b h = inr (finish_attempt-write event s b i h)
handle-tasks env event mission s (artifact_recorded a) b h = record_artifact-tasks event s a b h
handle-tasks env event mission s (quality_gate_added g) b h = add_gate-tasks event s g b h
handle-tasks env event mission s (candidate_batch_selected i a t) b h =
    inr (choose_candidate-write event s b env i a none t h)
handle-tasks env event mission s (candidate_batch_overridden i a r t) b h =
    inr (choose_candidate-write event s b env i a (some r) t h)
handle-tasks env event mission s _ b h = inl (ground arith)

pub TaskWrite-within :
    {s s' : MissionProjection} → TaskWrite s s' → TasksWithinBudget s → TasksWithinBudget s'
TaskWrite-within {s} {s'} w b k x e = elim (Bool-cases (text_eq w.key k)) [
  | inl same ↦
      let found : some w.task ≡ some x =
        rw (w.written, get-put s.tasks w.key k w.task, same) at e in
      let it : w.task ≡ x = cc in
      subst (IsWithinBudget k) it
        (subst (λ j. IsWithinBudget j w.task) (text_eq_sound _ k same) w.within_budget)
  | inr other ↦ b k x (rw (w.written, get-put s.tasks w.key k w.task, other) at e)
]
