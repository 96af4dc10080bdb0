-- ===== src/Missions/Effects/Attempts.antt =====
-- How a handler writes the attempts (src/lib/missions/core.ts).
use swarm_z.Base.{
  truthy, ◌≡◌, sym, ◌∙◌, subst, ◌⊎◌, inl, inr, Bool, true, false, Option, none, some, Text, text_eq,
  text_eq_sound, Dict, get, put, get-put, Bool-cases, Option-cases, ◌∷◌, [], ◌++◌, arith,
}
use swarm_z.Missions.Types.{
  Mission, TaskAttempt, MissionArtifact, MissionProjection, MissionEvent, MissionEventPayload,
  AttemptStartedPayload, AttemptFinishedPayload, attempt_started, attempt_finished,
  artifact_recorded, candidate_batch_selected, candidate_batch_overridden, mission_created,
}
use swarm_z.Missions.Result.{InvariantError, ok, Result-cases, task_unknown}
use swarm_z.Missions.Handlers.{
  Surroundings, own, is_terminal, start_attempt, finish_attempt, record_artifact, list_in_attempt,
  list_in_task, put_task, put_attempt, join_batch, put_batch, new_attempt, finished_status,
  own_task, joined_batch,
}
use swarm_z.Missions.Reduce.{handle}
use swarm_z.Missions.Effects.Opened.{handlers}
use swarm_z.Missions.Effects.Frame.{choose_candidate-frame}

-- Every attempt stands under its own id.
abbrev pub AttemptsKeyed : MissionProjection → Type 0
AttemptsKeyed s = (k : Text) (a : TaskAttempt) → get s.attempts k ≡ some a → text_eq a.id k ≡ true

-- No terminal attempt stands under the id.
abbrev pub IsFree : Option TaskAttempt → Type 0
IsFree none = Unit
IsFree (some a) = is_terminal a.status ≡ false

-- An attempt is written under its id, over no terminal attempt.
pub record AttemptWrite (s s' : MissionProjection) : Type 0 where
  pub attempt : TaskAttempt
  pub written : s'.attempts ≡ put s.attempts attempt.id attempt
  pub free : IsFree (get s.attempts attempt.id)

pub own-eq-ok {ℓ} :
    {A : Type ℓ} (f : A → Text) (d : Dict A) (m id : Text) (e : InvariantError) {a : A}
    → own f d m id e ≡ ok a
    → (get d id ≡ some a) × (text_eq (f a) m ≡ true)
unfolding own
own-eq-ok f d m id e h = ground arith

start_attempt-write :
    (event : MissionEvent) (s : MissionProjection) (i : AttemptStartedPayload)
    {s' : MissionProjection}
    → start_attempt event s i ≡ ok s'
    → AttemptWrite s s'
unfolding start_attempt put_attempt put_task join_batch put_batch new_attempt
start_attempt-write event s i {s'} h =
    elim (Result-cases (own_task s event i.task_id task_unknown)) [
      | inl (task, t) ↦ elim (Result-cases (joined_batch s task (truthy i.candidate_batch_id))) [
        | inl (batch, b) ↦ record {
          attempt = new_attempt event task batch i;
          written = ground arith;
          free = free_of_none (ground arith);
        }
        | inr (e, b) ↦ absurd (ground arith)
      ]
      | inr (e, t) ↦ absurd (ground arith)
    ]
  where
    free_of_none : get s.attempts i.id ≡ none → IsFree (get s.attempts i.id)
    free_of_none n = rw n tt

finish_attempt-write :
    (event : MissionEvent) (s : MissionProjection) (i : AttemptFinishedPayload)
    {s' : MissionProjection}
    → AttemptsKeyed s
    → finish_attempt event s i ≡ ok s'
    → AttemptWrite s s'
unfolding finish_attempt put_attempt put_task own
finish_attempt-write event s i {s'} keyed h = elim (Option-cases (get s.attempts i.attempt_id)) [
  | inl n ↦ absurd (ground arith)
  | inr (attempt, here) ↦
      let same = text_eq_sound attempt.id i.attempt_id (keyed i.attempt_id attempt here) in
      let finished : TaskAttempt = record attempt {
        status = finished_status i.status;
        finished_at = some i.finished_at;
        summary = i.summary;
        error = i.error;
        report = i.report;
      } in
      record { attempt = finished; written = ground arith; free = rw (same, here) (ground arith) }
]

list_in_attempt-write :
    (event : MissionEvent) (s : MissionProjection) (a : MissionArtifact) (id : Text)
    {s' : MissionProjection}
    → AttemptsKeyed s
    → list_in_attempt event s a (some id) ≡ ok s'
    → AttemptWrite s s'
unfolding list_in_attempt put_attempt own
list_in_attempt-write event s a id {s'} keyed h = elim (Option-cases (get s.attempts id)) [
  | inl n ↦ absurd (ground arith)
  | inr (attempt, here) ↦
      let same = text_eq_sound attempt.id id (keyed id attempt here) in
      record {
        attempt = record attempt { artifact_ids = attempt.artifact_ids ++ a.id ∷ [] };
        written = ground arith;
        free = rw (same, here) (ground arith);
      }
]

list_in_task-attempts :
    (event : MissionEvent) (s : MissionProjection) (a : MissionArtifact) (o : Option Text)
    {s' : MissionProjection}
    → list_in_task event s a o ≡ ok s'
    → s'.attempts ≡ s.attempts
unfolding list_in_task put_task
list_in_task-attempts event s a none h = ground arith
list_in_task-attempts event s a (some id) h = ground arith

record_artifact-write :
    (event : MissionEvent) (s : MissionProjection) (a : MissionArtifact) {s' : MissionProjection}
    → AttemptsKeyed s
    → record_artifact event s a ≡ ok s'
    → (s'.attempts ≡ s.attempts) ⊎ AttemptWrite s s'
unfolding record_artifact
record_artifact-write event s a {s'} keyed h =
    elim (Result-cases (list_in_task event s a (truthy a.task_id))) [
      | inl (t, listed) ↦ elim (Result-cases (list_in_attempt event t a (truthy a.attempt_id))) [
        | inl (u, done) ↦
            let same = list_in_task-attempts event s a (truthy a.task_id) listed in
            let last : s'.attempts ≡ u.attempts = ground arith in
            through t u same last (truthy a.attempt_id) done
        | inr (e, done) ↦ absurd (ground arith)
      ]
      | inr (e, listed) ↦ absurd (ground arith)
    ]
  where
    through :
        (t u : MissionProjection)
        → t.attempts ≡ s.attempts
        → s'.attempts ≡ u.attempts
        → (o : Option Text) → list_in_attempt event t a o ≡ ok u
        → (s'.attempts ≡ s.attempts) ⊎ AttemptWrite s s'
    through t u same last none done = inl (unfold list_in_attempt in ground arith)
    through t u same last (some id) done =
        let w = list_in_attempt-write event t a id (λ k b e. keyed k b (rw same at e)) done in
        inr (record {
          attempt = w.attempt;
          written = rw same at (last ∙ w.written);
          free = rw same at w.free;
        })

-- A handler writes at most one attempt.
pub handle-attempts :
    (env : Surroundings) (event : MissionEvent) (mission : Mission) (s : MissionProjection)
    (p : MissionEventPayload) {s' : MissionProjection}
    → AttemptsKeyed s
    → handle env event mission s p ≡ ok s'
    → (s'.attempts ≡ s.attempts) ⊎ AttemptWrite s s'
unfolding handlers
handle-attempts env event mission s (mission_created i) keyed h = inl (ground arith)
handle-attempts env event mission s (attempt_started i) keyed h =
    inr (start_attempt-write event s i h)
handle-attempts env event mission s (attempt_finished i) keyed h =
    inr (finish_attempt-write event s i keyed h)
handle-attempts env event mission s (artifact_recorded a) keyed h =
    record_artifact-write event s a keyed h
handle-attempts env event mission s (candidate_batch_selected b a t) keyed h =
    inl (choose_candidate-frame env event s b a none t h).1
handle-attempts env event mission s (candidate_batch_overridden b a r t) keyed h =
    inl (choose_candidate-frame env event s b a (some r) t h).1
handle-attempts env event mission s _ keyed h = inl (ground arith)

-- A write over no terminal attempt leaves the terminal ones as they are.
pub AttemptWrite-terminal :
    {s s' : MissionProjection}
    → AttemptWrite s s'
    → (k : Text) (a : TaskAttempt) → get s.attempts k ≡ some a
    → is_terminal a.status ≡ true
    → get s'.attempts k ≡ some a
AttemptWrite-terminal {s} {s'} w k a here done = elim (Bool-cases (text_eq w.attempt.id k)) [
  | inl same ↦
      let at_key : get s.attempts w.attempt.id ≡ some a =
        rw (text_eq_sound w.attempt.id k same) here in
      let live : is_terminal a.status ≡ false = subst IsFree at_key w.free in
      absurd (true_ne_false (sym done ∙ live))
  | inr other ↦ rw (w.written, get-put s.attempts w.attempt.id k w.attempt, other) here
]
  where
    true_ne_false : ◌≡◌ {A = Bool} true false → ⊥
    true_ne_false e = cc

pub AttemptWrite-keyed :
    {s s' : MissionProjection} → AttemptWrite s s' → AttemptsKeyed s → AttemptsKeyed s'
AttemptWrite-keyed {s} {s'} w keyed k a e =
    let found = (rw w.written at e) in
    ground (arith, keyed k a, get-put s.attempts w.attempt.id k w.attempt)
