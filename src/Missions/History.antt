-- ===== src/Missions/History.antt =====
-- What holds of every projection that replaying a log of events gives, and what no later event can
-- change (reduceMissionEvent and replayMissionEvents of src/lib/missions/core.ts).
use swarm_z.Base.{
  ◌≡◌, refl, ap, subst, ◌⊎◌, inl, inr, true, Option, none, some, is_some, List, [], ◌∷◌, Text, get,
  arith,
}
use swarm_z.Missions.Types.{MissionProjection, MissionEvent, TaskAttempt, MissionSchedule}
use swarm_z.Missions.Result.{ok, Result-cases}
use swarm_z.Missions.Handlers.{Surroundings, put_mission, is_terminal}
use swarm_z.Missions.Refresh.Frame.{refresh_mission-Refreshed}
use swarm_z.Missions.Effects.Attempts.{
  AttemptsKeyed, AttemptWrite, handle-attempts, AttemptWrite-terminal, AttemptWrite-keyed,
}
use swarm_z.Missions.Effects.Schedules.{
  SchedulesSound, ScheduleWrite, handle-schedules, ScheduleWrite-fired, ScheduleWrite-sound,
}
use swarm_z.Missions.Effects.Tasks.{TasksWithinBudget, TaskWrite, handle-tasks, TaskWrite-within}
use swarm_z.Missions.Reduce.{
  record_event, put_key, key_of, apply_event, empty_mission_projection, reduce_mission_event,
  replay_from, replay_mission_events,
}
use swarm_z.Missions.Reduce.Outcome.{reduce-outcome, apply_event-outcome, touched}

-- The invariant of a projection: attempts and schedules stand under their own ids, no schedule has
-- fired without a claim, and every task is within its attempt budget.
pub record IsConsistent (s : MissionProjection) : Type 0 where
  pub attempts : AttemptsKeyed s
  pub schedules : SchedulesSound s
  pub tasks : TasksWithinBudget s

module _ (env : Surroundings) where
  -- What recording an event leaves alone.
  record SameEntities (s t : MissionProjection) : Type 0 where
    tasks : t.tasks ≡ s.tasks
    attempts : t.attempts ≡ s.attempts
    schedules : t.schedules ≡ s.schedules

  put_key-same :
      (s : MissionProjection) (event : MissionEvent) (key : Option Text)
      → SameEntities s (put_key env s event key)
  unfolding put_key
  put_key-same s event none = record { tasks = refl; attempts = refl; schedules = refl }
  put_key-same s event (some key) = record { tasks = refl; attempts = refl; schedules = refl }

  record_event-same :
      (s : MissionProjection) (event : MissionEvent) → SameEntities s (record_event env s event)
  unfolding record_event
  record_event-same s event =
      let k = put_key-same _ event (key_of env event) in
      record { tasks = k.tasks; attempts = k.attempts; schedules = k.schedules }

  -- Applying an event writes at most one attempt, one schedule and one task.
  record Applied (s u : MissionProjection) : Type 0 where
    attempts : (u.attempts ≡ s.attempts) ⊎ AttemptWrite s u
    schedules : (u.schedules ≡ s.schedules) ⊎ ScheduleWrite s u
    tasks : (u.tasks ≡ s.tasks) ⊎ TaskWrite s u

  apply_event-Applied :
      (s : MissionProjection) (event : MissionEvent) {u : MissionProjection}
      → IsConsistent s
      → apply_event env s event ≡ ok u
      → Applied s u
  unfolding put_mission
  apply_event-Applied s event {u} c h = elim (apply_event-outcome env s event h) [
    | inl x ↦ record {
      attempts = inl (ap (λ (t : MissionProjection). t.attempts) x.created);
      schedules = inl (ap (λ (t : MissionProjection). t.schedules) x.created);
      tasks = inl (ap (λ (t : MissionProjection). t.tasks) x.created);
    }
    | inr x ↦
        let m = touched env event x.previous in
        let s1 = put_mission s event m in
        record {
          attempts = elim (handle-attempts env event m s1 event.payload c.attempts x.handled) [
            | inl same ↦ inl same
            | inr w ↦ inr (record { attempt = w.attempt; written = w.written; free = w.free })
          ];
          schedules = elim (handle-schedules env event m s1 event.payload c.schedules x.handled) [
            | inl same ↦ inl same
            | inr w ↦ inr (record {
              schedule = w.schedule;
              written = w.written;
              unfired = w.unfired;
              sound = w.sound;
            })
          ];
          tasks = elim (handle-tasks env event m s1 event.payload c.tasks x.handled) [
            | inl same ↦ inl same
            | inr w ↦ inr (record {
              key = w.key;
              task = w.task;
              written = w.written;
              within_budget = w.within_budget;
            })
          ];
        }
  ]

  Applied-IsConsistent : {s u : MissionProjection} → Applied s u → IsConsistent s → IsConsistent u
  Applied-IsConsistent {s} {u} a c = record {
    attempts = elim a.attempts [
      | inl same ↦ λ k x e. c.attempts k x (rw same at e)
      | inr w ↦ AttemptWrite-keyed w c.attempts
    ];
    schedules = elim a.schedules [
      | inl same ↦ λ k x e. c.schedules k x (rw same at e)
      | inr w ↦ ScheduleWrite-sound w c.schedules
    ];
    tasks = elim a.tasks [
      | inl same ↦ λ k x e. c.tasks k x (rw same at e)
      | inr w ↦ TaskWrite-within w c.tasks
    ];
  }

  -- Every accepted event keeps the invariant.
  pub reduce-IsConsistent :
      (s t : MissionProjection) (event : MissionEvent)
      → IsConsistent s
      → reduce_mission_event env s event ≡ ok t
      → IsConsistent t
  reduce-IsConsistent s t event c h = elim (reduce-outcome env s event h) [
    | inl same ↦ rw same c
    | inr a ↦
        let d = Applied-IsConsistent (apply_event-Applied s event c a.applied) c in
        let r = record_event-same a.state event in
        let f = refresh_mission-Refreshed env.comes_before _ t event.mission_id a.refreshed in
        record {
          attempts = λ k x e. d.attempts k x (rw (f.attempts, r.attempts) at e);
          schedules = λ k x e. d.schedules k x (rw (f.schedules, r.schedules) at e);
          tasks = f.budgets (λ k x e. d.tasks k x (rw r.tasks at e));
        }
  ]

  -- A terminal attempt is immutable: no accepted event changes any of it.
  pub reduce-terminal_attempt :
      (s t : MissionProjection) (event : MissionEvent) (k : Text) (a : TaskAttempt)
      → IsConsistent s
      → reduce_mission_event env s event ≡ ok t
      → get s.attempts k ≡ some a
      → is_terminal a.status ≡ true
      → get t.attempts k ≡ some a
  reduce-terminal_attempt s t event k a c h here done = elim (reduce-outcome env s event h) [
    | inl same ↦ rw same here
    | inr x ↦
        let f = refresh_mission-Refreshed env.comes_before _ t event.mission_id x.refreshed in
        let r = record_event-same x.state event in
        rw (f.attempts, r.attempts)
          (elim (apply_event-Applied s event c x.applied).attempts [
            | inl same ↦ rw same here
            | inr w ↦ AttemptWrite-terminal w k a here done
          ])
  ]

  -- In a projection that satisfies IsConsistent, a schedule that has fired is left exactly as it is by
  -- every accepted event.
  pub reduce-fired_schedule :
      (s t : MissionProjection) (event : MissionEvent) (k : Text) (x : MissionSchedule)
      → IsConsistent s
      → reduce_mission_event env s event ≡ ok t
      → get s.schedules k ≡ some x
      → is_some x.fired_at ≡ true
      → get t.schedules k ≡ some x
  reduce-fired_schedule s t event k x c h here fired = elim (reduce-outcome env s event h) [
    | inl same ↦ rw same here
    | inr y ↦
        let f = refresh_mission-Refreshed env.comes_before _ t event.mission_id y.refreshed in
        let r = record_event-same y.state event in
        rw (f.schedules, r.schedules)
          (elim (apply_event-Applied s event c y.applied).schedules [
            | inl same ↦ rw same here
            | inr w ↦ ScheduleWrite-fired w k x here fired
          ])
  ]

  -- The same over a whole log.
  pub replay_from-IsConsistent :
      (events : List MissionEvent) (s t : MissionProjection)
      → IsConsistent s
      → replay_from env s events ≡ ok t
      → IsConsistent t
  unfolding replay_from
  replay_from-IsConsistent [] s t c h = let same : s ≡ t = ground arith in subst IsConsistent same c
  replay_from-IsConsistent (event ∷ events) s t c h =
      elim (Result-cases (reduce_mission_event env s event)) [
        | inr (e, x) ↦ absurd (ground arith)
        | inl (u, x) ↦
            replay_from-IsConsistent events u t (reduce-IsConsistent s u event c x) (ground arith)
      ]

  empty-IsConsistent : IsConsistent empty_mission_projection
  unfolding empty_mission_projection get
  empty-IsConsistent = record {
    attempts = λ k a e. absurd (ground arith);
    schedules = λ k a e. absurd (ground arith);
    tasks = λ k a e. absurd (ground arith);
  }

  -- Whatever log replays from the empty projection without an error, the projection that it gives
  -- satisfies the invariant IsConsistent.
  pub replay-IsConsistent :
      (events : List MissionEvent) (t : MissionProjection)
      → replay_mission_events env events ≡ ok t
      → IsConsistent t
  unfolding replay_mission_events
  replay-IsConsistent events t h =
      replay_from-IsConsistent events empty_mission_projection t empty-IsConsistent h

  -- From a projection that satisfies IsConsistent, an attempt whose status is terminal is left exactly
  -- as it is by every later log that replays without an error.
  pub replay-terminal_attempt :
      (events : List MissionEvent) (s t : MissionProjection) (k : Text) (a : TaskAttempt)
      → IsConsistent s
      → replay_from env s events ≡ ok t
      → get s.attempts k ≡ some a
      → is_terminal a.status ≡ true
      → get t.attempts k ≡ some a
  unfolding replay_from
  replay-terminal_attempt [] s t k a c h here done =
      let same : s ≡ t = ground arith in
      subst (λ (u : MissionProjection). get u.attempts k ≡ some a) same here
  replay-terminal_attempt (event ∷ events) s t k a c h here done =
      elim (Result-cases (reduce_mission_event env s event)) [
        | inr (e, x) ↦ absurd (ground arith)
        | inl (u, x) ↦
            replay-terminal_attempt events u t k a (reduce-IsConsistent s u event c x)
              (ground arith) (reduce-terminal_attempt s u event k a c x here done) done
      ]
