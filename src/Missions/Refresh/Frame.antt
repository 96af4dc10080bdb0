-- ===== src/Missions/Refresh/Frame.antt =====
-- What a refresh of statuses leaves alone (refreshMission of src/lib/missions/core.ts).
use swarm_z.Base.{
  ℕ, zero, suc, ◌≡◌, refl, sym, ◌∙◌, subst, inl, inr, Bool, true, false, ◌||◌, some, List, [], ◌∷◌,
  length, Dict, Text, text_eq, text_eq_sound, get, put, get-put, get-put_self, get-put_ne,
  Bool-cases, Option-cases, arith,
}
use swarm_z.Missions.Types.{MissionStatus, Mission, MissionTask, TaskStatus, MissionProjection}
use swarm_z.Missions.Result.{ok, Result-cases}
use swarm_z.Missions.Derive.{
  derive_task_status, derive_mission_status, live_status, live_tasks, train_mode_status,
  unfinished_status, integrated_task_ids,
}
use swarm_z.Missions.Refresh.{is_other, set_status, refresh_pass, refresh_passes, refresh_mission}
use swarm_z.Missions.Effects.Tasks.{IsWithinBudget, TasksWithinBudget}

-- Only tasks differ, and each stays within its budget.
pub record OnlyTasks (s t : MissionProjection) : Type 0 where
  pub missions : t.missions ≡ s.missions
  pub attempts : t.attempts ≡ s.attempts
  pub schedules : t.schedules ≡ s.schedules
  pub applied : t.applied_event_ids ≡ s.applied_event_ids
  pub keys : t.idempotency_keys ≡ s.idempotency_keys
  pub budgets : TasksWithinBudget s → TasksWithinBudget t

OnlyTasks-refl : (s : MissionProjection) → OnlyTasks s s
OnlyTasks-refl s = record {
  missions = refl;
  attempts = refl;
  schedules = refl;
  applied = refl;
  keys = refl;
  budgets = λ b. b;
}

OnlyTasks-trans : {s t u : MissionProjection} → OnlyTasks s t → OnlyTasks t u → OnlyTasks s u
OnlyTasks-trans f g = record {
  missions = g.missions ∙ f.missions;
  attempts = g.attempts ∙ f.attempts;
  schedules = g.schedules ∙ f.schedules;
  applied = g.applied ∙ f.applied;
  keys = g.keys ∙ f.keys;
  budgets = λ b. g.budgets (f.budgets b);
}

set_status-OnlyTasks :
    (s : MissionProjection) (id : Text) (task : MissionTask) (status : TaskStatus)
    → get s.tasks id ≡ some task
    → OnlyTasks s (set_status s id task status)
unfolding set_status
set_status-OnlyTasks s id task status here = record {
  missions = refl;
  attempts = refl;
  schedules = refl;
  applied = refl;
  keys = refl;
  budgets = λ b k x e. elim (Bool-cases (text_eq id k)) [
    | inl same ↦
        let task' : MissionTask = record task { status = status } in
        let found : some task' ≡ some x = rw (get-put s.tasks id k task', same) at e in
        let it : task' ≡ x = cc in
        let old = b id task here in
        subst (IsWithinBudget k) it (
          subst (λ j. IsWithinBudget j task') (text_eq_sound id k same)
            (record { keyed = old.keyed; whole = old.whole; within = old.within }))
    | inr other ↦ b k x (rw (get-put s.tasks id k (record task { status = status }), other) at e)
  ];
}

module _ (compare : Text → Text → Bool) where
  refresh_pass-OnlyTasks :
      (ids : List Text) (changed : Bool) (s : MissionProjection) (r : Bool × MissionProjection)
      → refresh_pass compare ids changed s ≡ ok r
      → OnlyTasks s r.1
  unfolding refresh_pass
  refresh_pass-OnlyTasks [] changed s r h =
      let same : s ≡ r.1 = ground arith in subst (OnlyTasks s) same (OnlyTasks-refl s)
  refresh_pass-OnlyTasks (id ∷ ids) changed s r h = elim (Option-cases (get s.tasks id)) [
    | inl n ↦ refresh_pass-OnlyTasks ids changed s r (ground arith)
    | inr (task, here) ↦ elim (Result-cases (derive_task_status compare s task)) [
      | inr (e, x) ↦ absurd (ground arith)
      | inl (status, x) ↦ elim (Bool-cases (is_other status task.status)) [
        | inl other ↦ OnlyTasks-trans (set_status-OnlyTasks s id task status here) (
            refresh_pass-OnlyTasks ids (changed || true) (set_status s id task status) r
              (ground arith))
        | inr same ↦ refresh_pass-OnlyTasks ids (changed || false) s r (ground arith)
      ]
    ]
  ]

  refresh_passes-OnlyTasks :
      (n : ℕ) (ids : List Text) (s t : MissionProjection)
      → refresh_passes compare n ids s ≡ ok t
      → OnlyTasks s t
  unfolding refresh_passes
  refresh_passes-OnlyTasks zero ids s t h =
      let same : s ≡ t = ground arith in subst (OnlyTasks s) same (OnlyTasks-refl s)
  refresh_passes-OnlyTasks (suc n) ids s t h =
      elim (Result-cases (refresh_pass compare ids false s)) [
        | inr (e, x) ↦ absurd (ground arith)
        | inl (r, x) ↦
            let first = refresh_pass-OnlyTasks ids false s r x in
            elim (Bool-cases r.0) [
              | inl again ↦
                  OnlyTasks-trans first (refresh_passes-OnlyTasks n ids r.1 t (ground arith))
              | inr stop ↦ let same : r.1 ≡ t = ground arith in subst (OnlyTasks s) same first
            ]
      ]

  -- The derived status of a mission does not rest on the statuses of missions.
  derive_mission_status-same :
      (s : MissionProjection) (missions : Dict Mission) (mission : Mission) (status : MissionStatus)
      → derive_mission_status
          (record s { missions = missions })
          (record mission { status = status })
        ≡ derive_mission_status s mission
  unfolding derive_mission_status live_status live_tasks train_mode_status unfinished_status
      integrated_task_ids
  derive_mission_status-same s missions mission status = refl

  -- A refresh writes the statuses of tasks and of one mission, and nothing else.
  pub record Refreshed (id : Text) (s t : MissionProjection) : Type 0 where
    pub attempts : t.attempts ≡ s.attempts
    pub schedules : t.schedules ≡ s.schedules
    pub applied : t.applied_event_ids ≡ s.applied_event_ids
    pub keys : t.idempotency_keys ≡ s.idempotency_keys
    pub budgets : TasksWithinBudget s → TasksWithinBudget t
    pub others : (m : Text) → text_eq id m ≡ false → get t.missions m ≡ get s.missions m
    pub revised :
        (mission : Mission)
        → get s.missions id ≡ some mission
        → (mission' : Mission) × (get t.missions id ≡ some mission')
          × (mission'.revision ≡ mission.revision)
          × (mission'.archived_at ≡ mission.archived_at)
    pub derived :
        (mission : Mission)
        → get t.missions id ≡ some mission
        → mission.status ≡ derive_mission_status t mission

  pub refresh_mission-Refreshed :
      (s t : MissionProjection) (id : Text) → refresh_mission compare s id ≡ ok t → Refreshed id s t
  unfolding refresh_mission
  refresh_mission-Refreshed s t id h = elim (Option-cases (get s.missions id)) [
    | inl n ↦
        let same : s ≡ t = ground arith in
        subst (Refreshed id s) same (record {
          attempts = refl;
          schedules = refl;
          applied = refl;
          keys = refl;
          budgets = λ b. b;
          others = λ m e. refl;
          revised = λ mission here. (mission, here, refl, refl);
          derived = λ mission here. absurd (ground (arith, n, here));
        })
    | inr (mission, here) ↦
        elim (Result-cases
          (refresh_passes compare (suc (length mission.task_ids)) mission.task_ids s)) [
            | inr (e, x) ↦ absurd (ground arith)
            | inl (done, x) ↦
                let f =
                  refresh_passes-OnlyTasks (suc (length mission.task_ids)) mission.task_ids s done
                    x in
                let there : get done.missions id ≡ some mission = rw f.missions here in
                let fresh : Mission = record mission {
                  status = derive_mission_status done mission;
                } in
                let last : record done { missions = put done.missions id fresh } ≡ t =
                  ground arith in
                subst (Refreshed id s) last (record {
                  attempts = f.attempts;
                  schedules = f.schedules;
                  applied = f.applied;
                  keys = f.keys;
                  budgets = f.budgets;
                  others = λ m e. rw (get-put_ne done.missions id m fresh e, f.missions) refl;
                  revised = λ mission' here'.
                      let same : mission' ≡ mission = cc in
                      (fresh, get-put_self done.missions id fresh, rw same refl, rw same refl);
                  derived = λ mission' here'.
                      let same : fresh ≡ mission' =
                        ground (arith, get-put_self done.missions id fresh, here') in
                      subst
                        (λ (m : Mission).
                          m.status
                          ≡ derive_mission_status
                              (record done { missions = put done.missions id fresh }) m)
                        same
                        (sym (
                          derive_mission_status-same done (put done.missions id fresh) mission
                            (derive_mission_status done mission)));
                })
          ]
  ]
