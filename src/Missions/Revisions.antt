-- ===== src/Missions/Revisions.antt =====
-- Revisions and isolation of missions under reduceMissionEvent (src/lib/missions/core.ts).
use swarm_z.Base.{
  ◌+◌, ◌≡◌, refl, ◌∙◌, ap, ◌⊎◌, inl, inr, true, false, Option, none, some, is_some, Text, text_eq,
  get, get-put_self, get-put_ne, arith,
}
use swarm_z.Missions.Types.{Mission, MissionProjection, MissionEvent}
use swarm_z.Missions.Result.{ok}
use swarm_z.Missions.Handlers.{Surroundings, put_mission, new_mission}
use swarm_z.Missions.Refresh.Frame.{refresh_mission-Refreshed}
use swarm_z.Missions.Effects.{handle-missions}
use swarm_z.Missions.Reduce.{
  record_event, put_key, key_of, apply_event, revision_after, next_mission_revision,
  reduce_mission_event,
}
use swarm_z.Missions.Reduce.Outcome.{reduce-outcome, apply_event-outcome, touched}

module _ (env : Surroundings) where
  put_key-missions :
      (s : MissionProjection) (event : MissionEvent) (key : Option Text)
      → (put_key env s event key).missions ≡ s.missions
  unfolding put_key
  put_key-missions s event none = refl
  put_key-missions s event (some key) = refl

  record_event-missions :
      (s : MissionProjection) (event : MissionEvent)
      → (record_event env s event).missions ≡ s.missions
  unfolding record_event
  record_event-missions s event = put_key-missions _ event (key_of env event)

  -- The event's mission after the event was applied: it has the event's revision.
  applied_mission :
      (s : MissionProjection) (event : MissionEvent) {u : MissionProjection}
      → apply_event env s event ≡ ok u
      → (m : Mission) × (get u.missions event.mission_id ≡ some m) × (m.revision ≡ event.revision)
  unfolding put_mission new_mission
  applied_mission s event {u} h = elim (apply_event-outcome env s event h) [
    | inl c ↦
        let m : Mission = new_mission event c.input in
        (
          m,
          ap (λ (t : MissionProjection). get t.missions event.mission_id) c.created
              ∙ get-put_self s.missions event.mission_id m,
          refl,
        )
    | inr x ↦
        let m : Mission = touched env event x.previous in
        elim (handle-missions env event m (put_mission s event m) event.payload x.handled) [
          | inl same ↦ (m, rw same (get-put_self s.missions event.mission_id m), refl)
          | inr (m', written, r) ↦ (m', rw written (get-put_self _ event.mission_id m'), r)
        ]
  ]

  -- Applying an event leaves the other missions alone.
  applied_others :
      (s : MissionProjection) (event : MissionEvent) (k : Text) {u : MissionProjection}
      → apply_event env s event ≡ ok u
      → text_eq event.mission_id k ≡ false
      → get u.missions k ≡ get s.missions k
  unfolding put_mission
  applied_others s event k {u} h other = elim (apply_event-outcome env s event h) [
    | inl c ↦
        ap (λ (t : MissionProjection). get t.missions k) c.created
        ∙ get-put_ne s.missions event.mission_id k _ other
    | inr x ↦
        let m : Mission = touched env event x.previous in
        let before = get-put_ne s.missions event.mission_id k m other in
        elim (handle-missions env event m (put_mission s event m) event.payload x.handled) [
          | inl same ↦ rw same before
          | inr (m', written, r) ↦ rw written (get-put_ne _ event.mission_id k m' other ∙ before)
        ]
  ]

  -- An accepted event either changes nothing, or has exactly the revision that its mission expects
  -- next, and the mission then expects the revision after that one.
  pub reduce-revision :
      (s t : MissionProjection) (event : MissionEvent)
      → reduce_mission_event env s event ≡ ok t
      → (t ≡ s)
        ⊎ ((event.revision ≡ next_mission_revision s event.mission_id)
            × (next_mission_revision t event.mission_id
                ≡ next_mission_revision s event.mission_id + 1))
  unfolding next_mission_revision revision_after
  reduce-revision s t event h = elim (reduce-outcome env s event h) [
    | inl same ↦ inl same
    | inr a ↦
        let (m, here, r) = applied_mission s event a.applied in
        let f = refresh_mission-Refreshed env.comes_before _ t event.mission_id a.refreshed in
        let (m', there, r', _) = f.revised m (rw (record_event-missions a.state event) here) in
        inr (a.revision, ground (arith, a.revision))
  ]

  -- An accepted event leaves the entry that every mission but its own has in the projection's missions
  -- exactly as it was.
  pub reduce-other_missions :
      (s t : MissionProjection) (event : MissionEvent) (k : Text)
      → reduce_mission_event env s event ≡ ok t
      → text_eq event.mission_id k ≡ false
      → get t.missions k ≡ get s.missions k
  reduce-other_missions s t event k h other = elim (reduce-outcome env s event h) [
    | inl same ↦ ap (λ (u : MissionProjection). get u.missions k) same
    | inr a ↦
        let f = refresh_mission-Refreshed env.comes_before _ t event.mission_id a.refreshed in
        f.others k other
        ∙ (ap (λ d. get d k) (record_event-missions a.state event)
            ∙ applied_others s event k a.applied other)
  ]

  -- An archived mission is immutable: an accepted event of it is a repetition, and changes nothing in
  -- the whole projection.
  pub reduce-archived :
      (s t : MissionProjection) (event : MissionEvent) (m : Mission)
      → get s.missions event.mission_id ≡ some m
      → is_some m.archived_at ≡ true
      → reduce_mission_event env s event ≡ ok t
      → t ≡ s
  reduce-archived s t event m here archived h = elim (reduce-outcome env s event h) [
    | inl same ↦ same
    | inr a ↦ elim (apply_event-outcome env s event a.applied) [
      | inl c ↦ absurd (ground (arith, c.absent))
      | inr x ↦ absurd (ground (arith, x.present, x.open_mission))
    ]
  ]
