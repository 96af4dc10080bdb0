-- ===== src/Missions/Reduce/Outcome.antt =====
-- What an accepted event went through (reduceMissionEvent of src/lib/missions/core.ts).
use swarm_z.Base.{
  ◌≡◌, refl, ◌⊎◌, inl, inr, ==_iff, false, Option, none, some, is_some, Text, get, Option-cases,
  arith,
}
use swarm_z.Missions.Types.{
  Mission, MissionCreatedPayload, MissionProjection, MissionEvent, MissionEventPayload,
  mission_created,
}
use swarm_z.Missions.Result.{ok, Result-cases}
use swarm_z.Missions.Refresh.{refresh_mission}
use swarm_z.Missions.Handlers.{Surroundings, new_mission, create_mission, put_mission}
use swarm_z.Missions.Reduce.{
  handle, handle_first, refuse_archived, handle_next, apply_event, key_of, record_event, admit,
  check_key, next_mission_revision, reduce_mission_event,
}

module _ (env : Surroundings) where
  -- The event was new, and was applied and recorded.
  pub record Admitted (s : MissionProjection) (event : MissionEvent) (t : MissionProjection)
      : Type 0 where
    pub unseen : get s.applied_event_ids event.event_id ≡ none
    pub revision : event.revision ≡ next_mission_revision s event.mission_id
    pub state : MissionProjection
    pub applied : apply_event env s event ≡ ok state
    pub refreshed :
        refresh_mission env.comes_before (record_event env state event) event.mission_id ≡ ok t

  admit-Admitted :
      (s : MissionProjection) (event : MissionEvent) {t : MissionProjection}
      → get s.applied_event_ids event.event_id ≡ none
      → admit env s event ≡ ok t
      → Admitted s event t
  unfolding admit
  admit-Admitted s event unseen h = elim (Result-cases (apply_event env s event)) [
    | inl (u, e) ↦ record {
      unseen = unseen;
      revision = (==_iff event.revision _).0 (ground arith);
      state = u;
      applied = e;
      refreshed = ground arith;
    }
    | inr (x, e) ↦ absurd (ground arith)
  ]

  check_key-outcome :
      (s : MissionProjection) (event : MissionEvent) (key : Option Text) {t : MissionProjection}
      → check_key env s event key ≡ ok t
      → (t ≡ s) ⊎ (admit env s event ≡ ok t)
  unfolding check_key
  check_key-outcome s event none h = inr h
  check_key-outcome s event (some key) h = elim (Option-cases (get s.idempotency_keys key)) [
    | inl n ↦ inr (ground arith)
    | inr (prior, p) ↦ inl (ground arith)
  ]

  -- An accepted event changed nothing, or was admitted.
  pub reduce-outcome :
      (s : MissionProjection) (event : MissionEvent) {t : MissionProjection}
      → reduce_mission_event env s event ≡ ok t
      → (t ≡ s) ⊎ Admitted s event t
  unfolding reduce_mission_event
  reduce-outcome s event {t} h = elim (Option-cases (get s.applied_event_ids event.event_id)) [
    | inr (applied, a) ↦ inl (ground arith)
    | inl n ↦
        let checked : check_key env s event (key_of env event) ≡ ok t = ground arith in
        elim (check_key-outcome s event (key_of env event) checked) [
          | inl same ↦ inl same
          | inr admitted ↦ inr (admit-Admitted s event n admitted)
        ]
  ]

  -- The mission as a handler of a later event sees it.
  abbrev pub touched : MissionEvent → Mission → Mission
  touched event previous = record previous {
    updated_at = event.occurred_at;
    revision = event.revision;
  }

  pub record Created (s : MissionProjection) (event : MissionEvent) (u : MissionProjection)
      : Type 0 where
    pub input : MissionCreatedPayload
    pub payload : event.payload ≡ mission_created input
    pub absent : get s.missions event.mission_id ≡ none
    pub created : u ≡ put_mission s event (new_mission event input)

  pub record Handled (s : MissionProjection) (event : MissionEvent) (u : MissionProjection)
      : Type 0 where
    pub previous : Mission
    pub present : get s.missions event.mission_id ≡ some previous
    pub handled :
        handle env event
          (touched event previous)
          (put_mission s event (touched event previous))
          event.payload
        ≡ ok u
    pub open_mission : is_some previous.archived_at ≡ false

  handle_first-created :
      (s : MissionProjection) (event : MissionEvent) (p : MissionEventPayload)
      {u : MissionProjection}
      → handle_first env event s p ≡ ok u
      → (i : MissionCreatedPayload) × (p ≡ mission_created i)
        × (u ≡ put_mission s event (new_mission event i))
  unfolding handle_first create_mission
  handle_first-created s event (mission_created i) h = (i, refl, ground arith)
  handle_first-created s event _ h = cc

  open_of_handled :
      (event : MissionEvent) (previous m : Mission) (s : MissionProjection)
      (p : MissionEventPayload) {u : MissionProjection}
      → refuse_archived env previous p ≡ ok tt
      → handle env event m s p ≡ ok u
      → is_some previous.archived_at ≡ false
  unfolding refuse_archived handle
  open_of_handled event previous m s (mission_created i) r h = cc
  open_of_handled event previous m s _ r h = ground arith

  pub apply_event-outcome :
      (s : MissionProjection) (event : MissionEvent) {u : MissionProjection}
      → apply_event env s event ≡ ok u
      → Created s event u ⊎ Handled s event u
  unfolding apply_event handle_next
  apply_event-outcome s event {u} h = elim (Option-cases (get s.missions event.mission_id)) [
    | inl n ↦
        let (i, q, e) = handle_first-created s event event.payload (ground arith) in
        inl (record { input = i; payload = q; absent = n; created = e })
    | inr (previous, p) ↦
        let allowed : refuse_archived env previous event.payload ≡ ok tt = ground arith in
        let handled : handle env event (touched event previous)
              (put_mission s event (touched event previous)) event.payload
            ≡ ok u =
          ground arith in
        inr (record {
          previous = previous;
          present = p;
          handled = handled;
          open_mission = open_of_handled event previous _ _ event.payload allowed handled;
        })
  ]
