-- ===== src/Missions/Idempotence.antt =====
-- Repeated events under reduceMissionEvent (src/lib/missions/core.ts).
use swarm_z.Base.{
  ◌≡◌, refl, ◌∙◌, ap, inl, inr, false, Option, none, some, Text, text_eq, text_eq_refl, get,
  get-put_self, arith,
}
use swarm_z.Missions.Types.{MissionProjection, MissionEvent}
use swarm_z.Missions.Result.{ok}
use swarm_z.Missions.Handlers.{Surroundings}
use swarm_z.Missions.Refresh.Frame.{refresh_mission-Refreshed}
use swarm_z.Missions.Reduce.{
  record_event, put_key, key_of, mission_event_fingerprint, reduce_mission_event,
}
use swarm_z.Missions.Reduce.Outcome.{reduce-outcome}

module _ (env : Surroundings) where
  put_key-applied :
      (s : MissionProjection) (event : MissionEvent) (key : Option Text)
      → (put_key env s event key).applied_event_ids ≡ s.applied_event_ids
  unfolding put_key
  put_key-applied s event none = refl
  put_key-applied s event (some key) = refl

  recorded :
      (s : MissionProjection) (event : MissionEvent)
      → get (record_event env s event).applied_event_ids event.event_id
        ≡ some (mission_event_fingerprint env event)
  unfolding record_event
  recorded s event =
      ap (λ d. get d event.event_id) (put_key-applied _ event (key_of env event))
      ∙ get-put_self s.applied_event_ids event.event_id (mission_event_fingerprint env event)

  -- An event whose id was applied with its fingerprint is accepted with no change.
  seen_again :
      (s t : MissionProjection) (event : MissionEvent)
      → reduce_mission_event env s event ≡ ok t
      → get t.applied_event_ids event.event_id ≡ some (mission_event_fingerprint env event)
      → reduce_mission_event env t event ≡ ok t
  unfolding reduce_mission_event
  seen_again s t event h here = ground (arith, text_eq_refl (mission_event_fingerprint env event))

  -- A delivered event may be delivered again: once an event was accepted, accepting it a second time
  -- gives the very same projection.
  pub reduce-idempotent :
      (s t : MissionProjection) (event : MissionEvent)
      → reduce_mission_event env s event ≡ ok t
      → reduce_mission_event env t event ≡ ok t
  reduce-idempotent s t event h = elim (reduce-outcome env s event h) [
    | inl same ↦ rw same (h ∙ ap ok same)
    | inr a ↦
        let f = refresh_mission-Refreshed env.comes_before _ t event.mission_id a.refreshed in
        seen_again s t event h (rw f.applied (recorded a.state event))
  ]

  -- After an event was admitted under its id, another event of that id is refused, unless its
  -- fingerprint is the same.
  pub reduce-conflict :
      (s t : MissionProjection) (event other : MissionEvent)
      → get s.applied_event_ids event.event_id ≡ none
      → reduce_mission_event env s event ≡ ok t
      → (t ≡ s → ⊥)
      → other.event_id ≡ event.event_id
      → text_eq (mission_event_fingerprint env event) (mission_event_fingerprint env other) ≡ false
      → (u : MissionProjection) → reduce_mission_event env t other ≡ ok u
      → ⊥
  unfolding reduce_mission_event
  reduce-conflict s t event other unseen h changed same_id differs u k =
      elim (reduce-outcome env s event h) [
        | inl same ↦ changed same
        | inr a ↦
            let f = refresh_mission-Refreshed env.comes_before _ t event.mission_id a.refreshed in
            let here : get t.applied_event_ids other.event_id
                ≡ some (mission_event_fingerprint env event) =
              rw (same_id, f.applied) (recorded a.state event) in
            ground (arith, here, differs)
      ]
