-- ===== src/Missions/Effects/Frame.antt =====
-- The dictionaries that no handler writes, and how a handler writes the missions.
use swarm_z.Base.{
  ◌≡◌, refl, ◌⊎◌, inl, inr, ◌++◌, Option, none, some, List, [], ◌∷◌, Number, Text, put, arith,
}
use swarm_z.Missions.Types.{
  Mission, MissionArtifact, MissionProjection, MissionEvent, MissionEventPayload, mission_archived,
  mission_cancelled, mission_activated, mission_paused, mission_resumed, task_added,
  integration_train_created, candidate_batch_selected, candidate_batch_overridden, mission_created,
}
use swarm_z.Missions.Result.{ok}
use swarm_z.Missions.Handlers.{
  Surroundings, rematerialize_all, choose_candidate, put_gate, put_task, put_batch, new_task,
}
use swarm_z.Missions.Reduce.{handle}
use swarm_z.Missions.Effects.Opened.{handlers}

-- The dictionaries that rematerialised gates leave alone.
pub record SameButGates (s t : MissionProjection) : Type 0 where
  pub missions : t.missions ≡ s.missions
  pub tasks : t.tasks ≡ s.tasks
  pub attempts : t.attempts ≡ s.attempts
  pub schedules : t.schedules ≡ s.schedules
  pub applied : t.applied_event_ids ≡ s.applied_event_ids
  pub keys : t.idempotency_keys ≡ s.idempotency_keys

module _ (env : Surroundings) where
  pub rematerialize_all-SameButGates :
      (artifacts : List MissionArtifact) (t : Number) (ids : List Text) (s : MissionProjection)
      → SameButGates s (rematerialize_all env artifacts t ids s)
  unfolding rematerialize_all put_gate
  rematerialize_all-SameButGates artifacts t [] s = ground arith
  rematerialize_all-SameButGates artifacts t (id ∷ ids) s =
      grind (arith, rematerialize_all-SameButGates artifacts t ids)

  pub choose_candidate-frame :
      (event : MissionEvent) (s : MissionProjection) (batch_id attempt_id : Text)
      (reason : Option Text) (t : Number) {s' : MissionProjection}
      → choose_candidate env event s batch_id attempt_id reason t ≡ ok s'
      → (s'.missions ≡ s.missions)
        × (s'.attempts ≡ s.attempts)
        × (s'.schedules ≡ s.schedules)
        × (s'.applied_event_ids ≡ s.applied_event_ids)
        × (s'.idempotency_keys ≡ s.idempotency_keys)
  unfolding choose_candidate put_task put_batch
  choose_candidate-frame event s batch_id attempt_id reason t h =
      grind (arith, rematerialize_all-SameButGates)

  -- No handler records events or idempotency keys.
  pub handle-records :
      (event : MissionEvent) (mission : Mission) (s : MissionProjection) (p : MissionEventPayload)
      {s' : MissionProjection}
      → handle env event mission s p ≡ ok s'
      → (s'.applied_event_ids ≡ s.applied_event_ids) × (s'.idempotency_keys ≡ s.idempotency_keys)
  unfolding handlers
  handle-records event mission s (candidate_batch_selected b a t) h =
      let f = choose_candidate-frame event s b a none t h in (f.3, f.4)
  handle-records event mission s (candidate_batch_overridden b a r t) h =
      let f = choose_candidate-frame event s b a (some r) t h in (f.3, f.4)
  handle-records event mission s _ h = ground arith

  -- A handler writes no mission but the event's, and keeps its revision.
  pub handle-missions :
      (event : MissionEvent) (mission : Mission) (s : MissionProjection) (p : MissionEventPayload)
      {s' : MissionProjection}
      → handle env event mission s p ≡ ok s'
      → (s'.missions ≡ s.missions)
        ⊎ ((m : Mission) × (s'.missions ≡ put s.missions event.mission_id m)
            × (m.revision ≡ mission.revision))
  unfolding handlers
  handle-missions event mission s (mission_created i) h = ground arith
  handle-missions event mission s (mission_archived t) h =
      inr (record mission { archived_at = some t }, ground arith, refl)
  handle-missions event mission s (mission_cancelled t) h =
      inr (record mission { cancelled_at = some t }, ground arith, refl)
  handle-missions event mission s (mission_activated t) h =
      inr (record mission { activated_at = some t; paused_at = none }, ground arith, refl)
  handle-missions event mission s (mission_paused t) h =
      inr (record mission { paused_at = some t }, ground arith, refl)
  handle-missions event mission s (mission_resumed t) h =
      inr (record mission { paused_at = none }, ground arith, refl)
  handle-missions event mission s (task_added i) h =
      inr
        (record mission { task_ids = mission.task_ids ++ (new_task i).id ∷ [] }, ground arith, refl)
  handle-missions event mission s (integration_train_created i) h = inr (
    record mission { integration_train_ids = mission.integration_train_ids ++ i.id ∷ [] },
    ground arith,
    refl,
  )
  handle-missions event mission s (candidate_batch_selected b a t) h =
      inl (choose_candidate-frame event s b a none t h).0
  handle-missions event mission s (candidate_batch_overridden b a r t) h =
      inl (choose_candidate-frame event s b a (some r) t h).0
  handle-missions event mission s _ h = inl (ground arith)
