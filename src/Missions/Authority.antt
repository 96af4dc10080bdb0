-- ===== src/Missions/Authority.antt =====
-- Who may send which event (the actor checks of reduceMissionEvent in src/lib/missions/core.ts).
use swarm_z.Base.{◌≡◌, refl, ◌⊎◌, inl, inr, not, ◌||◌, Bool, true, is_some, arith}
use swarm_z.Missions.Types.{
  Mission, MissionProjection, MissionEvent, MissionEventPayload, Actor, mission_created,
  task_updated, task_requeued, candidate_batch_requested, candidate_batch_selected,
  candidate_batch_overridden, schedule_claimed, schedule_delivery_failed, schedule_fired,
}
use swarm_z.Missions.Result.{ok}
use swarm_z.Missions.Handlers.{
  Surroundings, is_human, is_system, update_task, requeue_task, request_batch, choose_candidate,
  claim_schedule, fail_delivery, fire_schedule,
}
use swarm_z.Missions.Reduce.{handle, reduce_mission_event}
use swarm_z.Missions.Reduce.Outcome.{reduce-outcome, apply_event-outcome, touched}

-- A human alone requeues tasks, waives the need for a change, and requests or chooses candidates; the
-- system alone claims, fails and fires schedules.
abbrev pub may_send : Actor → MissionEventPayload → Bool
may_send actor (task_updated id t patch) = is_human actor || not (is_some patch.allow_noop)
may_send actor (task_requeued id a i t) = is_human actor
may_send actor (candidate_batch_requested i) = is_human actor
may_send actor (candidate_batch_selected b a t) = is_human actor
may_send actor (candidate_batch_overridden b a r t) = is_human actor
may_send actor (schedule_claimed id t) = is_system actor
may_send actor (schedule_delivery_failed id t e n) = is_system actor
may_send actor (schedule_fired id t) = is_system actor
may_send actor _ = true

module _ (env : Surroundings) where
  handle-may_send :
      (event : MissionEvent) (mission : Mission) (s : MissionProjection) (p : MissionEventPayload)
      {u : MissionProjection}
      → handle env event mission s p ≡ ok u
      → may_send event.actor p ≡ true
  unfolding handle update_task requeue_task request_batch choose_candidate claim_schedule
      fail_delivery fire_schedule
  handle-may_send event mission s (mission_created i) h = ground arith
  handle-may_send event mission s (schedule_claimed id t) h = ground arith
  handle-may_send event mission s _ h = ground arith

  -- An accepted event either changes nothing or was sent by an actor that may send it.
  pub reduce-may_send :
      (s t : MissionProjection) (event : MissionEvent)
      → reduce_mission_event env s event ≡ ok t
      → (t ≡ s) ⊎ (may_send event.actor event.payload ≡ true)
  reduce-may_send s t event h = elim (reduce-outcome env s event h) [
    | inl same ↦ inl same
    | inr a ↦ elim (apply_event-outcome env s event a.applied) [
      | inl c ↦ inr (rw c.payload refl)
      | inr x ↦ inr (handle-may_send event (touched env event x.previous) _ event.payload x.handled)
    ]
  ]
