-- ===== src/Missions/Status.antt =====
-- The status that the projection shows of a mission (refreshMission and deriveMissionStatus of
-- src/lib/missions/core.ts).
use swarm_z.Base.{◌≡◌, ◌⊎◌, inl, inr, some, get}
use swarm_z.Missions.Types.{Mission, MissionProjection, MissionEvent}
use swarm_z.Missions.Result.{ok}
use swarm_z.Missions.Derive.{derive_mission_status}
use swarm_z.Missions.Refresh.Frame.{refresh_mission-Refreshed}
use swarm_z.Missions.Handlers.{Surroundings}
use swarm_z.Missions.Reduce.{reduce_mission_event, record_event}
use swarm_z.Missions.Reduce.Outcome.{reduce-outcome}

module _ (env : Surroundings) where
  -- An accepted event either changes nothing, or leaves its mission with the status that is derived from
  -- the new projection.
  pub reduce-derived_status :
      (s t : MissionProjection) (event : MissionEvent) (m : Mission)
      → reduce_mission_event env s event ≡ ok t
      → get t.missions event.mission_id ≡ some m
      → (t ≡ s) ⊎ (m.status ≡ derive_mission_status t m)
  reduce-derived_status s t event m h here = elim (reduce-outcome env s event h) [
    | inl same ↦ inl same
    | inr a ↦
        let f =
          refresh_mission-Refreshed env.comes_before (record_event env a.state event) t
            event.mission_id a.refreshed in
        inr (f.derived m here)
  ]
