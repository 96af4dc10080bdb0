-- ===== src/Missions/Witnesses.antt =====
-- The theorems about the reducer at concrete logs.
use swarm_z.Base.{
  max_num, ◌+◌, ◌≡◌, refl, ◌⊎◌, ◌↔◌, All, length, is_finite, lt_num, true, false, none, some, [],
  ◌∷◌, ◌++◌, of_nat, Text, codes, get,
}
use swarm_z.Missions.Result.{ok, err, dependency_cycle}
use swarm_z.Missions.Graph.{assert_acyclic}
use swarm_z.Missions.Handlers.{is_time_bad}
use swarm_z.Missions.Reduce.{reduce_mission_event, next_mission_revision}
use swarm_z.Missions.Revisions.{reduce-revision, reduce-other_missions, reduce-archived}
use swarm_z.Missions.Idempotence.{reduce-idempotent}
use swarm_z.Missions.History.{
  IsConsistent, replay-IsConsistent, reduce-fired_schedule, replay-terminal_attempt,
}
use swarm_z.Missions.Acyclicity.Order.{Reaches}
use swarm_z.Missions.Acyclicity.{assert_acyclic_sound, assert_acyclic_total}
use swarm_z.Missions.Authority.{may_send, reduce-may_send}
use swarm_z.Missions.Derive.{derive_mission_status}
use swarm_z.Missions.Status.{reduce-derived_status}
use swarm_z.Missions.Schedules.{
  validate_schedule_time, due_at, is_pending, is_due, is_future, pending_schedules,
  split_schedule_due, IsTimed, validate_schedule_time-is_time_bad, split_schedule_due_complete,
}
use swarm_z.Missions.Samples.{
  active_mission, waiting_schedule, comes_before, program, surroundings, m1, created, added,
  archived, scheduled, claimed, fired, added_late, archived_early, archived_mission,
  finished_attempt, fired_schedule, log, after,
}

reduce-revision_example :
    (after (created ∷ added ∷ []) ≡ after (created ∷ []))
    ⊎ ((added.revision ≡ next_mission_revision (after (created ∷ [])) m1)
        × (next_mission_revision (after (created ∷ added ∷ [])) m1
            ≡ next_mission_revision (after (created ∷ [])) m1 + 1))
unfolding program after
reduce-revision_example =
    reduce-revision surroundings (after (created ∷ [])) (after (created ∷ added ∷ [])) added refl

reduce-other_missions_example :
    get (after (created ∷ added ∷ [])).missions (codes "m2")
    ≡ get (after (created ∷ [])).missions (codes "m2")
unfolding program after
reduce-other_missions_example =
    reduce-other_missions surroundings (after (created ∷ [])) (after (created ∷ added ∷ [])) added
      (codes "m2") refl refl

reduce-archived_example :
    after (created ∷ archived_early ∷ []) ≡ after (created ∷ archived_early ∷ [])
unfolding program after
reduce-archived_example =
    reduce-archived surroundings (after (created ∷ archived_early ∷ []))
      (after (created ∷ archived_early ∷ [])) archived_early archived_mission refl refl refl

reduce-idempotent_example :
    reduce_mission_event surroundings (after (created ∷ added ∷ [])) added
    ≡ ok (after (created ∷ added ∷ []))
unfolding program after
reduce-idempotent_example =
    reduce-idempotent surroundings (after (created ∷ [])) (after (created ∷ added ∷ [])) added refl

replay-IsConsistent_example : IsConsistent (after log)
unfolding program after
replay-IsConsistent_example = replay-IsConsistent surroundings log (after log) refl

log-IsConsistent : IsConsistent (after log)
unfolding program after
log-IsConsistent = replay-IsConsistent surroundings log (after log) refl

fired-IsConsistent : IsConsistent (after (created ∷ scheduled ∷ claimed ∷ fired ∷ []))
unfolding program after
fired-IsConsistent =
    replay-IsConsistent surroundings (created ∷ scheduled ∷ claimed ∷ fired ∷ [])
      (after (created ∷ scheduled ∷ claimed ∷ fired ∷ [])) refl

replay-terminal_attempt_example :
    get (after (log ++ (archived ∷ []))).attempts (codes "a1") ≡ some finished_attempt
unfolding program after
replay-terminal_attempt_example =
    replay-terminal_attempt surroundings (archived ∷ []) (after log)
      (after (log ++ (archived ∷ []))) (codes "a1") finished_attempt log-IsConsistent refl refl refl

reduce-fired_schedule_example :
    get (after (created ∷ scheduled ∷ claimed ∷ fired ∷ added_late ∷ [])).schedules (codes "r1")
    ≡ some fired_schedule
unfolding program after
reduce-fired_schedule_example =
    reduce-fired_schedule surroundings (after (created ∷ scheduled ∷ claimed ∷ fired ∷ []))
      (after (created ∷ scheduled ∷ claimed ∷ fired ∷ added_late ∷ [])) added_late (codes "r1")
      fired_schedule fired-IsConsistent refl refl refl

assert_acyclic_sound_example : Reaches (after log).tasks m1 (codes "t2") (codes "t2") → ⊥
unfolding program after
assert_acyclic_sound_example = assert_acyclic_sound (after log).tasks m1 (codes "t2") refl refl

assert_acyclic_total_example :
    (assert_acyclic (after log).tasks m1 ≡ ok tt)
    ⊎ ((assert_acyclic (after log).tasks m1 ≡ err dependency_cycle)
        × (id : Text) × Reaches (after log).tasks m1 id id)
assert_acyclic_total_example = assert_acyclic_total (after log).tasks m1

reduce-may_send_example :
    (after (created ∷ scheduled ∷ claimed ∷ []) ≡ after (created ∷ scheduled ∷ []))
    ⊎ (may_send claimed.actor claimed.payload ≡ true)
unfolding program after
reduce-may_send_example =
    reduce-may_send surroundings (after (created ∷ scheduled ∷ []))
      (after (created ∷ scheduled ∷ claimed ∷ [])) claimed refl

validate_schedule_time-is_time_bad_example :
    (validate_schedule_time (of_nat 100000) (of_nat 40001) ≡ none)
    ↔ (is_time_bad (of_nat 100000) (of_nat 40001) ≡ false)
validate_schedule_time-is_time_bad_example =
    validate_schedule_time-is_time_bad (of_nat 100000) (of_nat 40001)

split_schedule_due_complete_example :
    let split =
      split_schedule_due comes_before (waiting_schedule ∷ fired_schedule ∷ []) (of_nat 8) in
    All (λ x. (is_pending x ≡ true) × (is_due (of_nat 8) x ≡ true)) split.due
    × All (λ x. (is_pending x ≡ true) × (is_future (of_nat 8) x ≡ true)) split.future
    × (length split.due + length split.future
        ≡ length (pending_schedules comes_before (waiting_schedule ∷ fired_schedule ∷ [])))
unfolding IsTimed due_at max_num is_finite of_nat lt_num
split_schedule_due_complete_example =
    split_schedule_due_complete comes_before (waiting_schedule ∷ fired_schedule ∷ []) (of_nat 8)
      refl (refl, (refl, tt))

reduce-derived_status_example :
    (after (created ∷ added ∷ []) ≡ after (created ∷ []))
    ⊎ (active_mission.status ≡ derive_mission_status (after (created ∷ added ∷ [])) active_mission)
unfolding program after
reduce-derived_status_example =
    reduce-derived_status surroundings (after (created ∷ [])) (after (created ∷ added ∷ [])) added
      active_mission refl refl
