-- ===== src/Missions/Samples.antt =====
-- Small missions, and what the reducer does on them.
use swarm_z.Base.{
  ℕ, ◌≡◌, refl, Bool, true, false, none, some, List, [], ◌∷◌, ◌++◌, map, of_nat, ltb, ◌==◌,
  if◌then◌else◌, Text, codes, values, library,
}
use swarm_z.Missions.Types.{
  MissionStatus, TaskStatus, AttemptStatus, MissionRisk, IntegrationMode, WorktreePolicy, Mission,
  TaskAttempt, MissionProjection, MissionEvent, MissionEventPayload, Actor, MissionTaskInput,
  MissionCreatedPayload, FinishedStatus, MissionSchedule, mission_created, mission_archived,
  task_added, task_updated, attempt_started, attempt_finished, schedule_created, schedule_claimed,
  schedule_fired,
}
use swarm_z.Missions.Result.{Result, ok, err, dependency_cycle, unknown_dependency}
use swarm_z.Missions.Validate.{validation}
use swarm_z.Missions.Graph
use swarm_z.Missions.Derive
use swarm_z.Missions.Refresh
use swarm_z.Missions.Handlers
use swarm_z.Missions.Handlers.{Surroundings}
use swarm_z.Missions.Reduce
use swarm_z.Missions.Reduce.{
  reduce_mission_event, replay_mission_events, empty_mission_projection, replay_from,
}

-- The order of the first code units that differ.
unfoldable pub comes_before : Text → Text → Bool
comes_before [] [] = false
comes_before [] (b ∷ bs) = true
comes_before (a ∷ as') [] = false
comes_before (a ∷ as') (b ∷ bs) = let rest = comes_before as' bs in if a == b then rest else ltb a b

-- Everything that a run of the reducer computes with.
unfoldable pub program : Unit {0}
unfolding library validation Graph.followed Graph.visit_all Graph.visit Graph.own_ids
    Graph.acyclic_order Graph.assert_acyclic Graph.dependency_id Graph.put_edges
    Graph.replace_task_dependencies Derive.task_attempts Derive.is_succeeded Derive.is_open_gate
    Derive.is_failed_gate Derive.required_gates Derive.has_succeeded Derive.blocks Derive.is_blocked
    Derive.is_running_attempt Derive.is_later_batch Derive.latest_batch Derive.open_batch_status
    Derive.gate_status Derive.attempt_outcome Derive.is_requeued_after Derive.latest_status
    Derive.latest_or Derive.unblocked_status Derive.derive_task_status Derive.is_status_archived
    Derive.is_status_succeeded Derive.is_status_needs_human Derive.is_status_failed
    Derive.is_status_live Derive.is_train_completed Derive.is_train_blocked
    Derive.is_train_cancelled Derive.is_entry_done Derive.integrated_task_ids
    Derive.train_mode_status Derive.unfinished_status Derive.live_status Derive.live_tasks
    Derive.derive_mission_status Refresh.status_index Refresh.is_other Refresh.set_status
    Refresh.refresh_pass Refresh.refresh_passes Refresh.refresh_mission Handlers.put_mission
    Handlers.put_task Handlers.put_attempt Handlers.put_batch Handlers.put_gate
    Handlers.put_schedule Handlers.own Handlers.own_task Handlers.is_human Handlers.is_system
    Handlers.is_status_running Handlers.is_running Handlers.is_terminal Handlers.new_mission
    Handlers.create_mission Handlers.is_task_running Handlers.archive_mission
    Handlers.cancel_mission Handlers.activate_mission Handlers.pause_mission Handlers.resume_mission
    Handlers.is_true Handlers.new_task Handlers.add_task Handlers.apply_patch
    Handlers.is_priority_bad Handlers.is_max_attempts_bad Handlers.assert_patch_dependencies
    Handlers.assert_candidate Handlers.update_task Handlers.joined_batch Handlers.cannot_start
    Handlers.new_attempt Handlers.with_attempt Handlers.join_batch Handlers.start_attempt
    Handlers.finished_status Handlers.start_or_zero Handlers.finish_attempt Handlers.is_time_bad
    Handlers.new_schedule Handlers.create_schedule Handlers.own_schedule Handlers.cancel_schedule
    Handlers.claim_schedule Handlers.fail_delivery Handlers.fire_schedule
    Reduce.empty_mission_projection Reduce.revision_after Reduce.next_mission_revision
    Reduce.mission_event_fingerprint Reduce.mission_command_fingerprint Reduce.handle
    Reduce.handle_first Reduce.refuse_archived Reduce.handle_next Reduce.apply_event Reduce.key_of
    Reduce.put_key Reduce.record_event Reduce.admit Reduce.check_key Reduce.reduce_mission_event
    Reduce.replay_from Reduce.replay_mission_events comes_before
program = tt

abbrev pub surroundings : Surroundings
surroundings = record {
  stringify_event = λ e. e.revision ∷ e.mission_id;
  stringify_command = λ c. c.mission_id;
  comes_before = comes_before;
  to_lower_case = λ s. s;
  to_text = λ j. [];
}

abbrev pub m1 : Text
m1 = codes "m1"

abbrev pub event : Text → ℕ → Actor → MissionEventPayload → MissionEvent
event id revision actor payload = record {
  event_id = id;
  mission_id = m1;
  revision = revision;
  occurred_at = of_nat 5;
  idempotency_key = none;
  actor = actor;
  payload = payload;
}

abbrev pub created_input : MissionCreatedPayload
created_input = record {
  project_id = codes "p";
  title = codes "Title";
  objective = codes "Objective";
  policy = record {
    max_parallel_attempts = of_nat 2;
    stop_on_critical_failure = true;
    require_quality_gates = false;
    integration_mode = IntegrationMode.manual;
    network_authority = none;
    github_authority = none;
    allowed_tools = none;
    quality_commands = none;
    stop_on_regression = none;
    stop_on_conflict = none;
    runtime_environment = none;
  };
  budget = record {
    max_attempts_total = none;
    max_active_minutes = none;
    max_tokens = none;
    max_cost_usd = none;
  };
  created_at = of_nat 5;
}

abbrev pub created : MissionEvent
created = event (codes "e1") 1 Actor.human (mission_created created_input)

abbrev pub task_input : Text → List Text → MissionTaskInput
task_input id dependencies = record {
  id = id;
  mission_id = m1;
  title = codes " Do it ";
  description = [];
  priority = of_nat 50;
  role = codes "worker";
  risk = MissionRisk.low;
  acceptance_criteria = [];
  root = record { project_id = codes "p"; path = codes "/p" };
  worktree_policy = WorktreePolicy.new;
  dependency_ids = dependencies;
  declared_files = [];
  declared_globs = [];
  max_attempts = of_nat 2;
  allow_noop = none;
  created_at = of_nat 5;
}

abbrev pub added : MissionEvent
added = event (codes "e2") 2 Actor.orchestrator (task_added (task_input (codes "t1") []))

abbrev pub added_next : MissionEvent
added_next =
    event (codes "e3") 3 Actor.orchestrator (task_added (task_input (codes "t2") (codes "t1" ∷ [])))

abbrev pub started : MissionEvent
started = event (codes "e4") 4 Actor.scheduler (
    attempt_started (record {
      id = codes "a1";
      task_id = codes "t1";
      candidate_batch_id = none;
      session_id = none;
      worker_label = none;
      started_at = of_nat 6;
    }))

abbrev pub finished : MissionEvent
finished = event (codes "e5") 5 Actor.system (
    attempt_finished (record {
      attempt_id = codes "a1";
      status = FinishedStatus.succeeded;
      finished_at = of_nat 9;
      summary = none;
      error = none;
      report = none;
    }))

abbrev pub log : List MissionEvent
log = created ∷ added ∷ added_next ∷ started ∷ finished ∷ []

-- The statuses of the tasks that a log leads to.
statuses : Result MissionProjection → List TaskStatus
statuses (ok s) = map (λ task. task.status) (values s.tasks)
statuses (err e) = []

statuses-log :
    statuses (replay_mission_events surroundings log) ≡ TaskStatus.succeeded ∷ TaskStatus.ready ∷ []
unfolding program statuses
statuses-log = refl

statuses-started :
    statuses (replay_mission_events surroundings (created ∷ added ∷ added_next ∷ started ∷ []))
    ≡ TaskStatus.running ∷ TaskStatus.blocked_by_dependency ∷ []
unfolding program statuses
statuses-started = refl

-- The projection that a log leads to.
unfoldable pub after : List MissionEvent → MissionProjection
after events = elim (replay_mission_events surroundings events) [
  | ok s ↦ s
  | err e ↦ empty_mission_projection
]

abbrev pub archived : MissionEvent
archived = event (codes "e6") 6 Actor.human (mission_archived (of_nat 10))

abbrev pub scheduled : MissionEvent
scheduled = event (codes "s1") 2 Actor.human (
    schedule_created (record {
      id = codes "r1";
      mission_id = m1;
      project_id = codes "p";
      note = codes "look";
      at_time = of_nat 7;
      created_at = of_nat 5;
      cancelled_at = none;
      claimed_at = none;
      fired_at = none;
      delivery_attempts = none;
      last_delivery_error = none;
      next_attempt_at = none;
    }))

abbrev pub claimed : MissionEvent
claimed = event (codes "s2") 3 Actor.system (schedule_claimed (codes "r1") (of_nat 8))

abbrev pub fired : MissionEvent
fired = event (codes "s3") 4 Actor.system (schedule_fired (codes "r1") (of_nat 9))

abbrev pub added_late : MissionEvent
added_late = event (codes "s4") 5 Actor.orchestrator (task_added (task_input (codes "t1") []))

abbrev pub archived_early : MissionEvent
archived_early = event (codes "e2") 2 Actor.human (mission_archived (of_nat 10))

-- What is stored of the archived mission, the finished attempt and the fired schedule.
abbrev pub archived_mission : Mission
archived_mission = record {
  id = m1;
  project_id = codes "p";
  title = codes "Title";
  objective = codes "Objective";
  status = MissionStatus.archived;
  task_ids = [];
  integration_train_ids = [];
  policy = created_input.policy;
  budget = created_input.budget;
  created_at = of_nat 5;
  updated_at = of_nat 5;
  archived_at = some (of_nat 10);
  cancelled_at = none;
  paused_at = none;
  activated_at = none;
  revision = 2;
}

abbrev pub active_mission : Mission
active_mission = record archived_mission {
  status = MissionStatus.active;
  task_ids = codes "t1" ∷ [];
  archived_at = none;
}

abbrev pub finished_attempt : TaskAttempt
finished_attempt = record {
  id = codes "a1";
  mission_id = m1;
  task_id = codes "t1";
  ordinal = 1;
  status = AttemptStatus.succeeded;
  session_id = none;
  worker_label = none;
  resume_instruction = none;
  started_at = some (of_nat 6);
  finished_at = some (of_nat 9);
  summary = none;
  error = none;
  report = none;
  artifact_ids = [];
  candidate_batch_id = none;
}

abbrev pub fired_schedule : MissionSchedule
fired_schedule = record {
  id = codes "r1";
  mission_id = m1;
  project_id = codes "p";
  note = codes "look";
  at_time = of_nat 7;
  created_at = of_nat 5;
  cancelled_at = none;
  claimed_at = some (of_nat 8);
  fired_at = some (of_nat 9);
  delivery_attempts = some 1;
  last_delivery_error = none;
  next_attempt_at = none;
}

abbrev pub waiting_schedule : MissionSchedule
waiting_schedule = record fired_schedule { claimed_at = none; fired_at = none }

-- Each log replays without an error.
replays : Result MissionProjection → Bool
replays (ok s) = true
replays (err e) = false

replays-logs :
    (replays (replay_mission_events surroundings (log ++ (archived ∷ []))) ≡ true)
    × (replays (
          replay_mission_events surroundings
            (created ∷ scheduled ∷ claimed ∷ fired ∷ added_late ∷ []))
        ≡ true)
unfolding program replays
replays-logs = (refl, refl)

-- A dependency on itself is refused before the cycle check, being unknown yet.
self_dependency :
    reduce_mission_event surroundings
      (after (created ∷ []))
      (event (codes "e2") 2 Actor.human (task_added (task_input (codes "t1") (codes "t1" ∷ []))))
    ≡ err unknown_dependency
unfolding program after
self_dependency = refl

-- Two tasks that depend on each other, by an edit.
cyclic_edit :
    reduce_mission_event surroundings (after (created ∷ added ∷ added_next ∷ [])) (
      event (codes "e4") 4 Actor.human (
        task_updated (codes "t1") (of_nat 7) (record {
          title = none;
          description = none;
          priority = none;
          role = none;
          risk = none;
          acceptance_criteria = none;
          root = none;
          worktree_policy = none;
          dependency_ids = some (codes "t2" ∷ []);
          declared_files = none;
          declared_globs = none;
          max_attempts = none;
          allow_noop = none;
        })))
    ≡ err dependency_cycle
unfolding program after
cyclic_edit = refl
