-- ===== src/Missions/Effects/Opened.antt =====
-- The handlers with the writes that they end in, for the proofs that look through all of them.
use swarm_z.Missions.Graph.{replace_task_dependencies}
use swarm_z.Missions.Handlers.{
  put_mission, put_task, put_attempt, put_batch, put_gate, put_schedule, own_task, create_mission,
  archive_mission, cancel_mission, activate_mission, pause_mission, resume_mission, add_task,
  update_task, archive_task, pause_task, resume_task, requeue_task, start_attempt, join_batch,
  finish_attempt, record_artifact, list_in_task, list_in_attempt, add_gate, list_gate,
  record_gate_result, put_train, create_train, update_train, request_batch, create_schedule,
  cancel_schedule, claim_schedule, fail_delivery, fire_schedule,
}
use swarm_z.Missions.Reduce.{handle}

unfoldable pub handlers : Unit {0}
unfolding handle replace_task_dependencies put_mission put_task put_attempt put_batch put_gate
    put_schedule own_task create_mission archive_mission cancel_mission activate_mission
    pause_mission resume_mission add_task update_task archive_task pause_task resume_task
    requeue_task start_attempt join_batch finish_attempt record_artifact list_in_task
    list_in_attempt add_gate list_gate record_gate_result put_train create_train update_train
    request_batch create_schedule cancel_schedule claim_schedule fail_delivery fire_schedule
handlers = tt
