-- ===== src/Scheduler/Control.antt =====
-- The pause, resume and cancel commands of a task (src/lib/scheduler/core.ts and types.ts).
use swarm_z.Base.{
  ◌≡◌, refl, Bool, true, false, none, some, List, [], ◌∷◌, if◌then◌else◌, Number, arith, Text,
}
use swarm_z.Missions.Types.{TaskStatus, MissionTask}

pub data TaskControlCommand : Type 0 where
  pause resume cancel : TaskControlCommand

-- The text that explains a decision.
pub data ControlReason : Type 0 where
  task_is_terminal task_cancelled task_is_paused task_paused task_is_not_paused task_resumed :
      ControlReason

pub record TaskControlDecision : Type 0 where
  pub task : MissionTask
  pub changed : Bool
  pub interrupt_active_attempt : Bool
  pub reason : ControlReason

unfoldable pub is_terminal_status : TaskStatus → Bool
is_terminal_status TaskStatus.failed = true
is_terminal_status TaskStatus.succeeded = true
is_terminal_status TaskStatus.cancelled = true
is_terminal_status TaskStatus.archived = true
is_terminal_status _ = false

unfoldable pub is_paused_status : TaskStatus → Bool
is_paused_status TaskStatus.paused = true
is_paused_status _ = false

-- `task.status === "running"`.
unfoldable pub is_active_status : TaskStatus → Bool
is_active_status TaskStatus.running = true
is_active_status _ = false

-- A decision that leaves the task as it is.
unfoldable pub unchanged : MissionTask → ControlReason → TaskControlDecision
unchanged task reason = record {
  task = task;
  changed = false;
  interrupt_active_attempt = false;
  reason = reason;
}

unfoldable pub resumed_status : List Text → TaskStatus
resumed_status [] = TaskStatus.ready
resumed_status (x ∷ xs) = TaskStatus.blocked_by_dependency

unfoldable pub control_task : MissionTask → TaskControlCommand → Number → TaskControlDecision
control_task task TaskControlCommand.cancel now =
    if is_terminal_status task.status then unchanged task task_is_terminal else record {
      task = record task { status = TaskStatus.cancelled; updated_at = now };
      changed = true;
      interrupt_active_attempt = is_active_status task.status;
      reason = task_cancelled;
    }
control_task task TaskControlCommand.pause now =
    if is_paused_status task.status
    then unchanged task task_is_paused
    else if is_terminal_status task.status
    then unchanged task task_is_terminal
    else record {
      task = record task { status = TaskStatus.paused; paused_at = some now; updated_at = now };
      changed = true;
      interrupt_active_attempt = is_active_status task.status;
      reason = task_paused;
    }
control_task task TaskControlCommand.resume now =
    if is_paused_status task.status
    then record {
      task = record task {
        status = resumed_status task.dependency_ids;
        paused_at = none;
        updated_at = now;
      };
      changed = true;
      interrupt_active_attempt = false;
      reason = task_resumed;
    }
    else unchanged task task_is_not_paused

resumed_status-paused : (xs : List Text) → is_paused_status (resumed_status xs) ≡ false
unfolding resumed_status is_paused_status
resumed_status-paused [] = refl
resumed_status-paused (x ∷ xs) = refl

-- A terminal status is not paused.
is_terminal_status-paused :
    (status : TaskStatus) → is_terminal_status status ≡ true → is_paused_status status ≡ false
unfolding is_terminal_status is_paused_status
is_terminal_status-paused TaskStatus.paused h = cc
is_terminal_status-paused _ h = refl

-- Giving a command a second time, at any later or earlier time, changes nothing and says so.
pub control_task-idempotent :
    (task : MissionTask) (command : TaskControlCommand) (now later : Number)
    → ((control_task (control_task task command now).task command later).task
        ≡ (control_task task command now).task)
      × ((control_task (control_task task command now).task command later).changed ≡ false)
unfolding control_task is_terminal_status is_paused_status unchanged
control_task-idempotent task TaskControlCommand.cancel now later = ground arith
control_task-idempotent task TaskControlCommand.pause now later = ground arith
control_task-idempotent task TaskControlCommand.resume now later =
    ground (arith, resumed_status-paused task.dependency_ids)

-- No command changes a task whose status is terminal.
pub control_task-terminal :
    (task : MissionTask) (command : TaskControlCommand) (now : Number)
    → is_terminal_status task.status ≡ true
    → ((control_task task command now).task ≡ task)
      × ((control_task task command now).changed ≡ false)
unfolding control_task unchanged
control_task-terminal task TaskControlCommand.cancel now h = ground arith
control_task-terminal task TaskControlCommand.pause now h =
    ground (arith, is_terminal_status-paused task.status h)
control_task-terminal task TaskControlCommand.resume now h =
    ground (arith, is_terminal_status-paused task.status h)

-- Where a command asks for an interrupt, the task's status was running, the decision changed the task
-- and its status is running no more.
pub control_task-interrupt :
    (task : MissionTask) (command : TaskControlCommand) (now : Number)
    → (control_task task command now).interrupt_active_attempt ≡ true
    → (is_active_status task.status ≡ true)
      × ((control_task task command now).changed ≡ true)
      × (is_active_status (control_task task command now).task.status ≡ false)
unfolding control_task unchanged is_active_status
control_task-interrupt task TaskControlCommand.cancel now h = ground arith
control_task-interrupt task TaskControlCommand.pause now h = ground arith
control_task-interrupt task TaskControlCommand.resume now h = ground arith
