-- ===== src/Task/Stop.antt =====
-- The end of a Task that its user stopped or that ran out of time, and the failed status
-- (internal/controller/task_controller.go). Durations among an event's arguments are nanoseconds.
pub mod Order
use kubeopencode.Prelude.{String, Bool, true, false, Option, some, List, [], ◌∷◌, if◌then◌else◌}
use kubeopencode.Prelude.Int.{ℤ}
use kubeopencode.Prelude.Text.{str_eq}
use kubeopencode.Api.Errors.{Error, Arg, num, is_conflict, Message, text, error_text}
use kubeopencode.Api.Meta.{Key, Condition, Conditions}
use kubeopencode.Api.Task.{Task, completed, failed}
use kubeopencode.Client.{
  E, Requeue, no_requeue, requeue_now, pure, throw, attempt, on_result, ◌>>=◌, ◌>>◌,
}
use kubeopencode.Client.Calls.{now, get_pod, delete_pod, update_task_status, event, with_condition}
use kubeopencode.Task.Sessions.{resolve_session_info}

abbrev pub condition : String → Bool → String → Message → Condition
condition type status reason message = record {
  type = type;
  status = status;
  observed_generation = 0;
  reason = reason;
  message = message;
}

abbrev pub pod_key : Task → Key
pod_key task = record { name = task.status.pod_name; namespace = task.meta.namespace }

-- The first part of `handleStop` and of `handleTimeout`: any error of `Get` is passed over.
unfoldable pub delete_pod_of : Task → E (Unit {0})
delete_pod_of task =
    if str_eq task.status.pod_name ""
    then pure tt
    else (do pod ← attempt (get_pod (pod_key task)); on_result pod (λ _. pure tt) delete_pod)

abbrev pub stopped_at : Task → ℤ → Conditions → Task
stopped_at task n conditions = record task {
  status = record task.status {
    phase = completed;
    observed_generation = task.meta.generation;
    completion_time = some n;
    conditions = conditions;
  };
}

-- The second part of both, with the event at its end.
unfoldable pub complete_stopped : Task → String → Message → E (Unit {0}) → E Requeue
complete_stopped task reason message announce = do
  n ← now
  conditions ← with_condition task.status.conditions (condition "Stopped" true reason message)
  resolved ← resolve_session_info (stopped_at task n conditions)
  announce
  update_task_status resolved
  pure no_requeue

-- `handleStop`
unfoldable pub handle_stop : Task → E Requeue
handle_stop task = do
  delete_pod_of task
  complete_stopped task "UserStopped"
      (text "Task stopped by user via kubeopencode.io/stop annotation" [])
      (event "Stopped" "Task stopped by user" [])

-- `handleTimeout`, with the timeout that its caller found in the spec.
unfoldable pub handle_timeout : Task → ℤ → E Requeue
handle_timeout task timeout = do
  delete_pod_of task
  complete_stopped task "Timeout" (text "Task timed out after %s" (num timeout ∷ []))
      (event "Timeout" "Task timed out after %s" (num timeout ∷ []))

abbrev pub failed_at : Task → ℤ → Conditions → Task
failed_at task n conditions = record task {
  status = record task.status {
    observed_generation = task.meta.generation;
    phase = failed;
    completion_time = some n;
    conditions = conditions;
  };
}

-- `updateTaskFailed`
unfoldable pub update_task_failed : Task → String → Error → E Requeue
update_task_failed task reason error = do
  n ← now
  conditions ←
      with_condition task.status.conditions (condition "Ready" false reason (error_text error))
  updated ← attempt (update_task_status (failed_at task n conditions))
  on_result updated (λ e. if is_conflict e then pure requeue_now else throw e)
      (λ _. pure no_requeue)
