-- ===== src/Task/Reconcile.antt =====
-- `Reconcile` of internal/controller/task_controller.go.
pub mod Phases
pub mod Refines
use kubeopencode.Prelude.{String, Bool, true, false, Option, if◌then◌else◌}
use kubeopencode.Prelude.Int.{ℤ, pos, ltb_ℤ, ◌-ℤ◌}
use kubeopencode.Prelude.Text.{str_eq}
use kubeopencode.Api.Errors.{is_not_found}
use kubeopencode.Api.Meta.{Key}
use kubeopencode.Api.Task.{Task, TaskPhase, unset, pending, queued, running, completed, failed}
use kubeopencode.Client.{
  E, Requeue, no_requeue, requeue_after, pure, throw, attempt, on_result, on_option, ◌>>=◌,
}
use kubeopencode.Client.Calls.{get_task, since}
use kubeopencode.Task.Status.{is_task_stopped_by_user, is_task_timed_out}
use kubeopencode.Task.Cleanup.{handle_task_cleanup}
use kubeopencode.Task.Stop.{handle_stop, handle_timeout}
use kubeopencode.Task.Pods.{update_task_status_from_pod}
use kubeopencode.Task.Queue.{is_running, handle_queued_task}
use kubeopencode.Task.Start.{initialize_task}

-- A running Task is reconciled again when its time is over.
unfoldable pub requeue_at_timeout : Task → E Requeue
requeue_at_timeout task =
    if is_running task
    then on_option task.spec.timeout (pure no_requeue) (λ timeout.
      on_option task.status.start_time (pure no_requeue) (λ start. do
        elapsed ← since start
        let remaining = timeout -ℤ elapsed
        if ltb_ℤ (pos 0) remaining then pure (requeue_after remaining) else pure no_requeue))
    else pure no_requeue

unfoldable pub sync_task : Task → E Requeue
sync_task task = do left ← update_task_status_from_pod task; requeue_at_timeout left

-- A running Task with its Pod: the timeout is looked at before the user's stop.
unfoldable pub follow_running : Task → E Requeue
follow_running task = do
  timed_out ← is_task_timed_out task
  if timed_out
      then on_option task.spec.timeout (pure no_requeue) (handle_timeout task)
      else if is_task_stopped_by_user task
      then handle_stop task
      else sync_task task

-- The tests of `Reconcile` on the phase.
unfoldable pub dispatch : TaskPhase → Task → E Requeue
dispatch unset task = initialize_task task
dispatch running task =
    if str_eq task.status.pod_name "" then initialize_task task else follow_running task
dispatch queued task = handle_queued_task task
dispatch completed task = handle_task_cleanup task
dispatch failed task = handle_task_cleanup task
dispatch pending task = sync_task task

-- `Reconcile`
unfoldable pub reconcile_task : Key → E Requeue
reconcile_task key = do
  found ← attempt (get_task key)
  on_result found (λ e. if is_not_found e then pure no_requeue else throw e)
      (λ task. dispatch task.status.phase task)
