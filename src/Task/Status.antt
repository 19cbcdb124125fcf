-- ===== src/Task/Status.antt =====
-- The tests on a Task's state and annotations (internal/controller/task_controller.go).
use kubeopencode.Prelude.{String, Bool, true, false}
use kubeopencode.Prelude.Int.{leb_ℤ}
use kubeopencode.Prelude.Text.{str_eq, get_or_empty}
use kubeopencode.Api.Task.{Task, TaskPhase, completed, failed}
use kubeopencode.Client.{E, pure, ◌>>=◌, on_option}
use kubeopencode.Client.Calls.{since}

-- `AnnotationStop`
abbrev pub annotation_stop : String
annotation_stop = "kubeopencode.io/stop"

-- `isTaskFinished`
unfoldable pub is_task_finished : TaskPhase → Bool
is_task_finished completed = true
is_task_finished failed = true
is_task_finished _ = false

-- `isTaskStoppedByUser`
unfoldable pub is_task_stopped_by_user : Task → Bool
is_task_stopped_by_user task = str_eq (get_or_empty annotation_stop task.meta.annotations) "true"

-- `isTaskTimedOut`
unfoldable pub is_task_timed_out : Task → E Bool
is_task_timed_out task = on_option task.spec.timeout (pure false) (λ timeout.
    on_option task.status.start_time (pure false)
      (λ start. do elapsed ← since start; pure (leb_ℤ timeout elapsed)))
