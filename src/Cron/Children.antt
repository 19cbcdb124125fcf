-- ===== src/Cron/Children.antt =====
-- The child Tasks of a CronTask: listing, sorting by state, creating and stopping them
-- (internal/controller/crontask_controller.go).
pub mod Successful
pub mod Naming
use kubeopencode.Prelude.{
  ◌/◌, String, Bool, true, false, Option, none, some, List, [], ◌∷◌, not, ◌&&◌, is_some, filter_by,
  if◌then◌else◌,
}
use kubeopencode.Prelude.Int.{ℤ, pos, negsuc, ltb_ℤ}
use kubeopencode.Prelude.Text.{insert, concat}
use kubeopencode.Api.Errors.{wrap, str, Message, text, is_already_exists}
use kubeopencode.Api.Task.{Task, TaskPhase, TaskStatus, completed, failed, unset}
use kubeopencode.Api.CronTask.{CronTask, TaskReference}
use kubeopencode.Client.{E, attempt, pure, throw, library, on_result, ◌>>=◌, ◌>>◌}
use kubeopencode.Task.Status.{annotation_stop, is_task_finished}
use kubeopencode.Client.Calls
use kubeopencode.Client.Calls.{list_tasks, update_task, with_condition, event}

abbrev pub cron_task_label_key : String
cron_task_label_key = "kubeopencode.io/crontask"

-- `listChildTasks`
unfoldable pub list_child_tasks : CronTask → E (List Task)
list_child_tasks cron = do
  listed ← attempt (list_tasks cron.meta.namespace (some (cron_task_label_key, cron.meta.name)))
  on_result listed (λ e. throw (wrap "failed to list child Tasks: %w" [] e)) (λ tasks. pure tasks)

-- The two lists that `Reconcile` sorts the children into.
unfoldable pub finished_tasks : List Task → List Task
finished_tasks = filter_by (λ t. is_task_finished t.status.phase)

unfoldable pub active_tasks : List Task → List Task
active_tasks = filter_by (λ t. not (is_task_finished t.status.phase))

unfoldable pub reference_of : Task → TaskReference
reference_of t = record {
  kind = "Task";
  name = t.meta.name;
  namespace = t.meta.namespace;
  uid = t.meta.uid;
}

-- The `less` of `updateLastSuccessfulTime`: the latest completion first, no completion last.
unfoldable pub completed_later : Task → Task → Bool
completed_later a b = elim a.status.completion_time [
  | none ↦ false
  | some ta ↦ elim b.status.completion_time [ none ↦ true | some tb ↦ ltb_ℤ tb ta ]
]

abbrev pub is_completed : TaskPhase → Bool
is_completed completed = true
is_completed _ = false

-- The loop of `updateLastSuccessfulTime` with its `break`.
unfoldable pub first_completion : List Task → Option ℤ
first_completion [] = none
first_completion (t ∷ ts) =
    let rest = first_completion ts in
    if is_completed t.status.phase && is_some t.status.completion_time
    then t.status.completion_time
    else rest

abbrev pub or_else : Option ℤ → Option ℤ → Option ℤ
or_else none old = old
or_else (some t) old = some t

-- `updateLastSuccessfulTime`, given the sorted Tasks.
unfoldable pub with_last_successful_time : CronTask → List Task → CronTask
with_last_successful_time cron sorted = record cron {
  status = record cron.status {
    last_successful_time = or_else (first_completion sorted) cron.status.last_successful_time;
  };
}

unfoldable pub update_last_successful_time : CronTask → List Task → E CronTask
update_last_successful_time cron finished = do
  sorted ← library (λ env. env.sort_tasks completed_later finished)
  pure (with_last_successful_time cron sorted)

-- `Time.Unix()`: whole seconds, rounded down.
unfoldable pub unix : ℤ → ℤ
unix (pos n) = pos (n / 1000000000)
unix (negsuc n) = negsuc (n / 1000000000)

unfoldable pub child_name : (ℤ → String) → CronTask → ℤ → String
child_name format cron t = concat cron.meta.name (concat "-" (format (unix t)))

abbrev pub empty_status : TaskStatus
empty_status = record {
  observed_generation = 0;
  phase = unset;
  agent_ref = none;
  template_ref = none;
  pod_name = "";
  session = none;
  start_time = none;
  completion_time = none;
  conditions = [];
}

-- The Task that `createTask` sends.
unfoldable pub child_task : (ℤ → String) → CronTask → ℤ → Task
unfolding child_name
child_task format cron t = record {
  meta = record {
    name = child_name format cron t;
    namespace = cron.meta.namespace;
    uid = "";
    resource_version = "";
    generation = 0;
    labels = insert cron_task_label_key cron.meta.name cron.spec.task_template.labels;
    annotations = cron.spec.task_template.annotations;
    owner = some (record { kind = "CronTask"; name = cron.meta.name; uid = cron.meta.uid });
  };
  spec = cron.spec.task_template.spec;
  status = empty_status;
}

-- `createTask`: whether a new Task was created, and not one that was there.
unfoldable pub create_task : CronTask → ℤ → E Bool
create_task cron t = do
  format ← library (λ env. env.format_int)
  created ← attempt (Calls.create_task (child_task format cron t))
  on_result created
      (λ e. if is_already_exists e then pure false else (do
        event "TaskCreationFailed" "Failed to create Task %s: %v"
            (str (child_name format cron t) ∷ [])
        throw (wrap "failed to create Task %s: %w" (str (child_name format cron t) ∷ []) e)))
      (λ _. do
        event "TaskCreated" "Created Task %s" (str (child_name format cron t) ∷ [])
        pure true)

-- `stopTask`
unfoldable pub stop_task : Task → E (Unit {0})
stop_task t = do
  update_task (record t {
    meta = record t.meta { annotations = insert annotation_stop "true" t.meta.annotations };
  })
  pure tt

-- The loop of the Replace policy.
unfoldable pub stop_tasks : List Task → E (Unit {0})
stop_tasks [] = pure tt
stop_tasks (t ∷ ts) = do stop_task t; stop_tasks ts

-- `setCondition`
unfoldable pub set_condition : CronTask → Bool → String → Message → E CronTask
set_condition cron status reason message = do
  cs ← with_condition cron.status.conditions (record {
    type = "Ready";
    status = status;
    observed_generation = cron.meta.generation;
    reason = reason;
    message = message;
  })
  pure (record cron { status = record cron.status { conditions = cs } })
