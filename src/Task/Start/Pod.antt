-- ===== src/Task/Start/Pod.antt =====
-- The Pod of a Task that has its place (`initializeTask` of
-- internal/controller/task_controller.go). What is in the Pod is the Pod builder's.
use kubeopencode.Prelude.{
  String, Bool, not, Option, none, some, [], ◌∷◌, is_some, ◌&&◌, if◌then◌else◌,
}
use kubeopencode.Prelude.Text.{concat}
use kubeopencode.Api.Errors.{Error, str, hide, is_conflict, is_already_exists}
use kubeopencode.Api.Meta.{Key, key_of}
use kubeopencode.Api.Agent.{Agent}
use kubeopencode.Api.Task.{Task}
use kubeopencode.Client.{
  E, Requeue, no_requeue, requeue_now, pure, throw, attempt, on_result, on_option, ◌>>=◌, ◌>>◌,
}
use kubeopencode.Client.Calls.{
  get_task, get_pod, create_pod, create_config_map, update_task_status, event,
}
use kubeopencode.Config.{AgentConfig}
use kubeopencode.Config.System.{resolve_system_config}
use kubeopencode.Context.Task.{Mounted, process_all_contexts}
use kubeopencode.Task.Quota.{record_task_start, remove_task_start}
use kubeopencode.Task.Queue.{get_agent_for_quota}
use kubeopencode.Task.Stop.{update_task_failed}

-- The Agent or the template of a Task.
pub record Reference : Type 0 where
  pub cfg : AgentConfig
  pub name : String
  pub is_template : Bool
  pub server_url : String

abbrev pub pod_name_of : Task → String
pod_name_of task = concat task.meta.name "-pod"

abbrev pub new_pod_key : Task → Key
new_pod_key task = record { name = pod_name_of task; namespace = task.meta.namespace }

abbrev pub with_pod_name : Task → String → Task
with_pod_name task name = record task { status = record task.status { pod_name = name } }

-- The latest Task is fetched, and fails.
unfoldable pub fail_refreshed : Task → String → Error → E Requeue
fail_refreshed task reason e = do
  fresh ← get_task (key_of task.meta)
  update_task_failed fresh reason e

-- The last status, with an event if there is one.
unfoldable pub record_pod : Task → String → E (Unit {0}) → E Requeue
record_pod task pod_name announce = do
  updated ← attempt (update_task_status (with_pod_name task pod_name))
  on_result updated (λ e. if is_conflict e then pure requeue_now else throw e)
      (λ _. do announce; pure no_requeue)

-- `removeTaskStart`, if a start was recorded; its error is logged only.
unfoldable pub roll_back : Option Agent → Task → E (Unit {0})
roll_back agent task =
    on_option agent (pure tt) (λ a. do attempt (remove_task_start a task); pure tt)

-- The Pod could not be created. The error is not among the event's arguments.
unfoldable pub fail_pod : Task → Option Agent → Error → E Requeue
fail_pod task quota_agent e = do
  event "PodCreationFailed" "Failed to create pod: %v" []
  roll_back quota_agent task
  fail_refreshed task "PodCreationError" e

unfoldable pub finish_pod : Task → E Requeue
finish_pod task = do
  fresh ← get_task (key_of task.meta)
  record_pod fresh (pod_name_of task)
      (event "PodCreated" "Created pod %s" (str (pod_name_of task) ∷ []))

-- `buildPod`, and the Pod's creation.
unfoldable pub create_task_pod : Task → Option Agent → E Requeue
create_task_pod task quota_agent = do
  created ← attempt (create_pod (new_pod_key task))
  on_result created (fail_pod task quota_agent) (λ _. finish_pod task)

-- The record of the start in the Agent's quota, before the Pod.
unfoldable pub record_start : Task → Reference → E Requeue
record_start task r = do
  found ← attempt (get_agent_for_quota r.name task.meta.namespace)
  on_result found
      (λ e. fail_refreshed task "AgentError" (hide "failed to get Agent for quota: %v" [] e))
      (λ agent. do
        recorded ← attempt (record_task_start agent task)
        on_result recorded
            (λ e. fail_refreshed task "AgentError" (hide "failed to record quota: %v" [] e))
            (λ _. create_task_pod task (some agent)))

unfoldable pub record_and_create : Task → Reference → E Requeue
record_and_create task r = do
  sys ← resolve_system_config
  if not r.is_template && is_some r.cfg.quota
      then record_start task r
      else create_task_pod task none

-- The ConfigMap of the contexts; one that is there already is used as it is.
unfoldable pub store_contexts : Task → Reference → Mounted → E Requeue
store_contexts task r m = on_option m.config_map (record_and_create task r) (λ cm. do
  created ← attempt (create_config_map cm)
  on_result created
      (λ e.
        if is_already_exists e
        then record_and_create task r
        else fail_refreshed task "ConfigMapCreationError" e)
      (λ _. record_and_create task r))

unfoldable pub prepare_pod : Task → Reference → E Requeue
prepare_pod task r = do
  mounted ← attempt (process_all_contexts task r.cfg)
  on_result mounted (fail_refreshed task "ContextError") (store_contexts task r)

-- A Pod that is there already is taken over; any error of `Get` means that there is none.
unfoldable pub start_pod : Task → Reference → E Requeue
start_pod task r = do
  existing ← attempt (get_pod (new_pod_key task))
  on_result existing (λ _. prepare_pod task r) (λ _. record_pod task (pod_name_of task) (pure tt))
