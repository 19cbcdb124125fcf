-- ===== src/Task/Start.antt =====
-- The start of a new Task (`initializeTask` of internal/controller/task_controller.go): the checks
-- of its Agent, the running status that takes its place, and its Pod.
pub mod Pod
pub mod Steps
pub mod Guards
pub mod Other
pub mod Once
pub mod Capacity
use kubeopencode.Prelude.{
  zero, String, Bool, true, false, not, Option, none, some, List, [], ◌∷◌, is_some, if◌then◌else◌,
}
use kubeopencode.Prelude.Int.{ℤ, pos}
use kubeopencode.Prelude.Text.{str_eq, concat, get_or_empty, insert, prefix}
use kubeopencode.Api.Errors.{Arg, str, num, Message, text, is_conflict}
use kubeopencode.Api.Meta.{Conditions, key_of}
use kubeopencode.Api.Agent.{QuotaConfig}
use kubeopencode.Api.Task.{Task, TaskStatus, SessionInfo, running, queued}
use kubeopencode.Client.{
  E, Requeue, requeue_now, requeue_after, pure, throw, attempt, library, on_result, on_option,
  ◌>>=◌, ◌>>◌,
}
use kubeopencode.Client.Calls.{
  now, get_task, update_task, update_task_status, event, with_condition,
}
use kubeopencode.Config.{AgentConfig}
use kubeopencode.Config.System.{resolve_system_config}
use kubeopencode.Task.Quota.{check_agent_quota}
use kubeopencode.Task.Queue.{
  agent_label_key, default_queued_requeue_delay, is_running, check_agent_capacity,
  get_agent_for_quota, get_agent_config_with_name, resolve_template_config, capacity_limit,
}
use kubeopencode.Task.Start.Pod.{Reference, start_pod}
use kubeopencode.Task.Stop.{condition, update_task_failed}

-- `AgentTemplateLabelKey` and `DefaultServerPort`
abbrev pub agent_template_label_key : String
agent_template_label_key = "kubeopencode.io/agent-template"

abbrev pub default_server_port : ℤ
default_server_port = pos 4096

abbrev pub or_default_port : ℤ → ℤ
or_default_port (pos zero) = default_server_port
or_default_port p = p

-- `ServerURL`, where `port` is printed already.
unfoldable pub server_url : String → String → String → String → String
server_url agent_name namespace port cluster_domain = concat "http://" (
    concat agent_name
      (concat "." (concat namespace (concat ".svc." (concat cluster_domain (concat ":" port))))))

-- The template of a Task, or its Agent with the URL of its server.
unfoldable pub resolve_template : Task → E Reference
resolve_template task = do
  (cfg, name) ← resolve_template_config task
  pure (record { cfg = cfg; name = name; is_template = true; server_url = "" })

unfoldable pub resolve_agent : Task → E Reference
resolve_agent task = do
  (cfg, name) ← get_agent_config_with_name task
  sys ← resolve_system_config
  format ← library (λ env. env.format_int)
  pure (record {
    cfg = cfg;
    name = name;
    is_template = false;
    server_url =
        server_url name task.meta.namespace (format (or_default_port cfg.port)) sys.cluster_domain;
  })

unfoldable pub resolve_reference : Task → E Reference
resolve_reference task =
    if is_some task.spec.template_ref then resolve_template task else resolve_agent task

abbrev pub label_key : Reference → String
label_key r = if r.is_template then agent_template_label_key else agent_label_key

abbrev pub has_label : Task → Reference → Bool
has_label task r = str_eq (get_or_empty (label_key r) task.meta.labels) r.name

-- The label is written first, and the rest waits for the next reconciliation.
unfoldable pub add_label : Task → Reference → E Requeue
add_label task r = do
  update_task (record task {
    meta = record task.meta { labels = insert (label_key r) r.name task.meta.labels };
  })
  pure requeue_now

abbrev pub queued_at : Task → String → Conditions → Task
queued_at task name conditions = record task {
  status = record task.status {
    observed_generation = task.meta.generation;
    phase = queued;
    agent_ref = some name;
    conditions = conditions;
  };
}

-- A new Task that has to wait, with the event's reason, format and arguments.
unfoldable pub queue_task :
    Task → String → String → Message → ℤ → String → String → List Arg → E Requeue
queue_task task name reason message delay event_reason format args = do
  event event_reason format args
  conditions ← with_condition task.status.conditions (condition "Queued" true reason message)
  update_task_status (queued_at task name conditions)
  pure (requeue_after delay)

-- `sessionTitle`, with the first eight bytes of the uid.
abbrev pub session_title : Task → String
session_title task = concat "kubeopencode/" (
    concat task.meta.namespace
      (concat "/" (concat task.meta.name (concat "/" (prefix 8 task.meta.uid)))))

abbrev pub session_of : Task → Reference → Option SessionInfo
session_of task r =
    if str_eq r.server_url ""
    then task.status.session
    else some (record { id = ""; title = session_title task; summary = none })

-- The status that takes the Task's place before its Pod is created.
abbrev pub occupied_at : Task → Reference → ℤ → Task
occupied_at task r n = record task {
  status = record task.status {
    observed_generation = task.meta.generation;
    phase = running;
    agent_ref = if r.is_template then task.status.agent_ref else some r.name;
    template_ref = if r.is_template then some r.name else task.status.template_ref;
    start_time = some n;
    session = session_of task r;
  };
}

-- The part after the checks.
unfoldable pub occupy : Task → Reference → E Requeue
occupy task r = if is_running task then start_pod task r else (do
  n ← now
  updated ← attempt (update_task_status (occupied_at task r n))
  on_result updated (λ e. if is_conflict e then pure requeue_now else throw e)
      (λ _. do fresh ← get_task (key_of task.meta); start_pod fresh r))

-- The quota check of a new Task.
unfoldable pub occupy_within_quota : Task → Reference → E Requeue
occupy_within_quota task r = on_option r.cfg.quota (occupy task r) (λ quota. do
  agent ← get_agent_for_quota r.name task.meta.namespace
  (has_quota, delay) ← check_agent_quota agent
  let args = str r.name ∷ num (pos quota.max_task_starts) ∷ num (pos quota.window_seconds) ∷ []
  if has_quota
      then occupy task r
      else queue_task task r.name "QuotaExceeded"
          (text "Waiting for agent %q quota (max: %d per %ds)" args) delay "QuotaExceeded"
          "Agent %q quota exceeded (max: %d per %ds), task queued" args)

-- The checks of the Agent of a new Task.
unfoldable pub occupy_if_free : Task → Reference → E Requeue
occupy_if_free task r =
    if r.cfg.suspend
    then queue_task task r.name "AgentSuspended" (text "Agent %q is suspended" (str r.name ∷ []))
        default_queued_requeue_delay "Queued" "Agent %q is suspended, task queued" (str r.name ∷ [])
    else if not r.cfg.server_ready
    then queue_task task r.name "AgentServerNotReady"
        (text "Agent %q server is not ready" (str r.name ∷ [])) default_queued_requeue_delay
        "Queued" "Agent %q server not ready, task queued" (str r.name ∷ [])
    else on_option (capacity_limit r.cfg) (occupy_within_quota task r) (λ max. do
      has_capacity ← check_agent_capacity task.meta.namespace r.name max
      if has_capacity
          then occupy_within_quota task r
          else queue_task task r.name "AgentAtCapacity"
              (text "Waiting for agent %q capacity (max: %d)" (str r.name ∷ num max ∷ []))
              default_queued_requeue_delay "Queued" "Agent %q at capacity (max: %d), task queued"
              (str r.name ∷ num max ∷ []))

-- The part after the reference is resolved.
unfoldable pub initialize_for : Task → Reference → E Requeue
initialize_for task r =
    if not (has_label task r)
    then add_label task r
    else if r.is_template
    then occupy task r
    else occupy_if_free task r

-- `initializeTask`
unfoldable pub initialize_task : Task → E Requeue
initialize_task task = do
  resolved ← attempt (resolve_reference task)
  on_result resolved (update_task_failed task "AgentError") (initialize_for task)
