-- ===== src/Task/Queue.antt =====
-- The Tasks that wait for their Agent, and what they wait for
-- (internal/controller/task_controller.go).
pub mod Leave
pub mod Stay
pub mod Resolved
use kubeopencode.Prelude.{
  String, Bool, true, false, not, ◌&&◌, ◌||◌, Option, none, some, List, [], ◌∷◌, is_some, count_by,
  if◌then◌else◌,
}
use kubeopencode.Prelude.Int.{ℤ, pos, ltb_ℤ, int32}
use kubeopencode.Prelude.Text.{str_eq}
use kubeopencode.Api.Errors.{Error, errorf, wrap, str, num, Message, text, error_text}
use kubeopencode.Api.Meta.{Conditions}
use kubeopencode.Api.Agent.{Agent, AgentTemplate, QuotaConfig}
use kubeopencode.Api.Task.{Task, TaskPhase, running, unset, completed, failed}
use kubeopencode.Client.{
  E, Requeue, no_requeue, requeue_now, requeue_after, pure, throw, attempt, on_result, on_option,
  ◌>>=◌, ◌>>◌,
}
use kubeopencode.Client.Calls.{
  now, get_agent, get_template, list_tasks, update_task_status, with_condition,
}
use kubeopencode.Config.{
  AgentConfig, resolve_agent_config_from_template, resolve_template_to_config,
}
use kubeopencode.Task.Status.{is_task_stopped_by_user}
use kubeopencode.Task.Quota.{check_agent_quota}
use kubeopencode.Task.Stop.{condition, update_task_failed, stopped_at, failed_at}

-- `AgentLabelKey`
abbrev pub agent_label_key : String
agent_label_key = "kubeopencode.io/agent"

-- `DefaultQueuedRequeueDelay`
abbrev pub default_queued_requeue_delay : ℤ
default_queued_requeue_delay = pos 10000000000

unfoldable pub is_running : Task → Bool
is_running task = elim task.status.phase [ running ↦ true | _ ↦ false ]

-- `checkAgentCapacity`; its metrics are not modelled.
unfoldable pub check_agent_capacity : String → String → ℤ → E Bool
check_agent_capacity namespace agent_name max_concurrent = do
  tasks ← list_tasks namespace (some (agent_label_key, agent_name))
  pure (ltb_ℤ (int32 (count_by is_running tasks)) max_concurrent)

-- `getAgentForQuota`
unfoldable pub get_agent_for_quota : String → String → E Agent
get_agent_for_quota name namespace = get_agent (record { name = name; namespace = namespace })

-- `getAgentConfigWithName` of a Task with the given reference.
unfoldable pub get_named_agent_config : Task → String → E (AgentConfig × String)
get_named_agent_config task name = do
  found ← attempt (get_agent (record { name = name; namespace = task.meta.namespace }))
  on_result found
      (λ e.
        throw (
          wrap "agent %q not found in namespace %q: %w" (str name ∷ str task.meta.namespace ∷ [])
            e))
      (λ agent. do
        cfg ← resolve_agent_config_from_template agent
        if str_eq cfg.service_account_name ""
            then throw
                (errorf "agent %q is missing required field serviceAccountName" (str name ∷ []))
            else pure (cfg, name))

-- `getAgentConfigWithName`
unfoldable pub get_agent_config_with_name : Task → E (AgentConfig × String)
get_agent_config_with_name task =
    on_option task.spec.agent_ref
      (throw (
        errorf "agentRef is required: Task %q does not specify agentRef" (str task.meta.name ∷ [])))
      (get_named_agent_config task)

-- `resolveTemplateConfig`
unfoldable pub resolve_template_config : Task → E (AgentConfig × String)
resolve_template_config task =
    on_option task.spec.template_ref
      (throw (errorf "templateRef is nil for Task %q" (str task.meta.name ∷ [])))
      (λ name. do
        found ← attempt (get_template (record { name = name; namespace = task.meta.namespace }))
        on_result found
            (λ e. throw (
              wrap "agent template %q not found in namespace %q: %w"
                (str name ∷ str task.meta.namespace ∷ []) e))
            (λ tmpl.
              let cfg = resolve_template_to_config tmpl in
              if str_eq cfg.workspace_dir ""
              then throw (errorf "agent template %q has empty workspaceDir" (str name ∷ []))
              else if str_eq cfg.service_account_name ""
              then throw (errorf "agent template %q has empty serviceAccountName" (str name ∷ []))
              else pure (cfg, name)))

-- Back to the empty phase, from which the Task is initialized.
abbrev pub unqueued : Task → Conditions → Task
unqueued task conditions = record task {
  status = record task.status { phase = unset; conditions = conditions };
}

-- The transition to the empty phase.
unfoldable pub leave_queue : Task → String → Message → E Requeue
leave_queue task reason message = do
  conditions ← with_condition task.status.conditions (condition "Queued" false reason message)
  update_task_status (unqueued task conditions)
  pure requeue_now

-- The Agent of the status, where an older Task lacks it.
abbrev pub agent_or : String → Option String → Option String
agent_or name none = some name
agent_or name (some n) = some n

abbrev pub waiting_for_quota : Task → String → Conditions → Task
waiting_for_quota task name conditions = record task {
  status = record task.status {
    agent_ref = agent_or name task.status.agent_ref;
    conditions = conditions;
  };
}

-- The quota exceeded, for a queued Task.
unfoldable pub wait_for_quota : Task → String → QuotaConfig → ℤ → E Requeue
wait_for_quota task name quota delay = do
  conditions ← with_condition task.status.conditions (
      condition "Queued" true "QuotaExceeded" (
        text "Waiting for agent %q quota (max: %d per %ds)"
          (str name ∷ num (pos quota.max_task_starts) ∷ num (pos quota.window_seconds) ∷ [])))
  update_task_status (waiting_for_quota task name conditions)
  pure (requeue_after delay)

-- The quota check of `handleQueuedTask` and what follows it.
unfoldable pub leave_within_quota : Task → AgentConfig → String → E Requeue
leave_within_quota task cfg name =
    let leave =
      leave_queue task "CapacityAvailable"
        (text "Agent %q capacity now available" (str name ∷ [])) in
    on_option cfg.quota leave (λ quota. do
      agent ← get_agent_for_quota name task.meta.namespace
      (has_quota, delay) ← check_agent_quota agent
      if has_quota then leave else wait_for_quota task name quota delay)

-- The limit on running Tasks, where it is set: zero and less mean none.
unfoldable pub capacity_limit : AgentConfig → Option ℤ
capacity_limit cfg = elim cfg.max_concurrent_tasks [
  | none ↦ none
  | some m ↦ if ltb_ℤ (pos 0) m then some m else none
]

-- The part of `handleQueuedTask` after the Agent was found.
unfoldable pub handle_queued_for : Task → AgentConfig → String → E Requeue
handle_queued_for task cfg name =
    if cfg.suspend
    then pure (requeue_after default_queued_requeue_delay)
    else if not cfg.server_ready
    then pure (requeue_after default_queued_requeue_delay)
    else if not (is_some (capacity_limit cfg)) && not (is_some cfg.quota)
    then leave_queue task "NoLimits"
        (text "Agent %q has no capacity or quota limits" (str name ∷ []))
    else on_option (capacity_limit cfg) (leave_within_quota task cfg name) (λ max. do
      has_capacity ← check_agent_capacity task.meta.namespace name max
      if has_capacity
          then leave_within_quota task cfg name
          else pure (requeue_after default_queued_requeue_delay))

-- The user's stop of a queued Task.
unfoldable pub stop_queued : Task → E Requeue
stop_queued task = do
  n ← now
  conditions ←
      with_condition task.status.conditions
        (condition "Stopped" true "UserStopped" (text "Task was stopped while queued" []))
  update_task_status (stopped_at task n conditions)
  pure no_requeue

-- The Agent of a queued Task cannot be resolved.
unfoldable pub fail_queued : Task → Error → E Requeue
fail_queued task e = do
  n ← now
  conditions ←
      with_condition task.status.conditions (condition "Ready" false "AgentError" (error_text e))
  update_task_status (failed_at task n conditions)
  pure no_requeue

-- `handleQueuedTask`
unfoldable pub handle_queued_task : Task → E Requeue
handle_queued_task task =
    if is_task_stopped_by_user task
    then stop_queued task
    else on_option task.spec.agent_ref
        (update_task_failed task "AgentError" (
          errorf "queued task %q has no agentRef (templateRef tasks cannot be queued)"
            (str task.meta.name ∷ [])))
        (λ _. do
          resolved ← attempt (get_agent_config_with_name task)
          on_result resolved (fail_queued task) (λ (cfg, name). handle_queued_for task cfg name))
