-- ===== src/Task/Queue/Resolved.antt =====
-- Where a Task's resolved configuration comes from (internal/controller/task_controller.go).
use kubeopencode.Prelude.{◌≡◌, refl, ◌⊎◌, inl, inr, String, false, none, some}
use kubeopencode.Prelude.Text.{str_eq}
use kubeopencode.Api.Errors.{ok}
use kubeopencode.Api.Agent.{Agent, AgentTemplate}
use kubeopencode.Api.Task.{Task}
use kubeopencode.Client.{Env, History}
use kubeopencode.Client.Calls.{get_agent, get_template}
use kubeopencode.Client.Rules.Answers.{
  Answers, Answers-pure, Answers-throw, Answers-test, Answers-on_option, Answers-attempt,
  Answers-after,
}
use kubeopencode.Config.{
  AgentConfig, resolve_agent_config, resolve_agent_config_from_template, resolve_template_to_config,
  merge_agent_with_template,
}
use kubeopencode.Task.Queue.{
  get_agent_config_with_name, get_named_agent_config, resolve_template_config,
}

-- An answer of the API server to a request for the template, and one for the Agent.
abbrev pub IsTemplate : Env → String → String → AgentTemplate → Type 0
IsTemplate env name namespace tmpl =
    (h : History) × (env.get_template h (record { name = name; namespace = namespace }) ≡ ok tmpl)

abbrev pub IsAgent : Env → String → String → Agent → Type 0
IsAgent env name namespace agent =
    (h : History) × (env.get_agent h (record { name = name; namespace = namespace }) ≡ ok agent)

-- The configuration is that of the Agent alone, which names no template, or of the Agent merged
-- with the template which it names.
abbrev pub ConfigOf : Env → Agent → AgentConfig → Type 0
ConfigOf env agent cfg =
    ((agent.spec.template_ref ≡ none) × (cfg ≡ resolve_agent_config agent))
    ⊎ ((name : String) × (tmpl : AgentTemplate) × (agent.spec.template_ref ≡ some name)
        × IsTemplate env name agent.meta.namespace tmpl
        × (cfg ≡ merge_agent_with_template agent tmpl))

abbrev pub FromAgent : Env → Task → AgentConfig × String → Type 0
FromAgent env task (cfg, name) =
    (task.spec.agent_ref ≡ some name)
    × (agent : Agent) × IsAgent env name task.meta.namespace agent
    × ConfigOf env agent cfg
    × (str_eq cfg.service_account_name "" ≡ false)

abbrev pub FromTemplate : Env → Task → AgentConfig × String → Type 0
FromTemplate env task (cfg, name) =
    (task.spec.template_ref ≡ some name)
    × (tmpl : AgentTemplate) × IsTemplate env name task.meta.namespace tmpl
    × (cfg ≡ resolve_template_to_config tmpl)
    × (str_eq cfg.service_account_name "" ≡ false)
    × (str_eq cfg.workspace_dir "" ≡ false)
    × (cfg.max_concurrent_tasks ≡ none)
    × (cfg.quota ≡ none)

resolve_agent_config_from_template-ConfigOf :
    (env : Env) (agent : Agent)
    → Answers env (ConfigOf env agent) (resolve_agent_config_from_template agent)
unfolding resolve_agent_config_from_template get_template
resolve_agent_config_from_template-ConfigOf env agent =
    Answers-on_option _ _ _ (λ alone. Answers-pure _ (inl (alone, refl)))
      (λ name named.
        Answers-attempt _ _ _ _ (λ e. Answers-throw _)
          (λ h tmpl found.
            Answers-test (str_eq (merge_agent_with_template agent tmpl).workspace_dir "") _ _
              (λ _. Answers-throw _)
              (λ _.
                Answers-test (str_eq (merge_agent_with_template agent tmpl).service_account_name "")
                  _ _ (λ _. Answers-throw _)
                  (λ _. Answers-pure _ (inr (name, tmpl, named, (h, found), refl))))))

from_named :
    (env : Env) (task : Task) (name : String)
    → task.spec.agent_ref ≡ some name
    → Answers env (FromAgent env task) (get_named_agent_config task name)
unfolding get_named_agent_config get_agent
from_named env task name named =
    Answers-attempt _ _ _ _ (λ e. Answers-throw _)
      (λ h agent found.
        Answers-after (ConfigOf env agent) _ _
          (resolve_agent_config_from_template-ConfigOf env agent)
          (λ cfg of_agent.
            Answers-test (str_eq cfg.service_account_name "") _ _ (λ _. Answers-throw _)
              (λ account. Answers-pure _ (named, agent, (h, found), of_agent, account))))

from_template :
    (env : Env) (task : Task) → Answers env (FromTemplate env task) (resolve_template_config task)
unfolding resolve_template_config resolve_template_to_config get_template
from_template env task =
    Answers-on_option _ _ _ (λ _. Answers-throw _)
      (λ name named.
        Answers-attempt _ _ _ _ (λ e. Answers-throw _)
          (λ h tmpl found.
            Answers-test (str_eq tmpl.spec.workspace_dir "") _ _ (λ _. Answers-throw _)
              (λ workspace.
                Answers-test (str_eq tmpl.spec.service_account_name "") _ _ (λ _. Answers-throw _)
                  (λ account.
                    Answers-pure _
                      (named, tmpl, (h, found), refl, account, workspace, refl, refl)))))

-- Where the configuration of a Task is resolved, it comes from an answer of the API server to a
-- request for the Agent or the template which the Task names, in the Task's namespace. That of an
-- Agent is the Agent's own, or merged with an answer for the template which the Agent names in its
-- own namespace, and has a service account. That of a template has a service account and a
-- workspace, and no limit on running Tasks and no quota.
pub resolved_configs :
    (env : Env) (task : Task)
    → Answers env (FromAgent env task) (get_agent_config_with_name task)
      × Answers env (FromTemplate env task) (resolve_template_config task)
unfolding get_agent_config_with_name
resolved_configs env task =
    (Answers-on_option _ _ _ (λ _. Answers-throw _) (from_named env task), from_template env task)
