-- ===== src/Config.antt =====
-- The resolved configuration of an Agent, of an AgentTemplate, or of both merged
-- (internal/controller/pod_builder.go, template_merge.go, task_controller.go).
pub mod Merge
pub mod System
use kubeopencode.Prelude.{
  String, Bool, false, Option, none, some, List, [], ◌∷◌, is_some, if◌then◌else◌,
}
use kubeopencode.Prelude.Int.{ℤ, pos}
use kubeopencode.Prelude.Text.{str_eq}
use kubeopencode.Api.Errors.{errorf, wrap, str}
use kubeopencode.Api.Context.{ContextItem}
use kubeopencode.Api.Agent.{
  Raw, Slice, SkillSource, PluginSpec, QuotaConfig, AgentPodSpec, AgentTemplateSpec, AgentTemplate,
  Agent, SystemImageConfig, KubeOpenCodeConfigSpec,
}
use kubeopencode.Api.Task.{Task}
use kubeopencode.Client.{E, pure, throw, attempt, on_result, on_option, ◌>>=◌, ◌>>◌}
use kubeopencode.Client.Calls.{get_agent, get_template, get_config}

-- `agentConfig`
pub record AgentConfig : Type 0 where
  pub agent_image : String
  pub executor_image : String
  pub attach_image : String
  pub command : List String
  pub workspace_dir : String
  pub contexts : Slice ContextItem
  pub skills : Slice SkillSource
  pub plugins : Slice PluginSpec
  pub config : Option Raw
  pub credentials : Slice Raw
  pub pod_spec : Option AgentPodSpec
  pub service_account_name : String
  pub max_concurrent_tasks : Option ℤ
  pub quota : Option QuotaConfig
  pub ca_bundle : Option Raw
  pub proxy : Option Raw
  pub image_pull_secrets : Slice Raw
  pub port : ℤ
  pub extra_ports : Slice Raw
  pub persistence : Option Raw
  pub suspend : Bool
  pub server_ready : Bool
  pub extra_env : Slice Raw
  pub system_containers : Option Raw

-- `defaultString`
unfoldable pub default_string : String → String → String
default_string val default = if str_eq val "" then default else val

abbrev pub default_agent_image : String
default_agent_image = "ghcr.io/kubeopencode/kubeopencode-agent-opencode:latest"

abbrev pub default_executor_image : String
default_executor_image = "ghcr.io/kubeopencode/kubeopencode-agent-devbox:latest"

abbrev pub default_attach_image : String
default_attach_image = "ghcr.io/kubeopencode/kubeopencode-agent-attach:latest"

-- `extraEnv` and `systemContainers` of the config are those of its podSpec.
abbrev pub extra_env_of : Option AgentPodSpec → Slice Raw
extra_env_of none = none
extra_env_of (some p) = p.extra_env

abbrev pub system_containers_of : Option AgentPodSpec → Option Raw
system_containers_of none = none
system_containers_of (some p) = p.system_containers

-- `ResolveAgentConfig`
unfoldable pub resolve_agent_config : Agent → AgentConfig
resolve_agent_config agent = record {
  agent_image = default_string agent.spec.agent_image default_agent_image;
  executor_image = default_string agent.spec.executor_image default_executor_image;
  attach_image = default_string agent.spec.attach_image default_attach_image;
  command = agent.spec.command;
  workspace_dir = agent.spec.workspace_dir;
  contexts = agent.spec.contexts;
  skills = agent.spec.skills;
  plugins = agent.spec.plugins;
  config = agent.spec.config;
  credentials = agent.spec.credentials;
  pod_spec = agent.spec.pod_spec;
  service_account_name = agent.spec.service_account_name;
  max_concurrent_tasks = agent.spec.max_concurrent_tasks;
  quota = agent.spec.quota;
  ca_bundle = agent.spec.ca_bundle;
  proxy = agent.spec.proxy;
  image_pull_secrets = agent.spec.image_pull_secrets;
  port = agent.spec.port;
  extra_ports = agent.spec.extra_ports;
  persistence = agent.spec.persistence;
  suspend = agent.spec.suspend;
  server_ready = agent.status.ready;
  extra_env = extra_env_of agent.spec.pod_spec;
  system_containers = system_containers_of agent.spec.pod_spec;
}

-- `ResolveTemplateToConfig`
unfoldable pub resolve_template_to_config : AgentTemplate → AgentConfig
resolve_template_to_config tmpl = record {
  agent_image = default_string tmpl.spec.agent_image default_agent_image;
  executor_image = default_string tmpl.spec.executor_image default_executor_image;
  attach_image = default_string tmpl.spec.attach_image default_attach_image;
  command = tmpl.spec.command;
  workspace_dir = tmpl.spec.workspace_dir;
  contexts = tmpl.spec.contexts;
  skills = tmpl.spec.skills;
  plugins = tmpl.spec.plugins;
  config = tmpl.spec.config;
  credentials = tmpl.spec.credentials;
  pod_spec = tmpl.spec.pod_spec;
  service_account_name = tmpl.spec.service_account_name;
  max_concurrent_tasks = none;
  quota = none;
  ca_bundle = tmpl.spec.ca_bundle;
  proxy = tmpl.spec.proxy;
  image_pull_secrets = tmpl.spec.image_pull_secrets;
  port = pos 0;
  extra_ports = tmpl.spec.extra_ports;
  persistence = none;
  suspend = false;
  server_ready = false;
  extra_env = extra_env_of tmpl.spec.pod_spec;
  system_containers = system_containers_of tmpl.spec.pod_spec;
}

-- `firstNonEmptyStringSlice`
unfoldable pub first_non_empty_string_slice : List String → List String → List String
first_non_empty_string_slice [] b = b
first_non_empty_string_slice (x ∷ xs) b = x ∷ xs

-- `firstNonNilPtr` and `firstNonNilSlice`
unfoldable pub first_non_nil {ℓ} : {A : Type ℓ} → Option A → Option A → Option A
first_non_nil none b = b
first_non_nil (some a) b = some a

-- `MergeAgentWithTemplate`
unfoldable pub merge_agent_with_template : Agent → AgentTemplate → AgentConfig
merge_agent_with_template agent tmpl =
    let merged_pod_spec = first_non_nil agent.spec.pod_spec tmpl.spec.pod_spec in
    record {
      agent_image =
          default_string agent.spec.agent_image
            (default_string tmpl.spec.agent_image default_agent_image);
      executor_image =
          default_string agent.spec.executor_image
            (default_string tmpl.spec.executor_image default_executor_image);
      attach_image =
          default_string agent.spec.attach_image
            (default_string tmpl.spec.attach_image default_attach_image);
      command = first_non_empty_string_slice agent.spec.command tmpl.spec.command;
      workspace_dir = default_string agent.spec.workspace_dir tmpl.spec.workspace_dir;
      contexts = first_non_nil agent.spec.contexts tmpl.spec.contexts;
      skills = first_non_nil agent.spec.skills tmpl.spec.skills;
      plugins = first_non_nil agent.spec.plugins tmpl.spec.plugins;
      config = first_non_nil agent.spec.config tmpl.spec.config;
      credentials = first_non_nil agent.spec.credentials tmpl.spec.credentials;
      pod_spec = merged_pod_spec;
      service_account_name =
          default_string agent.spec.service_account_name tmpl.spec.service_account_name;
      max_concurrent_tasks =
          first_non_nil agent.spec.max_concurrent_tasks tmpl.spec.max_concurrent_tasks;
      quota = first_non_nil agent.spec.quota tmpl.spec.quota;
      ca_bundle = first_non_nil agent.spec.ca_bundle tmpl.spec.ca_bundle;
      proxy = first_non_nil agent.spec.proxy tmpl.spec.proxy;
      image_pull_secrets = first_non_nil agent.spec.image_pull_secrets tmpl.spec.image_pull_secrets;
      port = agent.spec.port;
      extra_ports = first_non_nil agent.spec.extra_ports tmpl.spec.extra_ports;
      persistence = agent.spec.persistence;
      suspend = agent.spec.suspend;
      server_ready = agent.status.ready;
      extra_env = extra_env_of merged_pod_spec;
      system_containers = system_containers_of merged_pod_spec;
    }

-- `ResolveAgentConfigFromTemplate`
unfoldable pub resolve_agent_config_from_template : Agent → E AgentConfig
resolve_agent_config_from_template agent =
    on_option agent.spec.template_ref (pure (resolve_agent_config agent)) (λ name. do
      found ← attempt (get_template (record { name = name; namespace = agent.meta.namespace }))
      on_result found
          (λ e. throw (
            wrap "agent template %q not found in namespace %q: %w"
              (str name ∷ str agent.meta.namespace ∷ []) e))
          (λ tmpl.
            let merged = merge_agent_with_template agent tmpl in
            if str_eq merged.workspace_dir ""
            then throw (
                errorf "agent %q has empty workspaceDir after template merge"
                  (str agent.meta.name ∷ []))
            else if str_eq merged.service_account_name ""
            then throw (
                errorf "agent %q has empty serviceAccountName after template merge"
                  (str agent.meta.name ∷ []))
            else pure merged))
