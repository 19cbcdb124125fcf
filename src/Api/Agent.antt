-- ===== src/Api/Agent.antt =====
-- api/v1alpha1/agent_types.go, agenttemplate_types.go and config_types.go. A field that the
-- modelled code only passes on is kept as its JSON text, `Raw`. A slice is an `Option`, since the
-- merge tells `nil` from an empty one. The quota's numbers and the cleanup's are natural numbers:
-- the schema refuses negative ones.
use kubeopencode.Prelude.{ℕ, String, Bool, Option, none, some, List, []}
use kubeopencode.Prelude.Int.{ℤ}
use kubeopencode.Api.Meta.{ObjectMeta, Conditions}
use kubeopencode.Api.Context.{ContextItem}

abbrev pub Raw : Type 0
Raw = String

-- A slice, `nil` or not.
abbrev pub Slice : Type 0 → Type 0
Slice A = Option (List A)

abbrev pub items : {A : Type 0} → Slice A → List A
items none = []
items (some xs) = xs

pub record QuotaConfig : Type 0 where
  pub max_task_starts : ℕ
  pub window_seconds : ℕ

pub record TaskStartRecord : Type 0 where
  pub task_name : String
  pub task_namespace : String
  pub start_time : ℤ

pub record AgentPodSpec : Type 0 where
  pub extra_env : Slice Raw
  pub system_containers : Option Raw
  pub rest : Raw

-- api/v1alpha1/skill_types.go. The schema keeps the names a set, and `git` present.
pub record GitSkillSource : Type 0 where
  pub repository : String
  pub ref : String
  pub path : String
  pub names : List String
  pub depth : Option ℤ
  pub recurse_submodules : Bool
  pub secret_ref : Option String

pub record SkillSource : Type 0 where
  pub name : String
  pub git : Option GitSkillSource

-- An empty `Target` is `unset`.
pub data PluginTarget : Type 0 where
  unset server tui : PluginTarget

pub record PluginSpec : Type 0 where
  pub name : String
  pub target : PluginTarget
  pub options : Option Raw

pub record AgentTemplateSpec : Type 0 where
  pub agent_image : String
  pub executor_image : String
  pub attach_image : String
  pub workspace_dir : String
  pub command : List String
  pub contexts : Slice ContextItem
  pub skills : Slice SkillSource
  pub plugins : Slice PluginSpec
  pub config : Option Raw
  pub credentials : Slice Raw
  pub pod_spec : Option AgentPodSpec
  pub service_account_name : String
  pub ca_bundle : Option Raw
  pub proxy : Option Raw
  pub image_pull_secrets : Slice Raw
  pub extra_ports : Slice Raw
  pub max_concurrent_tasks : Option ℤ
  pub quota : Option QuotaConfig

pub record AgentTemplate : Type 0 where
  pub meta : ObjectMeta
  pub spec : AgentTemplateSpec

pub record StandbyConfig : Type 0 where
  pub idle_timeout : ℤ

pub record ShareConfig : Type 0 where
  pub enabled : Bool
  pub expires_at : Option ℤ

pub record AgentSpec : Type 0 where
  pub template_ref : Option String
  pub base : AgentTemplateSpec
  pub open base use *
  pub port : ℤ
  pub persistence : Option Raw
  pub suspend : Bool
  pub standby : Option StandbyConfig
  pub share : Option ShareConfig

pub record ShareStatus : Type 0 where
  pub active : Bool
  pub secret_name : String

pub record AgentStatus : Type 0 where
  pub share : Option ShareStatus
  pub observed_generation : ℕ
  pub deployment_name : String
  pub service_name : String
  pub conditions : Conditions
  pub task_start_history : List TaskStartRecord
  pub url : String
  pub ready : Bool
  pub suspended : Bool
  pub idle_since : Option ℤ

pub record Agent : Type 0 where
  pub meta : ObjectMeta
  pub spec : AgentSpec
  pub status : AgentStatus

pub record CleanupConfig : Type 0 where
  pub ttl_seconds_after_finished : Option ℕ
  pub max_retained_tasks : Option ℕ

pub record SystemImageConfig : Type 0 where
  pub image : String
  pub image_pull_policy : String

pub record KubeOpenCodeConfigSpec : Type 0 where
  pub cluster_domain : String
  pub system_image : Option SystemImageConfig
  pub cleanup : Option CleanupConfig
  pub proxy : Option Raw
  pub observability : Option Raw
