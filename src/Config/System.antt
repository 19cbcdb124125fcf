-- ===== src/Config/System.antt =====
-- The cluster's configuration, with its defaults (`resolveSystemConfig` of
-- internal/controller/task_controller.go; internal/controller/pod_builder.go).
use kubeopencode.Prelude.{String, Option, none, some}
use kubeopencode.Api.Agent.{Raw, SystemImageConfig, KubeOpenCodeConfigSpec}
use kubeopencode.Client.{E, pure, attempt, on_result, ◌>>=◌}
use kubeopencode.Client.Calls.{get_config}
use kubeopencode.Config.{AgentConfig, default_string, first_non_nil}

abbrev pub default_kubeopencode_image : String
default_kubeopencode_image = "ghcr.io/kubeopencode/kubeopencode:latest"

abbrev pub default_cluster_domain : String
default_cluster_domain = "cluster.local"

-- `systemConfig`; the policy is its text.
pub record SystemConfig : Type 0 where
  pub system_image : String
  pub system_image_pull_policy : String
  pub proxy : Option Raw
  pub cluster_domain : String
  pub observability : Option Raw

abbrev pub default_system_config : SystemConfig
default_system_config = record {
  system_image = default_kubeopencode_image;
  system_image_pull_policy = "IfNotPresent";
  proxy = none;
  cluster_domain = default_cluster_domain;
  observability = none;
}

abbrev pub image_or : String → Option SystemImageConfig → String
image_or default none = default
image_or default (some i) = default_string i.image default

abbrev pub policy_or : String → Option SystemImageConfig → String
policy_or default none = default
policy_or default (some i) = default_string i.image_pull_policy default

-- The part of `resolveSystemConfig` after the config was read.
unfoldable pub system_config_of : KubeOpenCodeConfigSpec → SystemConfig
system_config_of spec = record {
  system_image = image_or default_kubeopencode_image spec.system_image;
  system_image_pull_policy = policy_or "IfNotPresent" spec.system_image;
  proxy = spec.proxy;
  cluster_domain = default_string spec.cluster_domain default_cluster_domain;
  observability = spec.observability;
}

-- `resolveSystemConfig`: any error reads as the defaults.
unfoldable pub resolve_system_config : E SystemConfig
resolve_system_config = do
  found ← attempt get_config
  on_result found (λ _. pure default_system_config) (λ spec. pure (system_config_of spec))

-- `applySystemDefaults`
unfoldable pub apply_system_defaults : AgentConfig → SystemConfig → AgentConfig
apply_system_defaults cfg sys = record cfg { proxy = first_non_nil cfg.proxy sys.proxy }
