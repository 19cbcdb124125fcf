-- ===== src/Tests/Cluster.antt =====
-- A cluster where every write succeeds and every read finds nothing, at one instant.
use kubeopencode.Prelude.{String, true, false, none, some, [], ◌∷◌}
use kubeopencode.Prelude.Int.{ℤ, pos, negsuc}
use kubeopencode.Prelude.Sort.{sort_by}
use kubeopencode.Api.Errors.{ok, err, not_found}
use kubeopencode.Prelude.Text.{concat, join_with, str_ltb}
use kubeopencode.Api.Library.{Library, Json}
use kubeopencode.Api.Meta.{ObjectMeta}
use kubeopencode.Api.Agent.{Agent, AgentTemplateSpec, QuotaConfig, TaskStartRecord}
use kubeopencode.Api.Task.{Task, queued}
use kubeopencode.Client.{Env}

abbrev pub digits : ℤ → String
digits (pos n) = "n"
digits (negsuc n) = "-n"

-- A library that parses and prints nothing but the empty object.
abbrev pub plain_library : Library
plain_library = record {
  parse = λ _. ok Json.null;
  parse_object = λ _. ok [];
  print_object = λ _. ok "{}";
  join = λ parts. join_with "/" parts;
  sort_strings = sort_by str_ltb;
  quote = λ s. concat "\"" (concat s "\"");
  digest = λ parts. join_with "" parts;
}

abbrev pub cluster : ℤ → Env
cluster now = record {
  now = λ _. now;
  get_task = λ _ _. err not_found;
  get_agent = λ _ _. err not_found;
  get_template = λ _ _. err not_found;
  get_pod = λ _ _. err not_found;
  get_config_map = λ _ _. err not_found;
  get_cron_task = λ _ _. err not_found;
  get_deployment = λ _ _. err not_found;
  get_secret = λ _ _. err not_found;
  create_secret = λ _ _ _. ok tt;
  delete_secret = λ _ _. ok tt;
  random_token = λ _. ok "token";
  get_config = λ _. err not_found;
  list_tasks = λ _ _ _. ok [];
  update_task = λ _ t. ok t;
  update_task_status = λ _ t. ok t;
  update_agent_status = λ _ a. ok a;
  patch_agent = λ _ a. ok a;
  create_pod = λ _ _. ok tt;
  create_config_map = λ _ _. ok tt;
  update_config_map = λ _ _. ok tt;
  delete_config_map = λ _ _. ok tt;
  create_task = λ _ t. ok t;
  delete_pod = λ _ _. ok tt;
  delete_task = λ _ _. ok tt;
  update_cron_task_status = λ _ c. ok c;
  patch_cron_task = λ _ c. ok c;
  parse_cron = λ _. ok (λ _ t. t);
  load_location = λ _. ok tt;
  format_int = digits;
  list_sessions = λ _ _ _. ok [];
  list_messages = λ _ _ _. ok [];
  add_costs = λ _. "0.000000";
  remove_condition = λ cs _. cs;
  find_condition = λ _ _. none;
  parse_time = λ _. err not_found;
  set_condition = λ cs c. c ∷ cs;
  sort_tasks = sort_by;
  sort_records = sort_by;
  lib = plain_library;
}

abbrev pub meta_named : String → ObjectMeta
meta_named name = record {
  name = name;
  namespace = "ns";
  uid = "uid";
  resource_version = "1";
  generation = 1;
  labels = [];
  annotations = [];
  owner = none;
}

abbrev pub bare_spec : AgentTemplateSpec
bare_spec = record {
  agent_image = "";
  executor_image = "";
  attach_image = "";
  workspace_dir = "/workspace";
  command = "opencode" ∷ [];
  contexts = none;
  skills = none;
  plugins = none;
  config = some "{}";
  credentials = none;
  pod_spec = none;
  service_account_name = "agent";
  ca_bundle = none;
  proxy = none;
  image_pull_secrets = none;
  extra_ports = none;
  max_concurrent_tasks = none;
  quota = none;
}

-- An Agent without limits.
abbrev pub coder : Agent
coder = record {
  meta = meta_named "coder";
  spec = record {
    template_ref = none;
    base = bare_spec;
    port = pos 0;
    persistence = none;
    suspend = false;
    standby = none;
    share = none;
  };
  status = record {
    conditions = [];
    share = none;
    observed_generation = 0;
    deployment_name = "";
    service_name = "";
    task_start_history = [];
    url = "";
    ready = true;
    suspended = false;
    idle_since = none;
  };
}

abbrev pub two_per_minute : QuotaConfig
two_per_minute = record { max_task_starts = 2; window_seconds = 60 }

-- The Agent with a quota of its own.
abbrev pub limited_coder : Agent
limited_coder = record coder {
  spec = record coder.spec { base = record bare_spec { quota = some two_per_minute } };
}

abbrev pub started_at : String → ℤ → TaskStartRecord
started_at name t = record { task_name = name; task_namespace = "ns"; start_time = t }

abbrev pub fix_it : Task
fix_it = record {
  meta = meta_named "fix-it";
  spec = record {
    description = some "Fix it.";
    contexts = [];
    agent_ref = some "coder";
    template_ref = none;
    timeout = none;
  };
  status = record {
    observed_generation = 0;
    phase = queued;
    agent_ref = some "coder";
    template_ref = none;
    pod_name = "";
    session = none;
    start_time = none;
    completion_time = none;
    conditions = [];
  };
}
