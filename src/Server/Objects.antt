-- ===== src/Server/Objects.antt =====
-- `reconcileContextConfigMap` and `reconcileTemplateLabel` (internal/controller/agent_controller.go).
use kubeopencode.Prelude.{String, Option, none, some, [], not, if◌then◌else◌}
use kubeopencode.Prelude.Text.{Dict, str_eq, insert, remove, get_or_empty}
use kubeopencode.Api.Errors.{is_not_found, wrap}
use kubeopencode.Api.Meta.{Key, key_of}
use kubeopencode.Api.Agent.{Agent}
use kubeopencode.Client.{E, ConfigMap, pure, throw, attempt, on_result, on_option, ◌>>=◌}
use kubeopencode.Client.Calls.{
  get_config_map, create_config_map, update_config_map, delete_config_map, patch_agent,
}
use kubeopencode.Context.Server.{server_context_config_map_name}
use kubeopencode.Task.Start.{agent_template_label_key}

abbrev pub server_config_map_key : Agent → Key
server_config_map_key agent = record {
  name = server_context_config_map_name agent.meta.name;
  namespace = agent.meta.namespace;
}

-- A call whose error is wrapped.
abbrev pub or_wrap : {A : Type 0} → String → E A → E (Unit {0})
or_wrap format m = do r ← attempt m; on_result r (λ e. throw (wrap format [] e)) (λ _. pure tt)

-- The deletion, for which the ConfigMap may be gone already.
unfoldable pub delete_stale : Key → E (Unit {0})
delete_stale key = do
  deleted ← attempt (delete_config_map key)
  on_result deleted
      (λ e.
        if not (is_not_found e)
        then throw (wrap "failed to delete context ConfigMap: %w" [] e)
        else pure tt)
      (λ _. pure tt)

-- The case of no contexts. An error of `Get` means that there is nothing to clean up.
unfoldable pub clean_up : Agent → E (Unit {0})
clean_up agent = do
  existing ← attempt (get_config_map (server_config_map_key agent))
  on_result existing (λ _. pure tt) (λ _. delete_stale (server_config_map_key agent))

-- `SetControllerReference` of a new object, which has no owner.
abbrev pub owned : Agent → ConfigMap → ConfigMap
owned agent cm = record cm {
  meta = record cm.meta {
    owner = some (record { kind = "Agent"; name = agent.meta.name; uid = agent.meta.uid });
  };
}

unfoldable pub create_or_update : ConfigMap → E (Unit {0})
create_or_update cm = do
  existing ← attempt (get_config_map (key_of cm.meta))
  on_result existing
      (λ e.
        if is_not_found e
        then or_wrap "failed to create context ConfigMap: %w" (create_config_map cm)
        else throw (wrap "failed to get context ConfigMap: %w" [] e))
      (λ _. or_wrap "failed to update context ConfigMap: %w" (update_config_map cm))

-- `reconcileContextConfigMap`
unfoldable pub reconcile_context_config_map : Agent → Option ConfigMap → E (Unit {0})
reconcile_context_config_map agent desired =
    on_option desired (clean_up agent) (λ cm. create_or_update (owned agent cm))

abbrev pub desired_label : Agent → String
desired_label agent = elim agent.spec.template_ref [ none ↦ "" | some name ↦ name ]

-- The labels with the template's name, or without.
abbrev pub relabel : String → Dict String → Dict String
relabel value labels =
    if str_eq value ""
    then remove agent_template_label_key labels
    else insert agent_template_label_key value labels

abbrev pub relabelled : Agent → Agent
relabelled agent = record agent {
  meta = record agent.meta { labels = relabel (desired_label agent) agent.meta.labels };
}

-- `reconcileTemplateLabel`, which returns the Agent as the API server answers it.
unfoldable pub reconcile_template_label : Agent → E Agent
reconcile_template_label agent =
    if str_eq (desired_label agent) (get_or_empty agent_template_label_key agent.meta.labels)
    then pure agent
    else (do
      patched ← attempt (patch_agent (relabelled agent))
      on_result patched (λ e. throw (wrap "failed to patch template label: %w" [] e)) pure)
