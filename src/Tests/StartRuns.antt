-- ===== src/Tests/StartRuns.antt =====
-- The start of Tasks on concrete clusters.
use kubeopencode.Prelude.{◌≡◌, refl, ℕ, true, false, some, [], ◌∷◌, count_by, arith}
use kubeopencode.Prelude.Int.{pos}
use kubeopencode.Api.Errors.{ok, str, num}
use kubeopencode.Api.Agent.{Agent}
use kubeopencode.Api.Task.{Task, unset, running}
use kubeopencode.Client.{
  Env, Call, ◌>>=◌, ◌>>◌, attempt, on_result, on_option, try_call, call, pure, throw, library, lift,
}
use kubeopencode.Client.Rules.{Only}
use kubeopencode.Client.Rules.Counts.{Within}
use kubeopencode.Config.{resolve_agent_config, resolve_agent_config_from_template, default_string}
use kubeopencode.Task.Queue.{
  agent_label_key, is_running, capacity_limit, get_agent_config_with_name, get_named_agent_config,
}
use kubeopencode.Task.Start.{
  initialize_for, initialize_task, queue_task, resolve_reference, resolve_agent, occupy_if_free,
  occupy_within_quota, occupy,
}
use kubeopencode.Task.Start.Pod.{
  Reference, start_pod, prepare_pod, store_contexts, record_and_create, create_task_pod, finish_pod,
  record_pod,
}
use kubeopencode.Task.Start.Steps.{StartStep}
use kubeopencode.Task.Start.Guards.{IsOpen, initialize_for-StartStep}
use kubeopencode.Task.Start.Other.{is_create_pod}
use kubeopencode.Task.Start.Once.{initialize_task-Within}
use kubeopencode.Task.Start.Capacity.{Queues, counts_itself}
use kubeopencode.Task.Reconcile.{dispatch}
use kubeopencode.Task.Reconcile.Phases.{Written}
use kubeopencode.Task.Reconcile.Refines.{dispatch-Written}
use kubeopencode.Client.Calls.{
  get_agent, get_config, get_task, get_pod, create_pod, create_config_map, update_task_status,
  event, now, with_condition,
}
use kubeopencode.Config.System.{resolve_system_config}
use kubeopencode.Context.{process_context_items, process_items_from}
use kubeopencode.Context.Task.{
  process_all_contexts, mount_all, prepare, task_files, check_json, checked,
}
use kubeopencode.Skills.{process_skills}
use kubeopencode.Skills.Plugins.{resolve_plugin_paths, split_plugins_by_target}
use kubeopencode.Skills.Inject.{inject_skills_into_config, inject_plugins_into_config}
use kubeopencode.Skills.Pipeline.{
  process_skills_plugins_and_inject_config, effective_config, add_config_file, add_tui_config,
}
use kubeopencode.Task.Mounts.{validate_mount_path_conflicts, add_mounts}
use kubeopencode.Tests.Cluster.{cluster, coder, bare_spec, meta_named, fix_it}

-- A new Task, labelled with its Agent.
abbrev new_task : Task
new_task = record fix_it {
  meta = record (meta_named "fix-it") { labels = (agent_label_key, "coder") ∷ [] };
  status = record fix_it.status { phase = unset };
}

abbrev running_task : Task
running_task = record new_task { status = record new_task.status { phase = running } }

-- The Agent takes one Task at a time.
abbrev single_coder : Agent
single_coder = record coder {
  spec = record coder.spec { base = record bare_spec { max_concurrent_tasks = some (pos 1) } };
}

abbrev single : Reference
single = record {
  cfg = resolve_agent_config single_coder;
  name = "coder";
  is_template = false;
  server_url = "http://coder.ns.svc.cluster.local:4096";
}

initialize_for-StartStep_example :
    Only (StartStep (IsOpen single) new_task) (initialize_for new_task single)
initialize_for-StartStep_example = initialize_for-StartStep new_task single

dispatch-Written_example :
    Only (Written new_task new_task.status.phase) (dispatch new_task.status.phase new_task)
dispatch-Written_example = dispatch-Written new_task

initialize_task-Within_example : Within is_create_pod 1 (initialize_task new_task)
initialize_task-Within_example = initialize_task-Within new_task

-- The running Task is the only one of its Agent.
abbrev alone : Env
alone = record (cluster (pos 0)) { list_tasks = λ _ _ _. ok (running_task ∷ []) }

counts_itself_example :
    Queues running_task "Queued" "Agent %q at capacity (max: %d), task queued"
      (str "coder" ∷ num (pos 1) ∷ [])
      (Call.list_tasks "ns" (some (agent_label_key, "coder")) ∷ [])
      (initialize_for running_task single alone [])
unfolding resolve_agent_config capacity_limit is_running
counts_itself_example =
    counts_itself alone [] running_task single [] refl refl refl refl refl (omega arith) refl refl

-- A new Task of a free Agent gets its Pod, and one of a suspended Agent is queued.
abbrev free : Env
free = record (cluster (pos 0)) { get_agent = λ _ _. ok coder; get_task = λ _ _. ok new_task }

abbrev suspended : Env
suspended = record (cluster (pos 0)) {
  get_agent = λ _ _. ok (record coder { spec = record coder.spec { suspend = true } });
}

abbrev pods_of : Env → ℕ
pods_of env = count_by is_create_pod (initialize_task new_task env []).1

pods_of_runs : (pods_of free ≡ 1) × (pods_of suspended ≡ 0)
unfolding ◌>>=◌ ◌>>◌ attempt on_result on_option try_call call pure throw library lift get_agent
    get_config get_task get_pod create_pod create_config_map update_task_status event now
    with_condition resolve_agent_config resolve_agent_config_from_template default_string
    resolve_system_config get_agent_config_with_name get_named_agent_config capacity_limit
    is_running initialize_task resolve_reference resolve_agent initialize_for occupy_if_free
    occupy_within_quota occupy queue_task start_pod prepare_pod store_contexts record_and_create
    create_task_pod finish_pod record_pod process_context_items process_items_from
    process_all_contexts mount_all prepare task_files check_json checked process_skills
    resolve_plugin_paths split_plugins_by_target inject_skills_into_config
    inject_plugins_into_config process_skills_plugins_and_inject_config effective_config
    add_config_file add_tui_config validate_mount_path_conflicts add_mounts
pods_of_runs = (refl, refl)
