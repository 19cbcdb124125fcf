-- ===== src/Context/Task.antt =====
-- `processAllContexts` (internal/controller/task_controller.go): the ConfigMap and the mounts of a
-- Task's Pod.
pub mod Checked
pub mod Lost
use kubeopencode.Prelude.{
  String, Bool, true, false, Option, none, some, List, [], ◌∷◌, ◌++◌, if◌then◌else◌,
}
use kubeopencode.Prelude.Text.{Dict, str_eq, concat}
use kubeopencode.Api.Errors.{Error, Result, ok, wrap}
use kubeopencode.Api.Library.{Library}
use kubeopencode.Api.Meta.{ObjectMeta}
use kubeopencode.Api.Agent.{Raw, items}
use kubeopencode.Api.Task.{Task}
use kubeopencode.Client.{E, ConfigMap, pure, throw, attempt, lift, library, on_result, ◌>>=◌, ◌>>◌}
use kubeopencode.Config.{AgentConfig}
use kubeopencode.Skills.Inject.{config_is_empty, raw_text, wrapped, is_nil}
use kubeopencode.Skills.Pipeline.{Prepared, process_skills_plugins_and_inject_config}
use kubeopencode.Task.Mounts.{
  FileMount, DirMount, GitMount, and_then, validate_mount_path_conflicts,
}
use kubeopencode.Context.{ResolvedContext, Contexts, process_context_items}
use kubeopencode.Context.Files.{Files, no_files, file_at, put_file, add_contexts, add_context_file}

-- `ContextConfigMapSuffix` and `TaskLabelKey`
abbrev pub context_config_map_suffix : String
context_config_map_suffix = "-context"

abbrev pub task_label_key : String
task_label_key = "kubeopencode.io/task"

pub record Mounted : Type 0 where
  pub config_map : Option ConfigMap
  pub files : List FileMount
  pub dirs : List DirMount
  pub gits : List GitMount

abbrev pub description_of : Task → String
description_of task = elim task.spec.description [ none ↦ "" | some d ↦ d ]

-- `task.md`, if the Task has a description. Its key does not depend on the workspace's path.
unfoldable pub add_task_md : String → String → Files → Files
unfolding put_file
add_task_md description workspace_dir fs =
    if str_eq description ""
    then fs
    else put_file fs "workspace-task.md" (file_at (concat workspace_dir "/task.md")) description

-- The files of the resolved contexts and of the description.
unfoldable pub task_files : Library → Task → String → List ResolvedContext → Files
unfolding add_contexts add_task_md add_context_file
task_files lib task workspace_dir resolved =
    add_context_file workspace_dir
      (add_task_md (description_of task) workspace_dir (add_contexts lib no_files resolved))

-- The check of the user's configuration.
unfoldable pub check_json : Library → Option Raw → Result (Unit {0})
unfolding config_is_empty
check_json lib config =
    if config_is_empty config
    then ok tt
    else and_then (wrapped "invalid JSON in Agent config: %w" (lib.parse (raw_text config)))
        (λ _. ok tt)

-- The files with the skills and plugins of the Agent.
unfoldable pub prepare : Library → Task → AgentConfig → List ResolvedContext → Result Prepared
prepare lib task cfg resolved =
    let fs = task_files lib task cfg.workspace_dir resolved in
    and_then (check_json lib cfg.config) (λ _.
      process_skills_plugins_and_inject_config lib (items cfg.skills) (items cfg.plugins) cfg.config
        fs.entries fs.files)

abbrev pub context_meta : Task → ObjectMeta
context_meta task = record {
  name = concat task.meta.name context_config_map_suffix;
  namespace = task.meta.namespace;
  uid = "";
  resource_version = "";
  generation = 0;
  labels = ("app", "kubeopencode") ∷ (task_label_key, task.meta.name) ∷ [];
  annotations = [];
  owner = some (record { kind = "Task"; name = task.meta.name; uid = task.meta.uid });
}

-- The ConfigMap, if there is any content.
abbrev pub context_config_map : Task → Dict String → Option ConfigMap
context_config_map task entries =
    if is_nil entries then none else some (record { meta = context_meta task; entries = entries })

-- The check at the end, and what the function returns.
unfoldable pub checked : Task → Prepared → List DirMount → List GitMount → E Mounted
checked task p dirs gits = do
  lift (validate_mount_path_conflicts p.file_mounts dirs gits)
  pure (record {
    config_map = context_config_map task p.entries;
    files = p.file_mounts;
    dirs = dirs;
    gits = gits;
  })

-- The part after the Agent's and the Task's contexts are resolved.
unfoldable pub mount_all : Task → AgentConfig → Contexts → Contexts → E Mounted
mount_all task cfg agent own = do
  lib ← library (λ env. env.lib)
  p ← lift (prepare lib task cfg (agent.resolved ++ own.resolved))
  checked task p (agent.dirs ++ own.dirs) (agent.gits ++ own.gits ++ p.git_mounts)

-- `processAllContexts`
unfoldable pub process_all_contexts : Task → AgentConfig → E Mounted
process_all_contexts task cfg = do
  agent ← attempt (process_context_items (items cfg.contexts) task.meta.namespace cfg.workspace_dir)
  on_result agent (λ e. throw (wrap "failed to resolve Agent contexts: %w" [] e))
      (λ agent_contexts. do
        own ←
            attempt (process_context_items task.spec.contexts task.meta.namespace cfg.workspace_dir)
        on_result own (λ e. throw (wrap "failed to resolve Task contexts: %w" [] e))
            (mount_all task cfg agent_contexts))
