-- ===== src/Server/Contexts.antt =====
-- `processAgentContexts` (internal/controller/agent_controller.go): the ConfigMap and the mounts of
-- an Agent's server.
use kubeopencode.Prelude.{String, Bool, none, List, [], ◌++◌, ◌&&◌, if◌then◌else◌}
use kubeopencode.Prelude.Text.{Dict}
use kubeopencode.Api.Errors.{Result, wrap}
use kubeopencode.Api.Library.{Library}
use kubeopencode.Api.Agent.{Agent, items}
use kubeopencode.Client.{E, pure, throw, attempt, lift, library, on_result, ◌>>=◌, ◌>>◌}
use kubeopencode.Config.{AgentConfig}
use kubeopencode.Skills.Inject.{config_is_empty, is_nil}
use kubeopencode.Skills.Pipeline.{Prepared, process_skills_plugins_and_inject_config}
use kubeopencode.Task.Mounts.{FileMount, DirMount, GitMount, validate_mount_path_conflicts}
use kubeopencode.Context.{ResolvedContext, Contexts, process_context_items}
use kubeopencode.Context.Files.{build_context_config_map_data}
use kubeopencode.Context.Server.{build_server_context_config_map}
use kubeopencode.Context.Task.{Mounted}

-- The guard of the early return.
abbrev pub has_nothing : AgentConfig → Bool
has_nothing cfg =
    is_nil (items cfg.contexts)
    && is_nil (items cfg.skills)
    && is_nil (items cfg.plugins)
    && config_is_empty cfg.config

-- The files of the resolved contexts, if there are any.
unfoldable pub context_files :
    Library → List ResolvedContext → String → Dict String × List FileMount
context_files lib resolved workspace_dir =
    if is_nil resolved then ([], []) else build_context_config_map_data lib resolved workspace_dir

-- The files with the skills and plugins of the Agent; unlike a Task's, the config is not checked.
unfoldable pub prepare_agent : Library → AgentConfig → List ResolvedContext → Result Prepared
prepare_agent lib cfg resolved =
    let (entries, files) = context_files lib resolved cfg.workspace_dir in
    process_skills_plugins_and_inject_config lib (items cfg.skills) (items cfg.plugins) cfg.config
      entries files

-- The check at the end, and what the function returns.
unfoldable pub checked_agent : Agent → Prepared → List DirMount → List GitMount → E Mounted
checked_agent agent p dirs gits = do
  lift (validate_mount_path_conflicts p.file_mounts dirs gits)
  pure (record {
    config_map = build_server_context_config_map agent p.entries;
    files = p.file_mounts;
    dirs = dirs;
    gits = gits;
  })

-- The part after the contexts are resolved.
unfoldable pub mount_agent : Agent → AgentConfig → Contexts → E Mounted
mount_agent agent cfg found = do
  lib ← library (λ env. env.lib)
  p ← lift (prepare_agent lib cfg found.resolved)
  checked_agent agent p found.dirs (found.gits ++ p.git_mounts)

-- `processAgentContexts`. No items resolve to no contexts, without a call.
unfoldable pub process_agent_contexts : Agent → AgentConfig → E Mounted
process_agent_contexts agent cfg =
    if has_nothing cfg
    then pure (record { config_map = none; files = []; dirs = []; gits = [] })
    else (do
      found ←
          attempt
            (process_context_items (items cfg.contexts) agent.meta.namespace cfg.workspace_dir)
      on_result found (λ e. throw (wrap "failed to resolve Agent contexts: %w" [] e))
          (mount_agent agent cfg))
