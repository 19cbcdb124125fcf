-- ===== src/Skills/Pipeline.antt =====
-- `processSkillsPluginsAndInjectConfig` (internal/controller/skill_processor.go).
use kubeopencode.Prelude.{String, Option, none, List, [], ◌∷◌, ◌++◌, if◌then◌else◌}
use kubeopencode.Prelude.Text.{Dict, insert}
use kubeopencode.Api.Errors.{Result, ok}
use kubeopencode.Api.Library.{Library}
use kubeopencode.Api.Agent.{Raw, SkillSource, PluginSpec}
use kubeopencode.Task.Mounts.{FileMount, GitMount, and_then, sanitize_config_map_key}
use kubeopencode.Skills.{process_skills}
use kubeopencode.Skills.Plugins.{resolve_plugin_paths, split_plugins_by_target}
use kubeopencode.Skills.Inject.{
  config_is_empty, raw_text, wrapped, is_nil, inject_plugins_into_config, inject_skills_into_config,
}

-- `OpenCodeConfigPath` and `OpenCodeTUIConfigPath`
abbrev pub open_code_config_path : String
open_code_config_path = "/tools/opencode.json"

abbrev pub open_code_tui_config_path : String
open_code_tui_config_path = "/tools/tui.json"

-- What the function returns, with the map of the ConfigMap's data that it writes to.
pub record Prepared : Type 0 where
  pub git_mounts : List GitMount
  pub file_mounts : List FileMount
  pub entries : Dict String

-- A config that is not empty becomes a file.
unfoldable pub add_config_file :
    String → Option Raw → Dict String × List FileMount → Dict String × List FileMount
unfolding config_is_empty sanitize_config_map_key
add_config_file path config (entries, files) =
    if config_is_empty config then (entries, files) else (
      insert (sanitize_config_map_key path) (raw_text config) entries,
      files ++ (record { file_path = path; file_mode = none } ∷ []),
    )

-- The last part: the terminal's plugins, in a config of their own.
unfoldable pub add_tui_config :
    Library → List PluginSpec → Dict String × List FileMount → Result (Dict String × List FileMount)
unfolding inject_plugins_into_config add_config_file
add_tui_config lib tui files =
    if is_nil tui
    then ok files
    else and_then
        (wrapped "failed to inject TUI plugins config: %w"
          (inject_plugins_into_config lib none tui))
        (λ config. ok (add_config_file open_code_tui_config_path config files))

-- Both guards ask for a list that is not empty, as the functions themselves do.
unfoldable pub effective_config :
    Library → Option Raw → List String → List PluginSpec → Result (Option Raw)
effective_config lib config paths server =
    and_then
      (wrapped "failed to inject skills config: %w" (inject_skills_into_config lib config paths))
      (λ injected.
        wrapped "failed to inject server plugins config: %w"
          (inject_plugins_into_config lib injected server))

unfoldable pub process_skills_plugins_and_inject_config :
    Library
    → List SkillSource
    → List PluginSpec
    → Option Raw
    → Dict String
    → List FileMount
    → Result Prepared
process_skills_plugins_and_inject_config lib skills plugins config entries files =
    let (mounts, paths) = process_skills lib skills in
    let (server, tui) = split_plugins_by_target (resolve_plugin_paths lib plugins) in
    and_then (effective_config lib config paths server) (λ effective.
      and_then
        (add_tui_config lib tui (add_config_file open_code_config_path effective (entries, files)))
        (λ (entries', files').
          ok (record { git_mounts = mounts; file_mounts = files'; entries = entries' })))
