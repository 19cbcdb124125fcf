-- ===== src/Skills/Inject.antt =====
-- Injection of skill paths and plugins into OpenCode's configuration
-- (internal/controller/skill_processor.go, pod_builder.go).
pub mod Kept
pub mod Repeated
use kubeopencode.Prelude.{
  String, Bool, true, false, Option, none, some, List, [], ◌∷◌, ◌++◌, map, is_some, ◌&&◌, not,
  if◌then◌else◌,
}
use kubeopencode.Prelude.Text.{Dict, lookup, insert, str_eq, mem}
use kubeopencode.Api.Errors.{Result, ok, err, wrap, str}
use kubeopencode.Api.Library.{Library, Json, Items, Fields, elements, array, members, object}
use kubeopencode.Api.Agent.{Raw, PluginSpec}
use kubeopencode.Task.Mounts.{and_then}

-- `configIsEmpty`. A `RawExtension` with no text is `some ""`.
unfoldable pub config_is_empty : Option Raw → Bool
config_is_empty none = true
config_is_empty (some raw) = str_eq raw ""

-- `fmt.Errorf(format, args…, err)` with `%w`.
abbrev pub wrapped : {A : Type 0} → String → Result A → Result A
wrapped format (ok a) = ok a
wrapped format (err e) = err (wrap format [] e)

abbrev pub raw_text : Option Raw → Raw
raw_text none = ""
raw_text (some raw) = raw

-- The start of both functions: the parsed config, or an empty map.
unfoldable pub parse_config : Library → Option Raw → Result (Dict Json)
unfolding config_is_empty
parse_config lib config =
    if config_is_empty config
    then ok []
    else wrapped "failed to parse existing config: %w" (lib.parse_object (raw_text config))

-- `x.([]interface{})` of a field that may be missing.
abbrev pub as_array : Option Json → List Json
as_array (some (Json.arr xs)) = elements xs
as_array _ = []

abbrev pub as_object : Option Json → Dict Json
as_object (some (Json.obj fs)) = members fs
as_object _ = []

-- `v[0].(string)` of a tuple entry.
abbrev pub first_name : Items → List String
first_name (Items.item (Json.str name) _) = name ∷ []
first_name _ = []

-- `existingPluginNames`: the name of a string entry, or of a tuple entry.
unfoldable pub plugin_names : List Json → List String
plugin_names [] = []
plugin_names (Json.str name ∷ ps) = name ∷ plugin_names ps
plugin_names (Json.arr xs ∷ ps) = first_name xs ++ plugin_names ps
plugin_names (_ ∷ ps) = plugin_names ps

-- The entry of one plugin: its name, or its name with its options.
unfoldable pub plugin_entry : Library → PluginSpec → Result Json
unfolding config_is_empty
plugin_entry lib p =
    if config_is_empty p.options
    then ok (Json.str p.name)
    else elim (lib.parse (raw_text p.options)) [
      | ok opts ↦ ok (Json.arr (Items.item (Json.str p.name) (Items.item opts Items.no_items)))
      | err e ↦ err (wrap "failed to parse plugin options for %q: %w" (str p.name ∷ []) e)
    ]

-- The loop that appends the new plugins: the entries to append, with the names known so far.
unfoldable pub new_plugins : Library → List String → List PluginSpec → Result (List Json)
unfolding plugin_entry
new_plugins lib known [] = ok []
new_plugins lib known (p ∷ ps) =
    let skipped = new_plugins lib known ps in
    let added =
      and_then (plugin_entry lib p) (λ entry.
        and_then (new_plugins lib (p.name ∷ known) ps) (λ entries. ok (entry ∷ entries))) in
    if mem p.name known then skipped else added

abbrev pub is_nil : {A : Type 0} → List A → Bool
is_nil [] = true
is_nil (_ ∷ _) = false

-- The end of both functions: the config unchanged if nothing was added, else the new map's text.
unfoldable pub write_config : Library → String → Option Raw → Bool → Dict Json → Result (Option Raw)
write_config lib failed config added parsed =
    if not added && is_some config
    then ok config
    else and_then (wrapped failed (lib.print_object parsed)) (λ text. ok (some text))

-- `injectPluginsIntoConfig`
unfoldable pub inject_plugins_into_config :
    Library → Option Raw → List PluginSpec → Result (Option Raw)
inject_plugins_into_config lib config plugins =
    if is_nil plugins
    then ok config
    else and_then (parse_config lib config) (λ parsed.
      let existing = as_array (lookup "plugin" parsed) in
      and_then (new_plugins lib (plugin_names existing) plugins) (λ entries.
        write_config lib "failed to marshal config with plugins: %w" config (not (is_nil entries))
          (insert "plugin" (Json.arr (array (existing ++ entries))) parsed)))

-- The strings among the elements of `skills.paths`.
unfoldable pub strings_of : List Json → List String
strings_of [] = []
strings_of (Json.str s ∷ xs) = s ∷ strings_of xs
strings_of (_ ∷ xs) = strings_of xs

-- The loop that appends the new paths. `existingPaths` does not grow.
unfoldable pub new_paths : List String → List String → List String
new_paths existing [] = []
new_paths existing (p ∷ ps) =
    let rest = new_paths existing ps in if mem p existing then rest else p ∷ rest

-- `injectSkillsIntoConfig`
unfoldable pub inject_skills_into_config : Library → Option Raw → List String → Result (Option Raw)
inject_skills_into_config lib config paths =
    if is_nil paths
    then ok config
    else and_then (parse_config lib config) (λ parsed.
      let skills = as_object (lookup "skills" parsed) in
      let existing = strings_of (as_array (lookup "paths" skills)) in
      let added = new_paths existing paths in
      let all = Json.arr (array (map Json.str (existing ++ added))) in
      write_config lib "failed to marshal config with skills: %w" config (not (is_nil added))
        (insert "skills" (Json.obj (object (insert "paths" all skills))) parsed))
