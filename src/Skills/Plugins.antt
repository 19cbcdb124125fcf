-- ===== src/Skills/Plugins.antt =====
-- Plugins (internal/controller/skill_processor.go): package names, the paths of the installed
-- packages, and the split by runtime.
pub mod Npm
pub mod Resolved
use kubeopencode.Prelude.{
  ℕ, suc, String, Bool, true, false, not, Option, none, some, List, [], ◌∷◌, filter_by,
  if◌then◌else◌,
}
use Prim.Native.Char.{code}
use kubeopencode.Prelude.{◌==◌}
use kubeopencode.Prelude.Text.{concat, prefix}
use kubeopencode.Api.Library.{Library}
use kubeopencode.Api.Agent.{PluginTarget, PluginSpec}
use kubeopencode.Prelude.Text.{mem}

-- `DefaultPluginsMountBase`
abbrev pub default_plugins_mount_base : String
default_plugins_mount_base = "/plugins"

-- `strings.HasPrefix(s, "@")`
unfoldable pub starts_at : String → Bool
starts_at String.[] = false
starts_at (String.◌∷◌ c s) = code c == b'@'

-- `strings.Index(s, "@")`
unfoldable pub index_at : String → Option ℕ
index_at String.[] = none
index_at (String.◌∷◌ c s) =
    let rest = index_at s in
    if code c == b'@' then some 0 else elim rest [ none ↦ none | some n ↦ some (suc n) ]

-- `s[1:]`
unfoldable pub tail : String → String
tail String.[] = String.[]
tail (String.◌∷◌ c s) = s

-- `extractNpmPackageName`
unfoldable pub extract_npm_package_name : String → String
unfolding starts_at index_at prefix tail
extract_npm_package_name spec =
    if starts_at spec
    then elim (index_at (tail spec)) [ none ↦ spec | some idx ↦ prefix (suc idx) spec ]
    else elim (index_at spec) [ none ↦ spec | some idx ↦ prefix idx spec ]

abbrev pub package_path : Library → String → String
package_path lib pkg =
    concat "file://" (lib.join (default_plugins_mount_base ∷ "node_modules" ∷ pkg ∷ []))

-- The loop of `resolvePluginPaths`, with the packages seen so far.
unfoldable pub resolve_plugins : Library → List String → List PluginSpec → List PluginSpec
resolve_plugins lib seen [] = []
resolve_plugins lib seen (p ∷ ps) =
    let pkg = extract_npm_package_name p.name in
    let skipped = resolve_plugins lib seen ps in
    let kept = record p { name = package_path lib pkg } ∷ resolve_plugins lib (pkg ∷ seen) ps in
    if mem pkg seen then skipped else kept

-- `resolvePluginPaths`
unfoldable pub resolve_plugin_paths : Library → List PluginSpec → List PluginSpec
unfolding resolve_plugins
resolve_plugin_paths lib ps = resolve_plugins lib [] ps

abbrev pub is_tui : PluginTarget → Bool
is_tui PluginTarget.tui = true
is_tui _ = false

-- `splitPluginsByTarget`: the server's plugins and the terminal's.
unfoldable pub split_plugins_by_target : List PluginSpec → List PluginSpec × List PluginSpec
split_plugins_by_target [] = ([], [])
split_plugins_by_target (p ∷ ps) =
    let (server, tui) = split_plugins_by_target ps in
    if is_tui p.target then (server, p ∷ tui) else (p ∷ server, tui)

-- `hasServerPlugins`
unfoldable pub has_server_plugins : List PluginSpec → Bool
has_server_plugins [] = false
has_server_plugins (p ∷ ps) =
    let rest = has_server_plugins ps in if not (is_tui p.target) then true else rest

-- `hasTUIPlugins`
unfoldable pub has_tui_plugins : List PluginSpec → Bool
has_tui_plugins [] = false
has_tui_plugins (p ∷ ps) = let rest = has_tui_plugins ps in if is_tui p.target then true else rest
