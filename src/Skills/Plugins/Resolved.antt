-- ===== src/Skills/Plugins/Resolved.antt =====
-- `resolvePluginPaths` keeps the first plugin of each package, in order.
use kubeopencode.Prelude.{
  String, ◌≡◌, refl, ap, Bool, true, not, ◌&&◌, List, [], ◌∷◌, map, filter_by, arith, ◌∙◌,
}
use text.Mathlib.TextEquality.{eq_iff}
use text.Mathlib.TextPositions.{eq_refl}
use kubeopencode.Prelude.Text.{str_eq, mem, distinct}
use kubeopencode.Api.Library.{Library}
use kubeopencode.Api.Agent.{PluginSpec}
use kubeopencode.Skills.Plugins.{
  package_path, extract_npm_package_name, resolve_plugins, resolve_plugin_paths,
}

abbrev pub pkg : PluginSpec → String
pkg p = extract_npm_package_name p.name

abbrev unseen : List String → PluginSpec → Bool
unseen seen p = not (mem (pkg p) seen)

abbrev other_than : String → PluginSpec → Bool
other_than k p = not (str_eq k (pkg p))

-- The first plugin of each package.
pub first_of_each : List PluginSpec → List PluginSpec
first_of_each [] = []
first_of_each (p ∷ ps) = p ∷ filter_by (other_than (pkg p)) (first_of_each ps)

abbrev pub rewritten : Library → PluginSpec → PluginSpec
rewritten lib p = record p { name = package_path lib (pkg p) }

unseen-other_than :
    (k : String) (seen : List String) (ps : List PluginSpec)
    → filter_by (unseen seen) (filter_by (other_than k) ps) ≡ filter_by (unseen (k ∷ seen)) ps
unseen-other_than k seen [] = refl
unseen-other_than k seen (p ∷ ps) = ground (arith, unseen-other_than k seen ps)

mem-eq : (j k : String) (seen : List String) → str_eq k j ≡ true → mem k seen ≡ mem j seen
mem-eq j k seen e = ap (λ x. mem x seen) ((eq_iff k j).0 e)

seen-other_than :
    (k : String) (seen : List String) (ps : List PluginSpec)
    → mem k seen ≡ true
    → filter_by (unseen seen) (filter_by (other_than k) ps) ≡ filter_by (unseen seen) ps
seen-other_than k seen [] h = refl
seen-other_than k seen (p ∷ ps) h = ground (arith, seen-other_than k seen ps, mem-eq (pkg p) k seen)

resolve_plugins_lem :
    (lib : Library) (seen : List String) (ps : List PluginSpec)
    → resolve_plugins lib seen ps ≡ map (rewritten lib) (filter_by (unseen seen) (first_of_each ps))
unfolding resolve_plugins first_of_each
resolve_plugins_lem lib seen [] = refl
resolve_plugins_lem lib seen (p ∷ ps) = ground (
  arith,
  resolve_plugins_lem lib seen ps,
  resolve_plugins_lem lib (pkg p ∷ seen) ps,
  unseen-other_than (pkg p) seen (first_of_each ps),
  seen-other_than (pkg p) seen (first_of_each ps),
)

mem-filter_by :
    (j k : String) (ps : List PluginSpec)
    → mem k (map pkg (filter_by (other_than j) ps)) ≡ (not (str_eq j k) && mem k (map pkg ps))
mem-filter_by j k [] = ground arith
mem-filter_by j k (p ∷ ps) =
    ground (arith, mem-filter_by j k ps, eq_iff j (pkg p), eq_iff (pkg p) k, eq_iff j k)

mem-first_of_each :
    (k : String) (ps : List PluginSpec) → mem k (map pkg (first_of_each ps)) ≡ mem k (map pkg ps)
unfolding first_of_each
mem-first_of_each k [] = refl
mem-first_of_each k (p ∷ ps) =
    ground (arith, mem-filter_by (pkg p) k (first_of_each ps), mem-first_of_each k ps)

distinct-filter_by :
    (j : String) (ps : List PluginSpec)
    → distinct (map pkg ps) ≡ true
    → distinct (map pkg (filter_by (other_than j) ps)) ≡ true
distinct-filter_by j [] h = refl
distinct-filter_by j (p ∷ ps) h =
    ground (arith, distinct-filter_by j ps, mem-filter_by j (pkg p) ps)

distinct-first_of_each : (ps : List PluginSpec) → distinct (map pkg (first_of_each ps)) ≡ true
unfolding first_of_each
distinct-first_of_each [] = refl
distinct-first_of_each (p ∷ ps) = ground (
  arith,
  distinct-first_of_each ps,
  distinct-filter_by (pkg p) (first_of_each ps),
  mem-filter_by (pkg p) (pkg p) (first_of_each ps),
  eq_refl (pkg p),
)

filter_by-unseen : (ps : List PluginSpec) → filter_by (unseen []) ps ≡ ps
filter_by-unseen [] = refl
filter_by-unseen (p ∷ ps) = ap (◌∷◌ p) (filter_by-unseen ps)

-- The resolved plugins are the first plugin of each package, in order, each renamed to the path of
-- its package; no package is kept twice, and every package of the list is kept.
pub resolve_plugin_paths-first_of_each :
    (lib : Library) (ps : List PluginSpec)
    → (resolve_plugin_paths lib ps ≡ map (rewritten lib) (first_of_each ps))
      × (distinct (map pkg (first_of_each ps)) ≡ true)
      × ((k : String) → mem k (map pkg (first_of_each ps)) ≡ mem k (map pkg ps))
unfolding resolve_plugin_paths
resolve_plugin_paths-first_of_each lib ps = (
  resolve_plugins_lem lib [] ps ∙ ap (map (rewritten lib)) (filter_by-unseen (first_of_each ps)),
  distinct-first_of_each ps,
  λ k. mem-first_of_each k ps,
)
