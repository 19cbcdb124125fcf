-- ===== src/Tests/SkillRuns.antt =====
-- Skills and plugins with a small JSON library: it prints a configuration with one plugin and no
-- options, or with one skill path, and nothing else.
use mathlib.Core.Path.{subst}
use text.Mathlib.TextEquality.{eq_iff}
use Prim.Native.Char.{Char, code}
use text.Mathlib.TextLemmas.{cons≢nil}
use kubeopencode.Prelude.{
  ◌≡◌, refl, sym, String, Bool, true, false, ◌&&◌, ◌==◌, Bool-cases, inl, inr, none, some, List, [],
  ◌∷◌, map, arith, if◌then◌else◌,
}
use kubeopencode.Prelude.Text.{Dict, str_eq, mem, distinct, join_with}
use kubeopencode.Api.Errors.{Result, ok, err, other}
use kubeopencode.Api.Library.{Library, Json, Items, Fields}
use kubeopencode.Api.Agent.{PluginTarget, PluginSpec}
use kubeopencode.Skills.Plugins.{extract_npm_package_name, resolve_plugin_paths, resolve_plugins}
use kubeopencode.Skills.Plugins.Resolved.{
  pkg, first_of_each, rewritten, resolve_plugin_paths-first_of_each,
}
use kubeopencode.Skills.Inject.{
  config_is_empty, parse_config, plugin_names, strings_of, plugin_entry, new_plugins, new_paths,
  write_config, inject_plugins_into_config, inject_skills_into_config,
}
use kubeopencode.Skills.Inject.Kept.{ReadsBack, RoundTrips}
use kubeopencode.Skills.Inject.Kept.Plugins.{Injected}
use kubeopencode.Skills.Inject.Kept.Paths.{Extended}
use kubeopencode.Skills.Inject.Repeated.{injections_settle}
use kubeopencode.Tests.Cluster.{plain_library}

abbrev one_plugin : String → Dict Json
one_plugin s = ("plugin", Json.arr (Items.item (Json.str s) Items.no_items)) ∷ []

abbrev one_path : String → Dict Json
one_path s =
    (
      "skills",
      Json.obj (
          Fields.field "paths" (Json.arr (Items.item (Json.str s) Items.no_items))
            Fields.no_fields),
    )
    ∷ []

abbrev print_plugin : String → String → Result String
print_plugin k s = if str_eq k "plugin" then ok (String.◌∷◌ "p" s) else err (other "not printed")

abbrev print_path : String → String → String → Result String
print_path k j s =
    if str_eq k "skills" && str_eq j "paths"
    then ok (String.◌∷◌ "s" s)
    else err (other "not printed")

print_small : Dict Json → Result String
print_small ((k, Json.arr (Items.item (Json.str s) Items.no_items)) ∷ []) = print_plugin k s
print_small
      ((
        k,
        Json.obj
            (Fields.field j (Json.arr (Items.item (Json.str s) Items.no_items)) Fields.no_fields),
      )
        ∷ []) =
    print_path k j s
print_small _ = err (other "not printed")

parse_small : String → Result (Dict Json)
parse_small String.[] = err (other "not parsed")
parse_small (String.◌∷◌ c s) = if code c == b'p' then ok (one_plugin s) else ok (one_path s)

abbrev small_library : Library
small_library = record plain_library { parse_object = parse_small; print_object = print_small }

abbrev any_value : Json → Bool
any_value v = true

cons_not_empty : (c : Char) (s : String) → str_eq (String.◌∷◌ c s) "" ≡ false
cons_not_empty c s = elim (Bool-cases (str_eq (String.◌∷◌ c s) "")) [
  | inl e ↦ absurd (cons≢nil ((eq_iff (String.◌∷◌ c s) "").0 e))
  | inr e ↦ e
]

printed_plugin :
    (k s t : String) → print_plugin k s ≡ ok t → ("plugin" ≡ k) × (String.◌∷◌ "p" s ≡ t)
printed_plugin k s t h = elim (Bool-cases (str_eq k "plugin")) [
  | inl e ↦ (sym ((eq_iff k "plugin").0 e), ground arith)
  | inr e ↦ absurd (ground arith)
]

printed_path :
    (k j s t : String)
    → print_path k j s ≡ ok t
    → ("skills" ≡ k) × ("paths" ≡ j) × (String.◌∷◌ "s" s ≡ t)
printed_path k j s t h = elim (Bool-cases (str_eq k "skills")) [
  | inl e ↦ elim (Bool-cases (str_eq j "paths")) [
    | inl f ↦ (sym ((eq_iff k "skills").0 e), sym ((eq_iff j "paths").0 f), ground arith)
    | inr f ↦ absurd (ground arith)
  ]
  | inr e ↦ absurd (ground arith)
]

plugin_back : (s : String) → ReadsBack small_library any_value (one_plugin s) (String.◌∷◌ "p" s)
unfolding parse_small
plugin_back s = record {
  not_empty = cons_not_empty "p" s;
  back = one_plugin s;
  parsed = refl;
  keys = λ k. refl;
  arrays = λ k. refl;
  nested = λ k j. refl;
  exact = λ k v found c. found;
}

path_back : (s : String) → ReadsBack small_library any_value (one_path s) (String.◌∷◌ "s" s)
unfolding parse_small
path_back s = record {
  not_empty = cons_not_empty "s" s;
  back = one_path s;
  parsed = refl;
  keys = λ k. refl;
  arrays = λ k. refl;
  nested = λ k j. refl;
  exact = λ k v found c. found;
}

small-ReadsBack :
    (m : Dict Json) (t : String) → print_small m ≡ ok t → ReadsBack small_library any_value m t
unfolding print_small
small-ReadsBack ((k, Json.arr (Items.item (Json.str s) Items.no_items)) ∷ []) t h =
    let (e, f) = printed_plugin k s t h in
    subst
      (λ k.
        ReadsBack small_library any_value
          ((k, Json.arr (Items.item (Json.str s) Items.no_items)) ∷ []) t)
      e (subst (ReadsBack small_library any_value (one_plugin s)) f (plugin_back s))
small-ReadsBack
      ((
        k,
        Json.obj
            (Fields.field j (Json.arr (Items.item (Json.str s) Items.no_items)) Fields.no_fields),
      )
        ∷ [])
      t h =
    let (e, g, f) = printed_path k j s t h in
    subst
      (λ k.
        ReadsBack small_library any_value
          ((
            k,
            Json.obj (
                Fields.field j (Json.arr (Items.item (Json.str s) Items.no_items))
                  Fields.no_fields),
          )
            ∷ [])
          t)
      e
      (subst
        (λ j.
          ReadsBack small_library any_value
            ((
              "skills",
              Json.obj (
                  Fields.field j (Json.arr (Items.item (Json.str s) Items.no_items))
                    Fields.no_fields),
            )
              ∷ [])
            t)
        g (subst (ReadsBack small_library any_value (one_path s)) f (path_back s)))
small-ReadsBack _ t h = absurd (ground arith)

small-RoundTrips : RoundTrips small_library
small-RoundTrips = record {
  is_canonical = any_value;
  reads = λ t m read k v found. refl;
  reads_back = small-ReadsBack;
}

abbrev guard : PluginSpec
guard = record {
  name = "file:///plugins/node_modules/guard";
  target = PluginTarget.server;
  options = none;
}

injections_settle_example :
    Injected small_library none (guard ∷ []) (some "pfile:///plugins/node_modules/guard")
    × Extended small_library none ("/skills/a" ∷ []) (some "s/skills/a")
    × (inject_plugins_into_config small_library
          (some "pfile:///plugins/node_modules/guard")
          (guard ∷ [])
        ≡ ok (some "pfile:///plugins/node_modules/guard"))
    × (inject_skills_into_config small_library (some "s/skills/a") ("/skills/a" ∷ [])
        ≡ ok (some "s/skills/a"))
unfolding inject_plugins_into_config inject_skills_into_config parse_config config_is_empty
    plugin_names plugin_entry new_plugins write_config strings_of new_paths print_small
injections_settle_example =
    injections_settle small_library small-RoundTrips none
      (some "pfile:///plugins/node_modules/guard") (some "s/skills/a") guard [] "/skills/a" [] refl
      refl

-- The paths of one call are not compared with one another: a path that stands twice is added twice.
repeated_path : new_paths [] ("/skills/a" ∷ "/skills/a" ∷ []) ≡ "/skills/a" ∷ "/skills/a" ∷ []
unfolding new_paths
repeated_path = refl

scoped_package : extract_npm_package_name "@org/plugin@^1.0.0" ≡ "@org/plugin"
unfolding extract_npm_package_name
scoped_package = refl

abbrev named : String → PluginSpec
named name = record { name = name; target = PluginTarget.unset; options = none }

abbrev three_plugins : List PluginSpec
three_plugins = named "guard@1" ∷ named "@org/tui" ∷ named "guard@2" ∷ []

-- The second version of the same package is dropped.
first_version :
    map (λ p. p.name) (resolve_plugin_paths plain_library three_plugins)
    ≡ "file:///plugins/node_modules/guard" ∷ "file:///plugins/node_modules/@org/tui" ∷ []
unfolding resolve_plugin_paths resolve_plugins extract_npm_package_name join_with
first_version = refl

resolve_plugin_paths-first_of_each_example :
    (resolve_plugin_paths plain_library three_plugins
      ≡ map (rewritten plain_library) (first_of_each three_plugins))
    × (distinct (map pkg (first_of_each three_plugins)) ≡ true)
    × ((k : String) → mem k (map pkg (first_of_each three_plugins)) ≡ mem k (map pkg three_plugins))
resolve_plugin_paths-first_of_each_example =
    resolve_plugin_paths-first_of_each plain_library three_plugins
