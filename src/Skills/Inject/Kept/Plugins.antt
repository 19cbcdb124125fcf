-- ===== src/Skills/Inject/Kept/Plugins.antt =====
-- `injectPluginsIntoConfig` loads every plugin that it is given, keeps what was loaded before, and
-- changes nothing when it runs again.
use mathlib.Core.Path.{subst}
use kubeopencode.Prelude.{
  String, ◌≡◌, refl, sym, ap, ◌∙◌, inl, inr, true, false, not, ◌||◌, Option, none, some, is_some,
  List, [], ◌∷◌, ◌++◌, All, All-map, Bool-cases, arith,
}
use text.Mathlib.TextPositions.{eq_refl}
use kubeopencode.Prelude.Text.{Dict, lookup, insert, lookup-insert, str_eq, mem}
use kubeopencode.Api.Errors.{ok}
use kubeopencode.Api.Library.{Library, Json, Items, array}
use kubeopencode.Api.Agent.{Raw, PluginSpec}
use kubeopencode.Skills.Inject.{
  parse_config, as_array, plugin_names, plugin_entry, new_plugins, is_nil,
  inject_plugins_into_config,
}
use kubeopencode.Skills.Inject.Kept.{
  loaded_plugins, ReadsBack, RoundTrips, elements-array, and_then_ok, write_config_cases,
  parse_config-printed, kept_value, mem-append, write_back, not-true, or_left, or_false,
  parsed_none,
}

plugin_names-append :
    (xs ys : List Json) → plugin_names (xs ++ ys) ≡ plugin_names xs ++ plugin_names ys
unfolding plugin_names
plugin_names-append [] ys = refl
plugin_names-append (Json.str s ∷ xs) ys = ap (◌∷◌ s) (plugin_names-append xs ys)
plugin_names-append (Json.arr Items.no_items ∷ xs) ys = plugin_names-append xs ys
plugin_names-append (Json.arr (Items.item (Json.str s) is) ∷ xs) ys =
    ap (◌∷◌ s) (plugin_names-append xs ys)
plugin_names-append (Json.arr (Items.item _ is) ∷ xs) ys = plugin_names-append xs ys
plugin_names-append (_ ∷ xs) ys = plugin_names-append xs ys

-- The entry of a plugin has its name.
plugin_entry-name :
    (lib : Library) (p : PluginSpec) (e : Json) (es : List Json)
    → plugin_entry lib p ≡ ok e
    → plugin_names (e ∷ es) ≡ p.name ∷ plugin_names es
unfolding plugin_entry plugin_names
plugin_entry-name lib p e es h = ground arith

-- What a new entry is followed by, where the loop succeeds.
new_plugins-cons :
    (lib : Library) (known : List String) (p : PluginSpec) (ps : List PluginSpec) (es : List Json)
    → mem p.name known ≡ false
    → new_plugins lib known (p ∷ ps) ≡ ok es
    → (rest : List Json) × (new_plugins lib (p.name ∷ known) ps ≡ ok rest)
      × (plugin_names es ≡ p.name ∷ plugin_names rest)
      × (is_nil es ≡ false)
unfolding new_plugins
new_plugins-cons lib known p ps es n h =
    let (e, made, h') = and_then_ok _ _ es (rw n at h) in
    let (rest, more, eq) = and_then_ok _ _ es h' in
    let cons : e ∷ rest ≡ es = ground arith in
    (
      rest,
      more,
      subst (λ l. plugin_names l ≡ p.name ∷ plugin_names rest) cons
          (plugin_entry-name lib p e rest made),
      subst (λ l. is_nil l ≡ false) cons refl,
    )

new_plugins-skip :
    (lib : Library) (known : List String) (p : PluginSpec) (ps : List PluginSpec) (es : List Json)
    → mem p.name known ≡ true
    → new_plugins lib known (p ∷ ps) ≡ ok es
    → new_plugins lib known ps ≡ ok es
unfolding new_plugins
new_plugins-skip lib known p ps es old h = rw old at h

-- Every plugin is known before or is among the new entries.
new_plugins-All :
    (lib : Library) (known : List String) (ps : List PluginSpec) (es : List Json)
    → new_plugins lib known ps ≡ ok es
    → All (λ p. (mem p.name known || mem p.name (plugin_names es)) ≡ true) ps
new_plugins-All lib known [] es h = tt
new_plugins-All lib known (p ∷ ps) es h = elim (Bool-cases (mem p.name known)) [
  | inl old ↦
      (ground arith, new_plugins-All lib known ps es (new_plugins-skip lib known p ps es old h))
  | inr new ↦
      let (rest, more, names, _) = new_plugins-cons lib known p ps es new h in
      (
        ground (arith, eq_refl p.name),
        All-map (λ q m. ground arith) ps (new_plugins-All lib (p.name ∷ known) ps rest more),
      )
]

new_plugins-known :
    (lib : Library) (known : List String) (ps : List PluginSpec)
    → All (λ p. mem p.name known ≡ true) ps
    → new_plugins lib known ps ≡ ok []
unfolding new_plugins
new_plugins-known lib known [] h = refl
new_plugins-known lib known (p ∷ ps) h = rw (h.0) (new_plugins-known lib known ps h.1)

-- What a configuration `out` with injected plugins has to do with the one before: it is there, it
-- loads the plugins, it loads what was loaded before, and its other keys have the values of before.
pub record Injected (lib : Library) (config : Option Raw) (ps : List PluginSpec) (out : Option Raw)
    : Type 0 where
  pub before : Dict Json
  pub after : Dict Json
  pub stored : is_some out ≡ true
  pub read_before : parse_config lib config ≡ ok before
  pub read_after : parse_config lib out ≡ ok after
  pub loads : All (λ p. mem p.name (loaded_plugins after) ≡ true) ps
  pub keeps :
      (k : String) → mem k (loaded_plugins before) ≡ true → mem k (loaded_plugins after) ≡ true
  pub others : (k : String) → str_eq "plugin" k ≡ false → lookup k after ≡ lookup k before

new_plugins-first :
    (lib : Library) (p : PluginSpec) (ps : List PluginSpec) (es : List Json)
    → new_plugins lib [] (p ∷ ps) ≡ ok es
    → is_nil es ≡ false
new_plugins-first lib p ps es h = let (_, _, _, n) = new_plugins-cons lib [] p ps es refl h in n

stored_of :
    (lib : Library) (config : Option Raw) (p : PluginSpec) (ps : List PluginSpec) (m : Dict Json)
    → parse_config lib config ≡ ok m
    → new_plugins lib (loaded_plugins m) (p ∷ ps) ≡ ok []
    → is_some config ≡ true
unfolding plugin_names
stored_of lib (some raw) p ps m read new = refl
stored_of lib none p ps m read new =
    let start : new_plugins lib [] (p ∷ ps) ≡ ok [] =
      subst (λ d. new_plugins lib (loaded_plugins d) (p ∷ ps) ≡ ok []) (parsed_none lib m read)
        new in
    absurd (ground (arith, new_plugins-first lib p ps [] start))

unchanged :
    (lib : Library) (config : Option Raw) (p : PluginSpec) (ps : List PluginSpec) (m : Dict Json)
    (es : List Json)
    → parse_config lib config ≡ ok m
    → new_plugins lib (loaded_plugins m) (p ∷ ps) ≡ ok es
    → is_nil es ≡ true
    → Injected lib config (p ∷ ps) config
unfolding plugin_names
unchanged lib config p ps m [] read new nil = record {
  before = m;
  after = m;
  stored = stored_of lib config p ps m read new;
  read_before = read;
  read_after = read;
  loads =
      All-map (λ q k. or_false _ k) (p ∷ ps)
        (new_plugins-All lib (loaded_plugins m) (p ∷ ps) [] new);
  keeps = λ k h. h;
  others = λ k h. refl;
}
unchanged lib config p ps m (e ∷ es) read new nil = absurd (ground arith)

changed :
    (lib : Library) (rt : RoundTrips lib) (config : Option Raw) (ps : List PluginSpec)
    (m : Dict Json) (es : List Json) (t : String)
    → parse_config lib config ≡ ok m
    → new_plugins lib (loaded_plugins m) ps ≡ ok es
    → lib.print_object (insert "plugin" (Json.arr (array (as_array (lookup "plugin" m) ++ es))) m)
      ≡ ok t
    → Injected lib config ps (some t)
changed lib rt config ps m es t read new printed = record {
  before = m;
  after = rb.back;
  stored = refl;
  read_before = read;
  read_after = parse_config-printed lib rb;
  loads =
      All-map (λ q k. rw names (mem-append q.name (loaded_plugins m) (plugin_names es) ∙ k)) ps
        (new_plugins-All lib _ ps es new);
  keeps = λ k h. rw names (mem-append k (loaded_plugins m) (plugin_names es) ∙ or_left _ _ h);
  others = λ k h. kept_value lib rt config m _ t rb read k (lookup-insert "plugin" k _ m ∙ rw h);
}
  where
    rb :
        ReadsBack lib rt.is_canonical
          (insert "plugin" (Json.arr (array (as_array (lookup "plugin" m) ++ es))) m)
          t
    rb = rt.reads_back _ t printed

    names : loaded_plugins rb.back ≡ loaded_plugins m ++ plugin_names es
    names =
        rb.arrays "plugin"
        ∙ ap (λ o. plugin_names (as_array o)) (lookup-insert "plugin" "plugin" _ m)
        ∙ ap plugin_names (elements-array _)
        ∙ plugin_names-append (as_array (lookup "plugin" m)) es

-- A successful injection of plugins into a configuration, by a JSON library that reads back what
-- it prints: the result loads every plugin of the list, still loads all that was loaded before,
-- and its other keys have the values of before.
pub inject_plugins_into_config-Injected :
    (lib : Library)
    → RoundTrips lib
    → (config : Option Raw) (p : PluginSpec) (ps : List PluginSpec) (out : Option Raw)
    → inject_plugins_into_config lib config (p ∷ ps) ≡ ok out
    → Injected lib config (p ∷ ps) out
unfolding inject_plugins_into_config
inject_plugins_into_config-Injected lib rt config p ps out h =
    let (m, read, h') = and_then_ok (parse_config lib config) _ out h in
    let (es, new, h'') = and_then_ok (new_plugins lib (loaded_plugins m) (p ∷ ps)) _ out h' in
    elim (write_config_cases lib _ config (not (is_nil es)) _ out h'') [
      | inl (added, same) ↦
          subst (Injected lib config (p ∷ ps)) (sym same)
            (unchanged lib config p ps m es read new (not-true (is_nil es) added))
      | inr (t, printed, same) ↦
          subst (Injected lib config (p ∷ ps)) (sym same)
            (changed lib rt config (p ∷ ps) m es t read new printed)
    ]

-- Injecting the same plugins again leaves the configuration as it is.
pub inject_plugins_into_config_idem :
    (lib : Library)
    → RoundTrips lib
    → (config : Option Raw) (ps : List PluginSpec) (out : Option Raw)
    → inject_plugins_into_config lib config ps ≡ ok out
    → inject_plugins_into_config lib out ps ≡ ok out
unfolding inject_plugins_into_config
inject_plugins_into_config_idem lib rt config [] out h = refl
inject_plugins_into_config_idem lib rt config (p ∷ ps) out h =
    let i = inject_plugins_into_config-Injected lib rt config p ps out h in
    rw (i.read_after, new_plugins-known lib (loaded_plugins i.after) (p ∷ ps) i.loads)
      (write_back lib _ out _ i.stored)
