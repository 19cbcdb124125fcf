-- ===== src/Skills/Inject/Kept/Paths.antt =====
-- `injectSkillsIntoConfig` adds the paths of the skills, keeps those that were there, and changes
-- nothing when it runs again.
use mathlib.Core.Path.{subst}
use text.Mathlib.TextPositions.{eq_refl}
use kubeopencode.Prelude.{
  String, ◌≡◌, refl, sym, ap, ◌∙◌, inl, inr, true, not, ◌||◌, Option, none, some, is_some, List, [],
  ◌∷◌, ◌++◌, map, filter_by, false, All, All-map, arith,
}
use kubeopencode.Prelude.Text.{Dict, lookup, insert, lookup-insert, str_eq, mem}
use kubeopencode.Api.Errors.{ok}
use kubeopencode.Api.Library.{Library, Json, array, members, object}
use kubeopencode.Api.Agent.{Raw}
use kubeopencode.Skills.Inject.{
  parse_config, as_array, as_object, strings_of, new_paths, is_nil, inject_skills_into_config,
}
use kubeopencode.Skills.Inject.Kept.{
  skill_dirs, ReadsBack, RoundTrips, elements-array, members-object, and_then_ok,
  write_config_cases, parse_config-printed, kept_value, write_back, not-true, parsed_none,
  mem-append,
}

strings_of-map : (xs : List String) → strings_of (map Json.str xs) ≡ xs
unfolding strings_of
strings_of-map [] = refl
strings_of-map (x ∷ xs) = ap (◌∷◌ x) (strings_of-map xs)

new_paths-known :
    (known ps : List String) → All (λ p. mem p known ≡ true) ps → new_paths known ps ≡ []
unfolding new_paths
new_paths-known known [] h = refl
new_paths-known known (p ∷ ps) h = ground (arith, h.0, new_paths-known known ps h.1)

new_paths-All :
    (known ps : List String) → All (λ p. (mem p known || mem p (new_paths known ps)) ≡ true) ps
unfolding new_paths
new_paths-All known [] = tt
new_paths-All known (p ∷ ps) =
    (ground (arith, eq_refl p), All-map (λ q h. ground arith) ps (new_paths-All known ps))

-- The new paths are those that are not known, in order.
new_paths-filter_by :
    (known ps : List String) → new_paths known ps ≡ filter_by (λ p. not (mem p known)) ps
unfolding new_paths
new_paths-filter_by known [] = refl
new_paths-filter_by known (p ∷ ps) = ground (arith, new_paths-filter_by known ps)

-- What a configuration `out` with injected paths has to do with the one before: it is there, its
-- paths are those of before, in order, followed by those of the list that it did not have, in
-- order, and its keys but for "skills" have the values of before.
pub record Extended (lib : Library) (config : Option Raw) (ps : List String) (out : Option Raw)
    : Type 0 where
  pub before : Dict Json
  pub after : Dict Json
  pub stored : is_some out ≡ true
  pub read_before : parse_config lib config ≡ ok before
  pub read_after : parse_config lib out ≡ ok after
  pub dirs :
      skill_dirs after ≡ skill_dirs before ++ filter_by (λ p. not (mem p (skill_dirs before))) ps
  pub others : (k : String) → str_eq "skills" k ≡ false → lookup k after ≡ lookup k before

stored_of :
    (lib : Library) (config : Option Raw) (p : String) (ps : List String) (m : Dict Json)
    → parse_config lib config ≡ ok m
    → is_nil (new_paths (skill_dirs m) (p ∷ ps)) ≡ true
    → is_some config ≡ true
unfolding strings_of new_paths
stored_of lib (some raw) p ps m read nil = refl
stored_of lib none p ps m read nil =
    let start : is_nil (new_paths [] (p ∷ ps)) ≡ true =
      subst (λ d. is_nil (new_paths (skill_dirs d) (p ∷ ps)) ≡ true) (parsed_none lib m read) nil in
    absurd (ground arith)

append-nil : (xs ys : List String) → is_nil ys ≡ true → xs ≡ xs ++ ys
append-nil [] [] h = refl
append-nil (x ∷ xs) [] h = ap (◌∷◌ x) (append-nil xs [] h)
append-nil xs (y ∷ ys) h = absurd (ground arith)

-- The new value of "skills", and the map that the function prints.
abbrev with_dirs : Dict Json → List String → Dict Json
with_dirs skills all = insert "paths" (Json.arr (array (map Json.str all))) skills

abbrev with_paths : Dict Json → List String → Dict Json
with_paths m ps =
    insert "skills"
      (Json.obj (
        object (
          with_dirs (as_object (lookup "skills" m)) (skill_dirs m ++ new_paths (skill_dirs m) ps))))
      m

dirs-with_dirs :
    (skills : Dict Json) (all : List String)
    → strings_of (as_array (lookup "paths" (members (object (with_dirs skills all))))) ≡ all
dirs-with_dirs skills all =
    let v = Json.arr (array (map Json.str all)) in
    ap (λ d. strings_of (as_array (lookup "paths" d))) (members-object (insert "paths" v skills))
    ∙ ap (λ o. strings_of (as_array o)) (lookup-insert "paths" "paths" v skills)
    ∙ ap strings_of (elements-array (map Json.str all))
    ∙ strings_of-map all

skill_dirs-with_paths :
    (m : Dict Json) (ps : List String)
    → skill_dirs (with_paths m ps) ≡ skill_dirs m ++ new_paths (skill_dirs m) ps
skill_dirs-with_paths m ps =
    ap (λ o. strings_of (as_array (lookup "paths" (as_object o))))
      (lookup-insert "skills" "skills" _ m)
    ∙ dirs-with_dirs (as_object (lookup "skills" m)) (skill_dirs m ++ new_paths (skill_dirs m) ps)

changed :
    (lib : Library) (rt : RoundTrips lib) (config : Option Raw) (ps : List String) (m : Dict Json)
    (t : String)
    → parse_config lib config ≡ ok m
    → lib.print_object (with_paths m ps) ≡ ok t
    → Extended lib config ps (some t)
changed lib rt config ps m t read printed = record {
  before = m;
  after = rb.back;
  stored = refl;
  read_before = read;
  read_after = parse_config-printed lib rb;
  dirs =
      rb.nested "skills" "paths"
      ∙ skill_dirs-with_paths m ps
      ∙ ap (λ l. skill_dirs m ++ l) (new_paths-filter_by (skill_dirs m) ps);
  others = λ k h. kept_value lib rt config m _ t rb read k (lookup-insert "skills" k _ m ∙ rw h);
}
  where
    rb : ReadsBack lib rt.is_canonical (with_paths m ps) t
    rb = rt.reads_back _ t printed

-- A successful injection of paths into a configuration, by a JSON library that reads back what it
-- prints: the configuration has the paths of before, in order, followed by those of the list that
-- it did not have, and its other keys have the values of before.
pub inject_skills_into_config-Extended :
    (lib : Library)
    → RoundTrips lib
    → (config : Option Raw) (p : String) (ps : List String) (out : Option Raw)
    → inject_skills_into_config lib config (p ∷ ps) ≡ ok out
    → Extended lib config (p ∷ ps) out
unfolding inject_skills_into_config
inject_skills_into_config-Extended lib rt config p ps out h =
    let (m, read, h') = and_then_ok (parse_config lib config) _ out h in
    let new = new_paths (skill_dirs m) (p ∷ ps) in
    elim (write_config_cases lib _ config (not (is_nil new)) _ out h') [
      | inl (added, same) ↦
          let nil = not-true (is_nil new) added in
          subst (Extended lib config (p ∷ ps)) (sym same) (record {
            before = m;
            after = m;
            stored = stored_of lib config p ps m read nil;
            read_before = read;
            read_after = read;
            dirs =
                append-nil (skill_dirs m) new nil
                ∙ ap (λ l. skill_dirs m ++ l) (new_paths-filter_by (skill_dirs m) (p ∷ ps));
            others = λ k h. refl;
          })
      | inr (t, printed, same) ↦
          subst (Extended lib config (p ∷ ps)) (sym same)
            (changed lib rt config (p ∷ ps) m t read printed)
    ]

loads_all : (known ps : List String) → All (λ p. mem p (known ++ new_paths known ps) ≡ true) ps
loads_all known ps =
    All-map (λ q h. mem-append q known (new_paths known ps) ∙ h) ps (new_paths-All known ps)

-- Injecting the same paths again leaves the configuration as it is.
pub inject_skills_into_config_idem :
    (lib : Library)
    → RoundTrips lib
    → (config : Option Raw) (ps : List String) (out : Option Raw)
    → inject_skills_into_config lib config ps ≡ ok out
    → inject_skills_into_config lib out ps ≡ ok out
unfolding inject_skills_into_config
inject_skills_into_config_idem lib rt config [] out h = refl
inject_skills_into_config_idem lib rt config (p ∷ ps) out h =
    let i = inject_skills_into_config-Extended lib rt config p ps out h in
    let known : All (λ q. mem q (skill_dirs i.after) ≡ true) (p ∷ ps) =
      subst (λ l. All (λ q. mem q l ≡ true) (p ∷ ps))
        (ap (λ l. skill_dirs i.before ++ l) (new_paths-filter_by (skill_dirs i.before) (p ∷ ps))
          ∙ sym i.dirs)
        (loads_all (skill_dirs i.before) (p ∷ ps)) in
    rw (i.read_after, new_paths-known (skill_dirs i.after) (p ∷ ps) known)
      (write_back lib _ out _ i.stored)
