-- ===== src/Skills/Inject/Kept.antt =====
-- What the injection functions have in common: how their parts succeed, and the names of the
-- plugins and the paths of the skills that a configuration loads.
pub mod Plugins
pub mod Paths
use kubeopencode.Prelude.{
  String, ◌≡◌, refl, sym, ap, ◌∙◌, Bool-cases, Option-cases, ◌⊎◌, inl, inr, Bool, true, false, not,
  ◌||◌, Option, none, some, is_some, List, [], ◌∷◌, ◌++◌, map, arith,
}
use kubeopencode.Prelude.Text.{Dict, lookup, str_eq, mem}
use kubeopencode.Api.Errors.{Result, ok, err, ok_inj}
use kubeopencode.Api.Library.{Library, Json, elements, array, members, object}
use kubeopencode.Api.Agent.{Raw}
use kubeopencode.Task.Mounts.{and_then}
use kubeopencode.Skills.Inject.{
  raw_text, wrapped, parse_config, config_is_empty, as_array, as_object, plugin_names, strings_of,
  write_config,
}

-- The names of the plugins, and the paths of the skills, that a parsed configuration loads.
abbrev pub loaded_plugins : Dict Json → List String
loaded_plugins m = plugin_names (as_array (lookup "plugin" m))

abbrev pub skill_dirs : Dict Json → List String
skill_dirs m = strings_of (as_array (lookup "paths" (as_object (lookup "skills" m))))

-- What a JSON library guarantees of a text that it has printed: read back, it has the same keys,
-- the same names and strings in its arrays, the same strings in the arrays of its objects, and the
-- same canonical values.
pub record ReadsBack (lib : Library) (is_canonical : Json → Bool) (m : Dict Json) (t : String)
    : Type 0 where
  pub not_empty : str_eq t "" ≡ false
  pub back : Dict Json
  pub parsed : lib.parse_object t ≡ ok back
  pub keys : (k : String) → is_some (lookup k back) ≡ is_some (lookup k m)
  pub arrays :
      (k : String) → plugin_names (as_array (lookup k back)) ≡ plugin_names (as_array (lookup k m))
  pub nested :
      (k j : String)
      → strings_of (as_array (lookup j (as_object (lookup k back))))
        ≡ strings_of (as_array (lookup j (as_object (lookup k m))))
  pub exact :
      (k : String) (v : Json) → lookup k m ≡ some v → is_canonical v ≡ true → lookup k back ≡ some v

-- The canonical values are those that the library itself reads, in its order of an object's keys.
pub record RoundTrips (lib : Library) : Type 0 where
  pub is_canonical : Json → Bool
  pub reads :
      (t : String) (m : Dict Json)
      → lib.parse_object t ≡ ok m
      → (k : String) (v : Json) → lookup k m ≡ some v
      → is_canonical v ≡ true
  pub reads_back :
      (m : Dict Json) (t : String) → lib.print_object m ≡ ok t → ReadsBack lib is_canonical m t

pub elements-array : (xs : List Json) → elements (array xs) ≡ xs
elements-array [] = refl
elements-array (x ∷ xs) = ap (◌∷◌ x) (elements-array xs)

pub members-object : (fs : Dict Json) → members (object fs) ≡ fs
members-object [] = refl
members-object ((k, x) ∷ fs) = ap (◌∷◌ (k, x)) (members-object fs)

-- A success, taken apart.
pub and_then_ok :
    {A B : Type 0} (r : Result A) (f : A → Result B) (b : B)
    → and_then r f ≡ ok b
    → (a : A) × (r ≡ ok a) × (f a ≡ ok b)
and_then_ok (ok a) f b h = (a, refl, h)
and_then_ok (err e) f b h = absurd (ground arith)

pub wrapped_ok :
    {A : Type 0} (format : String) (r : Result A) (a : A) → wrapped format r ≡ ok a → r ≡ ok a
wrapped_ok format (ok b) a h = h
wrapped_ok format (err e) a h = absurd (ground arith)

written :
    (lib : Library) (failed : String) (m : Dict Json) (out : Option Raw)
    → and_then (wrapped failed (lib.print_object m)) (λ t. ok (some t)) ≡ ok out
    → (t : String) × (lib.print_object m ≡ ok t) × (out ≡ some t)
written lib failed m out h =
    let (t, p, q) = and_then_ok _ _ _ h in (t, wrapped_ok failed _ t p, ground arith)

-- A config is written back unchanged, or as the text of the new map.
pub write_config_cases :
    (lib : Library) (failed : String) (config : Option Raw) (added : Bool) (m : Dict Json)
    (out : Option Raw)
    → write_config lib failed config added m ≡ ok out
    → ((added ≡ false) × (out ≡ config))
      ⊎ ((t : String) × (lib.print_object m ≡ ok t) × (out ≡ some t))
unfolding write_config
write_config_cases lib failed (some c) false m out h = inl (refl, ground arith)
write_config_cases lib failed none false m out h = inr (written lib failed m out h)
write_config_cases lib failed config true m out h = inr (written lib failed m out h)

-- A printed text is read back by `parse_config`.
pub parse_config-printed :
    (lib : Library) {is_canonical : Json → Bool} {m : Dict Json} {t : String}
    (r : ReadsBack lib is_canonical m t)
    → parse_config lib (some t) ≡ ok r.back
unfolding parse_config config_is_empty
parse_config-printed lib r = rw (r.not_empty, r.parsed)

-- The values of a configuration that was read are canonical.
config_values :
    (lib : Library) (rt : RoundTrips lib) (config : Option Raw) (m : Dict Json)
    → parse_config lib config ≡ ok m
    → (k : String) (v : Json) → lookup k m ≡ some v
    → rt.is_canonical v ≡ true
unfolding parse_config
config_values lib rt config m read k v found = elim (Bool-cases (config_is_empty config)) [
  | inl empty ↦
      let nothing : [] ≡ m = ok_inj (rw empty at read) in
      absurd (ground (arith, ap (λ d. lookup k d) nothing))
  | inr full ↦ rt.reads (raw_text config) m (wrapped_ok _ _ m (rw full at read)) k v found
]

-- A key whose value the function leaves alone has the value that it had in the configuration.
pub kept_value :
    (lib : Library) (rt : RoundTrips lib) (config : Option Raw) (m m' : Dict Json) (t : String)
    (r : ReadsBack lib rt.is_canonical m' t)
    → parse_config lib config ≡ ok m
    → (k : String) → lookup k m' ≡ lookup k m
    → lookup k r.back ≡ lookup k m
kept_value lib rt config m m' t r read k same = elim (Option-cases (lookup k m)) [
  | inl missing ↦ ground (arith, r.keys k)
  | inr (v, found) ↦
      r.exact k v (same ∙ found) (config_values lib rt config m read k v found) ∙ sym found
]

pub mem-append : (k : String) (xs ys : List String) → mem k (xs ++ ys) ≡ (mem k xs || mem k ys)
mem-append k [] ys = refl
mem-append k (x ∷ xs) ys = ground (arith, mem-append k xs ys)

-- A configuration that is there and to which nothing was added is written back.
pub write_back :
    (lib : Library) (failed : String) (config : Option Raw) (m : Dict Json)
    → is_some config ≡ true
    → write_config lib failed config false m ≡ ok config
unfolding write_config
write_back lib failed (some raw) m h = refl
write_back lib failed none m h = absurd (ground arith)

pub parsed_none : (lib : Library) (m : Dict Json) → parse_config lib none ≡ ok m → m ≡ []
unfolding parse_config config_is_empty
parsed_none lib m h = ground arith

pub not-true : (b : Bool) → not b ≡ false → b ≡ true
not-true b h = ground arith

pub or_false : (a : Bool) → (a || false) ≡ true → a ≡ true
or_false a h = ground arith

pub or_left : (a b : Bool) → a ≡ true → (a || b) ≡ true
or_left a b h = ground arith
