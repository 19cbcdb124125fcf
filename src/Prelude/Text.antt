-- ===== src/Prelude/Text.antt =====
-- Go strings, and `map[string]V` as an association list. A missing key of a
-- `map[string]string` reads as "".
use Prim.Native.Char.{code}
use Prim.Native.Nat.{ℕ, zero, suc}
use Prim.Native.String.{String, ◌++◌ as str_append}
use mathlib.Core.Path.{◌≡◌, refl}
use mathlib.Core.Bool.{Bool, true, false}
use mathlib.Core.List.{List, [], ◌∷◌}
use mathlib.Core.Option.{Option, none, some}
use native.Mathlib.Omega.{arith}
use text.Mathlib.Text.{◌==◌ as text_eq, starts_with}
use text.Mathlib.TextEquality.{eq_iff}
use kubeopencode.Prelude.Tests.{ltb, if◌then◌else◌, is_some}

abbrev pub str_eq : String → String → Bool
str_eq = text_eq

-- `a + b` on strings.
abbrev pub concat : String → String → String
concat = str_append

-- `s[:n]`, or all of a shorter `s`
unfoldable pub prefix : ℕ → String → String
prefix zero s = String.[]
prefix (suc n) String.[] = String.[]
prefix (suc n) (String.◌∷◌ c s) = String.◌∷◌ c (prefix n s)

-- A text among others; also a `map[string]bool`, as the list of its keys.
abbrev pub mem : String → List String → Bool
mem k [] = false
mem k (p ∷ ps) = let rest = mem k ps in if str_eq p k then true else rest

-- No text stands twice in the list.
abbrev pub distinct : List String → Bool
distinct [] = true
distinct (p ∷ ps) = let rest = distinct ps in if mem p ps then false else rest

-- `strings.Join(parts, sep)`
unfoldable pub join_with : String → List String → String
join_with sep [] = ""
join_with sep (p ∷ []) = p
join_with sep (p ∷ q ∷ ps) = concat p (concat sep (join_with sep (q ∷ ps)))

-- `a < b` on strings: bytewise, which for UTF-8 is by code points.
unfoldable pub str_ltb : String → String → Bool
str_ltb String.[] String.[] = false
str_ltb String.[] (String.◌∷◌ d t) = true
str_ltb (String.◌∷◌ c s) String.[] = false
str_ltb (String.◌∷◌ c s) (String.◌∷◌ d t) =
    let rest = str_ltb s t in
    if ltb (code c) (code d) then true else if ltb (code d) (code c) then false else rest

pub str_ltb_asym : (a b : String) → str_ltb a b ≡ true → str_ltb b a ≡ false
unfolding str_ltb
str_ltb_asym String.[] String.[] h = refl
str_ltb_asym String.[] (String.◌∷◌ d t) h = refl
str_ltb_asym (String.◌∷◌ c s) String.[] h = ground arith
str_ltb_asym (String.◌∷◌ c s) (String.◌∷◌ d t) h = ground (arith, str_ltb_asym s t)

pub str_ltb_step :
    (a b c : String) → str_ltb b a ≡ false → str_ltb c b ≡ false → str_ltb c a ≡ false
unfolding str_ltb
str_ltb_step String.[] String.[] String.[] h k = refl
str_ltb_step String.[] String.[] (String.◌∷◌ z u) h k = refl
str_ltb_step String.[] (String.◌∷◌ y t) String.[] h k = refl
str_ltb_step String.[] (String.◌∷◌ y t) (String.◌∷◌ z u) h k = refl
str_ltb_step (String.◌∷◌ x s) String.[] String.[] h k = ground arith
str_ltb_step (String.◌∷◌ x s) String.[] (String.◌∷◌ z u) h k = ground arith
str_ltb_step (String.◌∷◌ x s) (String.◌∷◌ y t) String.[] h k = ground arith
str_ltb_step (String.◌∷◌ x s) (String.◌∷◌ y t) (String.◌∷◌ z u) h k =
    ground (arith, str_ltb_step s t u)

-- `strings.HasPrefix(s, p)`
abbrev pub has_prefix : String → String → Bool
has_prefix s p = starts_with s p

abbrev pub Dict {ℓ} : Type ℓ → Type ℓ
Dict V = List (String × V)

module _ {ℓ} {V : Type ℓ} where
  -- `v, ok := m[k]`
  abbrev pub lookup : String → Dict V → Option V
  lookup k [] = none
  lookup k ((j, v) ∷ m) = if text_eq j k then some v else lookup k m

  -- `m[k] = v`
  abbrev pub insert : String → V → Dict V → Dict V
  insert k v [] = (k, v) ∷ []
  insert k v ((j, w) ∷ m) = if text_eq j k then (k, v) ∷ m else (j, w) ∷ insert k v m

  -- `delete(m, k)`
  abbrev pub remove : String → Dict V → Dict V
  remove k [] = []
  remove k ((j, v) ∷ m) = let rest = remove k m in if text_eq j k then rest else (j, v) ∷ rest

  pub lookup-insert :
      (k j : String) (v : V) (m : Dict V)
      → lookup j (insert k v m) ≡ (if text_eq k j then some v else lookup j m)
  lookup-insert k j v [] = refl
  lookup-insert k j v ((i, w) ∷ m) =
      ground (arith, eq_iff k j, eq_iff i k, eq_iff i j, lookup-insert k j v m)

  pub lookup-remove :
      (k j : String) (m : Dict V)
      → lookup j (remove k m) ≡ (if text_eq k j then none else lookup j m)
  lookup-remove k j [] = ground arith
  lookup-remove k j ((i, w) ∷ m) =
      ground (arith, eq_iff k j, eq_iff i k, eq_iff i j, lookup-remove k j m)

  abbrev pub has_key : String → Dict V → Bool
  has_key k m = is_some (lookup k m)

-- `m[k]` of a `map[string]string`
abbrev pub get_or_empty : String → Dict String → String
get_or_empty k m = elim (lookup k m) [ none ↦ "" | some v ↦ v ]
