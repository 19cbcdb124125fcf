-- ===== src/Prelude/Lists.antt =====
-- Lists measured by native numbers, filters by a Boolean test, and predicates on all elements.
use Prim.Native.Nat.{ℕ, zero, suc, ◌+◌, ◌-◌, ◌≤◌, min}
use mathlib.Core.Path.{◌≡◌, refl, ap}
use mathlib.Core.Logic.{◌⊎◌, inl, inr}
use mathlib.Core.Bool.{Bool, true, false}
use mathlib.Core.List.{List, [], ◌∷◌, ◌++◌}
use native.Mathlib.Omega.{arith}
use kubeopencode.Prelude.Tests.{if◌then◌else◌}

-- A predicate at every element; it computes to a nested tuple.
abbrev pub All {ℓ κ} : {A : Type ℓ} → (A → Type κ) → List A → Type κ
All P [] = Unit
All P (x ∷ xs) = P x × All P xs

module _ {ℓ} {A : Type ℓ} where
  abbrev pub length : List A → ℕ
  length [] = 0
  length (x ∷ xs) = suc (length xs)

  abbrev pub take : ℕ → List A → List A
  take zero xs = []
  take (suc n) [] = []
  take (suc n) (x ∷ xs) = x ∷ take n xs

  abbrev pub drop : ℕ → List A → List A
  drop zero xs = xs
  drop (suc n) [] = []
  drop (suc n) (x ∷ xs) = drop n xs

  -- `for … { if keep(x) { out = append(out, x) } }`
  abbrev pub filter_by : (A → Bool) → List A → List A
  filter_by p [] = []
  filter_by p (x ∷ xs) = let rest = filter_by p xs in if p x then x ∷ rest else rest

  abbrev pub count_by : (A → Bool) → List A → ℕ
  count_by p [] = 0
  count_by p (x ∷ xs) = let rest = count_by p xs in if p x then suc rest else rest

  pub length-append : (xs ys : List A) → length (xs ++ ys) ≡ length xs + length ys
  length-append [] ys = omega arith
  length-append (x ∷ xs) ys = omega (arith, length-append xs ys)

  pub take-append-drop : (n : ℕ) (xs : List A) → take n xs ++ drop n xs ≡ xs
  take-append-drop zero xs = refl
  take-append-drop (suc n) [] = refl
  take-append-drop (suc n) (x ∷ xs) = ap (◌∷◌ x) (take-append-drop n xs)

  pub length-take : (n : ℕ) (xs : List A) → length (take n xs) ≡ min n (length xs)
  length-take zero xs = omega arith
  length-take (suc n) [] = omega arith
  length-take (suc n) (x ∷ xs) = omega (arith, length-take n xs)

  pub length-drop : (n : ℕ) (xs : List A) → length (drop n xs) ≡ length xs - n
  length-drop zero xs = omega arith
  length-drop (suc n) [] = omega arith
  length-drop (suc n) (x ∷ xs) = omega (arith, length-drop n xs)

  pub length-filter_by : (p : A → Bool) (xs : List A) → length (filter_by p xs) ≡ count_by p xs
  length-filter_by p [] = refl
  length-filter_by p (x ∷ xs) = ground (arith, length-filter_by p xs)

  pub count_by-append :
      (p : A → Bool) (xs ys : List A) → count_by p (xs ++ ys) ≡ count_by p xs + count_by p ys
  count_by-append p [] ys = omega arith
  count_by-append p (x ∷ xs) ys = ground (arith, count_by-append p xs ys)

  pub filter_by-append :
      (p : A → Bool) (xs ys : List A) → filter_by p (xs ++ ys) ≡ filter_by p xs ++ filter_by p ys
  filter_by-append p [] ys = refl
  filter_by-append p (x ∷ xs) ys = ground (arith, filter_by-append p xs ys)

  pub filter_by_idem : (p : A → Bool) (xs : List A) → filter_by p (filter_by p xs) ≡ filter_by p xs
  filter_by_idem p [] = refl
  filter_by_idem p (x ∷ xs) = ground (arith, filter_by_idem p xs)

  pub All-append {κ} : (P : A → Type κ) (xs ys : List A) → All P xs → All P ys → All P (xs ++ ys)
  All-append P [] ys hx hy = hy
  All-append P (x ∷ xs) ys hx hy = (hx.0, All-append P xs ys hx.1 hy)

  pub All-map {κ μ} :
      {P : A → Type κ} {Q : A → Type μ} (f : (a : A) → P a → Q a) (xs : List A)
      → All P xs
      → All Q xs
  All-map f [] h = tt
  All-map f (x ∷ xs) h = (f x h.0, All-map f xs h.1)

  pub All-filter_by : (p : A → Bool) (xs : List A) → All (λ x. p x ≡ true) (filter_by p xs)
  All-filter_by p [] = tt
  All-filter_by p (x ∷ xs) = ground (arith, All-filter_by p xs)

  pub length-eq-count_by : (xs : List A) → length xs ≡ count_by (λ _. true) xs
  length-eq-count_by [] = refl
  length-eq-count_by (x ∷ xs) = ap suc (length-eq-count_by xs)

  pub count_by-le-length : (p : A → Bool) (xs : List A) → count_by p xs ≤ length xs
  count_by-le-length p [] = omega arith
  count_by-le-length p (x ∷ xs) = ground (arith, count_by-le-length p xs)

  -- A filter that keeps all that `p` holds of loses none of it.
  pub count_by-filter_by :
      (p q : A → Bool) (xs : List A)
      → ((x : A) → p x ≡ true → q x ≡ true)
      → count_by p (filter_by q xs) ≡ count_by p xs
  count_by-filter_by p q [] imp = refl
  count_by-filter_by p q (x ∷ xs) imp = ground (arith, imp x, count_by-filter_by p q xs imp)

  pub count_by-none : (p : A → Bool) (xs : List A) → All (λ x. p x ≡ false) xs → count_by p xs ≡ 0
  count_by-none p [] h = refl
  count_by-none p (x ∷ xs) h = ground (arith, count_by-none p xs h.1)

  pub count_by-all :
      (p : A → Bool) (xs : List A) → All (λ x. p x ≡ true) xs → count_by p xs ≡ length xs
  count_by-all p [] h = refl
  count_by-all p (x ∷ xs) h = ground (arith, count_by-all p xs h.1)

  pub List-cases : (l : List A) → (l ≡ []) ⊎ ((x : A) × (xs : List A) × (l ≡ x ∷ xs))
  List-cases [] = inl refl
  List-cases (x ∷ xs) = inr (x, xs, refl)
