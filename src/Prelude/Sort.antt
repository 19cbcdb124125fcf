-- ===== src/Prelude/Sort.antt =====
-- `sort.Slice`: what the code relies on, and a sort that has it.
use kubeopencode.Prelude.{
  ◌≡◌, refl, Bool, true, false, List, [], ◌∷◌, arith, All, count_by, Bool-cases, inl, inr,
  if◌then◌else◌,
}

-- `less` is a strict weak order.
pub record IsOrder {A : Type 0} (less : A → A → Bool) : Type 0 where
  pub asym : (a b : A) → less a b ≡ true → less b a ≡ false
  pub step : (a b c : A) → less b a ≡ false → less c b ≡ false → less c a ≡ false

-- No element is less than one before it.
abbrev pub IsSorted : {A : Type 0} → (A → A → Bool) → List A → Type 0
IsSorted less [] = Unit
IsSorted less (x ∷ xs) = All (λ y. less y x ≡ false) xs × IsSorted less xs

-- `sort.Slice` keeps every element as often, and sorts by a strict weak order.
pub record Sorts {A : Type 0} (sort : (A → A → Bool) → List A → List A) : Type 0 where
  pub keeps :
      (less : A → A → Bool) (xs : List A) (p : A → Bool) → count_by p (sort less xs) ≡ count_by p xs
  pub sorted : (less : A → A → Bool) (xs : List A) → IsOrder less → IsSorted less (sort less xs)

module _ {A : Type 0} where
  unfoldable pub insert_by : (A → A → Bool) → A → List A → List A
  insert_by less x [] = x ∷ []
  insert_by less x (y ∷ ys) = if less y x then y ∷ insert_by less x ys else x ∷ y ∷ ys

  unfoldable pub sort_by : (A → A → Bool) → List A → List A
  sort_by less [] = []
  sort_by less (x ∷ xs) = insert_by less x (sort_by less xs)

  insert_by-keeps :
      (less : A → A → Bool) (x : A) (xs : List A) (p : A → Bool)
      → count_by p (insert_by less x xs) ≡ count_by p (x ∷ xs)
  unfolding insert_by
  insert_by-keeps less x [] p = refl
  insert_by-keeps less x (y ∷ ys) p = ground (arith, insert_by-keeps less x ys p)

  sort_by-keeps :
      (less : A → A → Bool) (xs : List A) (p : A → Bool)
      → count_by p (sort_by less xs) ≡ count_by p xs
  unfolding sort_by
  sort_by-keeps less [] p = refl
  sort_by-keeps less (x ∷ xs) p =
      ground (arith, insert_by-keeps less x (sort_by less xs) p, sort_by-keeps less xs p)

  insert_by-All :
      (P : A → Type 0) (less : A → A → Bool) (x : A) (xs : List A)
      → P x
      → All P xs
      → All P (insert_by less x xs)
  unfolding insert_by
  insert_by-All P less x [] px h = (px, tt)
  insert_by-All P less x (y ∷ ys) px h = elim (Bool-cases (less y x)) [
    | inl e ↦ rw e (h.0, insert_by-All P less x ys px h.1)
    | inr e ↦ rw e (px, h)
  ]

  All-not_less :
      (less : A → A → Bool)
      → IsOrder less
      → (x y : A) (zs : List A) → less y x ≡ false
      → All (λ z. less z y ≡ false) zs
      → All (λ z. less z x ≡ false) zs
  All-not_less less o x y [] e h = tt
  All-not_less less o x y (z ∷ zs) e h = (o.step x y z e h.0, All-not_less less o x y zs e h.1)

  insert_by-IsSorted :
      (less : A → A → Bool)
      → IsOrder less
      → (x : A) (xs : List A) → IsSorted less xs
      → IsSorted less (insert_by less x xs)
  unfolding insert_by
  insert_by-IsSorted less o x [] s = (tt, tt)
  insert_by-IsSorted less o x (y ∷ ys) s = elim (Bool-cases (less y x)) [
    | inl e ↦ rw e (
      insert_by-All (λ z. less z y ≡ false) less x ys (o.asym y x e) s.0,
      insert_by-IsSorted less o x ys s.1,
    )
    | inr e ↦ rw e ((e, All-not_less less o x y ys e s.0), s)
  ]

  sort_by-IsSorted :
      (less : A → A → Bool) (xs : List A) → IsOrder less → IsSorted less (sort_by less xs)
  unfolding sort_by
  sort_by-IsSorted less [] o = tt
  sort_by-IsSorted less (x ∷ xs) o = insert_by-IsSorted less o x _ (sort_by-IsSorted less xs o)

  pub sort_by-Sorts : Sorts {A = A} sort_by
  sort_by-Sorts = record { keeps = sort_by-keeps; sorted = sort_by-IsSorted }
