-- ===== src/Client/Rules/Returns.antt =====
-- Rules for what an action returns, where it returns a result.
use mathlib.Core.Path.{subst}
use native.Mathlib.Omega.{arith}
use kubeopencode.Prelude.{Bool, true, false, Option, none, some, ◌≡◌, refl, if◌then◌else◌}
use kubeopencode.Api.Errors.{Error, Result, ok, err}
use kubeopencode.Client.{Env, E, History, pure, throw, lift, on_result, on_option, continue, ◌>>=◌}
use kubeopencode.Client.Rules.{Ensures}

module _ {A : Type 0} {R : A → Type 0} where
  pub Ensures-pure : (a : A) → R a → Ensures R (pure a)
  unfolding pure
  Ensures-pure a r = record { at = λ env h b e. subst R (ok_inj a b e) r }
    where
      ok_inj : (a b : A) → ok a ≡ ok b → a ≡ b
      ok_inj a b e = ground arith

  pub Ensures-if :
      (b : Bool) (m n : E A) → Ensures R m → Ensures R n → Ensures R (if b then m else n)
  Ensures-if true m n rm rn = rm
  Ensures-if false m n rm rn = rn

module _ {A : Type 0} {R : A → Type 0} where
  pub Ensures-throw : (e : Error) → Ensures R (throw e)
  unfolding throw
  Ensures-throw e = record { at = λ env h b k. absurd (ground arith) }

  -- The two branches of a test, with what it says.
  pub Ensures-test :
      (b : Bool) (m n : E A)
      → (b ≡ true → Ensures R m)
      → (b ≡ false → Ensures R n)
      → Ensures R (if b then m else n)
  Ensures-test true m n rm rn = rm refl
  Ensures-test false m n rm rn = rn refl

module _ {A B : Type 0} {R : B → Type 0} where
  continue-holds :
      (r : Result A) (f : A → E B)
      → ((a : A) → Ensures R (f a))
      → (env : Env) (h : History) (b : B) → (continue r f env h).0 ≡ ok b
      → R b
  continue-holds (ok a) f rf env h b e = (rf a).at env h b e
  continue-holds (err x) f rf env h b e = elim (err_ok x b e) [ ]
    where
      err_ok : (x : Error) (b : B) → err x ≡ ok b → ⊥
      err_ok x b e = ground arith

  pub Ensures-bind : (m : E A) (f : A → E B) → ((a : A) → Ensures R (f a)) → Ensures R (m >>= f)
  unfolding ◌>>=◌
  Ensures-bind m f rf = record {
    at = λ env h b e. continue-holds (m env h).0 f rf env (m env h).1 b e;
  }

  pub Ensures-on_result :
      (r : Result A) (fails : Error → E B) (holds : A → E B)
      → ((e : Error) → Ensures R (fails e))
      → ((a : A) → Ensures R (holds a))
      → Ensures R (on_result r fails holds)
  unfolding on_result
  Ensures-on_result (ok a) fails holds rf rh = rh a
  Ensures-on_result (err e) fails holds rf rh = rf e

  pub Ensures-on_option :
      (o : Option A) (absent : E B) (present : A → E B)
      → (o ≡ none → Ensures R absent)
      → ((a : A) → o ≡ some a → Ensures R (present a))
      → Ensures R (on_option o absent present)
  unfolding on_option
  Ensures-on_option none absent present ra rp = ra refl
  Ensures-on_option (some a) absent present ra rp = rp a refl

-- The first action ensures something that the second needs.
pub Ensures-after :
    {A B : Type 0} {R : B → Type 0} (S : A → Type 0) (m : E A) (f : A → E B)
    → Ensures S m
    → ((a : A) → S a → Ensures R (f a))
    → Ensures R (m >>= f)
unfolding ◌>>=◌
Ensures-after {A} {B} {R} S m f ms rf = record {
  at = λ env h b e. after env (m env h).0 (m env h).1 (ms.at env h) b e;
}
  where
    after :
        (env : Env) (r : Result A) (h : History)
        → ((a : A) → r ≡ ok a → S a)
        → (b : B) → (continue r f env h).0 ≡ ok b
        → R b
    after env (ok a) h k b e = (rf a (k a refl)).at env h b e
    after env (err x) h k b e = absurd (ground arith)

-- After a result that the action takes over.
pub Ensures-lift :
    {A B : Type 0} {R : B → Type 0} (r : Result A) (f : A → E B)
    → ((a : A) → r ≡ ok a → Ensures R (f a))
    → Ensures R (lift r >>= f)
unfolding ◌>>=◌ lift
Ensures-lift (ok a) f rf = record { at = (rf a refl).at }
Ensures-lift (err x) f rf = record { at = λ env h b e. absurd (ground arith) }

pub ruleset ensures_rules =
    (Ensures-pure, Ensures-if, Ensures-bind, Ensures-on_result, Ensures-on_option)
