-- ===== src/Client/Rules/Total.antt =====
-- Rules for an action that always returns: `Total R m` says that `m` returns a result with `R`,
-- whatever the answers are and whatever was called before.
use kubeopencode.Prelude.{◌≡◌, refl, Bool, true, false, Option, none, some, if◌then◌else◌}
use kubeopencode.Api.Errors.{Error, Result, ok, err}
use kubeopencode.Client.{Env, E, History, pure, attempt, on_result, on_option, ◌>>=◌}

pub record Total {A : Type 0} (R : A → Type 0) (m : E A) : Type 0 where
  pub at : (env : Env) (h : History) → (a : A) × (h' : History) × (m env h ≡ (ok a, h')) × R a

module _ {A : Type 0} {R : A → Type 0} where
  pub Total-pure : (a : A) → R a → Total R (pure a)
  unfolding pure
  Total-pure a r = record { at = λ env h. (a, h, refl, r) }

  pub Total-if : (b : Bool) (m n : E A) → Total R m → Total R n → Total R (if b then m else n)
  Total-if true m n rm rn = rm
  Total-if false m n rm rn = rn

module _ {A B : Type 0} {R : B → Type 0} where
  pub Total-on_option :
      (o : Option A) (absent : E B) (present : A → E B)
      → Total R absent
      → ((a : A) → Total R (present a))
      → Total R (on_option o absent present)
  unfolding on_option
  Total-on_option none absent present ra rp = ra
  Total-on_option (some a) absent present ra rp = rp a

  answered :
      (r : Result A) (fails : Error → E B) (holds : A → E B)
      → ((e : Error) → Total R (fails e))
      → ((a : A) → Total R (holds a))
      → Total R (on_result r fails holds)
  unfolding on_result
  answered (ok a) fails holds rf rh = rh a
  answered (err e) fails holds rf rh = rf e

  -- An error that is looked at does not stop the action.
  pub Total-attempt :
      (m : E A) (fails : Error → E B) (holds : A → E B)
      → ((e : Error) → Total R (fails e))
      → ((a : A) → Total R (holds a))
      → Total R (attempt m >>= λ r. on_result r fails holds)
  unfolding attempt ◌>>=◌
  Total-attempt m fails holds rf rh = record {
    at = λ env h. (answered (m env h).0 fails holds rf rh).at env (m env h).1;
  }
