-- ===== src/Client/Rules/Answers.antt =====
-- Rules for what an action returns in one environment: `Answers env R m` says that every result of
-- `m` there satisfies `R`, which may speak of the answers of that environment.
use kubeopencode.Prelude.{
  ◌≡◌, refl, Bool, true, false, Option, none, some, if◌then◌else◌, ◌∷◌, arith,
}
use kubeopencode.Api.Errors.{Error, Result, ok, err, ok_inj}
use kubeopencode.Client.{
  Env, E, Call, History, pure, throw, attempt, try_call, on_result, on_option, continue, ◌>>=◌,
}
use mathlib.Core.Path.{subst}

pub record Answers {A : Type 0} (env : Env) (R : A → Type 0) (m : E A) : Type 0 where
  pub at : (h : History) (a : A) → (m env h).0 ≡ ok a → R a

module _ {A : Type 0} {env : Env} {R : A → Type 0} where
  pub Answers-pure : (a : A) → R a → Answers env R (pure a)
  unfolding pure
  Answers-pure a r = record { at = λ h b e. subst R (ok_inj e) r }

  pub Answers-throw : (e : Error) → Answers env R (throw e)
  unfolding throw
  Answers-throw e = record { at = λ h b k. absurd (ground arith) }

  pub Answers-test :
      (b : Bool) (m n : E A)
      → (b ≡ true → Answers env R m)
      → (b ≡ false → Answers env R n)
      → Answers env R (if b then m else n)
  Answers-test true m n rm rn = rm refl
  Answers-test false m n rm rn = rn refl

module _ {A B : Type 0} {env : Env} {R : B → Type 0} where
  pub Answers-on_option :
      (o : Option A) (absent : E B) (present : A → E B)
      → (o ≡ none → Answers env R absent)
      → ((a : A) → o ≡ some a → Answers env R (present a))
      → Answers env R (on_option o absent present)
  unfolding on_option
  Answers-on_option none absent present ra rp = ra refl
  Answers-on_option (some a) absent present ra rp = rp a refl

  answered :
      (r : Result A) (fails : Error → E B) (holds : A → E B)
      → ((e : Error) → Answers env R (fails e))
      → ((a : A) → r ≡ ok a → Answers env R (holds a))
      → Answers env R (on_result r fails holds)
  unfolding on_result
  answered (ok a) fails holds rf rh = rh a refl
  answered (err e) fails holds rf rh = rf e

  -- After a call whose error is looked at.
  pub Answers-attempt :
      (answer : Env → History → Result A) (note : Result A → Call) (fails : Error → E B)
      (holds : A → E B)
      → ((e : Error) → Answers env R (fails e))
      → ((h : History) (a : A) → answer env h ≡ ok a → Answers env R (holds a))
      → Answers env R (attempt (try_call answer note) >>= λ r. on_result r fails holds)
  unfolding attempt try_call ◌>>=◌
  Answers-attempt answer note fails holds rf rh = record {
    at = λ h. (answered (answer env h) fails holds rf (rh h)).at (note (answer env h) ∷ h);
  }

  after :
      (S : A → Type 0) (r : Result A) (f : A → E B) (h : History)
      → ((a : A) → r ≡ ok a → S a)
      → ((a : A) → S a → Answers env R (f a))
      → (b : B) → (continue r f env h).0 ≡ ok b
      → R b
  after S (ok a) f h k rf b e = (rf a (k a refl)).at h b e
  after S (err x) f h k rf b e = absurd (ground arith)

  -- The first action ensures something that the second needs.
  pub Answers-after :
      (S : A → Type 0) (m : E A) (f : A → E B)
      → Answers env S m
      → ((a : A) → S a → Answers env R (f a))
      → Answers env R (m >>= f)
  unfolding ◌>>=◌
  Answers-after S m f ms rf = record {
    at = λ h b e. after S (m env h).0 f (m env h).1 (ms.at h) rf b e;
  }
