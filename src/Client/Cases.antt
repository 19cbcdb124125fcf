-- ===== src/Client/Cases.antt =====
-- Case analysis on the answer to one call, for statements about both the result and the history.
use kubeopencode.Prelude.{◌≡◌, refl, ap, Bool, true, false, if◌then◌else◌, ◌∷◌, Option, none, some}
use kubeopencode.Api.Errors.{Error, Result, ok, err}
use kubeopencode.Client.{
  Env, E, Call, History, attempt, try_call, pure, on_result, on_option, continue, ◌>>=◌, ◌>>◌,
}

module _ {A B : Type 0} (Q : Result B × History → Type 0) where
  cases_of_answer :
      (note : Result A → Call) (f : A → E B) (env : Env) (h : History) (r : Result A)
      → ((a : A) → r ≡ ok a → Q (f a env (note (ok a) ∷ h)))
      → ((e : Error) → r ≡ err e → Q (err e, note (err e) ∷ h))
      → Q (continue r f env (note r ∷ h))
  cases_of_answer note f env h (ok a) holds fails = holds a refl
  cases_of_answer note f env h (err e) holds fails = fails e refl

  -- After a call whose error stops the action.
  pub try_call_cases :
      (answer : Env → History → Result A) (note : Result A → Call) (f : A → E B) (env : Env)
      (h : History)
      → ((a : A) → answer env h ≡ ok a → Q (f a env (note (ok a) ∷ h)))
      → ((e : Error) → answer env h ≡ err e → Q (err e, note (err e) ∷ h))
      → Q ((try_call answer note >>= f) env h)
  unfolding try_call ◌>>=◌
  try_call_cases answer note f env h holds fails =
      cases_of_answer note f env h (answer env h) holds fails

  attempted :
      (note : Result A → Call) (fails : Error → E B) (holds : A → E B) (env : Env) (h : History)
      (r : Result A)
      → ((a : A) → r ≡ ok a → Q (holds a env (note (ok a) ∷ h)))
      → ((e : Error) → r ≡ err e → Q (fails e env (note (err e) ∷ h)))
      → Q (on_result r fails holds env (note r ∷ h))
  unfolding on_result
  attempted note fails holds env h (ok a) k l = k a refl
  attempted note fails holds env h (err e) k l = l e refl

  -- After a call whose error is looked at.
  pub attempt_cases :
      (answer : Env → History → Result A) (note : Result A → Call) (fails : Error → E B)
      (holds : A → E B) (env : Env) (h : History)
      → ((a : A) → answer env h ≡ ok a → Q (holds a env (note (ok a) ∷ h)))
      → ((e : Error) → answer env h ≡ err e → Q (fails e env (note (err e) ∷ h)))
      → Q ((attempt (try_call answer note) >>= λ r. on_result r fails holds) env h)
  unfolding try_call attempt ◌>>=◌
  attempt_cases answer note fails holds env h k l =
      attempted note fails holds env h (answer env h) k l

  pub on_option_cases :
      (o : Option A) (absent : E B) (present : A → E B) (env : Env) (h : History)
      → (o ≡ none → Q (absent env h))
      → ((a : A) → o ≡ some a → Q (present a env h))
      → Q (on_option o absent present env h)
  unfolding on_option
  on_option_cases none absent present env h k l = k refl
  on_option_cases (some a) absent present env h k l = l a refl

pub if_cases :
    {B : Type 0} (Q : Result B × History → Type 0) (b : Bool) (m n : E B) (env : Env) (h : History)
    → (b ≡ true → Q (m env h))
    → (b ≡ false → Q (n env h))
    → Q ((if b then m else n) env h)
if_cases Q true m n env h k l = k refl
if_cases Q false m n env h k l = l refl

module _ {A B : Type 0} where
  -- What a call that succeeds goes on with, as equations.
  pub try_call_ok :
      (answer : Env → History → Result A) (note : Result A → Call) (f : A → E B) (env : Env)
      (h : History) (a : A)
      → answer env h ≡ ok a
      → (try_call answer note >>= f) env h ≡ f a env (note (ok a) ∷ h)
  unfolding try_call ◌>>=◌
  try_call_ok answer note f env h a e = ap (λ (r : Result A). continue r f env (note r ∷ h)) e

  pub attempt_ok :
      (answer : Env → History → Result A) (note : Result A → Call) (fails : Error → E B)
      (holds : A → E B) (env : Env) (h : History) (a : A)
      → answer env h ≡ ok a
      → (attempt (try_call answer note) >>= λ r. on_result r fails holds) env h
        ≡ holds a env (note (ok a) ∷ h)
  unfolding try_call attempt on_result ◌>>=◌
  attempt_ok answer note fails holds env h a e =
      ap (λ (r : Result A). on_result r fails holds env (note r ∷ h)) e

  pub on_option-some :
      (o : Option A) (absent : E B) (present : A → E B) (env : Env) (h : History) (a : A)
      → o ≡ some a
      → on_option o absent present env h ≡ present a env h
  unfolding on_option
  on_option-some o absent present env h a e =
      ap (λ (o' : Option A). on_option o' absent present env h) e

module _ {A B : Type 0} where
  -- What an action goes on with after another, as equations.
  pub then_err :
      (m : E A) (k : E B) (env : Env) (h h' : History) (e : Error)
      → m env h ≡ (err e, h')
      → (m >> k) env h ≡ (err e, h')
  unfolding ◌>>◌ ◌>>=◌
  then_err m k env h h' e eq = ap (λ p. continue p.0 (λ _. k) env p.1) eq

  pub then_ok :
      (m : E A) (k : E B) (env : Env) (h h' : History) (a : A)
      → m env h ≡ (ok a, h')
      → (m >> k) env h ≡ k env h'
  unfolding ◌>>◌ ◌>>=◌
  then_ok m k env h h' a eq = ap (λ p. continue p.0 (λ _. k) env p.1) eq

  pub bind_ok :
      (m : E A) (f : A → E B) (env : Env) (h h' : History) (a : A)
      → m env h ≡ (ok a, h')
      → (m >>= f) env h ≡ f a env h'
  unfolding ◌>>=◌
  bind_ok m f env h h' a eq = ap (λ p. continue p.0 f env p.1) eq

-- Nothing is called after an action whose continuation calls nothing, whatever its answer is.
pub history_after :
    {A B : Type 0} (r : Result A) (b : B) (env : Env) (h : History)
    → (continue r (λ _. pure b) env h).1 ≡ h
unfolding pure
history_after (ok a) b env h = refl
history_after (err e) b env h = refl
