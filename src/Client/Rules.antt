-- ===== src/Client/Rules.antt =====
-- Rules for what an action calls: `Only P m` says that every call that `m` makes satisfies `P`,
-- whatever the answers are, whatever was called before, and wherever `m` stops.
pub mod Calls
pub mod Returns
pub mod Counts
pub mod Reads
pub mod Total
pub mod Answers
pub mod Fetched
use kubeopencode.Prelude.{Bool, true, false, Option, none, some, ◌≡◌, refl, if◌then◌else◌, All, ◌∷◌}
use kubeopencode.Api.Errors.{Error, Result, ok, err}
use kubeopencode.Client.{
  Env, E, Call, History, pure, throw, attempt, lift, call, try_call, library, on_result, on_option,
  continue, ◌>>=◌, ◌>>◌,
}

-- A history that goes on from `h` by calls that satisfy `Q`.
pub data Extends (Q : Call → Type 0) (h : History) : History → Type 0 where
  here : Extends Q h h
  more : {c : Call} {h' : History} → Q c → Extends Q h h' → Extends Q h (c ∷ h')

pub record Only {A : Type 0} (P : Env → Call → Type 0) (m : E A) : Type 0 where
  pub at : (env : Env) (h : History) → Extends (P env) h (m env h).1

module _ {Q : Call → Type 0} where
  pub Extends-trans : {a b c : History} → Extends Q a b → Extends Q b c → Extends Q a c
  Extends-trans e here = e
  Extends-trans e (more q f) = more q (Extends-trans e f)

  Extends-All : {a b : History} → All Q a → Extends Q a b → All Q b
  Extends-All h here = h
  Extends-All h (more q e) = (q, Extends-All h e)

  pub Extends-map :
      {R : Call → Type 0} {a b : History} → ((c : Call) → Q c → R c) → Extends Q a b → Extends R a b
  Extends-map f here = here
  Extends-map f (more q e) = more (f _ q) (Extends-map f e)

module _ {A : Type 0} {P : Env → Call → Type 0} {m : E A} where
  pub Only-All : Only P m → (env : Env) (h : History) → All (P env) h → All (P env) (m env h).1
  Only-All o env h k = Extends-All k (o.at env h)

  -- A weaker predicate holds too.
  pub Only-weaken :
      {R : Env → Call → Type 0} → ((env : Env) (c : Call) → P env c → R env c) → Only P m → Only R m
  Only-weaken f o = record { at = λ env h. Extends-map (f env) (o.at env h) }

module _ {A : Type 0} {P : Env → Call → Type 0} where
  pub Only-pure : (a : A) → Only P (pure a)
  unfolding pure
  Only-pure a = record { at = λ env h. here }

  pub Only-throw : (e : Error) → Only P (throw {A = A} e)
  unfolding throw
  Only-throw e = record { at = λ env h. here }

  pub Only-lift : (r : Result A) → Only P (lift r)
  unfolding lift
  Only-lift r = record { at = λ env h. here }

  pub Only-library : (f : Env → A) → Only P (library f)
  unfolding library
  Only-library f = record { at = λ env h. here }

  pub Only-call :
      (answer : Env → History → A) (note : A → Call)
      → ((env : Env) (a : A) → P env (note a))
      → Only P (call answer note)
  unfolding call
  Only-call answer note p = record { at = λ env h. more (p env _) here }

  pub Only-try_call :
      (answer : Env → History → Result A) (note : Result A → Call)
      → ((env : Env) (r : Result A) → P env (note r))
      → Only P (try_call answer note)
  unfolding try_call
  Only-try_call answer note p = record { at = λ env h. more (p env _) here }

  pub Only-attempt : (m : E A) → Only P m → Only P (attempt m)
  unfolding attempt
  Only-attempt m o = record { at = λ env h. o.at env h }

  pub Only-if :
      (b : Bool) (m n : E A)
      → (b ≡ true → Only P m)
      → (b ≡ false → Only P n)
      → Only P (if b then m else n)
  Only-if true m n om on = om refl
  Only-if false m n om on = on refl

module _ {A B : Type 0} {P : Env → Call → Type 0} where
  continue-Extends :
      (r : Result A) (f : A → E B)
      → ((a : A) → Only P (f a))
      → (env : Env) (h : History) → Extends (P env) h (continue r f env h).1
  continue-Extends (ok a) f of env h = (of a).at env h
  continue-Extends (err e) f of env h = here

  pub Only-bind : (m : E A) (f : A → E B) → Only P m → ((a : A) → Only P (f a)) → Only P (m >>= f)
  unfolding ◌>>=◌
  Only-bind m f om of = record {
    at = λ env h. Extends-trans (om.at env h) (continue-Extends (m env h).0 f of env (m env h).1);
  }

  -- The answer of a library call is a function of the environment.
  pub Only-bind-library :
      (f : Env → A) (g : A → E B)
      → ((env : Env) → Only (λ _. P env) (g (f env)))
      → Only P (library f >>= g)
  unfolding ◌>>=◌ library
  Only-bind-library f g og = record { at = λ env h. (og env).at env h }

  pub Only-then : (m : E A) (n : E B) → Only P m → Only P n → Only P (m >> n)
  unfolding ◌>>◌
  Only-then m n om on = Only-bind m (λ _. n) om (λ _. on)

  pub Only-on_result :
      (r : Result A) (fails : Error → E B) (holds : A → E B)
      → ((e : Error) → Only P (fails e))
      → ((a : A) → Only P (holds a))
      → Only P (on_result r fails holds)
  unfolding on_result
  Only-on_result (ok a) fails holds of oh = oh a
  Only-on_result (err e) fails holds of oh = of e

  pub Only-on_option :
      (o : Option A) (absent : E B) (present : A → E B)
      → (o ≡ none → Only P absent)
      → ((a : A) → o ≡ some a → Only P (present a))
      → Only P (on_option o absent present)
  unfolding on_option
  Only-on_option none absent present oa op = oa refl
  Only-on_option (some a) absent present oa op = op a refl

-- What a result satisfies, where there is one.
pub record Ensures {A : Type 0} (R : A → Type 0) (m : E A) : Type 0 where
  pub at : (env : Env) (h : History) (a : A) → (m env h).0 ≡ ok a → R a

module _ {A B : Type 0} {P : Env → Call → Type 0} where
  continue-Ensures :
      (R : A → Type 0) (r : Result A) (f : A → E B)
      → ((a : A) → r ≡ ok a → R a)
      → ((a : A) → R a → Only P (f a))
      → (env : Env) (h : History) → Extends (P env) h (continue r f env h).1
  continue-Ensures R (ok a) f holds of env h = (of a (holds a refl)).at env h
  continue-Ensures R (err e) f holds of env h = here

  pub Only-bind-Ensures :
      (R : A → Type 0) (m : E A) (f : A → E B)
      → Only P m
      → Ensures R m
      → ((a : A) → R a → Only P (f a))
      → Only P (m >>= f)
  unfolding ◌>>=◌
  Only-bind-Ensures R m f om em of = record {
    at = λ env h.
        Extends-trans (om.at env h)
          (continue-Ensures R (m env h).0 f (em.at env h) of env (m env h).1);
  }

-- The same for one environment, as a step of a proof by hand.
pub All-bind :
    {A B : Type 0} (Q : Call → Type 0) (m : E A) (f : A → E B) (env : Env) (h : History)
    → All Q (m env h).1
    → ((a : A) (h' : History) → All Q h' → All Q (f a env h').1)
    → All Q ((m >>= f) env h).1
unfolding ◌>>=◌
All-bind {A} Q m f env h before after = All-continue (m env h).0 (m env h).1 before
  where
    All-continue : (r : Result A) (h' : History) → All Q h' → All Q (continue r f env h').1
    All-continue (ok a) h' k = after a h' k
    All-continue (err e) h' k = k

pub ruleset only_rules = (
  Only-pure, Only-throw, Only-lift, Only-library, Only-attempt, Only-if, Only-bind, Only-then,
  Only-on_result, Only-on_option,
)
