-- ===== src/Client/Rules/Counts.antt =====
-- How often an action makes a kind of call: `Within p n m` says that `m` makes at most `n` calls
-- with `p`, whatever the answers are.
use kubeopencode.Prelude.{
  ℕ, ◌+◌, ◌≤◌, ◌≡◌, Bool, true, false, Option, none, some, count_by, if◌then◌else◌, arith,
}
use kubeopencode.Api.Errors.{Error, Result, ok, err}
use kubeopencode.Client.{Env, E, Call, History, attempt, on_result, on_option, continue, ◌>>=◌}
use kubeopencode.Client.Rules.{Extends, here, more, Only}

pub record Within {A : Type 0} (p : Call → Bool) (n : ℕ) (m : E A) : Type 0 where
  pub at : (env : Env) (h : History) → count_by p (m env h).1 ≤ n + count_by p h

module _ {p : Call → Bool} where
  count-Extends :
      {h h' : History} → Extends (λ c. p c ≡ false) h h' → count_by p h' ≤ 0 + count_by p h
  count-Extends here = omega arith
  count-Extends (more {c} q e) = ground (arith, count-Extends e)

  -- An action that makes no such call.
  pub Within-none : {A : Type 0} {m : E A} → Only (λ _ c. p c ≡ false) m → Within p 0 m
  Within-none o = record { at = λ env h. count-Extends (o.at env h) }

  pub Within-weaken : {A : Type 0} {m : E A} (k n : ℕ) → k ≤ n → Within p k m → Within p n m
  Within-weaken k n le w = record { at = λ env h. omega (arith, w.at env h) }

  pub Within-attempt : {A : Type 0} {n : ℕ} (m : E A) → Within p n m → Within p n (attempt m)
  unfolding attempt
  Within-attempt m w = record { at = λ env h. w.at env h }

  pub Within-if :
      {A : Type 0} {n : ℕ} (b : Bool) (m k : E A)
      → Within p n m
      → Within p n k
      → Within p n (if b then m else k)
  Within-if true m k wm wk = wm
  Within-if false m k wm wk = wk

module _ {p : Call → Bool} {A B : Type 0} where
  continue-Within :
      {n : ℕ} (r : Result A) (f : A → E B)
      → ((a : A) → Within p n (f a))
      → (env : Env) (h : History) → count_by p (continue r f env h).1 ≤ n + count_by p h
  continue-Within (ok a) f w env h = (w a).at env h
  continue-Within (err e) f w env h = omega arith

  pub Within-bind :
      {k n : ℕ} (m : E A) (f : A → E B)
      → Within p k m
      → ((a : A) → Within p n (f a))
      → Within p (k + n) (m >>= f)
  unfolding ◌>>=◌
  Within-bind m f wm wf = record {
    at = λ env h. omega (arith, wm.at env h, continue-Within (m env h).0 f wf env (m env h).1);
  }

  -- After an action that makes no such call.
  pub Within-after :
      {n : ℕ} (m : E A) (f : A → E B)
      → Only (λ _ c. p c ≡ false) m
      → ((a : A) → Within p n (f a))
      → Within p n (m >>= f)
  Within-after {n} m f om wf =
      Within-weaken (0 + n) n (omega arith) (Within-bind m f (Within-none om) wf)

  pub Within-on_result :
      {n : ℕ} (r : Result A) (fails : Error → E B) (holds : A → E B)
      → ((e : Error) → Within p n (fails e))
      → ((a : A) → Within p n (holds a))
      → Within p n (on_result r fails holds)
  unfolding on_result
  Within-on_result (ok a) fails holds wf wh = wh a
  Within-on_result (err e) fails holds wf wh = wf e

  pub Within-on_option :
      {n : ℕ} (o : Option A) (absent : E B) (present : A → E B)
      → Within p n absent
      → ((a : A) → Within p n (present a))
      → Within p n (on_option o absent present)
  unfolding on_option
  Within-on_option none absent present wa wp = wa
  Within-on_option (some a) absent present wa wp = wp a
