-- ===== src/Client/Rules/Fetched.antt =====
-- The rule for a Task that is fetched: what follows may use that the API server answered with it.
use kubeopencode.Prelude.{◌≡◌, refl, ◌∷◌}
use kubeopencode.Api.Errors.{Result, ok, err}
use kubeopencode.Api.Meta.{Key}
use kubeopencode.Api.Task.{Task}
use kubeopencode.Client.{Env, E, Call, History, continue, try_call, ◌>>=◌}
use kubeopencode.Client.Calls.{get_task}
use kubeopencode.Client.Rules.{Extends, Only, Extends-trans, Extends-map}

module _ {A : Type 0} {P : Env → Call → Type 0} (k : Key) (f : Task → E A)
    (asks : (env : Env) → P env (Call.get_task k))
    (next : (t : Task)
      → Only (λ env c. (h : History) → env.get_task h k ≡ ok t → P env c) (f t)) where
  fetched :
      (env : Env) (h : History) (r : Result Task)
      → env.get_task h k ≡ r
      → Extends (P env) h (continue r f env (Call.get_task k ∷ h)).1
  fetched env h (ok t) e =
      Extends-trans (Extends.more (asks env) Extends.here)
        (Extends-map (λ c p. p h e) ((next t).at env _))
  fetched env h (err x) e = Extends.more (asks env) Extends.here

  pub Only-bind-get_task : Only P (get_task k >>= f)
  unfolding get_task try_call ◌>>=◌
  Only-bind-get_task = record { at = λ env h. fetched env h (env.get_task h k) refl }
