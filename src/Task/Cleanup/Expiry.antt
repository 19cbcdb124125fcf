-- ===== src/Task/Cleanup/Expiry.antt =====
-- When a finished Task is deleted for its age (internal/controller/task_controller.go).
use kubeopencode.Prelude.{◌≡◌, refl, ◌∙◌, ℕ, Bool, true, false, some, ◌∷◌, if◌then◌else◌, arith}
use kubeopencode.Prelude.Int.{
  ℤ, pos, ◌+ℤ◌, ◌-ℤ◌, ◌≤ℤ◌, ◌<ℤ◌, leb_ℤ, seconds, +ℤ_parts, -ℤ_parts, eq_of_parts,
}
use kubeopencode.Api.Errors.{Result, ok, err, is_not_found}
use kubeopencode.Api.Task.{Task}
use kubeopencode.Client.{
  Env, Call, History, Requeue, requeue_after, no_requeue, ◌>>=◌, on_option, on_result, attempt,
  pure, throw, call, try_call,
}
use kubeopencode.Client.Cases.{on_option-some}
use kubeopencode.Client.Calls.{now, since, delete_task}
use kubeopencode.Task.Cleanup.{check_ttl_cleanup}

is_expired :
    (completion n : ℤ) (ttl : ℕ)
    → (completion +ℤ seconds ttl) ≤ℤ n
    → leb_ℤ (seconds ttl) (n -ℤ completion) ≡ true
is_expired completion n ttl h =
    ground (arith, +ℤ_parts completion (seconds ttl), -ℤ_parts n completion)

is_fresh :
    (completion n : ℤ) (ttl : ℕ)
    → n <ℤ (completion +ℤ seconds ttl)
    → leb_ℤ (seconds ttl) (n -ℤ completion) ≡ false
is_fresh completion n ttl h =
    ground (arith, +ℤ_parts completion (seconds ttl), -ℤ_parts n completion)

-- The result of the deletion: a Task that is gone already counts as deleted.
abbrev pub deletion_result : Result (Unit {0}) → Result (Requeue × Bool)
deletion_result (ok _) = ok (no_requeue, true)
deletion_result (err e) = if is_not_found e then ok (no_requeue, true) else err e

after_deletion :
    (env : Env) (h : History) (answer : Result (Unit {0}))
    → on_result answer
        (λ e. if is_not_found e then pure (no_requeue, true) else throw e)
        (λ _. pure (no_requeue, true))
        env
        h
      ≡ (deletion_result answer, h)
unfolding on_result pure throw
after_deletion env h (ok _) = refl
after_deletion env h (err e) = ground arith

expired :
    (env : Env) (h : History) (task : Task) (ttl : ℕ) (completion : ℤ) (answer : Result (Unit {0}))
    → task.status.completion_time ≡ some completion
    → env.delete_task (Call.now ∷ h) task ≡ answer
    → leb_ℤ (seconds ttl) (env.now h -ℤ completion) ≡ true
    → check_ttl_cleanup task ttl env h
      ≡ (deletion_result answer, Call.delete_task task answer ∷ Call.now ∷ h)
unfolding check_ttl_cleanup since now call pure attempt delete_task try_call on_option ◌>>=◌
expired env h task ttl completion answer e d late =
    on_option-some _ _ _ env h completion e
    ∙ rw (late, d) (after_deletion env (Call.delete_task task answer ∷ Call.now ∷ h) answer)

fresh :
    (env : Env) (h : History) (task : Task) (ttl : ℕ) (completion : ℤ)
    → task.status.completion_time ≡ some completion
    → leb_ℤ (seconds ttl) (env.now h -ℤ completion) ≡ false
    → check_ttl_cleanup task ttl env h
      ≡ (ok (requeue_after (seconds ttl -ℤ (env.now h -ℤ completion)), false), Call.now ∷ h)
unfolding check_ttl_cleanup since now call pure on_option ◌>>=◌
fresh env h task ttl completion e early = rw (e, early)

-- A Task with a completion time expires at that time plus the time to live. From then on it is
-- deleted, where a Task that is gone already is no error and any other error is returned. Before,
-- nothing is deleted, and the wait that is asked for is positive and ends exactly when the Task
-- expires.
pub check_ttl_cleanup-expiry :
    (env : Env) (h : History) (task : Task) (ttl : ℕ) (completion : ℤ) (answer : Result (Unit {0}))
    → task.status.completion_time ≡ some completion
    → env.delete_task (Call.now ∷ h) task ≡ answer
    → ((completion +ℤ seconds ttl) ≤ℤ env.now h
        → check_ttl_cleanup task ttl env h
          ≡ (deletion_result answer, Call.delete_task task answer ∷ Call.now ∷ h))
      × (env.now h <ℤ (completion +ℤ seconds ttl)
          → (wait : ℤ) × (check_ttl_cleanup task ttl env h
              ≡ (ok (requeue_after wait, false), Call.now ∷ h))
            × (pos 0 <ℤ wait)
            × (env.now h +ℤ wait ≡ completion +ℤ seconds ttl))
check_ttl_cleanup-expiry env h task ttl completion answer e d = (
  λ late. expired env h task ttl completion answer e d (is_expired completion (env.now h) ttl late),
  λ early. (
    seconds ttl -ℤ (env.now h -ℤ completion),
    fresh env h task ttl completion e (is_fresh completion (env.now h) ttl early),
    omega (
      arith,
      +ℤ_parts completion (seconds ttl),
      -ℤ_parts (env.now h) completion,
      -ℤ_parts (seconds ttl) (env.now h -ℤ completion),
    ),
    eq_of_parts _ _ (
        omega (
          arith,
          +ℤ_parts completion (seconds ttl),
          -ℤ_parts (env.now h) completion,
          -ℤ_parts (seconds ttl) (env.now h -ℤ completion),
          +ℤ_parts (env.now h) (seconds ttl -ℤ (env.now h -ℤ completion)),
        )),
  ),
)
