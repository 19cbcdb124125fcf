-- ===== src/Task/Cleanup.antt =====
-- The cleanup of finished Tasks by age and by number (internal/controller/task_controller.go).
pub mod Retention
pub mod Expiry
use kubeopencode.Prelude.{
  ℕ, zero, suc, ◌-◌, String, Bool, true, false, ◌&&◌, Option, none, some, List, [], ◌∷◌, is_some,
  length, take, filter_by, ltb, if◌then◌else◌,
}
use kubeopencode.Prelude.Int.{ℤ, pos, ◌-ℤ◌, ltb_ℤ, leb_ℤ, eqb_ℤ, seconds}
use kubeopencode.Prelude.Text.{str_ltb}
use kubeopencode.Api.Errors.{is_not_found}
use kubeopencode.Api.Agent.{CleanupConfig}
use kubeopencode.Api.Task.{Task}
use kubeopencode.Client.{
  E, Requeue, no_requeue, requeue_after, pure, throw, attempt, library, on_result, on_option, ◌>>=◌,
  ◌>>◌,
}
use kubeopencode.Client.Calls.{since, get_config, list_tasks, delete_task}
use kubeopencode.Task.Status.{is_task_finished}

-- `checkTTLCleanup`, with whether the Task was deleted.
unfoldable pub check_ttl_cleanup : Task → ℕ → E (Requeue × Bool)
check_ttl_cleanup task ttl_seconds =
    on_option task.status.completion_time (pure (no_requeue, false)) (λ completion. do
      elapsed ← since completion
      if leb_ℤ (seconds ttl_seconds) elapsed
          then (do
            deleted ← attempt (delete_task task)
            on_result deleted (λ e. if is_not_found e then pure (no_requeue, true) else throw e)
                (λ _. pure (no_requeue, true)))
          else pure (requeue_after (seconds ttl_seconds -ℤ elapsed), false))

-- The filter of `checkRetentionCleanup`.
unfoldable pub is_finished_with_time : Task → Bool
is_finished_with_time t = is_task_finished t.status.phase && is_some t.status.completion_time

-- The instant of a Task that passed the filter; the filter leaves no Task without one.
abbrev pub completion_of : Task → ℤ
completion_of t = elim t.status.completion_time [ none ↦ pos 0 | some c ↦ c ]

-- The `less` of `checkRetentionCleanup`: the oldest first, then by name.
unfoldable pub completed_before : Task → Task → Bool
completed_before a b =
    if eqb_ℤ (completion_of a) (completion_of b)
    then str_ltb a.meta.name b.meta.name
    else ltb_ℤ (completion_of a) (completion_of b)

-- The deletion loop. A Task that is gone already is passed over, any other error stops.
unfoldable pub delete_tasks : List Task → E (Unit {0})
delete_tasks [] = pure tt
delete_tasks (t ∷ ts) = do
  deleted ← attempt (delete_task t)
  on_result deleted (λ e. if is_not_found e then delete_tasks ts else throw e)
      (λ _. delete_tasks ts)

-- The Tasks that `checkRetentionCleanup` deletes, of those that its list returned. `excess <= 0` is
-- a truncated difference of 0, and then nothing is taken.
unfoldable pub excess_tasks :
    ((Task → Task → Bool) → List Task → List Task) → List Task → ℕ → List Task
excess_tasks sort listed max_retained =
    let finished = filter_by is_finished_with_time listed in
    take (length finished - max_retained) (sort completed_before finished)

-- `checkRetentionCleanup`
unfoldable pub check_retention_cleanup : String → ℕ → E (Unit {0})
check_retention_cleanup namespace max_retained = do
  listed ← list_tasks namespace none
  excess ← library (λ env. excess_tasks env.sort_tasks listed max_retained)
  delete_tasks excess

-- `getCleanupConfig`: any error reads as "no cleanup".
unfoldable pub get_cleanup_config : E (Option CleanupConfig)
get_cleanup_config = do
  config ← attempt get_config
  on_result config (λ _. pure none) (λ c. pure c.cleanup)

-- The retention check of `handleTaskCleanup`, where it is configured.
unfoldable pub retain : Task → CleanupConfig → E (Unit {0})
retain task config =
    on_option config.max_retained_tasks (pure tt)
      (λ max. check_retention_cleanup task.meta.namespace max)

unfoldable pub cleanup_by_ttl : Task → CleanupConfig → ℕ → E Requeue
cleanup_by_ttl task config ttl = do
  (result, deleted) ← check_ttl_cleanup task ttl
  if deleted
      then pure result
      else if ltb_ℤ (pos 0) result.after
      then (do retain task config; pure result)
      else (do retain task config; pure no_requeue)

-- `handleTaskCleanup`
unfoldable pub handle_task_cleanup : Task → E Requeue
handle_task_cleanup task = do
  config ← get_cleanup_config
  on_option config (pure no_requeue) (λ c.
      on_option c.ttl_seconds_after_finished (do retain task c; pure no_requeue)
        (λ ttl. cleanup_by_ttl task c ttl))
