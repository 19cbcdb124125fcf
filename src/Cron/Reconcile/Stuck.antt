-- ===== src/Cron/Reconcile/Stuck.antt =====
-- After more than 100 missed activations the controller says that it resets, and does not.
use kubeopencode.Prelude.{String, ◌≡◌, ap, ◌∙◌, ◌∷◌, Bool, false, Option, List, [], All}
use kubeopencode.Prelude.Int.{ℤ, ◌≤ℤ◌}
use kubeopencode.Api.Errors.{Message}
use kubeopencode.Api.Task.{Task}
use kubeopencode.Api.CronTask.{CronTask}
use kubeopencode.Client.{Env, History, Call, pure, library, call, ◌>>=◌}
use kubeopencode.Client.Calls.{now, with_condition}
use kubeopencode.Client.Rules.{
  Only, Only-All, All-bind, Ensures, Only-if, Only-bind-Ensures, Only-on_option, Only-then,
  only_rules,
}
use kubeopencode.Client.Rules.Calls.{Only-update_cron_task_status, call_rules}
use kubeopencode.Cron.Schedule.{get_most_recent_schedule_time, earliest_time}
use kubeopencode.Cron.Schedule.Recent.{gave_up_again}
use kubeopencode.Cron.Children.{
  set_condition, list_child_tasks, update_last_successful_time, with_last_successful_time,
}
use kubeopencode.Cron.Reconcile.{
  finish_until, due, schedule, suspend, finish, dispatch, is_suspended, is_triggered,
  is_past_deadline, observe, reconcile_scheduled,
}

-- No Task is created, and every status that is written keeps the last schedule time `last`.
abbrev pub Frozen : Option ℤ → Env → Call → Type 0
Frozen last env (Call.create_task t r) = ⊥
Frozen last env (Call.update_cron_task_status c r) = c.status.last_schedule_time ≡ last
Frozen last env _ = Unit

SameLast : CronTask → CronTask → Type 0
SameLast cron c = c.status.last_schedule_time ≡ cron.status.last_schedule_time

set_condition-Ensures :
    (cron : CronTask) (b : Bool) (reason : String) (message : Message)
    → Ensures (SameLast cron) (set_condition cron b reason message)
unfolding SameLast set_condition with_condition library pure ◌>>=◌
set_condition-Ensures cron b reason message = record { at = λ env h c e. cc }

module _ (cron : CronTask) where
  set_condition-Frozen :
      (b : Bool) (reason : String) (message : Message)
      → Only (Frozen cron.status.last_schedule_time) (set_condition cron b reason message)
  unfolding set_condition
  set_condition-Frozen b reason message = search (only_rules, call_rules)

  finish_until-Frozen :
      (t : ℤ) (b : Bool) (reason : String) (message : Message)
      → Only (Frozen cron.status.last_schedule_time) (finish_until cron t b reason message)
  unfolding finish_until SameLast
  finish_until-Frozen t b reason message =
      Only-bind-Ensures (SameLast cron) _ _ (set_condition-Frozen b reason message)
        (set_condition-Ensures cron b reason message)
        (λ c same.
          Only-then _ _ (Only-update_cron_task_status c (λ _ _. same))
            (search (only_rules, call_rules)))

  suspend-Frozen : Only (Frozen cron.status.last_schedule_time) (suspend cron)
  unfolding suspend finish SameLast
  suspend-Frozen =
      Only-bind-Ensures (SameLast cron) _ _ (set_condition-Frozen _ _ _)
        (set_condition-Ensures cron _ _ _)
        (λ c same. Only-then _ _ (Only-update_cron_task_status _ (λ _ _. same)) (search only_rules))

  -- With 101 activations missed a scheduled run only writes the condition.
  schedule-Frozen :
      (next : ℤ → ℤ) (children : List Task) (n next_time : ℤ)
      → (get_most_recent_schedule_time cron next n).1 ≡ 101
      → Only (Frozen cron.status.last_schedule_time) (schedule cron next children n next_time)
  unfolding schedule due
  schedule-Frozen next children n next_time full =
      Only-on_option _ _ _ (λ _. finish_until-Frozen _ _ _ _)
        (λ t e.
          Only-if (is_past_deadline cron t n) _ _
            (λ _. Only-then _ _ (search call_rules) (finish_until-Frozen _ _ _ _))
            (λ _. rw full (Only-then _ _ (search call_rules) (finish_until-Frozen _ _ _ _))))

  dispatch-Frozen :
      (next : ℤ → ℤ) (children : List Task) (n : ℤ)
      → is_triggered cron ≡ false
      → (get_most_recent_schedule_time cron next n).1 ≡ 101
      → Only (Frozen cron.status.last_schedule_time) (dispatch cron next children n)
  unfolding dispatch
  dispatch-Frozen next children n untriggered full = rw untriggered (
      Only-if (is_suspended cron) _ _ (λ _. suspend-Frozen)
        (λ _. schedule-Frozen next children n (next n) full))

list_child_tasks-Frozen :
    (cron : CronTask) (last : Option ℤ) → Only (Frozen last) (list_child_tasks cron)
unfolding list_child_tasks
list_child_tasks-Frozen cron last = search (only_rules, call_rules)

-- What `Reconcile` observes before it dispatches changes neither the start of the count nor the
-- trigger.
observed-Frozen :
    (cron : CronTask) (next : ℤ → ℤ) (sorted children active : List Task) (n next_time : ℤ)
    → is_triggered cron ≡ false
    → (get_most_recent_schedule_time cron next n).1 ≡ 101
    → Only (Frozen cron.status.last_schedule_time) (
        dispatch (observe (with_last_successful_time cron sorted) active next_time) next children n)
unfolding observe with_last_successful_time get_most_recent_schedule_time earliest_time is_triggered
observed-Frozen cron next sorted children active n next_time untriggered full =
    dispatch-Frozen _ next children n untriggered full

-- If more than 100 activations are due at `now`, then at every later run of the same untriggered
-- CronTask, whatever the cluster answers, no Task is created and every status that is written keeps
-- the last schedule time, so that the next run is stuck in the same way.
pub stuck_forever :
    (env : Env) (cron : CronTask) (next : ℤ → ℤ) (start : ℤ)
    → is_triggered cron ≡ false
    → (get_most_recent_schedule_time cron next start).1 ≡ 101
    → ((h : History) → start ≤ℤ env.now h)
    → All (Frozen cron.status.last_schedule_time env) (reconcile_scheduled cron next env []).1
unfolding reconcile_scheduled
stuck_forever env cron next start untriggered full later =
    All-bind _ _ _ env []
      (Only-All (list_child_tasks-Frozen cron cron.status.last_schedule_time) env [] tt)
      (λ children h k.
        unfold now call ◌>>=◌ update_last_successful_time library pure in
        Only-All
          (observed-Frozen cron next _ children _ (env.now h) _ untriggered
            (ap (λ r. r.1) (gave_up_again cron next start (env.now h) (later h) full) ∙ full))
          env (Call.now ∷ h) (tt, k))
