-- ===== src/Cron/Reconcile/Launches.antt =====
-- When a scheduled run creates a Task.
use kubeopencode.Prelude.{
  ℕ, String, ◌≤◌, ◌≡◌, refl, ap, ◌≢◌, Bool, false, some, List, [], ◌∷◌, arith, ltb, length, All,
}
use kubeopencode.Prelude.Int.{ℤ}
use kubeopencode.Api.Errors.{Message}
use kubeopencode.Api.Task.{Task}
use kubeopencode.Api.CronTask.{CronTask, ConcurrencyPolicy, allow, forbid, replace}
use kubeopencode.Client.{Env, Call}
use kubeopencode.Client.Rules.{
  Only, Only-All, Only-bind, Only-bind-library, Only-attempt, Only-if, Only-then, Only-on_option,
  only_rules,
}
use kubeopencode.Client.Rules.Calls.{Only-create_task, call_rules}
use kubeopencode.Cron.Schedule.{
  get_most_recent_schedule_time, is_at_retained_limit, max_missed_schedules,
}
use kubeopencode.Cron.Children.{
  active_tasks, child_task, set_condition, create_task, stop_task, stop_tasks,
}
use kubeopencode.Cron.Reconcile.{
  finish_until, launch, launch_beside, launch_unless_active, is_past_deadline, at_limit, due,
  schedule, suspend, finish, dispatch, is_suspended, is_triggered,
}

-- Every created Task satisfies `Q`; nothing is said of other calls.
abbrev pub Creates : (Env → Task → Type 0) → Env → Call → Type 0
Creates Q env (Call.create_task t r) = Q env t
Creates Q env _ = Unit

module _ {Q : Env → Task → Type 0} where
  set_condition-Creates :
      (cron : CronTask) (b : Bool) (reason : String) (message : Message)
      → Only (Creates Q) (set_condition cron b reason message)
  unfolding set_condition
  set_condition-Creates cron b reason message = search (only_rules, call_rules)

  finish_until-Creates :
      (cron : CronTask) (t : ℤ) (b : Bool) (reason : String) (message : Message)
      → Only (Creates Q) (finish_until cron t b reason message)
  unfolding finish_until
  finish_until-Creates cron t b reason message =
      search (only_rules, call_rules, set_condition-Creates)

  stop_task-Creates : (t : Task) → Only (Creates Q) (stop_task t)
  unfolding stop_task
  stop_task-Creates t = search (only_rules, call_rules)

  stop_tasks-Creates : (ts : List Task) → Only (Creates Q) (stop_tasks ts)
  unfolding stop_tasks
  stop_tasks-Creates [] = search only_rules
  stop_tasks-Creates (t ∷ ts) = search (only_rules, stop_task-Creates t, stop_tasks-Creates ts)

  at_limit-Creates : (cron : CronTask) (ts : List Task) → Only (Creates Q) (at_limit cron ts)
  unfolding at_limit
  at_limit-Creates cron ts = search (only_rules, call_rules, set_condition-Creates)

  finish-Creates : (cron : CronTask) → Only (Creates Q) (finish cron)
  unfolding finish
  finish-Creates cron = search (only_rules, call_rules)

  suspend-Creates : (cron : CronTask) → Only (Creates Q) (suspend cron)
  unfolding suspend
  suspend-Creates cron = search (only_rules, finish-Creates, set_condition-Creates)

  create_task-Creates :
      (cron : CronTask) (t : ℤ)
      → ((env : Env) → Q env (child_task env.format_int cron t))
      → Only (Creates Q) (create_task cron t)
  unfolding create_task
  create_task-Creates cron t q = Only-bind-library _ _ (λ env.
      Only-bind _ _ (Only-attempt _ (Only-create_task _ (λ _ _. q env)))
        (λ r. search (only_rules, call_rules)))

  launch-Creates :
      (cron : CronTask) (t next_time : ℤ)
      → ((env : Env) → Q env (child_task env.format_int cron t))
      → Only (Creates Q) (launch cron t next_time)
  unfolding launch
  launch-Creates cron t next_time q =
      search (only_rules, create_task-Creates cron t q, finish_until-Creates)

  launch_beside-Creates :
      (p : ConcurrencyPolicy) (cron : CronTask) (active : List Task) (t next_time : ℤ)
      → (p ≢ forbid → (env : Env) → Q env (child_task env.format_int cron t))
      → Only (Creates Q) (launch_beside p cron active t next_time)
  unfolding launch_beside
  launch_beside-Creates forbid cron active t next_time q =
      search (only_rules, call_rules, finish_until-Creates)
  launch_beside-Creates replace cron active t next_time q =
      Only-then _ _ (stop_tasks-Creates active)
        (Only-then _ _ (search call_rules) (launch-Creates cron t next_time (q (λ e. cc))))
  launch_beside-Creates allow cron active t next_time q =
      launch-Creates cron t next_time (q (λ e. cc))

-- What has to hold for a scheduled run to create the Task of the activation `t`.
pub record MayLaunch (cron : CronTask) (next : ℤ → ℤ) (children : List Task) (n t : ℤ)
    : Type 0 where
  pub not_suspended : is_suspended cron ≡ false
  pub is_due : (get_most_recent_schedule_time cron next n).0 ≡ some t
  pub few_missed : (get_most_recent_schedule_time cron next n).1 ≤ max_missed_schedules
  pub in_time : is_past_deadline cron t n ≡ false
  pub has_room : is_at_retained_limit cron children ≡ false
  pub alone : cron.spec.concurrency_policy ≡ forbid → length (active_tasks children) ≡ 0

-- The created Task is the child of such an activation.
abbrev pub LaunchedBy : CronTask → (ℤ → ℤ) → List Task → ℤ → Env → Task → Type 0
LaunchedBy cron next children n env task =
    (t : ℤ) × (task ≡ child_task env.format_int cron t) × MayLaunch cron next children n t

module _ (cron : CronTask) (next : ℤ → ℤ) (children : List Task) (n : ℤ)
    (awake : is_suspended cron ≡ false) where
  launch_unless_active-launches :
      (t next_time : ℤ)
      → ((cron.spec.concurrency_policy ≡ forbid → length (active_tasks children) ≡ 0)
          → MayLaunch cron next children n t)
      → Only
          (Creates (LaunchedBy cron next children n))
          (launch_unless_active cron (active_tasks children) t next_time)
  unfolding launch_unless_active
  launch_unless_active-launches t next_time may =
      Only-if (ltb 0 (length (active_tasks children))) _ _
        (λ some_active.
          launch_beside-Creates _ cron _ t next_time
            (λ unforbidden env. (t, refl, may (λ e. absurd (unforbidden e)))))
        (λ none_active. launch-Creates cron t next_time (λ env. (t, refl, may (λ e. ground arith))))

  due-launches :
      (t next_time : ℤ) (missed : ℕ)
      → get_most_recent_schedule_time cron next n ≡ (some t, missed)
      → Only (Creates (LaunchedBy cron next children n)) (due cron children n t missed next_time)
  unfolding due
  due-launches t next_time missed recent =
      Only-if _ _ _ (λ _. search (only_rules, call_rules, finish_until-Creates))
        (λ in_time.
          Only-if (ltb max_missed_schedules missed) _ _
            (λ _. search (only_rules, call_rules, finish_until-Creates))
            (λ few.
              Only-if _ _ _ (λ _. at_limit-Creates cron children)
                (λ room. launch_unless_active-launches t next_time (λ alone. record {
                  not_suspended = awake;
                  is_due = ap (λ r. r.0) recent;
                  few_missed = ground arith;
                  in_time = in_time;
                  has_room = room;
                  alone = alone;
                }))))

  schedule-launches :
      Only (Creates (LaunchedBy cron next children n)) (schedule cron next children n (next n))
  unfolding schedule
  schedule-launches =
      Only-on_option _ _ _ (λ _. finish_until-Creates cron _ _ _ _)
        (λ t e.
          due-launches t (next n) _ (λ i. (e i, (get_most_recent_schedule_time cron next n).1)))

dispatch-launches :
    (cron : CronTask) (next : ℤ → ℤ) (children : List Task) (n : ℤ)
    → is_triggered cron ≡ false
    → Only (Creates (LaunchedBy cron next children n)) (dispatch cron next children n)
unfolding dispatch
dispatch-launches cron next children n untriggered = rw untriggered (
    Only-if _ _ _ (λ _. suspend-Creates cron)
      (λ awake. schedule-launches cron next children n awake))

-- Whatever the cluster answers, every Task that a run of an untriggered CronTask creates is the
-- child of the last due activation; and then the CronTask is not suspended, at most 100 activations
-- are due, this one is within the starting deadline, the children leave room under the retention
-- limit, and under Forbid none of them is active.
pub launches_guarded :
    (env : Env) (cron : CronTask) (next : ℤ → ℤ) (children : List Task) (n : ℤ)
    → is_triggered cron ≡ false
    → All (Creates (LaunchedBy cron next children n) env) (dispatch cron next children n env []).1
launches_guarded env cron next children n untriggered =
    Only-All (dispatch-launches cron next children n untriggered) env [] tt
