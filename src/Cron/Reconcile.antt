-- ===== src/Cron/Reconcile.antt =====
-- `Reconcile` of the CronTask controller (internal/controller/crontask_controller.go), cut into
-- the parts between its early returns.
pub mod Launches
pub mod Stuck
use kubeopencode.Prelude.{
  ℕ, ◌+◌, ◌*◌, String, Bool, true, false, none, some, List, [], ◌∷◌, ltb, length, map,
  if◌then◌else◌,
}
use kubeopencode.Prelude.Int.{ℤ, pos, ◌+ℤ◌, ltb_ℤ, int32, int64}
use kubeopencode.Prelude.Text.{str_eq, get_or_empty, remove}
use kubeopencode.Api.Errors.{Error, Arg, hide, str, num, Message, text, error_text, is_not_found}
use kubeopencode.Api.Meta.{Key}
use kubeopencode.Api.Task.{Task}
use kubeopencode.Api.CronTask.{CronTask, ConcurrencyPolicy, allow, forbid, replace}
use kubeopencode.Client.{
  E, Requeue, no_requeue, requeue_after, attempt, pure, throw, on_result, on_option, ◌>>=◌, ◌>>◌,
}
use kubeopencode.Client.Calls.{
  now, until, get_cron_task, update_cron_task_status, patch_cron_task, event,
}
use kubeopencode.Cron.Schedule.{
  max_missed_schedules, parse_schedule, is_at_retained_limit, get_most_recent_schedule_time,
}
use kubeopencode.Cron.Children.{
  list_child_tasks, finished_tasks, active_tasks, reference_of, update_last_successful_time,
  create_task, stop_tasks, set_condition,
}

abbrev pub trigger_annotation : String
trigger_annotation = "kubeopencode.io/trigger"

-- Sets the Ready condition, writes the status and asks to be called again at `next_time`.
unfoldable pub finish_until : CronTask → ℤ → Bool → String → Message → E Requeue
finish_until cron next_time status reason message = do
  conditioned ← set_condition cron status reason message
  update_cron_task_status conditioned
  d ← until next_time
  pure (requeue_after d)

-- Creates the scheduled Task and records it.
unfoldable pub launch : CronTask → ℤ → ℤ → E Requeue
launch cron t next_time = do
  created ← create_task cron t
  let total = if created then cron.status.total_executions + 1 else cron.status.total_executions
  let launched = record cron {
    status = record cron.status { last_schedule_time = some t; total_executions = total };
  }
  finish_until launched next_time true "Scheduled" (text "Task created successfully" [])

-- The `switch` on the concurrency policy, where a Task is active.
unfoldable pub launch_beside : ConcurrencyPolicy → CronTask → List Task → ℤ → ℤ → E Requeue
launch_beside forbid cron active t next_time = do
  event "TaskStillActive"
      "Skipping scheduled Task creation: %d active Task(s) (concurrencyPolicy: Forbid)"
      (num (pos (length active)) ∷ [])
  finish_until cron next_time true "ActiveTaskExists"
      (text "Skipped due to concurrencyPolicy Forbid" [])
launch_beside replace cron active t next_time = do
  stop_tasks active
  event "ReplacedTasks" "Stopped %d active Task(s) for replacement (concurrencyPolicy: Replace)"
      (num (pos (length active)) ∷ [])
  launch cron t next_time
launch_beside allow cron active t next_time = launch cron t next_time

unfoldable pub launch_unless_active : CronTask → List Task → ℤ → ℤ → E Requeue
launch_unless_active cron active t next_time =
    if ltb 0 (length active)
    then launch_beside cron.spec.concurrency_policy cron active t next_time
    else launch cron t next_time

-- `time.Duration(*StartingDeadlineSeconds) * time.Second` wraps as an `int64`.
unfoldable pub is_past_deadline : CronTask → ℤ → ℤ → Bool
is_past_deadline cron t n = elim cron.spec.starting_deadline_seconds [
  | none ↦ false
  | some s ↦ ltb_ℤ (t +ℤ int64 (s * 1000000000)) n
]

-- The limit and the deadline among an event's arguments, where they are set.
abbrev pub limit_arg : CronTask → List Arg
limit_arg cron = elim cron.spec.max_retained_tasks [ none ↦ [] | some m ↦ num m ∷ [] ]

abbrev pub deadline_arg : CronTask → List Arg
deadline_arg cron = elim cron.spec.starting_deadline_seconds [
  | none ↦ []
  | some s ↦ num (pos s) ∷ []
]

unfoldable pub at_limit : CronTask → List Task → E Requeue
at_limit cron children = do
  event "MaxRetainedTasksReached"
      "Cannot create Task: %d child Tasks exist (max: %d). Configure global cleanup or delete old Tasks."
      (num (pos (length children)) ∷ limit_arg cron)
  conditioned ← set_condition cron false "MaxRetainedTasksReached" (
      text "Cannot create Tasks: %d/%d retained Tasks"
        (num (pos (length children)) ∷ limit_arg cron))
  update_cron_task_status conditioned
  pure (requeue_after (pos 30000000000))

-- An activation `t` is due: the deadline, the missed activations, the limit, the policy.
unfoldable pub due : CronTask → List Task → ℤ → ℤ → ℕ → ℤ → E Requeue
due cron children n t missed next_time =
    if is_past_deadline cron t n
    then (do
      event "MissedDeadline" "Missed starting deadline for schedule at %s (deadline: %ds)"
          (num t ∷ deadline_arg cron)
      finish_until cron next_time true "MissedDeadline"
          (text "Missed starting deadline, waiting for next schedule" []))
    else if ltb max_missed_schedules missed
    then (do
      event "TooManyMissed" "Missed %d schedules, resetting to next future schedule"
          (num (pos missed) ∷ [])
      finish_until cron next_time true "Scheduled"
          (text "Reset after too many missed schedules" []))
    else if is_at_retained_limit cron children
    then at_limit cron children
    else launch_unless_active cron (active_tasks children) t next_time

unfoldable pub schedule : CronTask → (ℤ → ℤ) → List Task → ℤ → ℤ → E Requeue
schedule cron next children n next_time =
    let (recent, missed) = get_most_recent_schedule_time cron next n in
    on_option recent
      (finish_until cron next_time true "Scheduled" (text "Waiting for next schedule" []))
      (λ t. due cron children n t missed next_time)

unfoldable pub finish : CronTask → E Requeue
finish cron = do update_cron_task_status cron; pure no_requeue

-- The manual trigger, after its annotation is removed. The patch's answer replaces the object.
unfoldable pub trigger_now : CronTask → List Task → ℤ → E Requeue
trigger_now cron children n =
    if is_at_retained_limit cron children
    then (do
      event "MaxRetainedTasksReached"
          "Cannot trigger: %d child Tasks exist (max: %d). Configure global cleanup or delete old Tasks."
          (num (pos (length children)) ∷ limit_arg cron)
      finish cron)
    else (do
      created ← create_task cron n
      if created
          then (do
            event "Triggered" "Manually triggered Task creation" []
            finish (record cron {
              status = record cron.status {
                last_schedule_time = some n;
                total_executions = cron.status.total_executions + 1;
              };
            }))
          else finish cron)

unfoldable pub trigger : CronTask → List Task → ℤ → E Requeue
trigger cron children n = do
  patched ← patch_cron_task (record cron {
    meta = record cron.meta { annotations = remove trigger_annotation cron.meta.annotations };
  })
  trigger_now patched children n

unfoldable pub suspend : CronTask → E Requeue
suspend cron = do
  conditioned ← set_condition cron false "Suspended" (text "CronTask is suspended" [])
  finish (record conditioned { status = record conditioned.status { next_schedule_time = none } })

-- The part of the status that every run writes: the next activation and the active Tasks.
unfoldable pub observe : CronTask → List Task → ℤ → CronTask
observe cron active next_time = record cron {
  status = record cron.status {
    next_schedule_time = some next_time;
    active = int32 (length active);
    active_refs = map reference_of active;
  };
}

unfoldable pub is_suspended : CronTask → Bool
is_suspended cron = elim cron.spec.suspend [ none ↦ false | some b ↦ b ]

unfoldable pub is_triggered : CronTask → Bool
is_triggered cron = str_eq (get_or_empty trigger_annotation cron.meta.annotations) "true"

unfoldable pub dispatch : CronTask → (ℤ → ℤ) → List Task → ℤ → E Requeue
dispatch cron next children n =
    if is_suspended cron
    then suspend cron
    else if is_triggered cron
    then trigger cron children n
    else schedule cron next children n (next n)

unfoldable pub reconcile_scheduled : CronTask → (ℤ → ℤ) → E Requeue
reconcile_scheduled cron next = do
  children ← list_child_tasks cron
  cron' ← update_last_successful_time cron (finished_tasks children)
  n ← now
  dispatch (observe cron' (active_tasks children) (next n)) next children n

unfoldable pub invalid_schedule : CronTask → Error → E Requeue
invalid_schedule cron e = do
  conditioned ←
      set_condition cron false "InvalidSchedule"
        (error_text (hide "Invalid cron schedule: %v" [] e))
  attempt (update_cron_task_status conditioned)
  pure no_requeue

unfoldable pub reconcile_cron_task : CronTask → E Requeue
reconcile_cron_task cron = do
  parsed ← attempt (parse_schedule cron)
  on_result parsed (λ e. invalid_schedule cron e) (λ next. reconcile_scheduled cron next)

-- `Reconcile`
unfoldable pub reconcile : Key → E Requeue
reconcile key = do
  got ← attempt (get_cron_task key)
  on_result got (λ e. if is_not_found e then pure no_requeue else throw e)
      (λ cron. reconcile_cron_task cron)
