-- ===== src/Cron/Schedule.antt =====
-- The schedule of a CronTask: parsing, the missed activations, the retention limit
-- (internal/controller/crontask_controller.go).
pub mod Recent
use kubeopencode.Prelude.{
  ℕ, zero, suc, String, Bool, false, Option, none, some, ltb, length, List, [], ◌∷◌, if◌then◌else◌,
}
use kubeopencode.Prelude.Int.{ℤ, ltb_ℤ, leb_ℤ, int32}
use kubeopencode.Prelude.Text.{str_eq}
use kubeopencode.Api.Errors.{wrap, str}
use kubeopencode.Api.Task.{Task}
use kubeopencode.Api.CronTask.{CronTask}
use kubeopencode.Client.{
  E, Schedule, lift, library, attempt, pure, throw, on_result, on_option, ◌>>=◌,
}

-- `MaxMissedSchedules`
abbrev pub max_missed_schedules : ℕ
max_missed_schedules = 100

-- `cronScheduleWithTZ.Next`
unfoldable pub with_time_zone : Schedule → String → ℤ → ℤ
with_time_zone sched loc t = sched (some loc) t

-- The schedule in the named zone.
unfoldable pub parse_in_zone : CronTask → String → E (ℤ → ℤ)
parse_in_zone cron zone = do
  located ← attempt (do load ← library (λ env. env.load_location); lift (load zone))
  on_result located (λ e. throw (wrap "invalid timezone %q: %w" (str zone ∷ []) e))
      (λ _. do
        parse ← library (λ env. env.parse_cron)
        sched ← lift (parse cron.spec.schedule)
        pure (with_time_zone sched zone))

unfoldable pub parse_local : CronTask → E (ℤ → ℤ)
parse_local cron = do
  parse ← library (λ env. env.parse_cron)
  sched ← lift (parse cron.spec.schedule)
  pure (sched none)

-- `parseSchedule`
unfoldable pub parse_schedule : CronTask → E (ℤ → ℤ)
parse_schedule cron =
    on_option cron.spec.time_zone (parse_local cron)
      (λ zone. if str_eq zone "" then parse_local cron else parse_in_zone cron zone)

-- `isAtRetainedLimit`
unfoldable pub is_at_retained_limit : CronTask → List Task → Bool
is_at_retained_limit cron children = elim cron.spec.max_retained_tasks [
  | none ↦ false
  | some max ↦ leb_ℤ max (int32 (length children))
]

-- The `for` loop of `getMostRecentScheduleTime`: `missed` and `recent` as the loop has them, and
-- the instant `t` that it tests next. `none` means that the rounds ran out.
unfoldable pub walk : ℕ → (ℤ → ℤ) → ℤ → ℕ → Option ℤ → ℤ → Option (Option ℤ × ℕ)
walk zero next now missed recent t = none
walk (suc rounds) next now missed recent t =
    let rest = walk rounds next now (suc missed) (some t) (next t) in
    if ltb_ℤ now t
    then some (recent, missed)
    else if ltb max_missed_schedules (suc missed)
    then some (some t, suc missed)
    else rest

-- The later of the creation and the last schedule time.
unfoldable pub earliest_time : CronTask → ℤ
earliest_time cron = elim cron.status.last_schedule_time [
  | none ↦ cron.creation_timestamp
  | some t ↦ t
]

-- `getMostRecentScheduleTime`; `walk_total` shows that 101 rounds are enough.
unfoldable pub get_most_recent_schedule_time : CronTask → (ℤ → ℤ) → ℤ → Option ℤ × ℕ
unfolding walk
get_most_recent_schedule_time cron next now =
    elim (walk 101 next now 0 none (next (earliest_time cron))) [ none ↦ (none, 0) | some r ↦ r ]
