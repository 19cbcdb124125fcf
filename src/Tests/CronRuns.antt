-- ===== src/Tests/CronRuns.antt =====
-- Runs of the CronTask controller.
use Prim.Native.Char.{Char}
use text.Mathlib.TextLemmas.{nil≢cons, cons≢nil}
use kubeopencode.Prelude.{
  ℕ, zero, suc, ◌+◌, ◌*◌, String, ap, ◌↔◌, ◌≡◌, refl, Option, none, some, [], ◌∷◌, All, arith,
}
use kubeopencode.Prelude.Int.{ℤ, pos, negsuc, ◌+ℤ◌}
use kubeopencode.Prelude.Sort.{sort_by-Sorts}
use kubeopencode.Api.Task.{Task, completed}
use kubeopencode.Api.Errors.{ok}
use kubeopencode.Api.CronTask.{CronTask, forbid}
use kubeopencode.Cron.Schedule.{get_most_recent_schedule_time, earliest_time}
use kubeopencode.Cron.Schedule.Recent.{IsRecent, get_most_recent_schedule_time-IsRecent}
use kubeopencode.Cron.Children.{child_name, empty_status, update_last_successful_time, or_else}
use kubeopencode.Cron.Children.Naming.{InSecond, child_name-eq_iff}
use kubeopencode.Cron.Children.Successful.{IsLatest, update_last_successful_time-IsLatest}
use kubeopencode.Cron.Reconcile.{dispatch, reconcile_scheduled, is_triggered}
use kubeopencode.Cron.Reconcile.Launches.{Creates, LaunchedBy, launches_guarded}
use kubeopencode.Cron.Reconcile.Stuck.{Frozen, stuck_forever}
use kubeopencode.Tests.Cluster.{cluster, meta_named}

abbrev every_minute : ℤ → ℤ
every_minute t = t +ℤ pos 60000000000

abbrev child : Task
child = record {
  meta = meta_named "nightly-1";
  spec = record {
    description = none;
    contexts = [];
    agent_ref = some "coder";
    template_ref = none;
    timeout = none;
  };
  status = record empty_status { phase = completed; completion_time = some (pos 7) };
}

abbrev nightly : CronTask
nightly = record {
  meta = meta_named "nightly";
  creation_timestamp = pos 0;
  spec = record {
    schedule = "* * * * *";
    time_zone = none;
    concurrency_policy = forbid;
    suspend = none;
    starting_deadline_seconds = none;
    max_retained_tasks = some (pos 10);
    task_template = record { labels = []; annotations = []; spec = child.spec };
  };
  status = record {
    active = pos 0;
    active_refs = [];
    last_schedule_time = none;
    last_successful_time = none;
    next_schedule_time = none;
    total_executions = 0;
    conditions = [];
  };
}

get_most_recent_schedule_time-IsRecent_example :
    IsRecent every_minute
      (pos 150000000000)
      (earliest_time nightly)
      (get_most_recent_schedule_time nightly every_minute (pos 150000000000)).0
      (get_most_recent_schedule_time nightly every_minute (pos 150000000000)).1
get_most_recent_schedule_time-IsRecent_example =
    get_most_recent_schedule_time-IsRecent nightly every_minute (pos 150000000000)

launches_guarded_example :
    All
      (Creates (LaunchedBy nightly every_minute [] (pos 90000000000)) (cluster (pos 90000000000)))
      (dispatch nightly every_minute [] (pos 90000000000) (cluster (pos 90000000000)) []).1
unfolding is_triggered
launches_guarded_example =
    launches_guarded (cluster (pos 90000000000)) nightly every_minute [] (pos 90000000000) refl

-- After two hours without a run, 101 activations have been counted.
two_hours : (get_most_recent_schedule_time nightly every_minute (pos 7200000000000)).1 ≡ 101
unfolding get_most_recent_schedule_time earliest_time ◌+ℤ◌
two_hours = refl

stuck_forever_example :
    All
      (Frozen none (cluster (pos 7200000000000)))
      (reconcile_scheduled nightly every_minute (cluster (pos 7200000000000)) []).1
unfolding is_triggered
stuck_forever_example =
    stuck_forever (cluster (pos 7200000000000)) nightly every_minute (pos 7200000000000) refl
      two_hours (λ h. omega arith)

update_last_successful_time-IsLatest_example :
    (o : Option ℤ) × IsLatest (child ∷ []) o
    × ((update_last_successful_time nightly (child ∷ []) (cluster (pos 9)) []).0
        ≡ ok (record nightly {
          status = record nightly.status { last_successful_time = or_else o none };
        }))
update_last_successful_time-IsLatest_example =
    update_last_successful_time-IsLatest (cluster (pos 9)) [] nightly (child ∷ []) sort_by-Sorts

-- A format that tells all numbers apart: twice the number of strokes, and one more for a negative one.
unary : ℕ → String
unary zero = ""
unary (suc n) = String.◌∷◌ "|" (unary n)

tail_eq : {c d : Char} (s t : String) → String.◌∷◌ c s ≡ String.◌∷◌ d t → s ≡ t
tail_eq s t e = cc

unary-injective : (a b : ℕ) → unary a ≡ unary b → a ≡ b
unfolding unary
unary-injective zero zero e = refl
unary-injective zero (suc b) e = absurd (nil≢cons e)
unary-injective (suc a) zero e = absurd (cons≢nil e)
unary-injective (suc a) (suc b) e = ap (λ n. suc n) (unary-injective a b (tail_eq _ _ e))

abbrev strokes : ℤ → String
strokes (pos n) = unary (2 * n)
strokes (negsuc n) = unary (2 * n + 1)

strokes-injective : (a b : ℤ) → strokes a ≡ strokes b → a ≡ b
strokes-injective (pos a) (pos b) e = ap pos (omega (arith, unary-injective _ _ e))
strokes-injective (pos a) (negsuc b) e = absurd (omega (arith, unary-injective _ _ e))
strokes-injective (negsuc a) (pos b) e = absurd (omega (arith, unary-injective _ _ e))
strokes-injective (negsuc a) (negsuc b) e = ap negsuc (omega (arith, unary-injective _ _ e))

child_name-eq_iff_example :
    (child_name strokes nightly (pos 1000000000) ≡ child_name strokes nightly (pos 1999999999))
    ↔ ((u : ℤ) × InSecond u (pos 1000000000) × InSecond u (pos 1999999999))
child_name-eq_iff_example =
    child_name-eq_iff strokes nightly (pos 1000000000) (pos 1999999999) strokes-injective
