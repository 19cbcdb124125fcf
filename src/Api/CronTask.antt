-- ===== src/Api/CronTask.antt =====
-- api/v1alpha1/crontask_types.go. The deadline is a natural number: the schema refuses a negative
-- one.
use kubeopencode.Prelude.{ℕ, String, Bool, Option, List}
use kubeopencode.Prelude.Int.{ℤ}
use kubeopencode.Prelude.Text.{Dict}
use kubeopencode.Api.Meta.{ObjectMeta, Conditions}
use kubeopencode.Api.Task.{TaskSpec}

pub data ConcurrencyPolicy : Type 0 where
  allow forbid replace : ConcurrencyPolicy

pub record TaskTemplate : Type 0 where
  pub labels : Dict String
  pub annotations : Dict String
  pub spec : TaskSpec

pub record CronTaskSpec : Type 0 where
  pub schedule : String
  pub time_zone : Option String
  pub concurrency_policy : ConcurrencyPolicy
  pub suspend : Option Bool
  pub starting_deadline_seconds : Option ℕ
  pub max_retained_tasks : Option ℤ
  pub task_template : TaskTemplate

-- `corev1.ObjectReference`
pub record TaskReference : Type 0 where
  pub kind : String
  pub name : String
  pub namespace : String
  pub uid : String

pub record CronTaskStatus : Type 0 where
  pub active : ℤ
  pub active_refs : List TaskReference
  pub last_schedule_time : Option ℤ
  pub last_successful_time : Option ℤ
  pub next_schedule_time : Option ℤ
  pub total_executions : ℕ
  pub conditions : Conditions

pub record CronTask : Type 0 where
  pub meta : ObjectMeta
  pub creation_timestamp : ℤ
  pub spec : CronTaskSpec
  pub status : CronTaskStatus
