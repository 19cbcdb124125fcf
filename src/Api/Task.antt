-- ===== src/Api/Task.antt =====
-- api/v1alpha1/task_types.go. Instants and durations are nanoseconds.
use kubeopencode.Prelude.{ℕ, String, Option, List}
use kubeopencode.Prelude.Int.{ℤ}
use kubeopencode.Api.Meta.{ObjectMeta, Conditions}
use kubeopencode.Api.Context.{ContextItem}

-- `unset` is the empty phase of a new Task.
pub data TaskPhase : Type 0 where
  unset pending queued running completed failed : TaskPhase

pub Phase-discrete : Discrete TaskPhase
Phase-discrete = hlevel

pub record TaskSpec : Type 0 where
  pub description : Option String
  pub contexts : List ContextItem
  pub agent_ref : Option String
  pub template_ref : Option String
  pub timeout : Option ℤ

pub record TokenUsage : Type 0 where
  pub input : ℤ
  pub output : ℤ
  pub reasoning : ℤ
  pub cache : ℤ

pub record SessionSummary : Type 0 where
  pub message_count : ℤ
  pub token_usage : Option TokenUsage
  pub cost : String
  pub files_changed : ℤ
  pub additions : ℤ
  pub deletions : ℤ

pub record SessionInfo : Type 0 where
  pub id : String
  pub title : String
  pub summary : Option SessionSummary

pub record TaskStatus : Type 0 where
  pub observed_generation : ℕ
  pub phase : TaskPhase
  pub agent_ref : Option String
  pub template_ref : Option String
  pub pod_name : String
  pub session : Option SessionInfo
  pub start_time : Option ℤ
  pub completion_time : Option ℤ
  pub conditions : Conditions

pub record Task : Type 0 where
  pub meta : ObjectMeta
  pub spec : TaskSpec
  pub status : TaskStatus
