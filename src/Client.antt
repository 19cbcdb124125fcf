-- ===== src/Client.antt =====
-- What the controllers run against: the API server, the clock and the OpenCode server, which answer
-- as they like (`Env`), and the sequence of the calls made so far with their answers, newest first.
-- An answer may depend on every earlier call. A handler is an action of `E`: like a Go function
-- that returns an error, it stops at the first error that it does not look at.
pub mod Calls
pub mod Cases
pub mod Rules
use kubeopencode.Prelude.{ℕ, String, Bool, Option, none, some, List, ◌∷◌}
use kubeopencode.Prelude.Int.{ℤ}
use kubeopencode.Prelude.Text.{Dict}
use kubeopencode.Api.Errors.{Error, Result, ok, err, Arg}
use kubeopencode.Api.Library.{Library}
use kubeopencode.Api.Meta.{Key, ObjectMeta, Condition, Conditions}
use kubeopencode.Api.Agent.{Agent, AgentTemplate, KubeOpenCodeConfigSpec, TaskStartRecord}
use kubeopencode.Api.Task.{Task}
use kubeopencode.Api.CronTask.{CronTask}

-- `ctrl.Result`
pub record Requeue : Type 0 where
  pub requeue : Bool
  pub after : ℤ

abbrev pub no_requeue : Requeue
no_requeue = record { requeue = Bool.false; after = ℤ.pos 0 }

abbrev pub requeue_now : Requeue
requeue_now = record { requeue = Bool.true; after = ℤ.pos 0 }

abbrev pub requeue_after : ℤ → Requeue
requeue_after d = record { requeue = Bool.false; after = d }

-- `corev1.ConfigMap`, as far as the controllers fill it in.
pub record ConfigMap : Type 0 where
  pub meta : ObjectMeta
  pub entries : Dict String

pub data PodPhase : Type 0 where
  pending running succeeded failed unknown : PodPhase

-- `corev1.ContainerStateTerminated` and the name of its container.
pub record Terminated : Type 0 where
  pub exit_code : ℤ
  pub reason : String
  pub message : String

pub record ContainerStatus : Type 0 where
  pub name : String
  pub terminated : Option Terminated

pub record Pod : Type 0 where
  pub meta : ObjectMeta
  pub phase : PodPhase
  pub init_containers : List ContainerStatus
  pub containers : List ContainerStatus

-- One call with its answer. Reads are there too, since time passes and the cluster changes
-- between two of them.
pub data Call : Type 0 where
  now : Call
  get_task get_agent get_template get_pod get_config_map get_cron_task get_deployment get_secret :
      Key → Call
  get_config : Call
  list_tasks : String → Option (String × String) → Call
  update_task update_task_status : Task → Result Task → Call
  update_agent_status patch_agent : Agent → Result Agent → Call
  create_pod : Key → Result (Unit {0}) → Call
  create_config_map : ConfigMap → Result (Unit {0}) → Call
  update_config_map : ConfigMap → Result (Unit {0}) → Call
  delete_config_map : Key → Result (Unit {0}) → Call
  create_secret : Key → String → Result (Unit {0}) → Call
  delete_secret : Key → Result (Unit {0}) → Call
  random_token : Call
  create_task : Task → Result Task → Call
  delete_pod : Pod → Result (Unit {0}) → Call
  delete_task : Task → Result (Unit {0}) → Call
  update_cron_task_status patch_cron_task : CronTask → Result CronTask → Call
  list_sessions list_messages : String → String → Call
  event : String → String → List Arg → Call

abbrev pub History : Type 0
History = List Call

-- What the OpenCode server tells of a session and of a message.
pub record FileSummary : Type 0 where
  pub files : ℤ
  pub additions : ℤ
  pub deletions : ℤ

pub record Session : Type 0 where
  pub id : String
  pub title : String
  pub summary : Option FileSummary
  pub created : ℤ

-- `OpenCodeMessage`, with its cost as the text of the number.
pub record SessionMessage : Type 0 where
  pub role : String
  pub cost : String
  pub input : ℤ
  pub output : ℤ
  pub reasoning : ℤ
  pub cache_read : ℤ
  pub cache_write : ℤ

-- `cron.Schedule`: the next activation after an instant, seen in the named time zone, or in the
-- local one.
abbrev pub Schedule : Type 0
Schedule = Option String → ℤ → ℤ

-- The answers. `list_tasks h ns (some (k, v))` is a list by label; `set_condition` is
-- `meta.SetStatusCondition` and `sort_tasks`, `sort_records` are `sort.Slice` with the `less` of
-- the call; `parse_cron`, `load_location` and `format_int` (`%d`) are library calls too.
-- `remove_condition` is `meta.RemoveStatusCondition`, `find_condition` is
-- `meta.FindStatusCondition`, and `parse_time` is `time.Parse` of RFC 3339.
-- `add_costs` adds the floating-point costs from 0 and prints the sum with `%.6f`. `lib` has the
-- calls of Go's standard library. Of a Deployment, `get_deployment` tells the ready replicas.
-- `update_config_map` writes the labels and the data of a ConfigMap that was read. Of a Secret, the
-- key and the token are kept; `random_token` is `crypto/rand` with the text of the bytes.
pub record Env : Type 0 where
  pub now : History → ℤ
  pub get_task : History → Key → Result Task
  pub get_agent : History → Key → Result Agent
  pub get_template : History → Key → Result AgentTemplate
  pub get_pod : History → Key → Result Pod
  pub get_config_map : History → Key → Result (Dict String)
  pub get_cron_task : History → Key → Result CronTask
  pub get_deployment : History → Key → Result ℤ
  pub get_secret : History → Key → Result (Unit {0})
  pub get_config : History → Result KubeOpenCodeConfigSpec
  pub list_tasks : History → String → Option (String × String) → Result (List Task)
  pub update_task : History → Task → Result Task
  pub update_task_status : History → Task → Result Task
  pub update_agent_status : History → Agent → Result Agent
  pub patch_agent : History → Agent → Result Agent
  pub create_pod : History → Key → Result (Unit {0})
  pub create_config_map : History → ConfigMap → Result (Unit {0})
  pub update_config_map : History → ConfigMap → Result (Unit {0})
  pub delete_config_map : History → Key → Result (Unit {0})
  pub create_secret : History → Key → String → Result (Unit {0})
  pub delete_secret : History → Key → Result (Unit {0})
  pub random_token : History → Result String
  pub create_task : History → Task → Result Task
  pub delete_pod : History → Pod → Result (Unit {0})
  pub delete_task : History → Task → Result (Unit {0})
  pub update_cron_task_status : History → CronTask → Result CronTask
  pub patch_cron_task : History → CronTask → Result CronTask
  pub parse_cron : String → Result Schedule
  pub load_location : String → Result (Unit {0})
  pub format_int : ℤ → String
  pub list_sessions : History → String → String → Result (List Session)
  pub list_messages : History → String → String → Result (List SessionMessage)
  pub add_costs : List String → String
  pub set_condition : Conditions → Condition → Conditions
  pub remove_condition : Conditions → String → Conditions
  pub find_condition : Conditions → String → Option Condition
  pub parse_time : String → Result ℤ
  pub sort_tasks : (Task → Task → Bool) → List Task → List Task
  pub sort_records :
      (TaskStartRecord → TaskStartRecord → Bool) → List TaskStartRecord → List TaskStartRecord
  pub lib : Library

abbrev pub E : Type 0 → Type 0
E A = Env → History → Result A × History

module _ {A : Type 0} where
  unfoldable pub pure : A → E A
  pure a env h = (ok a, h)

  unfoldable pub throw : Error → E A
  throw e env h = (err e, h)

  -- `if err != nil { … }`: the error is looked at.
  unfoldable pub attempt : E A → E (Result A)
  attempt m env h = let (r, h') = m env h in (ok r, h')

  unfoldable pub lift : Result A → E A
  lift r env h = (r, h)

  -- A call that is answered by `answer` and recorded as `note`.
  unfoldable pub call : (Env → History → A) → (A → Call) → E A
  call answer note env h = let r = answer env h in (ok r, note r ∷ h)

  unfoldable pub try_call : (Env → History → Result A) → (Result A → Call) → E A
  try_call answer note env h = let r = answer env h in (r, note r ∷ h)

module _ {A B : Type 0} where
  abbrev pub continue : Result A → (A → E B) → E B
  continue (ok a) f env h = f a env h
  continue (err e) f env h = (err e, h)

  infixl 5 ◌>>=◌ ◌>>◌
  unfoldable pub ◌>>=◌ : E A → (A → E B) → E B
  ◌>>=◌ m f env h = let (r, h') = m env h in continue r f env h'

  unfoldable pub ◌>>◌ : E A → E B → E B
  unfolding ◌>>=◌
  m >> k = m >>= λ _. k

-- The pure library calls of the environment.
unfoldable pub library : {A : Type 0} → (Env → A) → E A
library f env h = (ok (f env), h)

-- The two branches after an `err` or a `nil` that the code looks at.
unfoldable pub on_result : {A B : Type 0} → Result A → (Error → E B) → (A → E B) → E B
on_result (ok a) fails holds = holds a
on_result (err e) fails holds = fails e

unfoldable pub on_option : {A B : Type 0} → Option A → E B → (A → E B) → E B
on_option none absent present = absent
on_option (some a) absent present = present a
