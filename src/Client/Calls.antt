-- ===== src/Client/Calls.antt =====
-- The single calls of the API server, the clock and the event recorder, as actions.
use kubeopencode.Prelude.{String, Option, List}
use kubeopencode.Prelude.Int.{ℤ, ◌-ℤ◌}
use kubeopencode.Prelude.Text.{Dict}
use kubeopencode.Api.Errors.{Arg}
use kubeopencode.Api.Meta.{Key, Condition, Conditions}
use kubeopencode.Api.Agent.{Agent, AgentTemplate, KubeOpenCodeConfigSpec}
use kubeopencode.Api.Task.{Task}
use kubeopencode.Api.CronTask.{CronTask}
use kubeopencode.Client.{
  E, Call, ConfigMap, Pod, Session, SessionMessage, call, try_call, library, pure, ◌>>=◌,
}

-- `time.Now()`
unfoldable pub now : E ℤ
now = call (λ env. env.now) (λ _. Call.now)

-- `time.Until(t)` and `time.Since(t)`
unfoldable pub until : ℤ → E ℤ
until t = do n ← now; pure (t -ℤ n)

unfoldable pub since : ℤ → E ℤ
since t = do n ← now; pure (n -ℤ t)

unfoldable pub get_task : Key → E Task
get_task k = try_call (λ env h. env.get_task h k) (λ _. Call.get_task k)

unfoldable pub get_agent : Key → E Agent
get_agent k = try_call (λ env h. env.get_agent h k) (λ _. Call.get_agent k)

unfoldable pub get_template : Key → E AgentTemplate
get_template k = try_call (λ env h. env.get_template h k) (λ _. Call.get_template k)

unfoldable pub get_pod : Key → E Pod
get_pod k = try_call (λ env h. env.get_pod h k) (λ _. Call.get_pod k)

unfoldable pub get_config_map : Key → E (Dict String)
get_config_map k = try_call (λ env h. env.get_config_map h k) (λ _. Call.get_config_map k)

unfoldable pub get_cron_task : Key → E CronTask
get_cron_task k = try_call (λ env h. env.get_cron_task h k) (λ _. Call.get_cron_task k)

unfoldable pub get_deployment : Key → E ℤ
get_deployment k = try_call (λ env h. env.get_deployment h k) (λ _. Call.get_deployment k)

unfoldable pub get_secret : Key → E (Unit {0})
get_secret k = try_call (λ env h. env.get_secret h k) (λ _. Call.get_secret k)

unfoldable pub random_token : E String
random_token = try_call (λ env h. env.random_token h) (λ _. Call.random_token)

unfoldable pub create_secret : Key → String → E (Unit {0})
create_secret k t = try_call (λ env h. env.create_secret h k t) (Call.create_secret k t)

unfoldable pub delete_secret : Key → E (Unit {0})
delete_secret k = try_call (λ env h. env.delete_secret h k) (Call.delete_secret k)

unfoldable pub get_config : E KubeOpenCodeConfigSpec
get_config = try_call (λ env h. env.get_config h) (λ _. Call.get_config)

unfoldable pub list_tasks : String → Option (String × String) → E (List Task)
list_tasks ns l = try_call (λ env h. env.list_tasks h ns l) (λ _. Call.list_tasks ns l)

unfoldable pub update_task : Task → E Task
update_task t = try_call (λ env h. env.update_task h t) (Call.update_task t)

unfoldable pub update_task_status : Task → E Task
update_task_status t = try_call (λ env h. env.update_task_status h t) (Call.update_task_status t)

unfoldable pub update_agent_status : Agent → E Agent
update_agent_status a = try_call (λ env h. env.update_agent_status h a) (Call.update_agent_status a)

unfoldable pub patch_agent : Agent → E Agent
patch_agent a = try_call (λ env h. env.patch_agent h a) (Call.patch_agent a)

unfoldable pub create_pod : Key → E (Unit {0})
create_pod k = try_call (λ env h. env.create_pod h k) (Call.create_pod k)

unfoldable pub create_config_map : ConfigMap → E (Unit {0})
create_config_map c = try_call (λ env h. env.create_config_map h c) (Call.create_config_map c)

unfoldable pub update_config_map : ConfigMap → E (Unit {0})
update_config_map c = try_call (λ env h. env.update_config_map h c) (Call.update_config_map c)

unfoldable pub delete_config_map : Key → E (Unit {0})
delete_config_map k = try_call (λ env h. env.delete_config_map h k) (Call.delete_config_map k)

unfoldable pub create_task : Task → E Task
create_task t = try_call (λ env h. env.create_task h t) (Call.create_task t)

unfoldable pub delete_pod : Pod → E (Unit {0})
delete_pod p = try_call (λ env h. env.delete_pod h p) (Call.delete_pod p)

unfoldable pub delete_task : Task → E (Unit {0})
delete_task t = try_call (λ env h. env.delete_task h t) (Call.delete_task t)

unfoldable pub update_cron_task_status : CronTask → E CronTask
update_cron_task_status c =
    try_call (λ env h. env.update_cron_task_status h c) (Call.update_cron_task_status c)

unfoldable pub patch_cron_task : CronTask → E CronTask
patch_cron_task c = try_call (λ env h. env.patch_cron_task h c) (Call.patch_cron_task c)

unfoldable pub list_sessions : String → String → E (List Session)
list_sessions url title =
    try_call (λ env h. env.list_sessions h url title) (λ _. Call.list_sessions url title)

unfoldable pub list_messages : String → String → E (List SessionMessage)
list_messages url id =
    try_call (λ env h. env.list_messages h url id) (λ _. Call.list_messages url id)

-- `Recorder.Eventf`, with its reason, its format and its arguments.
unfoldable pub event : String → String → List Arg → E (Unit {0})
event reason format args = call (λ _ _. tt) (λ _. Call.event reason format args)

-- `meta.SetStatusCondition`
unfoldable pub with_condition : Conditions → Condition → E Conditions
with_condition cs c = library (λ env. env.set_condition cs c)
