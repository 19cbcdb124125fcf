-- ===== src/Client/Rules/Calls.antt =====
-- One rule for each single call: what it calls satisfies `P` if the call does.
use kubeopencode.Prelude.{String, Option, List}
use kubeopencode.Prelude.Int.{ℤ}
use kubeopencode.Api.Errors.{Result, Arg}
use kubeopencode.Api.Meta.{Key, Condition, Conditions}
use kubeopencode.Api.Agent.{Agent}
use kubeopencode.Api.Task.{Task}
use kubeopencode.Api.CronTask.{CronTask}
use kubeopencode.Client.{Env, Call, ConfigMap, Pod}
use kubeopencode.Client.Calls.{
  now, until, since, get_task, get_agent, get_template, get_pod, get_config_map, get_cron_task,
  get_deployment, update_config_map, delete_config_map, get_secret, random_token, create_secret,
  delete_secret, get_config, list_tasks, list_sessions, list_messages, event, update_task,
  update_task_status, update_agent_status, patch_agent, create_pod, create_config_map, create_task,
  delete_pod, delete_task, update_cron_task_status, patch_cron_task, with_condition,
}
use kubeopencode.Client.Rules.{Only, Only-bind, Only-pure, Only-call, Only-try_call, Only-library}

module _ {P : Env → Call → Type 0} where
  pub Only-now : ((env : Env) → P env (Call.now)) → Only P now
  unfolding now
  Only-now p = Only-call _ _ (λ env _. p env)

  pub Only-until : (t : ℤ) → ((env : Env) → P env (Call.now)) → Only P (until t)
  unfolding until
  Only-until t p = Only-bind now _ (Only-now p) (λ _. Only-pure _)

  pub Only-since : (t : ℤ) → ((env : Env) → P env (Call.now)) → Only P (since t)
  unfolding since
  Only-since t p = Only-bind now _ (Only-now p) (λ _. Only-pure _)

  pub Only-get_task : (k : Key) → ((env : Env) → P env (Call.get_task k)) → Only P (get_task k)
  unfolding get_task
  Only-get_task k p = Only-try_call _ _ (λ env _. p env)

  pub Only-get_agent : (k : Key) → ((env : Env) → P env (Call.get_agent k)) → Only P (get_agent k)
  unfolding get_agent
  Only-get_agent k p = Only-try_call _ _ (λ env _. p env)

  pub Only-get_template :
      (k : Key) → ((env : Env) → P env (Call.get_template k)) → Only P (get_template k)
  unfolding get_template
  Only-get_template k p = Only-try_call _ _ (λ env _. p env)

  pub Only-get_pod : (k : Key) → ((env : Env) → P env (Call.get_pod k)) → Only P (get_pod k)
  unfolding get_pod
  Only-get_pod k p = Only-try_call _ _ (λ env _. p env)

  pub Only-get_config_map :
      (k : Key) → ((env : Env) → P env (Call.get_config_map k)) → Only P (get_config_map k)
  unfolding get_config_map
  Only-get_config_map k p = Only-try_call _ _ (λ env _. p env)

  pub Only-get_cron_task :
      (k : Key) → ((env : Env) → P env (Call.get_cron_task k)) → Only P (get_cron_task k)
  unfolding get_cron_task
  Only-get_cron_task k p = Only-try_call _ _ (λ env _. p env)

  pub Only-get_deployment :
      (k : Key) → ((env : Env) → P env (Call.get_deployment k)) → Only P (get_deployment k)
  unfolding get_deployment
  Only-get_deployment k p = Only-try_call _ _ (λ env _. p env)

  pub Only-update_config_map :
      (c : ConfigMap)
      → ((env : Env) (r : Result (Unit {0})) → P env (Call.update_config_map c r))
      → Only P (update_config_map c)
  unfolding update_config_map
  Only-update_config_map c p = Only-try_call _ _ p

  pub Only-delete_config_map :
      (k : Key)
      → ((env : Env) (r : Result (Unit {0})) → P env (Call.delete_config_map k r))
      → Only P (delete_config_map k)
  unfolding delete_config_map
  Only-delete_config_map k p = Only-try_call _ _ p

  pub Only-get_secret :
      (k : Key) → ((env : Env) → P env (Call.get_secret k)) → Only P (get_secret k)
  unfolding get_secret
  Only-get_secret k p = Only-try_call _ _ (λ env _. p env)

  pub Only-random_token : ((env : Env) → P env Call.random_token) → Only P random_token
  unfolding random_token
  Only-random_token p = Only-try_call _ _ (λ env _. p env)

  pub Only-create_secret :
      (k : Key) (t : String)
      → ((env : Env) (r : Result (Unit {0})) → P env (Call.create_secret k t r))
      → Only P (create_secret k t)
  unfolding create_secret
  Only-create_secret k t p = Only-try_call _ _ p

  pub Only-delete_secret :
      (k : Key)
      → ((env : Env) (r : Result (Unit {0})) → P env (Call.delete_secret k r))
      → Only P (delete_secret k)
  unfolding delete_secret
  Only-delete_secret k p = Only-try_call _ _ p

  pub Only-get_config : ((env : Env) → P env (Call.get_config)) → Only P get_config
  unfolding get_config
  Only-get_config p = Only-try_call _ _ (λ env _. p env)

  pub Only-list_tasks :
      (ns : String) (l : Option (String × String))
      → ((env : Env) → P env (Call.list_tasks ns l))
      → Only P (list_tasks ns l)
  unfolding list_tasks
  Only-list_tasks ns l p = Only-try_call _ _ (λ env _. p env)

  pub Only-list_sessions :
      (url title : String)
      → ((env : Env) → P env (Call.list_sessions url title))
      → Only P (list_sessions url title)
  unfolding list_sessions
  Only-list_sessions url title p = Only-try_call _ _ (λ env _. p env)

  pub Only-list_messages :
      (url id : String)
      → ((env : Env) → P env (Call.list_messages url id))
      → Only P (list_messages url id)
  unfolding list_messages
  Only-list_messages url id p = Only-try_call _ _ (λ env _. p env)

  pub Only-event :
      (reason format : String) (args : List Arg)
      → ((env : Env) → P env (Call.event reason format args))
      → Only P (event reason format args)
  unfolding event
  Only-event reason format args p = Only-call _ _ (λ env _. p env)

  pub Only-update_task :
      (t : Task)
      → ((env : Env) (r : Result Task) → P env (Call.update_task t r))
      → Only P (update_task t)
  unfolding update_task
  Only-update_task t p = Only-try_call _ _ p

  pub Only-update_task_status :
      (t : Task)
      → ((env : Env) (r : Result Task) → P env (Call.update_task_status t r))
      → Only P (update_task_status t)
  unfolding update_task_status
  Only-update_task_status t p = Only-try_call _ _ p

  pub Only-update_agent_status :
      (a : Agent)
      → ((env : Env) (r : Result Agent) → P env (Call.update_agent_status a r))
      → Only P (update_agent_status a)
  unfolding update_agent_status
  Only-update_agent_status a p = Only-try_call _ _ p

  pub Only-patch_agent :
      (a : Agent)
      → ((env : Env) (r : Result Agent) → P env (Call.patch_agent a r))
      → Only P (patch_agent a)
  unfolding patch_agent
  Only-patch_agent a p = Only-try_call _ _ p

  pub Only-create_pod :
      (k : Key)
      → ((env : Env) (r : Result (Unit {0})) → P env (Call.create_pod k r))
      → Only P (create_pod k)
  unfolding create_pod
  Only-create_pod k p = Only-try_call _ _ p

  pub Only-create_config_map :
      (c : ConfigMap)
      → ((env : Env) (r : Result (Unit {0})) → P env (Call.create_config_map c r))
      → Only P (create_config_map c)
  unfolding create_config_map
  Only-create_config_map c p = Only-try_call _ _ p

  pub Only-create_task :
      (t : Task)
      → ((env : Env) (r : Result Task) → P env (Call.create_task t r))
      → Only P (create_task t)
  unfolding create_task
  Only-create_task t p = Only-try_call _ _ p

  pub Only-delete_pod :
      (pod : Pod)
      → ((env : Env) (r : Result (Unit {0})) → P env (Call.delete_pod pod r))
      → Only P (delete_pod pod)
  unfolding delete_pod
  Only-delete_pod pod p = Only-try_call _ _ p

  pub Only-delete_task :
      (t : Task)
      → ((env : Env) (r : Result (Unit {0})) → P env (Call.delete_task t r))
      → Only P (delete_task t)
  unfolding delete_task
  Only-delete_task t p = Only-try_call _ _ p

  pub Only-update_cron_task_status :
      (c : CronTask)
      → ((env : Env) (r : Result CronTask) → P env (Call.update_cron_task_status c r))
      → Only P (update_cron_task_status c)
  unfolding update_cron_task_status
  Only-update_cron_task_status c p = Only-try_call _ _ p

  pub Only-patch_cron_task :
      (c : CronTask)
      → ((env : Env) (r : Result CronTask) → P env (Call.patch_cron_task c r))
      → Only P (patch_cron_task c)
  unfolding patch_cron_task
  Only-patch_cron_task c p = Only-try_call _ _ p

  pub Only-with_condition : (cs : Conditions) (c : Condition) → Only P (with_condition cs c)
  unfolding with_condition
  Only-with_condition cs c = Only-library _

pub ruleset call_rules = (
  Only-now, Only-until, Only-since, Only-get_task, Only-get_agent, Only-get_template, Only-get_pod,
  Only-get_config_map, Only-get_cron_task, Only-get_config, Only-list_tasks, Only-list_sessions,
  Only-list_messages, Only-event, Only-update_task, Only-update_task_status,
  Only-update_agent_status, Only-patch_agent, Only-create_pod, Only-create_config_map,
  Only-create_task, Only-delete_pod, Only-delete_task, Only-update_cron_task_status,
  Only-patch_cron_task, Only-with_condition, Only-get_deployment, Only-update_config_map,
  Only-delete_config_map, Only-get_secret, Only-random_token, Only-create_secret,
  Only-delete_secret,
)
