-- ===== src/Task/Start/Steps.antt =====
-- What the start of a Task writes, and for which Agents.
use kubeopencode.Prelude.{◌≡◌, refl, ◌⊎◌, inl, inr, String, true, false, List, is_some}
use kubeopencode.Prelude.Int.{ℤ}
use kubeopencode.Api.Errors.{Error, Arg, Message, ok}
use kubeopencode.Api.Meta.{key_of}
use kubeopencode.Api.Task.{Task, running, queued, failed}
use kubeopencode.Client.{E, Env, Call, History, ◌>>=◌}
use kubeopencode.Client.Calls.{get_task}
use kubeopencode.Client.Rules.Fetched.{Only-bind-get_task}
use kubeopencode.Client.Rules.{
  Only, Only-weaken, Only-pure, Only-bind, Only-then, Only-attempt, Only-on_result, only_rules,
}
use kubeopencode.Client.Rules.Calls.{
  call_rules, Only-now, Only-update_task, Only-update_task_status,
}
use kubeopencode.Task.Queue.{is_running}
use kubeopencode.Client.Rules.Reads.{Reads}
use kubeopencode.Task.Stop.{update_task_failed}
use kubeopencode.Task.Start.{add_label, queue_task}
use kubeopencode.Task.Start.Pod.{
  Reference, with_pod_name, pod_name_of, new_pod_key, fail_refreshed, record_pod,
}

-- The Task as its start knows it: the given one, if it is running already, or what the API server
-- answers when it is asked for the given Task, or again for such an answer.
pub data Current (env : Env) (task : Task) : Task → Type 0 where
  given : is_running task ≡ true → Current env task task
  first : {u : Task} (h : History) → env.get_task h (key_of task.meta) ≡ ok u → Current env task u
  again :
      {t u : Task} (h : History)
      → Current env task t
      → env.get_task h (key_of t.meta) ≡ ok u
      → Current env task u

-- The writes of a start. The Task waits in the queue:
abbrev pub IsQueued : Task → Task → Type 0
IsQueued task t = (t.status.phase ≡ queued) × (t.meta ≡ task.meta) × (t.spec ≡ task.spec)

-- it takes its place:
abbrev pub IsPlaced : Task → Task → Type 0
IsPlaced task t =
    (t.status.phase ≡ running)
    × (is_running task ≡ false)
    × (t.meta ≡ task.meta)
    × (t.spec ≡ task.spec)

-- the current Task gets the name of its Pod, and nothing else of it changes:
abbrev pub IsNamed : Env → Task → Task → Type 0
IsNamed env task t =
    (u : Task) × (v : Task) × Current env task u
    × Current env task v
    × (t ≡ with_pod_name u (pod_name_of v))

-- the given or the current Task fails:
abbrev pub IsFailed : Env → Task → Task → Type 0
IsFailed env task t =
    (t.status.phase ≡ failed)
    × (is_some t.status.completion_time ≡ true)
    × ((u : Task) × ((u ≡ task) ⊎ Current env task u) × (t.meta ≡ u.meta) × (t.spec ≡ u.spec))

-- Its status is written in these four ways, the second and the third only if `may` holds; its label
-- is written; and, only if `may` holds, its Pod is created, a ConfigMap is created and the Agent's
-- status is written. Every other call is a read or an event.
abbrev pub StartStep : Type 0 → Task → Env → Call → Type 0
StartStep may task env (Call.update_task_status t r) =
    IsQueued task t ⊎ ((IsPlaced task t × may) ⊎ ((IsNamed env task t × may) ⊎ IsFailed env task t))
StartStep may task env (Call.update_task t r) = (t.spec ≡ task.spec) × (t.status ≡ task.status)
StartStep may task env (Call.create_pod k r) =
    may × ((u : Task) × Current env task u × (k ≡ new_pod_key u))
StartStep may task env (Call.create_config_map c r) = may
StartStep may task env (Call.update_agent_status a r) = may
StartStep may task env c = Reads env c

read_step :
    (may : Type 0) (task : Task) (env : Env) (c : Call) → Reads env c → StartStep may task env c
read_step may task env (Call.update_task t r) h = elim h [ ]
read_step may task env (Call.update_task_status t r) h = elim h [ ]
read_step may task env (Call.update_agent_status a r) h = elim h [ ]
read_step may task env (Call.create_pod k r) h = elim h [ ]
read_step may task env (Call.create_config_map c r) h = elim h [ ]
read_step may task env _ h = h

-- The same, where `t` is the current Task.
abbrev pub At : Type 0 → Task → Task → Env → Call → Type 0
At may task t env c = Current env task t → StartStep may task env c

module _ (may : Type 0) (task : Task) where
  pub read : {A : Type 0} {m : E A} → Only Reads m → Only (StartStep may task) m
  read o = Only-weaken (λ env c. read_step may task env c) o

  pub read-At : {A : Type 0} {m : E A} (t : Task) → Only Reads m → Only (At may task t) m
  read-At t o = Only-weaken (λ env c h _. read_step may task env c h) o

  -- What follows a new look at the current Task.
  pub refetch :
      {A : Type 0} (t : Task) (f : Task → E A)
      → ((u : Task) → Only (At may task u) (f u))
      → Only (At may task t) (get_task (key_of t.meta) >>= f)
  refetch t f next =
      Only-bind-get_task _ f (λ env _. tt)
        (λ u. Only-weaken (λ env c p h e k. p (Current.again h k e)) (next u))

  failed-Step :
      (t : Task) (reason : String) (e : Error)
      → Only
          (λ env c. ((t ≡ task) ⊎ Current env task t) → StartStep may task env c)
          (update_task_failed t reason e)
  unfolding update_task_failed
  failed-Step t reason e = Only-bind _ _ (Only-now (λ env _. tt)) (λ n.
      Only-bind _ _ (search call_rules) (λ conditions.
        Only-bind _ _
          (Only-attempt _ (
            Only-update_task_status _
              (λ env r k. inr (inr (inr (refl, refl, (t, k, refl, refl)))))))
          (λ r. search only_rules)))

  pub update_task_failed-Step :
      (reason : String) (e : Error) → Only (StartStep may task) (update_task_failed task reason e)
  update_task_failed-Step reason e =
      Only-weaken (λ env c p. p (inl refl)) (failed-Step task reason e)

  pub fail_refreshed-Step :
      (t : Task) (reason : String) (e : Error) → Only (At may task t) (fail_refreshed t reason e)
  unfolding fail_refreshed
  fail_refreshed-Step t reason e =
      refetch t _ (λ u. Only-weaken (λ env c p k. p (inr k)) (failed-Step u reason e))

  -- `u` gets the name of the Pod of `v`.
  pub record_pod-Step :
      (ok_to : may) (u v : Task) (announce : E (Unit {0}))
      → Only Reads announce
      → Only
          (λ env c. Current env task u → Current env task v → StartStep may task env c)
          (record_pod u (pod_name_of v) announce)
  unfolding record_pod
  record_pod-Step ok_to u v announce quiet =
      Only-bind _ _
        (Only-attempt _
          (Only-update_task_status _ (λ env r k l. inr (inr (inl ((u, v, k, l, refl), ok_to))))))
        (λ r.
          Only-on_result r _ _ (λ e. search only_rules)
            (λ _.
              Only-then _ _ (Only-weaken (λ env c h _ _. read_step may task env c h) quiet)
                (Only-pure _)))

  pub queue_task-Step :
      (name reason : String) (m : Message) (d : ℤ) (er f : String) (args : List Arg)
      → Only (StartStep may task) (queue_task task name reason m d er f args)
  unfolding queue_task
  queue_task-Step name reason m d er f args = Only-then _ _ (search call_rules) (
      Only-bind _ _ (search call_rules) (λ conditions.
        Only-then _ _ (Only-update_task_status _ (λ env r. inl (refl, refl, refl)))
          (search only_rules)))

  pub add_label-Step : (r : Reference) → Only (StartStep may task) (add_label task r)
  unfolding add_label
  add_label-Step r = Only-then _ _ (Only-update_task _ (λ env s. (refl, refl))) (search only_rules)

-- Without the guard.
pub any_step :
    (may : Type 0) (task : Task) (env : Env) (c : Call)
    → StartStep may task env c
    → StartStep Unit task env c
any_step may task env (Call.update_task_status t r) (inl h) = inl h
any_step may task env (Call.update_task_status t r) (inr (inl (p, m))) = inr (inl (p, tt))
any_step may task env (Call.update_task_status t r) (inr (inr (inl (n, m)))) =
    inr (inr (inl (n, tt)))
any_step may task env (Call.update_task_status t r) (inr (inr (inr h))) = inr (inr (inr h))
any_step may task env (Call.create_pod k r) (m, h) = (tt, h)
any_step may task env (Call.create_config_map c r) h = tt
any_step may task env (Call.update_agent_status a r) h = tt
any_step may task env _ h = h
