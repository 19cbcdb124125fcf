-- ===== src/Task/Start/Guards.antt =====
-- The guards of a start: what comes before the Pod of a Task is created, and what may follow.
use kubeopencode.Prelude.{
  ◌≡◌, refl, ◌⊎◌, inl, inr, ℕ, zero, suc, true, false, not, ◌&&◌, Option, some, none, arith,
  is_some,
}
use kubeopencode.Api.Errors.{is_conflict, is_already_exists}
use kubeopencode.Api.Agent.{Agent}
use kubeopencode.Api.Task.{Task}
use kubeopencode.Client.{E}
use kubeopencode.Client.Rules.{
  Only, Only-weaken, Only-pure, Only-throw, Only-bind, Only-then, Only-attempt, Only-if,
  Only-on_result, Only-on_option, only_rules,
}
use kubeopencode.Client.Rules.Calls.{
  call_rules, Only-now, Only-update_task_status, Only-update_agent_status, Only-create_pod,
  Only-create_config_map,
}
use kubeopencode.Client.Rules.Fetched.{Only-bind-get_task}
use kubeopencode.Context.Task.{Mounted}
use kubeopencode.Task.Quota.{
  update_or_retry, record_rounds, record_task_start, remove_rounds, remove_task_start,
}
use kubeopencode.Task.Queue.{is_running, capacity_limit}
use kubeopencode.Task.Reads.{
  prune-Reads, check_agent_quota-Reads, check_agent_capacity-Reads, get_agent_for_quota-Reads,
  get_agent_config_with_name-Reads, resolve_template_config-Reads, resolve_system_config-Reads,
  process_all_contexts-Reads,
}
use kubeopencode.Task.Start.{
  resolve_template, resolve_agent, resolve_reference, occupy, occupy_within_quota, occupy_if_free,
  initialize_for, initialize_task, has_label,
}
use kubeopencode.Task.Start.Pod.{
  Reference, roll_back, fail_pod, finish_pod, create_task_pod, record_start, record_and_create,
  store_contexts, prepare_pod, start_pod,
}
use kubeopencode.Task.Start.Steps.{
  Current, StartStep, At, read, read-At, update_task_failed-Step, fail_refreshed-Step,
  record_pod-Step, queue_task-Step, add_label-Step, any_step,
}

module _ (may : Type 0) (task : Task) (ok_to : may) where
  update_or_retry-Step :
      (a : Agent) (again : E (Unit {0}))
      → Only (StartStep may task) again
      → Only (StartStep may task) (update_or_retry a again)
  unfolding update_or_retry
  update_or_retry-Step a again next =
      Only-bind _ _ (Only-attempt _ (Only-update_agent_status _ (λ env r. ok_to))) (λ r.
        Only-on_result r _ _ (λ e. Only-if (is_conflict e) _ _ (λ _. next) (λ _. Only-throw _))
          (λ _. Only-pure _))

  record_rounds-Step :
      (n : ℕ) (a : Agent) (t : Task) → Only (StartStep may task) (record_rounds n a t)
  unfolding record_rounds
  record_rounds-Step zero a t = search only_rules
  record_rounds-Step (suc n) a t = Only-bind _ _ (search call_rules) (λ fresh.
      Only-on_option _ _ _ (λ _. Only-pure _)
        (λ q _. Only-bind _ _ (read may task (prune-Reads _ _)) (λ pruned.
          Only-bind _ _ (Only-now (λ env. tt))
            (λ n'. update_or_retry-Step _ _ (record_rounds-Step n a t)))))

  remove_rounds-Step :
      (n : ℕ) (a : Agent) (t : Task) → Only (StartStep may task) (remove_rounds n a t)
  unfolding remove_rounds
  remove_rounds-Step zero a t = search only_rules
  remove_rounds-Step (suc n) a t =
      Only-bind _ _ (search call_rules)
        (λ fresh. update_or_retry-Step _ _ (remove_rounds-Step n a t))

  record_task_start-Step :
      (a : Agent) (t : Task) → Only (StartStep may task) (record_task_start a t)
  unfolding record_task_start
  record_task_start-Step a t =
      Only-on_option _ _ _ (λ _. Only-pure _) (λ _ _. record_rounds-Step _ a t)

  roll_back-Step : (a : Option Agent) (t : Task) → Only (StartStep may task) (roll_back a t)
  unfolding roll_back remove_task_start
  roll_back-Step a t =
      Only-on_option _ _ _ (λ _. Only-pure _)
        (λ b _.
          Only-then _ _
            (Only-attempt _
              (Only-on_option _ _ _ (λ _. Only-pure _) (λ _ _. remove_rounds-Step _ b t)))
            (Only-pure _))

  -- An action that does not write the current Task.
  aside : {A : Type 0} {m : E A} (t : Task) → Only (StartStep may task) m → Only (At may task t) m
  aside t o = Only-weaken (λ env c h _. h) o

  finish_pod-Step : (t : Task) → Only (At may task t) (finish_pod t)
  unfolding finish_pod
  finish_pod-Step t =
      Only-bind-get_task _ _ (λ env _. tt)
        (λ u.
          Only-weaken (λ env c p h e k. p (Current.again h k e) k)
            (record_pod-Step may task ok_to u t _ (search call_rules)))

  create_task_pod-Step : (t : Task) (a : Option Agent) → Only (At may task t) (create_task_pod t a)
  unfolding create_task_pod fail_pod
  create_task_pod-Step t a =
      Only-bind _ _ (Only-attempt _ (Only-create_pod _ (λ env r k. (ok_to, (t, k, refl))))) (λ r.
        Only-on_result r _ _
          (λ e.
            Only-then _ _ (read-At may task t (search call_rules))
              (Only-then _ _ (aside t (roll_back-Step a t)) (fail_refreshed-Step may task t _ e)))
          (λ _. finish_pod-Step t))

  record_start-Step : (t : Task) (r : Reference) → Only (At may task t) (record_start t r)
  unfolding record_start
  record_start-Step t r =
      Only-bind _ _ (Only-attempt _ (read-At may task t (get_agent_for_quota-Reads _ _))) (λ found.
        Only-on_result found _ _ (λ e. fail_refreshed-Step may task t _ _)
          (λ a. Only-bind _ _ (Only-attempt _ (aside t (record_task_start-Step a t))) (λ s.
            Only-on_result s _ _ (λ e. fail_refreshed-Step may task t _ _)
              (λ _. create_task_pod-Step t (some a)))))

  record_and_create-Step : (t : Task) (r : Reference) → Only (At may task t) (record_and_create t r)
  unfolding record_and_create
  record_and_create-Step t r =
      Only-bind _ _ (read-At may task t resolve_system_config-Reads) (λ sys.
        Only-if (not r.is_template && is_some r.cfg.quota) _ _ (λ _. record_start-Step t r)
          (λ _. create_task_pod-Step t none))

  store_contexts-Step :
      (t : Task) (r : Reference) (m : Mounted) → Only (At may task t) (store_contexts t r m)
  unfolding store_contexts
  store_contexts-Step t r m =
      Only-on_option _ _ _ (λ _. record_and_create-Step t r)
        (λ cm _. Only-bind _ _ (Only-attempt _ (Only-create_config_map _ (λ env s _. ok_to))) (λ c.
          Only-on_result c _ _
            (λ e.
              Only-if (is_already_exists e) _ _ (λ _. record_and_create-Step t r)
                (λ _. fail_refreshed-Step may task t _ e))
            (λ _. record_and_create-Step t r)))

  start_pod-Step : (t : Task) (r : Reference) → Only (At may task t) (start_pod t r)
  unfolding start_pod prepare_pod
  start_pod-Step t r =
      Only-bind _ _ (Only-attempt _ (read-At may task t (search call_rules))) (λ existing.
        Only-on_result existing _ _
          (λ e.
            Only-bind _ _ (Only-attempt _ (read-At may task t (process_all_contexts-Reads t r.cfg)))
              (λ m.
                Only-on_result m _ _ (fail_refreshed-Step may task t _) (store_contexts-Step t r)))
          (λ _.
            Only-weaken (λ env c p k. p k k)
              (record_pod-Step may task ok_to t t _ (search only_rules))))

  occupy-Step : (r : Reference) → Only (StartStep may task) (occupy task r)
  unfolding occupy
  occupy-Step r =
      Only-if (is_running task) _ _
        (λ runs. Only-weaken (λ env c p. p (Current.given runs)) (start_pod-Step task r))
        (λ waits. Only-bind _ _ (search call_rules) (λ n.
          Only-bind _ _
            (Only-attempt _
              (Only-update_task_status _ (λ env s. inr (inl ((refl, waits, refl, refl), ok_to)))))
            (λ s.
              Only-on_result s _ _ (λ e. search only_rules)
                (λ _.
                  Only-bind-get_task _ _ (λ env. tt)
                    (λ u.
                      Only-weaken (λ env c p h e. p (Current.first h e)) (start_pod-Step u r))))))

  occupy_within_quota-Step :
      (r : Reference) → Only (StartStep may task) (occupy_within_quota task r)
  unfolding occupy_within_quota
  occupy_within_quota-Step r =
      Only-on_option _ _ _ (λ _. occupy-Step r)
        (λ q _. Only-bind _ _ (read may task (get_agent_for_quota-Reads _ _)) (λ a.
          Only-bind _ _ (read may task (check_agent_quota-Reads a)) (λ (has, delay).
            Only-if has _ _ (λ _. occupy-Step r) (λ _. queue_task-Step may task _ _ _ _ _ _ _))))

-- The Task's reference is a template, or an Agent that is not suspended and whose server is ready.
abbrev pub IsOpen : Reference → Type 0
IsOpen r = (r.is_template ≡ true) ⊎ ((r.cfg.suspend ≡ false) × (r.cfg.server_ready ≡ true))

occupy_if_free-Step :
    (task : Task) (r : Reference) → Only (StartStep (IsOpen r) task) (occupy_if_free task r)
unfolding occupy_if_free
occupy_if_free-Step task r =
    Only-if r.cfg.suspend _ _ (λ _. queue_task-Step _ task _ _ _ _ _ _ _)
      (λ s.
        Only-if (not r.cfg.server_ready) _ _ (λ _. queue_task-Step _ task _ _ _ _ _ _ _)
          (λ u.
            let opened : IsOpen r = inr (s, ground arith) in
            Only-on_option (capacity_limit r.cfg) _ _
              (λ _. occupy_within_quota-Step _ task opened r)
              (λ max _. Only-bind _ _ (read _ task (check_agent_capacity-Reads _ _ max)) (λ has.
                Only-if has _ _ (λ _. occupy_within_quota-Step _ task opened r)
                  (λ _. queue_task-Step _ task _ _ _ _ _ _ _)))))

-- Whatever the answers, the start of a Task with the reference `r` writes a status only in four
-- ways, with the metadata and the spec unchanged: the Task is queued; it takes its place, if it was not
-- running; an answer of the API server for the Task (or the given Task, if it was running) gets the
-- name of its Pod and no other change; or such an answer, or the given Task, fails with a completion
-- time. The second and the third, the creation of its Pod, which is named after such an answer, and
-- of a ConfigMap, and every status of an Agent are written only if `r` is a template, or an Agent
-- that is not suspended and whose server is ready. Its label may be written. Every other call is a
-- read or an event.
pub initialize_for-StartStep :
    (task : Task) (r : Reference) → Only (StartStep (IsOpen r) task) (initialize_for task r)
unfolding initialize_for
initialize_for-StartStep task r =
    Only-if (not (has_label task r)) _ _ (λ _. add_label-Step _ task r)
      (λ _.
        Only-if r.is_template _ _ (λ t. occupy-Step _ task (inl t) r)
          (λ _. occupy_if_free-Step task r))

resolve_reference-Reads : (task : Task) → Only (StartStep Unit task) (resolve_reference task)
unfolding resolve_reference resolve_template resolve_agent
resolve_reference-Reads task =
    Only-if (is_some task.spec.template_ref) _ _
      (λ _.
        Only-bind _ _ (read Unit task (resolve_template_config-Reads task))
          (λ r. search only_rules))
      (λ _.
        Only-bind _ _ (read Unit task (get_agent_config_with_name-Reads task)) (λ r.
          Only-bind _ _ (read Unit task resolve_system_config-Reads) (λ s. search only_rules)))

-- Whatever a new Task refers to, its start makes no other writes.
pub initialize_task-Step : (task : Task) → Only (StartStep Unit task) (initialize_task task)
unfolding initialize_task
initialize_task-Step task = Only-bind _ _ (Only-attempt _ (resolve_reference-Reads task)) (λ r.
    Only-on_result r _ _ (update_task_failed-Step Unit task _) (λ f.
      Only-weaken (λ env c. any_step (IsOpen f) task env c) (initialize_for-StartStep task f)))
