-- ===== src/Task/Queue/Leave.antt =====
-- What a queued Task becomes (internal/controller/task_controller.go).
use kubeopencode.Prelude.{◌≡◌, ◌⊎◌, inl, inr, refl, String, true, false, not, ◌&&◌, is_some, arith}
use kubeopencode.Prelude.Int.{ℤ}
use kubeopencode.Api.Errors.{Error, Message}
use kubeopencode.Api.Agent.{QuotaConfig}
use kubeopencode.Api.Task.{Task, unset}
use kubeopencode.Client.{E, Env, Call}
use kubeopencode.Client.Rules.{
  Only, Only-weaken, Only-bind, Only-then, Only-if, Only-on_option, Only-on_result, Only-attempt,
  only_rules,
}
use kubeopencode.Client.Rules.Calls.{call_rules, Only-update_task_status}
use kubeopencode.Config.{AgentConfig}
use kubeopencode.Task.Status.{is_task_finished, is_task_stopped_by_user}
use kubeopencode.Client.Rules.Reads.{Reads}
use kubeopencode.Task.Reads.{
  check_agent_quota-Reads, check_agent_capacity-Reads, get_agent_config_with_name-Reads,
}
use kubeopencode.Task.Stop.{update_task_failed}
use kubeopencode.Task.Queue.{
  leave_queue, wait_for_quota, leave_within_quota, handle_queued_for, stop_queued, fail_queued,
  handle_queued_task, get_agent_for_quota, capacity_limit,
}

-- A status update of a queued Task: it goes back to the empty phase, for which `may` holds, or it
-- ends with a completion time, or its phase stays. Its metadata and spec are not changed. Every
-- other call is a read or an event.
abbrev pub QueueStep : Type 0 → Task → Env → Call → Type 0
QueueStep may task env (Call.update_task_status t r) =
    (t.meta ≡ task.meta)
    × (t.spec ≡ task.spec)
    × (((t.status.phase ≡ unset) × may)
        ⊎ (((is_task_finished t.status.phase ≡ true) × (is_some t.status.completion_time ≡ true))
            ⊎ (t.status.phase ≡ task.status.phase)))
QueueStep may task env c = Reads env c

read_step :
    (may : Type 0) (task : Task) (env : Env) (c : Call) → Reads env c → QueueStep may task env c
read_step may task env (Call.update_task_status t r) h = elim h [ ]
read_step may task env _ h = h

module _ (may : Type 0) (task : Task) where
  leave_queue-QueueStep :
      (reason : String) (message : Message)
      → may
      → Only (QueueStep may task) (leave_queue task reason message)
  unfolding leave_queue
  leave_queue-QueueStep reason message m = Only-bind _ _ (search call_rules) (λ conditions.
      Only-then _ _ (Only-update_task_status _ (λ env r. (refl, refl, inl (refl, m))))
        (search only_rules))

  wait_for_quota-QueueStep :
      (name : String) (quota : QuotaConfig) (delay : ℤ)
      → Only (QueueStep may task) (wait_for_quota task name quota delay)
  unfolding wait_for_quota
  wait_for_quota-QueueStep name quota delay = Only-bind _ _ (search call_rules) (λ conditions.
      Only-then _ _ (Only-update_task_status _ (λ env r. (refl, refl, inr (inr refl))))
        (search only_rules))

  stop_queued-QueueStep : Only (QueueStep may task) (stop_queued task)
  unfolding stop_queued is_task_finished
  stop_queued-QueueStep = Only-bind _ _ (search call_rules) (λ n.
      Only-bind _ _ (search call_rules) (λ conditions.
        Only-then _ _ (Only-update_task_status _ (λ env r. (refl, refl, inr (inl (refl, refl)))))
          (search only_rules)))

  fail_queued-QueueStep : (e : Error) → Only (QueueStep may task) (fail_queued task e)
  unfolding fail_queued is_task_finished
  fail_queued-QueueStep e = Only-bind _ _ (search call_rules) (λ n.
      Only-bind _ _ (search call_rules) (λ conditions.
        Only-then _ _ (Only-update_task_status _ (λ env r. (refl, refl, inr (inl (refl, refl)))))
          (search only_rules)))

  update_task_failed-QueueStep :
      (reason : String) (e : Error) → Only (QueueStep may task) (update_task_failed task reason e)
  unfolding update_task_failed is_task_finished
  update_task_failed-QueueStep reason e = Only-bind _ _ (search call_rules) (λ n.
      Only-bind _ _ (search call_rules) (λ conditions.
        Only-bind _ _
          (Only-attempt _
            (Only-update_task_status _ (λ env r. (refl, refl, inr (inl (refl, refl))))))
          (λ r. search only_rules)))

  read : {A : Type 0} {m : E A} → Only Reads m → Only (QueueStep may task) m
  read o = Only-weaken (λ env c. read_step may task env c) o

  leave_within_quota-QueueStep :
      (cfg : AgentConfig) (name : String)
      → may
      → Only (QueueStep may task) (leave_within_quota task cfg name)
  unfolding leave_within_quota get_agent_for_quota
  leave_within_quota-QueueStep cfg name m =
      Only-on_option _ _ _ (λ _. leave_queue-QueueStep _ _ m)
        (λ q _. Only-bind _ _ (search call_rules) (λ a.
          Only-bind _ _ (read (check_agent_quota-Reads a)) (λ (has, delay).
            Only-if has _ _ (λ _. leave_queue-QueueStep _ _ m)
              (λ _. wait_for_quota-QueueStep _ _ _))))

  handle_queued_for-QueueStep :
      (cfg : AgentConfig) (name : String)
      → (cfg.suspend ≡ false → cfg.server_ready ≡ true → may)
      → Only (QueueStep may task) (handle_queued_for task cfg name)
  unfolding handle_queued_for
  handle_queued_for-QueueStep cfg name m =
      Only-if cfg.suspend _ _ (λ _. search only_rules)
        (λ s.
          Only-if (not cfg.server_ready) _ _ (λ _. search only_rules)
            (λ r.
              let may_go = m s (ground arith) in
              Only-if (not (is_some (capacity_limit cfg)) && not (is_some cfg.quota)) _ _
                (λ _. leave_queue-QueueStep _ _ may_go)
                (λ _.
                  Only-on_option _ _ _ (λ _. leave_within_quota-QueueStep cfg name may_go)
                    (λ max _. Only-bind _ _ (read (check_agent_capacity-Reads _ _ max)) (λ has.
                      Only-if has _ _ (λ _. leave_within_quota-QueueStep cfg name may_go)
                        (λ _. search only_rules))))))

-- A queued Task whose Agent was found is written with the empty phase, from which it is
-- initialized, only if the Agent is not suspended and its server is ready; every other write is a
-- status of the Task that ends it or keeps its phase, and every other call a read or an event.
pub leaves_for_ready_agent :
    (task : Task) (cfg : AgentConfig) (name : String)
    → Only
        (QueueStep ((cfg.suspend ≡ false) × (cfg.server_ready ≡ true)) task)
        (handle_queued_for task cfg name)
leaves_for_ready_agent task cfg name = handle_queued_for-QueueStep _ task cfg name (λ s r. (s, r))

-- Whatever the answers, handling a queued Task writes only its status, in which it goes back to
-- the empty phase, ends with a completion time, or keeps its phase, with its metadata and spec
-- unchanged. Every other call is a read or an event.
pub queued_steps : (task : Task) → Only (QueueStep Unit task) (handle_queued_task task)
unfolding handle_queued_task
queued_steps task =
    Only-if (is_task_stopped_by_user task) _ _ (λ _. stop_queued-QueueStep Unit task)
      (λ _.
        Only-on_option _ _ _ (λ _. update_task_failed-QueueStep Unit task _ _)
          (λ _ _.
            Only-bind _ _ (Only-attempt _ (read Unit task (get_agent_config_with_name-Reads task)))
              (λ r.
                Only-on_result r _ _ (fail_queued-QueueStep Unit task)
                  (λ (cfg, name). handle_queued_for-QueueStep Unit task cfg name (λ _ _. tt)))))
