-- ===== src/Task/Start/Once.antt =====
-- The start of a Task creates at most one Pod.
use kubeopencode.Prelude.{◌+◌, String, not, ◌&&◌, Option, none, some, is_some, arith}
use kubeopencode.Prelude.Int.{ℤ}
use kubeopencode.Api.Errors.{is_already_exists}
use kubeopencode.Api.Agent.{Agent}
use kubeopencode.Api.Task.{Task}
use kubeopencode.Client.{E, try_call}
use kubeopencode.Client.Calls.{create_pod}
use kubeopencode.Client.Rules.{Only-bind, Only-then, Only-attempt, Only-if, only_rules}
use kubeopencode.Client.Rules.Calls.{call_rules}
use kubeopencode.Client.Rules.Counts.{
  Within, Within-none, Within-weaken, Within-attempt, Within-if, Within-bind, Within-after,
  Within-on_result, Within-on_option,
}
use kubeopencode.Context.Task.{Mounted}
use kubeopencode.Task.Queue.{is_running}
use kubeopencode.Task.Reads.{
  check_agent_quota-Reads, check_agent_capacity-Reads, get_agent_for_quota-Reads,
  get_agent_config_with_name-Reads, resolve_template_config-Reads, resolve_system_config-Reads,
  process_all_contexts-Reads,
}
use kubeopencode.Task.Start.{
  resolve_template, resolve_agent, resolve_reference, add_label, queue_task, occupy,
  occupy_within_quota, occupy_if_free, initialize_for, initialize_task, has_label,
}
use kubeopencode.Task.Start.Pod.{
  Reference, create_task_pod, record_start, record_and_create, store_contexts, prepare_pod,
  start_pod,
}
use kubeopencode.Task.Start.Other.{
  is_create_pod, NoPod, other, read, failed-Other, refreshed-Other, record_task_start-Other,
  fail_pod-Other, record_pod-Other, finish_pod-Other,
}

-- The one call.
create_pod-Within : (k : _) → Within is_create_pod 1 (create_pod k)
unfolding create_pod try_call
create_pod-Within k = record { at = λ env h. omega arith }

create_task_pod-Within :
    (t : Task) (a : Option Agent) → Within is_create_pod 1 (create_task_pod t a)
unfolding create_task_pod
create_task_pod-Within t a = Within-weaken (1 + 0) 1 (omega arith) (
    Within-bind _ _ (Within-attempt _ (create_pod-Within _)) (λ r.
      Within-on_result r _ _ (λ e. Within-none (other (fail_pod-Other t a e)))
        (λ _. Within-none (other (finish_pod-Other t)))))

-- Where nothing is created.
never : {A : Type 0} {m : E A} → NoPod m → Within is_create_pod 1 m
never o = Within-weaken 0 1 (omega arith) (Within-none o)

record_start-Within : (t : Task) (r : Reference) → Within is_create_pod 1 (record_start t r)
unfolding record_start
record_start-Within t r =
    Within-after _ _ (Only-attempt _ (read (get_agent_for_quota-Reads _ _))) (λ found.
      Within-on_result found _ _ (λ e. never (other (refreshed-Other t _ _)))
        (λ a. Within-after _ _ (Only-attempt _ (other (record_task_start-Other a t))) (λ s.
          Within-on_result s _ _ (λ e. never (other (refreshed-Other t _ _)))
            (λ _. create_task_pod-Within t (some a)))))

record_and_create-Within :
    (t : Task) (r : Reference) → Within is_create_pod 1 (record_and_create t r)
unfolding record_and_create
record_and_create-Within t r = Within-after _ _ (read resolve_system_config-Reads) (λ sys.
    Within-if (not r.is_template && is_some r.cfg.quota) _ _ (record_start-Within t r)
      (create_task_pod-Within t none))

store_contexts-Within :
    (t : Task) (r : Reference) (m : Mounted) → Within is_create_pod 1 (store_contexts t r m)
unfolding store_contexts
store_contexts-Within t r m = Within-on_option _ _ _ (record_and_create-Within t r) (λ cm.
    Within-after _ _ (Only-attempt _ (other (search call_rules))) (λ c.
      Within-on_result c _ _
        (λ e.
          Within-if (is_already_exists e) _ _ (record_and_create-Within t r)
            (never (other (refreshed-Other t _ e))))
        (λ _. record_and_create-Within t r)))

start_pod-Within : (t : Task) (r : Reference) → Within is_create_pod 1 (start_pod t r)
unfolding start_pod prepare_pod
start_pod-Within t r = Within-after _ _ (Only-attempt _ (other (search call_rules))) (λ existing.
    Within-on_result existing _ _
      (λ e. Within-after _ _ (Only-attempt _ (read (process_all_contexts-Reads t r.cfg))) (λ m.
        Within-on_result m _ _ (λ x. never (other (refreshed-Other t _ x)))
          (store_contexts-Within t r)))
      (λ _. never (other (record_pod-Other t _ _ (search only_rules)))))

occupy-Within : (t : Task) (r : Reference) → Within is_create_pod 1 (occupy t r)
unfolding occupy
occupy-Within t r = Within-if (is_running t) _ _ (start_pod-Within t r) (
    Within-after _ _ (other (search call_rules)) (λ n.
      Within-after _ _ (Only-attempt _ (other (search call_rules))) (λ s.
        Within-on_result s _ _ (λ e. never (other (search only_rules)))
          (λ _. Within-after _ _ (other (search call_rules)) (λ fresh. start_pod-Within fresh r)))))

queue_task-NoPod :
    (t : Task) (name reason : String) (m : _) (d : ℤ) (er f : String) (args : _)
    → Within is_create_pod 1 (queue_task t name reason m d er f args)
unfolding queue_task
queue_task-NoPod t name reason m d er f args = never (
    other (
      Only-then _ _ (search call_rules)
        (Only-bind _ _ (search call_rules) (λ cs. search (only_rules, call_rules)))))

occupy_within_quota-Within :
    (t : Task) (r : Reference) → Within is_create_pod 1 (occupy_within_quota t r)
unfolding occupy_within_quota
occupy_within_quota-Within t r = Within-on_option _ _ _ (occupy-Within t r) (λ q.
    Within-after _ _ (read (get_agent_for_quota-Reads _ _)) (λ a.
      Within-after _ _ (read (check_agent_quota-Reads a))
        (λ (has, delay). Within-if has _ _ (occupy-Within t r) (queue_task-NoPod t _ _ _ _ _ _ _))))

occupy_if_free-Within : (t : Task) (r : Reference) → Within is_create_pod 1 (occupy_if_free t r)
unfolding occupy_if_free
occupy_if_free-Within t r = Within-if r.cfg.suspend _ _ (queue_task-NoPod t _ _ _ _ _ _ _) (
    Within-if (not r.cfg.server_ready) _ _ (queue_task-NoPod t _ _ _ _ _ _ _) (
      Within-on_option _ _ _ (occupy_within_quota-Within t r) (λ max.
        Within-after _ _ (read (check_agent_capacity-Reads _ _ max)) (λ has.
          Within-if has _ _ (occupy_within_quota-Within t r) (queue_task-NoPod t _ _ _ _ _ _ _)))))

resolve_reference-NoPod : (t : Task) → NoPod (resolve_reference t)
unfolding resolve_reference resolve_template resolve_agent
resolve_reference-NoPod t =
    Only-if (is_some t.spec.template_ref) _ _
      (λ _. Only-bind _ _ (read (resolve_template_config-Reads t)) (λ r. search only_rules))
      (λ _.
        Only-bind _ _ (read (get_agent_config_with_name-Reads t))
          (λ r. Only-bind _ _ (read resolve_system_config-Reads) (λ s. search only_rules)))

-- Whatever the answers, and whatever was called before, the start of a Task makes at most one call
-- that creates a Pod.
pub initialize_task-Within : (task : Task) → Within is_create_pod 1 (initialize_task task)
unfolding initialize_task initialize_for add_label
initialize_task-Within task =
    Within-after _ _ (Only-attempt _ (resolve_reference-NoPod task)) (λ resolved.
      Within-on_result resolved _ _ (λ e. never (other (failed-Other task _ e)))
        (λ r.
          Within-if (not (has_label task r)) _ _ (never (other (search (only_rules, call_rules))))
            (Within-if r.is_template _ _ (occupy-Within task r) (occupy_if_free-Within task r))))
