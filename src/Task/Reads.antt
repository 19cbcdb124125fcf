-- ===== src/Task/Reads.antt =====
-- The parts of the Task controller that only read the cluster (internal/controller/
-- task_controller.go, pod_builder.go).
use kubeopencode.Prelude.{String, List, [], ◌∷◌}
use kubeopencode.Prelude.Int.{ℤ}
use kubeopencode.Api.Agent.{Agent, QuotaConfig, TaskStartRecord}
use kubeopencode.Api.Task.{Task}
use kubeopencode.Client.Rules.{Only, Only-bind, Only-attempt, Only-on_option, only_rules}
use kubeopencode.Client.Rules.Calls.{call_rules}
use kubeopencode.Client.Rules.Reads.{Reads}
use kubeopencode.Config.{AgentConfig, resolve_agent_config_from_template}
use kubeopencode.Config.System.{resolve_system_config}
use kubeopencode.Context.Task.{process_all_contexts}
use kubeopencode.Context.Task.Checked.{process_all_contexts-Only}
use kubeopencode.Task.Status.{is_task_timed_out}
use kubeopencode.Task.Quota.{
  check_agent_quota, check_quota, calculate_quota_requeue_delay, prune_task_start_history,
  delay_of_oldest,
}
use kubeopencode.Task.Queue.{
  check_agent_capacity, get_agent_for_quota, get_agent_config_with_name, get_named_agent_config,
  resolve_template_config,
}

pub prune-Reads : (rs : List TaskStartRecord) (w : _) → Only Reads (prune_task_start_history rs w)
unfolding prune_task_start_history
prune-Reads rs w = search (only_rules, call_rules)

delay_of_oldest-Reads : (rs : List TaskStartRecord) (w : _) → Only Reads (delay_of_oldest rs w)
unfolding delay_of_oldest
delay_of_oldest-Reads [] w = search only_rules
delay_of_oldest-Reads (r ∷ rs) w = search (only_rules, call_rules)

delay-Reads : (rs : List TaskStartRecord) (w : _) → Only Reads (calculate_quota_requeue_delay rs w)
unfolding calculate_quota_requeue_delay
delay-Reads [] w = search only_rules
delay-Reads (r ∷ rs) w = search (only_rules, prune-Reads, delay_of_oldest-Reads)

check_quota-Reads : (rs : List TaskStartRecord) (q : QuotaConfig) → Only Reads (check_quota rs q)
unfolding check_quota
check_quota-Reads rs q = search (only_rules, prune-Reads, delay-Reads)

pub check_agent_quota-Reads : (a : Agent) → Only Reads (check_agent_quota a)
unfolding check_agent_quota
check_agent_quota-Reads a = search (only_rules, check_quota-Reads)

pub check_agent_capacity-Reads :
    (ns name : String) (max : ℤ) → Only Reads (check_agent_capacity ns name max)
unfolding check_agent_capacity
check_agent_capacity-Reads ns name max = search (only_rules, call_rules)

pub get_agent_for_quota-Reads : (name ns : String) → Only Reads (get_agent_for_quota name ns)
unfolding get_agent_for_quota
get_agent_for_quota-Reads name ns = search call_rules

resolve-Reads : (a : Agent) → Only Reads (resolve_agent_config_from_template a)
unfolding resolve_agent_config_from_template
resolve-Reads a =
    Only-on_option _ _ _ (λ _. search only_rules)
      (λ name _. Only-bind _ _ (Only-attempt _ (search call_rules)) (λ r. search only_rules))

named-Reads : (t : Task) (name : String) → Only Reads (get_named_agent_config t name)
unfolding get_named_agent_config
named-Reads t name =
    Only-bind _ _ (Only-attempt _ (search call_rules)) (λ r. search (only_rules, resolve-Reads))

pub get_agent_config_with_name-Reads : (t : Task) → Only Reads (get_agent_config_with_name t)
unfolding get_agent_config_with_name
get_agent_config_with_name-Reads t = search (only_rules, named-Reads)

pub resolve_template_config-Reads : (t : Task) → Only Reads (resolve_template_config t)
unfolding resolve_template_config
resolve_template_config-Reads t =
    Only-on_option _ _ _ (λ _. search only_rules)
      (λ name _. Only-bind _ _ (Only-attempt _ (search call_rules)) (λ r. search only_rules))

pub resolve_system_config-Reads : Only Reads resolve_system_config
unfolding resolve_system_config
resolve_system_config-Reads =
    Only-bind _ _ (Only-attempt _ (search call_rules)) (λ r. search only_rules)

pub process_all_contexts-Reads :
    (t : Task) (cfg : AgentConfig) → Only Reads (process_all_contexts t cfg)
process_all_contexts-Reads t cfg = process_all_contexts-Only t (λ env name. tt) cfg

pub is_task_timed_out-Reads : (t : Task) → Only Reads (is_task_timed_out t)
unfolding is_task_timed_out
is_task_timed_out-Reads t = search (only_rules, call_rules)

pub ruleset reads_rules = (
  check_agent_quota-Reads, check_agent_capacity-Reads, get_agent_for_quota-Reads,
  get_agent_config_with_name-Reads, resolve_template_config-Reads, resolve_system_config-Reads,
  process_all_contexts-Reads, is_task_timed_out-Reads,
)
