-- ===== src/Tests/TaskRuns.antt =====
-- Runs of queued, stopped and finished Tasks, and merges of configurations.
use kubeopencode.Prelude.{
  ◌≡◌, refl, String, true, false, ◌&&◌, ◌==◌, none, some, [], ◌∷◌, All, is_none, ◌<◌, ◌≤◌, count_by,
  arith,
}
use kubeopencode.Prelude.Int.{ℤ, pos}
use kubeopencode.Api.Errors.{ok, err, other}
use kubeopencode.Api.Agent.{Agent, AgentTemplate}
use kubeopencode.Api.Task.{Task, running, completed, failed}
use kubeopencode.Client.{Env, Call, Pod, PodPhase, Session, requeue_after}
use kubeopencode.Client.Rules.{Only}
use kubeopencode.Client.Rules.Answers.{Answers}
use kubeopencode.Task.Queue.Resolved.{FromAgent, FromTemplate, resolved_configs}
use kubeopencode.Task.Queue.{get_agent_config_with_name, resolve_template_config}
use kubeopencode.Config.{
  AgentConfig, resolve_agent_config, resolve_template_to_config, merge_agent_with_template,
  first_non_nil,
}
use kubeopencode.Config.Merge.{empty_spec, merge_with_empty_template, merge_of_empty_agent}
use kubeopencode.Task.Mounts.{FileMount, validate_mount_path_conflicts}
use kubeopencode.Prelude.Text.{distinct}
use kubeopencode.Task.Mounts.Distinct.{is_ok, validate-distinct}
use kubeopencode.Task.Sessions.{latest_titled}
use kubeopencode.Task.Sessions.Latest.{IsLatestTitled, latest_titled-IsLatest}
use kubeopencode.Task.Stop.{pod_key, handle_stop, handle_timeout, update_task_failed}
use kubeopencode.Task.Stop.Order.{
  Ends, Completes, endings, stop_waits_for_deletion, stop_may_leave_pod,
}
use kubeopencode.Task.Pods.{follow_pod, get_pod_failure_detail}
use kubeopencode.Task.Pods.Sync.{
  Follows, has_failed, follow_pod-Follows, get_pod_failure_detail-none,
}
use kubeopencode.Task.Queue.{
  handle_queued_for, handle_queued_task, default_queued_requeue_delay, agent_label_key,
  capacity_limit,
}
use kubeopencode.Task.Queue.Leave.{QueueStep, leaves_for_ready_agent, queued_steps}
use kubeopencode.Task.Queue.Stay.{Leaves, places_taken, admits_below_limit, template_quota_ignored}
use kubeopencode.Tests.Cluster.{cluster, meta_named, bare_spec, coder, two_per_minute, fix_it}

abbrev pod : Pod
pod = record {
  meta = meta_named "fix-it-pod";
  phase = PodPhase.failed;
  init_containers = [];
  containers =
      record {
        name = "agent";
        terminated = some (record { exit_code = pos 137; reason = "OOMKilled"; message = "" });
      }
      ∷ [];
}

abbrev at_work : Task
at_work = record fix_it {
  status = record fix_it.status { phase = running; pod_name = "fix-it-pod" };
}

-- One Task at a time.
abbrev one_at_a_time : AgentConfig
one_at_a_time = record (resolve_agent_config coder) { max_concurrent_tasks = some (pos 1) }

queued_steps_example : Only (QueueStep Unit fix_it) (handle_queued_task fix_it)
queued_steps_example = queued_steps fix_it

leaves_for_ready_agent_example :
    Only
      (QueueStep ((one_at_a_time.suspend ≡ false) × (one_at_a_time.server_ready ≡ true)) fix_it)
      (handle_queued_for fix_it one_at_a_time "coder")
leaves_for_ready_agent_example = leaves_for_ready_agent fix_it one_at_a_time "coder"

-- The one Task is running.
abbrev occupied : Env
occupied = record (cluster (pos 0)) { list_tasks = λ _ _ _. ok (at_work ∷ fix_it ∷ []) }

awake : one_at_a_time.suspend ≡ false
unfolding resolve_agent_config
awake = refl

ready : one_at_a_time.server_ready ≡ true
unfolding resolve_agent_config
ready = refl

unmetered : one_at_a_time.quota ≡ none
unfolding resolve_agent_config
unmetered = refl

admits_below_limit_example :
    let listed = Call.list_tasks "ns" (some (agent_label_key, "coder")) ∷ [] in
    (places_taken (at_work ∷ fix_it ∷ []) < 1
      → Leaves fix_it listed (handle_queued_for fix_it one_at_a_time "coder" occupied []))
    × (1 ≤ places_taken (at_work ∷ fix_it ∷ [])
        → handle_queued_for fix_it one_at_a_time "coder" occupied []
          ≡ (ok (requeue_after default_queued_requeue_delay), listed))
admits_below_limit_example =
    admits_below_limit occupied [] fix_it one_at_a_time "coder" 0 (at_work ∷ fix_it ∷ []) awake
      ready refl unmetered (omega arith) refl

abbrev two_allowed : AgentTemplate
two_allowed = record {
  meta = meta_named "base";
  spec = record bare_spec { quota = some two_per_minute };
}

no_limit : capacity_limit (merge_agent_with_template coder two_allowed) ≡ none
unfolding capacity_limit merge_agent_with_template first_non_nil
no_limit = refl

template_quota_ignored_example :
    Leaves fix_it (Call.get_agent (record { name = "coder"; namespace = "ns" }) ∷ []) (
      handle_queued_for fix_it
        (merge_agent_with_template coder two_allowed)
        "coder"
        (record (cluster (pos 0)) { get_agent = λ _ _. ok coder })
        [])
template_quota_ignored_example =
    template_quota_ignored (record (cluster (pos 0)) { get_agent = λ _ _. ok coder }) [] fix_it
      coder two_allowed "coder" two_per_minute refl refl refl refl no_limit refl

endings_example :
    Only (Ends Unit at_work completed) (handle_stop at_work)
    × Only (Ends Unit at_work completed) (handle_timeout at_work (pos 60000000000))
    × Only (Ends Unit at_work failed) (update_task_failed at_work "AgentError" (other "no agent"))
endings_example = endings at_work (pos 60000000000) "AgentError" (other "no agent")

-- The Pod is there, and cannot be deleted.
abbrev stuck : Env
stuck = record (cluster (pos 0)) {
  get_pod = λ _ _. ok pod;
  delete_pod = λ _ _. err (other "denied");
}

stop_waits_for_deletion_example :
    (handle_stop at_work stuck [] ≡ (
      err (other "denied"),
      Call.delete_pod pod (err (other "denied")) ∷ Call.get_pod (pod_key at_work) ∷ [],
    ))
    × (handle_timeout at_work (pos 5) stuck [] ≡ (
      err (other "denied"),
      Call.delete_pod pod (err (other "denied")) ∷ Call.get_pod (pod_key at_work) ∷ [],
    ))
stop_waits_for_deletion_example =
    stop_waits_for_deletion stuck [] at_work (pos 5) pod (other "denied") refl refl refl

abbrev unreachable : Env
unreachable = record (cluster (pos 0)) { get_pod = λ _ _. err (other "timeout") }

stop_may_leave_pod_example :
    Completes at_work (handle_stop at_work unreachable [])
    × All (Ends ⊥ at_work completed unreachable) (handle_stop at_work unreachable []).1
stop_may_leave_pod_example = stop_may_leave_pod unreachable at_work (other "timeout") refl refl

follow_pod-Follows_example :
    Only (Follows at_work PodPhase.failed) (follow_pod at_work pod PodPhase.failed)
follow_pod-Follows_example = follow_pod-Follows at_work pod PodPhase.failed

get_pod_failure_detail-none_example :
    is_none (get_pod_failure_detail pod)
    ≡ (count_by has_failed [] == 0) && (count_by has_failed pod.containers == 0)
get_pod_failure_detail-none_example = get_pod_failure_detail-none pod

abbrev session : String → ℤ → Session
session id created = record { id = id; title = "fix-it"; summary = none; created = created }

latest_titled-IsLatest_example :
    IsLatestTitled "fix-it"
      (session "s1" (pos 1) ∷ session "s2" (pos 2) ∷ [])
      (latest_titled "fix-it" none (session "s1" (pos 1) ∷ session "s2" (pos 2) ∷ []))
latest_titled-IsLatest_example =
    latest_titled-IsLatest "fix-it" (session "s1" (pos 1) ∷ session "s2" (pos 2) ∷ [])

abbrev file : String → FileMount
file path = record { file_path = path; file_mode = none }

validate-distinct_example :
    is_ok (validate_mount_path_conflicts (file "/a" ∷ file "/b" ∷ file "/a" ∷ []) [] [])
    ≡ distinct ("/a" ∷ "/b" ∷ "/a" ∷ [])
validate-distinct_example = validate-distinct (file "/a" ∷ file "/b" ∷ file "/a" ∷ []) [] []

abbrev nothing_set : AgentTemplate
nothing_set = record { meta = meta_named "base"; spec = empty_spec }

merge_with_empty_template_example :
    merge_agent_with_template coder nothing_set ≡ resolve_agent_config coder
merge_with_empty_template_example = merge_with_empty_template coder nothing_set refl

abbrev blank : Agent
blank = record coder { spec = record coder.spec { base = empty_spec } }

merge_of_empty_agent_example :
    merge_agent_with_template blank two_allowed ≡ record (resolve_template_to_config two_allowed) {
      max_concurrent_tasks = none;
      quota = some two_per_minute;
      port = pos 0;
      persistence = none;
      suspend = false;
      server_ready = true;
    }
merge_of_empty_agent_example = merge_of_empty_agent blank two_allowed refl

resolved_configs_example :
    Answers
      (cluster (pos 0))
      (FromAgent (cluster (pos 0)) fix_it)
      (get_agent_config_with_name fix_it)
    × Answers
        (cluster (pos 0))
        (FromTemplate (cluster (pos 0)) fix_it)
        (resolve_template_config fix_it)
resolved_configs_example = resolved_configs (cluster (pos 0)) fix_it
