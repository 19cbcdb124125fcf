-- ===== src/Task/Quota.antt =====
-- The quota of an Agent: a sliding window of Task starts, kept in the Agent's status
-- (internal/controller/task_controller.go).
pub mod Window
pub mod Delay
pub mod Recording
use kubeopencode.Prelude.{
  ℕ, zero, suc, String, Bool, true, false, not, ◌&&◌, Option, none, some, List, [], ◌∷◌, ◌++◌,
  length, filter_by, if◌then◌else◌,
}
use kubeopencode.Prelude.Int.{ℤ, pos, ◌+ℤ◌, ◌-ℤ◌, ltb_ℤ, leb_ℤ, int32, seconds}
use kubeopencode.Prelude.Text.{str_eq}
use kubeopencode.Api.Errors.{Error, errorf, num, is_conflict}
use kubeopencode.Api.Meta.{key_of}
use kubeopencode.Api.Agent.{Agent, QuotaConfig, TaskStartRecord}
use kubeopencode.Api.Task.{Task}
use kubeopencode.Client.{E, pure, throw, attempt, library, on_result, on_option, ◌>>=◌, ◌>>◌}
use kubeopencode.Client.Calls.{now, until, get_agent, update_agent_status}

-- `quotaStatusUpdateRetries`
abbrev pub quota_status_update_retries : ℕ
quota_status_update_retries = 3

-- `DefaultQuotaRequeueDelay`
abbrev pub default_quota_requeue_delay : ℤ
default_quota_requeue_delay = pos 30000000000

-- The loop of `pruneTaskStartHistory`, given the instant that it reads.
unfoldable pub started_after : ℤ → List TaskStartRecord → List TaskStartRecord
started_after window_start = filter_by (λ r. ltb_ℤ window_start r.start_time)

-- `pruneTaskStartHistory`
unfoldable pub prune_task_start_history : List TaskStartRecord → ℕ → E (List TaskStartRecord)
prune_task_start_history history window_seconds = do
  n ← now
  pure (started_after (n -ℤ seconds window_seconds) history)

unfoldable pub started_before : TaskStartRecord → TaskStartRecord → Bool
started_before a b = ltb_ℤ a.start_time b.start_time

abbrev pub at_least : ℤ → ℤ → ℤ
at_least low d = if ltb_ℤ d low then low else d

-- The wait until the oldest of the sorted records leaves the window.
unfoldable pub delay_of_oldest : List TaskStartRecord → ℕ → E ℤ
delay_of_oldest [] window_seconds = pure default_quota_requeue_delay
delay_of_oldest (oldest ∷ _) window_seconds = do
  delay ← until (oldest.start_time +ℤ seconds window_seconds)
  pure (at_least default_quota_requeue_delay delay)

-- `calculateQuotaRequeueDelay`; the test on an empty list is that of `delay_of_oldest`.
unfoldable pub calculate_quota_requeue_delay : List TaskStartRecord → ℕ → E ℤ
calculate_quota_requeue_delay [] window_seconds = pure default_quota_requeue_delay
calculate_quota_requeue_delay (r ∷ rs) window_seconds = do
  active ← prune_task_start_history (r ∷ rs) window_seconds
  sorted ← library (λ env. env.sort_records started_before active)
  delay_of_oldest sorted window_seconds

-- `checkAgentQuota`, where the Agent has a quota.
unfoldable pub check_quota : List TaskStartRecord → QuotaConfig → E (Bool × ℤ)
check_quota history quota = do
  active ← prune_task_start_history history quota.window_seconds
  if leb_ℤ (pos quota.max_task_starts) (int32 (length active))
      then (do
        delay ← calculate_quota_requeue_delay history quota.window_seconds
        pure (false, delay))
      else pure (true, pos 0)

-- `checkAgentQuota`: whether a Task may start, and when to ask again.
unfoldable pub check_agent_quota : Agent → E (Bool × ℤ)
check_agent_quota agent =
    on_option agent.spec.base.quota (pure (true, pos 0))
      (λ quota. check_quota agent.status.task_start_history quota)

abbrev pub with_history : Agent → List TaskStartRecord → Agent
with_history agent records = record agent {
  status = record agent.status { task_start_history = records };
}

-- One status update; a conflict leaves it to `again`, the next round of the loop.
unfoldable pub update_or_retry : Agent → E (Unit {0}) → E (Unit {0})
update_or_retry agent again = do
  updated ← attempt (update_agent_status agent)
  on_result updated (λ e. if is_conflict e then again else throw e) (λ _. pure tt)

-- The rounds of `recordTaskStart`.
unfoldable pub record_rounds : ℕ → Agent → Task → E (Unit {0})
record_rounds zero agent task = throw (
    errorf "failed to record task start after %d retries"
      (num (pos quota_status_update_retries) ∷ []))
record_rounds (suc rounds) agent task = do
  fresh ← get_agent (key_of agent.meta)
  on_option fresh.spec.base.quota (pure tt) (λ quota. do
    pruned ← prune_task_start_history fresh.status.task_start_history quota.window_seconds
    n ← now
    let start : TaskStartRecord = record {
      task_name = task.meta.name;
      task_namespace = task.meta.namespace;
      start_time = n;
    }
    update_or_retry (with_history fresh (pruned ++ start ∷ [])) (record_rounds rounds agent task))

-- `recordTaskStart`
unfoldable pub record_task_start : Agent → Task → E (Unit {0})
record_task_start agent task =
    on_option agent.spec.base.quota (pure tt)
      (λ _. record_rounds quota_status_update_retries agent task)

-- The filter of `removeTaskStart`.
unfoldable pub is_of_other_task : Task → TaskStartRecord → Bool
is_of_other_task task r =
    not (str_eq r.task_name task.meta.name && str_eq r.task_namespace task.meta.namespace)

-- The rounds of `removeTaskStart`.
unfoldable pub remove_rounds : ℕ → Agent → Task → E (Unit {0})
remove_rounds zero agent task = throw (
    errorf "failed to remove task start after %d retries"
      (num (pos quota_status_update_retries) ∷ []))
remove_rounds (suc rounds) agent task = do
  fresh ← get_agent (key_of agent.meta)
  update_or_retry
      (with_history fresh (filter_by (is_of_other_task task) fresh.status.task_start_history))
      (remove_rounds rounds agent task)

-- `removeTaskStart`
unfoldable pub remove_task_start : Agent → Task → E (Unit {0})
remove_task_start agent task =
    on_option agent.spec.base.quota (pure tt)
      (λ _. remove_rounds quota_status_update_retries agent task)
