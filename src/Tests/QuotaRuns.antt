-- ===== src/Tests/QuotaRuns.antt =====
-- Runs of the quota and of the cleanup of Tasks.
use kubeopencode.Prelude.{
  String, ◌≡◌, refl, ◌≤◌, ◌<◌, ◌-◌, ◌+◌, ◌⊎◌, Bool, true, false, some, List, [], ◌∷◌, ◌++◌, All,
  count_by, filter_by, length, ltb, arith,
}
use kubeopencode.Prelude.Int.{ℤ, pos, ◌+ℤ◌, ◌-ℤ◌, ◌≤ℤ◌, ◌<ℤ◌, seconds}
use kubeopencode.Prelude.Sort.{sort_by, insert_by, sort_by-Sorts}
use kubeopencode.Api.Errors.{ok, err, conflict, is_conflict}
use kubeopencode.Api.Meta.{key_of}
use kubeopencode.Api.Agent.{Agent, TaskStartRecord}
use kubeopencode.Api.Task.{Task, completed}
use kubeopencode.Client.{
  Env, Call, requeue_after, call, library, pure, attempt, on_result, on_option, try_call, ◌>>=◌,
}
use kubeopencode.Client.Calls.{now, until, get_agent, update_agent_status}
use kubeopencode.Task.Quota.{
  prune_task_start_history, delay_of_oldest, started_after, started_before, record_rounds,
  update_or_retry, check_agent_quota, calculate_quota_requeue_delay, default_quota_requeue_delay,
  record_task_start, remove_task_start, with_history, is_of_other_task,
}
use kubeopencode.Task.Quota.Window.{starts_in_window, check_agent_quota-counts}
use kubeopencode.Task.Quota.Delay.{delay_frees_a_start, delay_is_tight}
use kubeopencode.Task.Quota.Recording.{
  Recorded, record_task_start-Recorded, is_agent_update, quota_updates_bounded, start_of,
  remove_undoes_record,
}
use kubeopencode.Task.Cleanup.{
  check_ttl_cleanup, check_retention_cleanup, is_finished_with_time, completed_before,
}
use kubeopencode.Task.Cleanup.Expiry.{deletion_result, check_ttl_cleanup-expiry}
use kubeopencode.Task.Cleanup.Retention.{deleted_tasks, reverse_onto, retention_deletes_oldest}
use kubeopencode.Tests.Cluster.{
  cluster, limited_coder, two_per_minute, started_at, fix_it, meta_named,
}

abbrev two_starts : List TaskStartRecord
two_starts = started_at "a" (pos 50000000000) ∷ started_at "b" (pos 70000000000) ∷ []

abbrev busy : Agent
busy = with_history limited_coder two_starts

-- At 100 seconds both starts lie in the window of a minute.
at_100 : starts_in_window 60 (pos 100000000000) two_starts ≡ 2
unfolding ◌-ℤ◌ seconds
at_100 = refl

check_agent_quota-counts_example :
    (r : Bool × ℤ) × ((check_agent_quota busy (cluster (pos 100000000000)) []).0 ≡ ok r)
    × (r.0 ≡ ltb (starts_in_window 60 (pos 100000000000) two_starts) 2)
    × ((r.0 ≡ true) ⊎ (default_quota_requeue_delay ≤ℤ r.1))
check_agent_quota-counts_example =
    check_agent_quota-counts (cluster (pos 100000000000)) [] busy two_per_minute refl (omega arith)

-- At 75 seconds the older start, of second 50, is 35 seconds from leaving the window.
some_at_75 : 0 < starts_in_window 60 (pos 75000000000) two_starts
unfolding ◌-ℤ◌ seconds
some_at_75 = omega arith

waits_35 :
    (calculate_quota_requeue_delay two_starts 60 (cluster (pos 75000000000)) []).0
    ≡ ok (pos 35000000000)
unfolding calculate_quota_requeue_delay prune_task_start_history delay_of_oldest until now call
    library pure started_after started_before ◌-ℤ◌ ◌+ℤ◌ seconds ◌>>=◌ sort_by insert_by
waits_35 = refl

ends_by_110 : (pos 75000000000 +ℤ pos 35000000000) ≤ℤ pos 110000000000
unfolding ◌+ℤ◌
ends_by_110 = omega arith

starts_by_109 : pos 109000000000 <ℤ (pos 75000000000 +ℤ pos 35000000000)
unfolding ◌+ℤ◌
starts_by_109 = omega arith

delay_frees_a_start_example :
    starts_in_window 60 (pos 110000000000) two_starts
    < starts_in_window 60 (pos 75000000000) two_starts
delay_frees_a_start_example =
    delay_frees_a_start (cluster (pos 75000000000)) [] two_starts 60 (pos 35000000000)
      (pos 110000000000) sort_by-Sorts some_at_75 waits_35 (omega arith) ends_by_110

delay_is_tight_example :
    starts_in_window 60 (pos 109000000000) two_starts
    ≡ starts_in_window 60 (pos 75000000000) two_starts
delay_is_tight_example =
    delay_is_tight (cluster (pos 75000000000)) [] two_starts 60 (pos 35000000000) (pos 109000000000)
      sort_by-Sorts some_at_75 waits_35 (omega arith) (omega arith) starts_by_109

-- An API server that finds the Agent.
abbrev with_agent : Agent → Env → Env
with_agent a env = record env { get_agent = λ _ _. ok a }

records :
    (record_task_start busy fix_it (with_agent busy (cluster (pos 100000000000))) []).0 ≡ ok tt
unfolding record_task_start record_rounds prune_task_start_history update_or_retry
    update_agent_status get_agent now call try_call attempt on_result on_option pure started_after
    is_conflict ◌>>=◌
records = refl

record_task_start-Recorded_example :
    Recorded
      (with_agent busy (cluster (pos 100000000000)))
      fix_it
      (record_task_start busy fix_it (with_agent busy (cluster (pos 100000000000))) []).1
record_task_start-Recorded_example =
    record_task_start-Recorded (with_agent busy (cluster (pos 100000000000))) [] busy fix_it
      two_per_minute refl records

-- An API server that answers every update with a conflict.
abbrev contended : Env
contended = record (with_agent busy (cluster (pos 100000000000))) {
  update_agent_status = λ _ _. err conflict;
}

quota_updates_bounded_example :
    (count_by is_agent_update (record_task_start busy fix_it contended []).1 ≤ 3)
    × (count_by is_agent_update (remove_task_start busy fix_it contended []).1 ≤ 3)
quota_updates_bounded_example = quota_updates_bounded contended busy fix_it

others : All (λ r. is_of_other_task fix_it r ≡ true) two_starts
unfolding is_of_other_task
others = (refl, (refl, tt))

-- The history that `record_task_start` left, with the start of this Task at its end.
remove_undoes_record_example :
    remove_task_start busy fix_it
      (with_agent
        (with_history limited_coder (two_starts ++ start_of fix_it (pos 9) ∷ []))
        (cluster (pos 9)))
      []
    ≡ (ok tt, Call.update_agent_status busy (ok busy) ∷ Call.get_agent (key_of busy.meta) ∷ [])
remove_undoes_record_example =
    remove_undoes_record
      (with_agent (with_history limited_coder (two_starts ++ start_of fix_it (pos 9) ∷ []))
        (cluster (pos 9)))
      busy limited_coder fix_it two_per_minute (pos 9) two_starts refl others refl refl

-- A Task that completed at second 10.
abbrev done : String → Task
done name = record fix_it {
  meta = meta_named name;
  status = record fix_it.status { phase = completed; completion_time = some (pos 10000000000) };
}

check_ttl_cleanup-expiry_example :
    ((pos 10000000000 +ℤ seconds 60) ≤ℤ pos 40000000000
      → check_ttl_cleanup (done "a") 60 (cluster (pos 40000000000)) []
        ≡ (deletion_result (ok tt), Call.delete_task (done "a") (ok tt) ∷ Call.now ∷ []))
    × (pos 40000000000 <ℤ (pos 10000000000 +ℤ seconds 60)
        → (wait : ℤ) × (check_ttl_cleanup (done "a") 60 (cluster (pos 40000000000)) []
            ≡ (ok (requeue_after wait, false), Call.now ∷ []))
          × (pos 0 <ℤ wait)
          × (pos 40000000000 +ℤ wait ≡ pos 10000000000 +ℤ seconds 60))
check_ttl_cleanup-expiry_example =
    check_ttl_cleanup-expiry (cluster (pos 40000000000)) [] (done "a") 60 (pos 10000000000) (ok tt)
      refl refl

-- Three finished Tasks, of which one is to be kept.
abbrev three_done : List Task
three_done = done "c" ∷ done "a" ∷ done "b" ∷ []

abbrev holding : Env
holding = record (cluster (pos 0)) { list_tasks = λ _ _ _. ok three_done }

retention_deletes_oldest_example :
    (oldest : List Task) × (kept : List Task) × ((check_retention_cleanup "ns" 1 holding []).0
      ≡ ok tt)
    × (deleted_tasks (check_retention_cleanup "ns" 1 holding []).1 ≡ reverse_onto oldest [])
    × (length oldest ≡ length (filter_by is_finished_with_time three_done) - 1)
    × ((p : Task → Bool)
        → count_by p oldest + count_by p kept
          ≡ count_by p (filter_by is_finished_with_time three_done))
    × All (λ d. All (λ k. completed_before k d ≡ false) kept) oldest
retention_deletes_oldest_example =
    retention_deletes_oldest holding [] "ns" 1 three_done sort_by-Sorts refl (λ h t. refl)
