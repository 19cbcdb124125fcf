-- ===== src/Task/Reconcile/Refines.antt =====
-- Every reconciliation of a Task follows the machine of its phases.
use kubeopencode.Prelude.{◌≡◌, refl, inl, inr, true, false, List, [], ◌∷◌, ℕ, arith}
use kubeopencode.Prelude.Text.{str_eq}
use kubeopencode.Prelude.Int.{pos, leb_ℤ, seconds}
use kubeopencode.Api.Errors.{not_found}
use kubeopencode.Api.Agent.{CleanupConfig}
use kubeopencode.Api.Task.{Task, TaskPhase, unset, pending, queued, running, completed, failed}
use kubeopencode.Client.Rules.{
  Only, Only-weaken, Only-pure, Only-bind, Only-attempt, Only-if, Only-on_result, Only-on_option,
  only_rules,
}
use kubeopencode.Client.Rules.Calls.{call_rules, Only-since, Only-delete_task}
use kubeopencode.Task.Status.{is_task_finished, is_task_stopped_by_user}
use kubeopencode.Task.Cleanup.{
  check_ttl_cleanup, delete_tasks, check_retention_cleanup, get_cleanup_config, retain,
  cleanup_by_ttl, handle_task_cleanup,
}
use kubeopencode.Task.Stop.Order.{endings}
use kubeopencode.Task.Pods.{update_task_status_from_pod}
use kubeopencode.Task.Pods.Sync.{follow_pod-Follows}
use kubeopencode.Task.Queue.{is_running}
use kubeopencode.Task.Queue.Leave.{queued_steps}
use kubeopencode.Task.Reads.{is_task_timed_out-Reads}
use kubeopencode.Task.Start.Guards.{initialize_task-Step}
use kubeopencode.Task.Reconcile.{requeue_at_timeout, sync_task, follow_running, dispatch}
use kubeopencode.Task.Reconcile.Phases.{
  Written, read-Written, start-Written, queue-Written, Ends-Written, Follows-Written,
}

module _ (task : Task) (p : TaskPhase) (done : is_task_finished p ≡ true) where
  ttl-Written : (t : Task) (n : ℕ) → Only (Written task p) (check_ttl_cleanup t n)
  unfolding check_ttl_cleanup
  ttl-Written t n =
      Only-on_option _ _ _ (λ _. search only_rules)
        (λ c _. Only-bind _ _ (search call_rules) (λ elapsed.
          Only-if (leb_ℤ (seconds n) elapsed) _ _
            (λ _.
              Only-bind _ _ (Only-attempt _ (Only-delete_task t (λ env r. done)))
                (λ d. search only_rules))
            (λ _. search only_rules)))

  delete_tasks-Written : (ts : List Task) → Only (Written task p) (delete_tasks ts)
  unfolding delete_tasks
  delete_tasks-Written [] = search only_rules
  delete_tasks-Written (t ∷ ts) =
      Only-bind _ _ (Only-attempt _ (Only-delete_task t (λ env r. done)))
        (λ d. search (only_rules, delete_tasks-Written ts))

  retain-Written : (t : Task) (c : CleanupConfig) → Only (Written task p) (retain t c)
  unfolding retain check_retention_cleanup
  retain-Written t c = search (only_rules, call_rules, delete_tasks-Written)

  cleanup_by_ttl-Written :
      (t : Task) (c : CleanupConfig) (n : ℕ) → Only (Written task p) (cleanup_by_ttl t c n)
  unfolding cleanup_by_ttl
  cleanup_by_ttl-Written t c n =
      Only-bind _ _ (ttl-Written t n) (λ (r, deleted). search (only_rules, retain-Written))

  handle_task_cleanup-Written : (t : Task) → Only (Written task p) (handle_task_cleanup t)
  unfolding handle_task_cleanup get_cleanup_config
  handle_task_cleanup-Written t =
      Only-bind _ _ (Only-bind _ _ (Only-attempt _ (search call_rules)) (λ r. search only_rules))
        (λ o. search (only_rules, retain-Written, cleanup_by_ttl-Written))

module _ (p : TaskPhase) (live : is_task_finished p ≡ false) where
  update_task_status_from_pod-Written :
      (t : Task) → Only (Written t p) (update_task_status_from_pod t)
  unfolding update_task_status_from_pod
  update_task_status_from_pod-Written t =
      Only-if (str_eq t.status.pod_name "") _ _ (λ _. search only_rules)
        (λ _. Only-bind _ _ (Only-attempt _ (search call_rules)) (λ r.
          Only-on_result r _ _ (λ e. search only_rules)
            (λ pod.
              Only-weaken (λ env c. Follows-Written p t pod.phase live env c)
                (follow_pod-Follows t pod pod.phase))))

  sync_task-Written : (t : Task) → Only (Written t p) (sync_task t)
  unfolding sync_task requeue_at_timeout
  sync_task-Written t = Only-bind _ _ (update_task_status_from_pod-Written t) (λ u.
      Only-if (is_running u) _ _
        (λ _.
          Only-on_option _ _ _ (λ _. Only-pure _)
            (λ timeout _.
              Only-on_option _ _ _ (λ _. Only-pure _)
                (λ start _.
                  Only-bind _ _ (Only-since start (λ env. tt)) (λ elapsed. search only_rules))))
        (λ _. Only-pure _))

follow_running-Written : (t : Task) → Only (Written t running) (follow_running t)
unfolding follow_running is_task_finished
follow_running-Written t =
    Only-bind _ _ (Only-weaken (λ env c. read-Written t running env c) (is_task_timed_out-Reads t))
      (λ late.
        Only-if late _ _
          (λ _.
            Only-on_option _ _ _ (λ _. search only_rules)
              (λ timeout _.
                Only-weaken (λ env c. Ends-Written t env c) ((endings t timeout "" not_found).1)))
          (λ _.
            Only-if (is_task_stopped_by_user t) _ _
              (λ _.
                Only-weaken (λ env c. Ends-Written t env c) ((endings t (pos 0) "" not_found).0))
              (λ _. sync_task-Written running refl t)))

dispatch-phase :
    (p : TaskPhase) (task : Task) → p ≡ task.status.phase → Only (Written task p) (dispatch p task)
unfolding dispatch is_task_finished is_running
dispatch-phase unset task e =
    Only-weaken (λ env c. start-Written unset task (inl refl) (λ _. refl) env c)
      (initialize_task-Step task)
dispatch-phase running task e =
    Only-if (str_eq task.status.pod_name "") _ _
      (λ unnamed.
        Only-weaken
          (λ env c.
            start-Written running task (inr (refl, unnamed)) (λ w. absurd (ground (arith, e))) env
              c)
          (initialize_task-Step task))
      (λ _. follow_running-Written task)
dispatch-phase queued task e = Only-weaken (λ env c. queue-Written task e env c) (queued_steps task)
dispatch-phase completed task e = handle_task_cleanup-Written task completed refl task
dispatch-phase failed task e = handle_task_cleanup-Written task failed refl task
dispatch-phase pending task e = sync_task-Written pending refl task

-- Whatever the answers, a reconciliation of a Task writes a Task's status only by a move of the
-- machine from its phase, or, while the Task starts, by naming its Pod in an answer of the API server
-- for that Task (or in the given Task, if it is running), with no other change. A Task starts if it
-- is new, or if it runs and its Pod is not named: then alone are labels written, and Pods,
-- ConfigMaps and the status of an Agent. Pods are deleted only while the Task runs, and Tasks only
-- when it is finished. Every other call is a read or an event.
pub dispatch-Written :
    (task : Task) → Only (Written task task.status.phase) (dispatch task.status.phase task)
dispatch-Written task = dispatch-phase task.status.phase task refl
