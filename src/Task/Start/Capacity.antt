-- ===== src/Task/Start/Capacity.antt =====
-- A running Task without the name of its Pod counts itself when it starts again
-- (internal/controller/task_controller.go).
use kubeopencode.Prelude.{
  ◌≡◌, refl, ap, String, ◌∙◌, ◌+◌, ◌<◌, true, false, some, List, [], ◌∷◌, count_by, arith,
}
use kubeopencode.Prelude.Int.{ℤ, pos, ltb_ℤ, int32, int32_small}
use kubeopencode.Api.Errors.{Result, ok, Arg, Message, str, num}
use kubeopencode.Api.Task.{Task, queued}
use kubeopencode.Client.{
  Env, Call, History, Requeue, ◌>>=◌, ◌>>◌, on_option, pure, call, library, try_call,
}
use kubeopencode.Client.Cases.{history_after}
use kubeopencode.Client.Calls.{list_tasks, event, with_condition, update_task_status}
use kubeopencode.Task.Queue.{agent_label_key, is_running, check_agent_capacity, capacity_limit}
use kubeopencode.Task.Start.{has_label, queue_task, occupy_if_free, initialize_for}
use kubeopencode.Task.Start.Pod.{Reference}

-- The other Tasks leave one place.
full_with_itself :
    (task : Task) (others : List Task)
    → is_running task ≡ true
    → count_by is_running others + 1 < 2147483648
    → ltb_ℤ (int32 (count_by is_running (task ∷ others))) (pos (count_by is_running others + 1))
      ≡ false
full_with_itself task others runs small =
    let n = count_by is_running others in
    let both : count_by is_running (task ∷ others) ≡ n + 1 = ground (arith, runs) in
    ap (λ k. ltb_ℤ (int32 k) (pos (n + 1))) both
    ∙ ap (λ k. ltb_ℤ k (pos (n + 1))) (int32_small (n + 1) small)
    ∙ ground arith

-- A run that makes two more calls than `h`: an event with the given reason, format and arguments,
-- and then a write of the Task's status with the queued phase, and with
-- the name of the Pod, the metadata and the spec as they were.
abbrev pub Queues : Task → String → String → List Arg → History → Result Requeue × History → Type 0
Queues task reason format args h p =
    (t : Task) × (r : Result Task) × (p.1
      ≡ Call.update_task_status t r ∷ Call.event reason format args ∷ h)
    × (t.status.phase ≡ queued)
    × (t.status.pod_name ≡ task.status.pod_name)
    × (t.meta ≡ task.meta)
    × (t.spec ≡ task.spec)

queue_task-Queues :
    (task : Task) (name reason : String) (message : Message) (delay : ℤ)
    (event_reason format : String) (args : List Arg) (env : Env) (h : History)
    → Queues task event_reason format args h
        (queue_task task name reason message delay event_reason format args env h)
unfolding queue_task event call with_condition library update_task_status try_call ◌>>=◌ ◌>>◌
queue_task-Queues task name reason message delay event_reason format args env h =
    (_, _, history_after (env.update_task_status _ _) _ env _, refl, refl, refl, refl)

-- A Task that is running already, and whose Pod is not named in its status, starts again on an
-- Agent that is neither suspended nor unready and has one place more than the other Tasks take. The
-- Task itself is among the Tasks that the API server lists as running, and so it gives up its place:
-- the two calls after the list announce that the Agent is full, and write the Task with the queued
-- phase. No Pod is created.
pub counts_itself :
    (env : Env) (h : History) (task : Task) (r : Reference) (others : List Task)
    → has_label task r ≡ true
    → r.is_template ≡ false
    → r.cfg.suspend ≡ false
    → r.cfg.server_ready ≡ true
    → capacity_limit r.cfg ≡ some (pos (count_by is_running others + 1))
    → count_by is_running others + 1 < 2147483648
    → is_running task ≡ true
    → env.list_tasks h task.meta.namespace (some (agent_label_key, r.name)) ≡ ok (task ∷ others)
    → Queues task "Queued" "Agent %q at capacity (max: %d), task queued"
        (str r.name ∷ num (pos (count_by is_running others + 1)) ∷ [])
        (Call.list_tasks task.meta.namespace (some (agent_label_key, r.name)) ∷ h)
        (initialize_for task r env h)
unfolding initialize_for occupy_if_free check_agent_capacity list_tasks try_call pure on_option
    ◌>>=◌
counts_itself env h task r others labelled agent awake ready limit small runs listed =
    rw (limit, labelled, agent, awake, ready, listed, full_with_itself task others runs small)
      (queue_task-Queues task r.name _ _ _ _ _ _ env _)
