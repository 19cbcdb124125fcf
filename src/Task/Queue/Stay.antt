-- ===== src/Task/Queue/Stay.antt =====
-- When a queued Task leaves the queue for its Agent's limit on running Tasks, and a quota that does
-- not make it wait (internal/controller/task_controller.go).
use kubeopencode.Prelude.{
  ◌≡◌, refl, ap, ◌∙◌, ◌<◌, ◌≤◌, suc, ℕ, String, Bool, true, false, none, some, List, [], ◌∷◌,
  count_by, if◌then◌else◌, arith,
}
use kubeopencode.Prelude.Int.{pos, ltb_ℤ, int32, int32_small}
use kubeopencode.Api.Errors.{Result, ok, Message}
use kubeopencode.Api.Agent.{QuotaConfig, Agent, AgentTemplate}
use kubeopencode.Api.Task.{Task, TaskPhase, unset, running, pending, queued, completed, failed}
use kubeopencode.Client.{
  Env, Call, History, Requeue, requeue_after, ◌>>=◌, ◌>>◌, on_option, pure, try_call, library,
}
use kubeopencode.Client.Cases.{history_after}
use kubeopencode.Client.Calls.{list_tasks, get_agent, with_condition, update_task_status}
use kubeopencode.Config.{AgentConfig, merge_agent_with_template, first_non_nil}
use kubeopencode.Task.Quota.{check_agent_quota}
use kubeopencode.Task.Queue.{
  agent_label_key, is_running, leave_queue, leave_within_quota, handle_queued_for,
  get_agent_for_quota, check_agent_capacity, capacity_limit, default_queued_requeue_delay,
}

-- A run that makes one more call than `h`: the Task's status is written with the empty phase, and
-- with its metadata and spec unchanged.
abbrev pub Leaves : Task → History → Result Requeue × History → Type 0
Leaves task h p =
    (t : Task) × (r : Result Task) × (p.1 ≡ Call.update_task_status t r ∷ h)
    × (t.status.phase ≡ unset)
    × (t.meta ≡ task.meta)
    × (t.spec ≡ task.spec)

leave_queue-Leaves :
    (task : Task) (reason : String) (message : Message) (env : Env) (h : History)
    → Leaves task h (leave_queue task reason message env h)
unfolding leave_queue with_condition library update_task_status try_call ◌>>=◌ ◌>>◌
leave_queue-Leaves task reason message env h =
    (_, _, history_after (env.update_task_status h _) _ env _, refl, refl, refl)

-- The phases that take a place, and the number of Tasks in one.
abbrev pub takes_place : TaskPhase → Bool
takes_place running = true
takes_place _ = false

abbrev pub places_taken : List Task → ℕ
places_taken ts = count_by (λ t. takes_place t.status.phase) ts

running_phase : (p : TaskPhase) → elim p [ running ↦ true | _ ↦ false ] ≡ takes_place p
running_phase unset = refl
running_phase pending = refl
running_phase queued = refl
running_phase running = refl
running_phase completed = refl
running_phase failed = refl

count_running : (ts : List Task) → count_by is_running ts ≡ places_taken ts
unfolding is_running
count_running [] = refl
count_running (t ∷ ts) = ground (arith, running_phase t.status.phase, count_running ts)

fits :
    (ts : List Task) (m : ℕ) (b : Bool)
    → places_taken ts < 2147483648
    → ltb_ℤ (pos (places_taken ts)) (pos m) ≡ b
    → ltb_ℤ (int32 (count_by is_running ts)) (pos m) ≡ b
fits ts m b small e =
    ap (λ k. ltb_ℤ (int32 k) (pos m)) (count_running ts)
    ∙ ap (λ k. ltb_ℤ k (pos m)) (int32_small (places_taken ts) small)
    ∙ e

positive_limit :
    (cfg : AgentConfig) (max : ℕ)
    → cfg.max_concurrent_tasks ≡ some (pos (suc max))
    → capacity_limit cfg ≡ some (pos (suc max))
unfolding capacity_limit
positive_limit cfg max limit =
    let positive : ltb_ℤ (pos 0) (pos (suc max)) ≡ true = ground arith in
    ap (λ o. elim o [ none ↦ none | some m ↦ if ltb_ℤ (pos 0) m then some m else none ]) limit
    ∙ ap (λ b. if b then some (pos (suc max)) else none) positive

-- The Agent of a queued Task is neither suspended nor unready, allows a positive number of Tasks at
-- once and has no quota, and the API server lists its Tasks, of which fewer than 2 ^ 31 run. If
-- fewer run than it allows, the one call after the list writes the Task with the empty phase, from
-- which it is initialized; else there is no other call, and the Task is tried again after ten
-- seconds.
pub admits_below_limit :
    (env : Env) (h : History) (task : Task) (cfg : AgentConfig) (name : String) (max : ℕ)
    (ts : List Task)
    → cfg.suspend ≡ false
    → cfg.server_ready ≡ true
    → cfg.max_concurrent_tasks ≡ some (pos (suc max))
    → cfg.quota ≡ none
    → places_taken ts < 2147483648
    → env.list_tasks h task.meta.namespace (some (agent_label_key, name)) ≡ ok ts
    → let listed = Call.list_tasks task.meta.namespace (some (agent_label_key, name)) ∷ h in
      (places_taken ts < suc max → Leaves task listed (handle_queued_for task cfg name env h))
      × (suc max ≤ places_taken ts
          → handle_queued_for task cfg name env h
            ≡ (ok (requeue_after default_queued_requeue_delay), listed))
unfolding handle_queued_for check_agent_capacity leave_within_quota list_tasks try_call pure
    on_option ◌>>=◌
admits_below_limit env h task cfg name max ts awake ready limit unmetered small answer =
    let bounded = positive_limit cfg max limit in
    (
      λ below.
          rw (bounded, unmetered, awake, ready, answer, fits ts (suc max) true small (ground arith))
            (leave_queue-Leaves task _ _ env _),
      λ full. rw (bounded, awake, ready, answer, fits ts (suc max) false small (ground arith)),
    )

unlimited_agent-Leaves :
    (env : Env) (h : History) (task : Task) (cfg : AgentConfig) (agent : Agent) (name : String)
    (q : QuotaConfig)
    → cfg.suspend ≡ false
    → cfg.server_ready ≡ true
    → cfg.quota ≡ some q
    → capacity_limit cfg ≡ none
    → env.get_agent h (record { name = name; namespace = task.meta.namespace }) ≡ ok agent
    → agent.spec.base.quota ≡ none
    → Leaves task
        (Call.get_agent (record { name = name; namespace = task.meta.namespace }) ∷ h)
        (handle_queued_for task cfg name env h)
unfolding handle_queued_for leave_within_quota get_agent_for_quota get_agent try_call
    check_agent_quota pure on_option ◌>>=◌
unlimited_agent-Leaves env h task cfg agent name q awake ready quota limit found no_quota =
    rw (limit, quota, awake, ready, found, no_quota) (leave_queue-Leaves task _ _ env _)

-- An Agent that is neither suspended nor unready has no limit on running Tasks and no quota of its
-- own, but its template has a quota. A queued Task then leaves the queue after a look at the Agent
-- alone, however many starts the template allows: the one call after that writes the Task with the
-- empty phase, from which it is initialized.
pub template_quota_ignored :
    (env : Env) (h : History) (task : Task) (agent : Agent) (tmpl : AgentTemplate) (name : String)
    (q : QuotaConfig)
    → agent.spec.suspend ≡ false
    → agent.status.ready ≡ true
    → agent.spec.base.quota ≡ none
    → tmpl.spec.quota ≡ some q
    → capacity_limit (merge_agent_with_template agent tmpl) ≡ none
    → env.get_agent h (record { name = name; namespace = task.meta.namespace }) ≡ ok agent
    → Leaves task
        (Call.get_agent (record { name = name; namespace = task.meta.namespace }) ∷ h)
        (handle_queued_for task (merge_agent_with_template agent tmpl) name env h)
unfolding merge_agent_with_template first_non_nil
template_quota_ignored env h task agent tmpl name q awake ready no_quota inherited limit found =
    unlimited_agent-Leaves env h task (merge_agent_with_template agent tmpl) agent name q awake
      ready (ap (λ o. first_non_nil o tmpl.spec.quota) no_quota ∙ inherited) limit found no_quota
