-- ===== src/Task/Quota/Recording.antt =====
-- What `recordTaskStart` and `removeTaskStart` write.
use text.Mathlib.TextPositions.{eq_refl}
use kubeopencode.Prelude.{
  ℕ, zero, suc, ◌+◌, ◌≤◌, ◌≡◌, refl, sym, ap, ◌∙◌, Bool, true, false, Option, none, some, List, [],
  ◌∷◌, ◌++◌, arith, All, count_by, filter_by,
}
use kubeopencode.Prelude.Int.{ℤ, ◌-ℤ◌, seconds}
use kubeopencode.Api.Errors.{Result, ok, err, is_conflict}
use kubeopencode.Api.Meta.{key_of}
use kubeopencode.Api.Agent.{Agent, QuotaConfig, TaskStartRecord}
use kubeopencode.Api.Task.{Task}
use kubeopencode.Client.{Env, History, Call, pure, throw, call, ◌>>=◌}
use kubeopencode.Client.Calls.{now, get_agent, update_agent_status}
use kubeopencode.Client.Cases.{
  try_call_cases, attempt_cases, on_option_cases, if_cases, try_call_ok, attempt_ok, on_option-some,
}
use kubeopencode.Task.Quota.{
  started_after, prune_task_start_history, with_history, update_or_retry, record_rounds,
  record_task_start, remove_rounds, remove_task_start, is_of_other_task,
  quota_status_update_retries,
}

abbrev pub start_of : Task → ℤ → TaskStartRecord
start_of task n = record {
  task_name = task.meta.name;
  task_namespace = task.meta.namespace;
  start_time = n;
}

-- The history ends with a status update that the server took: of the Agent that was just fetched,
-- with its starts in the window followed by one of the Task, now; or with a fetch of the Agent
-- without a quota.
abbrev pub Recorded : Env → Task → History → Type 0
Recorded env task
      (Call.update_agent_status a (ok a') ∷ Call.now ∷ Call.now ∷ Call.get_agent k ∷ h) =
    (fresh : Agent) × (quota : QuotaConfig) × (env.get_agent h k ≡ ok fresh)
    × (fresh.spec.base.quota ≡ some quota)
    × (a
        ≡ with_history fresh (
            started_after (env.now (Call.get_agent k ∷ h) -ℤ seconds quota.window_seconds)
              fresh.status.task_start_history
            ++ start_of task (env.now (Call.now ∷ Call.get_agent k ∷ h)) ∷ []))
Recorded env task (Call.get_agent k ∷ h) =
    (fresh : Agent) × (env.get_agent h k ≡ ok fresh) × (fresh.spec.base.quota ≡ none)
Recorded env task _ = ⊥

-- The statement about a run: if it succeeds, its history ends so.
abbrev RecordsIfOk : Env → Task → Result (Unit {0}) × History → Type 0
RecordsIfOk env task (ok _, h) = Recorded env task h
RecordsIfOk env task (err e, h) = Unit

record_rounds-Recorded :
    (rounds : ℕ) (env : Env) (agent : Agent) (task : Task) (h : History)
    → RecordsIfOk env task (record_rounds rounds agent task env h)
unfolding record_rounds throw prune_task_start_history now call pure update_or_retry get_agent
    update_agent_status ◌>>=◌
record_rounds-Recorded zero env agent task h = tt
record_rounds-Recorded (suc rounds) env agent task h =
    try_call_cases (RecordsIfOk env task) _ _ _ env h
      (λ fresh got.
        on_option_cases (RecordsIfOk env task) fresh.spec.base.quota _ _ env
          (Call.get_agent (key_of agent.meta) ∷ h) (λ unlimited. (fresh, got, unlimited))
          (λ quota limited.
            attempt_cases (RecordsIfOk env task) _ _ _ _ env _
              (λ a' updated. (fresh, quota, got, limited, refl))
              (λ e failed.
                if_cases (RecordsIfOk env task) (is_conflict e) (record_rounds rounds agent task)
                  (throw e) env _ (λ _. record_rounds-Recorded rounds env agent task _) (λ _. tt))))
      (λ e failed. tt)

Recorded-of_ok :
    (env : Env) (task : Task) (p : Result (Unit {0}) × History)
    → p.0 ≡ ok tt
    → RecordsIfOk env task p
    → Recorded env task p.1
Recorded-of_ok env task (ok u, h) e k = k
Recorded-of_ok env task (err x, h) e k = cc

-- If `recordTaskStart` succeeds for an Agent with a quota, then it ends either with the one status
-- update that the server took, which appends the Task's start, now, to the starts of the freshly
-- fetched Agent that are in the window; or with a fetched Agent that has no quota any more.
pub record_task_start-Recorded :
    (env : Env) (h : History) (agent : Agent) (task : Task) (quota : QuotaConfig)
    → agent.spec.base.quota ≡ some quota
    → (record_task_start agent task env h).0 ≡ ok tt
    → Recorded env task (record_task_start agent task env h).1
unfolding record_task_start
record_task_start-Recorded env h agent task quota configured success =
    Recorded-of_ok env task (record_task_start agent task env h) success (
      on_option_cases (RecordsIfOk env task) agent.spec.base.quota _ _ env h
        (λ unlimited. absurd (none_or_some (sym unlimited ∙ configured)))
        (λ _ _. record_rounds-Recorded quota_status_update_retries env agent task h))
  where
    none_or_some : ◌≡◌ {A = Option QuotaConfig} none (some quota) → ⊥
    none_or_some e = cc

abbrev pub is_agent_update : Call → Bool
is_agent_update (Call.update_agent_status a r) = true
is_agent_update _ = false

abbrev AtMost : ℕ → Result (Unit {0}) × History → Type 0
AtMost n p = count_by is_agent_update p.1 ≤ n

record_rounds-AtMost :
    (rounds : ℕ) (env : Env) (agent : Agent) (task : Task) (h : History)
    → AtMost (rounds + count_by is_agent_update h) (record_rounds rounds agent task env h)
unfolding record_rounds throw prune_task_start_history now call pure update_or_retry get_agent
    update_agent_status ◌>>=◌
record_rounds-AtMost zero env agent task h = omega arith
record_rounds-AtMost (suc rounds) env agent task h =
    let Q = AtMost (suc rounds + count_by is_agent_update h) in
    try_call_cases Q _ _ _ env h
      (λ fresh got.
        on_option_cases Q fresh.spec.base.quota _ _ env (Call.get_agent (key_of agent.meta) ∷ h)
          (λ unlimited. omega arith)
          (λ quota limited.
            attempt_cases Q _ _ _ _ env _ (λ a' updated. omega arith)
              (λ e failed.
                if_cases Q (is_conflict e) (record_rounds rounds agent task) (throw e) env _
                  (λ _. omega (arith, record_rounds-AtMost rounds env agent task _))
                  (λ _. omega arith))))
      (λ e failed. omega arith)

remove_rounds-AtMost :
    (rounds : ℕ) (env : Env) (agent : Agent) (task : Task) (h : History)
    → AtMost (rounds + count_by is_agent_update h) (remove_rounds rounds agent task env h)
unfolding remove_rounds throw pure update_or_retry get_agent update_agent_status
remove_rounds-AtMost zero env agent task h = omega arith
remove_rounds-AtMost (suc rounds) env agent task h =
    let Q = AtMost (suc rounds + count_by is_agent_update h) in
    try_call_cases Q _ _ _ env h
      (λ fresh got.
        attempt_cases Q _ _ _ _ env _ (λ a' updated. omega arith)
          (λ e failed.
            if_cases Q (is_conflict e) (remove_rounds rounds agent task) (throw e) env _
              (λ _. omega (arith, remove_rounds-AtMost rounds env agent task _))
              (λ _. omega arith)))
      (λ e failed. omega arith)

-- However often the server reports a conflict, recording and removing a start each write the Agent's
-- status three times at most.
pub quota_updates_bounded :
    (env : Env) (agent : Agent) (task : Task)
    → (count_by is_agent_update (record_task_start agent task env []).1 ≤ 3)
      × (count_by is_agent_update (remove_task_start agent task env []).1 ≤ 3)
unfolding record_task_start remove_task_start pure
quota_updates_bounded env agent task = (
  on_option_cases (AtMost 3) agent.spec.base.quota _ _ env [] (λ _. omega arith)
      (λ _ _. omega (arith, record_rounds-AtMost 3 env agent task [])),
  on_option_cases (AtMost 3) agent.spec.base.quota _ _ env [] (λ _. omega arith)
      (λ _ _. omega (arith, remove_rounds-AtMost 3 env agent task [])),
)

-- Removing a Task's start from the starts of other Tasks and its own leaves those of the others.
filter_of_others :
    (task : Task) (n : ℤ) (others : List TaskStartRecord)
    → All (λ r. is_of_other_task task r ≡ true) others
    → filter_by (is_of_other_task task) (others ++ start_of task n ∷ []) ≡ others
unfolding is_of_other_task
filter_of_others task n [] h = ground (arith, eq_refl task.meta.name, eq_refl task.meta.namespace)
filter_of_others task n (r ∷ rs) h = ground (arith, filter_of_others task n rs h.1)

-- The rollback: where the Agent has the starts of other Tasks and, last, one of this Task, and the
-- server takes the update, `removeTaskStart` makes two calls, and the second writes the starts of
-- the others back.
pub remove_undoes_record :
    (env : Env) (agent fresh : Agent) (task : Task) (quota : QuotaConfig) (n : ℤ)
    (others : List TaskStartRecord)
    → agent.spec.base.quota ≡ some quota
    → All (λ r. is_of_other_task task r ≡ true) others
    → env.get_agent [] (key_of agent.meta)
      ≡ ok (with_history fresh (others ++ start_of task n ∷ []))
    → env.update_agent_status (Call.get_agent (key_of agent.meta) ∷ []) (with_history fresh others)
      ≡ ok (with_history fresh others)
    → (remove_task_start agent task env []) ≡ (
      ok tt,
      Call.update_agent_status (with_history fresh others) (ok (with_history fresh others))
          ∷ Call.get_agent (key_of agent.meta)
          ∷ [],
    )
unfolding remove_task_start remove_rounds update_or_retry get_agent update_agent_status pure
remove_undoes_record env agent fresh task quota n others configured alone got taken =
    on_option-some agent.spec.base.quota (pure tt) _ env [] quota configured
    ∙ try_call_ok _ _ _ env [] _ got
    ∙ ap
        (λ l.
          update_or_retry (with_history fresh l) (remove_rounds 2 agent task) env
            (Call.get_agent (key_of agent.meta) ∷ []))
        (filter_of_others task n others alone)
    ∙ attempt_ok _ _ _ _ env _ _ taken
