-- ===== src/Standby/Progress.antt =====
-- That the standby does suspend and resume an Agent (internal/controller/agent_controller.go).
use mathlib.Core.Path.{subst}
use kubeopencode.Prelude.{
  ◌≡◌, refl, sym, ap, ◌∙◌, String, Bool, true, false, none, some, List, ◌∷◌, ltb, ◌<◌, count_by,
  if◌then◌else◌, arith,
}
use kubeopencode.Prelude.Int.{ℤ, ◌+ℤ◌, ◌-ℤ◌, ◌≤ℤ◌, leb_ℤ, +ℤ_parts, -ℤ_parts, ltb_ℤ}
use kubeopencode.Prelude.Text.{str_eq, lookup}
use kubeopencode.Api.Errors.{Result, ok, err}
use kubeopencode.Api.Meta.{Conditions}
use kubeopencode.Api.Agent.{Agent, StandbyConfig}
use kubeopencode.Api.Task.{Task}
use kubeopencode.Client.{
  Env, Call, History, ◌>>=◌, pure, try_call, attempt, on_result, on_option, call, library,
}
use kubeopencode.Client.Calls.{now, since, list_tasks, patch_agent, with_condition}
use kubeopencode.Client.Cases.{bind_ok, on_option-some, if_cases, on_option_cases}
use kubeopencode.Standby.{
  is_active, count_active_tasks, is_recent, has_active_connection, with_conditions, with_idle,
  after_resume, with_suspend, patch_suspend, with_tasks, without_work,
  reconcile_heartbeat_staleness, run_standby, reconcile_standby, staleness_for,
  annotation_last_connection_active, connection_heartbeat_staleness,
}

-- A run that returns some result.
abbrev Returned : {A : Type 0} → Result A × History → Type 0
Returned {A} p = (a : A) × (h : History) × (p ≡ (ok a, h))

-- A run that returns the Agent with some conditions.
abbrev Conditioned : Agent → Result Agent × History → Type 0
Conditioned agent p = (c : Conditions) × (h : History) × (p ≡ (ok (with_conditions agent c), h))

module _ (env : Env) (h : History) where
  heartbeat_ok :
      (agent : Agent) (d : ℤ) → Conditioned agent (reconcile_heartbeat_staleness agent d env h)
  unfolding reconcile_heartbeat_staleness with_condition library pure ◌>>=◌
  heartbeat_ok agent d =
      if_cases (Conditioned agent) (ltb_ℤ d connection_heartbeat_staleness) _ _ env h
        (λ _. (_, _, refl)) (λ _. (_, _, refl))

  count_ok :
      (name namespace : String) (ts : List Task)
      → env.list_tasks h namespace (some ("kubeopencode.io/agent", name)) ≡ ok ts
      → count_active_tasks name namespace env h ≡ (
        ok (count_by (λ t. is_active t.status.phase) ts),
        Call.list_tasks namespace (some ("kubeopencode.io/agent", name)) ∷ h,
      )
  unfolding count_active_tasks list_tasks try_call attempt on_result pure ◌>>=◌
  count_ok name namespace ts e = rw e refl

  parsed_ok :
      (staleness : ℤ) (r : Result ℤ)
      → Returned (
          on_result r
            (λ _. pure false)
            (λ t. do elapsed ← since t; pure (ltb_ℤ elapsed staleness))
            env
            h)
  unfolding on_result since now call pure ◌>>=◌
  parsed_ok staleness (ok t) = (_, _, refl)
  parsed_ok staleness (err e) = (_, _, refl)

  recent_ok : (val : String) (staleness : ℤ) → Returned (is_recent val staleness env h)
  unfolding is_recent library pure ◌>>=◌
  recent_ok val staleness =
      if_cases Returned (str_eq val "") _ _ env h (λ _. (_, _, refl))
        (λ _. parsed_ok staleness (env.parse_time val))

  connection_ok :
      (agent : Agent) (staleness : ℤ) → Returned (has_active_connection agent staleness env h)
  unfolding has_active_connection pure
  connection_ok agent staleness =
      on_option_cases Returned (lookup annotation_last_connection_active agent.meta.annotations) _ _
        env h (λ _. (_, _, refl)) (λ v _. recent_ok v staleness)

  no_connection :
      (agent : Agent) (staleness : ℤ)
      → lookup annotation_last_connection_active agent.meta.annotations ≡ none
      → has_active_connection agent staleness env h ≡ (ok false, h)
  unfolding has_active_connection on_option pure
  no_connection agent staleness e =
      ap (λ o. on_option o (pure false) (λ val. is_recent val staleness) env h) e

  patch_ok :
      (agent patched : Agent) (b : Bool) (failure : String)
      → env.patch_agent h (with_suspend agent b) ≡ ok patched
      → patch_suspend agent b failure env h
        ≡ (ok (patched, true), Call.patch_agent (with_suspend agent b) (ok patched) ∷ h)
  unfolding patch_suspend patch_agent try_call attempt on_result pure ◌>>=◌
  patch_ok agent patched b failure e = rw e refl

resume_keeps-suspend :
    (a : Agent) (b : Bool) → (if b then with_idle a none else a).spec.suspend ≡ a.spec.suspend
resume_keeps-suspend a true = refl
resume_keeps-suspend a false = refl

resume_keeps-meta : (a : Agent) (b : Bool) → (if b then with_idle a none else a).meta ≡ a.meta
resume_keeps-meta a true = refl
resume_keeps-meta a false = refl

resume_keeps-idle_since :
    (a : Agent) (b : Bool)
    → b ≡ false
    → (if b then with_idle a none else a).status.idle_since ≡ a.status.idle_since
resume_keeps-idle_since a true e = absurd (ground arith)
resume_keeps-idle_since a false e = refl

-- The server takes every patch of the Agent.
abbrev pub TakesPatches : Env → Type 0
TakesPatches env = (h : History) (a : Agent) → env.patch_agent h a ≡ ok a

-- The last call of the run is the patch of the given Agent that sets `spec.suspend` to `b`, which
-- the server takes, and the run returns the patched Agent.
abbrev pub Patches : Agent → Bool → Result (Agent × Bool) × History → Type 0
Patches agent b p =
    (a : Agent) × (h : History) × (p ≡ (ok (a, true), Call.patch_agent a (ok a) ∷ h))
    × (a.spec.suspend ≡ b)
    × (a.meta ≡ agent.meta)

with_tasks-Patches :
    (agent : Agent) (env : Env) (h : History) (a : Agent)
    → a.meta ≡ agent.meta
    → a.spec.suspend ≡ true
    → TakesPatches env
    → Patches agent false (with_tasks a env h)
unfolding with_tasks
with_tasks-Patches agent env h a same e takes =
    if_cases (Patches agent false) a.spec.suspend _ _ env h
      (λ _. (_, _, patch_ok env h _ _ false _ (takes h _), refl, same)) (λ f. absurd (ground arith))

without_work-Patches :
    (agent : Agent) (env : Env) (h : History) (a : Agent) (d t : ℤ)
    → a.meta ≡ agent.meta
    → a.spec.suspend ≡ false
    → a.status.idle_since ≡ some t
    → (t +ℤ d) ≤ℤ env.now h
    → TakesPatches env
    → Patches agent true (without_work a d env h)
unfolding without_work since now call pure ◌>>=◌
without_work-Patches agent env h a d t same e idle over takes =
    on_option_cases (Patches agent true) a.status.idle_since _ _ env h (λ f. absurd (ground arith))
      (λ t' f.
        if_cases (Patches agent true) a.spec.suspend _ _ env h (λ g. absurd (ground arith))
          (λ _.
            if_cases (Patches agent true) (leb_ℤ d (env.now h -ℤ t')) _ _ env (Call.now ∷ h)
              (λ _. (_, _, patch_ok env (Call.now ∷ h) a _ true _ (takes _ _), refl, same))
              (λ g.
                absurd
                  (ground (arith, +ℤ_parts t d, -ℤ_parts (env.now h) t, -ℤ_parts (env.now h) t')))))

module _ (env : Env) (h : History) (agent : Agent) (standby : StandbyConfig) (ts : List Task)
    (configured : agent.spec.standby ≡ some standby)
    (listed : (h' : History)
      → env.list_tasks h' agent.meta.namespace (some ("kubeopencode.io/agent", agent.meta.name))
        ≡ ok ts)
    (takes : TakesPatches env) where
  -- A suspended Agent with a standby, for which the API server lists a Task that is not finished, is
  -- resumed by the next run, if the server takes the patch: the last call of the run is the patch of
  -- that Agent that unsets `spec.suspend`.
  pub standby_resumes :
      agent.spec.suspend ≡ true
      → 0 < count_by (λ t. is_active t.status.phase) ts
      → Patches agent false (reconcile_standby agent env h)
  unfolding reconcile_standby run_standby after_resume
  standby_resumes asleep some_active =
      let (c, h1, warned) = heartbeat_ok env h agent standby.idle_timeout in
      let counted = count_ok env h1 agent.meta.name agent.meta.namespace ts (listed h1) in
      let (b, h2, connected) = connection_ok env _ agent (staleness_for standby.idle_timeout) in
      subst (Patches agent false)
        (sym (
          on_option-some _ _ _ env h standby configured
          ∙ bind_ok _ _ env h h1 _ warned
          ∙ bind_ok _ _ env h1 _ _ counted
          ∙ bind_ok _ _ env _ h2 b connected))
        (if_cases (Patches agent false) (ltb 0 (count_by (λ t. is_active t.status.phase) ts)) _ _
          env h2
          (λ _.
            with_tasks-Patches agent env h2 _ (resume_keeps-meta _ _)
              (resume_keeps-suspend _ _ ∙ asleep) takes)
          (λ f. absurd (ground arith)))

  -- An Agent with a standby that is neither suspended nor just resumed, without unfinished Tasks and
  -- without a heartbeat of a connection, and idle since at least the idle timeout, is suspended by
  -- the next run, if the server takes the patch: the last call of the run is the patch of that Agent
  -- that sets `spec.suspend`.
  pub standby_suspends :
      (t n : ℤ)
      → agent.spec.suspend ≡ false
      → agent.status.suspended ≡ false
      → agent.status.idle_since ≡ some t
      → count_by (λ t. is_active t.status.phase) ts ≡ 0
      → lookup annotation_last_connection_active agent.meta.annotations ≡ none
      → ((h' : History) → env.now h' ≡ n)
      → (t +ℤ standby.idle_timeout) ≤ℤ n
      → Patches agent true (reconcile_standby agent env h)
  unfolding reconcile_standby run_standby after_resume
  standby_suspends t n awake settled idle no_tasks silent clock over =
      let (c, h1, warned) = heartbeat_ok env h agent standby.idle_timeout in
      let counted = count_ok env h1 agent.meta.name agent.meta.namespace ts (listed h1) in
      let h2 =
        Call.list_tasks agent.meta.namespace (some ("kubeopencode.io/agent", agent.meta.name))
        ∷ h1 in
      subst (Patches agent true)
        (sym (
          on_option-some _ _ _ env h standby configured
          ∙ bind_ok _ _ env h h1 _ warned
          ∙ bind_ok _ _ env h1 _ _ counted
          ∙ bind_ok _ _ env _ h2 false (no_connection env h2 agent _ silent)))
        (if_cases (Patches agent true) (ltb 0 (count_by (λ t. is_active t.status.phase) ts)) _ _ env
          h2 (λ f. absurd (ground arith))
          (λ _.
            without_work-Patches agent env h2 _ _ t (resume_keeps-meta _ _)
              (resume_keeps-suspend _ _ ∙ awake) (resume_keeps-idle_since _ _ (ground arith) ∙ idle)
              (subst (λ m. (t +ℤ standby.idle_timeout) ≤ℤ m) (sym (clock h2)) over) takes))
