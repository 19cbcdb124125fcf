-- ===== src/Standby/Decisions.antt =====
-- When the standby suspends and resumes an Agent (internal/controller/agent_controller.go).
use mathlib.Core.Path.{subst}
use kubeopencode.Prelude.{
  ◌≡◌, refl, sym, ap, String, Bool, true, false, not, ◌&&◌, none, is_some, ltb, if◌then◌else◌,
  arith,
}
use kubeopencode.Prelude.Text.{str_eq}
use kubeopencode.Prelude.Int.{ℤ, leb_ℤ}
use kubeopencode.Api.Errors.{Result}
use kubeopencode.Api.Meta.{Conditions}
use kubeopencode.Api.Agent.{Agent}
use kubeopencode.Client.{Env, Call}
use kubeopencode.Client.Rules.{
  Only, Ensures, Only-bind, Only-bind-Ensures, Only-if, Only-on_option, Only-pure, Only-attempt,
  Only-library, only_rules,
}
use kubeopencode.Client.Rules.Calls.{call_rules, Only-patch_agent}
use kubeopencode.Client.Rules.Returns.{Ensures-pure, Ensures-bind, Ensures-if}
use kubeopencode.Standby.{
  count_active_tasks, is_recent, has_active_connection, with_conditions, with_idle, after_resume,
  with_suspend, patch_suspend, with_tasks, without_work, reconcile_heartbeat_staleness, run_standby,
  reconcile_standby,
}

-- A patch of the Agent flips `spec.suspend`, and it suspends only an Agent that was idle already
-- when the run began, and was not just resumed. Nothing else is written.
abbrev pub Flips : Agent → Env → Call → Type 0
Flips agent env (Call.patch_agent a r) =
    (a.spec.suspend ≡ not agent.spec.suspend)
    × (a.meta ≡ agent.meta)
    × (a.spec.suspend ≡ true
        → (is_some agent.status.idle_since ≡ true) × (agent.status.suspended ≡ false))
Flips agent env (Call.update_agent_status a r) = ⊥
Flips agent env (Call.update_task t r) = ⊥
Flips agent env (Call.update_task_status t r) = ⊥
Flips agent env (Call.create_task t r) = ⊥
Flips agent env (Call.delete_task t r) = ⊥
Flips agent env _ = Unit

-- The second Agent is the first but for its conditions.
abbrev Warned : Agent → Agent → Type 0
Warned agent a = (conditions : Conditions) × (a ≡ with_conditions agent conditions)

heartbeat-Ensures :
    (agent : Agent) (d : ℤ) → Ensures (Warned agent) (reconcile_heartbeat_staleness agent d)
unfolding reconcile_heartbeat_staleness
heartbeat-Ensures agent d =
    Ensures-if _ _ _ (Ensures-bind _ _ (λ c. Ensures-pure _ (c, refl)))
      (Ensures-bind _ _ (λ c. Ensures-pure _ (c, refl)))

heartbeat-Flips : (agent a : Agent) (d : ℤ) → Only (Flips agent) (reconcile_heartbeat_staleness a d)
unfolding reconcile_heartbeat_staleness
heartbeat-Flips agent a d = search (only_rules, call_rules)

count-Flips : (agent : Agent) (n m : String) → Only (Flips agent) (count_active_tasks n m)
unfolding count_active_tasks
count-Flips agent n m = search (only_rules, call_rules)

is_recent-Flips : (agent : Agent) (v : String) (s : ℤ) → Only (Flips agent) (is_recent v s)
unfolding is_recent
is_recent-Flips agent v s =
    Only-if (str_eq v "") _ _ (λ _. Only-pure false)
      (λ _. Only-bind _ _ (Only-library _) (λ p. search (only_rules, call_rules)))

connection-Flips : (agent a : Agent) (s : ℤ) → Only (Flips agent) (has_active_connection a s)
unfolding has_active_connection
connection-Flips agent a s = search (only_rules, is_recent-Flips)

patch-Flips :
    (agent a : Agent) (b : Bool) (failure : String)
    → ((env : Env) (r : Result Agent) → Flips agent env (Call.patch_agent (with_suspend a b) r))
    → Only (Flips agent) (patch_suspend a b failure)
unfolding patch_suspend
patch-Flips agent a b failure f =
    Only-bind _ _ (Only-attempt _ (Only-patch_agent _ f)) (λ r. search only_rules)

with_tasks-Flips :
    (agent a : Agent)
    → a.spec.suspend ≡ agent.spec.suspend
    → a.meta ≡ agent.meta
    → Only (Flips agent) (with_tasks a)
unfolding with_tasks
with_tasks-Flips agent a e m =
    Only-if a.spec.suspend _ _
      (λ t. patch-Flips agent _ false _ (λ env r. (ground arith, m, λ f. ground arith)))
      (λ _. search only_rules)

without_work-Flips :
    (agent a : Agent) (d : ℤ)
    → a.spec.suspend ≡ agent.spec.suspend
    → a.meta ≡ agent.meta
    → (a.spec.suspend ≡ false
        → is_some a.status.idle_since ≡ true
        → (is_some agent.status.idle_since ≡ true) × (agent.status.suspended ≡ false))
    → Only (Flips agent) (without_work a d)
unfolding without_work
without_work-Flips agent a d e m idle =
    Only-on_option _ _ _ (λ _. search (only_rules, call_rules))
      (λ t s.
        Only-if a.spec.suspend _ _ (λ _. search only_rules)
          (λ awake. Only-bind _ _ (search call_rules) (λ elapsed.
            Only-if (leb_ℤ d elapsed) _ _
              (λ _.
                patch-Flips agent a true _
                  (λ env r. (ground arith, m, λ _. idle awake (ap is_some s))))
              (λ _. Only-pure _))))

-- What resuming leaves of an Agent.
abbrev Resumed : Agent → Agent → Type 0
Resumed agent x =
    (x.spec.suspend ≡ agent.spec.suspend)
    × (x.meta ≡ agent.meta)
    × (x.spec.suspend ≡ false
        → is_some x.status.idle_since ≡ true
        → (is_some agent.status.idle_since ≡ true) × (agent.status.suspended ≡ false))

choose :
    (agent : Agent) (c : Conditions) (s t : Bool)
    → agent.spec.suspend ≡ s
    → agent.status.suspended ≡ t
    → Resumed agent
        (if not s && t then with_idle (with_conditions agent c) none else with_conditions agent c)
choose agent c true t e f = (refl, refl, λ g k. absurd (ground arith))
choose agent c false true e f = (refl, refl, λ g k. absurd (ground arith))
choose agent c false false e f = (refl, refl, λ g k. (k, f))

resumed : (agent a : Agent) → Warned agent a → Resumed agent (after_resume a)
unfolding after_resume
resumed agent a (c, e) =
    subst (λ x. Resumed agent (after_resume x)) (sym e)
      (choose agent c agent.spec.suspend agent.status.suspended refl refl)

-- Whatever the answers, the standby writes an Agent only by a patch that flips `spec.suspend`; and it
-- suspends only an Agent whose idle timer ran when the run began, and that was not just resumed.
pub reconcile_standby-Flips : (agent : Agent) → Only (Flips agent) (reconcile_standby agent)
unfolding reconcile_standby run_standby
reconcile_standby-Flips agent =
    Only-on_option _ _ _ (λ _. search only_rules)
      (λ standby _.
        Only-bind-Ensures (Warned agent) _ _ (heartbeat-Flips agent agent _)
          (heartbeat-Ensures agent _)
          (λ a w.
            let (e, m, idle) = resumed agent a w in
            Only-bind _ _ (count-Flips agent _ _) (λ active.
              Only-bind _ _ (connection-Flips agent _ _) (λ connected.
                Only-if (ltb 0 active) _ _ (λ _. with_tasks-Flips agent _ e m)
                  (λ _.
                    Only-if connected _ _ (λ _. search only_rules)
                      (λ _. without_work-Flips agent _ _ e m idle))))))
