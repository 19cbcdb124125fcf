-- ===== src/Server/Status/Mirrors.antt =====
-- What `updateAgentStatus` writes.
use kubeopencode.Prelude.{
  ◌≡◌, refl, sym, Bool, not, true, false, ◌&&◌, Option, if◌then◌else◌, String,
}
use kubeopencode.Prelude.Text.{str_eq}
use kubeopencode.Prelude.Int.{ℤ, pos, ltb_ℤ}
use kubeopencode.Api.Errors.{Error, Result, Message}
use kubeopencode.Api.Meta.{Condition}
use kubeopencode.Api.Agent.{Agent}
use kubeopencode.Client.{Env, Call, E, on_result}
use mathlib.Core.Path.{subst}
use kubeopencode.Client.Rules.{
  Only, Ensures, Only-bind, Only-bind-Ensures, Only-attempt, Only-if, Only-library, Only-then,
  Only-on_option, only_rules,
}
use kubeopencode.Client.Rules.Calls.{Only-get_deployment, call_rules}
use kubeopencode.Client.Rules.Returns.{
  Ensures-pure, Ensures-throw, Ensures-bind, Ensures-after, Ensures-if, Ensures-test,
  Ensures-on_result,
}
use kubeopencode.Config.System.{resolve_system_config}
use kubeopencode.Server.Status.{
  deployment_key, set_agent_condition, with_server, with_ready, mark_suspended, not_deployed,
  deployed, mark_ready, mark_active, announce_suspended, announce, store_status,
  update_status_of_agent,
}

-- The Agent `a` is `agent` with another status that mirrors the suspension `s`: it has the same
-- idle timer and the same record of starts, and it is not ready while it is suspended.
abbrev pub Mirrors : Agent → Bool → Agent → Type 0
Mirrors agent s a =
    (a.meta ≡ agent.meta)
    × (a.spec ≡ agent.spec)
    × (a.status.task_start_history ≡ agent.status.task_start_history)
    × (a.status.idle_since ≡ agent.status.idle_since)
    × (a.status.suspended ≡ s)
    × ((s && a.status.ready) ≡ false)

module _ (agent : Agent) (s : Bool) where
  set-Mirrors :
      (x : Agent) (type : String) (status : Bool) (reason : String) (message : Message)
      → Mirrors agent s x
      → Ensures (Mirrors agent s) (set_agent_condition x type status reason message)
  unfolding set_agent_condition
  set-Mirrors x type status reason message m = Ensures-bind _ _ (λ c. Ensures-pure _ m)

  mark_ready-Mirrors : (x : Agent) → Mirrors agent s x → Ensures (Mirrors agent s) (mark_ready x)
  unfolding mark_ready
  mark_ready-Mirrors x m =
      Ensures-if x.status.ready _ _ (set-Mirrors x _ _ _ _ m) (set-Mirrors x _ _ _ _ m)

module _ (agent : Agent) where
  mark_suspended-Mirrors :
      (url : String) → Ensures (Mirrors agent true) (mark_suspended (with_server agent url))
  unfolding mark_suspended
  mark_suspended-Mirrors url =
      Ensures-after (Mirrors agent true) _ _
        (set-Mirrors agent true _ _ _ _ _ (refl, refl, refl, refl, refl, refl))
        (λ a k. set-Mirrors agent true a _ _ _ _ k)

  not_deployed-Mirrors :
      (x : Agent) (e : Error)
      → Mirrors agent false x
      → Ensures (Mirrors agent false) (not_deployed x e)
  unfolding not_deployed
  not_deployed-Mirrors x e m =
      Ensures-if _ _ _ (Ensures-throw _) (set-Mirrors agent false (with_ready x false) _ _ _ _ m)

  deployed-Mirrors :
      (x : Agent) (n : ℤ) → Mirrors agent false x → Ensures (Mirrors agent false) (deployed x n)
  unfolding deployed
  deployed-Mirrors x n m =
      Ensures-if (ltb_ℤ (pos 0) n) _ _ (set-Mirrors agent false (with_ready x true) _ _ _ _ m)
        (set-Mirrors agent false (with_ready x false) _ _ _ _ m)

  mark_active-Mirrors :
      (url : String) → Ensures (Mirrors agent false) (mark_active (with_server agent url))
  unfolding mark_active
  mark_active-Mirrors url =
      Ensures-after (Mirrors agent false) _ _
        (set-Mirrors agent false _ _ _ _ _ (refl, refl, refl, refl, refl, refl))
        (λ a k. Ensures-bind _ _ (λ found.
          Ensures-after (Mirrors agent false) _ _
            (Ensures-on_result found _ _ (λ e. not_deployed-Mirrors a e k)
              (λ n. deployed-Mirrors a n k))
            (λ b. mark_ready-Mirrors agent false b)))

-- A read of the Agent's own Deployment or of the configuration, an event, or a status of the Agent
-- that mirrors its suspension.
abbrev pub StatusStep : Agent → Env → Call → Type 0
StatusStep agent env Call.get_config = Unit
StatusStep agent env (Call.get_deployment k) = k ≡ deployment_key agent
StatusStep agent env (Call.event _ _ _) = Unit
StatusStep agent env (Call.update_agent_status a _) = Mirrors agent agent.spec.suspend a
StatusStep agent env _ = ⊥

module _ (agent : Agent) where
  suspended-Step :
      (x : Agent) (c : Option Condition) → Only (StatusStep agent) (announce_suspended x c)
  unfolding announce_suspended
  suspended-Step x c =
      Only-on_option c _ _ (λ _. search call_rules)
        (λ cond _.
          Only-if (str_eq cond.reason "Standby") _ _ (λ _. search (only_rules, call_rules))
            (λ _. search call_rules))

  announce-Step : (s r : Bool) (x : Agent) → Only (StatusStep agent) (announce s r x)
  unfolding announce
  announce-Step s r x = Only-bind _ _ (Only-library _) (λ cond.
      Only-then _ _
        (Only-if (not s && x.status.suspended) _ _ (λ _. suspended-Step x cond)
          (λ _. search (only_rules, call_rules)))
        (search (only_rules, call_rules)))

  store_status-Step :
      (s r : Bool) (x : Agent)
      → Mirrors agent agent.spec.suspend x
      → Only (StatusStep agent) (store_status s r x)
  unfolding store_status
  store_status-Step s r x m = search (only_rules, call_rules, announce-Step)

  set-Step :
      (x : Agent) (type : String) (status : Bool) (reason : String) (message : Message)
      → Only (StatusStep agent) (set_agent_condition x type status reason message)
  unfolding set_agent_condition
  set-Step x type status reason message = search (only_rules, call_rules)

  mark_suspended-Step : (x : Agent) → Only (StatusStep agent) (mark_suspended x)
  unfolding mark_suspended
  mark_suspended-Step x = search (only_rules, set-Step)

  after_deployment-Step :
      (x : Agent) (found : Result ℤ)
      → Only (StatusStep agent) (on_result found (not_deployed x) (deployed x))
  unfolding not_deployed deployed
  after_deployment-Step x found = search (only_rules, set-Step)

  mark_ready-Step : (x : Agent) → Only (StatusStep agent) (mark_ready x)
  unfolding mark_ready
  mark_ready-Step x = search (only_rules, set-Step)

  mark_active-Step : (url : String) → Only (StatusStep agent) (mark_active (with_server agent url))
  unfolding mark_active
  mark_active-Step url = Only-bind _ _ (set-Step _ _ _ _ _) (λ x.
      Only-bind _ _ (Only-attempt _ (Only-get_deployment _ (λ env. refl)))
        (λ found. Only-bind _ _ (after_deployment-Step x found) mark_ready-Step))

  config-Step : Only (StatusStep agent) resolve_system_config
  unfolding resolve_system_config
  config-Step = Only-bind _ _ (Only-attempt _ (search call_rules)) (λ r. search only_rules)

  marked : String → E Agent
  marked url =
      if agent.spec.suspend
      then mark_suspended (with_server agent url)
      else mark_active (with_server agent url)

  marked-Step : (url : String) → Only (StatusStep agent) (marked url)
  unfolding marked
  marked-Step url =
      Only-if _ _ _ (λ _. mark_suspended-Step (with_server agent url)) (λ _. mark_active-Step url)

  marked-Mirrors : (url : String) → Ensures (Mirrors agent agent.spec.suspend) (marked url)
  unfolding marked
  marked-Mirrors url =
      Ensures-test agent.spec.suspend _ _
        (λ e.
          subst (λ s. Ensures (Mirrors agent s) (mark_suspended (with_server agent url))) (sym e)
            (mark_suspended-Mirrors agent url))
        (λ e.
          subst (λ s. Ensures (Mirrors agent s) (mark_active (with_server agent url))) (sym e)
            (mark_active-Mirrors agent url))

-- Whatever the answers, the status of an Agent is updated by reading its own Deployment and the
-- configuration of the cluster, by events, and by writing the Agent with a new status alone: its
-- suspension is that of the specification, it is not ready while it is suspended, and its idle
-- timer and its record of starts stay.
pub update_status_of_agent-StatusStep :
    (agent : Agent) → Only (StatusStep agent) (update_status_of_agent agent)
unfolding update_status_of_agent marked
update_status_of_agent-StatusStep agent = Only-bind _ _ (config-Step agent) (λ sys.
    Only-bind _ _ (Only-library _) (λ format.
      Only-bind-Ensures (Mirrors agent agent.spec.suspend) _ _ (marked-Step agent _)
        (marked-Mirrors agent _) (λ x m. store_status-Step agent _ _ x m)))
