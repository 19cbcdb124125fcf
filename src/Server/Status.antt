-- ===== src/Server/Status.antt =====
-- `updateAgentStatus` (internal/controller/agent_controller.go).
pub mod Mirrors
use kubeopencode.Prelude.{
  String, Bool, true, false, not, ◌&&◌, Option, none, some, [], ◌∷◌, if◌then◌else◌,
}
use kubeopencode.Prelude.Int.{ℤ, pos, ltb_ℤ}
use kubeopencode.Prelude.Text.{concat, str_eq}
use kubeopencode.Api.Errors.{Error, Message, text, num, is_not_found, errorf, wrap}
use kubeopencode.Api.Meta.{Key, Condition}
use kubeopencode.Api.Agent.{Agent}
use kubeopencode.Client.{E, pure, throw, attempt, library, on_result, on_option, ◌>>=◌, ◌>>◌}
use kubeopencode.Client.Calls.{get_deployment, update_agent_status, with_condition, event}
use kubeopencode.Config.System.{resolve_system_config}
use kubeopencode.Standby.{with_conditions}
use kubeopencode.Task.Start.{or_default_port, server_url}

-- `ServerDeploymentName` and `ServerServiceName`
abbrev pub server_deployment_name : String → String
server_deployment_name agent_name = concat agent_name "-server"

abbrev pub server_service_name : String → String
server_service_name agent_name = agent_name

abbrev pub deployment_key : Agent → Key
deployment_key agent = record {
  name = server_deployment_name agent.meta.name;
  namespace = agent.meta.namespace;
}

-- `setAgentCondition`
unfoldable pub set_agent_condition : Agent → String → Bool → String → Message → E Agent
set_agent_condition agent type status reason message = do
  conditions ← with_condition agent.status.conditions (record {
    type = type;
    status = status;
    observed_generation = agent.meta.generation;
    reason = reason;
    message = message;
  })
  pure (with_conditions agent conditions)

-- The names and the address of the server.
abbrev pub with_server : Agent → String → Agent
with_server agent url = record agent {
  status = record agent.status {
    deployment_name = server_deployment_name agent.meta.name;
    service_name = server_service_name agent.meta.name;
    url = url;
  };
}

abbrev pub with_suspended : Agent → Bool → Agent
with_suspended agent b = record agent { status = record agent.status { suspended = b } }

abbrev pub with_ready : Agent → Bool → Agent
with_ready agent b = record agent { status = record agent.status { ready = b } }

abbrev pub suspend_reason : Agent → String × Message
suspend_reason agent = elim agent.spec.standby [
  | none ↦ ("UserRequested", text "Agent is suspended" [])
  | some s ↦ (
    "Standby",
    text "Agent is suspended (standby configured with %s idle timeout)" (num s.idle_timeout ∷ []),
  )
]

-- The case of a suspended Agent.
unfoldable pub mark_suspended : Agent → E Agent
mark_suspended agent = do
  a ←
      set_agent_condition (with_ready (with_suspended agent true) false) "Suspended" true
        (suspend_reason agent).0 (suspend_reason agent).1
  set_agent_condition a "ServerReady" false "Suspended" (suspend_reason agent).1

-- The two outcomes of reading the Deployment.
unfoldable pub not_deployed : Agent → Error → E Agent
not_deployed agent e =
    if not (is_not_found e)
    then throw (wrap "failed to get Deployment: %w" [] e)
    else set_agent_condition (with_ready agent false) "ServerHealthy" false "DeploymentNotFound"
        (text "Agent deployment not found" [])

unfoldable pub deployed : Agent → ℤ → E Agent
deployed agent ready_replicas =
    if ltb_ℤ (pos 0) ready_replicas
    then set_agent_condition (with_ready agent true) "ServerHealthy" true "DeploymentHealthy"
        (text "Agent deployment is ready" [])
    else set_agent_condition (with_ready agent false) "ServerHealthy" false "DeploymentNotReady"
        (text "Agent deployment is not ready" [])

-- The condition `ServerReady` of an active Agent.
unfoldable pub mark_ready : Agent → E Agent
mark_ready agent =
    if agent.status.ready
    then set_agent_condition agent "ServerReady" true "DeploymentReady"
        (text "Agent deployment is ready" [])
    else set_agent_condition agent "ServerReady" false "DeploymentNotReady"
        (text "Agent deployment is not ready" [])

unfoldable pub mark_active : Agent → E Agent
mark_active agent = do
  a ←
      set_agent_condition (with_suspended agent false) "Suspended" false "Active"
        (text "Agent is active" [])
  found ← attempt (get_deployment (deployment_key agent))
  b ← on_result found (not_deployed a) (deployed a)
  mark_ready b

-- The event of a suspension. The reason `Standby` was just set for a standby alone; without one the
-- code would stop at a nil pointer.
unfoldable pub announce_suspended : Agent → Option Condition → E (Unit {0})
announce_suspended agent cond =
    on_option cond (event "UserSuspended" "Agent suspended by user" []) (λ c.
      if str_eq c.reason "Standby"
      then on_option agent.spec.standby (throw (errorf "nil pointer dereference" [])) (λ s.
        event "StandbySuspended" "Agent auto-suspended after idle timeout (%s)"
          (num s.idle_timeout ∷ []))
      else event "UserSuspended" "Agent suspended by user" [])

-- The events of the transitions.
unfoldable pub announce : Bool → Bool → Agent → E (Unit {0})
announce was_suspended was_ready agent = do
  cond ← library (λ env. env.find_condition agent.status.conditions "Suspended")
  if not was_suspended && agent.status.suspended
      then announce_suspended agent cond
      else if was_suspended && not agent.status.suspended
      then event "Resumed" "Agent resumed" []
      else pure tt
  if not was_ready && agent.status.ready
      then event "Ready" "Agent deployment is ready and accepting tasks" []
      else if was_ready && not agent.status.ready && not agent.status.suspended
      then event "NotReady" "Agent deployment is no longer ready" []
      else pure tt

-- The part after the suspension and the readiness are known.
unfoldable pub store_status : Bool → Bool → Agent → E Agent
store_status was_suspended was_ready agent = do
  announce was_suspended was_ready agent
  updated ← attempt (
      update_agent_status (record agent {
        status = record agent.status { observed_generation = agent.meta.generation };
      }))
  on_result updated (λ e. throw (wrap "failed to update Agent status: %w" [] e)) pure

-- `updateAgentStatus`
unfoldable pub update_status_of_agent : Agent → E Agent
update_status_of_agent agent = do
  sys ← resolve_system_config
  format ← library (λ env. env.format_int)
  let url =
      server_url agent.meta.name agent.meta.namespace (format (or_default_port agent.spec.port))
        sys.cluster_domain
  marked ←
      if agent.spec.suspend
      then mark_suspended (with_server agent url)
      else mark_active (with_server agent url)
  store_status agent.status.suspended agent.status.ready marked
