-- ===== src/Standby.antt =====
-- The standby of an Agent: it is suspended when it was idle for long enough, and resumed when a Task
-- waits for it (internal/controller/agent_controller.go). A handler returns the Agent as it is left
-- in memory, for the status update that follows.
pub mod Decisions
pub mod Progress
use kubeopencode.Prelude.{
  ℕ, suc, ◌/◌, String, Bool, true, false, not, ◌&&◌, Option, none, some, List, [], ◌∷◌, is_some,
  ltb, count_by, if◌then◌else◌,
}
use kubeopencode.Prelude.Int.{ℤ, pos, negsuc, ◌-ℤ◌, ltb_ℤ, leb_ℤ}
use kubeopencode.Prelude.Text.{lookup, str_eq}
use kubeopencode.Api.Errors.{wrap, str, num, text}
use kubeopencode.Api.Meta.{Conditions}
use kubeopencode.Api.Agent.{Agent}
use kubeopencode.Api.Task.{Task, TaskPhase, unset, pending, queued, running}
use kubeopencode.Client.{E, pure, throw, attempt, library, on_result, on_option, ◌>>=◌, ◌>>◌}
use kubeopencode.Client.Calls.{now, since, list_tasks, patch_agent, with_condition}

-- `AnnotationLastConnectionActive`
abbrev pub annotation_last_connection_active : String
annotation_last_connection_active = "kubeopencode.io/last-connection-active"

-- `ConnectionHeartbeatInterval` and `ConnectionHeartbeatStaleness`
abbrev pub connection_heartbeat_interval : ℤ
connection_heartbeat_interval = pos 60000000000

abbrev pub connection_heartbeat_staleness : ℤ
connection_heartbeat_staleness = pos 120000000000

-- The phases that `countActiveTasks` counts.
unfoldable pub is_active : TaskPhase → Bool
is_active running = true
is_active queued = true
is_active pending = true
is_active unset = true
is_active _ = false

-- `countActiveTasks`
unfoldable pub count_active_tasks : String → String → E ℕ
count_active_tasks name namespace = do
  listed ← attempt (list_tasks namespace (some ("kubeopencode.io/agent", name)))
  on_result listed (λ e. throw (wrap "failed to list tasks for agent %q: %w" (str name ∷ []) e))
      (λ tasks. pure (count_by (λ t. is_active t.status.phase) tasks))

-- The heartbeat of the annotation, where it is an instant.
unfoldable pub is_recent : String → ℤ → E Bool
is_recent val staleness = if str_eq val "" then pure false else (do
  parse ← library (λ env. env.parse_time)
  on_result (parse val) (λ _. pure false)
      (λ t. do elapsed ← since t; pure (ltb_ℤ elapsed staleness)))

-- `hasActiveConnection`
unfoldable pub has_active_connection : Agent → ℤ → E Bool
has_active_connection agent staleness =
    on_option (lookup annotation_last_connection_active agent.meta.annotations) (pure false)
      (λ val. is_recent val staleness)

-- `d / 2` of Go, which rounds to 0.
abbrev pub half : ℤ → ℤ
half (pos n) = pos (n / 2)
half (negsuc n) = pos 0 -ℤ pos (suc n / 2)

abbrev pub with_conditions : Agent → Conditions → Agent
with_conditions agent conditions = record agent {
  status = record agent.status { conditions = conditions };
}

-- The threshold of `reconcileHeartbeatStaleness` for an idle timeout.
unfoldable pub staleness_for : ℤ → ℤ
staleness_for idle_timeout =
    if ltb_ℤ idle_timeout connection_heartbeat_staleness
    then (if ltb_ℤ (half idle_timeout) connection_heartbeat_interval
        then connection_heartbeat_interval
        else half idle_timeout)
    else connection_heartbeat_staleness

-- `reconcileHeartbeatStaleness` of an Agent with a standby: the Agent with its warning set or cleared.
unfoldable pub reconcile_heartbeat_staleness : Agent → ℤ → E Agent
reconcile_heartbeat_staleness agent idle_timeout =
    if ltb_ℤ idle_timeout connection_heartbeat_staleness
    then (do
      conditions ← with_condition agent.status.conditions (record {
        type = "StandbyConfigWarning";
        status = true;
        observed_generation = agent.meta.generation;
        reason = "IdleTimeoutTooShort";
        message =
            text
              "idleTimeout (%s) is less than connection heartbeat staleness (%s); connection-aware detection may be degraded"
              (num idle_timeout ∷ num connection_heartbeat_staleness ∷ []);
      })
      pure (with_conditions agent conditions))
    else (do
      conditions ←
          library (λ env. env.remove_condition agent.status.conditions "StandbyConfigWarning")
      pure (with_conditions agent conditions))

abbrev pub with_idle : Agent → Option ℤ → Agent
with_idle agent idle = record agent { status = record agent.status { idle_since = idle } }

-- A resumed Agent gets a full idle timeout again.
unfoldable pub after_resume : Agent → Agent
after_resume agent =
    if not agent.spec.suspend && agent.status.suspended then with_idle agent none else agent

abbrev pub with_suspend : Agent → Bool → Agent
with_suspend agent b = record agent { spec = record agent.spec { suspend = b } }

-- The patch of `spec.suspend`, whose answer replaces the object.
unfoldable pub patch_suspend : Agent → Bool → String → E (Agent × Bool)
patch_suspend agent b failure = do
  patched ← attempt (patch_agent (with_suspend agent b))
  on_result patched (λ e. throw (wrap failure [] e)) (λ a. pure (a, true))

-- The case of active Tasks.
unfoldable pub with_tasks : Agent → E (Agent × Bool)
with_tasks agent =
    if agent.spec.suspend
    then patch_suspend (with_idle agent none) false
        "failed to patch spec.suspend=false for auto-resume: %w"
    else pure (with_idle agent none, false)

-- The case of neither Tasks nor a connection: the idle timer starts, runs, or is over.
unfoldable pub without_work : Agent → ℤ → E (Agent × Bool)
without_work agent idle_timeout =
    on_option agent.status.idle_since (do n ← now; pure (with_idle agent (some n), false))
      (λ idle_since. if agent.spec.suspend then pure (agent, false) else (do
        elapsed ← since idle_since
        if leb_ℤ idle_timeout elapsed
            then patch_suspend agent true "failed to patch spec.suspend=true for auto-suspend: %w"
            else pure (agent, false)))

-- `reconcileStandby` of an Agent with a standby.
unfoldable pub run_standby : Agent → ℤ → E (Agent × Bool)
run_standby agent idle_timeout = do
  warned ← reconcile_heartbeat_staleness agent idle_timeout
  active ← count_active_tasks agent.meta.name agent.meta.namespace
  connected ← has_active_connection agent (staleness_for idle_timeout)
  if ltb 0 active
      then with_tasks (after_resume warned)
      else if connected
      then pure (with_idle (after_resume warned) none, false)
      else without_work (after_resume warned) idle_timeout

-- `reconcileStandby`: the Agent, and whether `spec.suspend` was patched.
unfoldable pub reconcile_standby : Agent → E (Agent × Bool)
reconcile_standby agent =
    on_option agent.spec.standby (pure (with_idle agent none, false))
      (λ standby. run_standby agent standby.idle_timeout)
