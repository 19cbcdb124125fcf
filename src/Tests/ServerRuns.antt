-- ===== src/Tests/ServerRuns.antt =====
-- An Agent's server on a concrete cluster.
use kubeopencode.Prelude.{◌≡◌, refl, Bool, true, false, []}
use kubeopencode.Prelude.Int.{pos}
use kubeopencode.Api.Errors.{Result, ok, err}
use kubeopencode.Api.Agent.{Agent}
use kubeopencode.Client.{
  Env, pure, attempt, call, try_call, library, on_result, on_option, ◌>>=◌, ◌>>◌,
}
use kubeopencode.Client.Calls.{
  get_config, get_deployment, update_agent_status, with_condition, event,
}
use kubeopencode.Client.Rules.{Only}
use kubeopencode.Config.System.{resolve_system_config}
use kubeopencode.Server.Status.{
  update_status_of_agent, mark_suspended, mark_active, mark_ready, deployed, set_agent_condition,
  store_status, announce, announce_suspended,
}
use kubeopencode.Server.Status.Mirrors.{StatusStep, update_status_of_agent-StatusStep}
use kubeopencode.Tests.Cluster.{cluster, coder}

abbrev one_replica : Env
one_replica = record (cluster (pos 0)) { get_deployment = λ _ _. ok (pos 1) }

abbrev stopped_coder : Agent
stopped_coder = record coder { spec = record coder.spec { suspend = true } }

abbrev is_ready : Result Agent → Bool
is_ready (ok a) = a.status.ready
is_ready (err _) = false

update_status_of_agent-StatusStep_example :
    Only (StatusStep stopped_coder) (update_status_of_agent stopped_coder)
update_status_of_agent-StatusStep_example = update_status_of_agent-StatusStep stopped_coder

ready_with_a_replica : is_ready (update_status_of_agent coder one_replica []).0 ≡ true
unfolding update_status_of_agent resolve_system_config mark_active mark_ready deployed
    set_agent_condition store_status announce ◌>>=◌ ◌>>◌ attempt on_result try_call pure library
    get_config with_condition get_deployment update_agent_status
ready_with_a_replica = refl

suspended_is_not_ready : is_ready (update_status_of_agent stopped_coder one_replica []).0 ≡ false
unfolding update_status_of_agent resolve_system_config mark_suspended set_agent_condition
    store_status announce announce_suspended ◌>>=◌ ◌>>◌ attempt on_result on_option try_call call
    pure library get_config with_condition event update_agent_status
suspended_is_not_ready = refl
