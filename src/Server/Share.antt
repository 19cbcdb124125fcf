-- ===== src/Server/Share.antt =====
-- The public link of an Agent (internal/controller/share.go): a Secret with a random token.
use kubeopencode.Prelude.{
  String, Bool, true, false, not, ◌&&◌, Option, none, some, [], ◌∷◌, if◌then◌else◌,
}
use kubeopencode.Prelude.Int.{ℤ, pos, leb_ℤ}
use kubeopencode.Prelude.Text.{concat}
use kubeopencode.Api.Errors.{text, num, is_not_found, wrap}
use kubeopencode.Api.Meta.{Key}
use kubeopencode.Api.Agent.{Agent, ShareConfig, ShareStatus}
use kubeopencode.Client.{E, pure, throw, attempt, library, on_result, on_option, ◌>>=◌, ◌>>◌}
use kubeopencode.Client.Calls.{get_secret, create_secret, delete_secret, random_token, until}
use kubeopencode.Standby.{with_conditions}
use kubeopencode.Server.Status.{set_agent_condition}

-- `ShareSecretName`
abbrev pub share_secret_name : String → String
share_secret_name agent_name = concat agent_name "-share"

abbrev pub share_key : Agent → Key
share_key agent = record {
  name = share_secret_name agent.meta.name;
  namespace = agent.meta.namespace;
}

abbrev pub with_share : Agent → Option ShareStatus → Agent
with_share agent share = record agent { status = record agent.status { share = share } }

-- The deletion, for which the Secret may be gone already.
unfoldable pub delete_share : Key → E (Unit {0})
delete_share key = do
  deleted ← attempt (delete_secret key)
  on_result deleted
      (λ e.
        if not (is_not_found e)
        then throw (wrap "failed to delete share Secret: %w" [] e)
        else pure tt)
      (λ _. pure tt)

-- `cleanupShare`. An error of `Get` means that there is nothing to delete.
unfoldable pub cleanup_share : Agent → E Agent
cleanup_share agent = do
  existing ← attempt (get_secret (share_key agent))
  on_result existing (λ _. pure tt) (λ _. delete_share (share_key agent))
  conditions ← library (λ env. env.remove_condition agent.status.conditions "ShareReady")
  pure (with_conditions (with_share agent none) conditions)

-- `generateShareToken`
unfoldable pub generate_share_token : E String
generate_share_token = do
  token ← attempt random_token
  on_result token (λ e. throw (wrap "failed to read random bytes: %w" [] e)) pure

-- A new Secret, owned by the Agent.
unfoldable pub create_share : Key → E (Unit {0})
create_share key = do
  token ← attempt generate_share_token
  on_result token (λ e. throw (wrap "failed to generate share token: %w" [] e))
      (λ t. do
        created ← attempt (create_secret key t)
        on_result created (λ e. throw (wrap "failed to create share Secret: %w" [] e)) pure)

unfoldable pub ensure_share : Key → E (Unit {0})
ensure_share key = do
  existing ← attempt (get_secret key)
  on_result existing
      (λ e.
        if not (is_not_found e)
        then throw (wrap "failed to get share Secret: %w" [] e)
        else create_share key)
      pure

-- Whether the link is expired, and the time that remains.
unfoldable pub check_expiry : Option ℤ → E (Bool × ℤ)
check_expiry expires_at = on_option expires_at (pure (false, pos 0)) (λ t. do
  remaining ← until t
  pure (if leb_ℤ remaining (pos 0) then (true, pos 0) else (false, remaining)))

-- The condition of the link.
unfoldable pub share_condition : Agent → Bool → Option ℤ → E Agent
share_condition agent expired expires_at =
    if expired
    then set_agent_condition agent "ShareReady" false "Expired"
        (text "Share link expired at %s" (elim expires_at [ none ↦ [] | some t ↦ num t ∷ [] ]))
    else if not agent.status.ready
    then set_agent_condition agent "ShareReady" false "AgentNotReady"
        (text "Share link is inactive because the Agent is not ready" [])
    else set_agent_condition agent "ShareReady" true "Active" (text "Share link is active" [])

abbrev pub share_status : Agent → Bool → ShareStatus
share_status agent expired = record {
  active = not expired && agent.status.ready;
  secret_name = share_secret_name agent.meta.name;
}

-- The part of an Agent that is shared.
unfoldable pub share_agent : Agent → ShareConfig → E (Agent × ℤ)
share_agent agent share = do
  ensure_share (share_key agent)
  (expired, after) ← check_expiry share.expires_at
  conditioned ←
      share_condition (with_share agent (some (share_status agent expired))) expired
        share.expires_at
  pure (conditioned, after)

unfoldable pub unshare_agent : Agent → E (Agent × ℤ)
unshare_agent agent = do cleaned ← cleanup_share agent; pure (cleaned, pos 0)

-- `reconcileShare`: the Agent as it is left in memory, and when to look again.
unfoldable pub reconcile_share : Agent → E (Agent × ℤ)
reconcile_share agent =
    on_option agent.spec.share (unshare_agent agent)
      (λ share. if share.enabled then share_agent agent share else unshare_agent agent)
