-- ===== src/Tests/StandbyRuns.antt =====
-- Runs of the standby of an Agent.
use kubeopencode.Prelude.{refl, true, false, some, [], ◌∷◌, arith}
use kubeopencode.Prelude.Int.{pos, ◌+ℤ◌, ◌≤ℤ◌}
use kubeopencode.Api.Errors.{ok}
use kubeopencode.Api.Agent.{Agent}
use kubeopencode.Client.{Env}
use kubeopencode.Client.Rules.{Only}
use kubeopencode.Standby.{is_active, reconcile_standby}
use kubeopencode.Standby.Decisions.{Flips, reconcile_standby-Flips}
use kubeopencode.Standby.Progress.{Patches, standby_resumes, standby_suspends}
use kubeopencode.Tests.Cluster.{cluster, coder, fix_it}

-- Idle since second 100, with an idle timeout of ten minutes.
abbrev idle_coder : Agent
idle_coder = record coder {
  spec = record coder.spec { standby = some (record { idle_timeout = pos 600000000000 }) };
  status = record coder.status { idle_since = some (pos 100000000000) };
}

abbrev asleep_coder : Agent
asleep_coder = record idle_coder { spec = record idle_coder.spec { suspend = true } }

abbrev with_a_task : Env
with_a_task = record (cluster (pos 0)) { list_tasks = λ _ _ _. ok (fix_it ∷ []) }

reconcile_standby-Flips_example : Only (Flips idle_coder) (reconcile_standby idle_coder)
reconcile_standby-Flips_example = reconcile_standby-Flips idle_coder

standby_resumes_example : Patches asleep_coder false (reconcile_standby asleep_coder with_a_task [])
unfolding is_active
standby_resumes_example =
    standby_resumes with_a_task [] asleep_coder (record { idle_timeout = pos 600000000000 })
      (fix_it ∷ []) refl (λ h. refl) (λ h a. refl) refl (omega arith)

over_at_700 : (pos 100000000000 +ℤ pos 600000000000) ≤ℤ pos 700000000000
unfolding ◌+ℤ◌
over_at_700 = omega arith

standby_suspends_example :
    Patches idle_coder true (reconcile_standby idle_coder (cluster (pos 700000000000)) [])
standby_suspends_example =
    standby_suspends (cluster (pos 700000000000)) [] idle_coder
      (record { idle_timeout = pos 600000000000 }) [] refl (λ h. refl) (λ h a. refl)
      (pos 100000000000) (pos 700000000000) refl refl refl refl refl (λ h. refl) over_at_700
