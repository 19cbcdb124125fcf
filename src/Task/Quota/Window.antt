-- ===== src/Task/Quota/Window.antt =====
-- The quota's window: who may start, and when the next place is free.
use mathlib.Core.Path.{subst}
use kubeopencode.Prelude.{
  leb, ◌⊎◌, ℕ, ◌<◌, ◌≡◌, refl, sym, Bool, true, false, some, List, [], ◌∷◌, arith, ltb, length,
  count_by, length-filter_by, count_by-le-length, Bool-cases, inl, inr,
}
use kubeopencode.Prelude.Int.{ℤ, pos, ◌+ℤ◌, ◌-ℤ◌, ◌≤ℤ◌, ltb_ℤ, leb_ℤ, int32, int32_small, seconds}
use kubeopencode.Api.Errors.{Result, ok}
use kubeopencode.Api.Agent.{Agent, QuotaConfig, TaskStartRecord}
use kubeopencode.Client.{Env, History, Call, library, pure, on_option, call, ◌>>=◌}
use kubeopencode.Client.Calls.{now, until}
use kubeopencode.Task.Quota.{
  default_quota_requeue_delay, started_after, prune_task_start_history, at_least, delay_of_oldest,
  calculate_quota_requeue_delay, check_quota, check_agent_quota,
}

-- The start lies in the window of `window_seconds` that ends at `n`.
abbrev pub in_window : ℕ → ℤ → TaskStartRecord → Bool
in_window window_seconds n r = ltb_ℤ (n -ℤ seconds window_seconds) r.start_time

-- How many starts lie in that window.
abbrev pub starts_in_window : ℕ → ℤ → List TaskStartRecord → ℕ
starts_in_window window_seconds n = count_by (in_window window_seconds n)

at_least-le : (low d : ℤ) → low ≤ℤ at_least low d
at_least-le low d = ground arith

delay_of_oldest_min :
    (env : Env) (h : History) (sorted : List TaskStartRecord) (w : ℕ)
    → (d : ℤ) × ((delay_of_oldest sorted w env h).0 ≡ ok d) × (default_quota_requeue_delay ≤ℤ d)
unfolding delay_of_oldest until now call pure ◌>>=◌
delay_of_oldest_min env h [] w = (default_quota_requeue_delay, refl, omega arith)
delay_of_oldest_min env h (o ∷ os) w =
    (_, refl, at_least-le default_quota_requeue_delay (o.start_time +ℤ seconds w -ℤ env.now h))

-- The delay is always computed, and is at least 30 seconds.
pub calculate_quota_requeue_delay_min :
    (env : Env) (h : History) (history : List TaskStartRecord) (w : ℕ)
    → (d : ℤ) × ((calculate_quota_requeue_delay history w env h).0 ≡ ok d)
      × (default_quota_requeue_delay ≤ℤ d)
unfolding calculate_quota_requeue_delay prune_task_start_history now call library pure ◌>>=◌
calculate_quota_requeue_delay_min env h [] w = (default_quota_requeue_delay, refl, omega arith)
calculate_quota_requeue_delay_min env h (r ∷ rs) w = delay_of_oldest_min env _ _ w

-- The outcome of a check: it admits by the count, or asks for a delay of at least 30 seconds.
abbrev Decides : List TaskStartRecord → QuotaConfig → ℤ → Result (Bool × ℤ) → Type 0
Decides history quota n result =
    (r : Bool × ℤ) × (result ≡ ok r)
    × (r.0 ≡ ltb (starts_in_window quota.window_seconds n history) quota.max_task_starts)
    × ((r.0 ≡ true) ⊎ (default_quota_requeue_delay ≤ℤ r.1))

count_reached :
    (history : List TaskStartRecord) (w max : ℕ) (n : ℤ)
    → length history < 2147483648
    → leb_ℤ (pos max) (int32 (length (started_after (n -ℤ seconds w) history)))
      ≡ leb max (starts_in_window w n history)
unfolding started_after
count_reached history w max n small =
    let few : starts_in_window w n history < 2147483648 =
      omega (arith, count_by-le-length (in_window w n) history) in
    rw (length-filter_by (in_window w n) history)
      (rw (int32_small (starts_in_window w n history) few) (ground arith))

check_quota-Decides :
    (env : Env) (h : History) (history : List TaskStartRecord) (quota : QuotaConfig)
    → length history < 2147483648
    → Decides history quota (env.now h) (check_quota history quota env h).0
unfolding check_quota prune_task_start_history now call pure ◌>>=◌
check_quota-Decides env h history quota small =
    rw (count_reached history quota.window_seconds quota.max_task_starts (env.now h) small)
      (elim (Bool-cases
        (leb quota.max_task_starts (starts_in_window quota.window_seconds (env.now h) history))) [
          | inl full ↦ rw full (
              let (d, returned, least) =
                calculate_quota_requeue_delay_min env (Call.now ∷ h) history quota.window_seconds in
              ((false, d), rw returned, ground arith, inr least))
          | inr free ↦ rw free ((true, pos 0), refl, ground arith, inl refl)
        ])

-- Of a history of less than 2 ^ 31 starts: the check always returns. It admits a Task exactly when
-- fewer starts than the maximum lie in the window that ends at the instant that it reads, and where
-- it does not, it asks for a delay of at least 30 seconds.
pub check_agent_quota-counts :
    (env : Env) (h : History) (agent : Agent) (quota : QuotaConfig)
    → agent.spec.base.quota ≡ some quota
    → length agent.status.task_start_history < 2147483648
    → (r : Bool × ℤ) × ((check_agent_quota agent env h).0 ≡ ok r)
      × (r.0
          ≡ ltb
              (starts_in_window quota.window_seconds (env.now h) agent.status.task_start_history)
              quota.max_task_starts)
      × ((r.0 ≡ true) ⊎ (default_quota_requeue_delay ≤ℤ r.1))
unfolding check_agent_quota on_option
check_agent_quota-counts env h agent quota configured small =
    subst
      (λ o.
        Decides agent.status.task_start_history quota (env.now h)
          (on_option o (pure (true, pos 0)) (λ q. check_quota agent.status.task_start_history q) env
            h).0)
      (sym configured) (check_quota-Decides env h agent.status.task_start_history quota small)
