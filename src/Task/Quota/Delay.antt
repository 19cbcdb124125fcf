-- ===== src/Task/Quota/Delay.antt =====
-- The delay of a refused Task ends when a place in the window is free.
use mathlib.Core.Path.{subst}
use kubeopencode.Prelude.{
  ℕ, ◌≤◌, ◌<◌, ◌≡◌, refl, sym, ap, ◌∙◌, true, false, List, [], ◌∷◌, arith, length, All, count_by,
  length-eq-count_by, length-filter_by, count_by-le-length, count_by-filter_by, count_by-all,
  List-cases, inl, inr,
}
use kubeopencode.Prelude.Int.{ℤ, ◌+ℤ◌, ◌-ℤ◌, ◌≤ℤ◌, ◌<ℤ◌, seconds, +ℤ_parts, -ℤ_parts}
use kubeopencode.Prelude.Sort.{IsOrder, IsSorted, Sorts}
use kubeopencode.Api.Errors.{ok}
use kubeopencode.Api.Agent.{TaskStartRecord}
use kubeopencode.Client.{Env, History, Call, library, pure, call, ◌>>=◌}
use kubeopencode.Client.Calls.{now, until}
use kubeopencode.Task.Quota.{
  default_quota_requeue_delay, started_after, prune_task_start_history, started_before, at_least,
  delay_of_oldest, calculate_quota_requeue_delay,
}
use kubeopencode.Task.Quota.Window.{in_window, starts_in_window}

started_before-IsOrder : IsOrder started_before
unfolding started_before
started_before-IsOrder = record { asym = λ a b h. ground arith; step = λ a b c h k. ground arith }

module _ (env : Env) (sorts : Sorts env.sort_records) (w : ℕ) (n : ℤ)
    (history : List TaskStartRecord) where
  active : List TaskStartRecord
  active = started_after (n -ℤ seconds w) history

  sorted : List TaskStartRecord
  unfolding active
  sorted = env.sort_records started_before active

  -- Every sorted start is in the window, and there are as many as the window has.
  length-sorted : length sorted ≡ starts_in_window w n history
  unfolding sorted started_after
  length-sorted = omega (
    arith,
    length-eq-count_by sorted,
    sorts.keeps started_before active (λ _. true),
    length-eq-count_by active,
    length-filter_by (in_window w n) history,
  )

  -- A later window has as many of the sorted starts as of all.
  count-sorted : (m : ℤ) → n ≤ℤ m → count_by (in_window w m) sorted ≡ starts_in_window w m history
  unfolding sorted started_after
  count-sorted m later =
      sorts.keeps started_before active (in_window w m)
      ∙ count_by-filter_by (in_window w m) (in_window w n) history
          (λ r inside. ground (arith, -ℤ_parts m (seconds w), -ℤ_parts n (seconds w)))

  -- From when the oldest start has left the window, a place is free.
  frees :
      (o : TaskStartRecord) (os : List TaskStartRecord) (m : ℤ)
      → sorted ≡ o ∷ os
      → n ≤ℤ m
      → o.start_time +ℤ seconds w ≤ℤ m
      → starts_in_window w m history < starts_in_window w n history
  frees o os m e later left =
      let gone : in_window w m o ≡ false =
        ground (arith, +ℤ_parts o.start_time (seconds w), -ℤ_parts m (seconds w)) in
      let fewer : count_by (in_window w m) sorted ≤ length os =
        rw e (rw gone (count_by-le-length (in_window w m) os)) in
      omega
        (arith, count-sorted m later, length-sorted, ap (λ (l : List TaskStartRecord). length l) e)

  inside :
      (o : TaskStartRecord) (m : ℤ) (os : List TaskStartRecord)
      → m <ℤ o.start_time +ℤ seconds w
      → All (λ r. started_before r o ≡ false) os
      → All (λ r. in_window w m r ≡ true) os
  unfolding started_before
  inside o m [] early h = tt
  inside o m (r ∷ rs) early h = (
    ground (arith, h.0, +ℤ_parts o.start_time (seconds w), -ℤ_parts m (seconds w)),
    inside o m rs early h.1,
  )

  -- Until the oldest start leaves the window, no place is free.
  none_free :
      (o : TaskStartRecord) (os : List TaskStartRecord) (m : ℤ)
      → sorted ≡ o ∷ os
      → n ≤ℤ m
      → m <ℤ o.start_time +ℤ seconds w
      → starts_in_window w m history ≡ starts_in_window w n history
  none_free o os m e later early =
      let order : IsSorted started_before (o ∷ os) =
        subst (IsSorted started_before) e
          (unfold sorted in sorts.sorted started_before active started_before-IsOrder) in
      let first : in_window w m o ≡ true =
        ground (arith, +ℤ_parts o.start_time (seconds w), -ℤ_parts m (seconds w)) in
      let whole : count_by (in_window w m) sorted ≡ length sorted =
        subst (λ l. count_by (in_window w m) l ≡ length l) (sym e)
          (count_by-all (in_window w m) (o ∷ os) (first, inside o m os early order.0)) in
      omega (arith, count-sorted m later, length-sorted)

le-at_least : (low d : ℤ) → d ≤ℤ at_least low d
le-at_least low d = ground arith

over_minimum : (low d : ℤ) → low <ℤ at_least low d → at_least low d ≡ d
over_minimum low d h = ground arith

delay_oldest :
    (env : Env) (sorts : Sorts env.sort_records) (h : History) (history : List TaskStartRecord)
    (w : ℕ)
    → 0 < starts_in_window w (env.now h) history
    → (o : TaskStartRecord) × (os : List TaskStartRecord) × (sorted env sorts w (env.now h) history
        ≡ o ∷ os)
      × ((calculate_quota_requeue_delay history w env h).0
          ≡ ok (
              at_least default_quota_requeue_delay
                (o.start_time +ℤ seconds w -ℤ env.now (Call.now ∷ h))))
unfolding calculate_quota_requeue_delay prune_task_start_history delay_of_oldest until now call
    library pure sorted active ◌>>=◌
delay_oldest env sorts h [] w some_start = absurd (omega arith)
delay_oldest env sorts h (r ∷ rs) w some_start =
    elim (List-cases (sorted env sorts w (env.now h) (r ∷ rs))) [
      | inl e ↦ absurd (
          omega (
            arith,
            length-sorted env sorts w (env.now h) (r ∷ rs),
            ap (λ (l : List TaskStartRecord). length l) e,
          ))
      | inr (o, os, e) ↦ (
        o,
        os,
        e,
        subst
            (λ l.
              (delay_of_oldest l w env (Call.now ∷ h)).0
              ≡ ok (
                  at_least default_quota_requeue_delay
                    (o.start_time +ℤ seconds w -ℤ env.now (Call.now ∷ h))))
            (sym e) refl,
      )
    ]

ok-injective : {A : Type 0} {a b : A} → ok a ≡ ok b → a ≡ b
ok-injective e = cc

-- `sort.Slice` sorts, and some start lies in the window that ends when the delay is computed. The
-- delay is then long enough: at every later instant `m` that is not before its end, fewer starts
-- lie in the window.
pub delay_frees_a_start :
    (env : Env) (h : History) (history : List TaskStartRecord) (w : ℕ) (d m : ℤ)
    → Sorts env.sort_records
    → 0 < starts_in_window w (env.now h) history
    → (calculate_quota_requeue_delay history w env h).0 ≡ ok d
    → env.now h ≤ℤ m
    → env.now (Call.now ∷ h) +ℤ d ≤ℤ m
    → starts_in_window w m history < starts_in_window w (env.now h) history
delay_frees_a_start env h history w d m sorts some_start computed later waited =
    let (o, os, e, form) = delay_oldest env sorts h history w some_start in
    let delay = ok-injective (sym computed ∙ form) in
    frees env sorts w (env.now h) history o os m e later (
      let long : env.now (Call.now ∷ h)
            +ℤ at_least default_quota_requeue_delay
                (o.start_time +ℤ seconds w -ℤ env.now (Call.now ∷ h))
          ≤ℤ m =
        rw (← delay) waited in
      omega (
        arith,
        +ℤ_parts,
        -ℤ_parts,
        le-at_least default_quota_requeue_delay
            (o.start_time +ℤ seconds w -ℤ env.now (Call.now ∷ h)),
      ))

-- `sort.Slice` sorts, and some start lies in the window that ends when the delay is computed. A
-- delay over the minimum of 30 seconds is then not longer than needed: at every later instant `m`
-- before its end, as many starts lie in the window.
pub delay_is_tight :
    (env : Env) (h : History) (history : List TaskStartRecord) (w : ℕ) (d m : ℤ)
    → Sorts env.sort_records
    → 0 < starts_in_window w (env.now h) history
    → (calculate_quota_requeue_delay history w env h).0 ≡ ok d
    → default_quota_requeue_delay <ℤ d
    → env.now h ≤ℤ m
    → m <ℤ env.now (Call.now ∷ h) +ℤ d
    → starts_in_window w m history ≡ starts_in_window w (env.now h) history
delay_is_tight env h history w d m sorts some_start computed over later early =
    let (o, os, e, form) = delay_oldest env sorts h history w some_start in
    let left = o.start_time +ℤ seconds w -ℤ env.now (Call.now ∷ h) in
    let delay : d ≡ at_least default_quota_requeue_delay left =
      ok-injective (sym computed ∙ form) in
    let same : d ≡ left =
      delay ∙ over_minimum default_quota_requeue_delay left (rw (← delay) over) in
    let early' : m <ℤ env.now (Call.now ∷ h) +ℤ left = rw (← same) early in
    none_free env sorts w (env.now h) history o os m e later (omega (arith, +ℤ_parts, -ℤ_parts))
