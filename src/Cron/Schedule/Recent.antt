-- ===== src/Cron/Schedule/Recent.antt =====
-- What the loop over the missed activations computes.
use kubeopencode.Prelude.{
  ℕ, zero, suc, ◌∙◌, ◌+◌, ◌≤◌, ◌<◌, ◌≡◌, refl, Option, none, some, false, arith, ltb, ltb→lt,
  Bool-cases, inl, inr, sym, ap,
}
use native.Mathlib.Decide.{dec_le}
use kubeopencode.Prelude.Int.{ℤ, ◌≤ℤ◌, ◌<ℤ◌, ltb_ℤ}
use kubeopencode.Api.CronTask.{CronTask}
use kubeopencode.Cron.Schedule.{
  walk, earliest_time, get_most_recent_schedule_time, max_missed_schedules,
}

-- The k-th activation after an instant.
abbrev pub activation : (ℤ → ℤ) → ℕ → ℤ → ℤ
activation next zero t = t
activation next (suc k) t = next (activation next k t)

-- `recent` is the `missed`-th activation after `start`, all up to it are due at `now`, and unless
-- the loop gave up, the next one is not.
pub record IsRecent (next : ℤ → ℤ) (now start : ℤ) (recent : Option ℤ) (missed : ℕ) : Type 0 where
  pub bounded : missed ≤ max_missed_schedules + 1
  pub none_due : missed ≡ 0 → recent ≡ none
  pub last_due : 0 < missed → recent ≡ some (activation next missed start)
  pub all_due : (k : ℕ) → 0 < k → k ≤ missed → activation next k start ≤ℤ now
  pub next_not_due : missed ≤ max_missed_schedules → now <ℤ activation next (suc missed) start

walk_lem :
    (rounds : ℕ) (next : ℤ → ℤ) (now start : ℤ) (missed : ℕ) (recent : Option ℤ)
    → missed ≤ 100
    → missed + rounds ≡ 101
    → (missed ≡ 0 → recent ≡ none)
    → (0 < missed → recent ≡ some (activation next missed start))
    → ((k : ℕ) → 0 < k → k ≤ missed → activation next k start ≤ℤ now)
    → (r : Option ℤ × ℕ) × (walk rounds next now missed recent (activation next (suc missed) start)
        ≡ some r)
      × IsRecent next now start r.0 r.1
unfolding walk
walk_lem zero next now start missed recent small enough none_due last_due all_due =
    absurd (omega arith)
walk_lem (suc rounds) next now start missed recent small enough none_due last_due all_due =
    elim (Bool-cases (ltb_ℤ now (activation next (suc missed) start))) [
      | inl late ↦ (
        (recent, missed),
        rw late,
        record {
          bounded = omega arith;
          none_due = none_due;
          last_due = last_due;
          all_due = all_due;
          next_not_due = λ _. ltb→lt _ _ late;
        },
      )
      | inr due ↦ rw due (elim (Bool-cases (ltb max_missed_schedules (suc missed))) [
        | inl over ↦ (
          (some (activation next (suc missed) start), suc missed),
          rw over,
          record {
            bounded = omega arith;
            none_due = λ e. absurd (omega arith);
            last_due = λ _. refl;
            all_due = still_due due;
            next_not_due = λ h. absurd (omega (arith, ltb→lt _ _ over));
          },
        )
        | inr more ↦ rw more (
            walk_lem rounds next now start (suc missed) _ (not_over more) (omega arith)
              (λ e. absurd (omega arith)) (λ _. refl) (still_due due))
      ])
    ]
  where
    still_due :
        ltb_ℤ now (activation next (suc missed) start) ≡ false
        → (k : ℕ) → 0 < k
        → k ≤ suc missed
        → activation next k start ≤ℤ now
    still_due due k pos le = elim (dec_le k missed) [
      | yes h ↦ all_due k pos h
      | no h ↦ let e : k ≡ suc missed = omega arith in rw e (ground arith)
    ]

    not_over : ltb max_missed_schedules (suc missed) ≡ false → suc missed ≤ 100
    not_over h = ground arith

-- 101 rounds end the loop: it always returns, whatever the schedule is.
pub walk_total :
    (next : ℤ → ℤ) (now start : ℤ)
    → (r : Option ℤ × ℕ) × (walk 101 next now 0 none (next start) ≡ some r)
      × IsRecent next now start r.0 r.1
walk_total next now start =
    walk_lem 101 next now start 0 none (omega arith) refl (λ _. refl) (λ h. absurd (omega arith))
      (λ k pos le. absurd (omega arith))

-- The reported activation is the last one that is due since the creation or the last schedule,
-- and the count is the number of those that are due, up to 101.
pub get_most_recent_schedule_time-IsRecent :
    (cron : CronTask) (next : ℤ → ℤ) (now : ℤ)
    → IsRecent next now
        (earliest_time cron)
        (get_most_recent_schedule_time cron next now).0
        (get_most_recent_schedule_time cron next now).1
unfolding get_most_recent_schedule_time
get_most_recent_schedule_time-IsRecent cron next now =
    let (r, returned, recent) = walk_total next now (earliest_time cron) in
    rw (returned, get_most_recent_schedule_time) recent

-- Two runs from one start whose loops both give up report the same activation.
IsRecent-full :
    {next : ℤ → ℤ} {now later start : ℤ} {a b : Option ℤ × ℕ}
    → now ≤ℤ later
    → IsRecent next now start a.0 a.1
    → IsRecent next later start b.0 b.1
    → a.1 ≡ 101
    → b ≡ a
IsRecent-full {next} {now} {later} {start} {a} {b} h ra rb full =
    let same : b.1 ≡ 101 = elim (dec_le b.1 100) [
      | yes le ↦
          absurd
            (omega (arith, rb.next_not_due le, ra.all_due (suc b.1) (omega arith) (omega arith)))
      | no gt ↦ omega (arith, rb.bounded)
    ] in
    let ea : a.0 ≡ some (activation next 101 start) =
      ra.last_due (omega arith) ∙ ap (λ k. some (activation next k start)) full in
    let eb : b.0 ≡ some (activation next 101 start) =
      rb.last_due (omega arith) ∙ ap (λ k. some (activation next k start)) same in
    λ i. ((eb ∙ sym ea) i, (same ∙ sym full) i)

-- Once the loop has given up at one instant, it gives up at the same activation at every later one.
pub gave_up_again :
    (cron : CronTask) (next : ℤ → ℤ) (now later : ℤ)
    → now ≤ℤ later
    → (get_most_recent_schedule_time cron next now).1 ≡ 101
    → get_most_recent_schedule_time cron next later ≡ get_most_recent_schedule_time cron next now
gave_up_again cron next now later h full =
    IsRecent-full h (get_most_recent_schedule_time-IsRecent cron next now)
      (get_most_recent_schedule_time-IsRecent cron next later) full
