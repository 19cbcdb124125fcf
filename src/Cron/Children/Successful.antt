-- ===== src/Cron/Children/Successful.antt =====
-- `updateLastSuccessfulTime` finds the latest completion.
use mathlib.Core.Path.{subst}
use kubeopencode.Prelude.{
  sym, ◌<◌, ◌≡◌, refl, Bool, true, false, ◌&&◌, Option, none, some, List, [], ◌∷◌, arith, is_some,
  All, count_by, Bool-cases, Option-cases, inl, inr,
}
use kubeopencode.Prelude.Int.{ℤ, ltb_ℤ, eqb_ℤ}
use kubeopencode.Prelude.Sort.{IsOrder, IsSorted, Sorts}
use kubeopencode.Api.Errors.{ok}
use kubeopencode.Api.Task.{Task}
use kubeopencode.Api.CronTask.{CronTask}
use kubeopencode.Client.{Env, History, library, pure, ◌>>=◌}
use kubeopencode.Cron.Children.{
  completed_later, is_completed, first_completion, or_else, with_last_successful_time,
  update_last_successful_time,
}

-- The Task completed, and at an instant of which `p` holds.
abbrev pub completed_when : (ℤ → Bool) → Task → Bool
completed_when p t =
    is_completed t.status.phase && elim t.status.completion_time [ none ↦ false | some c ↦ p c ]

-- `o` is the latest completion time of the completed Tasks, or there is none.
abbrev pub IsLatest : List Task → Option ℤ → Type 0
IsLatest ts none = count_by (completed_when (λ _. true)) ts ≡ 0
IsLatest ts (some t) =
    (0 < count_by (completed_when (eqb_ℤ t)) ts) × (count_by (completed_when (ltb_ℤ t)) ts ≡ 0)

pub completed_later-IsOrder : IsOrder completed_later
unfolding completed_later
completed_later-IsOrder = record { asym = λ a b h. ground arith; step = λ a b c h k. ground arith }

none_later :
    (x : Task) (t : ℤ) (ts : List Task)
    → x.status.completion_time ≡ some t
    → All (λ y. completed_later y x ≡ false) ts
    → count_by (completed_when (ltb_ℤ t)) ts ≡ 0
unfolding completed_later
none_later x t [] e h = refl
none_later x t (y ∷ ys) e h = ground (arith, none_later x t ys e h.1)

abbrev has_completion : Task → Bool
has_completion x = is_completed x.status.phase && is_some x.status.completion_time

IsLatest-skip :
    (x : Task) (xs : List Task) (o : Option ℤ)
    → has_completion x ≡ false
    → IsLatest xs o
    → IsLatest (x ∷ xs) o
IsLatest-skip x xs none e h = ground arith
IsLatest-skip x xs (some t) e h = (ground arith, ground arith)

IsLatest-head :
    (x : Task) (xs : List Task) (t : ℤ)
    → has_completion x ≡ true
    → x.status.completion_time ≡ some t
    → All (λ y. completed_later y x ≡ false) xs
    → IsLatest (x ∷ xs) (some t)
IsLatest-head x xs t e c h = (ground arith, ground (arith, none_later x t xs c h))

first_completion-IsLatest :
    (ts : List Task) → IsSorted completed_later ts → IsLatest ts (first_completion ts)
unfolding first_completion
first_completion-IsLatest [] s = refl
first_completion-IsLatest (x ∷ xs) s = elim (Bool-cases (has_completion x)) [
  | inl e ↦ elim (Option-cases x.status.completion_time) [
    | inl absent ↦ absurd (ground arith)
    | inr (t, present) ↦
        rw e (subst (IsLatest (x ∷ xs)) (sym present) (IsLatest-head x xs t e present s.0))
  ]
  | inr e ↦ rw e (IsLatest-skip x xs (first_completion xs) e (first_completion-IsLatest xs s.1))
]

IsLatest-count :
    (xs ys : List Task) (o : Option ℤ)
    → ((p : Task → Bool) → count_by p xs ≡ count_by p ys)
    → IsLatest xs o
    → IsLatest ys o
IsLatest-count xs ys none same h = omega (arith, same (completed_when (λ _. true)))
IsLatest-count xs ys (some t) same h = (
  omega (arith, h.0, same (completed_when (eqb_ℤ t))),
  omega (arith, h.1, same (completed_when (ltb_ℤ t))),
)

-- If `sort.Slice` sorts, `updateLastSuccessfulTime` always returns, and records the latest completion
-- time of the completed Tasks; without one it keeps the time that was there.
pub update_last_successful_time-IsLatest :
    (env : Env) (h : History) (cron : CronTask) (finished : List Task)
    → Sorts env.sort_tasks
    → (o : Option ℤ) × IsLatest finished o
      × ((update_last_successful_time cron finished env h).0
          ≡ ok (record cron {
            status = record cron.status {
              last_successful_time = or_else o cron.status.last_successful_time;
            };
          }))
unfolding update_last_successful_time library pure ◌>>=◌ with_last_successful_time
update_last_successful_time-IsLatest env h cron finished sorts =
    let sorted = env.sort_tasks completed_later finished in
    (
      first_completion sorted,
      IsLatest-count sorted finished (first_completion sorted)
          (sorts.keeps completed_later finished)
          (first_completion-IsLatest sorted
            (sorts.sorted completed_later finished completed_later-IsOrder)),
      refl,
    )
