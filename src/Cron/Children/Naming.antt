-- ===== src/Cron/Children/Naming.antt =====
-- The names of child Tasks make `createTask` idempotent for one activation.
use text.Mathlib.TextLemmas.{append_cancel_left}
use kubeopencode.Prelude.{◌≡◌, ◌↔◌, ap, sym, ◌∙◌, String, ◌+◌, ◌*◌, ◌≤◌, ◌<◌, arith}
use kubeopencode.Prelude.Int.{ℤ, pos, negsuc}
use kubeopencode.Prelude.Text.{concat}
use kubeopencode.Api.CronTask.{CronTask}
use kubeopencode.Cron.Children.{unix, child_name}
use mathlib.Core.Path.{subst}

-- The instant `t`, in nanoseconds, is in the second that begins `u` seconds after the epoch.
abbrev pub InSecond : ℤ → ℤ → Type 0
InSecond (pos u) (pos t) = (u * 1000000000 ≤ t) × (t < (u + 1) * 1000000000)
InSecond (negsuc u) (negsuc t) = (u * 1000000000 ≤ t) × (t < (u + 1) * 1000000000)
InSecond _ _ = ⊥

unix-InSecond : (t : ℤ) → InSecond (unix t) t
unfolding unix
unix-InSecond (pos n) = (omega arith, omega arith)
unix-InSecond (negsuc n) = (omega arith, omega arith)

only_second : (u t : ℤ) → InSecond u t → u ≡ unix t
unfolding unix
only_second (pos u) (pos t) (low, high) = ap pos (omega arith)
only_second (negsuc u) (negsuc t) (low, high) = ap negsuc (omega arith)
only_second (pos u) (negsuc t) h = elim h [ ]
only_second (negsuc u) (pos t) h = elim h [ ]

-- If `%d` tells numbers apart, two activations of a CronTask have one child name exactly when some
-- whole second since the epoch has both in it.
pub child_name-eq_iff :
    (format : ℤ → String) (cron : CronTask) (s t : ℤ)
    → ((a b : ℤ) → format a ≡ format b → a ≡ b)
    → (child_name format cron s ≡ child_name format cron t)
      ↔ ((u : ℤ) × InSecond u s × InSecond u t)
unfolding child_name
child_name-eq_iff format cron s t injective = (
  λ e.
      let same =
        injective (unix s) (unix t)
          (append_cancel_left "-" _ _ (append_cancel_left cron.meta.name _ _ e)) in
      (unix s, unix-InSecond s, subst (λ u. InSecond u t) (sym same) (unix-InSecond t)),
  λ (u, in_s, in_t).
      ap (λ u. concat cron.meta.name (concat "-" (format u)))
        (sym (only_second u s in_s) ∙ only_second u t in_t),
)
