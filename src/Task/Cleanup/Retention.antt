-- ===== src/Task/Cleanup/Retention.antt =====
-- The retention limit deletes the oldest finished Tasks, as many as there are too many.
use kubeopencode.Prelude.{
  ℕ, zero, suc, ◌+◌, ◌-◌, ◌≡◌, refl, sym, ap, ◌∙◌, String, Bool, true, false, none, List, [], ◌∷◌,
  arith, length, All, take, drop, count_by, count_by-append, take-append-drop, length-take,
  length-eq-count_by, filter_by,
}
use kubeopencode.Prelude.Text.{str_ltb_asym, str_ltb_step}
use kubeopencode.Prelude.Sort.{IsOrder, IsSorted, Sorts}
use kubeopencode.Api.Errors.{Error, Result, ok, err, is_not_found}
use kubeopencode.Api.Task.{Task}
use kubeopencode.Client.{Env, History, Call, pure, throw, library, ◌>>=◌}
use kubeopencode.Client.Calls.{list_tasks, delete_task}
use kubeopencode.Client.Cases.{attempt_cases, if_cases, try_call_ok}
use kubeopencode.Task.Cleanup.{
  is_finished_with_time, completed_before, delete_tasks, excess_tasks, check_retention_cleanup,
}

completed_before-IsOrder : IsOrder completed_before
unfolding completed_before
completed_before-IsOrder = record {
  asym = λ a b h. ground (arith, str_ltb_asym a.meta.name b.meta.name);
  step = λ a b c h k. ground (
    arith,
    str_ltb_step a.meta.name b.meta.name c.meta.name,
    str_ltb_asym b.meta.name c.meta.name,
    str_ltb_asym a.meta.name b.meta.name,
  );
}

-- The Tasks whose deletion was asked for, newest first.
abbrev pub deleted_tasks : History → List Task
deleted_tasks [] = []
deleted_tasks (Call.delete_task t r ∷ h) = t ∷ deleted_tasks h
deleted_tasks (c ∷ h) = deleted_tasks h

abbrev pub reverse_onto : List Task → List Task → List Task
reverse_onto [] done = done
reverse_onto (t ∷ ts) done = reverse_onto ts (t ∷ done)

-- The server deletes the Task, or says that it is gone.
abbrev pub is_gone : {A : Type 0} → Result A → Bool
is_gone (ok a) = true
is_gone (err e) = is_not_found e

abbrev DeletesAll : List Task → History → Result (Unit {0}) × History → Type 0
DeletesAll ts h p = (p.0 ≡ ok tt) × (deleted_tasks p.1 ≡ reverse_onto ts (deleted_tasks h))

delete_tasks-DeletesAll :
    (env : Env)
    → ((h : History) (t : Task) → is_gone (env.delete_task h t) ≡ true)
    → (ts : List Task) (h : History) → DeletesAll ts h (delete_tasks ts env h)
unfolding delete_tasks delete_task pure
delete_tasks-DeletesAll env gone [] h = (refl, refl)
delete_tasks-DeletesAll env gone (t ∷ ts) h =
    attempt_cases (DeletesAll (t ∷ ts) h) _ _ _ _ env h
      (λ _ _. delete_tasks-DeletesAll env gone ts _)
      (λ e failed.
        if_cases (DeletesAll (t ∷ ts) h) (is_not_found e) (delete_tasks ts) (throw e) env _
          (λ _. delete_tasks-DeletesAll env gone ts _)
          (λ present. absurd (cc_gone e present (ap is_gone (sym failed) ∙ gone h t))))
  where
    cc_gone : (e : Error) → is_not_found e ≡ false → is_not_found e ≡ true → ⊥
    cc_gone e a b = cc

module _ {A : Type 0} where
  -- What is sorted puts nothing behind the cut before it.
  sorted_cut :
      (less : A → A → Bool) (n : ℕ) (xs : List A)
      → IsSorted less xs
      → All (λ d. All (λ k. less k d ≡ false) (drop n xs)) (take n xs)
  sorted_cut less zero xs s = tt
  sorted_cut less (suc n) [] s = tt
  sorted_cut less (suc n) (x ∷ xs) s = (All-drop n xs s.0, sorted_cut less n xs s.1)
    where
      All-drop :
          (n : ℕ) (ys : List A)
          → All (λ k. less k x ≡ false) ys
          → All (λ k. less k x ≡ false) (drop n ys)
      All-drop zero ys h = h
      All-drop (suc n) [] h = tt
      All-drop (suc n) (y ∷ ys) h = All-drop n ys h.1

-- `sort.Slice` sorts, the list call returns `listed`, and the server deletes every Task that it is
-- asked to or says that it is gone. The finished Tasks with a completion time then fall into
-- `oldest` and `kept`: exactly `oldest` is deleted, it has as many Tasks as there are over the
-- limit, and no kept Task comes before a deleted one by completion time and name.
pub retention_deletes_oldest :
    (env : Env) (h : History) (namespace : String) (max : ℕ) (listed : List Task)
    → Sorts env.sort_tasks
    → env.list_tasks h namespace none ≡ ok listed
    → ((h' : History) (t : Task) → is_gone (env.delete_task h' t) ≡ true)
    → (oldest : List Task) × (kept : List Task) × ((check_retention_cleanup namespace max env h).0
        ≡ ok tt)
      × (deleted_tasks (check_retention_cleanup namespace max env h).1
          ≡ reverse_onto oldest (deleted_tasks h))
      × (length oldest ≡ length (filter_by is_finished_with_time listed) - max)
      × ((p : Task → Bool)
          → count_by p oldest + count_by p kept
            ≡ count_by p (filter_by is_finished_with_time listed))
      × All (λ d. All (λ k. completed_before k d ≡ false) kept) oldest
unfolding check_retention_cleanup list_tasks library excess_tasks ◌>>=◌
retention_deletes_oldest env h namespace max listed sorts answered gone =
    let finished = filter_by is_finished_with_time listed in
    let sorted = env.sort_tasks completed_before finished in
    let over = length finished - max in
    let run : check_retention_cleanup namespace max env h
        ≡ delete_tasks (take over sorted) env (Call.list_tasks namespace none ∷ h) =
      try_call_ok _ _ _ env h listed answered in
    let all =
      delete_tasks-DeletesAll env gone (take over sorted) (Call.list_tasks namespace none ∷ h) in
    (
      take over sorted,
      drop over sorted,
      ap (λ r. r.0) run ∙ all.0,
      ap (λ r. deleted_tasks r.1) run ∙ all.1,
      omega (
        arith,
        length-take over sorted,
        length-eq-count_by sorted,
        length-eq-count_by finished,
        sorts.keeps completed_before finished (λ _. true),
      ),
      (λ p. omega (
        arith,
        count_by-append p (take over sorted) (drop over sorted),
        ap (count_by p) (take-append-drop over sorted),
        sorts.keeps completed_before finished p,
      )),
      sorted_cut completed_before over sorted
          (sorts.sorted completed_before finished completed_before-IsOrder),
    )
