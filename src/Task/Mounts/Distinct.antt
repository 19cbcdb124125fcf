-- ===== src/Task/Mounts/Distinct.antt =====
-- The check of the mounts accepts them exactly when their paths are distinct
-- (internal/controller/task_controller.go).
use text.Mathlib.TextEquality.{eq_iff}
use kubeopencode.Prelude.{
  ◌≡◌, refl, sym, ap, ◌∙◌, String, Bool, true, false, not, ◌&&◌, List, [], ◌∷◌, ◌++◌, map, Option,
  none, some, is_some, arith,
}
use kubeopencode.Prelude.Text.{Dict, lookup, insert, lookup-insert, has_key, mem, distinct}
use kubeopencode.Api.Errors.{Result, ok, err, Error}
use kubeopencode.Task.Mounts.{
  FileMount, DirMount, GitMount, add_mounts, and_then, validate_mount_path_conflicts, file_conflict,
  dir_conflict, git_conflict, dir_source, git_source,
}

abbrev pub is_ok : {A : Type 0} → Result A → Bool
is_ok (ok _) = true
is_ok (err _) = false

-- The same, from the front, with the paths seen before.
abbrev fresh : List String → List String → Bool
fresh keys [] = true
fresh keys (p ∷ ps) = not (mem p keys) && fresh (p ∷ keys) ps

abbrev onto : List String → List String → List String
onto keys [] = keys
onto keys (p ∷ ps) = onto (p ∷ keys) ps

abbrev apart : List String → List String → Bool
apart keys [] = true
apart keys (p ∷ ps) = not (mem p keys) && apart keys ps

apart-cons :
    (p : String) (keys ps : List String) → apart (p ∷ keys) ps ≡ not (mem p ps) && apart keys ps
apart-cons p keys [] = refl
apart-cons p keys (q ∷ ps) = ground (arith, eq_iff p q, eq_iff q p, apart-cons p keys ps)

fresh-eq : (keys ps : List String) → fresh keys ps ≡ (distinct ps && apart keys ps)
fresh-eq keys [] = refl
fresh-eq keys (p ∷ ps) = ground (arith, fresh-eq (p ∷ keys) ps, apart-cons p keys ps)

fresh-append :
    (keys ps qs : List String) → fresh keys (ps ++ qs) ≡ (fresh keys ps && fresh (onto keys ps) qs)
fresh-append keys [] qs = refl
fresh-append keys (p ∷ ps) qs = ground (arith, fresh-append (p ∷ keys) ps qs)

apart-[] : (ps : List String) → apart [] ps ≡ true
apart-[] [] = refl
apart-[] (p ∷ ps) = apart-[] ps

fresh-distinct : (ps : List String) → fresh [] ps ≡ distinct ps
fresh-distinct ps = ground (arith, fresh-eq [] ps, apart-[] ps)

-- The map holds the paths that were seen.
abbrev Holds : Dict String → List String → Type 0
Holds seen keys = (k : String) → has_key k seen ≡ mem k keys

Holds-insert :
    (p v : String) (seen : Dict String) (keys : List String)
    → Holds seen keys
    → Holds (insert p v seen) (p ∷ keys)
Holds-insert p v seen keys holds k = ground (arith, lookup-insert p k v seen, holds k)

-- What one loop does.
abbrev Checked : List String → List String → Result (Dict String) → Type 0
Checked keys ps (ok seen) = (fresh keys ps ≡ true) × Holds seen (onto keys ps)
Checked keys ps (err _) = fresh keys ps ≡ false

step :
    (o : Option String) (p : String) (keys ps : List String) (rest : Result (Dict String))
    (conflict : String → Error)
    → is_some o ≡ mem p keys
    → Checked (p ∷ keys) ps rest
    → Checked keys (p ∷ ps) (elim o [ none ↦ rest | some existing ↦ err (conflict existing) ])
step none p keys ps (ok seen) conflict e (f, h) = (ground arith, h)
step none p keys ps (err _) conflict e f = ground arith
step (some x) p keys ps rest conflict e c = ground arith

add_mounts-Checked :
    {A : Type 0} (path : A → String) (conflict : A → String → Error) (source : A → String)
    (seen : Dict String) (keys : List String) (ms : List A)
    → Holds seen keys
    → Checked keys (map path ms) (add_mounts path conflict source seen ms)
unfolding add_mounts
add_mounts-Checked path conflict source seen keys [] holds = (refl, holds)
add_mounts-Checked path conflict source seen keys (m ∷ ms) holds =
    step (lookup (path m) seen) (path m) keys (map path ms) _ (conflict m) (holds (path m)) (
      add_mounts-Checked path conflict source (insert (path m) (source m) seen) (path m ∷ keys) ms
        (Holds-insert (path m) (source m) seen keys holds))

last_loop :
    (keys ps : List String) (r : Result (Dict String))
    → Checked keys ps r
    → is_ok (and_then {B = Unit {0}} r (λ _. ok tt)) ≡ fresh keys ps
last_loop keys ps (ok seen) (f, h) = sym f
last_loop keys ps (err e) f = sym f

loop_then :
    (keys ps qs : List String) (r : Result (Dict String)) (k : Dict String → Result (Unit {0}))
    → Checked keys ps r
    → ((seen : Dict String) → Holds seen (onto keys ps) → is_ok (k seen) ≡ fresh (onto keys ps) qs)
    → is_ok (and_then r k) ≡ fresh keys (ps ++ qs)
loop_then keys ps qs (ok seen) k (f, h) rest =
    rest seen h ∙ sym (fresh-append keys ps qs ∙ ap (λ b. b && fresh (onto keys ps) qs) f)
loop_then keys ps qs (err e) k f rest =
    sym (fresh-append keys ps qs ∙ ap (λ b. b && fresh (onto keys ps) qs) f)

-- The mounts of the three kinds are accepted exactly when no two of them have the same path.
pub validate-distinct :
    (files : List FileMount) (dirs : List DirMount) (gits : List GitMount)
    → is_ok (validate_mount_path_conflicts files dirs gits)
      ≡ distinct (
          map (λ fm. fm.file_path) files
          ++ (map (λ dm. dm.dir_path) dirs ++ map (λ gm. gm.mount_path) gits))
unfolding validate_mount_path_conflicts
validate-distinct files dirs gits =
    let fs = map (λ fm. fm.file_path) files in
    let ds = map (λ dm. dm.dir_path) dirs in
    let gs = map (λ gm. gm.mount_path) gits in
    loop_then [] fs (ds ++ gs) _ _ (add_mounts-Checked _ file_conflict _ [] [] files (λ k. refl))
      (λ seen h.
        loop_then (onto [] fs) ds gs _ _
          (add_mounts-Checked _ dir_conflict dir_source seen (onto [] fs) dirs h)
          (λ seen' h'.
            last_loop (onto (onto [] fs) ds) gs _
              (add_mounts-Checked _ git_conflict git_source seen' (onto (onto [] fs) ds) gits h')))
    ∙ fresh-distinct (fs ++ (ds ++ gs))
