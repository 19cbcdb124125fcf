-- ===== src/Task/Mounts.antt =====
-- The mounts of a Task's Pod and the check that no two of them share a path
-- (internal/controller/task_controller.go, pod_builder.go).
pub mod Distinct
use Prim.Native.Char.{code}
use kubeopencode.Prelude.{◌==◌}
use kubeopencode.Prelude.{String, Bool, true, Option, none, some, List, [], ◌∷◌, if◌then◌else◌}
use kubeopencode.Prelude.Int.{ℤ}
use kubeopencode.Prelude.Text.{Dict, lookup, insert, concat, str_eq, has_prefix}
use kubeopencode.Api.Errors.{Result, ok, err, Error, errorf, str}
use kubeopencode.Api.Context.{GitSyncPolicy}

-- `fileMount`, `dirMount` and `gitMount`
pub record FileMount : Type 0 where
  pub file_path : String
  pub file_mode : Option ℤ

pub record DirMount : Type 0 where
  pub dir_path : String
  pub config_map_name : String
  pub optional : Bool

pub record GitMount : Type 0 where
  pub context_name : String
  pub repository : String
  pub ref : String
  pub repo_path : String
  pub mount_path : String
  pub depth : ℤ
  pub secret_name : String
  pub recurse_submodules : Bool
  pub names : Option (List String)
  pub sync_enabled : Bool
  pub sync_policy : GitSyncPolicy
  pub sync_interval : ℤ

-- The conflict with an earlier mount, `existing`.
abbrev pub file_conflict : FileMount → String → Error
file_conflict fm existing =
    errorf "mount path conflict: %q is used by both %s and a file mount"
      (str fm.file_path ∷ str existing ∷ [])

abbrev pub dir_conflict : DirMount → String → Error
dir_conflict dm existing =
    errorf "mount path conflict: %q is used by both %s and directory mount (ConfigMap: %s)"
      (str dm.dir_path ∷ str existing ∷ str dm.config_map_name ∷ [])

abbrev pub git_conflict : GitMount → String → Error
git_conflict gm existing =
    errorf "mount path conflict: %q is used by both %s and git mount (%s)"
      (str gm.mount_path ∷ str existing ∷ str gm.context_name ∷ [])

-- `fmt.Sprintf` with `%s` alone.
abbrev pub dir_source : DirMount → String
dir_source dm = concat "directory mount (ConfigMap: " (concat dm.config_map_name ")")

abbrev pub git_source : GitMount → String
git_source gm = concat "git mount (" (concat gm.context_name ")")

-- One of the three loops of `validateMountPathConflicts`, with the map of the paths seen so far.
unfoldable pub add_mounts :
    {A : Type 0}
    → (A → String)
    → (A → String → Error)
    → (A → String)
    → Dict String
    → List A
    → Result (Dict String)
add_mounts path conflict source seen [] = ok seen
add_mounts path conflict source seen (m ∷ ms) =
    let rest = add_mounts path conflict source (insert (path m) (source m) seen) ms in
    elim (lookup (path m) seen) [ none ↦ rest | some existing ↦ err (conflict m existing) ]

abbrev pub and_then : {A B : Type 0} → Result A → (A → Result B) → Result B
and_then (ok a) f = f a
and_then (err e) f = err e

-- `validateMountPathConflicts`
unfoldable pub validate_mount_path_conflicts :
    List FileMount → List DirMount → List GitMount → Result (Unit {0})
validate_mount_path_conflicts files dirs gits =
    and_then (add_mounts (λ fm. fm.file_path) file_conflict (λ _. "file mount") [] files) (λ seen.
      and_then (add_mounts (λ dm. dm.dir_path) dir_conflict dir_source seen dirs) (λ seen'.
        and_then (add_mounts (λ gm. gm.mount_path) git_conflict git_source seen' gits)
          (λ _. ok tt)))

-- `resolveMountPath`
unfoldable pub resolve_mount_path : String → String → String
resolve_mount_path mount_path workspace_dir =
    if str_eq mount_path ""
    then ""
    else if has_prefix mount_path "/"
    then mount_path
    else concat workspace_dir (concat "/" mount_path)

-- `sanitizeConfigMapKey`: the leading slash goes, and each other one becomes a dash.
replace_slashes : String → String
replace_slashes String.[] = String.[]
replace_slashes (String.◌∷◌ c s) =
    let rest = replace_slashes s in
    if code c == b'/' then String.◌∷◌ "-" rest else String.◌∷◌ c rest

trim_slash : String → String
trim_slash String.[] = String.[]
trim_slash (String.◌∷◌ c s) = if code c == b'/' then s else String.◌∷◌ c s

unfoldable pub sanitize_config_map_key : String → String
unfolding replace_slashes trim_slash
sanitize_config_map_key path = replace_slashes (trim_slash path)
