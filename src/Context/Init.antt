-- ===== src/Context/Init.antt =====
-- How the files reach the workspace: the mappings that the Pod's init container is given
-- (internal/controller/pod_builder.go) and the copies that it makes
-- (cmd/kubeopencode/context_init.go).
use kubeopencode.Prelude.{
  String, Bool, false, ◌||◌, if◌then◌else◌, Option, none, some, List, [], ◌∷◌, map,
}
use kubeopencode.Prelude.Int.{ℤ}
use kubeopencode.Prelude.Text.{Dict, lookup, insert, concat, has_prefix}
use kubeopencode.Task.Mounts.{FileMount, sanitize_config_map_key}

-- `contextInitFileMapping`, and `FileMapping` of the command.
pub record FileMapping : Type 0 where
  pub key : String
  pub target_path : String
  pub file_mode : Option ℤ

abbrev pub mapping_of : FileMount → FileMapping
mapping_of m = record {
  key = sanitize_config_map_key m.file_path;
  target_path = m.file_path;
  file_mode = m.file_mode;
}

-- The file mappings of `buildContextInitContainer`.
unfoldable pub file_mappings : List FileMount → List FileMapping
file_mappings files = map mapping_of files

-- No file can be made at the path: a file of the disk stands where `copyFileWithMode` needs a
-- directory, or the path is itself a directory that holds a file of the disk. Of the directories,
-- only those of the copies are modelled.
unfoldable pub is_blocked : Dict String → String → Bool
is_blocked [] path = false
is_blocked ((other, _) ∷ disk) path =
    has_prefix (concat other "/") path || has_prefix (concat path "/") other || is_blocked disk path

-- One round of the file loop of `runContextInit`, over a volume with the ConfigMap's entries: a key
-- that is missing and a path that is blocked are passed over. Permissions, full disks and volumes
-- that are not mounted are not modelled.
unfoldable pub copy_file : Dict String → FileMapping → Dict String → Dict String
copy_file entries m disk = elim (lookup m.key entries) [
  | none ↦ disk
  | some content ↦ if is_blocked disk m.target_path then disk else insert m.target_path content disk
]

-- The loop: the contents of the paths afterwards.
unfoldable pub copy_files : Dict String → List FileMapping → Dict String → Dict String
unfolding copy_file
copy_files entries [] disk = disk
copy_files entries (m ∷ ms) disk = copy_files entries ms (copy_file entries m disk)
