-- ===== src/Context/Task/Lost.antt =====
-- A Task whose `task.md` does not reach its workspace (`processAllContexts` of
-- internal/controller/task_controller.go and cmd/kubeopencode/context_init.go).
use kubeopencode.Prelude.{◌≡◌, ap, ◌∙◌, String, false, [], ◌∷◌}
use kubeopencode.Prelude.Text.{str_eq, concat}
use kubeopencode.Api.Library.{Library}
use kubeopencode.Api.Task.{Task}
use kubeopencode.Task.Mounts.{sanitize_config_map_key}
use kubeopencode.Context.Files.{Files, file_at}
use kubeopencode.Context.Task.{description_of, task_files}
use kubeopencode.Context.Init.{file_mappings, copy_file, copy_files}

only_task_md : String → String → Files
only_task_md description dir = record {
  entries = ("workspace-task.md", description) ∷ [];
  files = file_at (concat dir "/task.md") ∷ [];
  parts = [];
}

task_files-only_task_md :
    (lib : Library) (task : Task) (dir : String)
    → str_eq (description_of task) "" ≡ false
    → task_files lib task dir [] ≡ only_task_md (description_of task) dir
unfolding task_files only_task_md
task_files-only_task_md lib task dir some_text = rw some_text

copy_only_task_md :
    (description dir : String)
    → str_eq "workspace-task.md" (sanitize_config_map_key (concat dir "/task.md")) ≡ false
    → copy_files
        (only_task_md description dir).entries
        (file_mappings (only_task_md description dir).files)
        []
      ≡ []
unfolding only_task_md copy_files file_mappings
copy_only_task_md description dir other = rw (copy_file, other)

-- With another workspace, whose `task.md` has another key, the description of a Task without
-- contexts does not reach `task.md`, though that is the one file of the Task: the init container
-- finds no entry for it and copies nothing.
pub task_md_lost :
    (lib : Library) (task : Task) (dir : String)
    → str_eq (description_of task) "" ≡ false
    → str_eq "workspace-task.md" (sanitize_config_map_key (concat dir "/task.md")) ≡ false
    → ((task_files lib task dir []).files ≡ file_at (concat dir "/task.md") ∷ [])
      × (copy_files
            (task_files lib task dir []).entries
            (file_mappings (task_files lib task dir []).files)
            []
          ≡ [])
unfolding only_task_md
task_md_lost lib task dir some_text other =
    let e = task_files-only_task_md lib task dir some_text in
    (
      ap (λ (fs : Files). fs.files) e,
      ap (λ (fs : Files). copy_files fs.entries (file_mappings fs.files) []) e
          ∙ copy_only_task_md (description_of task) dir other,
    )
