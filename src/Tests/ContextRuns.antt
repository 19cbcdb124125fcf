-- ===== src/Tests/ContextRuns.antt =====
-- Contexts of Tasks on a concrete cluster.
use kubeopencode.Prelude.{◌≡◌, refl, true, [], ◌∷◌}
use kubeopencode.Prelude.Text.{distinct}
use kubeopencode.Client.Rules.{Only, Ensures}
use kubeopencode.Config.{AgentConfig, resolve_agent_config}
use kubeopencode.Task.Mounts.{sanitize_config_map_key}
use kubeopencode.Context.Files.{file_at}
use kubeopencode.Context.Init.{file_mappings, is_blocked, copy_files}
use kubeopencode.Context.Task.{task_files, process_all_contexts}
use kubeopencode.Context.Task.Checked.{mount_paths, ReadsOwn, process_all_contexts-ReadsOwn}
use kubeopencode.Context.Task.Lost.{task_md_lost}
use kubeopencode.Tests.Cluster.{coder, fix_it, plain_library}

abbrev coder_config : AgentConfig
coder_config = resolve_agent_config coder

-- The workspace of an image whose user is not root.
task_md_lost_example :
    ((task_files plain_library fix_it "/home/agent" []).files ≡ file_at "/home/agent/task.md" ∷ [])
    × (copy_files
          (task_files plain_library fix_it "/home/agent" []).entries
          (file_mappings (task_files plain_library fix_it "/home/agent" []).files)
          []
        ≡ [])
unfolding sanitize_config_map_key
task_md_lost_example = task_md_lost plain_library fix_it "/home/agent" refl refl

process_all_contexts-ReadsOwn_example :
    Only (ReadsOwn fix_it) (process_all_contexts fix_it coder_config)
    × Ensures (λ m. distinct (mount_paths m) ≡ true) (process_all_contexts fix_it coder_config)
process_all_contexts-ReadsOwn_example = process_all_contexts-ReadsOwn fix_it coder_config

-- Two paths that differ may have the same key, so that the contents of one overwrite the other's.
same_key : sanitize_config_map_key "/a/b" ≡ sanitize_config_map_key "/a-b"
unfolding sanitize_config_map_key
same_key = refl

-- Of two files, one below the other, the second copy fails.
below_a_file :
    copy_files
      (("workspace-a", "1") ∷ ("workspace-a-b", "2") ∷ [])
      (file_mappings (file_at "/workspace/a" ∷ file_at "/workspace/a/b" ∷ []))
      []
    ≡ ("/workspace/a", "1") ∷ []
unfolding copy_files file_mappings is_blocked sanitize_config_map_key
below_a_file = refl
