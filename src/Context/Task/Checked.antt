-- ===== src/Context/Task/Checked.antt =====
-- What `processAllContexts` calls, and that the mounts which it returns have distinct paths.
use kubeopencode.Prelude.{◌≡◌, refl, true, String, List, ◌++◌, map, ap, ◌∙◌, sym}
use kubeopencode.Prelude.Text.{distinct}
use kubeopencode.Api.Agent.{items}
use kubeopencode.Api.Task.{Task}
use kubeopencode.Client.{Env, Call, ◌>>◌}
use kubeopencode.Client.Rules.{
  Only, Ensures, Only-throw, Only-bind, Only-attempt, Only-on_result, only_rules,
}
use kubeopencode.Client.Rules.Returns.{
  Ensures-pure, Ensures-throw, Ensures-bind, Ensures-lift, Ensures-on_result,
}
use kubeopencode.Config.{AgentConfig}
use kubeopencode.Skills.Pipeline.{Prepared}
use kubeopencode.Task.Mounts.{DirMount, GitMount, validate_mount_path_conflicts}
use kubeopencode.Task.Mounts.Distinct.{is_ok, validate-distinct}
use kubeopencode.Context.{Contexts}
use kubeopencode.Context.Reads.{process_context_items-Only}
use kubeopencode.Context.Task.{Mounted, checked, mount_all, process_all_contexts}

module _ {P : Env → Call → Type 0} (task : Task)
    (cm : (env : Env) (name : String)
      → P env (Call.get_config_map (record { name = name; namespace = task.meta.namespace }))) where
  mount_all-Only :
      (cfg : AgentConfig) (agent own : Contexts) → Only P (mount_all task cfg agent own)
  unfolding mount_all checked
  mount_all-Only cfg agent own = search only_rules

  pub process_all_contexts-Only : (cfg : AgentConfig) → Only P (process_all_contexts task cfg)
  unfolding process_all_contexts
  process_all_contexts-Only cfg =
      Only-bind _ _ (Only-attempt _ (process_context_items-Only _ cm (items cfg.contexts) _)) (λ r.
        Only-on_result r _ _ (λ e. Only-throw _)
          (λ agent.
            Only-bind _ _ (Only-attempt _ (process_context_items-Only _ cm task.spec.contexts _))
              (λ s.
                Only-on_result s _ _ (λ e. Only-throw _) (λ own. mount_all-Only cfg agent own))))

-- Every path at which something is mounted.
abbrev pub mount_paths : Mounted → List String
mount_paths m =
    map (λ f. f.file_path) m.files
    ++ (map (λ d. d.dir_path) m.dirs ++ map (λ g. g.mount_path) m.gits)

checked-Ensures :
    (task : Task) (p : Prepared) (dirs : List DirMount) (gits : List GitMount)
    → Ensures (λ m. distinct (mount_paths m) ≡ true) (checked task p dirs gits)
unfolding checked ◌>>◌
checked-Ensures task p dirs gits =
    Ensures-lift (validate_mount_path_conflicts p.file_mounts dirs gits) _
      (λ a valid. Ensures-pure _ (sym (validate-distinct p.file_mounts dirs gits) ∙ ap is_ok valid))

process_all_contexts-Ensures :
    (task : Task) (cfg : AgentConfig)
    → Ensures (λ m. distinct (mount_paths m) ≡ true) (process_all_contexts task cfg)
unfolding process_all_contexts mount_all
process_all_contexts-Ensures task cfg = Ensures-bind _ _ (λ r.
    Ensures-on_result r _ _ (λ e. Ensures-throw _)
      (λ agent. Ensures-bind _ _ (λ s.
        Ensures-on_result s _ _ (λ e. Ensures-throw _)
          (λ own. Ensures-bind _ _ (λ lib. Ensures-bind _ _ (λ p. checked-Ensures task p _ _))))))

-- A read of a ConfigMap in the Task's namespace.
abbrev pub ReadsOwn : Task → Env → Call → Type 0
ReadsOwn task env (Call.get_config_map k) = k.namespace ≡ task.meta.namespace
ReadsOwn task env _ = ⊥

-- The contexts of a Task, whatever they name, are resolved by reading ConfigMaps of the Task's own
-- namespace, and by no other call. Where they, the skills and the plugins resolve, no two of the
-- files, directories and Git repositories are mounted at the same path.
pub process_all_contexts-ReadsOwn :
    (task : Task) (cfg : AgentConfig)
    → Only (ReadsOwn task) (process_all_contexts task cfg)
      × Ensures (λ m. distinct (mount_paths m) ≡ true) (process_all_contexts task cfg)
process_all_contexts-ReadsOwn task cfg =
    (process_all_contexts-Only task (λ env name. refl) cfg, process_all_contexts-Ensures task cfg)
