-- ===== src/Context/Files.antt =====
-- The files made of the resolved contexts (internal/controller/context_processor.go,
-- task_controller.go).
use kubeopencode.Prelude.{String, none, List, [], ◌∷◌, ◌++◌, if◌then◌else◌}
use kubeopencode.Prelude.Text.{Dict, insert, str_eq, concat, join_with}
use kubeopencode.Api.Library.{Library}
use kubeopencode.Skills.Inject.{is_nil}
use kubeopencode.Task.Mounts.{FileMount, sanitize_config_map_key}
use kubeopencode.Context.{ResolvedContext}

-- `ContextFileRelPath`
abbrev pub context_file_rel_path : String
context_file_rel_path = ".kubeopencode/context.md"

-- The data of the ConfigMap, the file mounts, and the parts of the context file.
pub record Files : Type 0 where
  pub entries : Dict String
  pub files : List FileMount
  pub parts : List String

abbrev pub no_files : Files
no_files = record { entries = []; files = []; parts = [] }

abbrev pub xml_tag : Library → ResolvedContext → String
xml_tag lib rc = concat "<context name=" (
    concat (lib.quote rc.name) (
      concat " namespace=" (
        concat (lib.quote rc.namespace) (
          concat " type="
            (concat (lib.quote rc.ctx_type) (concat ">\n" (concat rc.content "\n</context>")))))))

abbrev pub file_at : String → FileMount
file_at path = record { file_path = path; file_mode = none }

-- One more file with its content.
unfoldable pub put_file : Files → String → FileMount → String → Files
put_file fs key fm content = record fs {
  entries = insert key content fs.entries;
  files = fs.files ++ (fm ∷ []);
}

-- One round of the loop over the resolved contexts, the same in both functions.
unfoldable pub add_context : Library → Files → ResolvedContext → Files
unfolding put_file
add_context lib fs rc =
    if str_eq rc.mount_path ""
    then record fs { parts = fs.parts ++ (xml_tag lib rc ∷ []) }
    else put_file fs (sanitize_config_map_key rc.mount_path)
        (record { file_path = rc.mount_path; file_mode = rc.file_mode }) rc.content

unfoldable pub add_contexts : Library → Files → List ResolvedContext → Files
unfolding add_context
add_contexts lib fs [] = fs
add_contexts lib fs (rc ∷ rcs) = add_contexts lib (add_context lib fs rc) rcs

-- The context file, if a context has no path of its own.
unfoldable pub add_context_file : String → Files → Files
unfolding put_file
add_context_file workspace_dir fs =
    let path = concat workspace_dir (concat "/" context_file_rel_path) in
    if is_nil fs.parts
    then fs
    else put_file fs (sanitize_config_map_key path) (file_at path) (join_with "\n\n" fs.parts)

-- `buildContextConfigMapData`
unfoldable pub build_context_config_map_data :
    Library → List ResolvedContext → String → Dict String × List FileMount
unfolding add_contexts add_context_file
build_context_config_map_data lib resolved workspace_dir =
    let fs = add_context_file workspace_dir (add_contexts lib no_files resolved) in
    (fs.entries, fs.files)
