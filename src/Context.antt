-- ===== src/Context.antt =====
-- The context items of Agents and Tasks, resolved to contents, directories and Git mounts
-- (internal/controller/context_processor.go).
pub mod Prompt
pub mod Files
pub mod Task
pub mod Init
pub mod Server
pub mod Reads
use kubeopencode.Prelude.{
  ℕ, zero, suc, String, Bool, true, false, not, ◌&&◌, Option, none, some, List, [], ◌∷◌, map,
  if◌then◌else◌,
}
use kubeopencode.Prelude.Int.{ℤ, pos, ltb_ℤ}
use kubeopencode.Prelude.Text.{Dict, lookup, get_or_empty, str_eq, concat, join_with}
use kubeopencode.Api.Errors.{errorf, wrap, str, num}
use kubeopencode.Api.Library.{Library}
use kubeopencode.Api.Context.{
  ContextType, ConfigMapContext, GitSyncPolicy, GitSync, GitContext, ContextItem,
}
use kubeopencode.Client.{E, pure, throw, attempt, library, on_result, on_option, ◌>>=◌}
use kubeopencode.Client.Calls.{get_config_map}
use kubeopencode.Config.{default_string}
use kubeopencode.Skills.Inject.{is_nil}
use kubeopencode.Skills.{default_git_depth, default_git_ref, secret_name_of}
use kubeopencode.Task.Mounts.{DirMount, GitMount, resolve_mount_path}
use kubeopencode.Context.Prompt.{runtime_system_prompt}

-- `resolvedContext`
pub record ResolvedContext : Type 0 where
  pub name : String
  pub namespace : String
  pub ctx_type : String
  pub content : String
  pub mount_path : String
  pub file_mode : Option ℤ

-- What `resolveContextContentFromReader` returns, of which at most one part is there.
pub data Content : Type 0 where
  plain : String → Content
  dir : DirMount → Content
  git : GitMount → Content

-- The same, for `resolveContextItemFromReader`.
pub data Resolved : Type 0 where
  context : ResolvedContext → Resolved
  dir : DirMount → Resolved
  git : GitMount → Resolved

abbrev pub type_text : ContextType → String
type_text ContextType.text = "Text"
type_text ContextType.config_map = "ConfigMap"
type_text ContextType.git = "Git"
type_text ContextType.runtime = "Runtime"
type_text ContextType.url = "URL"

abbrev pub is_type : ContextType → ContextType → Bool
is_type t u = str_eq (type_text t) (type_text u)

-- `optional != nil && *optional`
abbrev pub is_set : Option Bool → Bool
is_set none = false
is_set (some b) = b

-- `getConfigMapKeyFromReader`
unfoldable pub get_config_map_key : String → String → String → Option Bool → E String
get_config_map_key namespace name key optional = do
  found ← attempt (get_config_map (record { name = name; namespace = namespace }))
  on_result found (λ e. if is_set optional then pure "" else throw e)
      (λ entries.
        on_option (lookup key entries)
          (if is_set optional
            then pure ""
            else throw (errorf "key %s not found in ConfigMap %s" (str key ∷ str name ∷ [])))
          pure)

-- `fmt.Sprintf("<file name=%q>\n%s\n</file>", key, cm.Data[key])`
abbrev pub file_element : Library → Dict String → String → String
file_element lib entries key =
    concat "<file name="
      (concat (lib.quote key) (concat ">\n" (concat (get_or_empty key entries) "\n</file>")))

unfoldable pub all_keys_text : Library → Dict String → String
all_keys_text lib entries =
    join_with "\n"
      (map (file_element lib entries) (lib.sort_strings (map (λ entry. entry.0) entries)))

-- `getConfigMapAllKeysFromReader`. Joining no files gives the empty text of its early return.
unfoldable pub get_config_map_all_keys : String → String → Option Bool → E String
get_config_map_all_keys namespace name optional = do
  found ← attempt (get_config_map (record { name = name; namespace = namespace }))
  on_result found (λ e. if is_set optional then pure "" else throw e)
      (λ entries. do
        lib ← library (λ env. env.lib)
        if is_nil entries then pure "" else pure (all_keys_text lib entries))

-- `git.Depth != nil && *git.Depth > 0`
abbrev pub context_depth : Option ℤ → ℤ
context_depth none = default_git_depth
context_depth (some d) = if ltb_ℤ (pos 0) d then d else default_git_depth

abbrev pub or_hot_reload : GitSyncPolicy → GitSyncPolicy
or_hot_reload GitSyncPolicy.unset = GitSyncPolicy.hot_reload
or_hot_reload p = p

-- `5 * time.Minute`
abbrev pub default_sync_interval : ℤ
default_sync_interval = pos 300000000000

abbrev pub or_default_interval : ℤ → ℤ
or_default_interval (pos zero) = default_sync_interval
or_default_interval d = d

abbrev pub with_sync : Option GitSync → GitMount → GitMount
with_sync none gm = gm
with_sync (some s) gm =
    if s.enabled
    then record gm {
      sync_enabled = true;
      sync_policy = or_hot_reload s.policy;
      sync_interval = or_default_interval s.interval;
    }
    else gm

unfoldable pub context_git_mount : String → String → String → GitContext → GitMount
context_git_mount name workspace_dir mount_path g = with_sync g.sync (record {
  context_name = name;
  repository = g.repository;
  ref = default_string g.ref default_git_ref;
  repo_path = g.path;
  mount_path = default_string mount_path (concat workspace_dir (concat "/git-" name));
  depth = context_depth g.depth;
  secret_name = secret_name_of g.secret_ref;
  recurse_submodules = g.recurse_submodules;
  names = none;
  sync_enabled = false;
  sync_policy = GitSyncPolicy.unset;
  sync_interval = pos 0;
})

-- The case of a ConfigMap.
unfoldable pub resolve_config_map : String → String → ConfigMapContext → E Content
resolve_config_map namespace mount_path cm =
    if not (str_eq cm.key "")
    then (do
      content ← get_config_map_key namespace cm.name cm.key cm.optional
      pure (Content.plain content))
    else if not (str_eq mount_path "")
    then pure (
        Content.dir (record {
          dir_path = mount_path;
          config_map_name = cm.name;
          optional = is_set cm.optional;
        }))
    else (do
      content ← get_config_map_all_keys namespace cm.name cm.optional
      pure (Content.plain content))

-- `resolveContextContentFromReader`. It has no case for a URL.
unfoldable pub resolve_content_of_type :
    ContextType → String → String → String → ContextItem → String → E Content
resolve_content_of_type ContextType.text namespace name workspace_dir item mount_path =
    pure (Content.plain item.text)
resolve_content_of_type ContextType.config_map namespace name workspace_dir item mount_path =
    on_option item.config_map (pure (Content.plain "")) (resolve_config_map namespace mount_path)
resolve_content_of_type ContextType.git namespace name workspace_dir item mount_path =
    on_option item.git (pure (Content.plain ""))
      (λ g. pure (Content.git (context_git_mount name workspace_dir mount_path g)))
resolve_content_of_type ContextType.runtime namespace name workspace_dir item mount_path =
    pure (Content.plain runtime_system_prompt)
resolve_content_of_type ContextType.url namespace name workspace_dir item mount_path =
    throw (errorf "unknown context type: %s" (str "URL" ∷ []))

abbrev pub resolved_of : ResolvedContext → Content → Resolved
resolved_of rc (Content.plain content) = Resolved.context (record rc { content = content })
resolved_of rc (Content.dir dm) = Resolved.dir dm
resolved_of rc (Content.git gm) = Resolved.git gm

-- The mount path of an item; a runtime context has none.
abbrev pub item_path : ContextItem → String → String
item_path item workspace_dir =
    if is_type item.type ContextType.runtime
    then ""
    else resolve_mount_path item.mount_path workspace_dir

abbrev pub item_name : ContextItem → String
item_name item = if is_type item.type ContextType.runtime then "runtime" else "context"

-- `resolveContextItemFromReader`
unfoldable pub resolve_context_item : ContextItem → String → String → E Resolved
resolve_context_item item namespace workspace_dir =
    if is_type item.type ContextType.git && str_eq item.mount_path ""
    then throw (errorf "git context requires mountPath to be specified" [])
    else (do
      content ←
          resolve_content_of_type item.type namespace (item_name item) workspace_dir item
            (item_path item workspace_dir)
      pure (
          resolved_of
            (record {
              name = item_name item;
              namespace = namespace;
              ctx_type = type_text item.type;
              content = "";
              mount_path = item_path item workspace_dir;
              file_mode = item.file_mode;
            })
            content))

-- The three slices that `processContextItems` returns.
pub record Contexts : Type 0 where
  pub resolved : List ResolvedContext
  pub dirs : List DirMount
  pub gits : List GitMount

abbrev pub with_item : Resolved → Contexts → Contexts
with_item (Resolved.context rc) cs = record cs { resolved = rc ∷ cs.resolved }
with_item (Resolved.dir dm) cs = record cs { dirs = dm ∷ cs.dirs }
with_item (Resolved.git gm) cs = record cs { gits = gm ∷ cs.gits }

-- The loop of `processContextItems`, from the index `i` on.
unfoldable pub process_items_from : ℕ → List ContextItem → String → String → E Contexts
process_items_from i [] namespace workspace_dir =
    pure (record { resolved = []; dirs = []; gits = [] })
process_items_from i (item ∷ items) namespace workspace_dir = do
  found ← attempt (resolve_context_item item namespace workspace_dir)
  on_result found (λ e. throw (wrap "failed to resolve context[%d]: %w" (num (pos i) ∷ []) e))
      (λ r. do
        rest ← process_items_from (suc i) items namespace workspace_dir
        pure (with_item r rest))

-- `processContextItems`
unfoldable pub process_context_items : List ContextItem → String → String → E Contexts
process_context_items items namespace workspace_dir =
    process_items_from 0 items namespace workspace_dir
