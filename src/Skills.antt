-- ===== src/Skills.antt =====
-- Skills and plugins of an Agent (internal/controller/skill_processor.go): the Git mounts of the
-- skills, and OpenCode's configuration with their paths and the plugins injected.
pub mod Plugins
pub mod Inject
pub mod Pipeline
use kubeopencode.Prelude.{
  String, Bool, false, Option, none, some, List, [], ◌∷◌, ◌++◌, map, if◌then◌else◌,
}
use kubeopencode.Prelude.Int.{ℤ, pos, negsuc}
use kubeopencode.Prelude.Text.{concat}
use kubeopencode.Api.Library.{Library}
use kubeopencode.Api.Context.{GitSyncPolicy}
use kubeopencode.Api.Agent.{GitSkillSource, SkillSource}
use kubeopencode.Config.{default_string}
use kubeopencode.Task.Mounts.{GitMount}

-- `DefaultSkillsMountBase`, `DefaultGitDepth` and `DefaultGitRef`
abbrev pub default_skills_mount_base : String
default_skills_mount_base = "/skills"

abbrev pub default_git_depth : ℤ
default_git_depth = pos 1

abbrev pub default_git_ref : String
default_git_ref = "HEAD"

-- `git.Depth != nil && *git.Depth >= 0`
abbrev pub skill_depth : Option ℤ → ℤ
skill_depth none = default_git_depth
skill_depth (some (pos n)) = pos n
skill_depth (some (negsuc n)) = default_git_depth

abbrev pub secret_name_of : Option String → String
secret_name_of none = ""
secret_name_of (some name) = name

skill_mount : Library → String → GitSkillSource → GitMount
skill_mount lib name git = record {
  context_name = concat "skill-" name;
  repository = git.repository;
  ref = default_string git.ref default_git_ref;
  repo_path = git.path;
  mount_path = lib.join (default_skills_mount_base ∷ name ∷ []);
  depth = skill_depth git.depth;
  secret_name = secret_name_of git.secret_ref;
  recurse_submodules = git.recurse_submodules;
  names = some git.names;
  sync_enabled = false;
  sync_policy = GitSyncPolicy.unset;
  sync_interval = pos 0;
}

-- The paths that OpenCode scans: the whole mount, or one directory for each name.
skill_paths_of : Library → String → List String → List String
skill_paths_of lib mount_path [] = mount_path ∷ []
skill_paths_of lib mount_path (n ∷ ns) = map (λ name. lib.join (mount_path ∷ name ∷ [])) (n ∷ ns)

-- `processSkills`
unfoldable pub process_skills : Library → List SkillSource → List GitMount × List String
unfolding skill_mount skill_paths_of
process_skills lib [] = ([], [])
process_skills lib (s ∷ ss) =
    let (mounts, paths) = process_skills lib ss in
    elim s.git [
      | none ↦ (mounts, paths)
      | some git ↦
          let gm = skill_mount lib s.name git in
          (gm ∷ mounts, skill_paths_of lib gm.mount_path git.names ++ paths)
    ]
