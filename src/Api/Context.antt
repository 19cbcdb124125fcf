-- ===== src/Api/Context.antt =====
-- api/v1alpha1/context_types.go: the context items of Tasks, Agents and templates.
use kubeopencode.Prelude.{String, Bool, Option}
use kubeopencode.Prelude.Int.{ℤ}
use kubeopencode.Prelude.Text.{Dict}

-- `URL` is accepted by the API's schema; any other text is not.
pub data ContextType : Type 0 where
  text config_map git runtime url : ContextType

pub record ConfigMapContext : Type 0 where
  pub name : String
  pub key : String
  pub optional : Option Bool

-- An empty `Policy` in Go is `unset`.
pub data GitSyncPolicy : Type 0 where
  unset hot_reload rollout : GitSyncPolicy

pub record GitSync : Type 0 where
  pub enabled : Bool
  pub interval : ℤ
  pub policy : GitSyncPolicy

pub record GitContext : Type 0 where
  pub repository : String
  pub path : String
  pub ref : String
  pub depth : Option ℤ
  pub recurse_submodules : Bool
  pub secret_ref : Option String
  pub sync : Option GitSync

pub record UrlContext : Type 0 where
  pub source : String
  pub headers : Dict String
  pub secret_ref : Option String
  pub insecure_skip_tls_verify : Bool
  pub timeout : Option ℤ

pub record ContextItem : Type 0 where
  pub name : String
  pub description : String
  pub type : ContextType
  pub mount_path : String
  pub file_mode : Option ℤ
  pub text : String
  pub config_map : Option ConfigMapContext
  pub git : Option GitContext
  pub url : Option UrlContext
