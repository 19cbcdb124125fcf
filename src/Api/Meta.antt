-- ===== src/Api/Meta.antt =====
-- `metav1.ObjectMeta`, the keys of objects and `metav1.Condition`.
use kubeopencode.Prelude.{ℕ, String, Bool, Option, List}
use kubeopencode.Prelude.Text.{Dict}
use kubeopencode.Api.Errors.{Message}

-- `types.NamespacedName`
pub record Key : Type 0 where
  pub name : String
  pub namespace : String

-- A controller reference (`metav1.NewControllerRef`).
pub record Owner : Type 0 where
  pub kind : String
  pub name : String
  pub uid : String

-- A `nil` map and an empty one read alike.
pub record ObjectMeta : Type 0 where
  pub name : String
  pub namespace : String
  pub uid : String
  pub resource_version : String
  pub generation : ℕ
  pub labels : Dict String
  pub annotations : Dict String
  pub owner : Option Owner

abbrev pub key_of : ObjectMeta → Key
key_of m = record { name = m.name; namespace = m.namespace }

-- `status` is whether the status is `True` (the controllers write `True` and `False` alone).
-- `LastTransitionTime` is set by `meta.SetStatusCondition`, and never read.
pub record Condition : Type 0 where
  pub type : String
  pub status : Bool
  pub observed_generation : ℕ
  pub reason : String
  pub message : Message

abbrev pub Conditions : Type 0
Conditions = List Condition
