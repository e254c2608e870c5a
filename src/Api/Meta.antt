-- ===== src/Api/Meta.antt =====
-- The metadata of Kubernetes objects (k8s.io/apimachinery/pkg/apis/meta/v1), as far as the program
-- uses it.
use greatsql_operator.Prelude.{String, Bool, Option, List}

-- The serialised form of a value that the program copies and never inspects.
abbrev pub Raw : Type 0
Raw = String

-- map[string]string
abbrev pub StringMap : Type 0
StringMap = List (String × String)

pub record TypeMeta : Type 0 where
  pub api_version : String
  pub kind : String

pub record GroupVersionKind : Type 0 where
  pub group : String
  pub version : String
  pub kind : String

pub record OwnerReference : Type 0 where
  pub api_version : String
  pub kind : String
  pub name : String
  pub uid : String
  pub controller : Bool
  pub block_owner_deletion : Bool

pub record ObjectMeta : Type 0 where
  pub name : String
  pub namespace : String
  pub uid : String
  pub resource_version : String
  pub labels : Option StringMap
  pub annotations : Option StringMap
  pub owner_references : List OwnerReference
  pub finalizers : List String
  pub creation_timestamp : Raw
  pub deletion_timestamp : Option Raw

-- types.NamespacedName
pub record Key : Type 0 where
  pub namespace : String
  pub name : String
