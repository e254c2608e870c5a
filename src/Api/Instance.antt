-- ===== src/Api/Instance.antt =====
-- api/v1/singleinstance_types.go
use greatsql_operator.Prelude.{String, Option, none, some, List, [], ◌∷◌}
use greatsql_operator.Prelude.Int.{ℤ, pos}
use greatsql_operator.Api.Meta.{Raw, ObjectMeta}
use greatsql_operator.Api.Pod.{PodSpec, ServicePort, UpgradeOptions, zero_pod_spec}

pub record SingleInstanceSpec : Type 0 where
  pub size : Option ℤ  -- *int32
  pub pod_spec : PodSpec
  pub ports : List ServicePort
  pub type : String
  pub dns_policy : String
  pub upgrade_options : UpgradeOptions
  pub update_strategy : String

-- The embedded `DeploymentStatus` is copied as a whole.
pub record SingleInstanceStatus : Type 0 where
  pub access_point : String
  pub size : ℤ
  pub ready : ℤ
  pub age : Raw
  pub deployment_status : Raw

pub record SingleInstance : Type 0 where
  pub meta : ObjectMeta
  pub spec : SingleInstanceSpec
  pub status : SingleInstanceStatus

-- The items of a list; its metadata is copied as a whole.
pub record SingleInstanceList : Type 0 where
  pub list_meta : Raw
  pub items : List SingleInstance

-- `(s *SingleInstanceList) Finalizer()`
unfoldable pub list_finalizer : SingleInstanceList → List String
list_finalizer s = "finalizer.SingleInstance.greatsql.cn" ∷ []

-- `(s *SingleInstanceSpec) GetSize()`
unfoldable pub get_size : SingleInstanceSpec → ℤ
get_size s = elim s.size [ none ↦ pos 1 | some n ↦ n ]

abbrev pub zero_meta : ObjectMeta
zero_meta = record {
  name = "";
  namespace = "";
  uid = "";
  resource_version = "";
  labels = none;
  annotations = none;
  owner_references = [];
  finalizers = [];
  creation_timestamp = "";
  deletion_timestamp = none;
}

abbrev pub zero_status : SingleInstanceStatus
zero_status = record {
  access_point = "";
  size = pos 0;
  ready = pos 0;
  age = "";
  deployment_status = "";
}

-- The zero value `SingleInstance{}`, which the controller allocates before it fetches.
abbrev pub zero_instance : SingleInstance
zero_instance = record {
  meta = zero_meta;
  spec = record {
    size = none;
    pod_spec = zero_pod_spec;
    ports = [];
    type = "";
    dns_policy = "";
    upgrade_options = record { version_service_endpoint = ""; apply = "" };
    update_strategy = "";
  };
  status = zero_status;
}
