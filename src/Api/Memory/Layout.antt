-- ===== src/Api/Memory/Layout.antt =====
-- The resources of api/v1, field by field as Go lays them out. `F` stands for what may be nil: pointers,
-- slices and maps. In memory it is an address; of the value that is meant, it is an option. `E` are the
-- values of k8s.io, which have a `DeepCopyInto` of their own; those without pointers are their texts.
use greatsql_operator.Prelude.{String, Bool, List}
use greatsql_operator.Prelude.Int.{ℤ}
use greatsql_operator.Api.Meta.{Raw, StringMap, TypeMeta}

pub record UpgradeOptions (F : Type 0 → Type 0) (E : Type 0) : Type 0 where
  pub version_service_endpoint : String
  pub apply : String

pub record PodAffinity (F : Type 0 → Type 0) (E : Type 0) : Type 0 where
  pub topology_key : F String

pub record ContainerSpec (F : Type 0 → Type 0) (E : Type 0) : Type 0 where
  pub image : String
  pub image_pull_policy : String
  pub image_pull_secrets : F (List Raw)
  pub resources : E
  pub startup_probe : E
  pub readiness_probe : E
  pub liveness_probe : E
  pub security_context : F E
  pub envs : F (List E)

pub record PodSpec (F : Type 0 → Type 0) (E : Type 0) : Type 0 where
  pub affinity : F (PodAffinity F E)
  pub annotation : F StringMap
  pub labels : F StringMap
  pub node_selector : F StringMap
  pub tolerations : F (List E)
  pub termination_grace_period_seconds : F ℤ
  pub scheduler_name : String
  pub pod_security_context : F E
  pub service_account_name : String
  pub service_name : String
  pub version : String
  pub containers : F (List (ContainerSpec F E))
  pub persistent_volume_claim_template : F E

pub record RolelingUpdate (F : Type 0 → Type 0) (E : Type 0) : Type 0 where
  pub partition : F ℤ
  pub max_unavailable : F Raw

pub record StatefulSetUpdateStrategyType (F : Type 0 → Type 0) (E : Type 0) : Type 0 where
  pub type : String
  pub roleling_update : F (RolelingUpdate F E)

pub record MysqlGroupReplicationCluster (F : Type 0 → Type 0) (E : Type 0) : Type 0 where
  pub pod_spec : F (PodSpec F E)
  pub ports : F (List E)
  pub type : String
  pub dns_policy : String
  pub upgrade_options : UpgradeOptions F E
  pub update_strategy : F (StatefulSetUpdateStrategyType F E)

pub record ServiceExpose (F : Type 0 → Type 0) (E : Type 0) : Type 0 where
  pub enabled : Bool
  pub type : String
  pub load_balancer_source_ranges : F (List String)
  pub load_balancer_ip : String
  pub annotations : F StringMap
  pub labels : F StringMap
  pub external_traffic_policy : String
  pub internal_traffic_policy : String
  pub traffic_policy : String

pub record Proxy (F : Type 0 → Type 0) (E : Type 0) : Type 0 where
  pub enabled : Bool
  pub pod_spec : PodSpec F E
  pub expose : ServiceExpose F E

pub record SchedulerBuckup (F : Type 0 → Type 0) (E : Type 0) : Type 0 where
  pub enable : F Bool

pub record MetricsCollection (F : Type 0 → Type 0) (E : Type 0) : Type 0 where
  pub enable : F Bool

pub record Storage (F : Type 0 → Type 0) (E : Type 0) : Type 0 where
  pub type : String
  pub persistent_volume_source : F E
  pub persistent_volume_claim_template : F E

pub record Member (F : Type 0 → Type 0) (E : Type 0) : Type 0 where
  pub role : String
  pub size : F ℤ

pub record GroupReplicationClusterSpec (F : Type 0 → Type 0) (E : Type 0) : Type 0 where
  pub member : F (List (Member F E))
  pub cluster_spec : F (MysqlGroupReplicationCluster F E)
  pub proxy_spec : F (Proxy F E)
  pub scheduler_buckup : F (SchedulerBuckup F E)
  pub metrics_collection : F (MetricsCollection F E)

pub record GroupReplicationClusterStatus (F : Type 0 → Type 0) (E : Type 0) : Type 0 where
  pub access_point : String
  pub size : ℤ
  pub ready : ℤ
  pub age : String
  pub stateful_set_status : E

pub record GroupReplicationCluster (F : Type 0 → Type 0) (E : Type 0) : Type 0 where
  pub type_meta : TypeMeta
  pub object_meta : E
  pub spec : GroupReplicationClusterSpec F E
  pub status : GroupReplicationClusterStatus F E

pub record GroupReplicationClusterList (F : Type 0 → Type 0) (E : Type 0) : Type 0 where
  pub type_meta : TypeMeta
  pub list_meta : E
  pub items : F (List (GroupReplicationCluster F E))

pub record SingleInstanceSpec (F : Type 0 → Type 0) (E : Type 0) : Type 0 where
  pub size : F ℤ
  pub pod_spec : PodSpec F E
  pub ports : F (List E)
  pub type : String
  pub dns_policy : String
  pub upgrade_options : UpgradeOptions F E
  pub update_strategy : String

pub record SingleInstanceStatus (F : Type 0 → Type 0) (E : Type 0) : Type 0 where
  pub access_point : String
  pub size : ℤ
  pub ready : ℤ
  pub age : String
  pub deployment_status : E

pub record SingleInstance (F : Type 0 → Type 0) (E : Type 0) : Type 0 where
  pub type_meta : TypeMeta
  pub object_meta : E
  pub spec : SingleInstanceSpec F E
  pub status : SingleInstanceStatus F E

pub record SingleInstanceList (F : Type 0 → Type 0) (E : Type 0) : Type 0 where
  pub type_meta : TypeMeta
  pub list_meta : E
  pub items : F (List (SingleInstance F E))
