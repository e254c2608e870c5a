-- ===== src/Api/Cluster.antt =====
-- api/v1/groupreplicationcluster_types.go, with `MySQLGroupReplicationCluster` of common_types.go.
use greatsql_operator.Prelude.{String, Option, none, some, List}
use greatsql_operator.Prelude.Int.{ℤ, pos}
use greatsql_operator.Api.Meta.{Raw, ObjectMeta}
use greatsql_operator.Api.Sections.{MemberRole, Proxy, SchedulerBuckup, MetricsCollection}
use greatsql_operator.Api.Pod.{PodSpec, ServicePort, UpgradeOptions}

pub record RolelingUpdate : Type 0 where
  pub partition : Option ℤ
  pub max_unavailable : Option Raw

pub record StatefulSetUpdateStrategyType : Type 0 where
  pub type : String
  pub roleling_update : Option RolelingUpdate

pub record MysqlGroupReplicationCluster : Type 0 where
  pub pod_spec : Option PodSpec
  pub ports : List ServicePort
  pub type : String
  pub dns_policy : String
  pub upgrade_options : UpgradeOptions
  pub update_strategy : Option StatefulSetUpdateStrategyType

pub record Member : Type 0 where
  pub role : MemberRole
  pub size : Option ℤ  -- *int32

pub record GroupReplicationClusterSpec : Type 0 where
  pub member : List Member
  pub cluster_spec : Option MysqlGroupReplicationCluster
  pub proxy_spec : Option Proxy
  pub scheduler_buckup : Option SchedulerBuckup
  pub metrics_collection : Option MetricsCollection

-- The embedded `StatefulSetStatus` is copied as a whole.
pub record GroupReplicationClusterStatus : Type 0 where
  pub access_point : String
  pub size : ℤ
  pub ready : ℤ
  pub age : String
  pub stateful_set_status : Raw

pub record GroupReplicationCluster : Type 0 where
  pub meta : ObjectMeta
  pub spec : GroupReplicationClusterSpec
  pub status : GroupReplicationClusterStatus

-- The items of a list; its metadata is copied as a whole.
pub record GroupReplicationClusterList : Type 0 where
  pub list_meta : Raw
  pub items : List GroupReplicationCluster

-- `(m *Member) GetSize()`: it counts the pointer, not the number behind it.
unfoldable pub get_size : Member → ℤ
get_size m = elim m.size [ none ↦ pos 0 | some _ ↦ pos 1 ]
