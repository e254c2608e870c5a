-- ===== src/Api/Memory/Plain.antt =====
-- The fields of a resource that are plain values, in memory and as they are meant.
use greatsql_operator.Prelude.{ℕ, ◌≡◌, Option}
use greatsql_operator.Api.Meta.{Raw}
use greatsql_operator.Api.Memory.Heap.{Heap, Ref}
use greatsql_operator.Api.Memory.Layout.{
  UpgradeOptions, PodAffinity, ContainerSpec, PodSpec, RolelingUpdate,
  StatefulSetUpdateStrategyType, MysqlGroupReplicationCluster, ServiceExpose, Proxy,
  SchedulerBuckup, MetricsCollection, Storage, Member, GroupReplicationClusterSpec,
  GroupReplicationClusterStatus, GroupReplicationCluster, GroupReplicationClusterList,
  SingleInstanceSpec, SingleInstanceStatus, SingleInstance, SingleInstanceList,
}

-- A value without pointers stands for itself.
abbrev pub Same : {C A : Type 0} → ℕ → Heap C → A → A → Type 0
Same lo h x v = x ≡ v

-- The fields that are plain values.
module _ {E : Type 0} where
  abbrev pub UpgradeOptionsPlain : UpgradeOptions Ref E → UpgradeOptions Option Raw → Type 0
  UpgradeOptionsPlain x v =
      (x.version_service_endpoint ≡ v.version_service_endpoint) × (x.apply ≡ v.apply)

  abbrev pub PodAffinityPlain : PodAffinity Ref E → PodAffinity Option Raw → Type 0
  PodAffinityPlain x v = Unit

  abbrev pub ContainerSpecPlain : ContainerSpec Ref E → ContainerSpec Option Raw → Type 0
  ContainerSpecPlain x v = (x.image ≡ v.image) × (x.image_pull_policy ≡ v.image_pull_policy)

  abbrev pub PodSpecPlain : PodSpec Ref E → PodSpec Option Raw → Type 0
  PodSpecPlain x v =
      (x.scheduler_name ≡ v.scheduler_name)
      × (x.service_account_name ≡ v.service_account_name)
      × (x.service_name ≡ v.service_name)
      × (x.version ≡ v.version)

  abbrev pub RolelingUpdatePlain : RolelingUpdate Ref E → RolelingUpdate Option Raw → Type 0
  RolelingUpdatePlain x v = Unit

  abbrev pub StatefulSetUpdateStrategyTypePlain :
      StatefulSetUpdateStrategyType Ref E → StatefulSetUpdateStrategyType Option Raw → Type 0
  StatefulSetUpdateStrategyTypePlain x v = (x.type ≡ v.type)

  abbrev pub MysqlGroupReplicationClusterPlain :
      MysqlGroupReplicationCluster Ref E → MysqlGroupReplicationCluster Option Raw → Type 0
  MysqlGroupReplicationClusterPlain x v =
      (x.type ≡ v.type)
      × (x.dns_policy ≡ v.dns_policy)
      × UpgradeOptionsPlain x.upgrade_options v.upgrade_options

  abbrev pub ServiceExposePlain : ServiceExpose Ref E → ServiceExpose Option Raw → Type 0
  ServiceExposePlain x v =
      (x.enabled ≡ v.enabled)
      × (x.type ≡ v.type)
      × (x.load_balancer_ip ≡ v.load_balancer_ip)
      × (x.external_traffic_policy ≡ v.external_traffic_policy)
      × (x.internal_traffic_policy ≡ v.internal_traffic_policy)
      × (x.traffic_policy ≡ v.traffic_policy)

  abbrev pub ProxyPlain : Proxy Ref E → Proxy Option Raw → Type 0
  ProxyPlain x v = (x.enabled ≡ v.enabled)

  abbrev pub SchedulerBuckupPlain : SchedulerBuckup Ref E → SchedulerBuckup Option Raw → Type 0
  SchedulerBuckupPlain x v = Unit

  abbrev pub MetricsCollectionPlain :
      MetricsCollection Ref E → MetricsCollection Option Raw → Type 0
  MetricsCollectionPlain x v = Unit

  abbrev pub StoragePlain : Storage Ref E → Storage Option Raw → Type 0
  StoragePlain x v = (x.type ≡ v.type)

  abbrev pub MemberPlain : Member Ref E → Member Option Raw → Type 0
  MemberPlain x v = (x.role ≡ v.role)

  abbrev pub GroupReplicationClusterSpecPlain :
      GroupReplicationClusterSpec Ref E → GroupReplicationClusterSpec Option Raw → Type 0
  GroupReplicationClusterSpecPlain x v = Unit

  abbrev pub GroupReplicationClusterStatusPlain :
      GroupReplicationClusterStatus Ref E → GroupReplicationClusterStatus Option Raw → Type 0
  GroupReplicationClusterStatusPlain x v =
      (x.access_point ≡ v.access_point) × (x.size ≡ v.size) × (x.ready ≡ v.ready) × (x.age ≡ v.age)

  abbrev pub GroupReplicationClusterPlain :
      GroupReplicationCluster Ref E → GroupReplicationCluster Option Raw → Type 0
  GroupReplicationClusterPlain x v = (x.type_meta ≡ v.type_meta)

  abbrev pub GroupReplicationClusterListPlain :
      GroupReplicationClusterList Ref E → GroupReplicationClusterList Option Raw → Type 0
  GroupReplicationClusterListPlain x v = (x.type_meta ≡ v.type_meta)

  abbrev pub SingleInstanceSpecPlain :
      SingleInstanceSpec Ref E → SingleInstanceSpec Option Raw → Type 0
  SingleInstanceSpecPlain x v =
      (x.type ≡ v.type)
      × (x.dns_policy ≡ v.dns_policy)
      × UpgradeOptionsPlain x.upgrade_options v.upgrade_options
      × (x.update_strategy ≡ v.update_strategy)

  abbrev pub SingleInstanceStatusPlain :
      SingleInstanceStatus Ref E → SingleInstanceStatus Option Raw → Type 0
  SingleInstanceStatusPlain x v =
      (x.access_point ≡ v.access_point) × (x.size ≡ v.size) × (x.ready ≡ v.ready) × (x.age ≡ v.age)

  abbrev pub SingleInstancePlain : SingleInstance Ref E → SingleInstance Option Raw → Type 0
  SingleInstancePlain x v = (x.type_meta ≡ v.type_meta)

  abbrev pub SingleInstanceListPlain :
      SingleInstanceList Ref E → SingleInstanceList Option Raw → Type 0
  SingleInstanceListPlain x v = (x.type_meta ≡ v.type_meta)
