-- ===== src/Api/Memory/Meant.antt =====
-- When a resource in memory stands for the resource that is meant.
use greatsql_operator.Prelude.{ℕ, Option}
use greatsql_operator.Api.Meta.{Raw}
use greatsql_operator.Api.Memory.Heap.{Heap, Ref}
use greatsql_operator.Api.Memory.Layout.{
  UpgradeOptions, PodAffinity, ContainerSpec, PodSpec, RolelingUpdate,
  StatefulSetUpdateStrategyType, MysqlGroupReplicationCluster, ServiceExpose, Proxy,
  SchedulerBuckup, MetricsCollection, Storage, Member, GroupReplicationClusterSpec,
  GroupReplicationClusterStatus, GroupReplicationCluster, GroupReplicationClusterList,
  SingleInstanceSpec, SingleInstanceStatus, SingleInstance, SingleInstanceList,
}
use greatsql_operator.Api.Memory.Cells.{Cell}
use greatsql_operator.Api.Memory.Slots.Values.{
  string_at, number_at, boolean_at, int_or_string_at, string_map_at, strings_at, references_at,
  external_at, externals_at, container_specs_at, members_at, group_replication_clusters_at,
  single_instances_at,
}
use greatsql_operator.Api.Memory.Slots.Structs.{
  pod_affinity_at, pod_spec_at, roleling_update_at, stateful_set_update_strategy_type_at,
  mysql_group_replication_cluster_at, proxy_at, scheduler_buckup_at, metrics_collection_at,
}
use greatsql_operator.Api.Memory.Owned.{Held, Each}
use greatsql_operator.Api.Memory.Plain.{
  Same, UpgradeOptionsPlain, PodAffinityPlain, ContainerSpecPlain, PodSpecPlain,
  RolelingUpdatePlain, StatefulSetUpdateStrategyTypePlain, MysqlGroupReplicationClusterPlain,
  ServiceExposePlain, ProxyPlain, SchedulerBuckupPlain, MetricsCollectionPlain, StoragePlain,
  MemberPlain, GroupReplicationClusterSpecPlain, GroupReplicationClusterStatusPlain,
  GroupReplicationClusterPlain, GroupReplicationClusterListPlain, SingleInstanceSpecPlain,
  SingleInstanceStatusPlain, SingleInstancePlain, SingleInstanceListPlain,
}

-- `external lo h x v`: the value `x` of k8s.io stands for `v`, and reaches no cell below `lo`.
module _ {E : Type 0} (external : ℕ → Heap (Cell E) → E → Raw → Type 0) where
  abbrev pub UpgradeOptionsMeant :
      ℕ → Heap (Cell E) → UpgradeOptions Ref E → UpgradeOptions Option Raw → Type 0
  UpgradeOptionsMeant lo h x v = UpgradeOptionsPlain x v

  abbrev pub PodAffinityMeant :
      ℕ → Heap (Cell E) → PodAffinity Ref E → PodAffinity Option Raw → Type 0
  PodAffinityMeant lo h x v =
      PodAffinityPlain x v × Held Same string_at lo h x.topology_key v.topology_key

  abbrev pub ContainerSpecMeant :
      ℕ → Heap (Cell E) → ContainerSpec Ref E → ContainerSpec Option Raw → Type 0
  ContainerSpecMeant lo h x v =
      ((((((ContainerSpecPlain x v
                  × Held Same references_at lo h x.image_pull_secrets v.image_pull_secrets)
                × external lo h x.resources v.resources)
              × external lo h x.startup_probe v.startup_probe)
            × external lo h x.readiness_probe v.readiness_probe)
          × external lo h x.liveness_probe v.liveness_probe)
        × Held external external_at lo h x.security_context v.security_context)
      × Held (Each external) externals_at lo h x.envs v.envs

  abbrev pub PodSpecMeant : ℕ → Heap (Cell E) → PodSpec Ref E → PodSpec Option Raw → Type 0
  PodSpecMeant lo h x v =
      ((((((((PodSpecPlain x v × Held PodAffinityMeant pod_affinity_at lo h x.affinity v.affinity)
                    × Held (Each Same) string_map_at lo h x.annotation v.annotation)
                  × Held (Each Same) string_map_at lo h x.labels v.labels)
                × Held (Each Same) string_map_at lo h x.node_selector v.node_selector)
              × Held (Each external) externals_at lo h x.tolerations v.tolerations)
            × Held Same number_at lo h x.termination_grace_period_seconds
                v.termination_grace_period_seconds)
          × Held external external_at lo h x.pod_security_context v.pod_security_context)
        × Held (Each ContainerSpecMeant) container_specs_at lo h x.containers v.containers)
      × Held external external_at lo h x.persistent_volume_claim_template
          v.persistent_volume_claim_template

  abbrev pub RolelingUpdateMeant :
      ℕ → Heap (Cell E) → RolelingUpdate Ref E → RolelingUpdate Option Raw → Type 0
  RolelingUpdateMeant lo h x v =
      (RolelingUpdatePlain x v × Held Same number_at lo h x.partition v.partition)
      × Held Same int_or_string_at lo h x.max_unavailable v.max_unavailable

  abbrev pub StatefulSetUpdateStrategyTypeMeant :
      ℕ
      → Heap (Cell E)
      → StatefulSetUpdateStrategyType Ref E
      → StatefulSetUpdateStrategyType Option Raw
      → Type 0
  StatefulSetUpdateStrategyTypeMeant lo h x v =
      StatefulSetUpdateStrategyTypePlain x v
      × Held RolelingUpdateMeant roleling_update_at lo h x.roleling_update v.roleling_update

  abbrev pub MysqlGroupReplicationClusterMeant :
      ℕ
      → Heap (Cell E)
      → MysqlGroupReplicationCluster Ref E
      → MysqlGroupReplicationCluster Option Raw
      → Type 0
  MysqlGroupReplicationClusterMeant lo h x v =
      ((MysqlGroupReplicationClusterPlain x v
          × Held PodSpecMeant pod_spec_at lo h x.pod_spec v.pod_spec)
        × Held (Each external) externals_at lo h x.ports v.ports)
      × Held StatefulSetUpdateStrategyTypeMeant stateful_set_update_strategy_type_at lo h
          x.update_strategy v.update_strategy

  abbrev pub ServiceExposeMeant :
      ℕ → Heap (Cell E) → ServiceExpose Ref E → ServiceExpose Option Raw → Type 0
  ServiceExposeMeant lo h x v =
      ((ServiceExposePlain x v
          × Held Same strings_at lo h x.load_balancer_source_ranges v.load_balancer_source_ranges)
        × Held (Each Same) string_map_at lo h x.annotations v.annotations)
      × Held (Each Same) string_map_at lo h x.labels v.labels

  abbrev pub ProxyMeant : ℕ → Heap (Cell E) → Proxy Ref E → Proxy Option Raw → Type 0
  ProxyMeant lo h x v =
      (ProxyPlain x v × PodSpecMeant lo h x.pod_spec v.pod_spec)
      × ServiceExposeMeant lo h x.expose v.expose

  abbrev pub SchedulerBuckupMeant :
      ℕ → Heap (Cell E) → SchedulerBuckup Ref E → SchedulerBuckup Option Raw → Type 0
  SchedulerBuckupMeant lo h x v =
      SchedulerBuckupPlain x v × Held Same boolean_at lo h x.enable v.enable

  abbrev pub MetricsCollectionMeant :
      ℕ → Heap (Cell E) → MetricsCollection Ref E → MetricsCollection Option Raw → Type 0
  MetricsCollectionMeant lo h x v =
      MetricsCollectionPlain x v × Held Same boolean_at lo h x.enable v.enable

  abbrev pub StorageMeant : ℕ → Heap (Cell E) → Storage Ref E → Storage Option Raw → Type 0
  StorageMeant lo h x v =
      (StoragePlain x v
        × Held external external_at lo h x.persistent_volume_source v.persistent_volume_source)
      × Held external external_at lo h x.persistent_volume_claim_template
          v.persistent_volume_claim_template

  abbrev pub MemberMeant : ℕ → Heap (Cell E) → Member Ref E → Member Option Raw → Type 0
  MemberMeant lo h x v = MemberPlain x v × Held Same number_at lo h x.size v.size

  abbrev pub GroupReplicationClusterSpecMeant :
      ℕ
      → Heap (Cell E)
      → GroupReplicationClusterSpec Ref E
      → GroupReplicationClusterSpec Option Raw
      → Type 0
  GroupReplicationClusterSpecMeant lo h x v =
      ((((GroupReplicationClusterSpecPlain x v
              × Held (Each MemberMeant) members_at lo h x.member v.member)
            × Held MysqlGroupReplicationClusterMeant mysql_group_replication_cluster_at lo h
                x.cluster_spec v.cluster_spec)
          × Held ProxyMeant proxy_at lo h x.proxy_spec v.proxy_spec)
        × Held SchedulerBuckupMeant scheduler_buckup_at lo h x.scheduler_buckup v.scheduler_buckup)
      × Held MetricsCollectionMeant metrics_collection_at lo h x.metrics_collection
          v.metrics_collection

  abbrev pub GroupReplicationClusterStatusMeant :
      ℕ
      → Heap (Cell E)
      → GroupReplicationClusterStatus Ref E
      → GroupReplicationClusterStatus Option Raw
      → Type 0
  GroupReplicationClusterStatusMeant lo h x v =
      GroupReplicationClusterStatusPlain x v
      × external lo h x.stateful_set_status v.stateful_set_status

  abbrev pub GroupReplicationClusterMeant :
      ℕ
      → Heap (Cell E)
      → GroupReplicationCluster Ref E
      → GroupReplicationCluster Option Raw
      → Type 0
  GroupReplicationClusterMeant lo h x v =
      ((GroupReplicationClusterPlain x v × external lo h x.object_meta v.object_meta)
        × GroupReplicationClusterSpecMeant lo h x.spec v.spec)
      × GroupReplicationClusterStatusMeant lo h x.status v.status

  abbrev pub GroupReplicationClusterListMeant :
      ℕ
      → Heap (Cell E)
      → GroupReplicationClusterList Ref E
      → GroupReplicationClusterList Option Raw
      → Type 0
  GroupReplicationClusterListMeant lo h x v =
      (GroupReplicationClusterListPlain x v × external lo h x.list_meta v.list_meta)
      × Held (Each GroupReplicationClusterMeant) group_replication_clusters_at lo h x.items v.items

  abbrev pub SingleInstanceSpecMeant :
      ℕ → Heap (Cell E) → SingleInstanceSpec Ref E → SingleInstanceSpec Option Raw → Type 0
  SingleInstanceSpecMeant lo h x v =
      ((SingleInstanceSpecPlain x v × Held Same number_at lo h x.size v.size)
        × PodSpecMeant lo h x.pod_spec v.pod_spec)
      × Held (Each external) externals_at lo h x.ports v.ports

  abbrev pub SingleInstanceStatusMeant :
      ℕ → Heap (Cell E) → SingleInstanceStatus Ref E → SingleInstanceStatus Option Raw → Type 0
  SingleInstanceStatusMeant lo h x v =
      SingleInstanceStatusPlain x v × external lo h x.deployment_status v.deployment_status

  abbrev pub SingleInstanceMeant :
      ℕ → Heap (Cell E) → SingleInstance Ref E → SingleInstance Option Raw → Type 0
  SingleInstanceMeant lo h x v =
      ((SingleInstancePlain x v × external lo h x.object_meta v.object_meta)
        × SingleInstanceSpecMeant lo h x.spec v.spec)
      × SingleInstanceStatusMeant lo h x.status v.status

  abbrev pub SingleInstanceListMeant :
      ℕ → Heap (Cell E) → SingleInstanceList Ref E → SingleInstanceList Option Raw → Type 0
  SingleInstanceListMeant lo h x v =
      (SingleInstanceListPlain x v × external lo h x.list_meta v.list_meta)
      × Held (Each SingleInstanceMeant) single_instances_at lo h x.items v.items
