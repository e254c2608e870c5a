-- ===== src/Api/Memory/DeepCopy.antt =====
-- `DeepCopy` of each type, nil for nil, and `DeepCopyObject` of the resources and their lists.
use greatsql_operator.Prelude.{ℕ, Option, none, some}
use greatsql_operator.Api.Memory.Heap.{Ref, Mem, ◌>>=◌, pure, copy_behind}
use greatsql_operator.Api.Memory.Layout.{
  UpgradeOptions, PodAffinity, ContainerSpec, PodSpec, RolelingUpdate,
  StatefulSetUpdateStrategyType, MysqlGroupReplicationCluster, ServiceExpose, Proxy,
  SchedulerBuckup, MetricsCollection, Storage, Member, GroupReplicationClusterSpec,
  GroupReplicationClusterStatus, GroupReplicationCluster, GroupReplicationClusterList,
  SingleInstanceSpec, SingleInstanceStatus, SingleInstance, SingleInstanceList,
}
use greatsql_operator.Api.Memory.Cells.{Cell}
use greatsql_operator.Api.Memory.Slots.Structs.{
  upgrade_options_at, pod_affinity_at, container_spec_at, pod_spec_at, roleling_update_at,
  stateful_set_update_strategy_type_at, mysql_group_replication_cluster_at, service_expose_at,
  proxy_at, scheduler_buckup_at, metrics_collection_at, storage_at, member_at,
  group_replication_cluster_spec_at, group_replication_cluster_status_at,
  group_replication_cluster_at, group_replication_cluster_list_at, single_instance_spec_at,
  single_instance_status_at, single_instance_at, single_instance_list_at,
}
use greatsql_operator.Api.Memory.DeepCopyInto as Into

-- `runtime.Object`, of the types that the program registers; a nil interface is `none`.
pub data Object : Type 0 where
  group_replication_cluster_object group_replication_cluster_list_object : ℕ → Object
  single_instance_object single_instance_list_object : ℕ → Object

module _ {E : Type 0} (external : E → Mem (Cell E) E) where
  unfoldable pub upgrade_options :
      Ref (UpgradeOptions Ref E) → Mem (Cell E) (Ref (UpgradeOptions Ref E))
  upgrade_options = copy_behind upgrade_options_at (Into.upgrade_options external)

  unfoldable pub pod_affinity : Ref (PodAffinity Ref E) → Mem (Cell E) (Ref (PodAffinity Ref E))
  pod_affinity = copy_behind pod_affinity_at (Into.pod_affinity external)

  unfoldable pub container_spec :
      Ref (ContainerSpec Ref E) → Mem (Cell E) (Ref (ContainerSpec Ref E))
  container_spec = copy_behind container_spec_at (Into.container_spec external)

  unfoldable pub pod_spec : Ref (PodSpec Ref E) → Mem (Cell E) (Ref (PodSpec Ref E))
  pod_spec = copy_behind pod_spec_at (Into.pod_spec external)

  unfoldable pub roleling_update :
      Ref (RolelingUpdate Ref E) → Mem (Cell E) (Ref (RolelingUpdate Ref E))
  roleling_update = copy_behind roleling_update_at (Into.roleling_update external)

  unfoldable pub stateful_set_update_strategy_type :
      Ref (StatefulSetUpdateStrategyType Ref E)
      → Mem (Cell E) (Ref (StatefulSetUpdateStrategyType Ref E))
  stateful_set_update_strategy_type =
      copy_behind stateful_set_update_strategy_type_at
        (Into.stateful_set_update_strategy_type external)

  unfoldable pub mysql_group_replication_cluster :
      Ref (MysqlGroupReplicationCluster Ref E)
      → Mem (Cell E) (Ref (MysqlGroupReplicationCluster Ref E))
  mysql_group_replication_cluster =
      copy_behind mysql_group_replication_cluster_at (Into.mysql_group_replication_cluster external)

  unfoldable pub service_expose :
      Ref (ServiceExpose Ref E) → Mem (Cell E) (Ref (ServiceExpose Ref E))
  service_expose = copy_behind service_expose_at (Into.service_expose external)

  unfoldable pub proxy : Ref (Proxy Ref E) → Mem (Cell E) (Ref (Proxy Ref E))
  proxy = copy_behind proxy_at (Into.proxy external)

  unfoldable pub scheduler_buckup :
      Ref (SchedulerBuckup Ref E) → Mem (Cell E) (Ref (SchedulerBuckup Ref E))
  scheduler_buckup = copy_behind scheduler_buckup_at (Into.scheduler_buckup external)

  unfoldable pub metrics_collection :
      Ref (MetricsCollection Ref E) → Mem (Cell E) (Ref (MetricsCollection Ref E))
  metrics_collection = copy_behind metrics_collection_at (Into.metrics_collection external)

  unfoldable pub storage : Ref (Storage Ref E) → Mem (Cell E) (Ref (Storage Ref E))
  storage = copy_behind storage_at (Into.storage external)

  unfoldable pub member : Ref (Member Ref E) → Mem (Cell E) (Ref (Member Ref E))
  member = copy_behind member_at (Into.member external)

  unfoldable pub group_replication_cluster_spec :
      Ref (GroupReplicationClusterSpec Ref E)
      → Mem (Cell E) (Ref (GroupReplicationClusterSpec Ref E))
  group_replication_cluster_spec =
      copy_behind group_replication_cluster_spec_at (Into.group_replication_cluster_spec external)

  unfoldable pub group_replication_cluster_status :
      Ref (GroupReplicationClusterStatus Ref E)
      → Mem (Cell E) (Ref (GroupReplicationClusterStatus Ref E))
  group_replication_cluster_status =
      copy_behind group_replication_cluster_status_at
        (Into.group_replication_cluster_status external)

  unfoldable pub group_replication_cluster :
      Ref (GroupReplicationCluster Ref E) → Mem (Cell E) (Ref (GroupReplicationCluster Ref E))
  group_replication_cluster =
      copy_behind group_replication_cluster_at (Into.group_replication_cluster external)

  unfoldable pub group_replication_cluster_list :
      Ref (GroupReplicationClusterList Ref E)
      → Mem (Cell E) (Ref (GroupReplicationClusterList Ref E))
  group_replication_cluster_list =
      copy_behind group_replication_cluster_list_at (Into.group_replication_cluster_list external)

  unfoldable pub single_instance_spec :
      Ref (SingleInstanceSpec Ref E) → Mem (Cell E) (Ref (SingleInstanceSpec Ref E))
  single_instance_spec = copy_behind single_instance_spec_at (Into.single_instance_spec external)

  unfoldable pub single_instance_status :
      Ref (SingleInstanceStatus Ref E) → Mem (Cell E) (Ref (SingleInstanceStatus Ref E))
  single_instance_status =
      copy_behind single_instance_status_at (Into.single_instance_status external)

  unfoldable pub single_instance :
      Ref (SingleInstance Ref E) → Mem (Cell E) (Ref (SingleInstance Ref E))
  single_instance = copy_behind single_instance_at (Into.single_instance external)

  unfoldable pub single_instance_list :
      Ref (SingleInstanceList Ref E) → Mem (Cell E) (Ref (SingleInstanceList Ref E))
  single_instance_list = copy_behind single_instance_list_at (Into.single_instance_list external)

  unfoldable pub group_replication_cluster_as_object :
      Ref (GroupReplicationCluster Ref E) → Mem (Cell E) (Option Object)
  group_replication_cluster_as_object r = do
    c ← group_replication_cluster r
    elim c [ none ↦ pure none | some a ↦ pure (some (group_replication_cluster_object a)) ]

  unfoldable pub group_replication_cluster_list_as_object :
      Ref (GroupReplicationClusterList Ref E) → Mem (Cell E) (Option Object)
  group_replication_cluster_list_as_object r = do
    c ← group_replication_cluster_list r
    elim c [ none ↦ pure none | some a ↦ pure (some (group_replication_cluster_list_object a)) ]

  unfoldable pub single_instance_as_object :
      Ref (SingleInstance Ref E) → Mem (Cell E) (Option Object)
  single_instance_as_object r = do
    c ← single_instance r
    elim c [ none ↦ pure none | some a ↦ pure (some (single_instance_object a)) ]

  unfoldable pub single_instance_list_as_object :
      Ref (SingleInstanceList Ref E) → Mem (Cell E) (Option Object)
  single_instance_list_as_object r = do
    c ← single_instance_list r
    elim c [ none ↦ pure none | some a ↦ pure (some (single_instance_list_object a)) ]
