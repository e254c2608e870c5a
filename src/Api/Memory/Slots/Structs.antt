-- ===== src/Api/Memory/Slots/Structs.antt =====
-- The cells of the structs of api/v1.
use greatsql_operator.Prelude.{Option, none, some, refl}
use greatsql_operator.Api.Memory.Heap.{Ref, Slot, slot}
use greatsql_operator.Api.Memory.Layout.{
  UpgradeOptions, PodAffinity, ContainerSpec, PodSpec, RolelingUpdate,
  StatefulSetUpdateStrategyType, MysqlGroupReplicationCluster, ServiceExpose, Proxy,
  SchedulerBuckup, MetricsCollection, Storage, Member, GroupReplicationClusterSpec,
  GroupReplicationClusterStatus, GroupReplicationCluster, GroupReplicationClusterList,
  SingleInstanceSpec, SingleInstanceStatus, SingleInstance, SingleInstanceList,
}
use greatsql_operator.Api.Memory.Cells.{
  Cell, upgrade_options_cell, pod_affinity_cell, container_spec_cell, pod_spec_cell,
  roleling_update_cell, stateful_set_update_strategy_type_cell,
  mysql_group_replication_cluster_cell, service_expose_cell, proxy_cell, scheduler_buckup_cell,
  metrics_collection_cell, storage_cell, member_cell, group_replication_cluster_spec_cell,
  group_replication_cluster_status_cell, group_replication_cluster_cell,
  group_replication_cluster_list_cell, single_instance_spec_cell, single_instance_status_cell,
  single_instance_cell, single_instance_list_cell,
}

module _ {E : Type 0} where
  abbrev upgrade_options_in : Cell E → Option (UpgradeOptions Ref E)
  upgrade_options_in (upgrade_options_cell x) = some x
  upgrade_options_in _ = none

  abbrev pub upgrade_options_at : Slot (Cell E) (UpgradeOptions Ref E)
  upgrade_options_at = slot upgrade_options_cell upgrade_options_in (λ x. refl)

  abbrev pod_affinity_in : Cell E → Option (PodAffinity Ref E)
  pod_affinity_in (pod_affinity_cell x) = some x
  pod_affinity_in _ = none

  abbrev pub pod_affinity_at : Slot (Cell E) (PodAffinity Ref E)
  pod_affinity_at = slot pod_affinity_cell pod_affinity_in (λ x. refl)

  abbrev container_spec_in : Cell E → Option (ContainerSpec Ref E)
  container_spec_in (container_spec_cell x) = some x
  container_spec_in _ = none

  abbrev pub container_spec_at : Slot (Cell E) (ContainerSpec Ref E)
  container_spec_at = slot container_spec_cell container_spec_in (λ x. refl)

  abbrev pod_spec_in : Cell E → Option (PodSpec Ref E)
  pod_spec_in (pod_spec_cell x) = some x
  pod_spec_in _ = none

  abbrev pub pod_spec_at : Slot (Cell E) (PodSpec Ref E)
  pod_spec_at = slot pod_spec_cell pod_spec_in (λ x. refl)

  abbrev roleling_update_in : Cell E → Option (RolelingUpdate Ref E)
  roleling_update_in (roleling_update_cell x) = some x
  roleling_update_in _ = none

  abbrev pub roleling_update_at : Slot (Cell E) (RolelingUpdate Ref E)
  roleling_update_at = slot roleling_update_cell roleling_update_in (λ x. refl)

  abbrev stateful_set_update_strategy_type_in :
      Cell E → Option (StatefulSetUpdateStrategyType Ref E)
  stateful_set_update_strategy_type_in (stateful_set_update_strategy_type_cell x) = some x
  stateful_set_update_strategy_type_in _ = none

  abbrev pub stateful_set_update_strategy_type_at :
      Slot (Cell E) (StatefulSetUpdateStrategyType Ref E)
  stateful_set_update_strategy_type_at =
      slot stateful_set_update_strategy_type_cell stateful_set_update_strategy_type_in (λ x. refl)

  abbrev mysql_group_replication_cluster_in : Cell E → Option (MysqlGroupReplicationCluster Ref E)
  mysql_group_replication_cluster_in (mysql_group_replication_cluster_cell x) = some x
  mysql_group_replication_cluster_in _ = none

  abbrev pub mysql_group_replication_cluster_at : Slot (Cell E) (MysqlGroupReplicationCluster Ref E)
  mysql_group_replication_cluster_at =
      slot mysql_group_replication_cluster_cell mysql_group_replication_cluster_in (λ x. refl)

  abbrev service_expose_in : Cell E → Option (ServiceExpose Ref E)
  service_expose_in (service_expose_cell x) = some x
  service_expose_in _ = none

  abbrev pub service_expose_at : Slot (Cell E) (ServiceExpose Ref E)
  service_expose_at = slot service_expose_cell service_expose_in (λ x. refl)

  abbrev proxy_in : Cell E → Option (Proxy Ref E)
  proxy_in (proxy_cell x) = some x
  proxy_in _ = none

  abbrev pub proxy_at : Slot (Cell E) (Proxy Ref E)
  proxy_at = slot proxy_cell proxy_in (λ x. refl)

  abbrev scheduler_buckup_in : Cell E → Option (SchedulerBuckup Ref E)
  scheduler_buckup_in (scheduler_buckup_cell x) = some x
  scheduler_buckup_in _ = none

  abbrev pub scheduler_buckup_at : Slot (Cell E) (SchedulerBuckup Ref E)
  scheduler_buckup_at = slot scheduler_buckup_cell scheduler_buckup_in (λ x. refl)

  abbrev metrics_collection_in : Cell E → Option (MetricsCollection Ref E)
  metrics_collection_in (metrics_collection_cell x) = some x
  metrics_collection_in _ = none

  abbrev pub metrics_collection_at : Slot (Cell E) (MetricsCollection Ref E)
  metrics_collection_at = slot metrics_collection_cell metrics_collection_in (λ x. refl)

  abbrev storage_in : Cell E → Option (Storage Ref E)
  storage_in (storage_cell x) = some x
  storage_in _ = none

  abbrev pub storage_at : Slot (Cell E) (Storage Ref E)
  storage_at = slot storage_cell storage_in (λ x. refl)

  abbrev member_in : Cell E → Option (Member Ref E)
  member_in (member_cell x) = some x
  member_in _ = none

  abbrev pub member_at : Slot (Cell E) (Member Ref E)
  member_at = slot member_cell member_in (λ x. refl)

  abbrev group_replication_cluster_spec_in : Cell E → Option (GroupReplicationClusterSpec Ref E)
  group_replication_cluster_spec_in (group_replication_cluster_spec_cell x) = some x
  group_replication_cluster_spec_in _ = none

  abbrev pub group_replication_cluster_spec_at : Slot (Cell E) (GroupReplicationClusterSpec Ref E)
  group_replication_cluster_spec_at =
      slot group_replication_cluster_spec_cell group_replication_cluster_spec_in (λ x. refl)

  abbrev group_replication_cluster_status_in : Cell E → Option (GroupReplicationClusterStatus Ref E)
  group_replication_cluster_status_in (group_replication_cluster_status_cell x) = some x
  group_replication_cluster_status_in _ = none

  abbrev pub group_replication_cluster_status_at :
      Slot (Cell E) (GroupReplicationClusterStatus Ref E)
  group_replication_cluster_status_at =
      slot group_replication_cluster_status_cell group_replication_cluster_status_in (λ x. refl)

  abbrev group_replication_cluster_in : Cell E → Option (GroupReplicationCluster Ref E)
  group_replication_cluster_in (group_replication_cluster_cell x) = some x
  group_replication_cluster_in _ = none

  abbrev pub group_replication_cluster_at : Slot (Cell E) (GroupReplicationCluster Ref E)
  group_replication_cluster_at =
      slot group_replication_cluster_cell group_replication_cluster_in (λ x. refl)

  abbrev group_replication_cluster_list_in : Cell E → Option (GroupReplicationClusterList Ref E)
  group_replication_cluster_list_in (group_replication_cluster_list_cell x) = some x
  group_replication_cluster_list_in _ = none

  abbrev pub group_replication_cluster_list_at : Slot (Cell E) (GroupReplicationClusterList Ref E)
  group_replication_cluster_list_at =
      slot group_replication_cluster_list_cell group_replication_cluster_list_in (λ x. refl)

  abbrev single_instance_spec_in : Cell E → Option (SingleInstanceSpec Ref E)
  single_instance_spec_in (single_instance_spec_cell x) = some x
  single_instance_spec_in _ = none

  abbrev pub single_instance_spec_at : Slot (Cell E) (SingleInstanceSpec Ref E)
  single_instance_spec_at = slot single_instance_spec_cell single_instance_spec_in (λ x. refl)

  abbrev single_instance_status_in : Cell E → Option (SingleInstanceStatus Ref E)
  single_instance_status_in (single_instance_status_cell x) = some x
  single_instance_status_in _ = none

  abbrev pub single_instance_status_at : Slot (Cell E) (SingleInstanceStatus Ref E)
  single_instance_status_at = slot single_instance_status_cell single_instance_status_in (λ x. refl)

  abbrev single_instance_in : Cell E → Option (SingleInstance Ref E)
  single_instance_in (single_instance_cell x) = some x
  single_instance_in _ = none

  abbrev pub single_instance_at : Slot (Cell E) (SingleInstance Ref E)
  single_instance_at = slot single_instance_cell single_instance_in (λ x. refl)

  abbrev single_instance_list_in : Cell E → Option (SingleInstanceList Ref E)
  single_instance_list_in (single_instance_list_cell x) = some x
  single_instance_list_in _ = none

  abbrev pub single_instance_list_at : Slot (Cell E) (SingleInstanceList Ref E)
  single_instance_list_at = slot single_instance_list_cell single_instance_list_in (λ x. refl)
