-- ===== src/Api/Memory/Cells.antt =====
-- What a cell of the heap may hold: a value behind a pointer, or the elements of a slice or of a map.
use greatsql_operator.Prelude.{String, Bool, List}
use greatsql_operator.Prelude.Int.{ℤ}
use greatsql_operator.Api.Meta.{Raw, StringMap}
use greatsql_operator.Api.Memory.Heap.{Ref}
use greatsql_operator.Api.Memory.Layout.{
  UpgradeOptions, PodAffinity, ContainerSpec, PodSpec, RolelingUpdate,
  StatefulSetUpdateStrategyType, MysqlGroupReplicationCluster, ServiceExpose, Proxy,
  SchedulerBuckup, MetricsCollection, Storage, Member, GroupReplicationClusterSpec,
  GroupReplicationClusterStatus, GroupReplicationCluster, GroupReplicationClusterList,
  SingleInstanceSpec, SingleInstanceStatus, SingleInstance, SingleInstanceList,
}

pub data Cell (E : Type 0) : Type 0 where
  string_cell : String → Cell E
  number_cell : ℤ → Cell E
  boolean_cell : Bool → Cell E
  int_or_string_cell : Raw → Cell E
  string_map_cell : StringMap → Cell E
  strings_cell : List String → Cell E
  references_cell : List Raw → Cell E
  external_cell : E → Cell E
  externals_cell : List E → Cell E
  upgrade_options_cell : UpgradeOptions Ref E → Cell E
  pod_affinity_cell : PodAffinity Ref E → Cell E
  container_spec_cell : ContainerSpec Ref E → Cell E
  pod_spec_cell : PodSpec Ref E → Cell E
  roleling_update_cell : RolelingUpdate Ref E → Cell E
  stateful_set_update_strategy_type_cell : StatefulSetUpdateStrategyType Ref E → Cell E
  mysql_group_replication_cluster_cell : MysqlGroupReplicationCluster Ref E → Cell E
  service_expose_cell : ServiceExpose Ref E → Cell E
  proxy_cell : Proxy Ref E → Cell E
  scheduler_buckup_cell : SchedulerBuckup Ref E → Cell E
  metrics_collection_cell : MetricsCollection Ref E → Cell E
  storage_cell : Storage Ref E → Cell E
  member_cell : Member Ref E → Cell E
  group_replication_cluster_spec_cell : GroupReplicationClusterSpec Ref E → Cell E
  group_replication_cluster_status_cell : GroupReplicationClusterStatus Ref E → Cell E
  group_replication_cluster_cell : GroupReplicationCluster Ref E → Cell E
  group_replication_cluster_list_cell : GroupReplicationClusterList Ref E → Cell E
  single_instance_spec_cell : SingleInstanceSpec Ref E → Cell E
  single_instance_status_cell : SingleInstanceStatus Ref E → Cell E
  single_instance_cell : SingleInstance Ref E → Cell E
  single_instance_list_cell : SingleInstanceList Ref E → Cell E
  container_specs_cell : List (ContainerSpec Ref E) → Cell E
  members_cell : List (Member Ref E) → Cell E
  group_replication_clusters_cell : List (GroupReplicationCluster Ref E) → Cell E
  single_instances_cell : List (SingleInstance Ref E) → Cell E
