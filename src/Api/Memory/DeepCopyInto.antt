-- ===== src/Api/Memory/DeepCopyInto.antt =====
-- `DeepCopyInto` of each type: what `*out` holds behind it. `*out = *in` comes first, so that a field that
-- is not copied is the field of `in`.
use greatsql_operator.Api.Memory.Heap.{Ref, Mem, ◌>>=◌, pure, copy_behind, each}
use greatsql_operator.Api.Memory.Layout.{
  UpgradeOptions, PodAffinity, ContainerSpec, PodSpec, RolelingUpdate,
  StatefulSetUpdateStrategyType, MysqlGroupReplicationCluster, ServiceExpose, Proxy,
  SchedulerBuckup, MetricsCollection, Storage, Member, GroupReplicationClusterSpec,
  GroupReplicationClusterStatus, GroupReplicationCluster, GroupReplicationClusterList,
  SingleInstanceSpec, SingleInstanceStatus, SingleInstance, SingleInstanceList,
}
use greatsql_operator.Api.Memory.Cells.{Cell}
use greatsql_operator.Api.Memory.Slots.Values.{
  string_at, number_at, boolean_at, int_or_string_at, string_map_at, strings_at, references_at,
  external_at, externals_at, container_specs_at, members_at, group_replication_clusters_at,
  single_instances_at,
}
use greatsql_operator.Api.Memory.Slots.Structs.{
  pod_affinity_at, pod_spec_at, roleling_update_at, stateful_set_update_strategy_type_at,
  mysql_group_replication_cluster_at, proxy_at, scheduler_buckup_at, metrics_collection_at,
}

-- `external` is `DeepCopyInto` of the values of k8s.io.
module _ {E : Type 0} (external : E → Mem (Cell E) E) where
  unfoldable pub upgrade_options : UpgradeOptions Ref E → Mem (Cell E) (UpgradeOptions Ref E)
  upgrade_options x = pure x

  unfoldable pub pod_affinity : PodAffinity Ref E → Mem (Cell E) (PodAffinity Ref E)
  pod_affinity x = do
    topology_key' ← copy_behind string_at pure x.topology_key
    pure (record x { topology_key = topology_key' })

  unfoldable pub container_spec : ContainerSpec Ref E → Mem (Cell E) (ContainerSpec Ref E)
  container_spec x = do
    image_pull_secrets' ← copy_behind references_at pure x.image_pull_secrets
    resources' ← external x.resources
    startup_probe' ← external x.startup_probe
    readiness_probe' ← external x.readiness_probe
    liveness_probe' ← external x.liveness_probe
    security_context' ← copy_behind external_at external x.security_context
    envs' ← copy_behind externals_at (each external) x.envs
    pure (record x {
      image_pull_secrets = image_pull_secrets';
      resources = resources';
      startup_probe = startup_probe';
      readiness_probe = readiness_probe';
      liveness_probe = liveness_probe';
      security_context = security_context';
      envs = envs';
    })

  unfoldable pub pod_spec : PodSpec Ref E → Mem (Cell E) (PodSpec Ref E)
  pod_spec x = do
    affinity' ← copy_behind pod_affinity_at pod_affinity x.affinity
    annotation' ← copy_behind string_map_at (each pure) x.annotation
    labels' ← copy_behind string_map_at (each pure) x.labels
    node_selector' ← copy_behind string_map_at (each pure) x.node_selector
    tolerations' ← copy_behind externals_at (each external) x.tolerations
    termination_grace_period_seconds' ←
        copy_behind number_at pure x.termination_grace_period_seconds
    pod_security_context' ← copy_behind external_at external x.pod_security_context
    containers' ← copy_behind container_specs_at (each container_spec) x.containers
    persistent_volume_claim_template' ←
        copy_behind external_at external x.persistent_volume_claim_template
    pure (record x {
      affinity = affinity';
      annotation = annotation';
      labels = labels';
      node_selector = node_selector';
      tolerations = tolerations';
      termination_grace_period_seconds = termination_grace_period_seconds';
      pod_security_context = pod_security_context';
      containers = containers';
      persistent_volume_claim_template = persistent_volume_claim_template';
    })

  unfoldable pub roleling_update : RolelingUpdate Ref E → Mem (Cell E) (RolelingUpdate Ref E)
  roleling_update x = do
    partition' ← copy_behind number_at pure x.partition
    max_unavailable' ← copy_behind int_or_string_at pure x.max_unavailable
    pure (record x { partition = partition'; max_unavailable = max_unavailable' })

  unfoldable pub stateful_set_update_strategy_type :
      StatefulSetUpdateStrategyType Ref E → Mem (Cell E) (StatefulSetUpdateStrategyType Ref E)
  stateful_set_update_strategy_type x = do
    roleling_update' ← copy_behind roleling_update_at roleling_update x.roleling_update
    pure (record x { roleling_update = roleling_update' })

  unfoldable pub mysql_group_replication_cluster :
      MysqlGroupReplicationCluster Ref E → Mem (Cell E) (MysqlGroupReplicationCluster Ref E)
  mysql_group_replication_cluster x = do
    pod_spec' ← copy_behind pod_spec_at pod_spec x.pod_spec
    ports' ← copy_behind externals_at (each external) x.ports
    update_strategy' ←
        copy_behind stateful_set_update_strategy_type_at stateful_set_update_strategy_type
          x.update_strategy
    pure (record x { pod_spec = pod_spec'; ports = ports'; update_strategy = update_strategy' })

  unfoldable pub service_expose : ServiceExpose Ref E → Mem (Cell E) (ServiceExpose Ref E)
  service_expose x = do
    load_balancer_source_ranges' ← copy_behind strings_at pure x.load_balancer_source_ranges
    annotations' ← copy_behind string_map_at (each pure) x.annotations
    labels' ← copy_behind string_map_at (each pure) x.labels
    pure (record x {
      load_balancer_source_ranges = load_balancer_source_ranges';
      annotations = annotations';
      labels = labels';
    })

  unfoldable pub proxy : Proxy Ref E → Mem (Cell E) (Proxy Ref E)
  proxy x = do
    pod_spec' ← pod_spec x.pod_spec
    expose' ← service_expose x.expose
    pure (record x { pod_spec = pod_spec'; expose = expose' })

  unfoldable pub scheduler_buckup : SchedulerBuckup Ref E → Mem (Cell E) (SchedulerBuckup Ref E)
  scheduler_buckup x = do
    enable' ← copy_behind boolean_at pure x.enable
    pure (record x { enable = enable' })

  unfoldable pub metrics_collection :
      MetricsCollection Ref E → Mem (Cell E) (MetricsCollection Ref E)
  metrics_collection x = do
    enable' ← copy_behind boolean_at pure x.enable
    pure (record x { enable = enable' })

  unfoldable pub storage : Storage Ref E → Mem (Cell E) (Storage Ref E)
  storage x = do
    persistent_volume_source' ← copy_behind external_at external x.persistent_volume_source
    persistent_volume_claim_template' ←
        copy_behind external_at external x.persistent_volume_claim_template
    pure (record x {
      persistent_volume_source = persistent_volume_source';
      persistent_volume_claim_template = persistent_volume_claim_template';
    })

  unfoldable pub member : Member Ref E → Mem (Cell E) (Member Ref E)
  member x = do size' ← copy_behind number_at pure x.size; pure (record x { size = size' })

  unfoldable pub group_replication_cluster_spec :
      GroupReplicationClusterSpec Ref E → Mem (Cell E) (GroupReplicationClusterSpec Ref E)
  group_replication_cluster_spec x = do
    member' ← copy_behind members_at (each member) x.member
    cluster_spec' ←
        copy_behind mysql_group_replication_cluster_at mysql_group_replication_cluster
          x.cluster_spec
    proxy_spec' ← copy_behind proxy_at proxy x.proxy_spec
    scheduler_buckup' ← copy_behind scheduler_buckup_at scheduler_buckup x.scheduler_buckup
    metrics_collection' ← copy_behind metrics_collection_at metrics_collection x.metrics_collection
    pure (record x {
      member = member';
      cluster_spec = cluster_spec';
      proxy_spec = proxy_spec';
      scheduler_buckup = scheduler_buckup';
      metrics_collection = metrics_collection';
    })

  unfoldable pub group_replication_cluster_status :
      GroupReplicationClusterStatus Ref E → Mem (Cell E) (GroupReplicationClusterStatus Ref E)
  group_replication_cluster_status x = do
    stateful_set_status' ← external x.stateful_set_status
    pure (record x { stateful_set_status = stateful_set_status' })

  unfoldable pub group_replication_cluster :
      GroupReplicationCluster Ref E → Mem (Cell E) (GroupReplicationCluster Ref E)
  group_replication_cluster x = do
    object_meta' ← external x.object_meta
    spec' ← group_replication_cluster_spec x.spec
    status' ← group_replication_cluster_status x.status
    pure (record x { object_meta = object_meta'; spec = spec'; status = status' })

  unfoldable pub group_replication_cluster_list :
      GroupReplicationClusterList Ref E → Mem (Cell E) (GroupReplicationClusterList Ref E)
  group_replication_cluster_list x = do
    list_meta' ← external x.list_meta
    items' ← copy_behind group_replication_clusters_at (each group_replication_cluster) x.items
    pure (record x { list_meta = list_meta'; items = items' })

  unfoldable pub single_instance_spec :
      SingleInstanceSpec Ref E → Mem (Cell E) (SingleInstanceSpec Ref E)
  single_instance_spec x = do
    size' ← copy_behind number_at pure x.size
    pod_spec' ← pod_spec x.pod_spec
    ports' ← copy_behind externals_at (each external) x.ports
    pure (record x { size = size'; pod_spec = pod_spec'; ports = ports' })

  unfoldable pub single_instance_status :
      SingleInstanceStatus Ref E → Mem (Cell E) (SingleInstanceStatus Ref E)
  single_instance_status x = do
    deployment_status' ← external x.deployment_status
    pure (record x { deployment_status = deployment_status' })

  unfoldable pub single_instance : SingleInstance Ref E → Mem (Cell E) (SingleInstance Ref E)
  single_instance x = do
    object_meta' ← external x.object_meta
    spec' ← single_instance_spec x.spec
    status' ← single_instance_status x.status
    pure (record x { object_meta = object_meta'; spec = spec'; status = status' })

  unfoldable pub single_instance_list :
      SingleInstanceList Ref E → Mem (Cell E) (SingleInstanceList Ref E)
  single_instance_list x = do
    list_meta' ← external x.list_meta
    items' ← copy_behind single_instances_at (each single_instance) x.items
    pure (record x { list_meta = list_meta'; items = items' })
