-- ===== src/Api/Memory/Deep/Clusters.antt =====
-- The deep copies of a cluster and its parts.
use greatsql_operator.Prelude.{ℕ}
use greatsql_operator.Api.Meta.{Raw}
use greatsql_operator.Api.Memory.Heap.{Heap, Mem}
use greatsql_operator.Api.Memory.Cells.{Cell}
use greatsql_operator.Api.Memory.Slots.Values.{
  externals_at, members_at, group_replication_clusters_at,
}
use greatsql_operator.Api.Memory.Slots.Structs.{
  pod_spec_at, stateful_set_update_strategy_type_at, mysql_group_replication_cluster_at, proxy_at,
  scheduler_buckup_at, metrics_collection_at,
}
use greatsql_operator.Api.Memory.DeepCopyInto as Into
use greatsql_operator.Api.Memory.Owned.{Local-plain, Local-both}
use greatsql_operator.Api.Memory.Copies.{Deep, Builds-pure, Builds-field, Deep-struct}
use greatsql_operator.Api.Memory.Behind.{Deep-each, Deep-behind}
use greatsql_operator.Api.Memory.Plain.{
  MysqlGroupReplicationClusterPlain, GroupReplicationClusterSpecPlain,
  GroupReplicationClusterStatusPlain, GroupReplicationClusterPlain,
  GroupReplicationClusterListPlain,
}
use greatsql_operator.Api.Memory.Meant.{
  MysqlGroupReplicationClusterMeant, GroupReplicationClusterSpecMeant,
  GroupReplicationClusterStatusMeant, GroupReplicationClusterMeant,
  GroupReplicationClusterListMeant,
}
use greatsql_operator.Api.Memory.Deep.Pods.{pod_spec-Deep, proxy-Deep}
use greatsql_operator.Api.Memory.Deep.Sections.{
  stateful_set_update_strategy_type-Deep, scheduler_buckup-Deep, metrics_collection-Deep,
  member-Deep,
}

module _ {E : Type 0} {external : ℕ → Heap (Cell E) → E → Raw → Type 0}
    {copy_external : E → Mem (Cell E) E} (d : Deep external copy_external) where
  pub mysql_group_replication_cluster-Deep :
      Deep
        (MysqlGroupReplicationClusterMeant external)
        (Into.mysql_group_replication_cluster copy_external)
  unfolding Into.mysql_group_replication_cluster
  mysql_group_replication_cluster-Deep =
      Deep-struct (MysqlGroupReplicationClusterMeant external)
        (Into.mysql_group_replication_cluster copy_external)
        (λ x v.
          Local-both
            (Local-both
              (Local-both Local-plain
                ((Deep-behind (pod_spec-Deep d) pod_spec_at).local x.pod_spec v.pod_spec))
              ((Deep-behind (Deep-each d) externals_at).local x.ports v.ports))
            ((Deep-behind (stateful_set_update_strategy_type-Deep d)
                stateful_set_update_strategy_type_at).local
              x.update_strategy v.update_strategy))
        MysqlGroupReplicationClusterPlain (λ lo h x v o. o.0.0.0)
        λ lo base x v.
          Builds-field _ _ _ _ (Deep-behind (pod_spec-Deep d) pod_spec_at) lo x.pod_spec v.pod_spec
            _ (λ h o. o.0.0.1)
            λ pod_spec'.
              Builds-field _ _ _ _ (Deep-behind (Deep-each d) externals_at) lo x.ports v.ports _
                (λ h o. o.0.1)
                λ ports'.
                  Builds-field _ _ _ _
                    (Deep-behind (stateful_set_update_strategy_type-Deep d)
                      stateful_set_update_strategy_type_at)
                    lo x.update_strategy v.update_strategy _ (λ h o. o.1)
                    λ update_strategy'. Builds-pure _ _ _ _ _ (λ h o. o)

  pub group_replication_cluster_spec-Deep :
      Deep
        (GroupReplicationClusterSpecMeant external)
        (Into.group_replication_cluster_spec copy_external)
  unfolding Into.group_replication_cluster_spec
  group_replication_cluster_spec-Deep =
      Deep-struct (GroupReplicationClusterSpecMeant external)
        (Into.group_replication_cluster_spec copy_external)
        (λ x v.
          Local-both
            (Local-both
              (Local-both
                (Local-both
                  (Local-both Local-plain
                    ((Deep-behind (Deep-each (member-Deep d)) members_at).local x.member v.member))
                  ((Deep-behind mysql_group_replication_cluster-Deep
                      mysql_group_replication_cluster_at).local
                    x.cluster_spec v.cluster_spec))
                ((Deep-behind (proxy-Deep d) proxy_at).local x.proxy_spec v.proxy_spec))
              ((Deep-behind (scheduler_buckup-Deep d) scheduler_buckup_at).local x.scheduler_buckup
                v.scheduler_buckup))
            ((Deep-behind (metrics_collection-Deep d) metrics_collection_at).local
              x.metrics_collection v.metrics_collection))
        GroupReplicationClusterSpecPlain (λ lo h x v o. o.0.0.0.0.0)
        λ lo base x v.
          Builds-field _ _ _ _ (Deep-behind (Deep-each (member-Deep d)) members_at) lo x.member
            v.member _ (λ h o. o.0.0.0.0.1)
            λ member'.
              Builds-field _ _ _ _
                (Deep-behind mysql_group_replication_cluster-Deep
                  mysql_group_replication_cluster_at)
                lo x.cluster_spec v.cluster_spec _ (λ h o. o.0.0.0.1)
                λ cluster_spec'.
                  Builds-field _ _ _ _ (Deep-behind (proxy-Deep d) proxy_at) lo x.proxy_spec
                    v.proxy_spec _ (λ h o. o.0.0.1)
                    λ proxy_spec'.
                      Builds-field _ _ _ _
                        (Deep-behind (scheduler_buckup-Deep d) scheduler_buckup_at) lo
                        x.scheduler_buckup v.scheduler_buckup _ (λ h o. o.0.1)
                        λ scheduler_buckup'.
                          Builds-field _ _ _ _
                            (Deep-behind (metrics_collection-Deep d) metrics_collection_at) lo
                            x.metrics_collection v.metrics_collection _ (λ h o. o.1)
                            λ metrics_collection'. Builds-pure _ _ _ _ _ (λ h o. o)

  pub group_replication_cluster_status-Deep :
      Deep
        (GroupReplicationClusterStatusMeant external)
        (Into.group_replication_cluster_status copy_external)
  unfolding Into.group_replication_cluster_status
  group_replication_cluster_status-Deep =
      Deep-struct (GroupReplicationClusterStatusMeant external)
        (Into.group_replication_cluster_status copy_external)
        (λ x v. Local-both Local-plain (d.local x.stateful_set_status v.stateful_set_status))
        GroupReplicationClusterStatusPlain (λ lo h x v o. o.0)
        λ lo base x v.
          Builds-field _ _ _ _ d lo x.stateful_set_status v.stateful_set_status _ (λ h o. o.1)
            λ stateful_set_status'. Builds-pure _ _ _ _ _ (λ h o. o)

  pub group_replication_cluster-Deep :
      Deep (GroupReplicationClusterMeant external) (Into.group_replication_cluster copy_external)
  unfolding Into.group_replication_cluster
  group_replication_cluster-Deep =
      Deep-struct (GroupReplicationClusterMeant external)
        (Into.group_replication_cluster copy_external)
        (λ x v.
          Local-both
            (Local-both (Local-both Local-plain (d.local x.object_meta v.object_meta))
              (group_replication_cluster_spec-Deep.local x.spec v.spec))
            (group_replication_cluster_status-Deep.local x.status v.status))
        GroupReplicationClusterPlain (λ lo h x v o. o.0.0.0)
        λ lo base x v.
          Builds-field _ _ _ _ d lo x.object_meta v.object_meta _ (λ h o. o.0.0.1)
            λ object_meta'.
              Builds-field _ _ _ _ group_replication_cluster_spec-Deep lo x.spec v.spec _
                (λ h o. o.0.1)
                λ spec'.
                  Builds-field _ _ _ _ group_replication_cluster_status-Deep lo x.status v.status _
                    (λ h o. o.1) λ status'. Builds-pure _ _ _ _ _ (λ h o. o)

  pub group_replication_cluster_list-Deep :
      Deep
        (GroupReplicationClusterListMeant external)
        (Into.group_replication_cluster_list copy_external)
  unfolding Into.group_replication_cluster_list
  group_replication_cluster_list-Deep =
      Deep-struct (GroupReplicationClusterListMeant external)
        (Into.group_replication_cluster_list copy_external)
        (λ x v. Local-both (Local-both Local-plain (d.local x.list_meta v.list_meta)) (
          (Deep-behind (Deep-each group_replication_cluster-Deep)
              group_replication_clusters_at).local
            x.items v.items))
        GroupReplicationClusterListPlain (λ lo h x v o. o.0.0)
        λ lo base x v.
          Builds-field _ _ _ _ d lo x.list_meta v.list_meta _ (λ h o. o.0.1)
            λ list_meta'.
              Builds-field _ _ _ _
                (Deep-behind (Deep-each group_replication_cluster-Deep)
                  group_replication_clusters_at)
                lo x.items v.items _ (λ h o. o.1) λ items'. Builds-pure _ _ _ _ _ (λ h o. o)
