-- ===== src/Kube/Builders/Workloads.antt =====
-- deployment.go and statefulset.go.
use Prim.Native.String.{◌++◌}
use greatsql_operator.Prelude.{
  String, true, false, Option, none, some, [], ◌∷◌, Outcome, ok, deref, first, ◌>>=◌,
}
use greatsql_operator.Prelude.Int.{ℤ, pos}
use greatsql_operator.Prelude.Decimal.{print_ℤ}
use greatsql_operator.Consts
use greatsql_operator.Api.Meta.{GroupVersionKind}
use greatsql_operator.Api.Instance.{SingleInstance, zero_meta}
use greatsql_operator.Api.Cluster.{GroupReplicationCluster}
use greatsql_operator.Api.Affinity.{Affinity, instance_pod_affinity, cluster_pod_affinity}
use greatsql_operator.Kube.Objects.{Deployment, StatefulSet, no_source}
use greatsql_operator.Kube.Platform.{Platform}
use greatsql_operator.Kube.Pods.{
  new_containers, workload_labels, config_volume, data_volume, pod_template,
}

abbrev greatsql_kind : String → GroupVersionKind
greatsql_kind kind = record {
  group = Consts.greatsql_group;
  version = Consts.greatsql_version;
  kind = kind;
}

-- the `if` on the affinity in `NewDeployment`
unfoldable pub deployment_affinity : {E : Type 0} → SingleInstance → Outcome E (Option Affinity)
unfolding instance_pod_affinity workload_labels
deployment_affinity cr = elim cr.spec.pod_spec.affinity [
  | none ↦ ok none
  | some _ ↦ instance_pod_affinity cr (workload_labels cr.meta.name)
]

module _ {W : Type 0} (p : Platform W) where
  -- `NewDeployment`
  unfoldable pub new_deployment : {E : Type 0} → String → SingleInstance → ℤ → Outcome E Deployment
  new_deployment config_map_name cr ordinal = do
    affinity ← deployment_affinity cr
    containers ← new_containers cr.meta.name cr.spec.pod_spec ordinal false
    ok (record {
      type_meta = record { api_version = "apps/v1"; kind = "Deployment" };
      meta = record zero_meta {
        name = cr.meta.name;
        namespace = cr.meta.namespace;
        owner_references = p.new_controller_ref cr.meta (greatsql_kind Consts.single_instance) ∷ [];
        labels = some (workload_labels cr.meta.name);
      };
      replicas = cr.spec.size;
      selector = workload_labels cr.meta.name;
      template_labels = workload_labels cr.meta.name;
      template =
          pod_template cr.spec.pod_spec containers affinity
            (config_volume cr.meta.name config_map_name ∷ data_volume cr.meta.name ∷ [])
            cr.spec.dns_policy;
      strategy = cr.spec.update_strategy;
      max_unavailable = pos 1;
      max_surge = pos 1;
    })

  -- `NewStatefulSet`; the second volume of the pod is left empty
  unfoldable pub new_stateful_set :
      {E : Type 0} → String → String → GroupReplicationCluster → ℤ → Outcome E StatefulSet
  new_stateful_set config_map_name service_name cr ordinal = do
    affinity ← cluster_pod_affinity cr (workload_labels cr.meta.name)
    member ← first cr.spec.member
    cluster ← deref cr.spec.cluster_spec
    pod ← deref cluster.pod_spec
    containers ← new_containers cr.meta.name pod ordinal true
    template ← deref pod.persistent_volume_claim_template
    strategy ← deref cluster.update_strategy
    rolling ← deref strategy.roleling_update
    ok (record {
      type_meta = record { api_version = "apps/v1"; kind = "StatefulSet" };
      meta = record zero_meta {
        name = cr.meta.name;
        namespace = cr.meta.namespace;
        owner_references =
            p.new_controller_ref cr.meta (greatsql_kind Consts.group_replication_cluster) ∷ [];
        labels = some (workload_labels cr.meta.name);
      };
      replicas = member.size;
      service_name = service_name;
      selector = workload_labels cr.meta.name;
      template_labels = (Consts.app_kubernetes_name, cr.meta.name) ∷ [];
      template =
          pod_template pod containers affinity
            (config_volume cr.meta.name config_map_name
              ∷ record { name = ""; source = no_source }
              ∷ [])
            cluster.dns_policy;
      volume_claim_templates =
          record {
            type_meta = record { api_version = ""; kind = "" };
            meta = record zero_meta {
              name = cr.meta.name ++ (Consts.db ++ print_ℤ ordinal);
              labels = some (workload_labels cr.meta.name);
            };
            access_modes = "ReadWriteOnce" ∷ [];
            resources = template.resources;
            storage_request = none;
            storage_class_name = template.storage_class_name;
            volume_mode = none;
          }
          ∷ [];
      update_strategy = strategy.type;
      partition = rolling.partition;
      max_unavailable = rolling.max_unavailable;
    })
