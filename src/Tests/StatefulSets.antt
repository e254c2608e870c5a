-- ===== src/Tests/StatefulSets.antt =====
-- A stateful set that is built for the sample cluster.
use greatsql_operator.Prelude.{◌≡◌, refl, none, some, [], ◌∷◌, All, Outcome, ok}
use greatsql_operator.Prelude.Int.{pos}
use greatsql_operator.Consts
use greatsql_operator.Api.Instance.{zero_meta}
use greatsql_operator.Api.Affinity.{cluster_pod_affinity}
use greatsql_operator.Kube.Objects.{StatefulSet, key_of}
use greatsql_operator.Kube.Pods.{new_containers, pod_template}
use greatsql_operator.Kube.Platform.{Error}
use greatsql_operator.Kube.Builders.Secrets.{lookup}
use greatsql_operator.Kube.Builders.Workloads.{new_stateful_set}
use greatsql_operator.Kube.Builders.StatefulSets.{
  Unbound, new_stateful_set-Unbound, new_stateful_set-labels,
}
use greatsql_operator.Tests.Server.{accepting, pod, cluster, member}

abbrev or_empty : Outcome Error StatefulSet → StatefulSet
or_empty (ok d) = d
or_empty _ = record {
  type_meta = record { api_version = ""; kind = "" };
  meta = zero_meta;
  replicas = none;
  service_name = "";
  selector = [];
  template_labels = [];
  template = pod_template pod [] none [] "";
  volume_claim_templates = [];
  update_strategy = "";
  partition = none;
  max_unavailable = none;
}

abbrev built : StatefulSet
built = or_empty (
    new_stateful_set accepting "db1-config-1" "db1-headless" (cluster (member (some (pos 3)) ∷ []))
      (pos 1))

built_is :
    ◌≡◌ {A = Outcome Error StatefulSet}
      (new_stateful_set accepting "db1-config-1" "db1-headless"
        (cluster (member (some (pos 3)) ∷ []))
        (pos 1))
      (ok built)
unfolding new_stateful_set new_containers cluster_pod_affinity
built_is = refl

new_stateful_set-Unbound_example :
    All (Unbound built.template.volumes built.volume_claim_templates) built.template.containers
new_stateful_set-Unbound_example =
    new_stateful_set-Unbound accepting "db1-config-1" "db1-headless"
      (cluster (member (some (pos 3)) ∷ [])) (pos 1) built built_is

new_stateful_set-labels_example :
    (key_of built.meta ≡ record { namespace = "default"; name = "db1" })
    × (lookup Consts.app_kubernetes_instance built.selector ≡ some "db1")
    × (lookup Consts.app_kubernetes_instance built.template_labels ≡ none)
new_stateful_set-labels_example =
    new_stateful_set-labels accepting "db1-config-1" "db1-headless"
      (cluster (member (some (pos 3)) ∷ [])) (pos 1) built built_is
