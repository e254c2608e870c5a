-- ===== src/Kube/Pods.antt =====
-- internal/pkg/kube/pod.go: containers, and the volumes that the three workload builders share.
use Prim.Native.String.{◌++◌}
use greatsql_operator.Prelude.{
  String, Bool, false, Option, none, some, List, [], ◌∷◌, Outcome, ok, deref, first, ◌>>=◌,
  if◌then◌else◌,
}
use text.Mathlib.Text.{◌==◌ as str_eq}
use greatsql_operator.Prelude.Int.{ℤ, pos}
use greatsql_operator.Prelude.Decimal.{print_ℤ}
use greatsql_operator.Consts
use greatsql_operator.Api.Meta.{StringMap}
use greatsql_operator.Api.Pod.{PodSpec}
use greatsql_operator.Api.Instance.{zero_meta}
use greatsql_operator.Api.Cluster.{GroupReplicationCluster}
use greatsql_operator.Api.Affinity.{Affinity}
use greatsql_operator.Kube.Objects.{
  ContainerPort, Container, config_map_source, claim_source, Volume, PodTemplate, Pod,
}

-- The name of the mount of the configuration (`config`) or of the data (`db`).
unfoldable pub mount_name : String → String → ℤ → Bool → String
mount_name name part ordinal is_stateful_set =
    if is_stateful_set
    then name ++ ("-" ++ (part ++ ("-" ++ print_ℤ ordinal)))
    else name ++ ("-" ++ part)

unfoldable pub tcp_port : String → ℤ → ContainerPort
tcp_port name port = record { name = name; container_port = port; protocol = "TCP" }

-- `NewContainers`
unfoldable pub new_containers :
    {E : Type 0} → String → PodSpec → ℤ → Bool → Outcome E (List Container)
new_containers name cr ordinal is_stateful_set = do
  spec ← first cr.containers
  ok (
      record {
        name = name;
        image = spec.image;
        resources = spec.resources;
        startup_probe = some spec.startup_probe;
        readiness_probe = some spec.readiness_probe;
        liveness_probe = some spec.liveness_probe;
        security_context = spec.security_context;
        ports = tcp_port Consts.mysql_port_name Consts.mysql_port ∷ [];
        image_pull_policy = spec.image_pull_policy;
        env = spec.envs;
        volume_mounts =
            record {
              name = mount_name name Consts.config ordinal is_stateful_set;
              mount_path = Consts.config_dir ++ Consts.config_file;
              sub_path = Consts.config_file;
            }
            ∷ record {
              name = mount_name name Consts.db ordinal is_stateful_set;
              mount_path = Consts.db;
              sub_path = "";
            }
            ∷ [];
      }
      ∷ [])

-- The labels of a workload and of its pods.
unfoldable pub workload_labels : String → StringMap
workload_labels name =
    (Consts.app_kubernetes_name, name) ∷ (Consts.app_kubernetes_instance, name) ∷ []

-- The volume that holds the configuration, mode 0664.
unfoldable pub config_volume : String → String → Volume
config_volume name config_map_name = record {
  name = name ++ Consts.config;
  source = config_map_source config_map_name (pos 0o664);
}

unfoldable pub data_volume : String → Volume
data_volume name = record { name = name ++ Consts.db; source = claim_source (name ++ Consts.db) }

-- The fields of a pod that all builders copy from the custom resource.
unfoldable pub pod_template :
    PodSpec → List Container → Option Affinity → List Volume → String → PodTemplate
pod_template cr containers affinity volumes dns_policy = record {
  containers = containers;
  termination_grace_period_seconds = cr.termination_grace_period_seconds;
  scheduler_name = cr.scheduler_name;
  affinity = affinity;
  service_account_name = cr.service_account_name;
  security_context = cr.pod_security_context;
  node_selector = cr.node_selector;
  tolerations = cr.tolerations;
  volumes = volumes;
  dns_policy = dns_policy;
}

-- `NewPod`
unfoldable pub new_pod : {E : Type 0} → String → GroupReplicationCluster → ℤ → Outcome E Pod
new_pod config_map_name cr ordinal = do
  cluster ← deref cr.spec.cluster_spec
  pod ← deref cluster.pod_spec
  containers ← new_containers cr.meta.name pod ordinal false
  ok (record {
    type_meta = record { kind = "Pod"; api_version = "apps/v1" };
    meta = record zero_meta {
      name = cr.meta.name ++ "-manager";
      namespace = cr.meta.name;
      labels = some (workload_labels cr.meta.name);
    };
    template =
        pod_template pod containers none
          (config_volume cr.meta.name config_map_name ∷ data_volume cr.meta.name ∷ [])
          cluster.dns_policy;
    node_name = "";
    pod_ip = "";
  })

-- `GetNodeName`
unfoldable pub get_node_name : Pod → String
get_node_name pod = if str_eq pod.node_name "" then "" else pod.node_name

-- `GetPodDNS`
unfoldable pub get_pod_dns : Pod → String
get_pod_dns pod = if str_eq pod.pod_ip "" then "" else pod.pod_ip

-- `GetPodIP`
unfoldable pub get_pod_ip : Pod → String
get_pod_ip pod = if str_eq pod.pod_ip "" then "" else pod.pod_ip
