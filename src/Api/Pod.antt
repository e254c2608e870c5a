-- ===== src/Api/Pod.antt =====
-- api/v1/common_types.go: `PodSpec` and its parts.
use greatsql_operator.Prelude.{String, Option, none, List, []}
use greatsql_operator.Prelude.Int.{ℤ}
use greatsql_operator.Api.Meta.{Raw, StringMap}

-- corev1.EnvVar
pub record EnvVar : Type 0 where
  pub name : String
  pub value : String
  pub value_from : Option Raw

-- corev1.ServicePort
pub record ServicePort : Type 0 where
  pub name : String
  pub port : ℤ
  pub node_port : ℤ
  pub target_port : Raw

-- corev1.PersistentVolumeClaimSpec
pub record ClaimTemplate : Type 0 where
  pub resources : Raw
  pub storage_class_name : Option String

pub record PodAffinity : Type 0 where
  pub topology_key : Option String

pub record ContainerSpec : Type 0 where
  pub image : String
  pub image_pull_policy : String
  pub image_pull_secrets : Raw
  pub resources : Raw
  pub startup_probe : Raw
  pub readiness_probe : Raw
  pub liveness_probe : Raw
  pub security_context : Option Raw
  pub envs : List EnvVar

pub record PodSpec : Type 0 where
  pub affinity : Option PodAffinity
  pub annotation : Option StringMap
  pub labels : Option StringMap
  pub node_selector : Option StringMap
  pub tolerations : Raw
  pub termination_grace_period_seconds : Option ℤ
  pub scheduler_name : String
  pub pod_security_context : Option Raw
  pub service_account_name : String
  pub service_name : String
  pub version : String
  pub containers : List ContainerSpec
  pub persistent_volume_claim_template : Option ClaimTemplate

pub record UpgradeOptions : Type 0 where
  pub version_service_endpoint : String
  pub apply : String

-- The zero value of `PodSpec`.
abbrev pub zero_pod_spec : PodSpec
zero_pod_spec = record {
  affinity = none;
  annotation = none;
  labels = none;
  node_selector = none;
  tolerations = "";
  termination_grace_period_seconds = none;
  scheduler_name = "";
  pod_security_context = none;
  service_account_name = "";
  service_name = "";
  version = "";
  containers = [];
  persistent_volume_claim_template = none;
}
