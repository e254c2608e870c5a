-- ===== src/Kube/Objects.antt =====
-- The Kubernetes objects that the operator builds (k8s.io/api), as far as it fills or reads them.
use greatsql_operator.Prelude.{◌≡◌, refl, String, Option, List}
use greatsql_operator.Prelude.Int.{ℤ}
use greatsql_operator.Api.Meta.{Raw, StringMap, TypeMeta, ObjectMeta, Key}
use greatsql_operator.Api.Pod.{EnvVar, ServicePort}
use greatsql_operator.Api.Instance.{SingleInstance}
use greatsql_operator.Api.Cluster.{GroupReplicationCluster}
use greatsql_operator.Api.Affinity.{Affinity}

pub record ContainerPort : Type 0 where
  pub name : String
  pub container_port : ℤ
  pub protocol : String

pub record VolumeMount : Type 0 where
  pub name : String
  pub mount_path : String
  pub sub_path : String

pub record Container : Type 0 where
  pub name : String
  pub image : String
  pub resources : Raw
  pub startup_probe : Option Raw
  pub readiness_probe : Option Raw
  pub liveness_probe : Option Raw
  pub security_context : Option Raw
  pub ports : List ContainerPort
  pub image_pull_policy : String
  pub env : List EnvVar
  pub volume_mounts : List VolumeMount

pub data VolumeSource : Type 0 where
  config_map_source : String → ℤ → VolumeSource
  claim_source : String → VolumeSource
  no_source : VolumeSource

pub record Volume : Type 0 where
  pub name : String
  pub source : VolumeSource

-- corev1.PodSpec of a template, or of a pod.
pub record PodTemplate : Type 0 where
  pub containers : List Container
  pub termination_grace_period_seconds : Option ℤ
  pub scheduler_name : String
  pub affinity : Option Affinity
  pub service_account_name : String
  pub security_context : Option Raw
  pub node_selector : Option StringMap
  pub tolerations : Raw
  pub volumes : List Volume
  pub dns_policy : String

pub record ConfigMap : Type 0 where
  pub type_meta : TypeMeta
  pub meta : ObjectMeta
  pub items : StringMap  -- `Data`

pub record Secret : Type 0 where
  pub type_meta : TypeMeta
  pub meta : ObjectMeta
  pub items : StringMap  -- `Data`
  pub type : String

pub record PersistentVolumeClaim : Type 0 where
  pub type_meta : TypeMeta
  pub meta : ObjectMeta
  pub access_modes : List String
  pub resources : Raw
  pub storage_request : Option ℤ
  pub storage_class_name : Option String
  pub volume_mode : Option String

pub record Deployment : Type 0 where
  pub type_meta : TypeMeta
  pub meta : ObjectMeta
  pub replicas : Option ℤ
  pub selector : StringMap
  pub template_labels : StringMap
  pub template : PodTemplate
  pub strategy : String
  pub max_unavailable : ℤ
  pub max_surge : ℤ

pub record StatefulSet : Type 0 where
  pub type_meta : TypeMeta
  pub meta : ObjectMeta
  pub replicas : Option ℤ
  pub service_name : String
  pub selector : StringMap
  pub template_labels : StringMap
  pub template : PodTemplate
  pub volume_claim_templates : List PersistentVolumeClaim
  pub update_strategy : String
  pub partition : Option ℤ
  pub max_unavailable : Option Raw

pub record Service : Type 0 where
  pub type_meta : TypeMeta
  pub meta : ObjectMeta
  pub type : String
  pub ports : List ServicePort
  pub selector : StringMap
  pub cluster_ip : String
  pub ingress_ips : List String  -- `Status.LoadBalancer.Ingress[i].IP`

pub record Pod : Type 0 where
  pub type_meta : TypeMeta
  pub meta : ObjectMeta
  pub template : PodTemplate
  pub node_name : String
  pub pod_ip : String

-- The kinds of object that the operator sends to the API server.
pub data Kind : Type 0 where
  config_map claim secret deployment stateful_set service instance_kind cluster_kind : Kind

pub Kind-discrete : Discrete Kind
Kind-discrete = hlevel

-- The objects of a kind.
abbrev pub Obj : Kind → Type 0
Obj config_map = ConfigMap
Obj claim = PersistentVolumeClaim
Obj secret = Secret
Obj deployment = Deployment
Obj stateful_set = StatefulSet
Obj service = Service
Obj instance_kind = SingleInstance
Obj cluster_kind = GroupReplicationCluster

-- The accessors of `client.Object`.
abbrev pub meta_of : (k : Kind) → Obj k → ObjectMeta
meta_of config_map o = o.meta
meta_of claim o = o.meta
meta_of secret o = o.meta
meta_of deployment o = o.meta
meta_of stateful_set o = o.meta
meta_of service o = o.meta
meta_of instance_kind o = o.meta
meta_of cluster_kind o = o.meta

abbrev pub with_meta : (k : Kind) → ObjectMeta → Obj k → Obj k
with_meta config_map m o = record o { meta = m }
with_meta claim m o = record o { meta = m }
with_meta secret m o = record o { meta = m }
with_meta deployment m o = record o { meta = m }
with_meta stateful_set m o = record o { meta = m }
with_meta service m o = record o { meta = m }
with_meta instance_kind m o = record o { meta = m }
with_meta cluster_kind m o = record o { meta = m }

abbrev pub key_of : ObjectMeta → Key
key_of m = record { namespace = m.namespace; name = m.name }

pub meta_of-with_meta : (k : Kind) (m : ObjectMeta) (o : Obj k) → meta_of k (with_meta k m o) ≡ m
meta_of-with_meta config_map m o = refl
meta_of-with_meta claim m o = refl
meta_of-with_meta secret m o = refl
meta_of-with_meta deployment m o = refl
meta_of-with_meta stateful_set m o = refl
meta_of-with_meta service m o = refl
meta_of-with_meta instance_kind m o = refl
meta_of-with_meta cluster_kind m o = refl
