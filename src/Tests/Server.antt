-- ===== src/Tests/Server.antt =====
-- Three API servers that can be run, and two sample resources.
use Prim.Native.String.{◌++◌}
use text.Mathlib.Text.{◌==◌ as str_eq}
use greatsql_operator.Prelude.{
  ℕ, zero, suc, String, Bool, true, false, ◌||◌, Option, none, some, List, [], ◌∷◌, if◌then◌else◌,
}
use greatsql_operator.Prelude.Int.{ℤ, pos}
use greatsql_operator.Consts
use greatsql_operator.Api.Meta.{Key, ObjectMeta}
use greatsql_operator.Api.Pod.{PodSpec, ClaimTemplate, ContainerSpec, zero_pod_spec}
use greatsql_operator.Api.Instance.{SingleInstance, zero_meta, zero_instance}
use greatsql_operator.Api.Cluster.{GroupReplicationCluster, MysqlGroupReplicationCluster, Member}
use greatsql_operator.Kube.Objects.{Kind, config_map, Obj, ConfigMap, meta_of}
use greatsql_operator.Kube.Platform.{not_found, conflict, Reply, done, failed, Platform}

abbrev pub holds : List String → String → Bool
holds [] s = false
holds (t ∷ ts) s = str_eq t s || holds ts s

abbrev pub without : List String → String → List String
without [] s = []
without (t ∷ ts) s = let rest = without ts s in if str_eq t s then rest else t ∷ rest

-- A server that holds nothing and accepts every request; its state counts the requests that change it.
abbrev pub accepting : Platform ℕ
accepting = record {
  get = λ k key w. (failed not_found, w);
  create = λ k o w. (done o, suc w);
  update = λ k o w. (done o, suc w);
  delete = λ k key w. (done tt, suc w);
  update_status = λ k o w. (done o, suc w);
  event = λ t r m w. suc w;
  new_uuid = λ w. ("46dda990-ceec", suc w);
  contains_finalizer = holds;
  add_finalizer = λ fs f. if holds fs f then fs else f ∷ fs;
  remove_finalizer = without;
  new_controller_ref = λ owner gvk. record {
    api_version = gvk.group ++ ("/" ++ gvk.version);
    kind = gvk.kind;
    name = owner.name;
    uid = owner.uid;
    controller = true;
    block_owner_deletion = true;
  };
  memory_request = λ resources. pos 1073741824;
  storage_request = λ resources. pos 1073741824;
  quantity_string = λ n. "1Gi";
  parse_quantity = λ s. some (pos 1073741824);
  env_source_string = λ source. elim source [ none ↦ "nil" | some s ↦ s ];
  time_string = λ t. t;
  marshal_spec = λ spec. some "{}";
}

abbrev pub request_key : Key
request_key = record { namespace = "default"; name = "db1" }

abbrev pub container : ContainerSpec
container = record {
  image = "greatsql:8.0.32";
  image_pull_policy = "Always";
  image_pull_secrets = "";
  resources = "";
  startup_probe = "";
  readiness_probe = "";
  liveness_probe = "";
  security_context = none;
  envs =
      record { name = "MYSQL_ROOT_PASSWORD"; value = "greatsql"; value_from = none }
      ∷ record { name = "USER"; value = ""; value_from = some "fieldRef" }
      ∷ [];
}

abbrev pub template : ClaimTemplate
template = record { resources = "1Gi"; storage_class_name = some "standard" }

abbrev pub pod : PodSpec
pod = record zero_pod_spec {
  containers = container ∷ [];
  persistent_volume_claim_template = some template;
}

-- An instance that is accepted and holds its finalizer.
abbrev pub instance_meta : ObjectMeta
instance_meta = record zero_meta {
  name = "db1";
  namespace = "default";
  uid = "u1";
  resource_version = "1";
  finalizers = Consts.greatsql_finalizer ∷ [];
}

abbrev pub sample : SingleInstance
sample = record zero_instance {
  meta = instance_meta;
  spec = record zero_instance.spec { size = some (pos 2); pod_spec = pod };
}

-- The same instance while it is being deleted.
abbrev pub dying : SingleInstance
dying = record sample {
  meta = record instance_meta { deletion_timestamp = some "2024-05-01T00:00:00Z" };
}

abbrev pub member : Option ℤ → Member
member size = record { role = "primary"; size = size }

abbrev pub parts_of_cluster : MysqlGroupReplicationCluster
parts_of_cluster = record {
  pod_spec = some pod;
  ports = [];
  type = "ClusterIP";
  dns_policy = "";
  upgrade_options = record { version_service_endpoint = ""; apply = "" };
  update_strategy = some (record {
    type = "RollingUpdate";
    roleling_update = some (record { partition = some (pos 0); max_unavailable = none });
  });
}

abbrev pub cluster : List Member → GroupReplicationCluster
cluster members = record {
  meta = record zero_meta { name = "db1"; namespace = "default"; uid = "u2" };
  spec = record {
    member = members;
    cluster_spec = some parts_of_cluster;
    proxy_spec = none;
    scheduler_buckup = none;
    metrics_collection = none;
  };
  status = record {
    access_point = "";
    size = pos 0;
    ready = pos 0;
    age = "";
    stateful_set_status = "";
  };
}

-- A server that holds one configuration, at version "1" in state 0 and at version "2" later, and
-- refuses an update that names another version.
abbrev pub held_config : ConfigMap
held_config = record {
  type_meta = record { api_version = "v1"; kind = "ConfigMap" };
  meta = record zero_meta { name = "db1-config"; namespace = "default"; resource_version = "1" };
  items = [];
}

abbrev pub version_at : (k : Kind) → Key → ℕ → String
version_at k key zero = "1"
version_at k key (suc w) = "2"

abbrev versioned_get : (k : Kind) → Key → ℕ → Reply (Obj k) × ℕ
versioned_get config_map key w = (done held_config, w)
versioned_get _ key w = (failed not_found, w)

abbrev pub versioned_update : (k : Kind) → Obj k → ℕ → Reply (Obj k) × ℕ
versioned_update k o w =
    let version = (meta_of k o).resource_version in
    if str_eq version "" || str_eq (version_at k (record { namespace = ""; name = "" }) w) version
    then (done o, suc w)
    else (failed conflict, w)

abbrev pub versioned : Platform ℕ
versioned = record accepting { get = versioned_get; update = versioned_update }
