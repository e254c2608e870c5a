-- ===== src/Kube/Builders/Plain.antt =====
-- configmap.go, volume.go, service.go and secret.go.
use Prim.Native.String.{◌++◌}
use text.Mathlib.Text.{◌==◌ as str_eq}
use greatsql_operator.Prelude.{
  String, Option, none, some, List, [], ◌∷◌, Outcome, ok, panic, library_panic, deref, ◌>>=◌,
  if◌then◌else◌,
}
use greatsql_operator.Prelude.Int.{ℤ, pos, ltb_ℤ}
use greatsql_operator.Consts
use greatsql_operator.Api.Meta.{StringMap, ObjectMeta}
use greatsql_operator.Api.Pod.{PodSpec, EnvVar, ServicePort}
use greatsql_operator.Api.Instance.{zero_meta}
use greatsql_operator.Kube.Objects.{ConfigMap, Secret, PersistentVolumeClaim, Service}
use greatsql_operator.Kube.Platform.{Platform}

-- `NewConfigMap`
unfoldable pub new_config_map : String → String → String → String → ConfigMap
new_config_map name namespace key value = record {
  type_meta = record { api_version = "v1"; kind = "ConfigMap" };
  meta = record zero_meta { name = name; namespace = namespace };
  items = (key, value) ∷ [];
}

-- `m[k] = v`
unfoldable pub insert : String → String → StringMap → StringMap
insert name text [] = (name, text) ∷ []
insert name text ((other, old) ∷ rest) =
    if str_eq other name then (name, text) ∷ rest else (other, old) ∷ insert name text rest

-- `setDefaultPersistentVolumeMode`
abbrev pub default_volume_mode : Option String
default_volume_mode = some "Filesystem"

abbrev or_panic : {E A : Type 0} → Option A → Outcome E A
or_panic none = panic library_panic
or_panic (some a) = ok a

module _ {W : Type 0} (p : Platform W) where
  -- `setDefaultStorage`: the requested number of bytes, or 5 of them
  unfoldable pub default_storage : {E : Type 0} → PodSpec → Outcome E ℤ
  default_storage cr = do
    template ← deref cr.persistent_volume_claim_template
    let requested = p.storage_request template.resources
    ok (if ltb_ℤ (pos 0) requested then requested else pos 5)

  -- `NewPersistentVolumeClaim`
  unfoldable pub new_persistent_volume_claim :
      {E : Type 0} → String → String → PodSpec → Outcome E PersistentVolumeClaim
  unfolding default_storage
  new_persistent_volume_claim name namespace cr = do
    storage ← default_storage cr
    quantity ← or_panic (p.parse_quantity (p.quantity_string storage))
    template ← deref cr.persistent_volume_claim_template
    ok (record {
      type_meta = record { api_version = "v1"; kind = "PersistentVolumeClaim" };
      meta = record zero_meta { name = name ++ Consts.db; namespace = namespace };
      access_modes = "ReadWriteOnce" ∷ [];
      resources = "";
      storage_request = some quantity;
      storage_class_name = template.storage_class_name;
      volume_mode = default_volume_mode;
    })

  -- `NewService`; `v1.SchemeGroupVersion` is that of k8s.io/api/apps/v1
  unfoldable pub new_service :
      String → String → String → ObjectMeta → List ServicePort → String → Service
  new_service name namespace kind owner ports svc_type = record {
    type_meta = record { kind = "Service"; api_version = "v1" };
    meta = record zero_meta {
      name = name;
      namespace = namespace;
      owner_references =
          p.new_controller_ref owner (record { group = "apps"; version = "v1"; kind = kind }) ∷ [];
      labels = some ((Consts.app_kubernetes_name, name) ∷ []);
    };
    type = svc_type;
    ports = ports;
    selector = (Consts.app_kubernetes_name, name) ∷ [];
    cluster_ip = "";
    ingress_ips = [];
  }

  -- the loop of `NewSecretEnv`
  unfoldable pub secret_data : List EnvVar → StringMap → StringMap
  unfolding insert
  secret_data [] m = m
  secret_data (env ∷ envs) m =
      secret_data envs (insert env.name (p.env_source_string env.value_from) m)

  -- `NewSecretEnv`
  unfoldable pub new_secret_env : String → String → List EnvVar → Secret
  unfolding secret_data
  new_secret_env name namespace envs = record {
    type_meta = record { kind = "Secret"; api_version = "v1" };
    meta = record zero_meta {
      name = name;
      namespace = namespace;
      labels = some ((Consts.app_kubernetes_name, name) ∷ []);
    };
    items = secret_data envs [];
    type = "Opaque";
  }

-- `NewSecret`
unfoldable pub new_secret : String → String → String → Secret
new_secret name namespace key = record {
  type_meta = record { kind = "Secret"; api_version = "v1" };
  meta = record zero_meta {
    name = name;
    namespace = namespace;
    labels = some ((Consts.app_kubernetes_name, name) ∷ []);
  };
  items = (key, "") ∷ [];
  type = "Opaque";
}

-- `NewSecretEnvFrom`, on the names that the sources' `SecretRef` hold: the first one decides, and
-- its arguments stand in the order of the call.
unfoldable pub new_secret_env_from : String → String → List (Option String) → Option Secret
unfolding new_secret
new_secret_env_from name namespace [] = none
new_secret_env_from name namespace (none ∷ refs) = new_secret_env_from name namespace refs
new_secret_env_from name namespace (some ref ∷ refs) = some (new_secret ref name namespace)
