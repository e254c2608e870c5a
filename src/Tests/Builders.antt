-- ===== src/Tests/Builders.antt =====
-- Objects that are built for the sample resources.
use greatsql_operator.Prelude.{◌≡◌, refl, none, some, [], ◌∷◌, All, Outcome, ok}
use greatsql_operator.Prelude.Int.{pos}
use greatsql_operator.Api.Instance.{zero_meta}
use greatsql_operator.Kube.Objects.{Deployment, PersistentVolumeClaim}
use greatsql_operator.Kube.Pods.{new_containers, pod_template}
use greatsql_operator.Kube.Platform.{Error}
use greatsql_operator.Kube.Builders.Plain.{
  default_storage, new_persistent_volume_claim, new_secret_env,
}
use greatsql_operator.Kube.Builders.Workloads.{deployment_affinity, new_deployment}
use greatsql_operator.Kube.Builders.Names.{names, Mounts, Dangling, new_deployment-Dangling}
use greatsql_operator.Kube.Builders.Secrets.{lookup, last_source, lookup-new_secret_env}
use greatsql_operator.Tests.Server.{accepting, sample, container}
use greatsql_operator.Tests.Server as Server

abbrev or_empty : Outcome Error Deployment → Deployment
or_empty (ok d) = d
or_empty _ = record {
  type_meta = record { api_version = ""; kind = "" };
  meta = zero_meta;
  replicas = none;
  selector = [];
  template_labels = [];
  template = pod_template Server.pod [] none [] "";
  strategy = "";
  max_unavailable = pos 0;
  max_surge = pos 0;
}

abbrev built : Deployment
built = or_empty (new_deployment accepting "db1config" sample (pos 2))

built_is :
    ◌≡◌ {A = Outcome Error Deployment}
      (new_deployment accepting "db1config" sample (pos 2))
      (ok built)
unfolding new_deployment deployment_affinity new_containers
built_is = refl

abbrev built_claim : PersistentVolumeClaim
built_claim = record {
  type_meta = record { api_version = "v1"; kind = "PersistentVolumeClaim" };
  meta = record zero_meta { name = "db1db"; namespace = "default" };
  access_modes = "ReadWriteOnce" ∷ [];
  resources = "";
  storage_request = some (pos 1073741824);
  storage_class_name = some "standard";
  volume_mode = some "Filesystem";
}

built_claim_is :
    ◌≡◌ {A = Outcome Error PersistentVolumeClaim}
      (new_persistent_volume_claim accepting "db1" "default" Server.pod)
      (ok built_claim)
unfolding new_persistent_volume_claim default_storage
built_claim_is = refl

new_deployment-Dangling_example :
    All (Mounts ("db1-config" ∷ "db1-db" ∷ [])) built.template.containers
    × (names built.template.volumes ≡ "db1config" ∷ "db1db" ∷ [])
    × All (Dangling built.template.volumes) built.template.containers
new_deployment-Dangling_example =
    new_deployment-Dangling accepting "db1config" sample (pos 2) built built_is

lookup-new_secret_env_example :
    lookup "USER" (new_secret_env accepting "db1-secret" "default" container.envs).items
    ≡ some "fieldRef"
unfolding last_source
lookup-new_secret_env_example =
    lookup-new_secret_env accepting "db1-secret" "default" "USER" container.envs
