-- ===== src/Kube/Builders/Names.antt =====
-- How the names that the builders write refer to one another.
use Prim.Native.String.{◌++◌}
use text.Mathlib.Text.{◌==◌ as str_eq}
use text.Mathlib.TextEquality.{eq_iff}
use text.Mathlib.TextLemmas.{append_cancel_left}
use greatsql_operator.Prelude.{
  String, ◌≡◌, ◌≢◌, refl, false, List, [], ◌∷◌, arith, All, Outcome, ok, >>=-eq-ok, ok_inj, first,
  subst, none,
}
use greatsql_operator.Prelude.Int.{ℤ}
use greatsql_operator.Api.Pod.{PodSpec}
use greatsql_operator.Api.Instance.{SingleInstance}
use greatsql_operator.Api.Affinity.{instance_pod_affinity}
use greatsql_operator.Kube.Objects.{
  VolumeMount, Container, config_map_source, claim_source, Volume, PersistentVolumeClaim,
  Deployment,
}
use greatsql_operator.Kube.Pods.{
  mount_name, new_containers, config_volume, data_volume, pod_template,
}
use greatsql_operator.Kube.Builders.Plain.{new_persistent_volume_claim}
use greatsql_operator.Kube.Builders.Workloads.{deployment_affinity, new_deployment}
use greatsql_operator.Kube.Platform.{Platform}

-- Two names with one beginning differ if their ends do.
pub append-ne : (s t u : String) → t ≢ u → s ++ t ≢ s ++ u
append-ne s t u h e = h (append_cancel_left s t u e)

pub literals : {s t : String} → str_eq s t ≡ false → s ≢ t
literals {s} {t} h e = ground (arith, eq_iff s t)

-- The names of the volumes that a mount may refer to.
abbrev pub names : List Volume → List String
names [] = []
names (v ∷ vs) = v.name ∷ names vs

-- The claims that volumes name.
abbrev pub claims : List Volume → List String
claims [] = []
claims (v ∷ vs) = elim v.source [ claim_source c ↦ c ∷ claims vs | _ ↦ claims vs ]

-- The configurations that volumes name.
abbrev pub config_maps : List Volume → List String
config_maps [] = []
config_maps (v ∷ vs) = elim v.source [
  | config_map_source c _ ↦ c ∷ config_maps vs
  | _ ↦ config_maps vs
]

-- The names of the mounts.
abbrev pub mounts : List VolumeMount → List String
mounts [] = []
mounts (m ∷ ms) = m.name ∷ mounts ms

-- The mounts of the container have these names.
abbrev pub Mounts : List String → Container → Type 0
Mounts ns c = mounts c.volume_mounts ≡ ns

-- No mount of the container refers to one of the volumes.
abbrev pub Dangling : List Volume → Container → Type 0
Dangling vs c = All (λ m. All (λ n. m.name ≢ n) (names vs)) c.volume_mounts

module _ {E : Type 0} where
  new_containers-Dangling :
      (name config_map_name : String) (cr : PodSpec) (ordinal : ℤ) (cs : List Container)
      → ◌≡◌ {A = Outcome E (List Container)} (new_containers name cr ordinal false) (ok cs)
      → All (Dangling (config_volume name config_map_name ∷ data_volume name ∷ [])) cs
  unfolding new_containers config_volume data_volume mount_name
  new_containers-Dangling name config_map_name cr ordinal cs h =
      let (spec, _, k) = >>=-eq-ok (first cr.containers) _ h in
      let ne : (t u : String) → t ≢ u → name ++ t ≢ name ++ u = append-ne name in
      subst (All (Dangling (config_volume name config_map_name ∷ data_volume name ∷ []))) (ok_inj k)
        (
          (
            (ne "-config" "config" (literals refl), (ne "-config" "db" (literals refl), tt)),
            ((ne "-db" "config" (literals refl), (ne "-db" "db" (literals refl), tt)), tt),
          ),
          tt,
        )

  new_containers-Mounts :
      (name : String) (cr : PodSpec) (ordinal : ℤ) (cs : List Container)
      → ◌≡◌ {A = Outcome E (List Container)} (new_containers name cr ordinal false) (ok cs)
      → All (Mounts ((name ++ "-config") ∷ (name ++ "-db") ∷ [])) cs
  unfolding new_containers mount_name
  new_containers-Mounts name cr ordinal cs h =
      let (spec, _, k) = >>=-eq-ok (first cr.containers) _ h in
      subst (All (Mounts ((name ++ "-config") ∷ (name ++ "-db") ∷ []))) (ok_inj k) (refl, tt)

module _ {W : Type 0} (p : Platform W) {E : Type 0} where
  -- A deployment that is built has a volume for the configuration and one for the data, the containers
  -- of `NewContainers`, and no affinity, whatever the instance asks for.
  pub new_deployment-template :
      (config_map_name : String) (cr : SingleInstance) (size : ℤ) (d : Deployment)
      → ◌≡◌ {A = Outcome E Deployment} (new_deployment p config_map_name cr size) (ok d)
      → (d.template.volumes
          ≡ config_volume cr.meta.name config_map_name ∷ data_volume cr.meta.name ∷ [])
        × ◌≡◌ {A = Outcome E (List Container)}
            (new_containers cr.meta.name cr.spec.pod_spec size false)
            (ok d.template.containers)
        × (d.template.affinity ≡ none)
  unfolding new_deployment deployment_affinity instance_pod_affinity pod_template
  new_deployment-template config_map_name cr size d h = ground arith

  -- The mounts of a deployment's containers are called "<name>-config" and "<name>-db", the volumes of
  -- its pod "<name>config" and "<name>db", and no mount refers to a volume.
  pub new_deployment-Dangling :
      (config_map_name : String) (cr : SingleInstance) (size : ℤ) (d : Deployment)
      → ◌≡◌ {A = Outcome E Deployment} (new_deployment p config_map_name cr size) (ok d)
      → All
          (Mounts ((cr.meta.name ++ "-config") ∷ (cr.meta.name ++ "-db") ∷ []))
          d.template.containers
        × (names d.template.volumes ≡ (cr.meta.name ++ "config") ∷ (cr.meta.name ++ "db") ∷ [])
        × All (Dangling d.template.volumes) d.template.containers
  unfolding config_volume data_volume
  new_deployment-Dangling config_map_name cr size d h =
      let (volumes, containers, _) = new_deployment-template config_map_name cr size d h in
      (
        new_containers-Mounts cr.meta.name cr.spec.pod_spec size d.template.containers containers,
        rw volumes refl,
        rw volumes (
            new_containers-Dangling cr.meta.name config_map_name cr.spec.pod_spec size
              d.template.containers containers),
      )

  -- The data volume of a deployment names the claim that is created for a request of the same name.
  pub new_deployment-claims :
      (config_map_name namespace : String) (cr : SingleInstance) (size : ℤ) (d : Deployment)
      (c : PersistentVolumeClaim)
      → ◌≡◌ {A = Outcome E Deployment} (new_deployment p config_map_name cr size) (ok d)
      → ◌≡◌ {A = Outcome E PersistentVolumeClaim}
          (new_persistent_volume_claim p cr.meta.name namespace cr.spec.pod_spec)
          (ok c)
      → claims d.template.volumes ≡ c.meta.name ∷ []
  unfolding new_persistent_volume_claim config_volume data_volume
  new_deployment-claims config_map_name namespace cr size d c h k =
      let (volumes, _, _) = new_deployment-template config_map_name cr size d h in
      rw volumes (ground arith)
