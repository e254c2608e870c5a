-- ===== src/Api/Memory/Deep/Pods.antt =====
-- The deep copies of the types of common_types.go.
use greatsql_operator.Prelude.{ℕ}
use greatsql_operator.Api.Meta.{Raw}
use greatsql_operator.Api.Memory.Heap.{Heap, Mem}
use greatsql_operator.Api.Memory.Cells.{Cell}
use greatsql_operator.Api.Memory.Slots.Values.{
  string_at, number_at, string_map_at, strings_at, references_at, external_at, externals_at,
  container_specs_at,
}
use greatsql_operator.Api.Memory.Slots.Structs.{pod_affinity_at}
use greatsql_operator.Api.Memory.DeepCopyInto as Into
use greatsql_operator.Api.Memory.Owned.{Local-plain, Local-both}
use greatsql_operator.Api.Memory.Copies.{Deep, Builds-pure, Builds-field, Deep-struct}
use greatsql_operator.Api.Memory.Behind.{Deep-plain, Deep-each, Deep-behind}
use greatsql_operator.Api.Memory.Plain.{
  UpgradeOptionsPlain, PodAffinityPlain, ContainerSpecPlain, PodSpecPlain, ServiceExposePlain,
  ProxyPlain, StoragePlain,
}
use greatsql_operator.Api.Memory.Meant.{
  UpgradeOptionsMeant, PodAffinityMeant, ContainerSpecMeant, PodSpecMeant, ServiceExposeMeant,
  ProxyMeant, StorageMeant,
}

module _ {E : Type 0} {external : ℕ → Heap (Cell E) → E → Raw → Type 0}
    {copy_external : E → Mem (Cell E) E} (d : Deep external copy_external) where
  pub upgrade_options-Deep :
      Deep (UpgradeOptionsMeant external) (Into.upgrade_options copy_external)
  unfolding Into.upgrade_options
  upgrade_options-Deep =
      Deep-struct (UpgradeOptionsMeant external) (Into.upgrade_options copy_external)
        (λ x v. Local-plain) UpgradeOptionsPlain (λ lo h x v o. o)
        λ lo base x v. Builds-pure _ _ _ _ _ (λ h o. o)

  pub pod_affinity-Deep : Deep (PodAffinityMeant external) (Into.pod_affinity copy_external)
  unfolding Into.pod_affinity
  pod_affinity-Deep =
      Deep-struct (PodAffinityMeant external) (Into.pod_affinity copy_external)
        (λ x v.
          Local-both Local-plain
            ((Deep-behind Deep-plain string_at).local x.topology_key v.topology_key))
        PodAffinityPlain (λ lo h x v o. o.0)
        λ lo base x v.
          Builds-field _ _ _ _ (Deep-behind Deep-plain string_at) lo x.topology_key v.topology_key _
            (λ h o. o.1) λ topology_key'. Builds-pure _ _ _ _ _ (λ h o. o)

  pub container_spec-Deep : Deep (ContainerSpecMeant external) (Into.container_spec copy_external)
  unfolding Into.container_spec
  container_spec-Deep =
      Deep-struct (ContainerSpecMeant external) (Into.container_spec copy_external)
        (λ x v.
          Local-both
            (Local-both
              (Local-both
                (Local-both
                  (Local-both
                    (Local-both
                      (Local-both Local-plain (
                        (Deep-behind Deep-plain references_at).local x.image_pull_secrets
                          v.image_pull_secrets))
                      (d.local x.resources v.resources))
                    (d.local x.startup_probe v.startup_probe))
                  (d.local x.readiness_probe v.readiness_probe))
                (d.local x.liveness_probe v.liveness_probe))
              ((Deep-behind d external_at).local x.security_context v.security_context))
            ((Deep-behind (Deep-each d) externals_at).local x.envs v.envs))
        ContainerSpecPlain (λ lo h x v o. o.0.0.0.0.0.0.0)
        λ lo base x v.
          Builds-field _ _ _ _ (Deep-behind Deep-plain references_at) lo x.image_pull_secrets
            v.image_pull_secrets _ (λ h o. o.0.0.0.0.0.0.1)
            λ image_pull_secrets'.
              Builds-field _ _ _ _ d lo x.resources v.resources _ (λ h o. o.0.0.0.0.0.1)
                λ resources'.
                  Builds-field _ _ _ _ d lo x.startup_probe v.startup_probe _ (λ h o. o.0.0.0.0.1)
                    λ startup_probe'.
                      Builds-field _ _ _ _ d lo x.readiness_probe v.readiness_probe _
                        (λ h o. o.0.0.0.1)
                        λ readiness_probe'.
                          Builds-field _ _ _ _ d lo x.liveness_probe v.liveness_probe _
                            (λ h o. o.0.0.1)
                            λ liveness_probe'.
                              Builds-field _ _ _ _ (Deep-behind d external_at) lo x.security_context
                                v.security_context _ (λ h o. o.0.1)
                                λ security_context'.
                                  Builds-field _ _ _ _ (Deep-behind (Deep-each d) externals_at) lo
                                    x.envs v.envs _ (λ h o. o.1)
                                    λ envs'. Builds-pure _ _ _ _ _ (λ h o. o)

  pub pod_spec-Deep : Deep (PodSpecMeant external) (Into.pod_spec copy_external)
  unfolding Into.pod_spec
  pod_spec-Deep =
      Deep-struct (PodSpecMeant external) (Into.pod_spec copy_external)
        (λ x v.
          Local-both
            (Local-both
              (Local-both
                (Local-both
                  (Local-both
                    (Local-both
                      (Local-both
                        (Local-both
                          (Local-both Local-plain (
                            (Deep-behind pod_affinity-Deep pod_affinity_at).local x.affinity
                              v.affinity))
                          ((Deep-behind (Deep-each Deep-plain) string_map_at).local x.annotation
                            v.annotation))
                        ((Deep-behind (Deep-each Deep-plain) string_map_at).local x.labels
                          v.labels))
                      ((Deep-behind (Deep-each Deep-plain) string_map_at).local x.node_selector
                        v.node_selector))
                    ((Deep-behind (Deep-each d) externals_at).local x.tolerations v.tolerations))
                  ((Deep-behind Deep-plain number_at).local x.termination_grace_period_seconds
                    v.termination_grace_period_seconds))
                ((Deep-behind d external_at).local x.pod_security_context v.pod_security_context))
              ((Deep-behind (Deep-each container_spec-Deep) container_specs_at).local x.containers
                v.containers))
            ((Deep-behind d external_at).local x.persistent_volume_claim_template
              v.persistent_volume_claim_template))
        PodSpecPlain (λ lo h x v o. o.0.0.0.0.0.0.0.0.0)
        λ lo base x v.
          Builds-field _ _ _ _ (Deep-behind pod_affinity-Deep pod_affinity_at) lo x.affinity
            v.affinity _ (λ h o. o.0.0.0.0.0.0.0.0.1)
            λ affinity'.
              Builds-field _ _ _ _ (Deep-behind (Deep-each Deep-plain) string_map_at) lo
                x.annotation v.annotation _ (λ h o. o.0.0.0.0.0.0.0.1)
                λ annotation'.
                  Builds-field _ _ _ _ (Deep-behind (Deep-each Deep-plain) string_map_at) lo
                    x.labels v.labels _ (λ h o. o.0.0.0.0.0.0.1)
                    λ labels'.
                      Builds-field _ _ _ _ (Deep-behind (Deep-each Deep-plain) string_map_at) lo
                        x.node_selector v.node_selector _ (λ h o. o.0.0.0.0.0.1)
                        λ node_selector'.
                          Builds-field _ _ _ _ (Deep-behind (Deep-each d) externals_at) lo
                            x.tolerations v.tolerations _ (λ h o. o.0.0.0.0.1)
                            λ tolerations'.
                              Builds-field _ _ _ _ (Deep-behind Deep-plain number_at) lo
                                x.termination_grace_period_seconds
                                v.termination_grace_period_seconds _ (λ h o. o.0.0.0.1)
                                λ termination_grace_period_seconds'.
                                  Builds-field _ _ _ _ (Deep-behind d external_at) lo
                                    x.pod_security_context v.pod_security_context _ (λ h o. o.0.0.1)
                                    λ pod_security_context'.
                                      Builds-field _ _ _ _
                                        (Deep-behind (Deep-each container_spec-Deep)
                                          container_specs_at)
                                        lo x.containers v.containers _ (λ h o. o.0.1)
                                        λ containers'.
                                          Builds-field _ _ _ _ (Deep-behind d external_at) lo
                                            x.persistent_volume_claim_template
                                            v.persistent_volume_claim_template _ (λ h o. o.1)
                                            λ persistent_volume_claim_template'.
                                              Builds-pure _ _ _ _ _ (λ h o. o)

  pub service_expose-Deep : Deep (ServiceExposeMeant external) (Into.service_expose copy_external)
  unfolding Into.service_expose
  service_expose-Deep =
      Deep-struct (ServiceExposeMeant external) (Into.service_expose copy_external)
        (λ x v.
          Local-both
            (Local-both
              (Local-both Local-plain (
                (Deep-behind Deep-plain strings_at).local x.load_balancer_source_ranges
                  v.load_balancer_source_ranges))
              ((Deep-behind (Deep-each Deep-plain) string_map_at).local x.annotations
                v.annotations))
            ((Deep-behind (Deep-each Deep-plain) string_map_at).local x.labels v.labels))
        ServiceExposePlain (λ lo h x v o. o.0.0.0)
        λ lo base x v.
          Builds-field _ _ _ _ (Deep-behind Deep-plain strings_at) lo x.load_balancer_source_ranges
            v.load_balancer_source_ranges _ (λ h o. o.0.0.1)
            λ load_balancer_source_ranges'.
              Builds-field _ _ _ _ (Deep-behind (Deep-each Deep-plain) string_map_at) lo
                x.annotations v.annotations _ (λ h o. o.0.1)
                λ annotations'.
                  Builds-field _ _ _ _ (Deep-behind (Deep-each Deep-plain) string_map_at) lo
                    x.labels v.labels _ (λ h o. o.1) λ labels'. Builds-pure _ _ _ _ _ (λ h o. o)

  pub proxy-Deep : Deep (ProxyMeant external) (Into.proxy copy_external)
  unfolding Into.proxy
  proxy-Deep =
      Deep-struct (ProxyMeant external) (Into.proxy copy_external)
        (λ x v.
          Local-both (Local-both Local-plain (pod_spec-Deep.local x.pod_spec v.pod_spec))
            (service_expose-Deep.local x.expose v.expose))
        ProxyPlain (λ lo h x v o. o.0.0)
        λ lo base x v.
          Builds-field _ _ _ _ pod_spec-Deep lo x.pod_spec v.pod_spec _ (λ h o. o.0.1)
            λ pod_spec'.
              Builds-field _ _ _ _ service_expose-Deep lo x.expose v.expose _ (λ h o. o.1)
                λ expose'. Builds-pure _ _ _ _ _ (λ h o. o)

  pub storage-Deep : Deep (StorageMeant external) (Into.storage copy_external)
  unfolding Into.storage
  storage-Deep =
      Deep-struct (StorageMeant external) (Into.storage copy_external)
        (λ x v.
          Local-both
            (Local-both Local-plain (
              (Deep-behind d external_at).local x.persistent_volume_source
                v.persistent_volume_source))
            ((Deep-behind d external_at).local x.persistent_volume_claim_template
              v.persistent_volume_claim_template))
        StoragePlain (λ lo h x v o. o.0.0)
        λ lo base x v.
          Builds-field _ _ _ _ (Deep-behind d external_at) lo x.persistent_volume_source
            v.persistent_volume_source _ (λ h o. o.0.1)
            λ persistent_volume_source'.
              Builds-field _ _ _ _ (Deep-behind d external_at) lo x.persistent_volume_claim_template
                v.persistent_volume_claim_template _ (λ h o. o.1)
                λ persistent_volume_claim_template'. Builds-pure _ _ _ _ _ (λ h o. o)
