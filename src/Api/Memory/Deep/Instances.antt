-- ===== src/Api/Memory/Deep/Instances.antt =====
-- The deep copies of an instance and its parts.
use greatsql_operator.Prelude.{ℕ}
use greatsql_operator.Api.Meta.{Raw}
use greatsql_operator.Api.Memory.Heap.{Heap, Mem}
use greatsql_operator.Api.Memory.Cells.{Cell}
use greatsql_operator.Api.Memory.Slots.Values.{number_at, externals_at, single_instances_at}
use greatsql_operator.Api.Memory.DeepCopyInto as Into
use greatsql_operator.Api.Memory.Owned.{Local-plain, Local-both}
use greatsql_operator.Api.Memory.Copies.{Deep, Builds-pure, Builds-field, Deep-struct}
use greatsql_operator.Api.Memory.Behind.{Deep-plain, Deep-each, Deep-behind}
use greatsql_operator.Api.Memory.Plain.{
  SingleInstanceSpecPlain, SingleInstanceStatusPlain, SingleInstancePlain, SingleInstanceListPlain,
}
use greatsql_operator.Api.Memory.Meant.{
  SingleInstanceSpecMeant, SingleInstanceStatusMeant, SingleInstanceMeant, SingleInstanceListMeant,
}
use greatsql_operator.Api.Memory.Deep.Pods.{pod_spec-Deep}

module _ {E : Type 0} {external : ℕ → Heap (Cell E) → E → Raw → Type 0}
    {copy_external : E → Mem (Cell E) E} (d : Deep external copy_external) where
  pub single_instance_spec-Deep :
      Deep (SingleInstanceSpecMeant external) (Into.single_instance_spec copy_external)
  unfolding Into.single_instance_spec
  single_instance_spec-Deep =
      Deep-struct (SingleInstanceSpecMeant external) (Into.single_instance_spec copy_external)
        (λ x v.
          Local-both
            (Local-both
              (Local-both Local-plain ((Deep-behind Deep-plain number_at).local x.size v.size))
              ((pod_spec-Deep d).local x.pod_spec v.pod_spec))
            ((Deep-behind (Deep-each d) externals_at).local x.ports v.ports))
        SingleInstanceSpecPlain (λ lo h x v o. o.0.0.0)
        λ lo base x v.
          Builds-field _ _ _ _ (Deep-behind Deep-plain number_at) lo x.size v.size _
            (λ h o. o.0.0.1)
            λ size'.
              Builds-field _ _ _ _ (pod_spec-Deep d) lo x.pod_spec v.pod_spec _ (λ h o. o.0.1)
                λ pod_spec'.
                  Builds-field _ _ _ _ (Deep-behind (Deep-each d) externals_at) lo x.ports v.ports _
                    (λ h o. o.1) λ ports'. Builds-pure _ _ _ _ _ (λ h o. o)

  pub single_instance_status-Deep :
      Deep (SingleInstanceStatusMeant external) (Into.single_instance_status copy_external)
  unfolding Into.single_instance_status
  single_instance_status-Deep =
      Deep-struct (SingleInstanceStatusMeant external) (Into.single_instance_status copy_external)
        (λ x v. Local-both Local-plain (d.local x.deployment_status v.deployment_status))
        SingleInstanceStatusPlain (λ lo h x v o. o.0)
        λ lo base x v.
          Builds-field _ _ _ _ d lo x.deployment_status v.deployment_status _ (λ h o. o.1)
            λ deployment_status'. Builds-pure _ _ _ _ _ (λ h o. o)

  pub single_instance-Deep :
      Deep (SingleInstanceMeant external) (Into.single_instance copy_external)
  unfolding Into.single_instance
  single_instance-Deep =
      Deep-struct (SingleInstanceMeant external) (Into.single_instance copy_external)
        (λ x v.
          Local-both
            (Local-both (Local-both Local-plain (d.local x.object_meta v.object_meta))
              (single_instance_spec-Deep.local x.spec v.spec))
            (single_instance_status-Deep.local x.status v.status))
        SingleInstancePlain (λ lo h x v o. o.0.0.0)
        λ lo base x v.
          Builds-field _ _ _ _ d lo x.object_meta v.object_meta _ (λ h o. o.0.0.1)
            λ object_meta'.
              Builds-field _ _ _ _ single_instance_spec-Deep lo x.spec v.spec _ (λ h o. o.0.1)
                λ spec'.
                  Builds-field _ _ _ _ single_instance_status-Deep lo x.status v.status _
                    (λ h o. o.1) λ status'. Builds-pure _ _ _ _ _ (λ h o. o)

  pub single_instance_list-Deep :
      Deep (SingleInstanceListMeant external) (Into.single_instance_list copy_external)
  unfolding Into.single_instance_list
  single_instance_list-Deep =
      Deep-struct (SingleInstanceListMeant external) (Into.single_instance_list copy_external)
        (λ x v. Local-both (Local-both Local-plain (d.local x.list_meta v.list_meta)) (
          (Deep-behind (Deep-each single_instance-Deep) single_instances_at).local x.items v.items))
        SingleInstanceListPlain (λ lo h x v o. o.0.0)
        λ lo base x v.
          Builds-field _ _ _ _ d lo x.list_meta v.list_meta _ (λ h o. o.0.1)
            λ list_meta'.
              Builds-field _ _ _ _
                (Deep-behind (Deep-each single_instance-Deep) single_instances_at) lo x.items
                v.items _ (λ h o. o.1) λ items'. Builds-pure _ _ _ _ _ (λ h o. o)
