-- ===== src/Api/Memory/Deep/Sections.antt =====
-- The deep copies of the small parts of a cluster.
use greatsql_operator.Prelude.{ℕ}
use greatsql_operator.Api.Meta.{Raw}
use greatsql_operator.Api.Memory.Heap.{Heap, Mem}
use greatsql_operator.Api.Memory.Cells.{Cell}
use greatsql_operator.Api.Memory.Slots.Values.{number_at, boolean_at, int_or_string_at}
use greatsql_operator.Api.Memory.Slots.Structs.{roleling_update_at}
use greatsql_operator.Api.Memory.DeepCopyInto as Into
use greatsql_operator.Api.Memory.Owned.{Local-plain, Local-both}
use greatsql_operator.Api.Memory.Copies.{Deep, Builds-pure, Builds-field, Deep-struct}
use greatsql_operator.Api.Memory.Behind.{Deep-plain, Deep-behind}
use greatsql_operator.Api.Memory.Plain.{
  RolelingUpdatePlain, StatefulSetUpdateStrategyTypePlain, SchedulerBuckupPlain,
  MetricsCollectionPlain, MemberPlain,
}
use greatsql_operator.Api.Memory.Meant.{
  RolelingUpdateMeant, StatefulSetUpdateStrategyTypeMeant, SchedulerBuckupMeant,
  MetricsCollectionMeant, MemberMeant,
}

module _ {E : Type 0} {external : ℕ → Heap (Cell E) → E → Raw → Type 0}
    {copy_external : E → Mem (Cell E) E} (d : Deep external copy_external) where
  pub roleling_update-Deep :
      Deep (RolelingUpdateMeant external) (Into.roleling_update copy_external)
  unfolding Into.roleling_update
  roleling_update-Deep =
      Deep-struct (RolelingUpdateMeant external) (Into.roleling_update copy_external)
        (λ x v.
          Local-both
            (Local-both Local-plain
              ((Deep-behind Deep-plain number_at).local x.partition v.partition))
            ((Deep-behind Deep-plain int_or_string_at).local x.max_unavailable v.max_unavailable))
        RolelingUpdatePlain (λ lo h x v o. o.0.0)
        λ lo base x v.
          Builds-field _ _ _ _ (Deep-behind Deep-plain number_at) lo x.partition v.partition _
            (λ h o. o.0.1)
            λ partition'.
              Builds-field _ _ _ _ (Deep-behind Deep-plain int_or_string_at) lo x.max_unavailable
                v.max_unavailable _ (λ h o. o.1)
                λ max_unavailable'. Builds-pure _ _ _ _ _ (λ h o. o)

  pub stateful_set_update_strategy_type-Deep :
      Deep
        (StatefulSetUpdateStrategyTypeMeant external)
        (Into.stateful_set_update_strategy_type copy_external)
  unfolding Into.stateful_set_update_strategy_type
  stateful_set_update_strategy_type-Deep =
      Deep-struct (StatefulSetUpdateStrategyTypeMeant external)
        (Into.stateful_set_update_strategy_type copy_external)
        (λ x v. Local-both Local-plain (
          (Deep-behind roleling_update-Deep roleling_update_at).local x.roleling_update
            v.roleling_update))
        StatefulSetUpdateStrategyTypePlain (λ lo h x v o. o.0)
        λ lo base x v.
          Builds-field _ _ _ _ (Deep-behind roleling_update-Deep roleling_update_at) lo
            x.roleling_update v.roleling_update _ (λ h o. o.1)
            λ roleling_update'. Builds-pure _ _ _ _ _ (λ h o. o)

  pub scheduler_buckup-Deep :
      Deep (SchedulerBuckupMeant external) (Into.scheduler_buckup copy_external)
  unfolding Into.scheduler_buckup
  scheduler_buckup-Deep =
      Deep-struct (SchedulerBuckupMeant external) (Into.scheduler_buckup copy_external)
        (λ x v.
          Local-both Local-plain ((Deep-behind Deep-plain boolean_at).local x.enable v.enable))
        SchedulerBuckupPlain (λ lo h x v o. o.0)
        λ lo base x v.
          Builds-field _ _ _ _ (Deep-behind Deep-plain boolean_at) lo x.enable v.enable _
            (λ h o. o.1) λ enable'. Builds-pure _ _ _ _ _ (λ h o. o)

  pub metrics_collection-Deep :
      Deep (MetricsCollectionMeant external) (Into.metrics_collection copy_external)
  unfolding Into.metrics_collection
  metrics_collection-Deep =
      Deep-struct (MetricsCollectionMeant external) (Into.metrics_collection copy_external)
        (λ x v.
          Local-both Local-plain ((Deep-behind Deep-plain boolean_at).local x.enable v.enable))
        MetricsCollectionPlain (λ lo h x v o. o.0)
        λ lo base x v.
          Builds-field _ _ _ _ (Deep-behind Deep-plain boolean_at) lo x.enable v.enable _
            (λ h o. o.1) λ enable'. Builds-pure _ _ _ _ _ (λ h o. o)

  pub member-Deep : Deep (MemberMeant external) (Into.member copy_external)
  unfolding Into.member
  member-Deep =
      Deep-struct (MemberMeant external) (Into.member copy_external)
        (λ x v. Local-both Local-plain ((Deep-behind Deep-plain number_at).local x.size v.size))
        MemberPlain (λ lo h x v o. o.0)
        λ lo base x v.
          Builds-field _ _ _ _ (Deep-behind Deep-plain number_at) lo x.size v.size _ (λ h o. o.1)
            λ size'. Builds-pure _ _ _ _ _ (λ h o. o)
