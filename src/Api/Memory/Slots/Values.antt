-- ===== src/Api/Memory/Slots/Values.antt =====
-- The cells of plain values, of slices and of maps.
use greatsql_operator.Prelude.{String, Bool, Option, none, some, List, refl}
use greatsql_operator.Prelude.Int.{ℤ}
use greatsql_operator.Api.Meta.{Raw, StringMap}
use greatsql_operator.Api.Memory.Heap.{Ref, Slot, slot}
use greatsql_operator.Api.Memory.Layout.{
  ContainerSpec, Member, GroupReplicationCluster, SingleInstance,
}
use greatsql_operator.Api.Memory.Cells.{
  Cell, string_cell, number_cell, boolean_cell, int_or_string_cell, string_map_cell, strings_cell,
  references_cell, external_cell, externals_cell, container_specs_cell, members_cell,
  group_replication_clusters_cell, single_instances_cell,
}

module _ {E : Type 0} where
  abbrev string_in : Cell E → Option (String)
  string_in (string_cell x) = some x
  string_in _ = none

  abbrev pub string_at : Slot (Cell E) (String)
  string_at = slot string_cell string_in (λ x. refl)

  abbrev number_in : Cell E → Option (ℤ)
  number_in (number_cell x) = some x
  number_in _ = none

  abbrev pub number_at : Slot (Cell E) (ℤ)
  number_at = slot number_cell number_in (λ x. refl)

  abbrev boolean_in : Cell E → Option (Bool)
  boolean_in (boolean_cell x) = some x
  boolean_in _ = none

  abbrev pub boolean_at : Slot (Cell E) (Bool)
  boolean_at = slot boolean_cell boolean_in (λ x. refl)

  abbrev int_or_string_in : Cell E → Option (Raw)
  int_or_string_in (int_or_string_cell x) = some x
  int_or_string_in _ = none

  abbrev pub int_or_string_at : Slot (Cell E) (Raw)
  int_or_string_at = slot int_or_string_cell int_or_string_in (λ x. refl)

  abbrev string_map_in : Cell E → Option (StringMap)
  string_map_in (string_map_cell x) = some x
  string_map_in _ = none

  abbrev pub string_map_at : Slot (Cell E) (StringMap)
  string_map_at = slot string_map_cell string_map_in (λ x. refl)

  abbrev strings_in : Cell E → Option (List String)
  strings_in (strings_cell x) = some x
  strings_in _ = none

  abbrev pub strings_at : Slot (Cell E) (List String)
  strings_at = slot strings_cell strings_in (λ x. refl)

  abbrev references_in : Cell E → Option (List Raw)
  references_in (references_cell x) = some x
  references_in _ = none

  abbrev pub references_at : Slot (Cell E) (List Raw)
  references_at = slot references_cell references_in (λ x. refl)

  abbrev external_in : Cell E → Option (E)
  external_in (external_cell x) = some x
  external_in _ = none

  abbrev pub external_at : Slot (Cell E) (E)
  external_at = slot external_cell external_in (λ x. refl)

  abbrev externals_in : Cell E → Option (List E)
  externals_in (externals_cell x) = some x
  externals_in _ = none

  abbrev pub externals_at : Slot (Cell E) (List E)
  externals_at = slot externals_cell externals_in (λ x. refl)

  abbrev container_specs_in : Cell E → Option (List (ContainerSpec Ref E))
  container_specs_in (container_specs_cell x) = some x
  container_specs_in _ = none

  abbrev pub container_specs_at : Slot (Cell E) (List (ContainerSpec Ref E))
  container_specs_at = slot container_specs_cell container_specs_in (λ x. refl)

  abbrev members_in : Cell E → Option (List (Member Ref E))
  members_in (members_cell x) = some x
  members_in _ = none

  abbrev pub members_at : Slot (Cell E) (List (Member Ref E))
  members_at = slot members_cell members_in (λ x. refl)

  abbrev group_replication_clusters_in : Cell E → Option (List (GroupReplicationCluster Ref E))
  group_replication_clusters_in (group_replication_clusters_cell x) = some x
  group_replication_clusters_in _ = none

  abbrev pub group_replication_clusters_at : Slot (Cell E) (List (GroupReplicationCluster Ref E))
  group_replication_clusters_at =
      slot group_replication_clusters_cell group_replication_clusters_in (λ x. refl)

  abbrev single_instances_in : Cell E → Option (List (SingleInstance Ref E))
  single_instances_in (single_instances_cell x) = some x
  single_instances_in _ = none

  abbrev pub single_instances_at : Slot (Cell E) (List (SingleInstance Ref E))
  single_instances_at = slot single_instances_cell single_instances_in (λ x. refl)
