-- ===== src/Tests/Heaps.antt =====
-- Heaps with an instance and with a cluster, whose parts are behind pointers. The values of k8s.io are
-- texts here, which are copied by their assignment.
use greatsql_operator.Prelude.{
  ℕ, ◌≡◌, String, Option, none, some, List, [], ◌∷◌, refl, arith, ◌==◌, if◌then◌else◌,
}
use greatsql_operator.Prelude.Int.{ℤ, pos}
use greatsql_operator.Api.Meta.{Raw, StringMap}
use greatsql_operator.Api.Memory.Heap.{
  Heap, Ref, pure, ◌>>=◌, copy_behind, new_copy, load, store, reserve, each,
}
use greatsql_operator.Api.Memory.Layout.{
  UpgradeOptions, Member, PodSpec, SingleInstance, GroupReplicationCluster,
}
use greatsql_operator.Api.Memory.Cells.{
  Cell, number_cell, string_map_cell, single_instance_cell, group_replication_cluster_cell,
  members_cell,
}
use greatsql_operator.Api.Memory.Slots.Structs.{single_instance_at, group_replication_cluster_at}
use greatsql_operator.Api.Memory.DeepCopyInto as Into
use greatsql_operator.Api.Memory.DeepCopy as DeepCopy
use greatsql_operator.Api.Memory.Owned.{Agrees, Held}
use greatsql_operator.Api.Memory.Copies.{Deep}
use greatsql_operator.Api.Memory.Behind.{Deep-plain}
use greatsql_operator.Api.Memory.Plain.{Same}
use greatsql_operator.Api.Memory.Meant.{
  PodSpecMeant, SingleInstanceMeant, GroupReplicationClusterMeant,
}

module _ (F : Type 0 → Type 0) (nil : (A : Type 0) → F A) where
  abbrev pub options : UpgradeOptions F String
  options = record { version_service_endpoint = ""; apply = "" }

  abbrev pub pod_with : F StringMap → PodSpec F String
  pod_with labels = record {
    affinity = nil _;
    annotation = nil _;
    labels = labels;
    node_selector = nil _;
    tolerations = nil _;
    termination_grace_period_seconds = nil _;
    scheduler_name = "";
    pod_security_context = nil _;
    service_account_name = "";
    service_name = "";
    version = "8.0.32";
    containers = nil _;
    persistent_volume_claim_template = nil _;
  }

  -- An instance with a size and labels, wherever these are.
  abbrev pub instance_with : F ℤ → F StringMap → SingleInstance F String
  instance_with size labels = record {
    type_meta = record { api_version = "greatsql.greatsql.cn/v1"; kind = "SingleInstance" };
    object_meta = "db1";
    spec = record {
      size = size;
      pod_spec = pod_with labels;
      ports = nil _;
      type = "ClusterIP";
      dns_policy = "";
      upgrade_options = options;
      update_strategy = "";
    };
    status = record {
      access_point = "";
      size = pos 0;
      ready = pos 0;
      age = "";
      deployment_status = "";
    };
  }

  -- A cluster with these members, and nothing else.
  abbrev pub cluster_with : F (List (Member F String)) → GroupReplicationCluster F String
  cluster_with members = record {
    type_meta = record {
      api_version = "greatsql.greatsql.cn/v1";
      kind = "GroupReplicationCluster";
    };
    object_meta = "db1";
    spec = record {
      member = members;
      cluster_spec = nil _;
      proxy_spec = nil _;
      scheduler_buckup = nil _;
      metrics_collection = nil _;
    };
    status = record {
      access_point = "";
      size = pos 0;
      ready = pos 0;
      age = "";
      stateful_set_status = "";
    };
  }

  abbrev pub member_with : F ℤ → Member F String
  member_with size = record { role = "primary"; size = size }

abbrev pub Optional : Type 0 → Type 0
Optional A = Option A

abbrev pub labels : StringMap
labels = ("app", "db1") ∷ []

abbrev pub in_memory : SingleInstance Ref String
in_memory = instance_with Ref (λ A. none) (some 1) (some 2)

abbrev pub meant : SingleInstance Optional Raw
meant = instance_with Optional (λ A. none) (some (pos 2)) (some labels)

-- The instance at 0, its size at 1 and its labels at 2.
abbrev pub cells : ℕ → Option (Cell String)
cells a =
    if a == 0
    then some (single_instance_cell in_memory)
    else if a == 1
    then some (number_cell (pos 2))
    else if a == 2
    then some (string_map_cell labels)
    else none

abbrev pub start : Heap (Cell String)
start = record { next = 3; cell = cells }

pub external-Deep : Deep {C = Cell String} (Same {A = String}) pure
external-Deep = Deep-plain

pub pod_held : PodSpecMeant Same 0 start in_memory.spec.pod_spec meant.spec.pod_spec
pod_held =
    ((
      (
        (
          (
            (
              (
                (
                  (((refl, refl, refl, refl), tt), tt),
                  (omega arith, omega arith, labels, refl, (refl, tt)),
                ),
                tt,
              ),
              tt,
            ),
            tt,
          ),
          tt,
        ),
        tt,
      ),
      tt,
    ))

pub held : Held (SingleInstanceMeant Same) single_instance_at 0 start (some 0) (some meant)
held = (
  omega arith,
  omega arith,
  in_memory,
  refl,
  (
    (
      (refl, refl),
      (
        (
          ((refl, refl, (refl, refl), refl), (omega arith, omega arith, pos 2, refl, refl)),
          pod_held,
        ),
        tt,
      ),
    ),
    ((refl, refl, refl, refl), refl),
  ),
)

abbrev pub heap_of : {A : Type 0} → Option (A × Heap (Cell String)) → Heap (Cell String)
heap_of none = start
heap_of (some (_, h)) = h

abbrev pub after : Heap (Cell String)
after = heap_of (DeepCopy.single_instance pure (some 0) start)

pub copied : DeepCopy.single_instance pure (some 0) start ≡ some (some 3, after)
unfolding DeepCopy.single_instance Into.single_instance Into.single_instance_spec Into.pod_spec
    Into.single_instance_status copy_behind new_copy reserve load store each ◌>>=◌
copied = refl

-- The labels of the original are emptied.
abbrev pub emptied : Heap (Cell String)
emptied = record after { cell = λ a. if a == 2 then some (string_map_cell []) else after.cell a }

-- The size of the copy is changed.
abbrev pub resized : Heap (Cell String)
resized = record after { cell = λ a. if a == 4 then some (number_cell (pos 5)) else after.cell a }

pub resized-Agrees : Agrees 0 start resized
unfolding DeepCopy.single_instance Into.single_instance Into.single_instance_spec Into.pod_spec
    Into.single_instance_status copy_behind new_copy reserve load store each ◌>>=◌
resized-Agrees = record { larger = omega arith; kept = λ a from below. ground arith }

pub emptied-Agrees : Agrees 3 after emptied
emptied-Agrees = record { larger = omega arith; kept = λ a from below. ground arith }

-- A cluster at 0 with two members, of which the first has a size.
abbrev pub cluster_in_memory : GroupReplicationCluster Ref String
cluster_in_memory = cluster_with Ref (λ A. none) (some 1)

abbrev pub cluster_meant : GroupReplicationCluster Optional Raw
cluster_meant =
    cluster_with Optional (λ A. none)
      (some (
        member_with Optional (λ A. none) (some (pos 3))
        ∷ member_with Optional (λ A. none) none
        ∷ []))

abbrev pub cluster_cells : ℕ → Option (Cell String)
cluster_cells a =
    if a == 0
    then some (group_replication_cluster_cell cluster_in_memory)
    else if a == 1
    then some (
        members_cell (member_with Ref (λ A. none) (some 2) ∷ member_with Ref (λ A. none) none ∷ []))
    else if a == 2
    then some (number_cell (pos 3))
    else none

abbrev pub cluster_start : Heap (Cell String)
cluster_start = record { next = 3; cell = cluster_cells }

pub cluster_held :
    Held
      (GroupReplicationClusterMeant Same)
      group_replication_cluster_at
      0
      cluster_start
      (some 0)
      (some cluster_meant)
cluster_held = (
  omega arith,
  omega arith,
  cluster_in_memory,
  refl,
  (
    (
      (refl, refl),
      (
        (
          (
            (
              (
                tt,
                (
                  omega arith,
                  omega arith,
                  member_with Ref (λ A. none) (some 2) ∷ member_with Ref (λ A. none) none ∷ [],
                  refl,
                  ((refl, (omega arith, omega arith, pos 3, refl, refl)), ((refl, tt), tt)),
                ),
              ),
              tt,
            ),
            tt,
          ),
          tt,
        ),
        tt,
      ),
    ),
    ((refl, refl, refl, refl), refl),
  ),
)
