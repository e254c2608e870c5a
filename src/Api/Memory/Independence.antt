-- ===== src/Api/Memory/Independence.antt =====
-- What a deep copy and its original share: nothing.
use greatsql_operator.Prelude.{ℕ, ◌≡◌, Option, none, some, subst}
use greatsql_operator.Api.Meta.{Raw}
use greatsql_operator.Api.Memory.Heap.{Heap, Ref, Mem, ◌>>=◌, pure}
use greatsql_operator.Api.Memory.Layout.{SingleInstance, GroupReplicationCluster}
use greatsql_operator.Api.Memory.Cells.{Cell}
use greatsql_operator.Api.Memory.Slots.Structs.{single_instance_at, group_replication_cluster_at}
use greatsql_operator.Api.Memory.DeepCopy as DeepCopy
use greatsql_operator.Api.Memory.DeepCopy.{Object, single_instance_object}
use greatsql_operator.Api.Memory.Owned.{Agrees, Agrees-refl, Held}
use greatsql_operator.Api.Memory.Copies.{Copied, Copied-continue, Deep}
use greatsql_operator.Api.Memory.Behind.{Deep-behind}
use greatsql_operator.Api.Memory.Meant.{SingleInstanceMeant, GroupReplicationClusterMeant}
use greatsql_operator.Api.Memory.Deep.Instances.{single_instance-Deep}
use greatsql_operator.Api.Memory.Deep.Clusters.{group_replication_cluster-Deep}

module _ {C A V : Type 0} {own : ℕ → Heap C → A → V → Type 0} {into : A → Mem C A}
    (d : Deep own into) where
  -- The original stands behind a copy as before.
  both :
      (x : A) (v : V) (h : Heap C) (o : Option (A × Heap C))
      → own 0 h x v
      → Copied h o (λ y h'. own h.next h' y v)
      → Copied h o (λ y h'. own h.next h' y v × own 0 h' x v)
  both x v h none o c = c
  both x v h (some (y, h')) o (e, c) = (e, (c, (d.local x v).framed e o))

  -- Only the cells in front of the copy, or only those from it on, are changed afterwards.
  apart :
      (x y : A) (v : V) (h h' old new : Heap C)
      → own 0 h x v
      → into x h ≡ some (y, h')
      → Agrees 0 h new
      → Agrees h.next h' old
      → own 0 new x v × own h.next old y v
  apart x y v h h' old new o e before behind =
      let c : Copied h (some (y, h')) (λ y h'. own h.next h' y v) =
        subst (λ r. Copied h r (λ y h'. own h.next h' y v)) e (d.copied 0 x v h o) in
      ((d.local x v).framed before o, (d.local y v).framed behind c.1)

module _ {E : Type 0} {external : ℕ → Heap (Cell E) → E → Raw → Type 0}
    {copy_external : E → Mem (Cell E) E} (d : Deep external copy_external) where
  instance-Deep :
      Deep
        (Held (SingleInstanceMeant external) single_instance_at)
        (DeepCopy.single_instance copy_external)
  unfolding DeepCopy.single_instance
  instance-Deep = Deep-behind (single_instance-Deep d) single_instance_at

  cluster-Deep :
      Deep
        (Held (GroupReplicationClusterMeant external) group_replication_cluster_at)
        (DeepCopy.group_replication_cluster copy_external)
  unfolding DeepCopy.group_replication_cluster
  cluster-Deep = Deep-behind (group_replication_cluster-Deep d) group_replication_cluster_at

  -- `DeepCopy` of a cluster in memory that stands for `v`, or of nil, returns: its result stands for `v`
  -- too, or is nil, and reaches new cells only; no cell that was there is changed, and the original
  -- stands for `v` as before. The deep copies of the values of k8s.io are taken to do the same.
  pub group_replication_cluster-Copied :
      (r : Ref (GroupReplicationCluster Ref E)) (v : Option (GroupReplicationCluster Option Raw))
      (h : Heap (Cell E))
      → Held (GroupReplicationClusterMeant external) group_replication_cluster_at 0 h r v
      → Copied h (DeepCopy.group_replication_cluster copy_external r h) (λ r' h'.
        Held (GroupReplicationClusterMeant external) group_replication_cluster_at h.next h' r' v
        × Held (GroupReplicationClusterMeant external) group_replication_cluster_at 0 h' r v)
  group_replication_cluster-Copied r v h o =
      both cluster-Deep r v h (DeepCopy.group_replication_cluster copy_external r h) o
        (cluster-Deep.copied 0 r v h o)

  -- Behind `DeepCopy` of an instance that stands for `v`, whatever is done to the cells from the copy
  -- on, the original stands for `v`, and whatever is done to the cells that were there before, the copy
  -- does.
  pub single_instance-Apart :
      (r r' : Ref (SingleInstance Ref E)) (v : Option (SingleInstance Option Raw))
      (h h' old new : Heap (Cell E))
      → Held (SingleInstanceMeant external) single_instance_at 0 h r v
      → DeepCopy.single_instance copy_external r h ≡ some (r', h')
      → Agrees 0 h new
      → Agrees h.next h' old
      → Held (SingleInstanceMeant external) single_instance_at 0 new r v
        × Held (SingleInstanceMeant external) single_instance_at h.next old r' v
  single_instance-Apart r r' v h h' old new o e before behind =
      apart instance-Deep r r' v h h' old new o e before behind

  -- The interface holds a pointer to an instance that stands for `v` and reaches no cell below `lo`, or
  -- is nil where there is no `v`.
  abbrev pub ObjectMeant :
      ℕ → Heap (Cell E) → Option Object → Option (SingleInstance Option Raw) → Type 0
  ObjectMeant lo h none none = Unit
  ObjectMeant lo h (some (single_instance_object a)) (some v) =
      Held (SingleInstanceMeant external) single_instance_at lo h (some a) (some v)
  ObjectMeant lo h _ _ = ⊥

  as_object-Copied :
      (r' : Ref (SingleInstance Ref E)) (v : Option (SingleInstance Option Raw)) (lo : ℕ)
      (h : Heap (Cell E))
      → Held (SingleInstanceMeant external) single_instance_at lo h r' v
      → let m : Mem (Cell E) (Option Object) = elim r' [
        | none ↦ pure none
        | some a ↦ pure (some (single_instance_object a))
      ] in
        Copied h (m h) (λ o h'. ObjectMeant lo h' o v)
  as_object-Copied none none lo h o = (Agrees-refl 0 h, tt)
  as_object-Copied none (some v) lo h o = absurd o
  as_object-Copied (some a) none lo h o = absurd o
  as_object-Copied (some a) (some v) lo h o = (Agrees-refl 0 h, o)

  -- `DeepCopyObject` of an instance in memory that stands for `v` returns a pointer to an instance that
  -- stands for `v` and reaches new cells only; of nil it returns the nil interface. No cell that was
  -- there is changed. The deep copies of the values of k8s.io are taken to do the same.
  pub single_instance_as_object-Copied :
      (r : Ref (SingleInstance Ref E)) (v : Option (SingleInstance Option Raw)) (h : Heap (Cell E))
      → Held (SingleInstanceMeant external) single_instance_at 0 h r v
      → Copied h
          (DeepCopy.single_instance_as_object copy_external r h)
          (λ o h'. ObjectMeant h.next h' o v)
  unfolding DeepCopy.single_instance_as_object ◌>>=◌
  single_instance_as_object-Copied r v h o =
      Copied-continue
        (λ r' h'. Held (SingleInstanceMeant external) single_instance_at h.next h' r' v)
        (λ o h'. ObjectMeant h.next h' o v) h (DeepCopy.single_instance copy_external r h) _
        (instance-Deep.copied 0 r v h o) λ r' h' e c. as_object-Copied r' v h.next h' c
