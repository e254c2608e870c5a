-- ===== src/Controller/Setup.antt =====
-- `SetupWithManager` of both controllers: the kind that a controller is for, and the kinds whose changes
-- start a reconciliation of their owner.
use greatsql_operator.Prelude.{String, Option, List, [], ◌∷◌}
use greatsql_operator.Kube.Objects.{Kind, instance_kind, cluster_kind, deployment, stateful_set}

-- What the builder of a controller is told before `Complete`.
pub record Watch : Type 0 where
  pub for_kind : Kind
  pub owns : List Kind

abbrev pub single_watch : Watch
single_watch = record { for_kind = instance_kind; owns = deployment ∷ [] }

abbrev pub cluster_watch : Watch
cluster_watch = record { for_kind = cluster_kind; owns = stateful_set ∷ [] }

module _ {W : Type 0} (complete : Watch → W → Option String × W) where
  -- `(r *SingleInstanceReconciler) SetupWithManager`
  abbrev pub single_instance : W → Option String × W
  single_instance = complete single_watch

  -- `(r *GroupReplicationClusterReconciler) SetupWithManager`
  abbrev pub group_replication_cluster : W → Option String × W
  group_replication_cluster = complete cluster_watch
