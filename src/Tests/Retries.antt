-- ===== src/Tests/Retries.antt =====
-- Requests of both controllers that stopped half-way, on the server that refuses.
use greatsql_operator.Prelude.{refl, inl, inr, [], ◌∷◌}
use greatsql_operator.Kube.Objects.{config_map, secret, cluster_kind}
use greatsql_operator.Kube.Presence.Refusal.{Stuck}
use greatsql_operator.Controller.Single.{reconcile}
use greatsql_operator.Controller.Single.Retry.{HalfWay, after, reconcile-Stuck}
use greatsql_operator.Controller.Cluster as Cluster
use greatsql_operator.Controller.Cluster.Retry as ClusterRetry
use greatsql_operator.Controller.Cluster.Retry.{Blocked, reconcile-Blocked}
use greatsql_operator.Tests.Server.{request_key}
use greatsql_operator.Tests.Storing.{Stored, Holds}
use greatsql_operator.Tests.Refusing.{
  refusing, refusing-KeepsKeys, refusing-Persists, refusing-Refuses,
}

-- The configuration alone.
abbrev one_config : Stored
one_config = (config_map, record { namespace = "default"; name = "db1-config" }) ∷ []

reconcile-Stuck_example :
    Stuck
      (HalfWay Holds request_key)
      (reconcile refusing request_key (after refusing request_key 2 one_config))
reconcile-Stuck_example =
    reconcile-Stuck refusing Holds refusing-Persists refusing-Refuses request_key refusing-KeepsKeys
      one_config (inl (refl, refl), λ h. elim h [ inl s ↦ cc | inr s ↦ cc ]) 2

-- The cluster and its secret.
abbrev one_secret : Stored
one_secret =
    (secret, record { namespace = "default"; name = "db1-secret" })
    ∷ (cluster_kind, request_key)
    ∷ []

reconcile-Blocked_example :
    Blocked Holds request_key
      (refusing.get cluster_kind request_key
        (ClusterRetry.after refusing request_key 1 one_secret)).0
      (Cluster.reconcile refusing request_key
        (ClusterRetry.after refusing request_key 1 one_secret))
reconcile-Blocked_example =
    reconcile-Blocked refusing Holds refusing-Persists refusing-Refuses request_key one_secret
      (inl (refl, refl), λ h. elim h [ inl s ↦ cc | inr g ↦ elim g [ inl s ↦ cc | inr s ↦ cc ] ]) 1
