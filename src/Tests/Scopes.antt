-- ===== src/Tests/Scopes.antt =====
-- A server that holds an instance and a cluster under every key, and the requests that it is sent.
use greatsql_operator.Prelude.{ℕ, ◌≡◌, refl, none, some, [], ◌∷◌}
use greatsql_operator.Prelude.Int.{pos}
use greatsql_operator.Api.Meta.{Key}
use greatsql_operator.Api.Instance.{SingleInstance}
use greatsql_operator.Api.Cluster.{GroupReplicationCluster}
use greatsql_operator.Kube.Objects.{
  Kind, config_map, claim, secret, deployment, stateful_set, service, instance_kind, cluster_kind,
  Obj, meta_of, key_of,
}
use greatsql_operator.Kube.Platform.{Reply, done, failed, not_found, Platform}
use greatsql_operator.Kube.Trace.{traced}
use greatsql_operator.Kube.Keeps.{OnDone, KeepsKeys}
use greatsql_operator.Kube.Sends.{Sends}
use greatsql_operator.Controller.Single.{reconcile}
use greatsql_operator.Controller.Single.Scope.{InScope, DeletesNothing}
use greatsql_operator.Controller.Single.Scope.Requests.{reconcile-Sends, reconcile-DeletesNothing}
use greatsql_operator.Controller.Cluster as Cluster
use greatsql_operator.Controller.Cluster.Scope.{OnlyCreates}
use greatsql_operator.Controller.Cluster.Scope.Reconcile.{reconcile-OnlyCreates}
use greatsql_operator.Tests.Server.{accepting, request_key, sample, instance_meta, cluster, member}

abbrev pub sample_at : Key → SingleInstance
sample_at key = record sample {
  meta = record instance_meta { name = key.name; namespace = key.namespace };
}

abbrev pub cluster_at : Key → GroupReplicationCluster
cluster_at key =
    let c = cluster (member (some (pos 3)) ∷ []) in
    record c { meta = record c.meta { name = key.name; namespace = key.namespace } }

abbrev obliging_get : (k : Kind) → Key → ℕ → Reply (Obj k) × ℕ
obliging_get instance_kind key w = (done (sample_at key), w)
obliging_get cluster_kind key w = (done (cluster_at key), w)
obliging_get _ key w = (failed not_found, w)

abbrev pub obliging : Platform ℕ
obliging = record accepting { get = obliging_get }

obliging_got :
    (k : Kind) (key : Key) (w : ℕ)
    → OnDone (λ o. key_of (meta_of k o) ≡ key) (obliging_get k key w).0
obliging_got instance_kind key w = refl
obliging_got cluster_kind key w = refl
obliging_got config_map key w = tt
obliging_got claim key w = tt
obliging_got secret key w = tt
obliging_got deployment key w = tt
obliging_got stateful_set key w = tt
obliging_got service key w = tt

obliging-KeepsKeys : KeepsKeys obliging
obliging-KeepsKeys = record {
  got = obliging_got;
  created = λ k o w. refl;
  updated = λ k o w. refl;
  status_updated = λ k o w. refl;
}

reconcile-Sends_example :
    Sends (InScope request_key) (reconcile (traced obliging) request_key) (λ _. Unit)
reconcile-Sends_example = reconcile-Sends obliging obliging-KeepsKeys request_key

reconcile-OnlyCreates_example :
    Sends (OnlyCreates request_key) (Cluster.reconcile (traced obliging) request_key) (λ _. Unit)
reconcile-OnlyCreates_example = reconcile-OnlyCreates obliging obliging-KeepsKeys request_key

obliging_live :
    (w : ℕ)
    → OnDone (λ s. s.meta.deletion_timestamp ≡ none) (obliging.get instance_kind request_key w).0
obliging_live w = refl

reconcile-DeletesNothing_example :
    Sends (DeletesNothing request_key) (reconcile (traced obliging) request_key) (λ _. Unit)
reconcile-DeletesNothing_example =
    reconcile-DeletesNothing obliging obliging-KeepsKeys request_key obliging_live
