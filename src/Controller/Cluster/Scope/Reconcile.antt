-- ===== src/Controller/Cluster/Scope/Reconcile.antt =====
-- The requests of `Reconcile` of a cluster.
use greatsql_operator.Prelude.{ℕ, zero, suc, ◌+◌, ◌≡◌, refl}
use greatsql_operator.Prelude.Int.{pos_part}
use greatsql_operator.Prelude.Steps.{pure, fail}
use greatsql_operator.Api.Meta.{Key}
use greatsql_operator.Api.Cluster.{GroupReplicationCluster, get_size}
use greatsql_operator.Kube.Objects.{meta_of, key_of, StatefulSet, stateful_set, cluster_kind}
use greatsql_operator.Kube.Platform.{
  Reply, done, failed, not_found, already_exists, conflict, other, api, Platform,
}
use greatsql_operator.Kube.Trace.{get_call, create_call, traced}
use greatsql_operator.Kube.Keeps.{
  OnDone, KeepsKeys, Keeps, Keeps-attempt, Keeps-pure, Keeps-fail, Keeps-bind,
}
use greatsql_operator.Kube.Sends.{Logged, Sends, KeepsKeys-traced, Logged-one}
use greatsql_operator.Controller.Cluster.{
  create_members, create_resources, reconcile_found, reconcile,
}
use greatsql_operator.Controller.Cluster.Scope.{OnlyCreates, KeptByCreates}
use greatsql_operator.Controller.Cluster.Scope.Creation.{
  any-Keeps, create_secret-Keeps, create_member-Keeps, create_service-Keeps,
}

module _ {W : Type 0} (p : Platform W) (keys : KeepsKeys p) (req : Key) (I : W → Type 0)
    (kept : KeptByCreates p req I) where
  create_members-Keeps :
      (mgr : GroupReplicationCluster) (n i : ℕ)
      → key_of mgr.meta ≡ req
      → Keeps I (create_members p req mgr n i) (λ _. Unit)
  unfolding create_members
  create_members-Keeps mgr zero i own = Keeps-pure _ tt tt
  create_members-Keeps mgr (suc n) i own =
      Keeps-bind _ (create_member-Keeps p req I kept mgr i own)
        λ _ _. create_members-Keeps mgr n (i + 1) own

  create_resources-Keeps :
      (mgr : GroupReplicationCluster)
      → key_of mgr.meta ≡ req
      → Keeps I (create_resources p req mgr) (λ _. Unit)
  unfolding create_resources
  create_resources-Keeps mgr own = Keeps-bind _ (create_secret-Keeps p req I kept mgr) λ _ _.
      Keeps-bind _ (any-Keeps p req I kept _) λ member _.
        Keeps-bind _ (create_members-Keeps mgr (pos_part (get_size member)) 1 own)
          λ _ _. create_service-Keeps p req I kept mgr

  after_set-Keeps :
      (mgr : GroupReplicationCluster)
      → key_of mgr.meta ≡ req
      → (r : Reply StatefulSet)
      → Keeps {A = Unit {0}} I
          (elim r [ done _ ↦ pure tt | failed _ ↦ create_resources p req mgr ])
          (λ _. Unit)
  after_set-Keeps mgr own (done s) = Keeps-pure _ tt tt
  after_set-Keeps mgr own (failed e) = create_resources-Keeps mgr own

  reconcile_found-Keeps :
      (mgr : GroupReplicationCluster)
      → key_of mgr.meta ≡ req
      → Keeps I (reconcile_found p req mgr) (λ _. Unit)
  unfolding reconcile_found
  reconcile_found-Keeps mgr own =
      Keeps-bind _ {M = λ _. Unit}
        (Keeps-attempt I (p.get stateful_set req) (kept.under_get stateful_set req refl) (λ _. tt))
        λ reply _. after_set-Keeps mgr own reply

  after_cluster-Keeps :
      (r : Reply GroupReplicationCluster)
      → OnDone (λ mgr. key_of mgr.meta ≡ req) r
      → Keeps {A = Unit {0}} I
          (elim r [
            | done mgr ↦ reconcile_found p req mgr
            | failed not_found ↦ pure tt
            | failed e ↦ fail (api e)
          ])
          (λ _. Unit)
  after_cluster-Keeps (done mgr) own = reconcile_found-Keeps mgr own
  after_cluster-Keeps (failed not_found) _ = Keeps-pure _ tt tt
  after_cluster-Keeps (failed already_exists) _ = Keeps-fail _ _
  after_cluster-Keeps (failed conflict) _ = Keeps-fail _ _
  after_cluster-Keeps (failed (other m)) _ = Keeps-fail _ _

  pub reconcile-Keeps : Keeps I (reconcile p req) (λ _. Unit)
  unfolding reconcile
  reconcile-Keeps =
      Keeps-bind _
        (Keeps-attempt I (p.get cluster_kind req) (kept.under_get cluster_kind req refl)
          (keys.got cluster_kind req))
        after_cluster-Keeps

-- Calls that are allowed may be logged.
Logged-creates :
    {W : Type 0} (p : Platform W) (req : Key)
    → KeptByCreates (traced p) req (Logged (OnlyCreates req))
Logged-creates p req = record {
  under_get = λ k key own x h. Logged-one (OnlyCreates req) (get_call k key) x.1 own h;
  under_create =
      λ k o own x h. Logged-one (OnlyCreates req) (create_call k (key_of (meta_of k o))) x.1 own h;
  under_uuid = λ x h. h;
}

-- Where replies keep the name and the namespace of what was asked for, `Reconcile` of a cluster only
-- looks up and creates, whether it returns or fails: it never updates, deletes or sends a status. It
-- looks up the cluster, the stateful set of its name and configurations "<name>-config-<i>"; it
-- creates such configurations, claims "<name>-db-<i>", the stateful set, the secret "<name>-secret"
-- and the service "<name>-headless", all in the namespace of the request.
pub reconcile-OnlyCreates :
    {W : Type 0} (p : Platform W) (laws : KeepsKeys p) (req : Key)
    → Sends (OnlyCreates req) (reconcile (traced p) req) (λ _. Unit)
reconcile-OnlyCreates p laws req =
    reconcile-Keeps (traced p) (KeepsKeys-traced p laws) req (Logged (OnlyCreates req))
      (Logged-creates p req)
