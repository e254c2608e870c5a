-- ===== src/Controller/Cluster/Promise/Runs.antt =====
-- Sequences of reconciliations of clusters, with changes by others between them.
use greatsql_operator.Prelude.{◌≡◌, some, List, ◌∷◌, ok}
use greatsql_operator.Prelude.Int.{ℤ}
use greatsql_operator.Api.Meta.{Key}
use greatsql_operator.Api.Cluster.{GroupReplicationCluster, Member}
use greatsql_operator.Kube.Objects.{Kind, key_of, config_map, claim, secret, stateful_set, service}
use greatsql_operator.Kube.Platform.{Platform}
use greatsql_operator.Kube.Presence.{Persists, Stable, Stable-both}
use greatsql_operator.Kube.Keeps.{KeepsKeys, behind, reached}
use greatsql_operator.Controller.Cluster.{create_resources, reconcile}
use greatsql_operator.Controller.Cluster.Scope.{KeptByCreates}
use greatsql_operator.Controller.Cluster.Scope.Reconcile.{reconcile-Keeps}
use greatsql_operator.Controller.Cluster.Promise.{AllThere}
use greatsql_operator.Controller.Cluster.Promise.Complete.{create_resources-AllThere}

-- From one world to another: reconciliations of any clusters, whether they return, fail or panic, and
-- whatever others do to the world without deleting an object.
pub data Runs {W : Type 0} (p : Platform W) (Has : W → Kind → Key → Type 0) : W → W → Type 0 where
  over : (w : W) → Runs p Has w w
  again : (req : Key) (w v : W) → Runs p Has (reconcile p req w).1 v → Runs p Has w v
  meanwhile :
      (w u v : W)
      → ((k : Kind) (key : Key) → Has w k key → Has u k key)
      → Runs p Has u v
      → Runs p Has w v

module _ {W : Type 0} (p : Platform W) (keys : KeepsKeys p) (Has : W → Kind → Key → Type 0)
    (laws : Persists p Has) where
  Stable-KeptByCreates : (req : Key) (F : W → Type 0) → Stable p F → KeptByCreates p req F
  Stable-KeptByCreates req F stable = record {
    under_get = λ k key own w h. stable.under_get k key w h;
    under_create = λ k o own w h. stable.under_create k o w h;
    under_uuid = stable.under_uuid;
  }

  AllThere-stable : (req : Key) → Stable p (AllThere Has req)
  AllThere-stable req =
      Stable-both
        (Stable-both
          (Stable-both (Stable-both (laws.stable secret _) (laws.stable config_map _))
            (laws.stable claim _))
          (laws.stable stateful_set _))
        (laws.stable service _)

  Runs-AllThere : {w v : W} (req : Key) → Runs p Has w v → AllThere Has req w → AllThere Has req v
  Runs-AllThere req (over w) h = h
  Runs-AllThere req (again other w v more) h = Runs-AllThere req more (
      behind (AllThere Has req) (reconcile p other w) (
        (reconcile-Keeps p keys other (AllThere Has req)
            (Stable-KeptByCreates other (AllThere Has req) (AllThere-stable req))).at
          w h))
  Runs-AllThere req (meanwhile w u v kept more) h =
      Runs-AllThere req more (
        (((kept _ _ h.0.0.0.0, kept _ _ h.0.0.0.1), kept _ _ h.0.0.1), kept _ _ h.0.1),
        kept _ _ h.1,
      )

  -- Once `createResources` has returned for a cluster with the name and the namespace of the request,
  -- whose first member has a size, the secret "<name>-secret", the configuration "<name>-config-1", the
  -- claim "<name>-db-1", the stateful set of its name and the service "<name>-headless" are there, and
  -- they stay through every sequence of reconciliations of this cluster and of others, whether these
  -- return or fail, on a server that keeps what it holds and whose replies keep the names, while nobody
  -- else deletes.
  pub created-AllThere :
      (req : Key) (mgr : GroupReplicationCluster)
      → key_of mgr.meta ≡ req
      → (n : ℤ) (m : Member) (rest : List Member) → mgr.spec.member ≡ m ∷ rest
      → m.size ≡ some n
      → (w v : W) → (create_resources p req mgr w).0 ≡ ok tt
      → Runs p Has (create_resources p req mgr w).1 v
      → AllThere Has req v
  created-AllThere req mgr own n m rest members size w v returned runs = Runs-AllThere req runs (
      reached (AllThere Has req) (create_resources p req mgr w) tt returned
        ((create_resources-AllThere p Has laws req mgr own n m rest members size).at w tt))
