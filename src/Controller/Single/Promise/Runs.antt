-- ===== src/Controller/Single/Promise/Runs.antt =====
-- Sequences of reconciliations of one request, with changes by others between them.
use greatsql_operator.Prelude.{◌≡◌, ok}
use greatsql_operator.Api.Meta.{Key}
use greatsql_operator.Api.Instance.{SingleInstance}
use greatsql_operator.Kube.Objects.{Kind}
use greatsql_operator.Kube.Platform.{Platform}
use greatsql_operator.Kube.Presence.{Persists}
use greatsql_operator.Kube.Keeps.{KeepsKeys, behind, reached}
use greatsql_operator.Controller.Single.{reconcile}
use greatsql_operator.Controller.Single.Create.{create_all}
use greatsql_operator.Controller.Single.Scope.Reconcile.{reconcile-Keeps}
use greatsql_operator.Controller.Single.Promise.{Remains}
use greatsql_operator.Controller.Single.Promise.Kept.{Remains-KeptInScope}
use greatsql_operator.Controller.Single.Promise.Creation.{create_all-Remains}

-- From one world to another: reconciliations, whether they return, fail or panic, and whatever others
-- do to the world without deleting an object.
pub data Runs {W : Type 0} (p : Platform W) (Has : W → Kind → Key → Type 0) (req : Key)
    : W → W → Type 0 where
  rest : (w : W) → Runs p Has req w w
  again : (w v : W) → Runs p Has req (reconcile p req w).1 v → Runs p Has req w v
  meanwhile :
      (w u v : W)
      → ((k : Kind) (key : Key) → Has w k key → Has u k key)
      → Runs p Has req u v
      → Runs p Has req w v

module _ {W : Type 0} (p : Platform W) (keys : KeepsKeys p) (Has : W → Kind → Key → Type 0)
    (laws : Persists p Has) (req : Key) where
  Runs-Remains : {w v : W} → Runs p Has req w v → Remains Has req w → Remains Has req v
  Runs-Remains (rest w) h = h
  Runs-Remains (again w v more) h = Runs-Remains more (
      behind (Remains Has req) (reconcile p req w) (
        (reconcile-Keeps p keys req (Remains Has req) (Remains-KeptInScope p Has laws req)).at w h))
  Runs-Remains (meanwhile w u v kept more) h = Runs-Remains more (kept _ _ h.0, kept _ _ h.1)

  -- Once `createResources` has created the objects of a request, the configuration "<name>-config" and
  -- the claim "<name>db" stay through every sequence of reconciliations of the request, whether they
  -- return or fail, and whether the instance is there or is being deleted, on a server that keeps what
  -- it holds and whose replies keep the names, while nobody else deletes.
  pub created-Remains :
      (s s' : SingleInstance) (w v : W)
      → (create_all p req s w).0 ≡ ok s'
      → Runs p Has req (create_all p req s w).1 v
      → Remains Has req v
  created-Remains s s' w v e runs = Runs-Remains runs (
      reached (Remains Has req) (create_all p req s w) s' e
        ((create_all-Remains p Has laws req s).at w tt))
