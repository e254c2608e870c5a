-- ===== src/Controller/Single/Scope/Requests.antt =====
-- The requests of `Reconcile`.
use greatsql_operator.Prelude.{◌≡◌, refl, none}
use greatsql_operator.Api.Meta.{Key}
use greatsql_operator.Kube.Objects.{meta_of, key_of, instance_kind}
use greatsql_operator.Kube.Platform.{Platform}
use greatsql_operator.Kube.Trace.{
  get_call, create_call, update_call, delete_call, status_call, traced,
}
use greatsql_operator.Kube.Keeps.{OnDone, KeepsKeys}
use greatsql_operator.Kube.Sends.{Logged, Sends, KeepsKeys-traced, Logged-one}
use greatsql_operator.Controller.Single.{reconcile}
use greatsql_operator.Controller.Single.Scope.{InScope, DeletesNothing, KeptByWrites, KeptInScope}
use greatsql_operator.Controller.Single.Scope.Reconcile.{reconcile-Keeps, reconcile_live-Keeps}

-- Requests that a predicate allows may be logged.
Logged-writes :
    {W : Type 0} (p : Platform W) (req : Key)
    → KeptByWrites (traced p) req (Logged (DeletesNothing req))
Logged-writes p req = record {
  under_get = λ k key own x kept. Logged-one (DeletesNothing req) (get_call k key) x.1 own kept;
  under_create = λ k o own x kept.
      Logged-one (DeletesNothing req) (create_call k (key_of (meta_of k o))) x.1 own kept;
  under_update = λ k o own x kept.
      Logged-one (DeletesNothing req) (update_call k (key_of (meta_of k o))) x.1 own kept;
  under_status = λ s own x kept.
      Logged-one (DeletesNothing req) (status_call instance_kind (key_of s.meta)) x.1 (refl, own)
        kept;
  under_event = λ t r m x kept. kept;
}

Logged-kept :
    {W : Type 0} (p : Platform W) (req : Key) → KeptInScope (traced p) req (Logged (InScope req))
Logged-kept p req = record {
  writes = record {
    under_get = λ k key own x kept. Logged-one (InScope req) (get_call k key) x.1 own kept;
    under_create = λ k o own x kept.
        Logged-one (InScope req) (create_call k (key_of (meta_of k o))) x.1 own kept;
    under_update = λ k o own x kept.
        Logged-one (InScope req) (update_call k (key_of (meta_of k o))) x.1 own kept;
    under_status = λ s own x kept.
        Logged-one (InScope req) (status_call instance_kind (key_of s.meta)) x.1 (refl, own) kept;
    under_event = λ t r m x kept. kept;
  };
  under_delete = λ k key own x kept. Logged-one (InScope req) (delete_call k key) x.1 own kept;
}

-- If no look-up of the instance of the request shows it to be deleted, `Reconcile` deletes nothing,
-- whether it returns or fails, where replies keep the names; its other requests concern the objects of
-- the request.
pub reconcile-DeletesNothing :
    {W : Type 0} (p : Platform W)
    → KeepsKeys p
    → (req : Key)
    → ((w : W) → OnDone (λ s. s.meta.deletion_timestamp ≡ none) (p.get instance_kind req w).0)
    → Sends (DeletesNothing req) (reconcile (traced p) req) (λ _. Unit)
reconcile-DeletesNothing p keys req live =
    reconcile_live-Keeps (traced p) (KeepsKeys-traced p keys) req (Logged (DeletesNothing req))
      (Logged-writes p req) (λ x. live x.0)

-- Where replies keep the name and the namespace of what was asked for or sent, every request that
-- `Reconcile` sends, whether it returns or fails, concerns an object of the request: it reads,
-- creates and updates the instance, the deployment and the service of that name, the configuration
-- "<name>-config" and the claim "<name>db" only, deletes only what the cleanup names, and sends a
-- status for that instance only.
pub reconcile-Sends :
    {W : Type 0} (p : Platform W)
    → KeepsKeys p
    → (req : Key) → Sends (InScope req) (reconcile (traced p) req) (λ _. Unit)
reconcile-Sends p keys req =
    reconcile-Keeps (traced p) (KeepsKeys-traced p keys) req (Logged (InScope req))
      (Logged-kept p req)
