-- ===== src/Controller/Single/Scope.antt =====
-- Which objects a reconciliation of a SingleInstance touches.
pub mod Cleanup
pub mod Creation
pub mod Update
pub mod Reconcile
pub mod Requests
use Prim.Native.String.{◌++◌}
use greatsql_operator.Prelude.{ℕ, String, ◌≡◌}
use greatsql_operator.Consts
use greatsql_operator.Api.Meta.{Key}
use greatsql_operator.Api.Instance.{SingleInstance}
use greatsql_operator.Kube.Objects.{
  Kind, Obj, meta_of, key_of, config_map, claim, secret, deployment, stateful_set, service,
  instance_kind, cluster_kind,
}
use greatsql_operator.Kube.Platform.{Platform}
use greatsql_operator.Kube.Trace.{
  Call, get_call, create_call, update_call, delete_call, status_call,
}
use greatsql_operator.Utils.Finalizer.{deleted_claim_name, deleted_config_map_name}

-- The objects that are made and read for a request.
abbrev pub Own : Key → Kind → Key → Type 0
Own req config_map key = key ≡ record req { name = req.name ++ "-config" }
Own req claim key = key ≡ record req { name = req.name ++ Consts.db }
Own req deployment key = key ≡ req
Own req service key = key ≡ req
Own req instance_kind key = key ≡ req
Own req secret key = ⊥
Own req stateful_set key = ⊥
Own req cluster_kind key = ⊥

-- The objects that are deleted for a request.
abbrev pub Cleaned : Key → Kind → Key → Type 0
Cleaned req config_map key = key ≡ record req { name = deleted_config_map_name req.name }
Cleaned req claim key = (i : ℕ) × (key ≡ record req { name = deleted_claim_name req.name i })
Cleaned req deployment key = key ≡ req
Cleaned req service key = key ≡ req
Cleaned req instance_kind key = ⊥
Cleaned req secret key = ⊥
Cleaned req stateful_set key = ⊥
Cleaned req cluster_kind key = ⊥

-- The requests that a reconciliation may send: it reads and writes its own objects only, it deletes
-- those of the cleanup only, and it sends a status for the instance only.
abbrev pub InScope : Key → Call → Type 0
InScope req (get_call k key) = Own req k key
InScope req (create_call k key) = Own req k key
InScope req (update_call k key) = Own req k key
InScope req (delete_call k key) = Cleaned req k key
InScope req (status_call k key) = (k ≡ instance_kind) × (key ≡ req)

-- The instance of a request.
abbrev pub Of : Key → SingleInstance → Type 0
Of req s = key_of s.meta ≡ req

-- The same without deletions.
abbrev pub DeletesNothing : Key → Call → Type 0
DeletesNothing req (get_call k key) = Own req k key
DeletesNothing req (create_call k key) = Own req k key
DeletesNothing req (update_call k key) = Own req k key
DeletesNothing req (delete_call k key) = ⊥
DeletesNothing req (status_call k key) = (k ≡ instance_kind) × (key ≡ req)

-- A fact about the world that is kept by every request within the scope but the deletions, whatever the
-- answer, and by every event.
pub record KeptByWrites {W : Type 0} (p : Platform W) (req : Key) (I : W → Type 0) : Type 0 where
  pub under_get : (k : Kind) (key : Key) → Own req k key → (w : W) → I w → I (p.get k key w).1
  pub under_create :
      (k : Kind) (o : Obj k)
      → Own req k (key_of (meta_of k o))
      → (w : W) → I w
      → I (p.create k o w).1
  pub under_update :
      (k : Kind) (o : Obj k)
      → Own req k (key_of (meta_of k o))
      → (w : W) → I w
      → I (p.update k o w).1
  pub under_status :
      (s : SingleInstance) → Of req s → (w : W) → I w → I (p.update_status instance_kind s w).1
  pub under_event : (t r m : String) (w : W) → I w → I (p.event t r m w)

-- And one that the deletions keep too.
pub record KeptInScope {W : Type 0} (p : Platform W) (req : Key) (I : W → Type 0) : Type 0 where
  pub writes : KeptByWrites p req I
  pub under_delete :
      (k : Kind) (key : Key) → Cleaned req k key → (w : W) → I w → I (p.delete k key w).1

-- A fact that is kept by the look-ups, the updates and the events, the requests in front of the first
-- creation.
pub record KeptByUpdates {W : Type 0} (p : Platform W) (req : Key) (I : W → Type 0) : Type 0 where
  pub under_get : (k : Kind) (key : Key) → Own req k key → (w : W) → I w → I (p.get k key w).1
  pub under_update :
      (k : Kind) (o : Obj k)
      → Own req k (key_of (meta_of k o))
      → (w : W) → I w
      → I (p.update k o w).1
  pub under_event : (t r m : String) (w : W) → I w → I (p.event t r m w)

-- And by the deletions too.
pub record KeptByCleanup {W : Type 0} (p : Platform W) (req : Key) (I : W → Type 0) : Type 0 where
  pub updates : KeptByUpdates p req I
  pub under_delete :
      (k : Kind) (key : Key) → Cleaned req k key → (w : W) → I w → I (p.delete k key w).1

module _ {W : Type 0} {p : Platform W} {req : Key} {I : W → Type 0} where
  pub updates_of : KeptByWrites p req I → KeptByUpdates p req I
  updates_of inv = record {
    under_get = inv.under_get;
    under_update = inv.under_update;
    under_event = inv.under_event;
  }

  pub cleanup_of : KeptInScope p req I → KeptByCleanup p req I
  cleanup_of inv = record { updates = updates_of inv.writes; under_delete = inv.under_delete }
