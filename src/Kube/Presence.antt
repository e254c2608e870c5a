-- ===== src/Kube/Presence.antt =====
-- Which objects the API server holds, and what the requests do to them while nobody else changes them.
pub mod Creating
pub mod Refusal
use greatsql_operator.Prelude.{String, ◌≢◌, ◌⊎◌}
use greatsql_operator.Api.Meta.{Key}
use greatsql_operator.Kube.Objects.{Kind, Obj, meta_of, key_of}
use greatsql_operator.Kube.Platform.{Platform}
use greatsql_operator.Kube.Ensures.{Answered}

-- A fact about the world that every request but a deletion keeps, whatever the answer.
pub record Stable {W : Type 0} (p : Platform W) (F : W → Type 0) : Type 0 where
  pub under_get : (k : Kind) (key : Key) (w : W) → F w → F (p.get k key w).1
  pub under_create : (k : Kind) (o : Obj k) (w : W) → F w → F (p.create k o w).1
  pub under_update : (k : Kind) (o : Obj k) (w : W) → F w → F (p.update k o w).1
  pub under_status : (k : Kind) (o : Obj k) (w : W) → F w → F (p.update_status k o w).1
  pub under_event : (t r m : String) (w : W) → F w → F (p.event t r m w)
  pub under_uuid : (w : W) → F w → F (p.new_uuid w).1

-- `Has w k key`: in the world `w` the server holds the object `key` of kind `k`. It holds what it has
-- created or has shown; a request keeps what it holds, except that a deletion may take the object that
-- it names.
pub record Persists {W : Type 0} (p : Platform W) (Has : W → Kind → Key → Type 0) : Type 0 where
  pub created :
      (k : Kind) (o : Obj k) (w : W)
      → Answered (λ _ w'. Has w' k (key_of (meta_of k o))) (λ _. Unit) (p.create k o w)
  pub got :
      (k : Kind) (key : Key) (w : W) → Answered (λ _ w'. Has w' k key) (λ _. Unit) (p.get k key w)
  pub stable : (k : Kind) (key : Key) → Stable p (λ w. Has w k key)
  pub deleted :
      (k j : Kind) (key other : Key) (w : W)
      → (k ≢ j) ⊎ (key ≢ other)
      → Has w k key
      → Has (p.delete j other w).1 k key

module _ {W : Type 0} {p : Platform W} where
  pub Stable-any : Stable p (λ _. Unit)
  Stable-any = record {
    under_get = λ k key w h. tt;
    under_create = λ k o w h. tt;
    under_update = λ k o w h. tt;
    under_status = λ k o w h. tt;
    under_event = λ t r m w h. tt;
    under_uuid = λ w h. tt;
  }

  pub Stable-both : {F G : W → Type 0} → Stable p F → Stable p G → Stable p (λ w. F w × G w)
  Stable-both f g = record {
    under_get = λ k key w h. (f.under_get k key w h.0, g.under_get k key w h.1);
    under_create = λ k o w h. (f.under_create k o w h.0, g.under_create k o w h.1);
    under_update = λ k o w h. (f.under_update k o w h.0, g.under_update k o w h.1);
    under_status = λ k o w h. (f.under_status k o w h.0, g.under_status k o w h.1);
    under_event = λ t r m w h. (f.under_event t r m w h.0, g.under_event t r m w h.1);
    under_uuid = λ w h. (f.under_uuid w h.0, g.under_uuid w h.1);
  }
