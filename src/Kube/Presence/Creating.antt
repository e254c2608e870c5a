-- ===== src/Kube/Presence/Creating.antt =====
-- A created object is there, and what was there before it stays.
use greatsql_operator.Prelude.{◌≡◌}
use greatsql_operator.Prelude.Steps.{◌>>◌, pure}
use greatsql_operator.Api.Meta.{Key}
use greatsql_operator.Kube.Objects.{Kind, Obj, meta_of, key_of}
use greatsql_operator.Kube.Platform.{Reply, done, failed, Platform, request}
use greatsql_operator.Kube.Ensures.{Answered, Ensures, Ensures-pure, Ensures-request, Ensures-bind}
use greatsql_operator.Kube.Presence.{Stable, Persists}

-- What a reply has shown of the world.
abbrev pub Shown : {W A : Type 0} → (W → Type 0) → Reply A → W → Type 0
Shown G (done _) w = G w
Shown G (failed _) w = Unit

pub Shown-Answered :
    {W A : Type 0} (F G : W → Type 0) (r : Reply A × W)
    → F r.1
    → Answered (λ _. G) (λ _. Unit) r
    → F r.1 × Shown G r.0 r.1
Shown-Answered F G (done a, w) f h = (f, h)
Shown-Answered F G (failed e, w) f h = (f, tt)

pub Answered-kept :
    {W A : Type 0} (F : W → Type 0) (r : Reply A × W) → F r.1 → Answered (λ _. F) (λ _. Unit) r
Answered-kept F (done a, w) f = f
Answered-kept F (failed e, w) f = tt

pub Answered-both :
    {W A : Type 0} (F G : W → Type 0) (r : Reply A × W)
    → F r.1
    → Answered (λ _. G) (λ _. Unit) r
    → Answered (λ _ w. F w × G w) (λ _. Unit) r
Answered-both F G (done a, w) f h = (f, h)
Answered-both F G (failed e, w) f h = tt

module _ {W : Type 0} (p : Platform W) (Has : W → Kind → Key → Type 0) (laws : Persists p Has) where
  pub create-Present :
      (F : W → Type 0) (stable : Stable p F) (k : Kind) (o : Obj k)
      → Ensures F (request (p.create k o)) (λ _ w. F w × Has w k (key_of (meta_of k o))) (λ _. Unit)
  create-Present F stable k o = Ensures-request (p.create k o) λ w f.
      Answered-both F (λ v. Has v k (key_of (meta_of k o))) (p.create k o w)
        (stable.under_create k o w f) (laws.created k o w)

  pub send-Present :
      (F : W → Type 0) (stable : Stable p F) (k : Kind) (key : Key) (o : Obj k)
      → key_of (meta_of k o) ≡ key
      → Ensures F (request (p.create k o) >> pure tt) (λ _ w. F w × Has w k key) (λ _. Unit)
  send-Present F stable k key o same =
      rw (← same) (Ensures-bind (create-Present F stable k o) λ _. Ensures-pure tt (λ w h. h))
