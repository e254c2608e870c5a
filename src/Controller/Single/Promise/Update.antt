-- ===== src/Controller/Single/Promise/Update.antt =====
-- What `updateResource` leaves behind, where it returns.
use greatsql_operator.Prelude.{String, ◌≡◌}
use greatsql_operator.Prelude.Steps.{fail}
use greatsql_operator.Api.Meta.{Key}
use greatsql_operator.Kube.Objects.{Kind, Obj, meta_of, key_of}
use greatsql_operator.Kube.Platform.{
  Reply, done, failed, not_found, already_exists, conflict, other, wrapped, Platform, request,
}
use greatsql_operator.Kube.Ensures.{
  Ensures, Ensures-pure, Ensures-fail, Ensures-request, Ensures-attempt, Ensures-bind,
}
use greatsql_operator.Kube.Presence.{Stable, Persists, Stable-both}
use greatsql_operator.Kube.Presence.Creating.{Answered-kept, Shown, Shown-Answered}
use greatsql_operator.Controller.Single.Update.{wrap, replace, create_missing, update_resource}

-- Behind a request whose error is put into a text, the answer was a good one.
wrap-Shown :
    {W A : Type 0} (F G : W → Type 0) (text : String) (r : Reply A)
    → Ensures (λ w. F w × Shown G r w) (wrap text r) (λ _ w. F w × G w) (λ _. Unit)
wrap-Shown F G text (done a) = Ensures-pure a (λ w h. h)
wrap-Shown F G text (failed e) = Ensures-fail _ (λ w h. tt)

wrap-kept :
    {W A : Type 0} (F : W → Type 0) (text : String) (r : Reply A)
    → Ensures F (wrap text r) (λ _. F) (λ _. Unit)
wrap-kept F text (done a) = Ensures-pure a (λ w h. h)
wrap-kept F text (failed e) = Ensures-fail _ (λ w h. tt)

module _ {W : Type 0} (p : Platform W) (Has : W → Kind → Key → Type 0) (laws : Persists p Has)
    (F : W → Type 0) (stable : Stable p F) where
  update-kept :
      (G : W → Type 0) (g : Stable p G) (k : Kind) (o : Obj k)
      → Ensures G (request (p.update k o)) (λ _. G) (λ _. Unit)
  update-kept G g k o =
      Ensures-request (p.update k o)
        λ w h. Answered-kept G (p.update k o w) (g.under_update k o w h)

  replace-kept :
      (G : W → Type 0) (g : Stable p G) (k : Kind) (obj existing : Obj k)
      → Ensures G (replace p k obj existing) (λ _. G) (λ _. Unit)
  unfolding replace
  replace-kept G g k obj existing =
      Ensures-bind {M = λ _. G} (Ensures-attempt _ λ w h. g.under_update k _ w h)
        λ reply. Ensures-bind (wrap-kept G _ reply) λ _. update-kept G g k _

  module _ (k : Kind) (key : Key) where
    present : Stable p (λ w. F w × Has w k key)
    present = Stable-both stable (laws.stable k key)

    create_missing-Present :
        (obj : Obj k)
        → key_of (meta_of k obj) ≡ key
        → Ensures F (create_missing p k obj) (λ _ w. F w × Has w k key) (λ _. Unit)
    unfolding create_missing
    create_missing-Present obj same =
        Ensures-bind {M = λ reply w. F w × Shown (λ v. Has v k key) reply w}
          (Ensures-attempt _ λ w f.
            Shown-Answered F (λ v. Has v k key) (p.create k obj w) (stable.under_create k obj w f)
              (rw (← same) (laws.created k obj w)))
          λ reply.
            Ensures-bind (wrap-Shown F (λ v. Has v k key) _ reply)
              λ _. update-kept (λ w. F w × Has w k key) present k obj

    looked_up-Present :
        (obj : Obj k)
        → key_of (meta_of k obj) ≡ key
        → (r : Reply (Obj k))
        → Ensures {W = W} {A = Obj k}
            (λ w. F w × Shown (λ v. Has v k key) r w)
            (elim r [
              | done existing ↦ replace p k obj existing
              | failed not_found ↦ create_missing p k obj
              | failed e ↦ fail (wrapped "could not get resource" e)
            ])
            (λ _ w. F w × Has w k key)
            (λ _. Unit)
    looked_up-Present obj same (done existing) =
        replace-kept (λ w. F w × Has w k key) present k obj existing
    looked_up-Present obj same (failed not_found) = record {
      at = λ w h. (create_missing-Present obj same).at w h.0;
    }
    looked_up-Present obj same (failed already_exists) = Ensures-fail _ (λ w h. tt)
    looked_up-Present obj same (failed conflict) = Ensures-fail _ (λ w h. tt)
    looked_up-Present obj same (failed (other m)) = Ensures-fail _ (λ w h. tt)

    -- Where `updateResource` returns, its object is there, and what requests keep is as it was.
    pub update_resource-Present :
        (obj : Obj k)
        → key_of (meta_of k obj) ≡ key
        → Ensures F (update_resource p k key obj) (λ _ w. F w × Has w k key) (λ _. Unit)
    unfolding update_resource
    update_resource-Present obj same =
        Ensures-bind {M = λ reply w. F w × Shown (λ v. Has v k key) reply w}
          (Ensures-attempt _ λ w f.
            Shown-Answered F (λ v. Has v k key) (p.get k key w) (stable.under_get k key w f)
              (laws.got k key w))
          λ reply. looked_up-Present obj same reply
