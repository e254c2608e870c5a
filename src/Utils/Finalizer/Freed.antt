-- ===== src/Utils/Finalizer/Freed.antt =====
-- The cleanup comes to its end, on a server that answers.
use greatsql_operator.Prelude.{
  ℕ, zero, suc, ◌+◌, String, List, ◌≡◌, ◌∙◌, ap, true, false, ◌⊎◌, inl, inr, ok,
}
use greatsql_operator.Consts
use greatsql_operator.Api.Meta.{Key}
use greatsql_operator.Api.Instance.{SingleInstance}
use greatsql_operator.Kube.Objects.{Kind, claim, deployment, service, config_map, instance_kind}
use greatsql_operator.Kube.Platform.{Reply, done, failed, not_found, Platform}
use greatsql_operator.Kube.Ensures.{
  Answered, Ensures, Ensures-pure, Ensures-request, Ensures-attempt, Ensures-bind, Answered-done,
  Met-returns,
}
use greatsql_operator.Utils.Finalizer.{
  is_zero, or_gone, delete_if_there, delete_claims, finalize_persistent_volume_claims,
  finalize_deployment, finalize_service, finalize_config_map, handle_finalizer, has_finalizer,
  without_finalizer,
}

-- A server that deletes what it is asked to delete, if it holds it, and stores an instance with the
-- finalizers that it is sent; and a removal of a finalizer from a list, after which it does not hold it.
pub record LetsGo {W : Type 0} (p : Platform W) : Type 0 where
  pub deletes :
      (k : Kind) (key : Key) (w : W)
      → ((p.delete k key w).0 ≡ done tt) ⊎ ((p.delete k key w).0 ≡ failed not_found)
  pub stores :
      (g : SingleInstance) (w : W)
      → (g' : SingleInstance) × ((p.update instance_kind g w).0 ≡ done g')
        × (g'.meta.finalizers ≡ g.meta.finalizers)
  pub removes :
      (fs : List String) (f : String) → p.contains_finalizer (p.remove_finalizer fs f) f ≡ false

or_gone-returns :
    {W : Type 0} (r : Reply (Unit {0}))
    → (r ≡ done tt) ⊎ (r ≡ failed not_found)
    → Ensures {W = W} (λ _. Unit) (or_gone r) (λ _ _. Unit) (λ _. ⊥)
or_gone-returns r (inl e) = rw e (Ensures-pure tt (λ w h. tt))
or_gone-returns r (inr e) = rw e (Ensures-pure tt (λ w h. tt))

module _ {W : Type 0} (p : Platform W) (laws : LetsGo p) where
  delete_if_there-returns :
      (k : Kind) (key : Key) → Ensures (λ _. Unit) (delete_if_there p k key) (λ _ _. Unit) (λ _. ⊥)
  unfolding delete_if_there
  delete_if_there-returns k key =
      Ensures-bind {M = λ r _. (r ≡ done tt) ⊎ (r ≡ failed not_found)}
        (Ensures-attempt _ (λ w _. laws.deletes k key w))
        λ r. record { at = λ w answer. (or_gone-returns r answer).at w tt }

  delete_claims-returns :
      (g : SingleInstance) (n i : ℕ)
      → Ensures (λ _. Unit) (delete_claims p g n i) (λ _ _. Unit) (λ _. ⊥)
  unfolding delete_claims
  delete_claims-returns g zero i = Ensures-pure tt (λ w h. tt)
  delete_claims-returns g (suc n) i =
      Ensures-bind (delete_if_there-returns claim _) λ _. delete_claims-returns g n (i + 1)

  stored-free :
      (g : SingleInstance) (w : W)
      → Answered {W = W}
          (λ g' _. has_finalizer p g' ≡ false)
          (λ _. ⊥)
          (p.update instance_kind (without_finalizer p g) w)
  stored-free g w =
      let (g', answered, kept) = laws.stores (without_finalizer p g) w in
      Answered-done (λ h. has_finalizer p h ≡ false) (λ _. ⊥)
        (p.update instance_kind (without_finalizer p g) w) g' answered
        (ap (λ fs. p.contains_finalizer fs Consts.greatsql_finalizer) kept
          ∙ laws.removes g.meta.finalizers Consts.greatsql_finalizer)

  cleanup-returns :
      (g : SingleInstance)
      → is_zero g.meta.deletion_timestamp ≡ false
      → has_finalizer p g ≡ true
      → Ensures (λ _. Unit) (handle_finalizer p g) (λ g' _. has_finalizer p g' ≡ false) (λ _. ⊥)
  unfolding handle_finalizer finalize_persistent_volume_claims finalize_deployment finalize_service
      finalize_config_map
  cleanup-returns g dying held =
      rw (dying, held)
        (Ensures-bind (delete_claims-returns g _ 0) λ _.
          Ensures-bind (delete_if_there-returns deployment _) λ _.
            Ensures-bind (delete_if_there-returns service _) λ _.
              Ensures-bind (delete_if_there-returns config_map _)
                λ _. Ensures-request _ (λ w _. stored-free g w))

  -- On a server that answers a deletion with success or with "not found" and stores the instance, the
  -- cleanup of an instance that is being deleted and holds the finalizer returns, and the instance that
  -- it returns no longer holds it.
  pub handle_finalizer-frees :
      (g : SingleInstance) (w : W)
      → is_zero g.meta.deletion_timestamp ≡ false
      → has_finalizer p g ≡ true
      → (g' : SingleInstance) × ((handle_finalizer p g w).0 ≡ ok g') × (has_finalizer p g' ≡ false)
  handle_finalizer-frees g w dying held =
      Met-returns (λ g'. has_finalizer p g' ≡ false) (handle_finalizer p g w)
        ((cleanup-returns g dying held).at w tt)
