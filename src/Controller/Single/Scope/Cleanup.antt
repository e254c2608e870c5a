-- ===== src/Controller/Single/Scope/Cleanup.antt =====
-- The requests of the cleanup and of the finalizer.
use greatsql_operator.Prelude.{ℕ, zero, suc, ◌+◌, refl, Bool-cases, inl, inr}
use greatsql_operator.Prelude.Steps.{◌>>=◌}
use greatsql_operator.Api.Meta.{Key}
use greatsql_operator.Api.Instance.{SingleInstance}
use greatsql_operator.Kube.Objects.{Kind, config_map, claim, deployment, service, instance_kind}
use greatsql_operator.Kube.Platform.{
  Reply, done, failed, not_found, already_exists, conflict, other, Platform, request,
}
use greatsql_operator.Kube.Keeps.{
  Keeps, KeepsKeys, Keeps-pure, Keeps-fail, Keeps-request, Keeps-attempt, Keeps-bind,
}
use greatsql_operator.Utils.Finalizer.{
  is_zero, deleted_config_map_name, or_gone, delete_if_there, key_in, delete_claims,
  finalize_persistent_volume_claims, finalize_deployment, finalize_service, finalize_config_map,
  handle_finalizer, add_finalizer, remove_finalizer, has_finalizer, without_finalizer,
  with_finalizer,
}
use greatsql_operator.Controller.Single.Scope.{Cleaned, KeptByUpdates, KeptByCleanup, Of}

module _ {W : Type 0} (p : Platform W) (keys : KeepsKeys p) (req : Key) (I : W → Type 0)
    (inv : KeptByUpdates p req I) where
  pub update_instance-Keeps :
      (g : SingleInstance) → Of req g → Keeps I (request (p.update instance_kind g)) (Of req)
  update_instance-Keeps g own =
      Keeps-request _ (p.update instance_kind g) (inv.under_update instance_kind g own)
        (λ w. rw (← own) (keys.updated instance_kind g w))

  pub add_finalizer-Keeps : (g : SingleInstance) → Of req g → Keeps I (add_finalizer p g) (Of req)
  unfolding add_finalizer
  add_finalizer-Keeps g own = elim (Bool-cases (has_finalizer p g)) [
    | inl held ↦ rw held (Keeps-pure _ g own)
    | inr freed ↦ rw freed (update_instance-Keeps (with_finalizer p g) own)
  ]

  remove_finalizer-Keeps : (g : SingleInstance) → Of req g → Keeps I (remove_finalizer p g) (Of req)
  unfolding remove_finalizer
  remove_finalizer-Keeps g own = elim (Bool-cases (has_finalizer p g)) [
    | inl held ↦ rw held (update_instance-Keeps (without_finalizer p g) own)
    | inr freed ↦ rw freed (Keeps-pure _ g own)
  ]

module _ {W : Type 0} (p : Platform W) (keys : KeepsKeys p) (req : Key) (I : W → Type 0)
    (inv : KeptByCleanup p req I) where
  or_gone-Keeps : (r : Reply (Unit {0})) → Keeps I (or_gone r) (λ _. Unit)
  or_gone-Keeps (done _) = Keeps-pure _ tt tt
  or_gone-Keeps (failed not_found) = Keeps-pure _ tt tt
  or_gone-Keeps (failed already_exists) = Keeps-fail _ _
  or_gone-Keeps (failed conflict) = Keeps-fail _ _
  or_gone-Keeps (failed (other m)) = Keeps-fail _ _

  delete_if_there-Keeps :
      (k : Kind) (key : Key) → Cleaned req k key → Keeps I (delete_if_there p k key) (λ _. Unit)
  unfolding delete_if_there
  delete_if_there-Keeps k key h =
      Keeps-bind _ {M = λ _. Unit}
        (Keeps-attempt _ (p.delete k key) (inv.under_delete k key h) (λ _. tt))
        (λ r _. or_gone-Keeps r)

  delete_claims-Keeps :
      (g : SingleInstance) (n i : ℕ) → Of req g → Keeps I (delete_claims p g n i) (λ _. Unit)
  unfolding delete_claims
  delete_claims-Keeps g zero i own = Keeps-pure _ tt tt
  delete_claims-Keeps g (suc n) i own =
      Keeps-bind _ (delete_if_there-Keeps claim _ (i, rw (← own) refl))
        (λ _ _. delete_claims-Keeps g n (i + 1) own)

  finalize_config_map-Keeps :
      (g : SingleInstance) → Of req g → Keeps I (finalize_config_map p g) (λ _. Unit)
  unfolding finalize_config_map
  finalize_config_map-Keeps g own =
      delete_if_there-Keeps config_map (key_in p g (deleted_config_map_name g.meta.name))
        (rw (← own) refl)

  pub cleanup-Keeps : (g : SingleInstance) → Of req g → Keeps I (handle_finalizer p g) (Of req)
  unfolding handle_finalizer finalize_persistent_volume_claims finalize_deployment finalize_service
  cleanup-Keeps g own = elim (Bool-cases (is_zero g.meta.deletion_timestamp)) [
    | inl live ↦ rw live (Keeps-pure _ g own)
    | inr dying ↦ elim (Bool-cases (has_finalizer p g)) [
      | inr freed ↦ rw (dying, freed) (Keeps-pure _ g own)
      | inl held ↦
          rw (dying, held)
            (Keeps-bind _ (delete_claims-Keeps g _ 0 own) λ _ _.
              Keeps-bind _ (delete_if_there-Keeps deployment _ own) λ _ _.
                Keeps-bind _ (delete_if_there-Keeps service _ own) λ _ _.
                  Keeps-bind _ (finalize_config_map-Keeps g own) λ _ _.
                    update_instance-Keeps p keys req I inv.updates (without_finalizer p g) own)
    ]
  ]

  -- The body of the `if` of the controller's `handleFinalizer`.
  pub release-Keeps :
      (g : SingleInstance)
      → Of req g
      → Keeps I
          (do
            cleaned ← handle_finalizer p g
            freed ← remove_finalizer p cleaned
            request (p.update instance_kind freed))
          (Of req)
  release-Keeps g own = Keeps-bind _ (cleanup-Keeps g own) λ cleaned own'.
      Keeps-bind _ (remove_finalizer-Keeps p keys req I inv.updates cleaned own')
        (update_instance-Keeps p keys req I inv.updates)
