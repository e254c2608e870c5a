-- ===== src/Utils/Finalizer/Cleanup.antt =====
-- What a cleanup asks the API server to delete, and in which order.
use mathlib.Core.List.{◌++◌ as append}
use greatsql_operator.Prelude.{ℕ, zero, suc, ◌+◌, ◌≡◌, refl, ap, true, false, none, some, [], ◌∷◌}
use greatsql_operator.Prelude.Int.{pos_part}
use greatsql_operator.Api.Meta.{Key}
use greatsql_operator.Api.Instance.{SingleInstance, get_size}
use greatsql_operator.Kube.Objects.{
  Kind, claim, deployment, config_map, service, instance_kind, key_of,
}
use greatsql_operator.Kube.Platform.{
  ApiError, failed, not_found, already_exists, conflict, other, Error, Platform,
}
use greatsql_operator.Prelude.Steps.{fail}
use greatsql_operator.Prelude.Plans.{Follows, Follows-pure, Follows-bind}
use greatsql_operator.Prelude.Choices.{Obeys, Obeys-one, Follows-the}
use greatsql_operator.Kube.Trace.{Call, Log, delete_call, update_call}
use greatsql_operator.Kube.Answers.{refused, recorded, Follows-update, Obeys-attempt}
use greatsql_operator.Utils.Finalizer.{
  is_zero, deleted_claim_name, deleted_config_map_name, or_gone, delete_if_there, key_in,
  delete_claims, finalize_persistent_volume_claims, finalize_deployment, finalize_service,
  finalize_config_map, handle_finalizer, has_finalizer, without_finalizer,
}

-- The claims `i`, `i + 1`, …, `n` of them.
unfoldable pub claims_plan : SingleInstance → ℕ → ℕ → Log
claims_plan g zero i = []
claims_plan g (suc n) i =
    delete_call claim
      (record { namespace = g.meta.namespace; name = deleted_claim_name g.meta.name i })
    ∷ claims_plan g n (i + 1)

-- The requests of a cleanup.
unfoldable pub cleanup_plan : SingleInstance → Log
unfolding claims_plan
cleanup_plan g = append (claims_plan g (pos_part (get_size g.spec)) 0) (
    delete_call deployment (key_of g.meta)
    ∷ delete_call service (key_of g.meta)
    ∷ delete_call config_map
        (record { namespace = g.meta.namespace; name = deleted_config_map_name g.meta.name })
    ∷ update_call instance_kind (key_of g.meta)
    ∷ [])

-- An answer that does not stop the cleanup.
or_gone-Obeys :
    {W : Type 0} (k : Kind) (key : Key) (e : ApiError)
    → refused (delete_call k key) e ≡ none
    → Obeys {C = Call} {E = Error} {W = W} (λ q. q ≡ []) (or_gone (failed e))
or_gone-Obeys k key not_found h = Obeys-one [] _ refl (Follows-pure tt)
or_gone-Obeys k key already_exists h = cc
or_gone-Obeys k key conflict h = cc
or_gone-Obeys k key (other m) h = cc

or_gone-stops :
    {W : Type 0} (k : Kind) (key : Key) (e : ApiError) (x : Error)
    → refused (delete_call k key) e ≡ some x
    → or_gone {W = W} (failed e) ≡ fail x
or_gone-stops k key not_found x h = cc
or_gone-stops k key already_exists x h = cc
or_gone-stops k key conflict x h = cc
or_gone-stops k key (other m) x h = cc

module _ {W : Type 0} (p : Platform W) where
  delete_if_there-Follows :
      (k : Kind) (key : Key) → Follows (delete_call k key ∷ []) (delete_if_there (recorded p) k key)
  unfolding delete_if_there
  delete_if_there-Follows k key = Follows-the _ _ (
      Obeys-attempt (delete_call k key) (λ q. q ≡ []) (λ q. q ≡ delete_call k key ∷ [])
        (λ q e. ap (λ l. delete_call k key ∷ l) e) [] refl or_gone
        (λ _. Obeys-one [] _ refl (Follows-pure tt)) (or_gone-Obeys k key) (or_gone-stops k key)
        (p.delete k key))

  delete_claims-Follows :
      (g : SingleInstance) (n i : ℕ)
      → Follows (claims_plan g n i) (delete_claims (recorded p) g n i)
  unfolding delete_claims claims_plan
  delete_claims-Follows g zero i = Follows-pure tt
  delete_claims-Follows g (suc n) i =
      Follows-bind _ _ _ (λ _. delete_claims-Follows g n (i + 1)) _
        (delete_if_there-Follows claim (key_in p g (deleted_claim_name g.meta.name i)))

  -- For an instance that is being deleted and holds the finalizer, `HandleFinalizer` sends the
  -- deletions of the claims 0 to size - 1, of the deployment, the service and the configuration, and
  -- then the update of the instance, and nothing else. It returns only if it has sent them all, and none
  -- was refused but for a deletion of an object that is not there; where another error is the answer,
  -- that request is the last, and the cleanup fails with its error.
  pub handle_finalizer-Follows :
      (g : SingleInstance)
      → is_zero g.meta.deletion_timestamp ≡ false
      → has_finalizer p g ≡ true
      → Follows (cleanup_plan g) (handle_finalizer (recorded p) g)
  unfolding handle_finalizer cleanup_plan finalize_persistent_volume_claims finalize_deployment
      finalize_service finalize_config_map
  handle_finalizer-Follows g dying held =
      rw (dying, held)
        (Follows-bind _ _ _
          (λ _.
            Follows-bind _ _ _
              (λ _.
                Follows-bind _ _ _
                  (λ _.
                    Follows-bind _ _ _ (λ _. Follows-update p instance_kind (without_finalizer p g))
                      _ (delete_if_there-Follows config_map _))
                  _ (delete_if_there-Follows service _))
              _ (delete_if_there-Follows deployment _))
          _ (delete_claims-Follows g _ 0))
