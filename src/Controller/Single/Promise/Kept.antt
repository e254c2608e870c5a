-- ===== src/Controller/Single/Promise/Kept.antt =====
-- No request of a reconciliation takes away the configuration and the claim that were created.
use greatsql_operator.Prelude.{refl, ap, sym, ◌∙◌, inl, inr}
use greatsql_operator.Api.Meta.{Key}
use greatsql_operator.Kube.Objects.{
  Kind, config_map, claim, secret, deployment, stateful_set, service, instance_kind, cluster_kind,
}
use greatsql_operator.Kube.Builders.Names.{append-ne, literals}
use greatsql_operator.Kube.Platform.{Platform}
use greatsql_operator.Kube.Presence.{Stable, Persists, Stable-both}
use greatsql_operator.Utils.Finalizer.{deleted_config_map_name}
use greatsql_operator.Controller.Single.Names.{claim_name-ne}
use greatsql_operator.Controller.Single.Scope.{Cleaned, KeptInScope}
use greatsql_operator.Controller.Single.Promise.{Remains}

module _ {W : Type 0} (p : Platform W) (Has : W → Kind → Key → Type 0) (laws : Persists p Has)
    (req : Key) where
  pub Remains-stable : Stable p (Remains Has req)
  Remains-stable = Stable-both (laws.stable config_map _) (laws.stable claim _)

  -- The two objects are apart from each one that the cleanup deletes.
  Cleaned-kept :
      (k : Kind) (key : Key)
      → Cleaned req k key
      → (w : W) → Remains Has req w
      → Remains Has req (p.delete k key w).1
  unfolding deleted_config_map_name
  Cleaned-kept config_map key same w h = (
    laws.deleted config_map config_map _ key w
        (inr (λ e.
          append-ne req.name "-config" "config" (literals refl)
            (ap (λ other. other.name) (e ∙ same))))
        h.0,
    laws.deleted claim config_map _ key w (inl (λ e. cc)) h.1,
  )
  Cleaned-kept claim key (i, same) w h = (
    laws.deleted config_map claim _ key w (inl (λ e. cc)) h.0,
    laws.deleted claim claim _ key w
        (inr (λ e. claim_name-ne req.name i (sym (ap (λ other. other.name) (e ∙ same))))) h.1,
  )
  Cleaned-kept deployment key same w h = (
    laws.deleted config_map deployment _ key w (inl (λ e. cc)) h.0,
    laws.deleted claim deployment _ key w (inl (λ e. cc)) h.1,
  )
  Cleaned-kept service key same w h = (
    laws.deleted config_map service _ key w (inl (λ e. cc)) h.0,
    laws.deleted claim service _ key w (inl (λ e. cc)) h.1,
  )
  Cleaned-kept instance_kind key no_way w h = absurd no_way
  Cleaned-kept secret key no_way w h = absurd no_way
  Cleaned-kept stateful_set key no_way w h = absurd no_way
  Cleaned-kept cluster_kind key no_way w h = absurd no_way

  pub Remains-KeptInScope : KeptInScope p req (Remains Has req)
  Remains-KeptInScope = record {
    writes = record {
      under_get = λ k key own w h. Remains-stable.under_get k key w h;
      under_create = λ k o own w h. Remains-stable.under_create k o w h;
      under_update = λ k o own w h. Remains-stable.under_update k o w h;
      under_status = λ s own w h. Remains-stable.under_status instance_kind s w h;
      under_event = λ t r m w h. Remains-stable.under_event t r m w h;
    };
    under_delete = Cleaned-kept;
  }
