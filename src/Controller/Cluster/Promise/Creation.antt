-- ===== src/Controller/Cluster/Promise/Creation.antt =====
-- What `createResources` of a cluster leaves behind, one object at a time.
use Prim.Native.String.{◌++◌}
use greatsql_operator.Prelude.{ℕ, ◌≡◌, refl, ◌∙◌}
use greatsql_operator.Prelude.Int.{pos}
use greatsql_operator.Prelude.Decimal.{print}
use greatsql_operator.Prelude.Steps.{pure, fail}
use greatsql_operator.Consts
use greatsql_operator.Api.Meta.{Key}
use greatsql_operator.Api.Cluster.{GroupReplicationCluster}
use greatsql_operator.Kube.Objects.{
  Kind, key_of, ConfigMap, config_map, claim, secret, stateful_set, service,
}
use greatsql_operator.Kube.Builders.Plain.{new_config_map, new_service, new_secret_env}
use greatsql_operator.Kube.Platform.{
  Reply, done, failed, not_found, already_exists, conflict, other, api, Platform,
}
use greatsql_operator.Kube.Ensures.{
  Ensures, Ensures-pure, Ensures-fail, Ensures-lift, Ensures-attempt, Ensures-bind,
  Ensures-lift-bind,
}
use greatsql_operator.Kube.Presence.{Persists, Stable}
use greatsql_operator.Kube.Presence.Creating.{Shown, Shown-Answered, send-Present}
use greatsql_operator.Controller.Cluster.{
  config_map_name, headless_name, pod_of, create_secret, create_new_config_map, create_config_map,
  create_persistent_volume_claim, create_stateful_set, create_service,
}
use greatsql_operator.Controller.Cluster.Order.{config_key, claim_key}
use greatsql_operator.Controller.Cluster.Scope.Creation.{
  new_stateful_set-key, new_persistent_volume_claim-namespace,
}

module _ {W : Type 0} (p : Platform W) (Has : W → Kind → Key → Type 0) (laws : Persists p Has)
    (req : Key) (mgr : GroupReplicationCluster) (F : W → Type 0) (stable : Stable p F) where
  pod_of-kept : Ensures F (pod_of p mgr) (λ _. F) (λ _. Unit)
  unfolding pod_of
  pod_of-kept =
      Ensures-bind {M = λ _. F} (Ensures-lift _ (λ _ _ w f. f) (λ _ _. tt))
        λ cluster. Ensures-lift _ (λ _ _ w f. f) (λ _ _. tt)

  pub create_secret-Present :
      Ensures F
        (create_secret p req mgr)
        (λ _ w. F w × Has w secret (record req { name = req.name ++ "-secret" }))
        (λ _. Unit)
  unfolding create_secret new_secret_env
  create_secret-Present = Ensures-bind pod_of-kept λ pod.
      Ensures-lift-bind _ _
        (λ container _.
          send-Present p Has laws F stable secret (record req { name = req.name ++ "-secret" }) _
            refl)
        (λ _ _. tt)

  pub create_service-Present :
      Ensures F
        (create_service p req mgr)
        (λ _ w. F w × Has w service (record req { name = headless_name req }))
        (λ _. Unit)
  unfolding create_service new_service
  create_service-Present =
      Ensures-lift-bind _ _
        (λ cluster _.
          send-Present p Has laws F stable service (record req { name = headless_name req }) _ refl)
        (λ _ _. tt)

  module _ (i : ℕ) where
    create_new_config_map-Present :
        Ensures F
          (create_new_config_map p req mgr i)
          (λ _ w. F w × Has w config_map (config_key req i))
          (λ _. Unit)
    unfolding create_new_config_map new_config_map
    create_new_config_map-Present = Ensures-bind pod_of-kept λ pod.
        Ensures-lift-bind _ _
          (λ container _.
            Ensures-bind {M = λ _. F} (record { at = λ w f. stable.under_uuid w f })
              λ uuid. send-Present p Has laws F stable config_map (config_key req i) _ refl)
          (λ _ _. tt)

    pub create_claim-Present :
        Ensures F
          (create_persistent_volume_claim p req mgr i)
          (λ _ w. F w × Has w claim (claim_key req i))
          (λ _. Unit)
    unfolding create_persistent_volume_claim
    create_claim-Present = Ensures-bind pod_of-kept λ pod.
        Ensures-lift-bind _ _
          (λ c e.
            let name = req.name ++ ("-" ++ (Consts.db ++ ("-" ++ print i))) in
            send-Present p Has laws F stable claim (claim_key req i)
              (record c { meta = record c.meta { name = name } })
              (rw (new_persistent_volume_claim-namespace p req.name req.namespace pod c e) refl))
          (λ _ _. tt)

    pub create_stateful_set-Present :
        key_of mgr.meta ≡ req
        → Ensures F
            (create_stateful_set p req mgr i)
            (λ _ w. F w × Has w stateful_set req)
            (λ _. Unit)
    unfolding create_stateful_set
    create_stateful_set-Present own =
        Ensures-lift-bind _ _
          (λ s e.
            Ensures-lift-bind _ _
              (λ containers _.
                send-Present p Has laws F stable stateful_set req
                  (record s { template = record s.template { containers = containers } })
                  (new_stateful_set-key p (config_map_name req i) (headless_name req) mgr (pos i) s
                      e
                    ∙ own))
              (λ _ _. tt))
          (λ _ _. tt)

    looked_up-Present :
        (r : Reply ConfigMap)
        → Ensures {W = W} {A = Unit {0}}
            (λ w. F w × Shown (λ v. Has v config_map (config_key req i)) r w)
            (elim r [
              | done _ ↦ pure tt
              | failed not_found ↦ create_new_config_map p req mgr i
              | failed e ↦ fail (api e)
            ])
            (λ _ w. F w × Has w config_map (config_key req i))
            (λ _. Unit)
    looked_up-Present (done m) = Ensures-pure tt (λ w h. h)
    looked_up-Present (failed not_found) = record {
      at = λ w h. create_new_config_map-Present.at w h.0;
    }
    looked_up-Present (failed already_exists) = Ensures-fail _ (λ w h. tt)
    looked_up-Present (failed conflict) = Ensures-fail _ (λ w h. tt)
    looked_up-Present (failed (other m)) = Ensures-fail _ (λ w h. tt)

    pub create_config_map-Present :
        Ensures F
          (create_config_map p req mgr i)
          (λ _ w. F w × Has w config_map (config_key req i))
          (λ _. Unit)
    unfolding create_config_map
    create_config_map-Present =
        let key : Key = config_key req i in
        Ensures-bind {M = λ reply w. F w × Shown (λ v. Has v config_map key) reply w}
          (Ensures-attempt _ λ w f.
            Shown-Answered F (λ v. Has v config_map key) (p.get config_map key w)
              (stable.under_get config_map key w f) (laws.got config_map key w))
          looked_up-Present
