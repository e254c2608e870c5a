-- ===== src/Controller/Single/Promise/Creation.antt =====
-- What `createResources` leaves behind for an instance without a deployment.
use Prim.Native.String.{◌++◌}
use greatsql_operator.Consts
use greatsql_operator.Api.Meta.{Key}
use greatsql_operator.Api.Instance.{SingleInstance}
use greatsql_operator.Kube.Objects.{
  Kind, Service, config_map, claim, deployment, service, instance_kind,
}
use greatsql_operator.Kube.Builders.Plain.{new_config_map}
use greatsql_operator.Kube.Platform.{Platform}
use greatsql_operator.Kube.Ensures.{
  Ensures, Ensures-pure, Ensures-lift, Ensures-request, Ensures-bind, Ensures-within,
  Ensures-lift-bind,
}
use greatsql_operator.Kube.Presence.Creating.{Answered-kept, create-Present, send-Present}
use greatsql_operator.Kube.Presence.{Persists, Stable, Stable-any}
use greatsql_operator.Controller.Single.Order.{new_persistent_volume_claim-key}
use greatsql_operator.Controller.Single.Create.{
  config_map_for, create_config_map, create_persistent_volume_claim, create_deployment,
  update_status, service_for, create_service, create_all,
}
use greatsql_operator.Controller.Single.Promise.{Remains}
use greatsql_operator.Controller.Single.Promise.Kept.{Remains-stable}

module _ {W : Type 0} (p : Platform W) (Has : W → Kind → Key → Type 0) (laws : Persists p Has)
    (req : Key) where
  create_config_map-Present :
      Ensures
        (λ _. Unit)
        (create_config_map p req)
        (λ _ w. Has w config_map (record req { name = req.name ++ "-config" }))
        (λ _. Unit)
  unfolding create_config_map config_map_for new_config_map
  create_config_map-Present =
      Ensures-within (λ w h. h) (λ _ w h. h.1) (λ w h. h)
        (create-Present p Has laws (λ _. Unit) Stable-any config_map (config_map_for req))

  create_claim-Present :
      (s : SingleInstance) (F : W → Type 0)
      → Stable p F
      → Ensures F
          (create_persistent_volume_claim p req s)
          (λ _ w. F w × Has w claim (record req { name = req.name ++ Consts.db }))
          (λ _. Unit)
  unfolding create_persistent_volume_claim
  create_claim-Present s F stable =
      Ensures-lift-bind _ _
        (λ c e.
          send-Present p Has laws F stable claim (record req { name = req.name ++ Consts.db }) c
            (new_persistent_volume_claim-key p req.name req.namespace s.spec.pod_spec c e))
        (λ _ _. tt)

  module _ (s : SingleInstance) (F : W → Type 0) (stable : Stable p F) where
    create_deployment-kept : Ensures F (create_deployment p req s) (λ _. F) (λ _. Unit)
    unfolding create_deployment
    create_deployment-kept =
        Ensures-bind {M = λ _. F} (Ensures-lift _ (λ _ _ w f. f) (λ _ _. tt)) λ size.
          Ensures-bind {M = λ _. F} (Ensures-lift _ (λ _ _ w f. f) (λ _ _. tt)) λ d.
            Ensures-bind (create-Present p Has laws F stable deployment d)
              λ _. Ensures-pure tt (λ w h. h.0)

    update_status-kept : (svc : Service) → Ensures F (update_status p s svc) (λ _. F) (λ _. Unit)
    unfolding update_status
    update_status-kept svc =
        Ensures-bind {M = λ _. F} (Ensures-lift _ (λ _ _ w f. f) (λ _ _. tt)) λ point.
          Ensures-bind {M = λ _. F} (Ensures-lift _ (λ _ _ w f. f) (λ _ _. tt)) λ size.
            Ensures-request _ λ w f. Answered-kept F _ (stable.under_status instance_kind _ w f)

    create_service-kept : Ensures F (create_service p req s) (λ _. F) (λ _. Unit)
    unfolding create_service service_for
    create_service-kept =
        Ensures-bind {M = λ _. F}
          (Ensures-within (λ w h. h) (λ _ w h. h.0) (λ w h. h)
            (create-Present p Has laws F stable service (service_for p req s)))
          update_status-kept

  pub create_all-Remains :
      (s : SingleInstance)
      → Ensures (λ _. Unit) (create_all p req s) (λ _. Remains Has req) (λ _. Unit)
  unfolding create_all
  create_all-Remains s =
      let kept = Remains-stable p Has laws req in
      Ensures-bind create_config_map-Present λ _.
        Ensures-bind (create_claim-Present s _ (laws.stable config_map _))
          λ _. Ensures-bind (create_deployment-kept s _ kept) λ _. create_service-kept s _ kept
