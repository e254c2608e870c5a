-- ===== src/Controller/Single/Promise/Establish.antt =====
-- What is there when `Reconcile` has returned.
use Prim.Native.String.{◌++◌}
use greatsql_operator.Prelude.{refl, ◌∙◌}
use greatsql_operator.Prelude.Steps.{◌>>◌}
use greatsql_operator.Consts
use greatsql_operator.Api.Meta.{Key}
use greatsql_operator.Api.Instance.{SingleInstance}
use greatsql_operator.Kube.Objects.{Kind, config_map, deployment, service}
use greatsql_operator.Kube.Builders.Plain.{new_config_map, new_service}
use greatsql_operator.Kube.Platform.{Platform}
use greatsql_operator.Kube.Ensures.{
  Ensures, Ensures-pure, Ensures-lift, Ensures-bind, Ensures-within, Ensures-given,
}
use greatsql_operator.Kube.Presence.{Persists, Stable, Stable-any, Stable-both}
use greatsql_operator.Kube.Keeps.{KeepsKeys, Keeps-then}
use greatsql_operator.Controller.Single.{reconcile}
use greatsql_operator.Controller.Single.Create.{config_map_for, service_for}
use greatsql_operator.Controller.Single.Order.{new_deployment-key}
use greatsql_operator.Controller.Single.Update.{
  update_deployment, update_service, update_config_map, watch_resource,
}
use greatsql_operator.Controller.Single.Scope.{
  updates_of, cleanup_of, KeptByWrites, KeptInScope, Of,
}
use greatsql_operator.Controller.Single.Scope.Creation.{create_resources-Keeps}
use greatsql_operator.Controller.Single.Scope.Update.{update_spec_annotation-Keeps}
use greatsql_operator.Controller.Single.Scope.Reconcile.{
  get_single_instance-Keeps, handle_finalizer-Keeps, validate_and_add_finalizer-Keeps,
}
use greatsql_operator.Controller.Single.Promise.{Established}
use greatsql_operator.Controller.Single.Promise.Update.{update_resource-Present}

-- The updates, on any platform.
module _ {W : Type 0} (p : Platform W) (Has : W → Kind → Key → Type 0) (laws : Persists p Has)
    (req : Key) where
  update_deployment-Present :
      (s : SingleInstance)
      → Of req s
      → Ensures (λ _. Unit) (update_deployment p req s) (λ _ w. Has w deployment req) (λ _. Unit)
  unfolding update_deployment
  update_deployment-Present s own =
      Ensures-bind {M = λ _ _. Unit} (Ensures-lift _ (λ _ _ _ _. tt) (λ _ _. tt)) λ size.
        Ensures-bind (Ensures-lift _ (λ d e _ _. e) (λ _ _. tt)) λ d. Ensures-given λ e.
          Ensures-bind
            (update_resource-Present p Has laws (λ _. Unit) Stable-any deployment req d
              (new_deployment-key p (req.name ++ Consts.config) s size d e ∙ own))
            λ _. Ensures-pure tt (λ w h. h.1)

  module _ (F : W → Type 0) (stable : Stable p F) where
    update_service-Present :
        (s : SingleInstance)
        → Ensures F (update_service p req s) (λ _ w. F w × Has w service req) (λ _. Unit)
    unfolding update_service service_for new_service
    update_service-Present s =
        Ensures-bind
          (update_resource-Present p Has laws F stable service req (service_for p req s) refl)
          λ _. Ensures-pure tt (λ w h. h)

    update_config_map-Present :
        Ensures F
          (update_config_map p req)
          (λ _ w. F w × Has w config_map (record req { name = req.name ++ "-config" }))
          (λ _. Unit)
    unfolding update_config_map config_map_for new_config_map
    update_config_map-Present =
        Ensures-bind
          (update_resource-Present p Has laws F stable config_map
            (record req { name = req.name ++ "-config" }) (config_map_for req) refl)
          λ _. Ensures-pure tt (λ w h. h)

  updates-Established :
      (s : SingleInstance)
      → Of req s
      → Ensures
          (λ _. Unit)
          (do update_deployment p req s; update_service p req s; update_config_map p req)
          (λ _. Established Has req)
          (λ _. Unit)
  updates-Established s own =
      let deployed = laws.stable deployment req in
      Ensures-bind (update_deployment-Present s own) λ _.
        Ensures-bind (update_service-Present _ deployed s) λ _.
          Ensures-within (λ w h. h) (λ _ w h. (h.0.0, h.0.1, h.1)) (λ _ h. h)
            (update_config_map-Present _ (Stable-both deployed (laws.stable service req)))

writes_any : {W : Type 0} {p : Platform W} {req : Key} → KeptByWrites p req (λ _. Unit)
writes_any = record {
  under_get = λ k key own w h. tt;
  under_create = λ k o own w h. tt;
  under_update = λ k o own w h. tt;
  under_status = λ s own w h. tt;
  under_event = λ t r m w h. tt;
}

scope_any : {W : Type 0} {p : Platform W} {req : Key} → KeptInScope p req (λ _. Unit)
scope_any = record { writes = writes_any; under_delete = λ k key own w h. tt }

module _ {W : Type 0} (p : Platform W) (keys : KeepsKeys p) (Has : W → Kind → Key → Type 0)
    (laws : Persists p Has) (req : Key) where
  watch_resource-Established :
      (s : SingleInstance)
      → Of req s
      → Ensures (λ _. Unit) (watch_resource p req s) (λ _. Established Has req) (λ _. Unit)
  unfolding watch_resource
  watch_resource-Established s own =
      Keeps-then _ (update_spec_annotation-Keeps p keys req (λ _. Unit) writes_any s own)
        λ annotated own'.
          Ensures-within (λ _ _. tt) (λ _ x h. h) (λ _ h. h)
            (updates-Established p Has laws req annotated own')

  -- On a server that keeps what it holds and whose replies keep the names, where nobody else deletes,
  -- `Reconcile` returns without an error only if the deployment and the service of the request's name
  -- and its configuration "<name>-config" are there.
  pub reconcile-Established :
      Ensures (λ _. Unit) (reconcile p req) (λ _. Established Has req) (λ _. Unit)
  unfolding reconcile
  reconcile-Established =
      Keeps-then _ (get_single_instance-Keeps p keys req (λ _. Unit) (updates_of writes_any))
        λ found known.
          Keeps-then _
            (handle_finalizer-Keeps p keys req (λ _. Unit) (cleanup_of scope_any) found known)
            λ cleaned known'.
              Keeps-then _
                (validate_and_add_finalizer-Keeps p keys req (λ _. Unit) (updates_of writes_any)
                  cleaned known')
                λ valid own.
                  Keeps-then _ (create_resources-Keeps p keys req (λ _. Unit) writes_any valid own)
                    λ created own'. watch_resource-Established created own'
