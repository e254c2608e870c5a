-- ===== src/Controller/Single/Scope/Creation.antt =====
-- The requests of `createResources`.
use Prim.Native.String.{◌++◌}
use greatsql_operator.Prelude.{refl, ◌∙◌}
use greatsql_operator.Prelude.Int.{pos}
use greatsql_operator.Prelude.Steps.{pure}
use greatsql_operator.Consts
use greatsql_operator.Api.Meta.{Key}
use greatsql_operator.Api.Instance.{SingleInstance}
use greatsql_operator.Kube.Objects.{
  Kind, Obj, meta_of, key_of, Service, Deployment, config_map, claim, deployment, service,
  instance_kind,
}
use greatsql_operator.Kube.Builders.Plain.{new_config_map, new_service}
use greatsql_operator.Kube.Platform.{Reply, done, failed, Platform, request}
use greatsql_operator.Kube.Keeps.{
  Keeps, OnDone-any, KeepsKeys, Keeps-pure, Keeps-lift, Keeps-request, Keeps-attempt, Keeps-bind,
}
use greatsql_operator.Controller.Single.Create.{
  config_map_for, create_config_map, create_persistent_volume_claim, create_deployment,
  update_status, service_for, create_service, create_all, create_resources,
}
use greatsql_operator.Controller.Single.Order.{new_persistent_volume_claim-key, new_deployment-key}
use greatsql_operator.Controller.Single.Scope.{Own, KeptByWrites, Of}

module _ {W : Type 0} (p : Platform W) (keys : KeepsKeys p) (req : Key) (I : W → Type 0)
    (inv : KeptByWrites p req I) where
  -- An object that a step sends away and does not look at again.
  create-Keeps :
      (k : Kind) (o : Obj k)
      → Own req k (key_of (meta_of k o))
      → Keeps I (request (p.create k o)) (λ _. Unit)
  create-Keeps k o own =
      Keeps-request _ (p.create k o) (inv.under_create k o own) (λ w. OnDone-any (p.create k o w).0)

  create_config_map-Keeps : Keeps I (create_config_map p req) (λ _. Unit)
  unfolding create_config_map config_map_for new_config_map
  create_config_map-Keeps = create-Keeps config_map (config_map_for req) refl

  create_claim-Keeps :
      (s : SingleInstance) → Keeps I (create_persistent_volume_claim p req s) (λ _. Unit)
  unfolding create_persistent_volume_claim
  create_claim-Keeps s = Keeps-bind _ (Keeps-lift _ _ (λ c e. e)) λ c e.
      Keeps-bind _
        (create-Keeps claim c
          (new_persistent_volume_claim-key p req.name req.namespace s.spec.pod_spec c e))
        λ _ _. Keeps-pure _ tt tt

  create_deployment-Keeps :
      (s : SingleInstance) → Of req s → Keeps I (create_deployment p req s) (λ _. Unit)
  unfolding create_deployment
  create_deployment-Keeps s own =
      Keeps-bind _ {M = λ _. Unit} (Keeps-lift _ _ (λ _ _. tt)) λ size _.
        Keeps-bind _ (Keeps-lift _ _ (λ d e. e)) λ d e.
          Keeps-bind _
            (create-Keeps deployment d
              (new_deployment-key p (req.name ++ Consts.config) s size d e ∙ own))
            λ _ _. Keeps-pure _ tt tt

  update_status-Keeps :
      (s : SingleInstance) (svc : Service) → Of req s → Keeps I (update_status p s svc) (Of req)
  unfolding update_status
  update_status-Keeps s svc own =
      Keeps-bind _ {M = λ _. Unit} (Keeps-lift _ _ (λ _ _. tt)) λ point _.
        Keeps-bind _ {M = λ _. Unit} (Keeps-lift _ _ (λ _ _. tt)) λ size _.
          let stated : SingleInstance = record s {
            status = record {
              access_point = point;
              size = size;
              ready = pos 0;
              age = p.time_string svc.meta.creation_timestamp;
              deployment_status = "";
            };
          } in
          Keeps-request _ (p.update_status instance_kind stated) (inv.under_status stated own)
            (λ w. rw (← own) (keys.status_updated instance_kind stated w))

  create_service-Keeps : (s : SingleInstance) → Of req s → Keeps I (create_service p req s) (Of req)
  unfolding create_service service_for new_service
  create_service-Keeps s own =
      Keeps-bind _ (create-Keeps service (service_for p req s) refl)
        λ svc _. update_status-Keeps s svc own

  create_all-Keeps : (s : SingleInstance) → Of req s → Keeps I (create_all p req s) (Of req)
  unfolding create_all
  create_all-Keeps s own = Keeps-bind _ create_config_map-Keeps λ _ _.
      Keeps-bind _ (create_claim-Keeps s)
        λ _ _. Keeps-bind _ (create_deployment-Keeps s own) λ _ _. create_service-Keeps s own

  looked_up-Keeps :
      (s : SingleInstance)
      → Of req s
      → (r : Reply Deployment)
      → Keeps {W = W} {A = SingleInstance} I
          (elim r [ done _ ↦ pure s | failed _ ↦ create_all p req s ])
          (Of req)
  looked_up-Keeps s own (done d) = Keeps-pure _ s own
  looked_up-Keeps s own (failed e) = create_all-Keeps s own

  pub create_resources-Keeps :
      (s : SingleInstance) → Of req s → Keeps I (create_resources p req s) (Of req)
  unfolding create_resources
  create_resources-Keeps s own =
      Keeps-bind _ {M = λ _. Unit}
        (Keeps-attempt _ (p.get deployment req) (inv.under_get deployment req refl) (λ _. tt))
        λ reply _. looked_up-Keeps s own reply
