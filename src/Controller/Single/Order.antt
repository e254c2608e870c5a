-- ===== src/Controller/Single/Order.antt =====
-- The order in which the SingleInstance controller sends its requests.
use Prim.Native.String.{◌++◌}
use greatsql_operator.Prelude.{String, ◌≡◌, [], ◌∷◌, arith, Outcome, ok}
use greatsql_operator.Prelude.Int.{ℤ, pos}
use greatsql_operator.Prelude.Steps.{◌>>◌, pure}
use greatsql_operator.Consts
use greatsql_operator.Api.Meta.{Key}
use greatsql_operator.Api.Pod.{PodSpec}
use greatsql_operator.Api.Instance.{SingleInstance}
use greatsql_operator.Kube.Objects.{
  PersistentVolumeClaim, Deployment, Service, key_of, config_map, claim, deployment, service,
  instance_kind,
}
use greatsql_operator.Kube.Builders.Plain.{new_config_map, new_persistent_volume_claim, new_service}
use greatsql_operator.Kube.Builders.Workloads.{new_deployment}
use greatsql_operator.Kube.Platform.{Platform, request}
use greatsql_operator.Prelude.Plans.{Follows, Follows-pure, Follows-bind, Follows-lift-bind}
use greatsql_operator.Kube.Trace.{Log, create_call, status_call}
use greatsql_operator.Kube.Answers.{recorded, Follows-create, Follows-update_status}
use greatsql_operator.Controller.Single.Create.{
  config_map_for, create_config_map, create_persistent_volume_claim, create_deployment,
  update_status, service_for, create_service, create_all,
}

module _ {W : Type 0} (p : Platform W) where
  -- A claim is named after the request, and lies in its namespace.
  pub new_persistent_volume_claim-key :
      {E : Type 0} (name namespace : String) (cr : PodSpec) (c : PersistentVolumeClaim)
      → ◌≡◌ {A = Outcome E PersistentVolumeClaim}
          (new_persistent_volume_claim p name namespace cr)
          (ok c)
      → key_of c.meta ≡ record { namespace = namespace; name = name ++ Consts.db }
  unfolding new_persistent_volume_claim
  new_persistent_volume_claim-key name namespace cr c h = ground arith

  -- A deployment has the name and the namespace of the instance.
  pub new_deployment-key :
      {E : Type 0} (config_map_name : String) (cr : SingleInstance) (size : ℤ) (d : Deployment)
      → ◌≡◌ {A = Outcome E Deployment} (new_deployment p config_map_name cr size) (ok d)
      → key_of d.meta ≡ key_of cr.meta
  unfolding new_deployment
  new_deployment-key name cr size d h = ground arith

-- The requests of `createResources` for an instance without a deployment.
abbrev pub creation_plan : Key → SingleInstance → Log
creation_plan req s =
    create_call config_map (record req { name = req.name ++ "-config" })
    ∷ create_call claim (record req { name = req.name ++ Consts.db })
    ∷ create_call deployment (key_of s.meta)
    ∷ create_call service req
    ∷ status_call instance_kind (key_of s.meta)
    ∷ []

module _ {W : Type 0} (p : Platform W) (req : Key) (s : SingleInstance) where
  create_config_map-Follows :
      Follows
        (create_call config_map (record req { name = req.name ++ "-config" }) ∷ [])
        (create_config_map (recorded p) req)
  unfolding create_config_map new_config_map
  create_config_map-Follows = Follows-create p config_map (config_map_for req)

  create_claim-Follows :
      Follows
        (create_call claim (record req { name = req.name ++ Consts.db }) ∷ [])
        (create_persistent_volume_claim (recorded p) req s)
  unfolding create_persistent_volume_claim
  create_claim-Follows = Follows-lift-bind _ _ _ λ c e.
      rw (← new_persistent_volume_claim-key (recorded p) req.name req.namespace s.spec.pod_spec c e)
        (Follows-bind _ [] _ (λ _. Follows-pure tt) _ (Follows-create p claim c))

  send_deployment-Follows :
      (d : Deployment)
      → key_of d.meta ≡ key_of s.meta
      → Follows
          (create_call deployment (key_of s.meta) ∷ [])
          (request ((recorded p).create deployment d) >> pure tt)
  send_deployment-Follows d e =
      rw (← e) (Follows-bind _ [] _ (λ _. Follows-pure tt) _ (Follows-create p deployment d))

  create_deployment-Follows :
      Follows (create_call deployment (key_of s.meta) ∷ []) (create_deployment (recorded p) req s)
  unfolding create_deployment
  create_deployment-Follows = Follows-lift-bind _ _ _ λ size _. Follows-lift-bind _ _ _ λ d e.
      send_deployment-Follows d
        (new_deployment-key (recorded p) (req.name ++ Consts.config) s size d e)

  update_status-Follows :
      (svc : Service)
      → Follows (status_call instance_kind (key_of s.meta) ∷ []) (update_status (recorded p) s svc)
  unfolding update_status
  update_status-Follows svc = Follows-lift-bind _ _ _ λ point _. Follows-lift-bind _ _ _ λ size _.
      Follows-update_status p instance_kind (record s {
        status = record {
          access_point = point;
          size = size;
          ready = pos 0;
          age = p.time_string svc.meta.creation_timestamp;
          deployment_status = "";
        };
      })

  create_service-Follows :
      Follows
        (create_call service req ∷ status_call instance_kind (key_of s.meta) ∷ [])
        (create_service (recorded p) req s)
  unfolding create_service new_service
  create_service-Follows =
      Follows-bind _ _ _ update_status-Follows _
        (Follows-create p service (service_for (recorded p) req s))

  -- Without a deployment, the requests are the configuration, the claim, the deployment, the service
  -- and the status, in this order, and no others. It returns only if all of them are sent and none is
  -- refused; where one is refused, it is the last, and `createResources` fails with its error.
  pub create_all-Follows : Follows (creation_plan req s) (create_all (recorded p) req s)
  unfolding create_all
  create_all-Follows =
      Follows-bind _ _ _
        (λ _.
          Follows-bind _ _ _
            (λ _. Follows-bind _ _ _ (λ _. create_service-Follows) _ create_deployment-Follows) _
            create_claim-Follows)
        _ create_config_map-Follows
