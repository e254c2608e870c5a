-- ===== src/Controller/Cluster/Order/Requests.antt =====
-- The requests of the parts of `createResources` that always send the same.
use Prim.Native.String.{◌++◌}
use greatsql_operator.Prelude.{ℕ, ◌≡◌, refl, ◌∙◌, [], ◌∷◌}
use greatsql_operator.Prelude.Int.{pos}
use greatsql_operator.Prelude.Decimal.{print}
use greatsql_operator.Prelude.Steps.{◌>>◌, pure}
use greatsql_operator.Prelude.Plans.{
  Follows, Follows-pure, Follows-lift, Follows-bind, Follows-lift-bind, Follows-quiet,
}
use greatsql_operator.Consts
use greatsql_operator.Api.Meta.{Key}
use greatsql_operator.Api.Cluster.{GroupReplicationCluster}
use greatsql_operator.Kube.Objects.{
  Kind, Obj, meta_of, key_of, config_map, claim, secret, stateful_set, service,
}
use greatsql_operator.Kube.Builders.Plain.{new_config_map, new_service, new_secret_env}
use greatsql_operator.Kube.Platform.{Platform, request}
use greatsql_operator.Kube.Trace.{create_call}
use greatsql_operator.Kube.Answers.{recorded, Follows-create}
use greatsql_operator.Controller.Cluster.{
  config_map_name, headless_name, pod_of, create_secret, create_new_config_map,
  create_persistent_volume_claim, create_stateful_set, create_service,
}
use greatsql_operator.Controller.Cluster.Scope.Creation.{
  new_stateful_set-key, new_persistent_volume_claim-namespace,
}
use greatsql_operator.Controller.Cluster.Order.{config_key, claim_key}

module _ {W : Type 0} (p : Platform W) (req : Key) (mgr : GroupReplicationCluster) where
  pub send-Follows :
      (k : Kind) (key : Key) (o : Obj k)
      → key_of (meta_of k o) ≡ key
      → Follows (create_call k key ∷ []) (request ((recorded p).create k o) >> pure tt)
  send-Follows k key o e =
      rw (← e) (Follows-bind _ [] _ (λ _. Follows-pure tt) _ (Follows-create p k o))

  pub pod_of-Follows : Follows [] (pod_of (recorded p) mgr)
  unfolding pod_of
  pod_of-Follows = Follows-bind _ [] _ (λ cluster. Follows-lift _) _ (Follows-lift _)

  pub create_secret-Follows :
      Follows
        (create_call secret (record req { name = req.name ++ "-secret" }) ∷ [])
        (create_secret (recorded p) req mgr)
  unfolding create_secret new_secret_env
  create_secret-Follows =
      Follows-bind [] _ _
        (λ pod. Follows-lift-bind _ _ _ λ container _. send-Follows secret _ _ refl) _
        pod_of-Follows

  pub create_service-Follows :
      Follows
        (create_call service (record req { name = headless_name req }) ∷ [])
        (create_service (recorded p) req mgr)
  unfolding create_service new_service
  create_service-Follows = Follows-lift-bind _ _ _ λ cluster _. send-Follows service _ _ refl

  module _ (i : ℕ) where
    pub create_new_config_map-Follows :
        Follows
          (create_call config_map (config_key req i) ∷ [])
          (create_new_config_map (recorded p) req mgr i)
    unfolding create_new_config_map new_config_map
    create_new_config_map-Follows =
        Follows-bind [] _ _
          (λ pod. Follows-lift-bind _ _ _ λ container _.
            Follows-bind [] _ _ (λ uuid. send-Follows config_map _ _ refl) _
              (Follows-quiet p.new_uuid))
          _ pod_of-Follows

    pub create_claim-Follows :
        Follows
          (create_call claim (claim_key req i) ∷ [])
          (create_persistent_volume_claim (recorded p) req mgr i)
    unfolding create_persistent_volume_claim
    create_claim-Follows =
        Follows-bind [] _ _
          (λ pod. Follows-lift-bind _ _ _ λ c e.
            let name = req.name ++ ("-" ++ (Consts.db ++ ("-" ++ print i))) in
            send-Follows claim (claim_key req i) (record c { meta = record c.meta { name = name } })
              (rw
                (new_persistent_volume_claim-namespace (recorded p) req.name req.namespace pod c e)
                refl))
          _ pod_of-Follows

    pub create_stateful_set-Follows :
        key_of mgr.meta ≡ req
        → Follows (create_call stateful_set req ∷ []) (create_stateful_set (recorded p) req mgr i)
    unfolding create_stateful_set
    create_stateful_set-Follows own = Follows-lift-bind _ _ _ λ s e.
        Follows-lift-bind _ _ _ λ containers _.
          send-Follows stateful_set req
            (record s { template = record s.template { containers = containers } })
            (new_stateful_set-key (recorded p) (config_map_name req i) (headless_name req) mgr
                (pos i) s e
              ∙ own)
