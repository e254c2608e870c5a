-- ===== src/Controller/Cluster/Order/Resources.antt =====
-- The order of the requests of `createResources`.
use Prim.Native.String.{◌++◌}
use mathlib.Core.List.{◌++◌ as append}
use greatsql_operator.Prelude.{
  ℕ, zero, suc, ◌+◌, ◌≡◌, refl, ap, ◌⊎◌, inl, inr, none, some, List, [], ◌∷◌,
}
use greatsql_operator.Prelude.Int.{ℤ}
use greatsql_operator.Prelude.Steps.{◌>>◌, pure, fail}
use greatsql_operator.Prelude.Plans.{Follows-pure, Follows-bind}
use greatsql_operator.Prelude.Choices.{Obeys, Obeys-one, Obeys-bind, Obeys-lift-bind}
use greatsql_operator.Api.Meta.{Key}
use greatsql_operator.Api.Cluster.{GroupReplicationCluster, Member}
use greatsql_operator.Kube.Objects.{
  key_of, ConfigMap, config_map, claim, secret, stateful_set, service,
}
use greatsql_operator.Kube.Platform.{
  Reply, done, failed, not_found, already_exists, conflict, other, Error, api, Platform, ApiError,
  Op,
}
use greatsql_operator.Kube.Trace.{Log, get_call, create_call}
use greatsql_operator.Kube.Answers.{Answers, refused, recorded, Obeys-attempt}
use greatsql_operator.Controller.Cluster.{
  headless_name, create_new_config_map, create_config_map, create_service, create_member,
  create_members, create_resources,
}
use greatsql_operator.Controller.Cluster.Rounds.{first_rounds}
use greatsql_operator.Controller.Cluster.Order.{
  config_key, claim_key, ConfigPlan, MemberPlan, MembersPlan, ResourcesPlan, usual_members,
}
use greatsql_operator.Controller.Cluster.Order.Requests.{
  create_secret-Follows, create_service-Follows, create_new_config_map-Follows,
  create_claim-Follows, create_stateful_set-Follows,
}

module _ {W : Type 0} (p : Platform W) (req : Key) (mgr : GroupReplicationCluster) where
  module _ (i : ℕ) where
    -- What follows the look-up of a configuration.
    abbrev looked_up : Reply ConfigMap → Op (W × Answers) (Unit {0})
    looked_up (done m) = pure tt
    looked_up (failed not_found) = create_new_config_map (recorded p) req mgr i
    looked_up (failed e) = fail (api e)

    abbrev MayCreate : Log → Type 0
    MayCreate plan = (plan ≡ []) ⊎ (plan ≡ create_call config_map (config_key req i) ∷ [])

    looked_up-Obeys :
        (e : ApiError)
        → refused (get_call config_map (config_key req i)) e ≡ none
        → Obeys MayCreate (looked_up (failed e))
    looked_up-Obeys not_found h =
        Obeys-one _ _ (inr refl) (create_new_config_map-Follows p req mgr i)
    looked_up-Obeys already_exists h = cc
    looked_up-Obeys conflict h = cc
    looked_up-Obeys (other m) h = cc

    looked_up-stops :
        (e : ApiError) (x : Error)
        → refused (get_call config_map (config_key req i)) e ≡ some x
        → looked_up (failed e) ≡ fail x
    looked_up-stops not_found x h = cc
    looked_up-stops already_exists x h = cc
    looked_up-stops conflict x h = cc
    looked_up-stops (other m) x h = cc

    config_glue :
        (q : Log) → MayCreate q → ConfigPlan req i (get_call config_map (config_key req i) ∷ q)
    config_glue q (inl h) = inl (rw h refl)
    config_glue q (inr h) = inr (rw h refl)

    create_config_map-Obeys : Obeys (ConfigPlan req i) (create_config_map (recorded p) req mgr i)
    unfolding create_config_map
    create_config_map-Obeys =
        Obeys-attempt _ MayCreate _ config_glue [] (inl refl) _
          (λ m. Obeys-one [] _ (inl refl) (Follows-pure tt)) looked_up-Obeys looked_up-stops
          (p.get config_map (config_key req i))

    create_member-Obeys :
        key_of mgr.meta ≡ req → Obeys (MemberPlan req i) (create_member (recorded p) req mgr i)
    unfolding create_member
    create_member-Obeys own =
        let plan : Log = create_call claim (claim_key req i) ∷ create_call stateful_set req ∷ [] in
        Obeys-bind {Next = λ q. q ≡ plan} (λ l q h e. (l, h, ap (append l) e)) plan refl _ _
          create_config_map-Obeys
          λ _. Obeys-one plan _ refl (
            Follows-bind _ _ _ (λ _. create_stateful_set-Follows p req mgr i own) _
              (create_claim-Follows p req mgr i))

  module _ (own : key_of mgr.meta ≡ req) where
    create_members-Obeys :
        (n i : ℕ) → Obeys (MembersPlan req n i) (create_members (recorded p) req mgr n i)
    unfolding create_members
    create_members-Obeys zero i = Obeys-one [] _ refl (Follows-pure tt)
    create_members-Obeys (suc n) i =
        let (usual, known) = usual_members req n (i + 1) in
        Obeys-bind (λ l q h k. (l, q, h, k, refl)) usual known _ _ (create_member-Obeys i own)
          λ _. create_members-Obeys n (i + 1)

    abbrev service_after : Log
    service_after = create_call service (record req { name = headless_name req }) ∷ []

    create_rest-Obeys :
        (n : ℕ)
        → Obeys
            (λ plan.
              (members : Log) × MembersPlan req n 1 members × (plan ≡ append members service_after))
            (create_members (recorded p) req mgr n 1 >> create_service (recorded p) req mgr)
    create_rest-Obeys n =
        Obeys-bind {Next = λ q. q ≡ service_after} (λ l q h e. (l, h, ap (append l) e))
          service_after refl _ _ (create_members-Obeys n 1)
          λ _. Obeys-one service_after _ refl (create_service-Follows p req mgr)

    -- For a cluster with the name and the namespace of the request, whatever size its first member
    -- asks for, `createResources` sends the creation of the secret, the look-up of the configuration
    -- of member 1, perhaps the creation of this configuration, the creations of its claim and of the
    -- stateful set, and that of the service, in this order. It returns
    -- only if all of them are sent and none is refused, but for a look-up that finds nothing; where
    -- another error is the answer, that request is the last, and `createResources` fails with its error.
    pub create_resources-Obeys :
        (n : ℤ) (m : Member) (rest : List Member)
        → mgr.spec.member ≡ m ∷ rest
        → m.size ≡ some n
        → Obeys (ResourcesPlan req 1) (create_resources (recorded p) req mgr)
    unfolding create_resources
    create_resources-Obeys n m rest members size =
        let (usual, known) = usual_members req 1 1 in
        Obeys-bind
          {First = λ l. l ≡ create_call secret (record req { name = req.name ++ "-secret" }) ∷ []}
          {Next = λ q. (l : Log) × MembersPlan req 1 1 l × (q ≡ append l service_after)}
          (λ l q e (ms, h, k). (ms, h, rw (e, k) refl)) (append usual service_after)
          (usual, known, refl) _ _ (Obeys-one _ _ refl (create_secret-Follows p req mgr))
          λ _.
            Obeys-lift-bind (append usual service_after) (usual, known, refl) _ _
              λ a e.
                rw (first_rounds mgr.spec.member rest m a n members size e) (create_rest-Obeys 1)
