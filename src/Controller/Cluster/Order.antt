-- ===== src/Controller/Cluster/Order.antt =====
-- The requests that `createResources` may send for a cluster, in their order.
pub mod Requests
pub mod Resources
use Prim.Native.String.{◌++◌}
use mathlib.Core.List.{◌++◌ as append}
use greatsql_operator.Prelude.{
  ℕ, zero, suc, ◌+◌, ◌≡◌, refl, ap, ◌∙◌, ◌⊎◌, inl, inr, first, ok, some, List, [], ◌∷◌,
}
use greatsql_operator.Prelude.Int.{ℤ, pos, pos_part}
use greatsql_operator.Prelude.Decimal.{print}
use greatsql_operator.Prelude.Steps.{◌>>=◌, ◌>>◌, pure, fail, lift}
use greatsql_operator.Prelude.Plans.{
  Follows, Follows-pure, Follows-fail, Follows-lift, Follows-bind, Follows-lift-bind, Follows-quiet,
}
use greatsql_operator.Prelude.Choices.{Obeys, Obeys-one, Obeys-bind, Obeys-lift-bind}
use greatsql_operator.Consts
use greatsql_operator.Api.Meta.{Key}
use greatsql_operator.Api.Cluster.{GroupReplicationCluster, Member, get_size}
use greatsql_operator.Kube.Objects.{
  Kind, Obj, meta_of, key_of, ConfigMap, config_map, claim, secret, stateful_set, service,
}
use greatsql_operator.Kube.Builders.Plain.{new_config_map, new_service, new_secret_env}
use greatsql_operator.Kube.Platform.{
  Reply, done, failed, not_found, already_exists, conflict, other, Error, api, Platform, request,
}
use greatsql_operator.Kube.Trace.{Log, get_call, create_call}
use greatsql_operator.Controller.Cluster.{
  config_map_name, headless_name, pod_of, create_secret, create_new_config_map, create_config_map,
  create_persistent_volume_claim, create_stateful_set, create_service, create_member,
  create_members, create_resources,
}
use greatsql_operator.Controller.Cluster.Scope.Creation.{
  new_stateful_set-key, new_persistent_volume_claim-namespace,
}

module _ (req : Key) where
  abbrev pub config_key : ℕ → Key
  config_key i = record req { name = config_map_name req i }

  abbrev pub claim_key : ℕ → Key
  claim_key i = record req { name = req.name ++ ("-" ++ (Consts.db ++ ("-" ++ print i))) }

  -- The configuration of a member is looked up, and made where it is missing.
  abbrev pub ConfigPlan : ℕ → Log → Type 0
  ConfigPlan i plan =
      (plan ≡ get_call config_map (config_key i) ∷ [])
      ⊎ (plan ≡ get_call config_map (config_key i) ∷ create_call config_map (config_key i) ∷ [])

  -- Then come its claim and the stateful set.
  abbrev pub MemberPlan : ℕ → Log → Type 0
  MemberPlan i plan =
      (config : Log) × ConfigPlan i config
      × (plan ≡ append config (create_call claim (claim_key i) ∷ create_call stateful_set req ∷ []))

  -- `n` members, from the ordinal `i` on.
  abbrev pub MembersPlan : ℕ → ℕ → Log → Type 0
  MembersPlan zero i plan = plan ≡ []
  MembersPlan (suc n) i plan =
      (member : Log) × (more : Log) × MemberPlan i member
      × MembersPlan n (i + 1) more
      × (plan ≡ append member more)

  -- The secret, `n` members and the service.
  abbrev pub ResourcesPlan : ℕ → Log → Type 0
  ResourcesPlan n plan =
      (members : Log) × MembersPlan n 1 members
      × (plan
          ≡ create_call secret (record req { name = req.name ++ "-secret" })
            ∷ append members (create_call service (record req { name = headless_name req }) ∷ []))

  -- The plan of a member whose configuration is there.
  usual_member : (i : ℕ) → (plan : Log) × MemberPlan i plan
  usual_member i = (_, (_, inl refl, refl))

  pub usual_members : (n i : ℕ) → (plan : Log) × MembersPlan n i plan
  usual_members zero i = ([], refl)
  usual_members (suc n) i =
      let (member, h) = usual_member i in
      let (more, k) = usual_members n (i + 1) in (append member more, (member, more, h, k, refl))
