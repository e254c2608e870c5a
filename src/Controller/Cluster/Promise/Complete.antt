-- ===== src/Controller/Cluster/Promise/Complete.antt =====
-- What is there when `createResources` of a cluster has returned.
use Prim.Native.String.{◌++◌}
use greatsql_operator.Prelude.{ℕ, ◌≡◌, some, List, ◌∷◌}
use greatsql_operator.Prelude.Int.{ℤ}
use greatsql_operator.Api.Meta.{Key}
use greatsql_operator.Api.Cluster.{GroupReplicationCluster, Member}
use greatsql_operator.Kube.Objects.{Kind, key_of, config_map, claim, secret, stateful_set}
use greatsql_operator.Kube.Platform.{Platform}
use greatsql_operator.Kube.Ensures.{
  Ensures, Ensures-pure, Ensures-bind, Ensures-within, Ensures-lift-bind,
}
use greatsql_operator.Kube.Presence.{Persists, Stable, Stable-any, Stable-both}
use greatsql_operator.Controller.Cluster.{create_member, create_members, create_resources}
use greatsql_operator.Controller.Cluster.Order.{config_key, claim_key}
use greatsql_operator.Controller.Cluster.Rounds.{first_rounds}
use greatsql_operator.Controller.Cluster.Promise.{AllThere}
use greatsql_operator.Controller.Cluster.Promise.Creation.{
  create_secret-Present, create_config_map-Present, create_claim-Present,
  create_stateful_set-Present, create_service-Present,
}

module _ {W : Type 0} (p : Platform W) (Has : W → Kind → Key → Type 0) (laws : Persists p Has)
    (req : Key) (mgr : GroupReplicationCluster) (own : key_of mgr.meta ≡ req) where
  -- The objects of a member, beside what is there already.
  abbrev WithMember : (W → Type 0) → ℕ → W → Type 0
  WithMember F i w =
      ((F w × Has w config_map (config_key req i)) × Has w claim (claim_key req i))
      × Has w stateful_set req

  WithMember-stable : (F : W → Type 0) (i : ℕ) → Stable p F → Stable p (WithMember F i)
  WithMember-stable F i stable =
      Stable-both
        (Stable-both (Stable-both stable (laws.stable config_map _)) (laws.stable claim _))
        (laws.stable stateful_set req)

  create_member-Present :
      (F : W → Type 0) (stable : Stable p F) (i : ℕ)
      → Ensures F (create_member p req mgr i) (λ _. WithMember F i) (λ _. Unit)
  unfolding create_member
  create_member-Present F stable i =
      let configured = Stable-both stable (laws.stable config_map (config_key req i)) in
      let claimed = Stable-both configured (laws.stable claim (claim_key req i)) in
      Ensures-bind (create_config_map-Present p Has laws req mgr F stable i) λ _.
        Ensures-bind (create_claim-Present p Has laws req mgr _ configured i)
          λ _. create_stateful_set-Present p Has laws req mgr _ claimed i own

  -- One round of the loop.
  one_round-Present :
      (F : W → Type 0) (stable : Stable p F)
      → Ensures F (create_members p req mgr 1 1) (λ _. WithMember F 1) (λ _. Unit)
  unfolding create_members
  one_round-Present F stable =
      Ensures-bind (create_member-Present F stable 1) λ _. Ensures-pure tt (λ w h. h)

  pub create_resources-AllThere :
      (n : ℤ) (m : Member) (rest : List Member)
      → mgr.spec.member ≡ m ∷ rest
      → m.size ≡ some n
      → Ensures (λ _. Unit) (create_resources p req mgr) (λ _. AllThere Has req) (λ _. Unit)
  unfolding create_resources
  create_resources-AllThere n m rest members size =
      let kept = laws.stable secret (record req { name = req.name ++ "-secret" }) in
      Ensures-bind
        (Ensures-within (λ w h. h) (λ _ w h. h.1) (λ w h. h)
          (create_secret-Present p Has laws req mgr (λ _. Unit) Stable-any))
        λ _.
          Ensures-lift-bind _ _
            (λ a e. rw (first_rounds mgr.spec.member rest m a n members size e) (
              Ensures-bind (one_round-Present _ kept)
                λ _. create_service-Present p Has laws req mgr _ (WithMember-stable _ 1 kept)))
            (λ _ _. tt)
