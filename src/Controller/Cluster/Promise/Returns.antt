-- ===== src/Controller/Cluster/Promise/Returns.antt =====
-- `createResources` comes to its end, for a cluster with all its parts, on a server that admits what it is
-- sent.
use greatsql_operator.Prelude.{
  ℕ, zero, suc, ◌+◌, String, ◌≡◌, refl, ap, ◌∙◌, first, some, List, ◌∷◌, ok,
}
use greatsql_operator.Prelude.Int.{ℤ, pos, pos_part}
use greatsql_operator.Prelude.Steps.{◌>>=◌, ◌>>◌, pure, fail, lift}
use greatsql_operator.Api.Meta.{Key}
use greatsql_operator.Api.Pod.{PodSpec, ContainerSpec, ClaimTemplate}
use greatsql_operator.Api.Affinity.{cluster_pod_affinity}
use greatsql_operator.Api.Cluster.{
  GroupReplicationCluster, MysqlGroupReplicationCluster, StatefulSetUpdateStrategyType,
  RolelingUpdate, Member, get_size,
}
use greatsql_operator.Kube.Objects.{
  Kind, Obj, key_of, ConfigMap, config_map, claim, secret, stateful_set, service,
}
use greatsql_operator.Kube.Pods.{new_containers, pod_template}
use greatsql_operator.Kube.Builders.Workloads.{new_stateful_set}
use greatsql_operator.Kube.Platform.{
  Reply, done, failed, not_found, already_exists, conflict, other, api, Platform, Op, request,
}
use greatsql_operator.Kube.Ensures.{
  Ensures, Ensures-pure, Ensures-attempt, Ensures-bind, Ensures-given, Met-returns, IsOk,
  Ensures-IsOk-bind, OkWith, Ensures-OkWith-bind,
}
use greatsql_operator.Kube.Keeps.{reached}
use greatsql_operator.Kube.Presence.{Persists}
use greatsql_operator.Controller.Single.Promise.Returns.{Admits, new_claim-IsOk, create-returns}
use greatsql_operator.Controller.Cluster.{
  config_map_name, headless_name, pod_of, open_ports, create_secret, create_new_config_map,
  create_config_map, create_persistent_volume_claim, create_stateful_set, create_service,
  create_member, create_members, create_resources,
}
use greatsql_operator.Controller.Cluster.Promise.{AllThere}
use greatsql_operator.Controller.Cluster.Promise.Complete.{create_resources-AllThere}

-- A cluster whose pointers are set as far as the creation follows them, with a member and a container.
pub record HasParts (mgr : GroupReplicationCluster) : Type 0 where
  pub cluster : MysqlGroupReplicationCluster
  pub cluster_set : mgr.spec.cluster_spec ≡ some cluster
  pub pod : PodSpec
  pub pod_set : cluster.pod_spec ≡ some pod
  pub container : ContainerSpec
  pub containers : List ContainerSpec
  pub containers_set : pod.containers ≡ container ∷ containers
  pub template : ClaimTemplate
  pub template_set : pod.persistent_volume_claim_template ≡ some template
  pub strategy : StatefulSetUpdateStrategyType
  pub strategy_set : cluster.update_strategy ≡ some strategy
  pub rolling : RolelingUpdate
  pub rolling_set : strategy.roleling_update ≡ some rolling
  pub head : Member
  pub members : List Member
  pub members_set : mgr.spec.member ≡ head ∷ members

-- The answer to a look-up is the object, or that it is not there.
abbrev pub FoundOrNot : {A : Type 0} → Reply A → Type 0
FoundOrNot (done _) = Unit
FoundOrNot (failed not_found) = Unit
FoundOrNot (failed _) = ⊥

-- The step returns, from every world.
abbrev Returning : {W A : Type 0} → Op W A → Type 0
Returning m = Ensures (λ _. Unit) m (λ _ _. Unit) (λ _. ⊥)

module _ {W : Type 0} (p : Platform W) (req : Key) (mgr : GroupReplicationCluster)
    (c : HasParts mgr) where
  set-OkWith :
      (config service_name : String) (ordinal : ℤ)
      → OkWith
          (λ s. IsOk (open_ports s.template.containers))
          (new_stateful_set p config service_name mgr ordinal)
  unfolding new_stateful_set cluster_pod_affinity new_containers pod_template open_ports
  set-OkWith config service_name ordinal =
      rw
        (
          c.members_set, c.cluster_set, c.pod_set, c.containers_set, c.template_set, c.strategy_set,
          c.rolling_set,
        )
        tt

  pod_of-returns : Ensures (λ _. Unit) (pod_of p mgr) (λ pod _. pod ≡ c.pod) (λ _. ⊥)
  unfolding pod_of ◌>>=◌
  pod_of-returns = record { at = λ w _. rw (c.cluster_set, c.pod_set) refl }

  module _ (laws : Admits p)
      (answers : (key : Key) (w : W) → FoundOrNot (p.get config_map key w).0) where
    sent-Returning : (k : Kind) (o : Obj k) → Returning (request (p.create k o) >> pure tt)
    sent-Returning k o = Ensures-bind (create-returns p laws k o) λ _. Ensures-pure tt (λ w h. tt)

    -- What follows the container of the pod.
    with_container :
        (f : PodSpec → ContainerSpec → Op W (Unit {0}))
        → ((pod : PodSpec) (spec : ContainerSpec) → Returning (f pod spec))
        → Returning (pod_of p mgr >>= λ pod. lift (first pod.containers) >>= λ spec. f pod spec)
    with_container f h = Ensures-bind pod_of-returns λ pod. Ensures-given λ e.
        Ensures-IsOk-bind (first pod.containers) (f pod)
          (let same : pod.containers ≡ c.container ∷ c.containers =
              ap (λ (x : PodSpec). x.containers) e ∙ c.containers_set in
            rw same tt)
          (h pod)

    create_secret-returns : Returning (create_secret p req mgr)
    unfolding create_secret
    create_secret-returns = with_container _ λ pod spec. sent-Returning secret _

    create_service-returns : Returning (create_service p req mgr)
    unfolding create_service
    create_service-returns =
        Ensures-IsOk-bind _ _ (rw c.cluster_set tt) λ cluster. sent-Returning service _

    module _ (i : ℕ) where
      create_new_config_map-returns : Returning (create_new_config_map p req mgr i)
      unfolding create_new_config_map
      create_new_config_map-returns = with_container _ λ pod spec.
          Ensures-bind {M = λ _ _. Unit} (record { at = λ w _. tt })
            λ uuid. sent-Returning config_map _

      looked_up-returns :
          (r : Reply ConfigMap)
          → Ensures {W = W} {A = Unit {0}}
              (λ _. FoundOrNot r)
              (elim r [
                | done _ ↦ pure tt
                | failed not_found ↦ create_new_config_map p req mgr i
                | failed e ↦ fail (api e)
              ])
              (λ _ _. Unit)
              (λ _. ⊥)
      looked_up-returns (done m) = Ensures-pure tt (λ w h. tt)
      looked_up-returns (failed not_found) = create_new_config_map-returns
      looked_up-returns (failed already_exists) = record { at = λ w h. h }
      looked_up-returns (failed conflict) = record { at = λ w h. h }
      looked_up-returns (failed (other m)) = record { at = λ w h. h }

      create_config_map-returns : Returning (create_config_map p req mgr i)
      unfolding create_config_map
      create_config_map-returns =
          Ensures-bind {M = λ reply _. FoundOrNot reply} (Ensures-attempt _ (λ w _. answers _ w))
            looked_up-returns

      create_claim-returns : Returning (create_persistent_volume_claim p req mgr i)
      unfolding create_persistent_volume_claim
      create_claim-returns = Ensures-bind pod_of-returns λ pod. Ensures-given λ e.
          Ensures-IsOk-bind _ _
            (rw e (new_claim-IsOk p laws req.name req.namespace c.pod c.template c.template_set))
            λ pvc. sent-Returning claim _

      create_stateful_set-returns : Returning (create_stateful_set p req mgr i)
      unfolding create_stateful_set
      create_stateful_set-returns =
          Ensures-OkWith-bind (λ s. IsOk (open_ports s.template.containers)) _ _
            (set-OkWith (config_map_name req i) (headless_name req) (pos i))
            λ s opened. Ensures-IsOk-bind _ _ opened λ containers. sent-Returning stateful_set _

      create_member-returns : Returning (create_member p req mgr i)
      unfolding create_member
      create_member-returns =
          Ensures-bind create_config_map-returns
            λ _. Ensures-bind create_claim-returns λ _. create_stateful_set-returns

    create_members-returns : (n i : ℕ) → Returning (create_members p req mgr n i)
    unfolding create_members
    create_members-returns zero i = Ensures-pure tt (λ w h. tt)
    create_members-returns (suc n) i =
        Ensures-bind (create_member-returns i) λ _. create_members-returns n (i + 1)

    all-Returning : Returning (create_resources p req mgr)
    unfolding create_resources
    all-Returning = Ensures-bind create_secret-returns λ _.
        Ensures-IsOk-bind _ _ (rw c.members_set tt) λ member.
          Ensures-bind (create_members-returns (pos_part (get_size member)) 1)
            λ _. create_service-returns

    -- On a server that admits what it is sent, keeps what it holds, and answers the look-up of a
    -- configuration with the object or that it is not there, `createResources` returns for every
    -- cluster with the name and the namespace of the request whose first member has a size, with a
    -- container and the sections that the creation follows; then the secret, the configuration and the
    -- claim of member 1, the stateful set and the service are there.
    pub create_resources-completes :
        (Has : W → Kind → Key → Type 0) (stored : Persists p Has) (n : ℤ)
        → key_of mgr.meta ≡ req
        → c.head.size ≡ some n
        → (w : W)
        → ((create_resources p req mgr w).0 ≡ ok tt)
          × AllThere Has req (create_resources p req mgr w).1
    create_resources-completes Has stored n own size w =
        let (u, returned, _) =
          Met-returns (λ _. Unit) (create_resources p req mgr w) (all-Returning.at w tt) in
        (
          returned,
          reached (AllThere Has req) (create_resources p req mgr w) tt returned (
              (create_resources-AllThere p Has stored req mgr own n c.head c.members c.members_set
                  size).at
                w tt),
        )
