-- ===== src/Controller/Cluster/Scope/Creation.antt =====
-- The requests of `createResources`, one object at a time.
use Prim.Native.String.{◌++◌}
use greatsql_operator.Prelude.{ℕ, String, ◌≡◌, refl, ◌∙◌, Outcome, ok, arith}
use greatsql_operator.Prelude.Int.{ℤ, pos}
use greatsql_operator.Prelude.Decimal.{print}
use greatsql_operator.Prelude.Steps.{◌>>◌, pure, fail, lift}
use greatsql_operator.Consts
use greatsql_operator.Api.Meta.{Key}
use greatsql_operator.Api.Pod.{PodSpec}
use greatsql_operator.Api.Cluster.{GroupReplicationCluster}
use greatsql_operator.Kube.Objects.{
  Kind, Obj, meta_of, key_of, StatefulSet, config_map, claim, secret, stateful_set, service,
  PersistentVolumeClaim, ConfigMap,
}
use greatsql_operator.Kube.Builders.Plain.{
  new_config_map, new_persistent_volume_claim, new_service, new_secret_env,
}
use greatsql_operator.Kube.Builders.Workloads.{new_stateful_set}
use greatsql_operator.Kube.Platform.{
  Reply, done, failed, not_found, already_exists, conflict, other, api, Platform, request,
}
use greatsql_operator.Kube.Keeps.{
  OnDone-any, Keeps-pure, Keeps-fail, Keeps-lift, Keeps-bind, Keeps, Keeps-request, Keeps-attempt,
}
use greatsql_operator.Controller.Cluster.{
  config_map_name, headless_name, pod_of, create_secret, create_new_config_map, create_config_map,
  create_persistent_volume_claim, create_stateful_set, create_service, create_member,
}
use greatsql_operator.Controller.Cluster.Scope.{Made, KeptByCreates}

-- A stateful set has the name and the namespace of its cluster.
pub new_stateful_set-key :
    {W : Type 0} (p : Platform W) {E : Type 0} (config service_name : String)
    (cr : GroupReplicationCluster) (ordinal : ℤ) (s : StatefulSet)
    → ◌≡◌ {A = Outcome E StatefulSet} (new_stateful_set p config service_name cr ordinal) (ok s)
    → key_of s.meta ≡ key_of cr.meta
unfolding new_stateful_set
new_stateful_set-key p config service_name cr ordinal s h = ground arith

-- The namespace of a claim is that of its request.
pub new_persistent_volume_claim-namespace :
    {W : Type 0} (p : Platform W) {E : Type 0} (name namespace : String) (cr : PodSpec)
    (c : PersistentVolumeClaim)
    → ◌≡◌ {A = Outcome E PersistentVolumeClaim}
        (new_persistent_volume_claim p name namespace cr)
        (ok c)
    → c.meta.namespace ≡ namespace
unfolding new_persistent_volume_claim
new_persistent_volume_claim-namespace p name namespace cr c h = ground arith

module _ {W : Type 0} (p : Platform W) (req : Key) (I : W → Type 0)
    (kept : KeptByCreates p req I) where
  -- A computation, of whose result nothing is used.
  pub any-Keeps : {A : Type 0} (r : Outcome _ A) → Keeps I (lift r) (λ _. Unit)
  any-Keeps r = Keeps-lift _ r (λ _ _. tt)

  create-Keeps :
      (k : Kind) (o : Obj k)
      → Made req k (key_of (meta_of k o))
      → Keeps I (request (p.create k o) >> pure tt) (λ _. Unit)
  create-Keeps k o made =
      Keeps-bind _ {M = λ _. Unit}
        (Keeps-request I (p.create k o) (kept.under_create k o made)
          (λ w. OnDone-any (p.create k o w).0))
        λ _ _. Keeps-pure _ tt tt

  pod_of-Keeps : (mgr : GroupReplicationCluster) → Keeps I (pod_of p mgr) (λ _. Unit)
  unfolding pod_of
  pod_of-Keeps mgr = Keeps-bind _ (any-Keeps _) λ cluster _. any-Keeps _

  pub create_secret-Keeps :
      (mgr : GroupReplicationCluster) → Keeps I (create_secret p req mgr) (λ _. Unit)
  unfolding create_secret new_secret_env
  create_secret-Keeps mgr =
      Keeps-bind _ (pod_of-Keeps mgr)
        λ pod _. Keeps-bind _ (any-Keeps _) λ container _. create-Keeps secret _ refl

  create_new_config_map-Keeps :
      (mgr : GroupReplicationCluster) (i : ℕ)
      → Keeps I (create_new_config_map p req mgr i) (λ _. Unit)
  unfolding create_new_config_map new_config_map
  create_new_config_map-Keeps mgr i = Keeps-bind _ (pod_of-Keeps mgr) λ pod _.
      Keeps-bind _ (any-Keeps _) λ container _.
        Keeps-bind _ {M = λ _. Unit} (record { at = λ w h. (tt, kept.under_uuid w h) })
          λ uuid _. create-Keeps config_map _ (i, refl)

  create_persistent_volume_claim-Keeps :
      (mgr : GroupReplicationCluster) (i : ℕ)
      → Keeps I (create_persistent_volume_claim p req mgr i) (λ _. Unit)
  unfolding create_persistent_volume_claim
  create_persistent_volume_claim-Keeps mgr i = Keeps-bind _ (pod_of-Keeps mgr) λ pod _.
      Keeps-bind _ (Keeps-lift _ _ (λ c e. e)) λ c e.
        let name = req.name ++ ("-" ++ (Consts.db ++ ("-" ++ print i))) in
        create-Keeps claim (record c { meta = record c.meta { name = name } })
          (i, rw (new_persistent_volume_claim-namespace p req.name req.namespace pod c e) refl)

  create_stateful_set-Keeps :
      (mgr : GroupReplicationCluster) (i : ℕ)
      → key_of mgr.meta ≡ req
      → Keeps I (create_stateful_set p req mgr i) (λ _. Unit)
  unfolding create_stateful_set
  create_stateful_set-Keeps mgr i own = Keeps-bind _ (Keeps-lift _ _ (λ s e. e)) λ s e.
      Keeps-bind _ (any-Keeps _) λ containers _.
        create-Keeps stateful_set
          (record s { template = record s.template { containers = containers } })
          (new_stateful_set-key p (config_map_name req i) (headless_name req) mgr (pos i) s e ∙ own)

  pub create_service-Keeps :
      (mgr : GroupReplicationCluster) → Keeps I (create_service p req mgr) (λ _. Unit)
  unfolding create_service new_service
  create_service-Keeps mgr = Keeps-bind _ (any-Keeps _) λ cluster _. create-Keeps service _ refl

  looked_up-Keeps :
      (mgr : GroupReplicationCluster) (i : ℕ) (r : Reply ConfigMap)
      → Keeps {A = Unit {0}} I
          (elim r [
            | done _ ↦ pure tt
            | failed not_found ↦ create_new_config_map p req mgr i
            | failed e ↦ fail (api e)
          ])
          (λ _. Unit)
  looked_up-Keeps mgr i (done m) = Keeps-pure _ tt tt
  looked_up-Keeps mgr i (failed not_found) = create_new_config_map-Keeps mgr i
  looked_up-Keeps mgr i (failed already_exists) = Keeps-fail _ _
  looked_up-Keeps mgr i (failed conflict) = Keeps-fail _ _
  looked_up-Keeps mgr i (failed (other m)) = Keeps-fail _ _

  create_config_map-Keeps :
      (mgr : GroupReplicationCluster) (i : ℕ) → Keeps I (create_config_map p req mgr i) (λ _. Unit)
  unfolding create_config_map
  create_config_map-Keeps mgr i =
      let key : Key = record req { name = config_map_name req i } in
      Keeps-bind _ {M = λ _. Unit}
        (Keeps-attempt I (p.get config_map key) (kept.under_get config_map key (i, refl)) (λ _. tt))
        λ reply _. looked_up-Keeps mgr i reply

  pub create_member-Keeps :
      (mgr : GroupReplicationCluster) (i : ℕ)
      → key_of mgr.meta ≡ req
      → Keeps I (create_member p req mgr i) (λ _. Unit)
  unfolding create_member
  create_member-Keeps mgr i own = Keeps-bind _ (create_config_map-Keeps mgr i) λ _ _.
      Keeps-bind _ (create_persistent_volume_claim-Keeps mgr i)
        λ _ _. create_stateful_set-Keeps mgr i own
