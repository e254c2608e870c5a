-- ===== src/Controller/Single/Promise/Returns.antt =====
-- `createResources` comes to its end, for an instance that is accepted, on a server that admits what it
-- is sent.
use text.Mathlib.Text.{◌==◌ as str_eq}
use greatsql_operator.Prelude.{
  String, ◌≡◌, ◌≢◌, refl, Bool-cases, Option-cases, List-cases, if◌then◌else◌, inl, inr, some, List,
  [], ◌∷◌, ok,
}
use greatsql_operator.Prelude.Int.{ℤ, pos, ltb_ℤ}
use greatsql_operator.Prelude.Steps.{pure}
use greatsql_operator.Api.Meta.{Key}
use greatsql_operator.Api.Pod.{ContainerSpec, PodSpec, ClaimTemplate}
use greatsql_operator.Api.Instance.{SingleInstance}
use greatsql_operator.Api.Affinity.{instance_pod_affinity}
use greatsql_operator.Kube.Objects.{
  Kind, Obj, Service, Deployment, config_map, claim, deployment, service, instance_kind,
}
use greatsql_operator.Kube.Pods.{new_containers}
use greatsql_operator.Kube.Builders.Plain.{
  default_storage, new_persistent_volume_claim, new_service,
}
use greatsql_operator.Kube.Builders.Workloads.{deployment_affinity, new_deployment}
use greatsql_operator.Kube.Platform.{Reply, done, failed, Platform, request}
use greatsql_operator.Kube.Ensures.{
  Ensures, Ensures-pure, Ensures-request, Ensures-attempt, Ensures-bind, Answered-done, Met-returns,
  IsOk, Ensures-IsOk-bind,
}
use greatsql_operator.Utils.Service.{get_service_access_point}
use greatsql_operator.Controller.Single.Validation.{IsAccepted}
use greatsql_operator.Controller.Single.Create.{
  create_config_map, create_persistent_volume_claim, create_deployment, update_status, service_for,
  create_service, create_all, create_resources,
}

-- A server that stores what it is asked to create, a service with the ports that it is sent, and the
-- status of an instance; and quantities that are read back from their text.
pub record Admits {W : Type 0} (p : Platform W) : Type 0 where
  pub creates : (k : Kind) (o : Obj k) (w : W) → (o' : Obj k) × ((p.create k o w).0 ≡ done o')
  pub keeps_ports :
      (o o' : Service) (w : W) → (p.create service o w).0 ≡ done o' → o.ports ≢ [] → o'.ports ≢ []
  pub states :
      (s : SingleInstance) (w : W)
      → (s' : SingleInstance) × ((p.update_status instance_kind s w).0 ≡ done s')
  pub reads : (n : ℤ) → (q : ℤ) × (p.parse_quantity (p.quantity_string n) ≡ some q)

-- An instance that is accepted, with a container and a port.
pub record IsComplete (s : SingleInstance) : Type 0 where
  pub accepted : IsAccepted s
  pub container : ContainerSpec
  pub rest : List ContainerSpec
  pub containers : s.spec.pod_spec.containers ≡ container ∷ rest
  pub ports : s.spec.ports ≢ []

nonempty : {A : Type 0} (l : List A) → l ≢ [] → (a : A) × (rest : List A) × (l ≡ a ∷ rest)
nonempty [] h = absurd (h refl)
nonempty (a ∷ rest) h = (a, rest, refl)

access_point-IsOk : (svc : Service) → svc.ports ≢ [] → IsOk (get_service_access_point svc)
unfolding get_service_access_point
access_point-IsOk svc h =
    let (port, rest, e) = nonempty svc.ports h in
    elim (Bool-cases (str_eq svc.type "ClusterIP")) [
      | inl a ↦ rw (a, e) tt
      | inr a ↦ elim (Bool-cases (str_eq svc.type "NodePort")) [
        | inl b ↦ rw (a, b, e) tt
        | inr b ↦ elim (Bool-cases (str_eq svc.type "LoadBalancer")) [
          | inr c ↦ rw (a, b, c) tt
          | inl c ↦ elim (List-cases svc.ingress_ips) [
            | inl none_given ↦ rw (a, b, c, none_given) tt
            | inr (ip, ips, given) ↦ rw (a, b, c, given, e) tt
          ]
        ]
      ]
    ]

affinity-IsOk : (s : SingleInstance) → IsOk (deployment_affinity s)
unfolding deployment_affinity instance_pod_affinity
affinity-IsOk s = elim (Option-cases s.spec.pod_spec.affinity) [
  | inl e ↦ rw e tt
  | inr (a, e) ↦ rw e tt
]

module _ {W : Type 0} (p : Platform W) where
  new_deployment-IsOk :
      (config : String) (s : SingleInstance) (size : ℤ)
      → IsComplete s
      → IsOk (new_deployment p config s size)
  unfolding new_deployment new_containers deployment_affinity instance_pod_affinity
  new_deployment-IsOk config s size c = elim (Option-cases s.spec.pod_spec.affinity) [
    | inl e ↦ rw (e, c.containers) tt
    | inr (a, e) ↦ rw (e, c.containers) tt
  ]

  module _ (laws : Admits p) where
    pub new_claim-IsOk :
        (name namespace : String) (cr : PodSpec) (template : ClaimTemplate)
        → cr.persistent_volume_claim_template ≡ some template
        → IsOk (new_persistent_volume_claim p name namespace cr)
    unfolding new_persistent_volume_claim default_storage
    new_claim-IsOk name namespace cr template set =
        let requested = p.storage_request template.resources in
        let (q, e) = laws.reads (if ltb_ℤ (pos 0) requested then requested else pos 5) in
        rw (set, e) tt

    pub create-returns :
        (k : Kind) (o : Obj k) → Ensures (λ _. Unit) (request (p.create k o)) (λ _ _. Unit) (λ _. ⊥)
    create-returns k o = Ensures-request (p.create k o) λ w _.
        let (o', e) = laws.creates k o w in
        Answered-done (λ _. Unit) (λ _. ⊥) (p.create k o w) o' e tt

    module _ (req : Key) (s : SingleInstance) (c : IsComplete s) where
      create_claim-returns :
          Ensures (λ _. Unit) (create_persistent_volume_claim p req s) (λ _ _. Unit) (λ _. ⊥)
      unfolding create_persistent_volume_claim
      create_claim-returns =
          Ensures-IsOk-bind _ _
            (new_claim-IsOk req.name req.namespace s.spec.pod_spec c.accepted.template
              c.accepted.template_set)
            λ pvc. Ensures-bind (create-returns claim pvc) λ _. Ensures-pure tt (λ w h. tt)

      create_deployment-returns :
          Ensures (λ _. Unit) (create_deployment p req s) (λ _ _. Unit) (λ _. ⊥)
      unfolding create_deployment
      create_deployment-returns = Ensures-IsOk-bind _ _ (rw c.accepted.size_set tt) λ size.
          Ensures-IsOk-bind _ _ (new_deployment-IsOk _ s size c)
            λ d. Ensures-bind (create-returns deployment d) λ _. Ensures-pure tt (λ w h. tt)

      update_status-returns :
          (svc : Service)
          → svc.ports ≢ []
          → Ensures (λ _. Unit) (update_status p s svc) (λ _ _. Unit) (λ _. ⊥)
      unfolding update_status
      update_status-returns svc h = Ensures-IsOk-bind _ _ (access_point-IsOk svc h) λ point.
          Ensures-IsOk-bind _ _ (rw c.accepted.size_set tt) λ size. Ensures-request _ λ w _.
            let (s', e) = laws.states _ w in
            Answered-done (λ _. Unit) (λ _. ⊥) (p.update_status instance_kind _ w) s' e tt

      create_service-returns : Ensures (λ _. Unit) (create_service p req s) (λ _ _. Unit) (λ _. ⊥)
      unfolding create_service service_for new_service
      create_service-returns =
          Ensures-bind {M = λ svc _. svc.ports ≢ []}
            (Ensures-request _ λ w _.
              let (svc, e) = laws.creates service (service_for p req s) w in
              Answered-done (λ o. o.ports ≢ []) (λ _. ⊥) (p.create service (service_for p req s) w)
                svc e (laws.keeps_ports (service_for p req s) svc w e c.ports))
            λ svc. record { at = λ w h. (update_status-returns svc h).at w tt }

      create_all-returns : Ensures (λ _. Unit) (create_all p req s) (λ _ _. Unit) (λ _. ⊥)
      unfolding create_all create_config_map
      create_all-returns = Ensures-bind (create-returns config_map _) λ _.
          Ensures-bind create_claim-returns
            λ _. Ensures-bind create_deployment-returns λ _. create_service-returns

      looked_up-returns :
          (r : Reply Deployment)
          → Ensures {W = W} {A = SingleInstance}
              (λ _. Unit)
              (elim r [ done _ ↦ pure s | failed _ ↦ create_all p req s ])
              (λ _ _. Unit)
              (λ _. ⊥)
      looked_up-returns (done d) = Ensures-pure s (λ w h. tt)
      looked_up-returns (failed e) = create_all-returns

      resources-returns : Ensures (λ _. Unit) (create_resources p req s) (λ _ _. Unit) (λ _. ⊥)
      unfolding create_resources
      resources-returns =
          Ensures-bind {M = λ _ _. Unit} (Ensures-attempt _ (λ w _. tt)) looked_up-returns

    -- On a server that admits what it is sent, `createResources` returns for every instance that is
    -- accepted and has a container and a port, whatever the look-up of the deployment answers.
    pub create_resources-returns :
        (req : Key) (s : SingleInstance) (w : W)
        → IsComplete s
        → (s' : SingleInstance) × ((create_resources p req s w).0 ≡ ok s')
    create_resources-returns req s w c =
        let (s', e, _) =
          Met-returns (λ _. Unit) (create_resources p req s w)
            ((resources-returns req s c).at w tt) in
        (s', e)
