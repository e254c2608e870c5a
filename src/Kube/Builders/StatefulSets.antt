-- ===== src/Kube/Builders/StatefulSets.antt =====
-- How the names and the labels of a stateful set refer to one another.
use Prim.Native.String.{◌++◌}
use Prim.Native.String.{len, slice}
use text.Mathlib.Text.{starts_with}
use text.Mathlib.TextLemmas.{append_assoc}
use text.Mathlib.TextPositions.{starts_with-append, slice-append_left, len-append}
use greatsql_operator.Prelude.{
  String, ◌≡◌, ◌≢◌, refl, sym, ap, ◌∙◌, deref, subst, true, none, some, List, [], ◌∷◌, arith, All,
  Outcome, ok, >>=-eq-ok, ok_inj, first,
}
use greatsql_operator.Prelude.Int.{ℤ}
use greatsql_operator.Prelude.Decimal.{print_ℤ}
use greatsql_operator.Consts
use greatsql_operator.Api.Pod.{PodSpec}
use greatsql_operator.Api.Cluster.{GroupReplicationCluster}
use greatsql_operator.Api.Affinity.{cluster_pod_affinity}
use greatsql_operator.Kube.Objects.{Container, Volume, PersistentVolumeClaim, StatefulSet, key_of}
use greatsql_operator.Kube.Pods.{
  pod_template, mount_name, new_containers, config_volume, workload_labels,
}
use greatsql_operator.Kube.Builders.Names.{append-ne, literals, names}
use greatsql_operator.Kube.Builders.Secrets.{lookup}
use greatsql_operator.Kube.Builders.Workloads.{new_stateful_set}
use greatsql_operator.Kube.Platform.{Platform}

dash_not_config : (t : String) → "-" ++ t ≢ "config"
dash_not_config t e = cc (starts_with-append "-" t, ap (λ s. starts_with s "-") e)

one_front : (c d s t : String) → c ++ s ≡ d ++ t → len c ≡ len d → c ≡ d
one_front c d s t e h =
    sym (slice-append_left c s)
    ∙ ap (λ x. slice x 0 (len c)) e
    ∙ ap (λ n. slice (d ++ t) 0 n) h
    ∙ slice-append_left d t

dash_not_db : (t u : String) → "-" ++ t ≢ "db" ++ u
dash_not_db t u e =
    literals {s = "-"} {t = "d"} refl
      (one_front "-" "d" t ("b" ++ u) (e ∙ append_assoc "d" "b" u) refl)

dash_not_empty : (s t : String) → s ++ ("-" ++ t) ≢ ""
dash_not_empty s t e =
    let h : len (s ++ ("-" ++ t)) ≡ 0 = ap len e in
    omega (arith, len-append s ("-" ++ t), len-append "-" t)

-- The names of the claims that a stateful set makes for its pods.
abbrev pub claim_names : List PersistentVolumeClaim → List String
claim_names [] = []
claim_names (c ∷ cs) = c.meta.name ∷ claim_names cs

-- No mount of the container refers to a volume or to a claim.
abbrev pub Unbound : List Volume → List PersistentVolumeClaim → Container → Type 0
Unbound vs cs c =
    All (λ m. All (λ n. m.name ≢ n) (names vs) × All (λ n. m.name ≢ n) (claim_names cs))
      c.volume_mounts

module _ {E : Type 0} where
  -- What the containers mount, against the names that a stateful set has.
  new_containers-Unbound :
      (name ending : String) (cr : PodSpec) (ordinal : ℤ) (cs : List Container) (vs : List Volume)
      (claims : List PersistentVolumeClaim)
      → names vs ≡ (name ++ "config") ∷ "" ∷ []
      → claim_names claims ≡ (name ++ ("db" ++ ending)) ∷ []
      → ◌≡◌ {A = Outcome E (List Container)} (new_containers name cr ordinal true) (ok cs)
      → All (Unbound vs claims) cs
  unfolding new_containers mount_name
  new_containers-Unbound name ending cr ordinal cs vs claims hv hc h =
      let (spec, _, k) = >>=-eq-ok (first cr.containers) _ h in
      let apart : (t : String) → All (λ n. name ++ ("-" ++ t) ≢ n) (names vs) =
        λ t. rw hv (append-ne name _ _ (dash_not_config t), (dash_not_empty name t, tt)) in
      let unclaimed : (t : String) → All (λ n. name ++ ("-" ++ t) ≢ n) (claim_names claims) =
        λ t. rw hc (append-ne name _ _ (dash_not_db t ending), tt) in
      subst (All (Unbound vs claims)) (ok_inj k)
        (((apart _, unclaimed _), ((apart _, unclaimed _), tt)), tt)

-- The parts of a stateful set that was built for a cluster, from a pod.
pub record Parts (E : Type 0) (cr : GroupReplicationCluster) (ordinal : ℤ) (pod : PodSpec)
    (d : StatefulSet) : Type 0 where
  pub built :
      ◌≡◌ {A = Outcome E (List Container)}
        (new_containers cr.meta.name pod ordinal true)
        (ok d.template.containers)
  pub volumes : names d.template.volumes ≡ (cr.meta.name ++ "config") ∷ "" ∷ []
  pub claims :
      claim_names d.volume_claim_templates ≡ (cr.meta.name ++ ("db" ++ print_ℤ ordinal)) ∷ []
  pub key : key_of d.meta ≡ key_of cr.meta
  pub selector : d.selector ≡ workload_labels cr.meta.name
  pub labels : d.template_labels ≡ (Consts.app_kubernetes_name, cr.meta.name) ∷ []

module _ {W : Type 0} (p : Platform W) {E : Type 0} where
  new_stateful_set-Parts :
      (config_map_name service_name : String) (cr : GroupReplicationCluster) (ordinal : ℤ)
      (d : StatefulSet)
      → ◌≡◌ {A = Outcome E StatefulSet}
          (new_stateful_set p config_map_name service_name cr ordinal)
          (ok d)
      → (pod : PodSpec) × Parts E cr ordinal pod d
  unfolding new_stateful_set config_volume pod_template
  new_stateful_set-Parts config_map_name service_name cr ordinal d h =
      let (affinity, _, h1) = >>=-eq-ok (cluster_pod_affinity cr _) _ h in
      let (member, _, h2) = >>=-eq-ok (first cr.spec.member) _ h1 in
      let (cluster, _, h3) = >>=-eq-ok (deref cr.spec.cluster_spec) _ h2 in
      let (pod, _, h4) = >>=-eq-ok (deref cluster.pod_spec) _ h3 in
      let (containers, e, h5) = >>=-eq-ok (new_containers cr.meta.name pod ordinal true) _ h4 in
      let (template, _, h6) = >>=-eq-ok (deref pod.persistent_volume_claim_template) _ h5 in
      let (strategy, _, h7) = >>=-eq-ok (deref cluster.update_strategy) _ h6 in
      let (rolling, _, h8) = >>=-eq-ok (deref strategy.roleling_update) _ h7 in
      (
        pod,
        subst (Parts E cr ordinal pod) {y = d} (ok_inj h8) (record {
          built = e;
          volumes = refl;
          claims = refl;
          key = refl;
          selector = refl;
          labels = refl;
        }),
      )

  -- No mount of a stateful set's containers refers to a volume or to a claim of its pods.
  pub new_stateful_set-Unbound :
      (config_map_name service_name : String) (cr : GroupReplicationCluster) (ordinal : ℤ)
      (d : StatefulSet)
      → ◌≡◌ {A = Outcome E StatefulSet}
          (new_stateful_set p config_map_name service_name cr ordinal)
          (ok d)
      → All (Unbound d.template.volumes d.volume_claim_templates) d.template.containers
  new_stateful_set-Unbound config_map_name service_name cr ordinal d h =
      let (pod, parts) = new_stateful_set-Parts config_map_name service_name cr ordinal d h in
      new_containers-Unbound cr.meta.name (print_ℤ ordinal) pod ordinal d.template.containers
        d.template.volumes d.volume_claim_templates parts.volumes parts.claims parts.built

  -- The stateful sets of two members have one key, and the selector of each asks for a label that its
  -- pods do not carry.
  pub new_stateful_set-labels :
      (config_map_name service_name : String) (cr : GroupReplicationCluster) (ordinal : ℤ)
      (d : StatefulSet)
      → ◌≡◌ {A = Outcome E StatefulSet}
          (new_stateful_set p config_map_name service_name cr ordinal)
          (ok d)
      → (key_of d.meta ≡ key_of cr.meta)
        × (lookup Consts.app_kubernetes_instance d.selector ≡ some cr.meta.name)
        × (lookup Consts.app_kubernetes_instance d.template_labels ≡ none)
  unfolding lookup workload_labels
  new_stateful_set-labels config_map_name service_name cr ordinal d h =
      let (_, parts) = new_stateful_set-Parts config_map_name service_name cr ordinal d h in
      (parts.key, rw parts.selector refl, rw parts.labels refl)
