-- ===== src/Controller/Single/Retry.antt =====
-- Retries of the SingleInstance controller: what a reconciliation that stopped half-way leaves behind.
use Prim.Native.String.{◌++◌}
use greatsql_operator.Prelude.{ℕ, zero, suc, refl, ap, ◌∙◌, inl, inr}
use greatsql_operator.Prelude.Steps.{pure}
use greatsql_operator.Api.Meta.{Key}
use greatsql_operator.Api.Instance.{SingleInstance}
use greatsql_operator.Kube.Objects.{
  Deployment, Kind, config_map, claim, service, deployment, secret, stateful_set, cluster_kind,
  instance_kind,
}
use greatsql_operator.Kube.Builders.Names.{append-ne, literals}
use greatsql_operator.Kube.Builders.Plain.{new_config_map}
use greatsql_operator.Kube.Platform.{Reply, done, failed, Platform}
use greatsql_operator.Kube.Ensures.{Ensures, Ensures-bind}
use greatsql_operator.Kube.Keeps.{OnDone, KeepsKeys, Keeps-before}
use greatsql_operator.Kube.Presence.{Persists}
use greatsql_operator.Kube.Presence.Refusal.{
  Refuses, Between, Stuck, behind-Stuck, Ensures-never, Between-get, Between-missing,
  Between-refused,
}
use greatsql_operator.Utils.Finalizer.{deleted_config_map_name}
use greatsql_operator.Controller.Single.{reconcile}
use greatsql_operator.Controller.Single.Create.{
  config_map_for, create_config_map, create_all, create_resources,
}
use greatsql_operator.Controller.Single.Scope.{Cleaned, KeptByCleanup}
use greatsql_operator.Controller.Single.Scope.Reconcile.{
  get_single_instance-Keeps, handle_finalizer-Keeps, validate_and_add_finalizer-Keeps,
}

-- The configuration of the request is there, and its deployment is not.
abbrev pub HalfWay : {W : Type 0} → (W → Kind → Key → Type 0) → Key → W → Type 0
HalfWay Has req =
    Between Has config_map (record req { name = req.name ++ "-config" }) deployment req

-- The world after `n` reconciliations.
abbrev pub after : {W : Type 0} → Platform W → Key → ℕ → W → W
after p req zero w = w
after p req (suc n) w = after p req n (reconcile p req w).1

module _ {W : Type 0} (p : Platform W) (Has : W → Kind → Key → Type 0) (laws : Persists p Has)
    (refuses : Refuses p Has) (req : Key) where
  cleanup_spares :
      (k : Kind) (key : Key)
      → Cleaned req k key
      → (w : W) → Has w config_map (record req { name = req.name ++ "-config" })
      → Has (p.delete k key w).1 config_map (record req { name = req.name ++ "-config" })
  unfolding deleted_config_map_name
  cleanup_spares config_map key same w h =
      laws.deleted config_map config_map _ key w
        (inr (λ e.
          append-ne req.name "-config" "config" (literals refl)
            (ap (λ other. other.name) (e ∙ same))))
        h
  cleanup_spares claim key same w h = laws.deleted config_map claim _ key w (inl (λ e. cc)) h
  cleanup_spares deployment key same w h =
      laws.deleted config_map deployment _ key w (inl (λ e. cc)) h
  cleanup_spares service key same w h = laws.deleted config_map service _ key w (inl (λ e. cc)) h
  cleanup_spares instance_kind key no_way w h = absurd no_way
  cleanup_spares secret key no_way w h = absurd no_way
  cleanup_spares stateful_set key no_way w h = absurd no_way
  cleanup_spares cluster_kind key no_way w h = absurd no_way

  HalfWay-KeptByCleanup : KeptByCleanup p req (HalfWay Has req)
  HalfWay-KeptByCleanup = record {
    updates = record {
      under_get =
          λ k key own w h. Between-get p Has laws refuses config_map _ deployment req k key w h;
      under_update = λ k o own w h. (
        (laws.stable config_map _).under_update k o w h.0,
        refuses.under_update deployment k req o w h.1,
      );
      under_event = λ t r m w h. (
        (laws.stable config_map _).under_event t r m w h.0,
        refuses.under_event deployment req t r m w h.1,
      );
    };
    under_delete = λ k key own w h.
        (cleanup_spares k key own w h.0, refuses.under_delete deployment k req key w h.1);
  }

  create_all-Stuck :
      (s : SingleInstance)
      → Ensures (HalfWay Has req) (create_all p req s) (λ _ _. ⊥) (HalfWay Has req)
  unfolding create_all create_config_map config_map_for new_config_map
  create_all-Stuck s =
      Ensures-never _
        (Between-refused p Has laws refuses config_map _ deployment req (config_map_for req) refl)

  looked_up-Stuck :
      (s : SingleInstance) (r : Reply Deployment)
      → Ensures {W = W}
          (λ w. OnDone (λ _. ⊥) r × HalfWay Has req w)
          (elim r [ done _ ↦ pure s | failed _ ↦ create_all p req s ])
          (λ _ _. ⊥)
          (HalfWay Has req)
  looked_up-Stuck s (done d) = record { at = λ w h. absurd h.0 }
  looked_up-Stuck s (failed e) = record { at = λ w h. (create_all-Stuck s).at w h.1 }

  create_resources-Stuck :
      (s : SingleInstance)
      → Ensures (HalfWay Has req) (create_resources p req s) (λ _ _. ⊥) (HalfWay Has req)
  unfolding create_resources
  create_resources-Stuck s =
      Ensures-bind (Between-missing p Has laws refuses config_map _ deployment req)
        (looked_up-Stuck s)

  once-Stuck :
      KeepsKeys p → Ensures (HalfWay Has req) (reconcile p req) (λ _ _. ⊥) (HalfWay Has req)
  unfolding reconcile
  once-Stuck keys =
      let inv = HalfWay-KeptByCleanup in
      let I = HalfWay Has req in
      Keeps-before _ (get_single_instance-Keeps p keys req I inv.updates) λ found known.
        Keeps-before _ (handle_finalizer-Keeps p keys req I inv found known) λ cleaned known'.
          Keeps-before _ (validate_and_add_finalizer-Keeps p keys req I inv.updates cleaned known')
            λ valid _. Ensures-never _ (create_resources-Stuck valid)

  -- Where the configuration "<name>-config" of a request is there and its deployment is not, as a
  -- reconciliation leaves it that stopped between the two, no later reconciliation returns, however many
  -- there are, whether the instance is there, valid or being deleted: each fails or panics, and leaves
  -- the configuration there and the deployment missing. This holds on a server that keeps what it holds
  -- and refuses to create it again, whose replies keep the names, while nobody else creates or deletes.
  pub reconcile-Stuck :
      KeepsKeys p
      → (w : W) → HalfWay Has req w
      → (n : ℕ) → Stuck (HalfWay Has req) (reconcile p req (after p req n w))
  reconcile-Stuck keys w half zero = (once-Stuck keys).at w half
  reconcile-Stuck keys w half (suc n) =
      reconcile-Stuck keys (reconcile p req w).1
        (behind-Stuck (HalfWay Has req) (reconcile p req w) ((once-Stuck keys).at w half)) n
