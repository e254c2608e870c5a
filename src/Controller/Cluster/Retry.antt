-- ===== src/Controller/Cluster/Retry.antt =====
-- Retries of the cluster controller: what a reconciliation that stopped half-way leaves behind.
use Prim.Native.String.{◌++◌}
use greatsql_operator.Prelude.{ℕ, zero, suc, refl, Outcome, first, deref}
use greatsql_operator.Prelude.Steps.{◌>>=◌, pure, fail}
use greatsql_operator.Api.Meta.{Key}
use greatsql_operator.Api.Cluster.{GroupReplicationCluster}
use greatsql_operator.Kube.Objects.{Kind, StatefulSet, cluster_kind, stateful_set, secret}
use greatsql_operator.Kube.Builders.Plain.{new_secret_env}
use greatsql_operator.Kube.Platform.{
  Reply, done, failed, not_found, already_exists, conflict, other, Error, api, Platform, Op,
}
use greatsql_operator.Kube.Ensures.{Ensures, Ensures-lift, Ensures-bind, Ensures-lift-bind}
use greatsql_operator.Kube.Keeps.{OnDone}
use greatsql_operator.Kube.Presence.{Persists}
use greatsql_operator.Kube.Presence.Refusal.{
  Refuses, Between, Stuck, behind-Stuck, Ensures-never, Between-get, Between-missing,
  Between-refused,
}
use greatsql_operator.Controller.Cluster.{
  pod_of, create_secret, create_resources, reconcile_found, reconcile,
}

-- The secret of the request is there, and its stateful set is not.
abbrev pub HalfWay : {W : Type 0} → (W → Kind → Key → Type 0) → Key → W → Type 0
HalfWay Has req = Between Has secret (record req { name = req.name ++ "-secret" }) stateful_set req

-- The world after `n` reconciliations.
abbrev pub after : {W : Type 0} → Platform W → Key → ℕ → W → W
after p req zero w = w
after p req (suc n) w = after p req n (reconcile p req w).1

-- A run that leaves the request half-way, and that has not returned if the cluster was found.
abbrev pub Blocked :
    {W : Type 0}
    → (W → Kind → Key → Type 0)
    → Key
    → Reply GroupReplicationCluster
    → Outcome Error (Unit {0}) × W
    → Type 0
Blocked Has req (done mgr) x = Stuck (HalfWay Has req) x
Blocked Has req (failed e) x = HalfWay Has req x.1

behind-Blocked :
    {W : Type 0} (Has : W → Kind → Key → Type 0) (req : Key) (r : Reply GroupReplicationCluster)
    (x : Outcome Error (Unit {0}) × W)
    → Blocked Has req r x
    → HalfWay Has req x.1
behind-Blocked Has req (done mgr) x h = behind-Stuck (HalfWay Has req) x h
behind-Blocked Has req (failed e) x h = h

module _ {W : Type 0} (p : Platform W) (Has : W → Kind → Key → Type 0) (laws : Persists p Has)
    (refuses : Refuses p Has) (req : Key) where
  create_secret-Stuck :
      (mgr : GroupReplicationCluster)
      → Ensures (HalfWay Has req) (create_secret p req mgr) (λ _ _. ⊥) (HalfWay Has req)
  unfolding create_secret pod_of new_secret_env
  create_secret-Stuck mgr =
      let I = HalfWay Has req in
      Ensures-bind {M = λ _. I}
        (Ensures-lift-bind (deref mgr.spec.cluster_spec) _
          (λ cluster _. Ensures-lift (deref cluster.pod_spec) (λ _ _ w h. h) (λ w h. h)) (λ w h. h))
        λ pod.
          Ensures-lift-bind (first pod.containers) _
            (λ container _.
              Ensures-never _ (Between-refused p Has laws refuses secret _ stateful_set req _ refl))
            (λ w h. h)

  looked_up-Stuck :
      (mgr : GroupReplicationCluster) (r : Reply StatefulSet)
      → Ensures {W = W} {A = Unit {0}}
          (λ w. OnDone (λ _. ⊥) r × HalfWay Has req w)
          (elim r [ done _ ↦ pure tt | failed _ ↦ create_resources p req mgr ])
          (λ _ _. ⊥)
          (HalfWay Has req)
  unfolding create_resources
  looked_up-Stuck mgr (done d) = record { at = λ w h. absurd h.0 }
  looked_up-Stuck mgr (failed e) = record {
    at = λ w h. (Ensures-never _ (create_secret-Stuck mgr)).at w h.1;
  }

  reconcile_found-Stuck :
      (mgr : GroupReplicationCluster)
      → Ensures (HalfWay Has req) (reconcile_found p req mgr) (λ _ _. ⊥) (HalfWay Has req)
  unfolding reconcile_found
  reconcile_found-Stuck mgr =
      Ensures-bind (Between-missing p Has laws refuses secret _ stateful_set req)
        (looked_up-Stuck mgr)

  -- What follows the look-up of the cluster.
  abbrev looked_up : Reply GroupReplicationCluster → Op W (Unit {0})
  looked_up (done mgr) = reconcile_found p req mgr
  looked_up (failed not_found) = pure tt
  looked_up (failed e) = fail (api e)

  answer-Blocked :
      (x : Reply GroupReplicationCluster × W)
      → HalfWay Has req x.1
      → Blocked Has req x.0 (looked_up x.0 x.1)
  answer-Blocked (done mgr, w) h = (reconcile_found-Stuck mgr).at w h
  answer-Blocked (failed not_found, w) h = h
  answer-Blocked (failed already_exists, w) h = h
  answer-Blocked (failed conflict, w) h = h
  answer-Blocked (failed (other m), w) h = h

  once-Blocked :
      (w : W) → HalfWay Has req w → Blocked Has req (p.get cluster_kind req w).0 (reconcile p req w)
  unfolding reconcile ◌>>=◌
  once-Blocked w h =
      answer-Blocked (p.get cluster_kind req w)
        (Between-get p Has laws refuses secret _ stateful_set req cluster_kind req w h)

  -- Where the secret "<name>-secret" of a request is there and its stateful set is not, as a
  -- reconciliation leaves it that stopped after the secret, no later reconciliation that finds the
  -- cluster returns, however many there are and whatever the cluster says: each fails or panics. All
  -- of them, those that do not find it too, leave the secret there and the stateful set missing. This
  -- holds on a server that keeps what it holds and refuses to create it again, while nobody else
  -- creates or deletes.
  pub reconcile-Blocked :
      (w : W)
      → HalfWay Has req w
      → (n : ℕ)
      → Blocked Has req
          (p.get cluster_kind req (after p req n w)).0
          (reconcile p req (after p req n w))
  reconcile-Blocked w half zero = once-Blocked w half
  reconcile-Blocked w half (suc n) =
      reconcile-Blocked (reconcile p req w).1
        (behind-Blocked Has req (p.get cluster_kind req w).0 (reconcile p req w)
          (once-Blocked w half))
        n
