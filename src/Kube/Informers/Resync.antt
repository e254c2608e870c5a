-- ===== src/Kube/Informers/Resync.antt =====
-- What the handlers of the informers do when an object is handed over again without a change.
use text.Mathlib.TextPositions.{eq_refl}
use greatsql_operator.Prelude.{String, ◌≡◌, refl, true, List, [], ◌∷◌, arith, Outcome, ok}
use greatsql_operator.Prelude.Int.{ℤ, pos, negsuc}
use greatsql_operator.Kube.Objects.{Secret}
use greatsql_operator.Kube.Informers.{
  Action, WatchedPod, WatchedWorkload, WatchedClaim, pod_object, deployment_object,
  stateful_set_object, claim_object, secret_object, same_int, Keyed, key, workload_lines,
  pod_updated, deployment_updated, stateful_set_updated, claim_updated, secret_updated,
}

same_int_self : (n : ℤ) → same_int n n ≡ true
same_int_self (pos n) = ground arith
same_int_self (negsuc n) = ground arith

abbrev pub Quiet : Outcome String (List Action) → Type 0
Quiet r = r ≡ ok []

-- Where an informer hands over an object once more, and nothing of it has changed, no handler prints
-- a line or calls `onUpdate`: neither that of a pod whose status has a container, nor those of a
-- deployment, a stateful set, a claim, and a secret that has a key.
pub resync-Quiet :
    (pod : WatchedPod) (n : ℤ) (ns : List ℤ) (workload : WatchedWorkload) (volume : WatchedClaim)
    (key_func : Secret → Keyed) (secret : Secret) (k : String)
    → pod.restart_counts ≡ n ∷ ns
    → key_func secret ≡ key k
    → Quiet (pod_updated (pod_object pod) (pod_object pod))
      × Quiet (deployment_updated (deployment_object workload) (deployment_object workload))
      × Quiet (stateful_set_updated (stateful_set_object workload) (stateful_set_object workload))
      × Quiet (claim_updated (claim_object volume) (claim_object volume))
      × Quiet (secret_updated key_func (secret_object secret) (secret_object secret))
unfolding pod_updated deployment_updated stateful_set_updated claim_updated secret_updated
    workload_lines
resync-Quiet pod n ns workload volume key_func secret k started named = (
  rw (started, same_int_self n) refl,
  rw (same_int_self workload.replicas) refl,
  rw (same_int_self workload.replicas) refl,
  rw (eq_refl volume.phase) refl,
  rw (named, named, eq_refl k, eq_refl secret.meta.resource_version) refl,
)
