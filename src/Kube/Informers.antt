-- ===== src/Kube/Informers.antt =====
-- internal/pkg/kube/Informer.go: what the handlers of the informers do with the old and the new state
-- of an object. A handler panics on an object that is not of its kind.
pub mod Resync
use Prim.Native.String.{◌++◌}
use text.Mathlib.Text.{◌==◌ as str_eq}
use greatsql_operator.Prelude.{
  String, ◌≡◌, Bool, false, Option, none, some, List, [], ◌∷◌, arith, ◌⊎◌, Outcome, ok, panic,
  library_panic, type_assertion, first, ◌>>=◌, ◌==◌, if◌then◌else◌,
}
use mathlib.Core.List.{◌++◌ as append}
use greatsql_operator.Prelude.Int.{ℤ, pos, negsuc}
use greatsql_operator.Prelude.Decimal.{print_ℤ}
use greatsql_operator.Kube.Objects.{Secret}

-- What a handler does: it prints a line, or calls `onUpdate` with two secrets.
pub data Action : Type 0 where
  line : String → Action
  on_update : Secret → Secret → Action

-- The fields of a pod, of a deployment or a stateful set, and of a claim that the handlers look at.
pub record WatchedPod : Type 0 where
  pub name : String
  pub restart_counts : List ℤ  -- `Status.ContainerStatuses[i].RestartCount`

pub record WatchedWorkload : Type 0 where
  pub name : String
  pub replicas : ℤ

pub record WatchedClaim : Type 0 where
  pub name : String
  pub phase : String

-- An object that an informer hands over.
pub data Watched : Type 0 where
  pod_object : WatchedPod → Watched
  deployment_object : WatchedWorkload → Watched
  stateful_set_object : WatchedWorkload → Watched
  claim_object : WatchedClaim → Watched
  secret_object : Secret → Watched
  other_object : Watched

-- The type assertions of the handlers.
module _ {E : Type 0} where
  abbrev pub as_pod : Watched → Outcome E WatchedPod
  as_pod (pod_object o) = ok o
  as_pod _ = panic type_assertion

  abbrev pub as_deployment : Watched → Outcome E WatchedWorkload
  as_deployment (deployment_object o) = ok o
  as_deployment _ = panic type_assertion

  abbrev pub as_stateful_set : Watched → Outcome E WatchedWorkload
  as_stateful_set (stateful_set_object o) = ok o
  as_stateful_set _ = panic type_assertion

  abbrev pub as_claim : Watched → Outcome E WatchedClaim
  as_claim (claim_object o) = ok o
  as_claim _ = panic type_assertion

  abbrev pub as_secret : Watched → Outcome E Secret
  as_secret (secret_object o) = ok o
  as_secret _ = panic type_assertion

abbrev pub same_int : ℤ → ℤ → Bool
same_int (pos m) (pos n) = m == n
same_int (negsuc m) (negsuc n) = m == n
same_int _ _ = false

-- The handler of `PodInformer`
unfoldable pub pod_updated : {E : Type 0} → Watched → Watched → Outcome E (List Action)
pod_updated old_obj new_obj = do
  old ← as_pod old_obj
  new ← as_pod new_obj
  before ← first old.restart_counts
  after ← first new.restart_counts
  if same_int before after
      then ok []
      else ok (
          line (
            "Pod "
            ++ (new.name ++ (" has been restarted. Restart count: " ++ (print_ℤ after ++ "\n"))))
          ∷ [])

-- The lines of the handlers of `DeploymentInformer` and `StatefulSetInformer`
unfoldable pub workload_lines : String → WatchedWorkload → WatchedWorkload → List Action
workload_lines kind old new =
    if same_int old.replicas new.replicas
    then []
    else line (
        kind
        ++ (" "
            ++ (new.name ++ (" has been updated. Replicas: " ++ (print_ℤ new.replicas ++ "\n")))))
      ∷ []

unfoldable pub deployment_updated : {E : Type 0} → Watched → Watched → Outcome E (List Action)
unfolding workload_lines
deployment_updated old_obj new_obj = do
  old ← as_deployment old_obj
  new ← as_deployment new_obj
  ok (workload_lines "Deployment" old new)

unfoldable pub stateful_set_updated : {E : Type 0} → Watched → Watched → Outcome E (List Action)
unfolding workload_lines
stateful_set_updated old_obj new_obj = do
  old ← as_stateful_set old_obj
  new ← as_stateful_set new_obj
  ok (workload_lines "StatefulSet" old new)

-- The handler of `PersistentVolumeClaimInformer`
unfoldable pub claim_updated : {E : Type 0} → Watched → Watched → Outcome E (List Action)
claim_updated old_obj new_obj = do
  old ← as_claim old_obj
  new ← as_claim new_obj
  if str_eq old.phase new.phase
      then ok []
      else ok (
          line ("PVC " ++ (new.name ++ (" has been updated. Phase: " ++ (new.phase ++ "\n")))) ∷ [])

-- The line on two keys that differ.
abbrev pub key_lines : String → String → List Action
key_lines old new =
    if str_eq old new
    then []
    else line ("Secret key has been changed from " ++ (old ++ (" to " ++ (new ++ "\n")))) ∷ []

-- What is done for a new version.
abbrev pub version_actions : Secret → Secret → List Action
version_actions old new =
    if str_eq old.meta.resource_version new.meta.resource_version
    then []
    else on_update old new
      ∷ line (
          "Secret "
          ++ (new.meta.name
              ++ (" has been updated. ResourceVersion: " ++ (new.meta.resource_version ++ "\n"))))
      ∷ []

-- The key, or the text of the error, of `cache.MetaNamespaceKeyFunc`.
pub data Keyed : Type 0 where
  key : String → Keyed
  no_key : String → Keyed

-- The handler of `SecretInformer`; `key_func` is `cache.MetaNamespaceKeyFunc`.
unfoldable pub secret_updated :
    {E : Type 0} → (Secret → Keyed) → Watched → Watched → Outcome E (List Action)
secret_updated key_func old_obj new_obj = do
  old ← as_secret old_obj
  new ← as_secret new_obj
  elim (key_func old) [
    | no_key e ↦ ok (line ("Error getting key for old secret: " ++ (e ++ "\n")) ∷ [])
    | key before ↦ elim (key_func new) [
      | no_key e ↦ ok (line ("Error getting key for new secret: " ++ (e ++ "\n")) ∷ [])
      | key after ↦ ok (append (key_lines before after) (version_actions old new))
    ]
  ]

-- `informerUpdate`: the handler is added to the informer, and the program panics where that fails.
unfoldable pub informer_update : {E I H : Type 0} → (I → H → Option String) → I → H → Outcome E I
informer_update add_event_handler informer handler = elim (add_event_handler informer handler) [
  | none ↦ ok informer
  | some _ ↦ panic library_panic
]
