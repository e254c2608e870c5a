-- ===== src/Controller/Single.antt =====
-- internal/controller/singleinstance_controller.go. The instance is an object that the steps of a
-- reconciliation share and change: a step takes it and returns it as it has left it. Logging is left
-- out.
pub mod Update
pub mod Create
pub mod Names
pub mod Validation
pub mod Conflict
pub mod Retry
pub mod Order
pub mod Scope
pub mod Promise
use Prim.Native.String.{◌++◌}
use greatsql_operator.Prelude.{
  String, Bool, true, false, Option, none, some, ◌==◌, if◌then◌else◌, deref,
}
use greatsql_operator.Prelude.Int.{ℤ, pos}
use greatsql_operator.Api.Meta.{Key}
use greatsql_operator.Api.Instance.{SingleInstance, zero_instance}
use greatsql_operator.Kube.Objects.{instance_kind}
use greatsql_operator.Prelude.Steps.{◌>>=◌, ◌>>◌, pure, fail, lift}
use greatsql_operator.Kube.Platform.{
  not_found, Reply, done, failed, api, bad_request, Platform, Op, request, attempt, emit,
}
use greatsql_operator.Utils.Finalizer
use Create.{create_resources}
use Update.{watch_resource}

abbrev pub nil_or_zero : Option ℤ → Bool
nil_or_zero none = true
nil_or_zero (some (pos n)) = n == 0
nil_or_zero (some _) = false

-- what `getSingleInstance` does with the reply
abbrev pub or_ignore : {W : Type 0} → Reply SingleInstance → Op W SingleInstance
or_ignore (done s) = pure s
or_ignore (failed not_found) = pure zero_instance
or_ignore (failed e) = fail (api e)

module _ {W : Type 0} (p : Platform W) where
  -- `getSingleInstance`; if there is no such object, the error is dropped and the new instance, with
  -- all its fields zero, is used
  unfoldable pub get_single_instance : Key → Op W SingleInstance
  get_single_instance req = do reply ← attempt (p.get instance_kind req); or_ignore reply

  -- `handleFinalizer`
  unfoldable pub handle_finalizer : SingleInstance → Op W SingleInstance
  handle_finalizer s = elim s.meta.deletion_timestamp [
    | none ↦ pure s
    | some _ ↦ do
      cleaned ← Finalizer.handle_finalizer p s
      freed ← Finalizer.remove_finalizer p cleaned
      request (p.update instance_kind freed)
  ]

  unfoldable pub invalid : String → String → Op W (Unit {0})
  invalid message reason = emit p "Warning" "InvalidSpec" message >> fail (bad_request reason)

  -- `validateSpec`
  unfoldable pub validate_spec : SingleInstance → Op W (Unit {0})
  unfolding invalid
  validate_spec s =
      if nil_or_zero s.spec.size then invalid "size is required" "size is required" else (do
        template ← lift (deref s.spec.pod_spec.persistent_volume_claim_template)
        elim template.storage_class_name [
          | none ↦ invalid "storageClassName cannot be empty" "storageClassName is required"
          | some _ ↦ pure tt
        ])

  -- `validateAndAddFinalizer`
  unfoldable pub validate_and_add_finalizer : SingleInstance → Op W SingleInstance
  unfolding validate_spec
  validate_and_add_finalizer s = do validate_spec s; Finalizer.add_finalizer p s

  -- `Reconcile`
  unfoldable pub reconcile : Key → Op W (Unit {0})
  reconcile req = do
    found ← get_single_instance req
    cleaned ← handle_finalizer found
    valid ← validate_and_add_finalizer cleaned
    created ← create_resources p req valid
    watch_resource p req created
