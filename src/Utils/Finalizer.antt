-- ===== src/Utils/Finalizer.antt =====
-- internal/utils/finalizer.go: what is deleted when a SingleInstance goes, and the finalizer that
-- holds it back until then. Each method returns the instance as it has left it.
pub mod Cleanup
pub mod Freed
use Prim.Native.String.{◌++◌}
use text.Mathlib.Text.{◌==◌ as str_eq}
use greatsql_operator.Prelude.{
  ℕ, zero, suc, ◌+◌, String, Bool, true, false, not, ◌&&◌, Option, none, some, if◌then◌else◌,
}
use greatsql_operator.Prelude.Int.{pos_part}
use greatsql_operator.Prelude.Decimal.{print}
use greatsql_operator.Consts
use greatsql_operator.Api.Meta.{Raw, Key}
use greatsql_operator.Api.Instance.{SingleInstance, get_size}
use greatsql_operator.Kube.Objects.{Kind, claim, deployment, config_map, service, instance_kind}
use greatsql_operator.Prelude.Steps.{◌>>=◌, ◌>>◌, pure, fail}
use greatsql_operator.Kube.Platform.{
  ApiError, not_found, Reply, done, failed, Error, api, Platform, Op, request, attempt,
}

-- `t.IsZero()`, of a nil time too
abbrev pub is_zero : Option Raw → Bool
is_zero none = true
is_zero (some t) = str_eq t ""

-- The name of the `i`-th volume claim that is deleted.
unfoldable pub deleted_claim_name : String → ℕ → String
deleted_claim_name name i = name ++ ("-db-" ++ print i)

-- The name of the configuration that is deleted.
unfoldable pub deleted_config_map_name : String → String
deleted_config_map_name name = name ++ "config"

-- `err != nil && !errors.IsNotFound(err)`
abbrev pub or_gone : {W : Type 0} → Reply (Unit {0}) → Op W (Unit {0})
or_gone (done _) = pure tt
or_gone (failed not_found) = pure tt
or_gone (failed e) = fail (api e)

module _ {W : Type 0} (p : Platform W) where
  unfoldable pub delete_if_there : Kind → Key → Op W (Unit {0})
  unfolding ◌>>=◌
  delete_if_there kind key = do reply ← attempt (p.delete kind key); or_gone reply

  abbrev pub key_in : SingleInstance → String → Key
  key_in g name = record { namespace = g.meta.namespace; name = name }

  -- the loop of `finalizePersistentVolumeClaims`, with `n` rounds left at `i`
  unfoldable pub delete_claims : SingleInstance → ℕ → ℕ → Op W (Unit {0})
  unfolding delete_if_there deleted_claim_name
  delete_claims g zero i = pure tt
  delete_claims g (suc n) i = do
    delete_if_there claim (key_in g (deleted_claim_name g.meta.name i))
    delete_claims g n (i + 1)

  unfoldable pub finalize_persistent_volume_claims : SingleInstance → Op W (Unit {0})
  unfolding delete_claims get_size
  finalize_persistent_volume_claims g = delete_claims g (pos_part (get_size g.spec)) 0

  unfoldable pub finalize_deployment : SingleInstance → Op W (Unit {0})
  unfolding delete_if_there
  finalize_deployment g = delete_if_there deployment (key_in g g.meta.name)

  unfoldable pub finalize_service : SingleInstance → Op W (Unit {0})
  unfolding delete_if_there
  finalize_service g = delete_if_there service (key_in g g.meta.name)

  unfoldable pub finalize_config_map : SingleInstance → Op W (Unit {0})
  unfolding delete_if_there deleted_config_map_name
  finalize_config_map g =
      delete_if_there config_map (key_in g (deleted_config_map_name g.meta.name))

  -- `RemoveFinalizer` of the library, on the instance
  abbrev pub without_finalizer : SingleInstance → SingleInstance
  without_finalizer g = record g {
    meta = record g.meta {
      finalizers = p.remove_finalizer g.meta.finalizers Consts.greatsql_finalizer;
    };
  }

  abbrev pub with_finalizer : SingleInstance → SingleInstance
  with_finalizer g = record g {
    meta = record g.meta {
      finalizers = p.add_finalizer g.meta.finalizers Consts.greatsql_finalizer;
    };
  }

  abbrev pub has_finalizer : SingleInstance → Bool
  has_finalizer g = p.contains_finalizer g.meta.finalizers Consts.greatsql_finalizer

  -- `HandleFinalizer`
  unfoldable pub handle_finalizer : SingleInstance → Op W SingleInstance
  unfolding finalize_persistent_volume_claims finalize_deployment finalize_service
      finalize_config_map
  handle_finalizer g =
      if not (is_zero g.meta.deletion_timestamp) && has_finalizer g
      then (do
        finalize_persistent_volume_claims g
        finalize_deployment g
        finalize_service g
        finalize_config_map g
        request (p.update instance_kind (without_finalizer g)))
      else pure g

  -- `AddFinalizer`
  unfoldable pub add_finalizer : SingleInstance → Op W SingleInstance
  add_finalizer g =
      if has_finalizer g then pure g else request (p.update instance_kind (with_finalizer g))

  -- `RemoveFinalizer`
  unfoldable pub remove_finalizer : SingleInstance → Op W SingleInstance
  remove_finalizer g =
      if has_finalizer g then request (p.update instance_kind (without_finalizer g)) else pure g
