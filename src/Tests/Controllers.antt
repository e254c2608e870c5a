-- ===== src/Tests/Controllers.antt =====
-- Runs of the controllers on the sample servers.
use text.Mathlib.Text.{◌==◌ as str_eq}
use text.Mathlib.TextEquality.{eq_iff}
use greatsql_operator.Prelude.{ℕ, zero, suc, String, ◌≡◌, ◌≢◌, refl, false, arith, err}
use greatsql_operator.Kube.Builders.Names.{literals}
use greatsql_operator.Kube.Objects.{Kind, config_map, Obj, key_of, meta_of}
use greatsql_operator.Kube.Platform.{api, conflict, failed, bad_request}
use greatsql_operator.Prelude.Plans.{Follows}
use greatsql_operator.Kube.Answers.{recorded}
use greatsql_operator.Controller.Single.{validate_spec, reconcile}
use greatsql_operator.Controller.Single.Create.{create_all}
use greatsql_operator.Controller.Single.Update.{update_resource}
use greatsql_operator.Controller.Single.Order.{creation_plan, create_all-Follows}
use greatsql_operator.Controller.Single.Validation.{
  Verdict, validate_spec-Verdict, reconcile_not_found,
}
use greatsql_operator.Controller.Single.Conflict.{RejectsStale, update_resource-conflict}
use greatsql_operator.Tests.Server.{
  accepting, versioned, held_config, version_at, request_key, sample,
}

create_all-Follows_example :
    Follows (creation_plan request_key sample) (create_all (recorded accepting) request_key sample)
create_all-Follows_example = create_all-Follows accepting request_key sample

validate_spec-Verdict_example : Verdict accepting sample 0 (validate_spec accepting sample 0)
validate_spec-Verdict_example = validate_spec-Verdict accepting sample 0

reconcile_not_found_example :
    reconcile accepting request_key 0 ≡ (err (bad_request "size is required"), 1)
reconcile_not_found_example = reconcile_not_found accepting request_key 0 0 refl

other_text : (s t : String) → s ≢ t → str_eq s t ≡ false
other_text s t h = ground (arith, eq_iff s t)

versioned_rejects :
    (k : Kind) (o : Obj k) (w : ℕ)
    → (meta_of k o).resource_version ≢ ""
    → version_at k (key_of (meta_of k o)) w ≢ (meta_of k o).resource_version
    → versioned.update k o w ≡ (failed conflict, w)
versioned_rejects k o zero named moved = rw (
  other_text (meta_of k o).resource_version "" named,
  other_text "1" (meta_of k o).resource_version moved,
)
versioned_rejects k o (suc w) named moved = rw (
  other_text (meta_of k o).resource_version "" named,
  other_text "2" (meta_of k o).resource_version moved,
)

versioned-RejectsStale : RejectsStale versioned version_at
versioned-RejectsStale = record { rejects = versioned_rejects }

update_resource-conflict_example :
    update_resource versioned config_map request_key held_config 0 ≡ (err (api conflict), 1)
update_resource-conflict_example =
    update_resource-conflict versioned config_map request_key held_config held_config 0 0 1
      version_at held_config versioned-RejectsStale refl refl (literals refl) (literals refl)
