-- ===== src/Controller/Single/Names.antt =====
-- The names of what the controller creates against the names that the workload and the cleanup use.
use Prim.Native.String.{◌++◌}
use text.Mathlib.Text.{starts_with}
use text.Mathlib.TextPositions.{starts_with-append}
use greatsql_operator.Prelude.{
  ℕ, zero, suc, ◌+◌, String, ◌≡◌, ◌≢◌, refl, ap, subst, All, All-append,
}
use greatsql_operator.Prelude.Int.{pos_part}
use greatsql_operator.Prelude.Decimal.{print}
use greatsql_operator.Consts
use greatsql_operator.Api.Meta.{Key}
use greatsql_operator.Api.Instance.{SingleInstance, get_size}
use greatsql_operator.Kube.Objects.{claim, config_map, key_of}
use greatsql_operator.Kube.Builders.Plain.{new_config_map}
use greatsql_operator.Kube.Builders.Names.{append-ne, literals}
use greatsql_operator.Kube.Platform.{Platform}
use greatsql_operator.Kube.Trace.{Log, delete_call, key_of_call}
use greatsql_operator.Utils.Finalizer.{deleted_claim_name, deleted_config_map_name}
use greatsql_operator.Utils.Finalizer.Cleanup.{claims_plan, cleanup_plan}
use greatsql_operator.Controller.Single.Create.{config_map_for}

pub claim_name-ne : (name : String) (i : ℕ) → deleted_claim_name name i ≢ name ++ Consts.db
unfolding deleted_claim_name
claim_name-ne name i =
    append-ne name ("-db-" ++ print i) "db"
      λ e. cc (starts_with-append "-db-" (print i), ap (λ t. starts_with t "-db-") e)

claims_plan-misses :
    (g : SingleInstance) (n i : ℕ)
    → All
        (λ c. c ≢ delete_call claim (record (key_of g.meta) { name = g.meta.name ++ Consts.db }))
        (claims_plan g n i)
unfolding claims_plan
claims_plan-misses g zero i = tt
claims_plan-misses g (suc n) i = (
  λ e. claim_name-ne g.meta.name i (ap (λ c. (key_of_call c).name) e),
  claims_plan-misses g n (i + 1),
)

claims_plan-kind :
    (g : SingleInstance) (n i : ℕ) (key : Key)
    → All (λ c. c ≢ delete_call config_map key) (claims_plan g n i)
unfolding claims_plan
claims_plan-kind g zero i key = tt
claims_plan-kind g (suc n) i key = (λ e. cc, claims_plan-kind g n (i + 1) key)

-- A plan misses the claim and the configuration that are created for a request.
abbrev pub Misses : Key → Log → Type 0
Misses req plan =
    All (λ c. c ≢ delete_call claim (record req { name = req.name ++ Consts.db })) plan
    × All (λ c. c ≢ delete_call config_map (key_of (config_map_for req).meta)) plan

cleanup_plan-Misses : (g : SingleInstance) → Misses (key_of g.meta) (cleanup_plan g)
unfolding cleanup_plan config_map_for new_config_map deleted_config_map_name
cleanup_plan-Misses g =
    let n = pos_part (get_size g.spec) in
    (
      All-append _ (claims_plan g n 0) _ (claims_plan-misses g n 0)
          (λ e. cc, (λ e. cc, (λ e. cc, (λ e. cc, tt)))),
      All-append _ (claims_plan g n 0) _ (claims_plan-kind g n 0 _) (
        λ e. cc,
        (
          λ e. cc,
          (
            λ e.
                append-ne g.meta.name "config" "-config" (literals refl)
                  (ap (λ c. (key_of_call c).name) e),
            (λ e. cc, tt),
          ),
        ),
      ),
    )

-- The cleanup of an instance deletes neither the claim nor the configuration that `createResources`
-- creates for it: their names are "<name>db" and "<name>-config", and those of the deletions are
-- "<name>-db-<i>" and "<name>config".
pub created_is_not_deleted :
    (req : Key) (g : SingleInstance) → key_of g.meta ≡ req → Misses req (cleanup_plan g)
created_is_not_deleted req g same =
    subst (λ r. Misses r (cleanup_plan g)) same (cleanup_plan-Misses g)
