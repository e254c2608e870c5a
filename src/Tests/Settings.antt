-- ===== src/Tests/Settings.antt =====
-- The buffer pool of some servers, and admissions of a sample cluster.
use Prim.Native.String.{◌++◌}
use greatsql_operator.Prelude.{ℕ, ◌*◌, ◌+◌, ◌≤◌, ◌<◌, ◌≡◌, refl, some, [], ◌∷◌, arith}
use greatsql_operator.Prelude.Int.{pos}
use greatsql_operator.Prelude.Decimal.{print_ℤ}
use greatsql_operator.Mysql.Config.{calculate_innodb_buffer_pool_size}
use greatsql_operator.Mysql.Config.BufferPool.{pool_mebibytes-exact}
use greatsql_operator.Api.Webhook.Defaults.{admissions, admissions-grow}
use greatsql_operator.Tests.Server.{cluster, member}

pool_mebibytes-exact_example :
    (n : ℕ) × (calculate_innodb_buffer_pool_size (pos 8589934592) ≡ print_ℤ (pos n) ++ "M")
    × (100 * 1048576 * n ≤ 75 * 8589934592)
    × (75 * 8589934592 < 100 * 1048576 * (n + 1))
pool_mebibytes-exact_example = pool_mebibytes-exact 8589934592 (omega arith)

admissions-grow_example :
    admissions 4 (cluster (member (some (pos 3)) ∷ member (some (pos 2)) ∷ []))
    ≡ cluster (member (some (pos 3)) ∷ member (some (pos 6)) ∷ [])
admissions-grow_example =
    admissions-grow 4 2 (cluster (member (some (pos 3)) ∷ member (some (pos 2)) ∷ []))
      (member (some (pos 3))) (member (some (pos 2))) [] refl refl (omega arith)
