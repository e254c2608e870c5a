-- ===== src/Mysql/Config/BufferPool.antt =====
-- The bounds of the buffer pool.
use Prim.Native.String.{◌++◌}
use greatsql_operator.Prelude.{ℕ, ◌+◌, ◌*◌, ◌/◌, ◌≤◌, ◌<◌, ◌^◌, ◌≡◌, refl, arith}
use greatsql_operator.Prelude.Int.{pos, ◌≤ℤ◌, mul64, quot}
use greatsql_operator.Prelude.Decimal.{print_ℤ}
use greatsql_operator.Mysql.Config.{pool_mebibytes, calculate_innodb_buffer_pool_size}

eight_gib : calculate_innodb_buffer_pool_size (pos (8 * 2 ^ 30)) ≡ "6144M"
unfolding calculate_innodb_buffer_pool_size print_ℤ
eight_gib = refl

mul64-exact : (m : ℕ) → m * 75 < 2 ^ 63 → mul64 (pos m) 75 ≡ pos (m * 75)
unfolding mul64
mul64-exact m h = ground arith

-- Below the overflow of `int64` the pool is the largest whole number `n` of mebibytes that is at most
-- three quarters of the memory, and that number is printed.
pub pool_mebibytes-exact :
    (m : ℕ)
    → m * 75 < 2 ^ 63
    → (n : ℕ) × (calculate_innodb_buffer_pool_size (pos m) ≡ print_ℤ (pos n) ++ "M")
      × (100 * 1048576 * n ≤ 75 * m)
      × (75 * m < 100 * 1048576 * (n + 1))
unfolding calculate_innodb_buffer_pool_size quot
pool_mebibytes-exact m h =
    (((m * 75 + 0) / 100 + 0) / 1048576, rw (mul64-exact m h), omega arith, omega arith)

-- From the memory at which the product passes 2^63, up to 2^64, the pool is not positive.
pub pool_mebibytes-overflow :
    (m : ℕ) → 2 ^ 63 ≤ m * 75 → m * 75 < 2 ^ 64 → pool_mebibytes (pos m) ≤ℤ pos 0
unfolding pool_mebibytes
pool_mebibytes-overflow m h k = ground arith
