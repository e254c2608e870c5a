-- ===== src/Prelude/Int.antt =====
-- Signed integers over the native numbers, for the values of Go's `int` and `int64`.
use Prim.Native.Nat.{ℕ, suc, ◌+◌, ◌-◌, ◌*◌, ◌/◌, ◌%◌, ◌^◌, ◌≤◌, ◌<◌}
use mathlib.Core.Bool.{Bool}
use mathlib.Core.Path.{◌≡◌, refl}
use greatsql_operator.Prelude.Tests.{ltb, if◌then◌else◌}

-- `negsuc n` is -(n + 1).
pub data ℤ : Type 0 where
  pos : ℕ → ℤ
  negsuc : ℕ → ℤ

abbrev pub pos_part : ℤ → ℕ
pos_part (pos n) = n
pos_part (negsuc n) = 0

abbrev pub neg_part : ℤ → ℕ
neg_part (pos n) = 0
neg_part (negsuc n) = suc n

infix 50 ◌≤ℤ◌ ◌<ℤ◌
abbrev pub ◌≤ℤ◌ : ℤ → ℤ → Type 0
a ≤ℤ b = pos_part a + neg_part b ≤ pos_part b + neg_part a

abbrev pub ◌<ℤ◌ : ℤ → ℤ → Type 0
a <ℤ b = pos_part a + neg_part b < pos_part b + neg_part a

abbrev pub ltb_ℤ : ℤ → ℤ → Bool
ltb_ℤ a b = ltb (pos_part a + neg_part b) (pos_part b + neg_part a)

-- The integer with the sign of `a` and the absolute value `n`.
abbrev pub with_sign_of : ℤ → ℕ → ℤ
with_sign_of (pos _) n = pos n
with_sign_of (negsuc _) n = if ltb 0 n then negsuc (n - 1) else pos 0

abbrev pub abs : ℤ → ℕ
abs a = pos_part a + neg_part a

-- The value of an `int64` with the two's complement bit pattern `n`.
abbrev pub of_bits64 : ℕ → ℤ
of_bits64 n = if ltb n (2 ^ 63) then pos n else negsuc (2 ^ 64 - 1 - n)

-- The bit pattern of an integer in 64 bits.
abbrev pub bits64 : ℤ → ℕ
bits64 (pos n) = n % 2 ^ 64
bits64 (negsuc n) = 2 ^ 64 - 1 - n % 2 ^ 64

-- `a * k` in `int64`, which wraps around.
unfoldable pub mul64 : ℤ → ℕ → ℤ
mul64 a k = of_bits64 (bits64 (with_sign_of a (abs a * k)))

-- `a / k`, which truncates towards zero.
unfoldable pub quot : ℤ → ℕ → ℤ
quot a k = with_sign_of a (abs a / k)

mul64_wraps : mul64 (pos (2 ^ 62)) 2 ≡ negsuc (2 ^ 63 - 1)
unfolding mul64
mul64_wraps = refl

quot_truncates : quot (negsuc 6) 2 ≡ negsuc 2
unfolding quot
quot_truncates = refl
