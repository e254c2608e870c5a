-- ===== src/Prelude/Decimal.antt =====
-- `%d` of `fmt.Sprintf`, for numbers and integers.
use Prim.Native.Nat.{ℕ, zero, suc, ◌/◌, ◌%◌, ◌<◌, ◌≤◌}
use Prim.Native.String.{String, ◌++◌}
use mathlib.Core.Path.{◌≡◌, refl}
use mathlib.Core.Logic.{inl, inr}
use native.Mathlib.Omega.{arith}
use greatsql_operator.Prelude.Tests.{Bool-cases, ◌==◌, ltb, if◌then◌else◌}
use greatsql_operator.Prelude.Int.{ℤ, pos, negsuc}

digit : ℕ → String
digit n =
    if n == 0
    then "0"
    else if n == 1
    then "1"
    else if n == 2
    then "2"
    else if n == 3
    then "3"
    else if n == 4
    then "4"
    else if n == 5
    then "5"
    else if n == 6
    then "6"
    else if n == 7
    then "7"
    else if n == 8
    then "8"
    else "9"

-- The digits of `n`, as far as the fuel allows.
print_from : ℕ → ℕ → String
unfolding digit
print_from zero n = ""
print_from (suc fuel) n =
    let rest = print_from fuel (n / 10) ++ digit (n % 10) in if ltb n 10 then digit n else rest

-- Any fuel above the number gives the same text.
print_from_fuel : (f g n : ℕ) → n < f → n < g → print_from f n ≡ print_from g n
unfolding print_from
print_from_fuel zero g n h k = absurd (omega arith)
print_from_fuel (suc f) zero n h k = absurd (omega arith)
print_from_fuel (suc f) (suc g) n h k = elim (Bool-cases (ltb n 10)) [
  | inl small ↦ rw small
  | inr large ↦
      let ten : 10 ≤ n = ground arith in
      rw (large, print_from_fuel f g (n / 10) (omega arith) (omega arith))
]

unfoldable pub print : ℕ → String
unfolding print_from
print n = print_from (suc n) n

unfoldable pub print_ℤ : ℤ → String
unfolding print
print_ℤ (pos n) = print n
print_ℤ (negsuc n) = "-" ++ print (suc n)

print-port : print 33061 ≡ "33061"
unfolding print
print-port = refl

print_ℤ-negative : print_ℤ (negsuc 41) ≡ "-42"
unfolding print_ℤ
print_ℤ-negative = refl
