-- ===== src/Mysql/Gtid/Digits.antt =====
-- Decimal numbers as texts, and what `strconv.ParseInt` reads in them.
use greatsql_operator.Prelude.{
  ℕ, zero, suc, ◌+◌, ◌-◌, ◌*◌, ◌/◌, ◌%◌, ◌≤◌, ◌<◌, ◌≡◌, ◌≢◌, refl, true, inl, inr, [], ◌∷◌, ◌++◌,
  arith, All, ltb, Bool-cases, if◌then◌else◌,
}
use greatsql_operator.Mysql.Gtid.{Bytes, is_digit, value}
use greatsql_operator.Mysql.Gtid.Search.{IsRun}

-- The digits of `n`, with enough fuel.
digits_from : ℕ → ℕ → Bytes
digits_from zero n = []
digits_from (suc fuel) n =
    let rest = digits_from fuel (n / 10) ++ ((b'0' + n % 10) ∷ []) in
    if ltb n 10 then (b'0' + n) ∷ [] else rest

-- A number above 0 needs less fuel than itself.
pub digits : ℕ → Bytes
unfolding digits_from
digits n = digits_from (suc n) n

value-append : (a : ℕ) (s : Bytes) (c : ℕ) → value a (s ++ (c ∷ [])) ≡ value a s * 10 + (c - b'0')
unfolding value
value-append a [] c = refl
value-append a (d ∷ s) c = value-append (a * 10 + (d - b'0')) s c

value-digits_from : (f n : ℕ) → n < f → value 0 (digits_from f n) ≡ n
unfolding digits_from value
value-digits_from zero n h = absurd (omega arith)
value-digits_from (suc f) n h = elim (Bool-cases (ltb n 10)) [
  | inl small ↦ rw small (omega arith)
  | inr large ↦
      let ten : 10 ≤ n = ground arith in
      rw large (
        omega (
          arith,
          value-append 0 (digits_from f (n / 10)) (b'0' + n % 10),
          value-digits_from f (n / 10),
        ))
]

-- The digits of a number are read back as the number.
pub value-digits : (n : ℕ) → value 0 (digits n) ≡ n
unfolding digits
value-digits n = value-digits_from (suc n) n (omega arith)

All-snoc :
    (s : Bytes) (c : ℕ)
    → All (λ d. is_digit d ≡ true) s
    → is_digit c ≡ true
    → All (λ d. is_digit d ≡ true) (s ++ (c ∷ []))
All-snoc [] c h k = (k, tt)
All-snoc (d ∷ s) c h k = (h.0, All-snoc s c h.1 k)

digits_from-All : (f n : ℕ) → All (λ d. is_digit d ≡ true) (digits_from f n)
unfolding digits_from
digits_from-All zero n = tt
digits_from-All (suc f) n = elim (Bool-cases (ltb n 10)) [
  | inl small ↦ rw small (ground arith, tt)
  | inr large ↦ rw large (
      All-snoc (digits_from f (n / 10)) (b'0' + n % 10) (digits_from-All f (n / 10)) (ground arith))
]

snoc-ne-nil : (s : Bytes) (c : ℕ) → s ++ (c ∷ []) ≢ []
snoc-ne-nil [] c e = cc
snoc-ne-nil (d ∷ s) c e = cc

pub digits-IsRun : (n : ℕ) → IsRun is_digit (digits n)
unfolding digits digits_from
digits-IsRun n = (
  elim (Bool-cases (ltb n 10)) [
    | inl small ↦ rw small (λ e. cc)
    | inr large ↦ rw large (snoc-ne-nil (digits_from n (n / 10)) (b'0' + n % 10))
  ],
  digits_from-All (suc n) n,
)
