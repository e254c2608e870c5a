-- ===== src/Prelude/Results.antt =====
-- What a call of a Go function may come to: a result, an error value, or a panic.
use mathlib.Core.Option.{Option, none, some}
use mathlib.Core.List.{List, [], ◌∷◌}
use mathlib.Core.Path.{◌≡◌, refl}

-- The run-time faults of the code: a nil pointer, an index out of range, a call that panics, a type
-- assertion that fails.
pub data Fault : Type 0 where
  nil_dereference index_out_of_range library_panic type_assertion : Fault

pub data Outcome {ℓ} (E A : Type ℓ) : Type ℓ where
  ok : A → Outcome E A
  err : E → Outcome E A
  panic : Fault → Outcome E A

-- `abbrev`, so that `ok a >>= f` computes wherever it stands.
infixl 5 ◌>>=◌ ◌>>◌
abbrev pub ◌>>=◌ {ℓ} : {E A B : Type ℓ} → Outcome E A → (A → Outcome E B) → Outcome E B
ok a >>= f = f a
err e >>= f = err e
panic p >>= f = panic p

abbrev pub ◌>>◌ {ℓ} : {E A B : Type ℓ} → Outcome E A → Outcome E B → Outcome E B
m >> k = m >>= λ _. k

-- `*p`
abbrev pub deref : {E A : Type 0} → Option A → Outcome E A
deref none = panic nil_dereference
deref (some a) = ok a

-- `l[0]`
abbrev pub first : {E A : Type 0} → List A → Outcome E A
first [] = panic index_out_of_range
first (a ∷ _) = ok a

-- A chain that returned has gone through its first part.
pub >>=-eq-ok {ℓ} :
    {E A B : Type ℓ} (r : Outcome E A) (k : A → Outcome E B) {c : B}
    → (r >>= k) ≡ ok c
    → (a : A) × (r ≡ ok a) × (k a ≡ ok c)
>>=-eq-ok (err e) k h = cc
>>=-eq-ok (panic p) k h = cc
>>=-eq-ok (ok a) k h = (a, refl, h)

pub ok_inj {ℓ} : {E A : Type ℓ} {a b : A} → ◌≡◌ {A = Outcome E A} (ok a) (ok b) → a ≡ b
ok_inj h = cc
