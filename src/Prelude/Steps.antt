-- ===== src/Prelude/Steps.antt =====
-- Steps of the program over the world outside: a step returns, fails or panics, and what it did before
-- it failed stays done.
use mathlib.Core.Path.{◌≡◌, refl}
use greatsql_operator.Prelude.Results.{Outcome, ok, err, panic}

-- `W` is the world, `E` the errors.
abbrev pub Step : Type 0 → Type 0 → Type 0 → Type 0
Step E W A = W → Outcome E A × W

module _ {E W : Type 0} where
  abbrev pub continue : {A B : Type 0} → Outcome E A → (A → Step E W B) → Step E W B
  continue (ok a) f w = f a w
  continue (err e) f w = (err e, w)
  continue (panic p) f w = (panic p, w)

  infixl 5 ◌>>=◌ ◌>>◌
  unfoldable pub ◌>>=◌ : {A B : Type 0} → Step E W A → (A → Step E W B) → Step E W B
  ◌>>=◌ m f w = let (r, w') = m w in continue r f w'

  abbrev pub ◌>>◌ : {A B : Type 0} → Step E W A → Step E W B → Step E W B
  m >> n = m >>= λ _. n

  abbrev pub pure : {A : Type 0} → A → Step E W A
  pure a w = (ok a, w)

  abbrev pub fail : {A : Type 0} → E → Step E W A
  fail e w = (err e, w)

  -- a computation that touches nothing outside
  abbrev pub lift : {A : Type 0} → Outcome E A → Step E W A
  lift r w = (r, w)

module _ {E W A B : Type 0} where
  continue_congr :
      (f g : A → Step E W B) (r : Outcome E A) (w : W)
      → ((a : A) (v : W) → f a v ≡ g a v)
      → continue r f w ≡ continue r g w
  continue_congr f g (ok a) w h = h a w
  continue_congr f g (err e) w h = refl
  continue_congr f g (panic e) w h = refl

  -- Steps that do the same behind a step may be exchanged.
  pub bind_congr :
      (m : Step E W A) (f g : A → Step E W B) (w : W)
      → ((a : A) (v : W) → f a v ≡ g a v)
      → (m >>= f) w ≡ (m >>= g) w
  unfolding ◌>>=◌
  bind_congr m f g w h = continue_congr f g (m w).0 (m w).1 h

module _ {E W B : Type 0} where
  continue-pure :
      (k : Step E W B) (x : Outcome E (Unit {0}) × W)
      → continue
          (continue x.0 (λ _. pure tt) x.1).0
          (λ _. k)
          (continue {E = E} x.0 (λ _. pure tt) x.1).1
        ≡ continue x.0 (λ _. k) x.1
  continue-pure k (ok _, w) = refl
  continue-pure k (err e, w) = refl
  continue-pure k (panic e, w) = refl

  -- A step that returns nothing is not changed by returning nothing once more.
  pub pure_between :
      (m : Step E W (Unit {0})) (k : Step E W B) (w : W) → ((m >> pure tt) >> k) w ≡ (m >> k) w
  unfolding ◌>>=◌
  pure_between m k w = continue-pure k (m w)
