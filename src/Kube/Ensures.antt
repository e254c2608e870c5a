-- ===== src/Kube/Ensures.antt =====
-- What a step guarantees, from every world that fits: of its result and the world behind it where it
-- returns, and of the world behind it where it fails or panics.
use greatsql_operator.Prelude.{◌≡◌, refl, sym, subst, Outcome, ok, err, panic}
use greatsql_operator.Prelude.Steps.{continue, ◌>>=◌, pure, fail, lift}
use greatsql_operator.Kube.Platform.{Reply, done, failed, Error, Op, or_error, request, attempt}

abbrev pub Met : {W A : Type 0} → (A → W → Type 0) → (W → Type 0) → Outcome Error A × W → Type 0
Met Q E (ok a, w) = Q a w
Met Q E (err e, w) = E w
Met Q E (panic f, w) = E w

-- From a world in `P`, the step returns into `Q`, or ends without a result in `E`.
pub record Ensures {W A : Type 0} (P : W → Type 0) (m : Op W A) (Q : A → W → Type 0)
    (E : W → Type 0) : Type 0 where
  pub at : (w : W) → P w → Met Q E (m w)

-- What follows from the answer to a request.
abbrev pub Answered : {W A : Type 0} → (A → W → Type 0) → (W → Type 0) → Reply A × W → Type 0
Answered Q E (done a, w) = Q a w
Answered Q E (failed e, w) = E w

module _ {W A : Type 0} (Q : A → W → Type 0) (E : W → Type 0) where
  Met-lift : (r : Outcome Error A) (w : W) → ((a : A) → r ≡ ok a → Q a w) → E w → Met Q E (lift r w)
  Met-lift (ok a) w h e = h a refl
  Met-lift (err _) w h e = e
  Met-lift (panic _) w h e = e

  Met-request : (x : Reply A × W) → Answered Q E x → Met Q E (or_error x.0, x.1)
  Met-request (done a, w) h = h
  Met-request (failed e, w) h = h

  Met-within :
      (Q' : A → W → Type 0) (E' : W → Type 0) (x : Outcome Error A × W)
      → ((a : A) (w : W) → Q' a w → Q a w)
      → ((w : W) → E' w → E w)
      → Met Q' E' x
      → Met Q E x
  Met-within Q' E' (ok a, w) q e met = q a w met
  Met-within Q' E' (err _, w) q e met = e w met
  Met-within Q' E' (panic _, w) q e met = e w met

module _ {W A : Type 0} {P : W → Type 0} {Q : A → W → Type 0} {E : W → Type 0} where
  pub Ensures-pure : (a : A) → ((w : W) → P w → Q a w) → Ensures P (pure a) Q E
  Ensures-pure a h = record { at = h }

  pub Ensures-fail : (e : Error) → ((w : W) → P w → E w) → Ensures P (fail e) Q E
  Ensures-fail e h = record { at = h }

  pub Ensures-lift :
      (r : Outcome Error A)
      → ((a : A) → r ≡ ok a → (w : W) → P w → Q a w)
      → ((w : W) → P w → E w)
      → Ensures P (lift r) Q E
  Ensures-lift r h e = record {
    at = λ w start. Met-lift Q E r w (λ a same. h a same w start) (e w start);
  }

  pub Ensures-request :
      (q : W → Reply A × W) → ((w : W) → P w → Answered Q E (q w)) → Ensures P (request q) Q E
  Ensures-request q h = record { at = λ w start. Met-request Q E (q w) (h w start) }

  -- The conditions may be strengthened in front and weakened behind.
  pub Ensures-within :
      {P' : W → Type 0} {Q' : A → W → Type 0} {E' : W → Type 0} {m : Op W A}
      → ((w : W) → P w → P' w)
      → ((a : A) (w : W) → Q' a w → Q a w)
      → ((w : W) → E' w → E w)
      → Ensures P' m Q' E'
      → Ensures P m Q E
  Ensures-within {Q' = Q'} {E' = E'} {m = m} p q e h = record {
    at = λ w start. Met-within Q E Q' E' (m w) q e (h.at w (p w start));
  }

-- A condition that does not speak of the world may be taken out.
pub Ensures-given :
    {W A X : Type 0} {Q : A → W → Type 0} {E : W → Type 0} {m : Op W A}
    → (X → Ensures (λ _. Unit) m Q E)
    → Ensures (λ _. X) m Q E
Ensures-given h = record { at = λ w x. (h x).at w tt }

module _ {W A : Type 0} {P : W → Type 0} {Q : Reply A → W → Type 0} {E : W → Type 0} where
  -- A request whose error is looked at returns.
  pub Ensures-attempt :
      (q : W → Reply A × W) → ((w : W) → P w → Q (q w).0 (q w).1) → Ensures P (attempt q) Q E
  Ensures-attempt q h = record { at = h }

module _ {W A B : Type 0} (M : A → W → Type 0) (Q : B → W → Type 0) (E : W → Type 0) where
  Met-continue :
      (f : A → Op W B) (x : Outcome Error A × W)
      → ((a : A) → Ensures (M a) (f a) Q E)
      → Met M E x
      → Met Q E (continue x.0 f x.1)
  Met-continue f (ok a, w) h met = (h a).at w met
  Met-continue f (err _, w) h met = met
  Met-continue f (panic _, w) h met = met

module _ {W A B : Type 0} {P : W → Type 0} {M : A → W → Type 0} {Q : B → W → Type 0}
    {E : W → Type 0} where
  pub Ensures-bind :
      {m : Op W A} {f : A → Op W B}
      → Ensures P m M E
      → ((a : A) → Ensures (M a) (f a) Q E)
      → Ensures P (m >>= f) Q E
  unfolding ◌>>=◌
  Ensures-bind {m} {f} h k = record { at = λ w start. Met-continue M Q E f (m w) k (h.at w start) }

module _ {W A B : Type 0} {P : W → Type 0} {Q : B → W → Type 0} {E : W → Type 0} where
  -- Behind a computation, the rest may use what it returned.
  pub Ensures-lift-bind :
      (r : Outcome Error A) (f : A → Op W B)
      → ((a : A) → r ≡ ok a → Ensures P (f a) Q E)
      → ((w : W) → P w → E w)
      → Ensures P (lift r >>= f) Q E
  unfolding ◌>>=◌
  Ensures-lift-bind (ok a) f h e = h a refl
  Ensures-lift-bind (err _) f h e = record { at = e }
  Ensures-lift-bind (panic _) f h e = record { at = e }

-- A request that is answered with an object in `Q`.
pub Answered-done :
    {W A : Type 0} (Q : A → Type 0) (E : W → Type 0) (r : Reply A × W) (a : A)
    → r.0 ≡ done a
    → Q a
    → Answered (λ b _. Q b) E r
Answered-done Q E (done b, w) a same q = subst Q (sym (let e : b ≡ a = cc in e)) q
Answered-done Q E (failed e, w) a same q = absurd (let h : ⊥ = cc in h)

-- A step without an end but a result returns.
pub Met-returns :
    {W A : Type 0} (Q : A → Type 0) (x : Outcome Error A × W)
    → Met (λ a _. Q a) (λ _. ⊥) x
    → (a : A) × (x.0 ≡ ok a) × Q a
Met-returns Q (ok a, w) h = (a, refl, h)
Met-returns Q (err e, w) h = absurd h
Met-returns Q (panic f, w) h = absurd h

abbrev pub IsOk : {A : Type 0} → Outcome Error A → Type 0
IsOk (ok _) = Unit
IsOk (err _) = ⊥
IsOk (panic _) = ⊥

module _ {W A B : Type 0} {P : W → Type 0} {Q : B → W → Type 0} {E : W → Type 0} where
  -- Behind a computation that has a result.
  pub Ensures-IsOk-bind :
      (r : Outcome Error A) (f : A → Op W B)
      → IsOk r
      → ((a : A) → Ensures P (f a) Q E)
      → Ensures P (lift r >>= f) Q E
  unfolding ◌>>=◌
  Ensures-IsOk-bind (ok a) f h k = k a
  Ensures-IsOk-bind (err _) f h k = absurd h
  Ensures-IsOk-bind (panic _) f h k = absurd h

-- A computation with a result in `Q`.
abbrev pub OkWith : {A : Type 0} → (A → Type 0) → Outcome Error A → Type 0
OkWith Q (ok a) = Q a
OkWith Q (err _) = ⊥
OkWith Q (panic _) = ⊥

module _ {W A B : Type 0} {P : W → Type 0} {Q : B → W → Type 0} {E : W → Type 0} where
  -- Behind a computation with such a result.
  pub Ensures-OkWith-bind :
      (R : A → Type 0) (r : Outcome Error A) (f : A → Op W B)
      → OkWith R r
      → ((a : A) → R a → Ensures P (f a) Q E)
      → Ensures P (lift r >>= f) Q E
  unfolding ◌>>=◌
  Ensures-OkWith-bind R (ok a) f h k = k a h
  Ensures-OkWith-bind R (err _) f h k = absurd h
  Ensures-OkWith-bind R (panic _) f h k = absurd h
