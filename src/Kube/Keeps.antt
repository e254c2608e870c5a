-- ===== src/Kube/Keeps.antt =====
-- Facts about the world that a step keeps, whether it returns or fails, beside what it says of its
-- result.
use greatsql_operator.Prelude.{◌≡◌, Outcome, ok, err, panic}
use greatsql_operator.Prelude.Steps.{◌>>=◌, pure, fail, lift}
use greatsql_operator.Api.Meta.{Key}
use greatsql_operator.Kube.Objects.{Kind, Obj, meta_of, key_of}
use greatsql_operator.Kube.Platform.{Reply, done, failed, Error, Platform, Op, request, attempt}
use greatsql_operator.Kube.Ensures.{
  Met, Answered, Ensures, Ensures-pure, Ensures-fail, Ensures-lift, Ensures-request,
  Ensures-attempt, Ensures-bind, Ensures-within,
}

-- From a world in `I` the step leaves a world in `I`, and what it returns is in `Q`.
abbrev pub Keeps : {W A : Type 0} → (W → Type 0) → Op W A → (A → Type 0) → Type 0
Keeps I m Q = Ensures I m (λ a w. Q a × I w) I

abbrev pub OnDone : {A : Type 0} → (A → Type 0) → Reply A → Type 0
OnDone Q (done a) = Q a
OnDone Q (failed _) = Unit

pub OnDone-any : {A : Type 0} (r : Reply A) → OnDone (λ _. Unit) r
OnDone-any (done a) = tt
OnDone-any (failed e) = tt

-- What the API server documents: a reply is the object that was asked for, or the one that was sent.
pub record KeepsKeys {W : Type 0} (p : Platform W) : Type 0 where
  pub got :
      (k : Kind) (key : Key) (w : W) → OnDone (λ o. key_of (meta_of k o) ≡ key) (p.get k key w).0
  pub created :
      (k : Kind) (o : Obj k) (w : W)
      → OnDone (λ o'. key_of (meta_of k o') ≡ key_of (meta_of k o)) (p.create k o w).0
  pub updated :
      (k : Kind) (o : Obj k) (w : W)
      → OnDone (λ o'. key_of (meta_of k o') ≡ key_of (meta_of k o)) (p.update k o w).0
  pub status_updated :
      (k : Kind) (o : Obj k) (w : W)
      → OnDone (λ o'. key_of (meta_of k o') ≡ key_of (meta_of k o)) (p.update_status k o w).0

Answered-kept :
    {W A : Type 0} (I : W → Type 0) (Q : A → Type 0) (x : Reply A × W)
    → I x.1
    → OnDone Q x.0
    → Answered (λ a w. Q a × I w) I x
Answered-kept I Q (done a, w) kept h = (h, kept)
Answered-kept I Q (failed e, w) kept h = kept

module _ {W : Type 0} (I : W → Type 0) where
  module _ {A : Type 0} {Q : A → Type 0} where
    pub Keeps-pure : (a : A) → Q a → Keeps I (pure a) Q
    Keeps-pure a h = Ensures-pure a (λ w kept. (h, kept))

    pub Keeps-fail : (e : Error) → Keeps {A = A} I (fail e) Q
    Keeps-fail e = Ensures-fail e (λ w kept. kept)

    pub Keeps-lift : (r : Outcome Error A) → ((a : A) → r ≡ ok a → Q a) → Keeps I (lift r) Q
    Keeps-lift r h = Ensures-lift r (λ a e w kept. (h a e, kept)) (λ w kept. kept)

    pub Keeps-request :
        (q : W → Reply A × W)
        → ((w : W) → I w → I (q w).1)
        → ((w : W) → OnDone Q (q w).0)
        → Keeps I (request q) Q
    Keeps-request q h k = Ensures-request q λ w kept. Answered-kept I Q (q w) (h w kept) (k w)

  pub Keeps-attempt :
      {A : Type 0} {Q : Reply A → Type 0} (q : W → Reply A × W)
      → ((w : W) → I w → I (q w).1)
      → ((w : W) → Q (q w).0)
      → Keeps I (attempt q) Q
  Keeps-attempt q h k = Ensures-attempt q λ w kept. (k w, h w kept)

  -- What follows may ensure anything, as long as it keeps the fact where it does not return.
  pub Keeps-before :
      {A B : Type 0} {M : A → Type 0} {Q : B → W → Type 0} {m : Op W A} {f : A → Op W B}
      → Keeps I m M
      → ((a : A) → M a → Ensures I (f a) Q I)
      → Ensures I (m >>= f) Q I
  Keeps-before h k = Ensures-bind h λ a. record { at = λ w met. (k a met.0).at w met.1 }

  pub Keeps-bind :
      {A B : Type 0} {M : A → Type 0} {Q : B → Type 0} {m : Op W A} {f : A → Op W B}
      → Keeps I m M
      → ((a : A) → M a → Keeps I (f a) Q)
      → Keeps I (m >>= f) Q
  Keeps-bind h k = Keeps-before h k

  -- What follows may be about anything else.
  pub Keeps-then :
      {A B : Type 0} {M : A → Type 0} {Q : B → W → Type 0} {m : Op W A} {f : A → Op W B}
      → Keeps I m M
      → ((a : A) → M a → Ensures I (f a) Q (λ _. Unit))
      → Ensures I (m >>= f) Q (λ _. Unit)
  Keeps-then h k =
      Ensures-bind (Ensures-within (λ w kept. kept) (λ a w met. met) (λ w kept. tt) h)
        λ a. record { at = λ w met. (k a met.0).at w met.1 }

-- Where a fact is kept, it holds behind the step.
pub behind :
    {W A : Type 0} (I : W → Type 0) (x : Outcome Error A × W)
    → Met (λ _ w. Unit {0} × I w) I x
    → I x.1
behind I (ok a, w) h = h.1
behind I (err e, w) h = h
behind I (panic f, w) h = h

pub reached :
    {W A : Type 0} (I : W → Type 0) (x : Outcome Error A × W) (a : A)
    → x.0 ≡ ok a
    → Met (λ _. I) (λ _. Unit) x
    → I x.1
reached I (ok b, w) a e h = h
reached I (err b, w) a e h = absurd (let no_way : ⊥ = cc in no_way)
reached I (panic b, w) a e h = absurd (let no_way : ⊥ = cc in no_way)
