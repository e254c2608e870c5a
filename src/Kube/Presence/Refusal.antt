-- ===== src/Kube/Presence/Refusal.antt =====
-- A server that refuses to create what it holds, between the creations of two objects.
use greatsql_operator.Prelude.{String, ◌≡◌, subst, sym, Outcome, ok, err, panic}
use greatsql_operator.Prelude.Steps.{◌>>=◌}
use greatsql_operator.Api.Meta.{Key}
use greatsql_operator.Kube.Objects.{Kind, Obj, meta_of, key_of}
use greatsql_operator.Kube.Platform.{
  Reply, done, failed, already_exists, Error, Platform, Op, request, attempt,
}
use greatsql_operator.Kube.Ensures.{
  Met, Answered, Ensures, Ensures-request, Ensures-attempt, Ensures-bind,
}
use greatsql_operator.Kube.Keeps.{OnDone}
use greatsql_operator.Kube.Presence.{Persists}

-- What the API server documents: to create an object that it holds is refused, and an object that it
-- does not hold is not there after a request that does not create one.
pub record Refuses {W : Type 0} (p : Platform W) (Has : W → Kind → Key → Type 0) : Type 0 where
  pub taken :
      (k : Kind) (o : Obj k) (w : W)
      → Has w k (key_of (meta_of k o))
      → (p.create k o w).0 ≡ failed already_exists
  pub under_refusal :
      (k j : Kind) (key : Key) (o : Obj j) (w : W)
      → (p.create j o w).0 ≡ failed already_exists
      → ¬ Has w k key
      → ¬ Has (p.create j o w).1 k key
  pub under_get :
      (k j : Kind) (key other : Key) (w : W) → ¬ Has w k key → ¬ Has (p.get j other w).1 k key
  pub under_update :
      (k j : Kind) (key : Key) (o : Obj j) (w : W) → ¬ Has w k key → ¬ Has (p.update j o w).1 k key
  pub under_delete :
      (k j : Kind) (key other : Key) (w : W) → ¬ Has w k key → ¬ Has (p.delete j other w).1 k key
  pub under_event :
      (k : Kind) (key : Key) (t r m : String) (w : W)
      → ¬ Has w k key
      → ¬ Has (p.event t r m w) k key

-- The first object is there, and the second is not.
abbrev pub Between : {W : Type 0} → (W → Kind → Key → Type 0) → Kind → Key → Kind → Key → W → Type 0
Between Has k key j other w = Has w k key × ¬ Has w j other

-- A run that has not returned, and has left the world in `I`.
abbrev pub Stuck : {W A : Type 0} → (W → Type 0) → Outcome Error A × W → Type 0
Stuck I x = Met (λ _ _. ⊥) I x

pub behind-Stuck : {W A : Type 0} (I : W → Type 0) (x : Outcome Error A × W) → Stuck I x → I x.1
behind-Stuck I (ok _, w) h = absurd h
behind-Stuck I (err _, w) h = h
behind-Stuck I (panic _, w) h = h

-- Nothing runs behind a step that never returns.
pub Ensures-never :
    {W A B : Type 0} {I : W → Type 0} {m : Op W A} (f : A → Op W B)
    → Ensures I m (λ _ _. ⊥) I
    → Ensures I (m >>= f) (λ _ _. ⊥) I
Ensures-never f h = Ensures-bind h λ _. record { at = λ w no_way. absurd no_way }

module _ {W : Type 0} (p : Platform W) (Has : W → Kind → Key → Type 0) (laws : Persists p Has)
    (refuses : Refuses p Has) (k : Kind) (key : Key) (j : Kind) (other : Key) where
  pub Between-get :
      (i : Kind) (e : Key) (w : W)
      → Between Has k key j other w
      → Between Has k key j other (p.get i e w).1
  Between-get i e w h =
      ((laws.stable k key).under_get i e w h.0, refuses.under_get j i other e w h.1)

  missing-answer :
      (x : Reply (Obj j) × W)
      → Answered (λ _ w. Has w j other) (λ _. Unit) x
      → ¬ Has x.1 j other
      → OnDone (λ _. ⊥) x.0
  missing-answer (done d, w) held not_held = not_held held
  missing-answer (failed e, w) held not_held = tt

  -- The second object is not found.
  pub Between-missing :
      Ensures
        (Between Has k key j other)
        (attempt (p.get j other))
        (λ r w. OnDone (λ _. ⊥) r × Between Has k key j other w)
        (Between Has k key j other)
  Between-missing = Ensures-attempt (p.get j other) λ w h.
      let kept = Between-get j other w h in
      (missing-answer (p.get j other w) (laws.got j other w) kept.1, kept)

  refused-answer :
      (x : Reply (Obj k) × W)
      → x.0 ≡ failed already_exists
      → Between Has k key j other x.1
      → Answered (λ _ _. ⊥) (Between Has k key j other) x
  refused-answer (done m, w) e h = absurd (let no_way : ⊥ = cc in no_way)
  refused-answer (failed _, w) e h = h

  -- The first object is not created again.
  pub Between-refused :
      (o : Obj k)
      → key_of (meta_of k o) ≡ key
      → Ensures
          (Between Has k key j other)
          (request (p.create k o))
          (λ _ _. ⊥)
          (Between Has k key j other)
  Between-refused o named = Ensures-request (p.create k o) λ w h.
      let full = refuses.taken k o w (subst (Has w k) (sym named) h.0) in
      refused-answer (p.create k o w) full
        ((laws.stable k key).under_create k o w h.0, refuses.under_refusal j k other o w full h.1)
