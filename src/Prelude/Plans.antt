-- ===== src/Prelude/Plans.antt =====
-- Steps that log what they ask for and how it was answered, and the plans of calls that they follow.
use mathlib.Core.List.{append-nil, append_assoc}
use mathlib.Core.Path.{◌≡◌, refl, sym, ap, ◌∙◌}
use mathlib.Core.List.{List, [], ◌∷◌, ◌++◌}
use mathlib.Core.Option.{Option, none, some}
use mathlib.Core.Logic.{◌⊎◌, inl, inr}
use greatsql_operator.Prelude.Results.{Outcome, ok, err, panic, Fault}
use greatsql_operator.Prelude.Steps.{Step, continue, ◌>>=◌, pure, fail, lift}

-- A call, with the error that it was answered with, if any.
pub record Answered (C E : Type 0) : Type 0 where
  pub call : C
  pub refusal : Option E

abbrev pub answered : {C E : Type 0} → C → Option E → Answered C E
answered call refusal = record { call = call; refusal = refusal }

abbrev pub calls : {C E : Type 0} → List (Answered C E) → List C
calls [] = []
calls (a ∷ l) = a.call ∷ calls l

-- The error with which a step failed.
abbrev pub failure : {E A : Type 0} → Outcome E A → Option E
failure (ok _) = none
failure (err e) = some e
failure (panic _) = none

-- None of the calls was refused, but that the last may have met the error of the step.
abbrev pub Halted : {C E : Type 0} → Option E → List (Answered C E) → Type 0
Halted o [] = Unit
Halted {E = E} o (a ∷ l) =
    ((a.refusal ≡ none) × Halted o l) ⊎ ((l ≡ []) × (e : E) × (a.refusal ≡ some e) × (o ≡ some e))

-- The part of the plan that was not sent is empty if the step returned.
abbrev pub Unsent : {C E A : Type 0} → Outcome E A → List C → Type 0
Unsent (ok _) rest = rest ≡ []
Unsent (err _) rest = Unit
Unsent (panic _) rest = Unit

-- A run from `log` has sent a first part of the plan, and nothing else; the whole plan, if it returned.
-- A call that was refused is the last that was sent, and its error is the one with which the run failed.
pub record Ran {C E W A : Type 0} (plan : List C) (log : List (Answered C E))
    (x : Outcome E A × (W × List (Answered C E))) : Type 0 where
  pub sent : List (Answered C E)
  pub rest : List C
  pub logged_as : x.1.1 ≡ log ++ sent
  pub planned : plan ≡ calls sent ++ rest
  pub complete : Unsent x.0 rest
  pub halted : Halted (failure x.0) sent

-- The step follows the plan, from every world.
pub record Follows {C E W A : Type 0} (plan : List C) (m : Step E (W × List (Answered C E)) A)
    : Type 0 where
  pub at : (w : W) (log : List (Answered C E)) → Ran plan log (m (w, log))

module _ {C E : Type 0} where
  calls-append : (l m : List (Answered C E)) → calls (l ++ m) ≡ calls l ++ calls m
  calls-append [] m = refl
  calls-append (a ∷ l) m = ap (λ k. a.call ∷ k) (calls-append l m)

  Halted-append :
      (o : Option E) (l m : List (Answered C E)) → Halted none l → Halted o m → Halted o (l ++ m)
  Halted-append o [] m h k = k
  Halted-append o (a ∷ l) m (inl (clean, h)) k = inl (clean, Halted-append o l m h k)
  Halted-append o (a ∷ l) m (inr (_, e, _, absurd)) k = cc

module _ {C E W A : Type 0} where
  pub Follows-pure : (a : A) → Follows {C = C} {E = E} {W = W} [] (pure a)
  Follows-pure a = record {
    at = λ w log. record {
      sent = [];
      rest = [];
      logged_as = sym (append-nil log);
      planned = refl;
      complete = refl;
      halted = tt;
    };
  }

  pub Follows-fail : (plan : List C) (e : E) → Follows {W = W} {A = A} plan (fail e)
  Follows-fail plan e = record {
    at = λ w log. record {
      sent = [];
      rest = plan;
      logged_as = sym (append-nil log);
      planned = refl;
      complete = tt;
      halted = tt;
    };
  }

  -- Nothing is sent.
  pub Ran-unsent :
      (log : List (Answered C E)) (w : W) (r : Outcome E A) → Ran {C = C} [] log (lift r (w, log))
  Ran-unsent log w (ok a) = record {
    sent = [];
    rest = [];
    logged_as = sym (append-nil log);
    planned = refl;
    complete = refl;
    halted = tt;
  }
  Ran-unsent log w (err e) = record {
    sent = [];
    rest = [];
    logged_as = sym (append-nil log);
    planned = refl;
    complete = tt;
    halted = tt;
  }
  Ran-unsent log w (panic e) = record {
    sent = [];
    rest = [];
    logged_as = sym (append-nil log);
    planned = refl;
    complete = tt;
    halted = tt;
  }

  pub Follows-lift : (r : Outcome E A) → Follows {C = C} {W = W} [] (lift r)
  Follows-lift r = record { at = λ w log. Ran-unsent log w r }

  -- A step that asks for nothing.
  pub Follows-quiet :
      (g : W → A × W) → Follows {C = C} {E = E} [] (λ x. (ok (g x.0).0, ((g x.0).1, x.1)))
  Follows-quiet g = record {
    at = λ w log. record {
      sent = [];
      rest = [];
      logged_as = sym (append-nil log);
      planned = refl;
      complete = refl;
      halted = tt;
    };
  }

module _ {C E W A B : Type 0} (plan plan' : List C) where
  -- What runs behind a step that returned.
  pub Ran-then :
      (log log' : List (Answered C E)) (a : A) (w : W) (y : Outcome E B × (W × List (Answered C E)))
      → Ran {E = E} plan log (ok a, (w, log'))
      → Ran plan' log' y
      → Ran (plan ++ plan') log y
  Ran-then log log' a w y r s =
      let whole : plan ≡ calls r.sent = r.planned ∙ (rw r.complete (append-nil (calls r.sent))) in
      record {
        sent = r.sent ++ s.sent;
        rest = s.rest;
        logged_as =
            s.logged_as ∙ ap (λ l. l ++ s.sent) r.logged_as ∙ append_assoc log r.sent s.sent;
        planned =
            rw (s.planned, whole, calls-append r.sent s.sent)
              (sym (append_assoc (calls r.sent) (calls s.sent) s.rest));
        complete = s.complete;
        halted = Halted-append (failure y.0) r.sent s.sent r.halted s.halted;
      }

  -- Nothing runs behind a step that failed.
  pub Ran-failed :
      (log : List (Answered C E)) (e : E) (x : W × List (Answered C E))
      → Ran {A = A} plan log (err e, x)
      → Ran {A = B} (plan ++ plan') log (err e, x)
  Ran-failed log e x r = record {
    sent = r.sent;
    rest = r.rest ++ plan';
    logged_as = r.logged_as;
    planned = rw r.planned (append_assoc (calls r.sent) r.rest plan');
    complete = tt;
    halted = r.halted;
  }

  pub Ran-panicked :
      (log : List (Answered C E)) (e : Fault) (x : W × List (Answered C E))
      → Ran {E = E} {A = A} plan log (panic e, x)
      → Ran {E = E} {A = B} (plan ++ plan') log (panic e, x)
  Ran-panicked log e x r = record {
    sent = r.sent;
    rest = r.rest ++ plan';
    logged_as = r.logged_as;
    planned = rw r.planned (append_assoc (calls r.sent) r.rest plan');
    complete = tt;
    halted = r.halted;
  }

module _ {C E W A B : Type 0} (plan plan' : List C) (f : A → Step E (W × List (Answered C E)) B)
    (h : (a : A) → Follows plan' (f a)) where
  Ran-continue :
      (log : List (Answered C E)) (x : Outcome E A × (W × List (Answered C E)))
      → Ran plan log x
      → Ran (plan ++ plan') log (continue x.0 f x.1)
  Ran-continue log (ok a, (w, log')) r =
      Ran-then plan plan' log log' a w (f a (w, log')) r ((h a).at w log')
  Ran-continue log (err e, x) r = Ran-failed plan plan' log e x r
  Ran-continue log (panic e, x) r = Ran-panicked plan plan' log e x r

  -- One step after the other follows one plan after the other.
  pub Follows-bind :
      (m : Step E (W × List (Answered C E)) A) → Follows plan m → Follows (plan ++ plan') (m >>= f)
  unfolding ◌>>=◌
  Follows-bind m k = record { at = λ w log. Ran-continue log (m (w, log)) (k.at w log) }

module _ {C E W A B : Type 0} (plan : List C) where
  -- Behind a computation, the rest may use what it returned.
  pub Follows-lift-bind :
      (r : Outcome E A) (f : A → Step E (W × List (Answered C E)) B)
      → ((a : A) → r ≡ ok a → Follows plan (f a))
      → Follows plan (lift r >>= f)
  unfolding ◌>>=◌
  Follows-lift-bind (ok a) f h = h a refl
  Follows-lift-bind (err e) f h = Follows-fail plan e
  Follows-lift-bind (panic e) f h = record {
    at = λ w log. record {
      sent = [];
      rest = plan;
      logged_as = sym (append-nil log);
      planned = refl;
      complete = tt;
      halted = tt;
    };
  }
