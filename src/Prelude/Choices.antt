-- ===== src/Prelude/Choices.antt =====
-- Steps whose answers choose between several plans of calls.
use mathlib.Core.Path.{◌≡◌, refl}
use mathlib.Core.List.{List, [], ◌++◌}
use greatsql_operator.Prelude.Results.{Outcome, ok, err, panic}
use greatsql_operator.Prelude.Steps.{Step, continue, ◌>>=◌, lift}
use greatsql_operator.Prelude.Plans.{
  Answered, Ran, Follows, Follows-lift, Ran-then, Ran-failed, Ran-panicked,
}

-- A run from `log` has followed one of the plans.
pub record Chosen {C E W A : Type 0} (Plans : List C → Type 0) (log : List (Answered C E))
    (x : Outcome E A × (W × List (Answered C E))) : Type 0 where
  pub plan : List C
  pub allowed : Plans plan
  pub ran : Ran plan log x

-- From every world the step follows one of the plans.
pub record Obeys {C E W A : Type 0} (Plans : List C → Type 0)
    (m : Step E (W × List (Answered C E)) A) : Type 0 where
  pub at : (w : W) (log : List (Answered C E)) → Chosen Plans log (m (w, log))

module _ {C E W A : Type 0} {Plans : List C → Type 0} where
  pub Obeys-one :
      (plan : List C) (m : Step E (W × List (Answered C E)) A)
      → Plans plan
      → Follows plan m
      → Obeys Plans m
  Obeys-one plan m allowed h = record {
    at = λ w log. record { plan = plan; allowed = allowed; ran = h.at w log };
  }

module _ {C E W A : Type 0} where
  Ran-the :
      (plan : List C) (log : List (Answered C E)) (x : Outcome E A × (W × List (Answered C E)))
      → Chosen (λ q. q ≡ plan) log x
      → Ran plan log x
  Ran-the plan log x c = rw (← c.allowed) c.ran

  -- A choice of one plan.
  pub Follows-the :
      (plan : List C) (m : Step E (W × List (Answered C E)) A)
      → Obeys (λ q. q ≡ plan) m
      → Follows plan m
  Follows-the plan m h = record { at = λ w log. Ran-the plan log (m (w, log)) (h.at w log) }

module _ {C E W A B : Type 0} {First Next Plans : List C → Type 0}
    (glue : (p q : List C) → First p → Next q → Plans (p ++ q)) (usual : List C)
    (known : Next usual) where
  Chosen-continue :
      (f : A → Step E (W × List (Answered C E)) B)
      → ((a : A) → Obeys Next (f a))
      → (log : List (Answered C E)) (x : Outcome E A × (W × List (Answered C E)))
      → Chosen First log x
      → Chosen Plans log (continue x.0 f x.1)
  Chosen-continue f h log (ok a, (w, log')) c =
      let d = (h a).at w log' in
      record {
        plan = c.plan ++ d.plan;
        allowed = glue c.plan d.plan c.allowed d.allowed;
        ran = Ran-then c.plan d.plan log log' a w (f a (w, log')) c.ran d.ran;
      }
  Chosen-continue f h log (err e, x) c = record {
    plan = c.plan ++ usual;
    allowed = glue c.plan usual c.allowed known;
    ran = Ran-failed c.plan usual log e x c.ran;
  }
  Chosen-continue f h log (panic e, x) c = record {
    plan = c.plan ++ usual;
    allowed = glue c.plan usual c.allowed known;
    ran = Ran-panicked c.plan usual log e x c.ran;
  }

  -- One plan after the other; where the first step fails, the second could have followed `usual`.
  pub Obeys-bind :
      (m : Step E (W × List (Answered C E)) A) (f : A → Step E (W × List (Answered C E)) B)
      → Obeys First m
      → ((a : A) → Obeys Next (f a))
      → Obeys Plans (m >>= f)
  unfolding ◌>>=◌
  Obeys-bind m f k h = record { at = λ w log. Chosen-continue f h log (m (w, log)) (k.at w log) }

module _ {C E W A B : Type 0} {Plans : List C → Type 0} (usual : List C) (known : Plans usual) where
  -- Behind a computation, the rest may use what it returned.
  pub Obeys-lift-bind :
      (r : Outcome E A) (f : A → Step E (W × List (Answered C E)) B)
      → ((a : A) → r ≡ ok a → Obeys Plans (f a))
      → Obeys Plans (lift r >>= f)
  unfolding ◌>>=◌
  Obeys-lift-bind (ok a) f h = h a refl
  Obeys-lift-bind (err e) f h = record {
    at = λ w log. record {
      plan = usual;
      allowed = known;
      ran = Ran-failed [] usual log e (w, log) ((Follows-lift {A = A} (err e)).at w log);
    };
  }
  Obeys-lift-bind (panic e) f h = record {
    at = λ w log. record {
      plan = usual;
      allowed = known;
      ran = Ran-panicked [] usual log e (w, log) ((Follows-lift {A = A} (panic e)).at w log);
    };
  }
