-- ===== src/Api/Memory/Copies.antt =====
-- What a copy makes: a value that stands for the same and reaches new cells only, while the cells that
-- were there stay as they were.
use greatsql_operator.Prelude.{ℕ, ◌≤◌, Option, none, some, arith}
use greatsql_operator.Api.Memory.Heap.{Heap, Mem, continue, ◌>>=◌, pure}
use greatsql_operator.Api.Memory.Owned.{Agrees, Agrees-below, Agrees-refl, Agrees-then, Local}

module _ {C : Type 0} where
  -- From `h`, a step has returned without a fault, into `Q`, and has changed no cell that was there.
  abbrev pub Copied : {A : Type 0} → Heap C → Option (A × Heap C) → (A → Heap C → Type 0) → Type 0
  Copied h none Q = ⊥
  Copied h (some (y, h')) Q = Agrees 0 h h' × Q y h'

  -- `into` makes such values of all values that stand for something.
  pub record Deep {A V : Type 0} (own : ℕ → Heap C → A → V → Type 0) (into : A → Mem C A)
      : Type 0 where
    pub local : (x : A) (v : V) → Local (λ lo h. own lo h x v)
    pub copied :
        (lo : ℕ) (x : A) (v : V) (h : Heap C)
        → own lo h x v
        → Copied h (into x h) (λ y h'. own h.next h' y v)

  Copied-from :
      {A : Type 0} (Q : A → Heap C → Type 0) (h h' : Heap C) (o : Option (A × Heap C))
      → Agrees 0 h h'
      → Copied h' o Q
      → Copied h o Q
  Copied-from Q h h' none e c = c
  Copied-from Q h h' (some (y, h'')) e (f, q) = (Agrees-then e f, q)

  pub Copied-continue :
      {A B : Type 0} (R : A → Heap C → Type 0) (Q : B → Heap C → Type 0) (h : Heap C)
      (o : Option (A × Heap C)) (f : A → Mem C B)
      → Copied h o R
      → ((y : A) (h' : Heap C) → Agrees 0 h h' → R y h' → Copied h' (f y h') Q)
      → Copied h (continue o f) Q
  Copied-continue R Q h none f c next = c
  Copied-continue R Q h (some (y, h')) f (e, r) next = Copied-from Q h h' (f y h') e (next y h' e r)

-- A fact about the heap that stays where no cell is changed.
pub record Fact (C : Type 0) : Type 1 where
  pub holds : Heap C → Type 0
  pub stable : {h h' : Heap C} → Agrees 0 h h' → holds h → holds h'

module _ {C : Type 0} where
  abbrev pub plain : Type 0 → Fact C
  plain X = record { holds = λ h. X; stable = λ e x. x }

  -- A fact, beside what was copied to cells from `base` on.
  abbrev pub with_copy : {P : ℕ → Heap C → Type 0} → Fact C → Local P → ℕ → Fact C
  with_copy {P} F local base = record {
    holds = λ h. F.holds h × P base h;
    stable = λ e x. (F.stable e x.0, local.framed (Agrees-below (omega arith) e) x.1);
  }

  -- A part of a copy: `base` was the next address in front of it, `source` stays, and `built` is there.
  pub record Builds {A : Type 0} (base : ℕ) (source built : Fact C) (m : Mem C A)
      (Q : A → Heap C → Type 0) : Type 0 where
    pub at : (h : Heap C) → base ≤ h.next → source.holds h → built.holds h → Copied h (m h) Q

  module _ {B : Type 0} (base : ℕ) (source built : Fact C) (Q : B → Heap C → Type 0) where
    pub Builds-pure :
        (b : B) → ((h : Heap C) → built.holds h → Q b h) → Builds base source built (pure b) Q
    Builds-pure b q = record { at = λ h le s x. (Agrees-refl 0 h, q h x) }

    -- One field, and what follows.
    pub Builds-field :
        {A V : Type 0} {own : ℕ → Heap C → A → V → Type 0} {into : A → Mem C A} (d : Deep own into)
        (lo : ℕ) (x : A) (v : V) (f : A → Mem C B)
        → ((h : Heap C) → source.holds h → own lo h x v)
        → ((y : A) → Builds base source (with_copy built (d.local y v) base) (f y) Q)
        → Builds base source built (into x >>= f) Q
    unfolding ◌>>=◌
    Builds-field {own = own} {into = into} d lo x v f get next = record {
      at = λ h le s b.
          Copied-continue (λ y h'. own h.next h' y v) Q h (into x h) f (d.copied lo x v h (get h s))
            λ y h' e r.
              (next y).at h' (omega (arith, le, e.larger)) (source.stable e s)
                (built.stable e b, (d.local y v).lowered le r);
    }

  module _ {A V : Type 0} (own : ℕ → Heap C → A → V → Type 0) (into : A → Mem C A)
      (local : (x : A) (v : V) → Local (λ lo h. own lo h x v)) where
    abbrev pub source_of : ℕ → A → V → Fact C
    source_of lo x v = record {
      holds = λ h. own lo h x v;
      stable = λ e o. (local x v).framed (Agrees-below (omega arith) e) o;
    }

    -- A struct is copied field by field; `Rest` is about its fields that hold no pointer.
    pub Deep-struct :
        (Rest : A → V → Type 0)
        → ((lo : ℕ) (h : Heap C) (x : A) (v : V) → own lo h x v → Rest x v)
        → ((lo base : ℕ) (x : A) (v : V)
            → Builds base (source_of lo x v) (plain (Rest x v)) (into x) (λ y h. own base h y v))
        → Deep own into
    Deep-struct Rest get build = record {
      local = local;
      copied = λ lo x v h o. (build lo h.next x v).at h (omega arith) o (get lo h x v o);
    }
