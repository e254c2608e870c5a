-- ===== src/Api/Memory/Owned.antt =====
-- When a value in memory stands for a value that is meant, and the cells that it reaches.
use greatsql_operator.Prelude.{ℕ, ◌≤◌, ◌<◌, ◌≡◌, ◌∙◌, Option, none, some, List, [], ◌∷◌, arith}
use greatsql_operator.Api.Memory.Heap.{Heap, Ref, Slot}

module _ {C : Type 0} where
  -- The cells of `h` from `lo` on are in `h'` as they were.
  pub record Agrees (lo : ℕ) (h h' : Heap C) : Type 0 where
    pub larger : h.next ≤ h'.next
    pub kept : (a : ℕ) → lo ≤ a → a < h.next → h'.cell a ≡ h.cell a

  pub Agrees-below : {lo lo' : ℕ} {h h' : Heap C} → lo ≤ lo' → Agrees lo h h' → Agrees lo' h h'
  Agrees-below le e = record {
    larger = e.larger;
    kept = λ a from below. e.kept a (omega (arith, le, from)) below;
  }

  pub Agrees-refl : (lo : ℕ) (h : Heap C) → Agrees lo h h
  Agrees-refl lo h = record { larger = omega arith; kept = λ a from below. λ i. h.cell a }

  pub Agrees-then :
      {lo : ℕ} {h h' h'' : Heap C} → Agrees lo h h' → Agrees lo h' h'' → Agrees lo h h''
  Agrees-then {h = h} {h' = h'} e f = record {
    larger = omega (arith, e.larger, f.larger);
    kept = λ a from below. f.kept a from (omega (arith, below, e.larger)) ∙ e.kept a from below;
  }

  -- A fact about the cells from an address on. It stays while these cells stay, and holds from every
  -- earlier address on.
  pub record Local (P : ℕ → Heap C → Type 0) : Type 0 where
    pub framed : {lo : ℕ} {h h' : Heap C} → Agrees lo h h' → P lo h → P lo h'
    pub lowered : {lo lo' : ℕ} {h : Heap C} → lo' ≤ lo → P lo h → P lo' h

  pub Local-plain : {X : Type 0} → Local (λ lo h. X)
  Local-plain = record { framed = λ e x. x; lowered = λ le x. x }

  pub Local-both : {P Q : ℕ → Heap C → Type 0} → Local P → Local Q → Local (λ lo h. P lo h × Q lo h)
  Local-both p q = record {
    framed = λ e x. (p.framed e x.0, q.framed e x.1);
    lowered = λ le x. (p.lowered le x.0, q.lowered le x.1);
  }

  module _ {A V : Type 0} where
    -- `own lo h x v`: in the heap `h`, `x` stands for `v`, and reaches no cell below `lo`.
    module _ (own : ℕ → Heap C → A → V → Type 0) where
      -- Of what a pointer leads to.
      abbrev pub Held : Slot C A → ℕ → Heap C → Ref A → Option V → Type 0
      Held s lo h none none = Unit
      Held s lo h none (some v) = ⊥
      Held s lo h (some a) none = ⊥
      Held s lo h (some a) (some v) =
          (lo ≤ a) × (a < h.next) × (x : A) × (h.cell a ≡ some (s.put x)) × own lo h x v

      -- Of the elements of a slice.
      abbrev pub Each : ℕ → Heap C → List A → List V → Type 0
      Each lo h [] [] = Unit
      Each lo h [] (v ∷ vs) = ⊥
      Each lo h (x ∷ xs) [] = ⊥
      Each lo h (x ∷ xs) (v ∷ vs) = own lo h x v × Each lo h xs vs

    module _ {own : ℕ → Heap C → A → V → Type 0}
        (local : (x : A) (v : V) → Local (λ lo h. own lo h x v)) where
      Held-framed :
          (s : Slot C A) {lo : ℕ} {h h' : Heap C} (r : Ref A) (v : Option V)
          → Agrees lo h h'
          → Held own s lo h r v
          → Held own s lo h' r v
      Held-framed s none none e o = o
      Held-framed s none (some v) e o = o
      Held-framed s (some a) none e o = o
      Held-framed s (some a) (some v) e (from, below, x, at, o) = (
        from,
        omega (arith, below, e.larger),
        x,
        e.kept a from below ∙ at,
        (local x v).framed e o,
      )

      Held-lowered :
          (s : Slot C A) {lo lo' : ℕ} (h : Heap C) (r : Ref A) (v : Option V)
          → lo' ≤ lo
          → Held own s lo h r v
          → Held own s lo' h r v
      Held-lowered s h none none le o = o
      Held-lowered s h none (some v) le o = o
      Held-lowered s h (some a) none le o = o
      Held-lowered s h (some a) (some v) le (from, below, x, at, o) =
          (omega (arith, le, from), below, x, at, (local x v).lowered le o)

      pub Held-Local :
          (s : Slot C A) (r : Ref A) (v : Option V) → Local (λ lo h. Held own s lo h r v)
      Held-Local s r v = record {
        framed = Held-framed s r v;
        lowered = λ {lo} {lo'} {h} le o. Held-lowered s h r v le o;
      }

      pub Each-Local : (xs : List A) (vs : List V) → Local (λ lo h. Each own lo h xs vs)
      Each-Local [] [] = Local-plain
      Each-Local [] (v ∷ vs) = Local-plain
      Each-Local (x ∷ xs) [] = Local-plain
      Each-Local (x ∷ xs) (v ∷ vs) = Local-both (local x v) (Each-Local xs vs)
