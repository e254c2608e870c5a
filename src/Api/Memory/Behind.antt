-- ===== src/Api/Memory/Behind.antt =====
-- The copy of what lies behind a pointer, and of the elements of a slice.
use greatsql_operator.Prelude.{
  ℕ, suc, ◌≡◌, ◌≢◌, refl, ◌∙◌, Option, none, some, List, [], ◌∷◌, arith, ◌==◌, if◌then◌else◌,
}
use greatsql_operator.Api.Memory.Heap.{
  Heap, Ref, Mem, Slot, continue, ◌>>=◌, ◌>>◌, pure, load, store, reserve, new_copy, copy_behind,
  each,
}
use greatsql_operator.Api.Memory.Owned.{
  Agrees, Agrees-below, Agrees-refl, Local-plain, Held, Each, Held-Local, Each-Local,
}
use greatsql_operator.Api.Memory.Copies.{Copied, Copied-continue, Deep}

module _ {C A : Type 0} where
  -- A value without pointers is copied by its assignment.
  pub Deep-plain : Deep {C = C} {V = A} (λ lo h x v. x ≡ v) pure
  Deep-plain = record { local = λ x v. Local-plain; copied = λ lo x v h o. (Agrees-refl 0 h, o) }

  module _ {V : Type 0} {own : ℕ → Heap C → A → V → Type 0} {into : A → Mem C A}
      (d : Deep own into) where
    each-Copied :
        (lo : ℕ) (xs : List A) (vs : List V) (h : Heap C)
        → Each own lo h xs vs
        → Copied h (each into xs h) (λ ys h'. Each own h.next h' ys vs)
    unfolding each ◌>>=◌
    each-Copied lo [] [] h o = (Agrees-refl 0 h, tt)
    each-Copied lo [] (v ∷ vs) h o = absurd o
    each-Copied lo (x ∷ xs) [] h o = absurd o
    each-Copied lo (x ∷ xs) (v ∷ vs) h o =
        Copied-continue (λ y h'. own h.next h' y v) (λ ys h'. Each own h.next h' ys (v ∷ vs)) h
          (into x h) _ (d.copied lo x v h o.0)
          λ y h' e r.
            Copied-continue (λ ys h''. Each own h'.next h'' ys vs)
              (λ ys h''. Each own h.next h'' ys (v ∷ vs)) h' (each into xs h') _
              (each-Copied lo xs vs h'
                ((Each-Local d.local xs vs).framed (Agrees-below (omega arith) e) o.1))
              λ ys h'' e' rs. (
                Agrees-refl 0 h'',
                (
                  (d.local y v).framed (Agrees-below (omega arith) e') r,
                  (Each-Local d.local ys vs).lowered e.larger rs,
                ),
              )

    pub Deep-each : Deep (Each own) (each into)
    Deep-each = record { local = Each-Local d.local; copied = each-Copied }

    module _ (s : Slot C A) where
      abbrev reserved : Heap C → Heap C
      reserved h = record h { next = suc h.next }

      reserved-Agrees : (lo : ℕ) (h : Heap C) → Agrees lo h (reserved h)
      reserved-Agrees lo h = record { larger = omega arith; kept = λ a from below. refl }

      loaded : (h : Heap C) (a : ℕ) (x : A) → h.cell a ≡ some (s.put x) → load s a h ≡ some (x, h)
      unfolding load
      loaded h a x e = rw (e, s.get-put x) refl

      abbrev stored : ℕ → A → Heap C → Heap C
      stored b y h = record h { cell = λ a. if a == b then some (s.put y) else h.cell a }

      stored_other : (b : ℕ) (y : A) (h : Heap C) (a : ℕ) → a ≢ b → (stored b y h).cell a ≡ h.cell a
      stored_other b y h a apart = ground (arith)

      stored_there : (b : ℕ) (y : A) (h : Heap C) → (stored b y h).cell b ≡ some (s.put y)
      stored_there b y h = ground (arith)

      -- The copy `y` is put into the cell that was reserved in front of it.
      filled :
          (v : V) (h h' : Heap C) (y : A)
          → Agrees 0 (reserved h) h'
          → own (suc h.next) h' y v
          → Agrees 0 h (stored h.next y h')
            × Held own s h.next (stored h.next y h') (some h.next) (some v)
      filled v h h' y e o = (
        record {
          larger = omega (arith, e.larger);
          kept = λ a from below.
              stored_other h.next y h' a (λ same. omega arith) ∙ e.kept a from (omega arith);
        },
        (
          omega arith,
          omega (arith, e.larger),
          y,
          stored_there h.next y h',
          (d.local y v).lowered (omega arith) (
              (d.local y v).framed
                (record {
                  larger = omega arith;
                  kept = λ a from below. stored_other h.next y h' a (λ same. omega arith);
                })
                o),
        ),
      )

      after_into :
          (v : V) (h : Heap C) (o : Option (A × Heap C))
          → Copied (reserved h) o (λ y h'. own (suc h.next) h' y v)
          → Copied h
              (continue o (λ y. store s h.next y >> pure h.next))
              (λ b h'. Held own s h.next h' (some b) (some v))
      unfolding store ◌>>=◌
      after_into v h none c = c
      after_into v h (some (y, h')) (e, r) = filled v h h' y e r

      new_copy-Copied :
          (lo a : ℕ) (v : V) (h : Heap C)
          → Held own s lo h (some a) (some v)
          → Copied h (new_copy s into a h) (λ b h'. Held own s h.next h' (some b) (some v))
      unfolding new_copy reserve ◌>>=◌
      new_copy-Copied lo a v h (from, below, x, at, o) = rw (loaded (reserved h) a x at) (
          after_into v h (into x (reserved h))
            (d.copied lo x v (reserved h) ((d.local x v).framed (reserved-Agrees lo h) o)))

      copy_behind-Copied :
          (lo : ℕ) (r : Ref A) (v : Option V) (h : Heap C)
          → Held own s lo h r v
          → Copied h (copy_behind s into r h) (λ r' h'. Held own s h.next h' r' v)
      unfolding copy_behind ◌>>=◌
      copy_behind-Copied lo none none h o = (Agrees-refl 0 h, tt)
      copy_behind-Copied lo none (some v) h o = absurd o
      copy_behind-Copied lo (some a) none h o = absurd o
      copy_behind-Copied lo (some a) (some v) h o =
          Copied-continue (λ b h'. Held own s h.next h' (some b) (some v))
            (λ r' h'. Held own s h.next h' r' (some v)) h (new_copy s into a h) _
            (new_copy-Copied lo a v h o) λ b h' e r. (Agrees-refl 0 h', r)

      pub Deep-behind : Deep (Held own s) (copy_behind s into)
      Deep-behind = record { local = Held-Local d.local s; copied = copy_behind-Copied }
