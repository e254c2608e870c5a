-- ===== src/Api/Memory/Heap.antt =====
-- A heap of cells of the type `C`, and the steps that copy what lies behind a pointer.
use greatsql_operator.Prelude.{ℕ, suc, ◌≡◌, Option, none, some, List, [], ◌∷◌}
use greatsql_operator.Prelude.{if◌then◌else◌, ◌==◌}

-- The addresses below `next` have been given out.
pub record Heap (C : Type 0) : Type 0 where
  pub next : ℕ
  pub cell : ℕ → Option C

-- A pointer, a slice or a map: nil, or the address of what it holds.
abbrev pub Ref : Type 0 → Type 0
Ref A = Option ℕ

-- A step over the heap; `none` is the fault of a pointer that leads nowhere.
abbrev pub Mem : Type 0 → Type 0 → Type 0
Mem C A = Heap C → Option (A × Heap C)

-- The cells that hold an `A`.
pub record Slot (C A : Type 0) : Type 0 where
  pub put : A → C
  pub get : C → Option A
  pub get-put : (a : A) → get (put a) ≡ some a

abbrev pub slot :
    {C A : Type 0} (put : A → C) (get : C → Option A) → ((a : A) → get (put a) ≡ some a) → Slot C A
slot put get h = record { put = put; get = get; get-put = h }

module _ {C : Type 0} where
  abbrev pub continue : {A B : Type 0} → Option (A × Heap C) → (A → Mem C B) → Option (B × Heap C)
  continue none f = none
  continue (some (a, h)) f = f a h

  infixl 5 ◌>>=◌ ◌>>◌
  unfoldable pub ◌>>=◌ : {A B : Type 0} → Mem C A → (A → Mem C B) → Mem C B
  ◌>>=◌ m f h = continue (m h) f

  abbrev pub ◌>>◌ : {A B : Type 0} → Mem C A → Mem C B → Mem C B
  m >> n = m >>= λ _. n

  abbrev pub pure : {A : Type 0} → A → Mem C A
  pure a h = some (a, h)

  abbrev pub seen : {A : Type 0} → Heap C → Option A → Option (A × Heap C)
  seen h none = none
  seen h (some x) = some (x, h)

  abbrev pub read : {A : Type 0} → Slot C A → Option C → Option A
  read s none = none
  read s (some c) = s.get c

  module _ {A : Type 0} (s : Slot C A) where
    -- `*p`
    unfoldable pub load : ℕ → Mem C A
    load a h = seen h (read s (h.cell a))

    -- `*p = x`
    unfoldable pub store : ℕ → A → Mem C (Unit {0})
    store a x h = some (tt, record h { cell = λ b. if b == a then some (s.put x) else h.cell b })

  -- `new(T)` and `make`: the address. What the program puts there before it reads it, it puts there
  -- with `store`.
  unfoldable pub reserve : Mem C ℕ
  reserve h = some (h.next, record h { next = suc h.next })

  module _ {A : Type 0} (s : Slot C A) (into : A → Mem C A) where
    -- `out := new(T); in.DeepCopyInto(out)`
    unfoldable pub new_copy : ℕ → Mem C ℕ
    new_copy a = do b ← reserve; x ← load s a; y ← into x; store s b y; pure b

    -- The same behind the test on nil.
    unfoldable pub copy_behind : Ref A → Mem C (Ref A)
    copy_behind none = pure none
    copy_behind (some a) = do b ← new_copy a; pure (some b)

  -- The loop over the elements of a slice.
  unfoldable pub each : {A : Type 0} → (A → Mem C A) → List A → Mem C (List A)
  each into [] = pure []
  each into (x ∷ xs) = do y ← into x; ys ← each into xs; pure (y ∷ ys)
