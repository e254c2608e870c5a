-- ===== src/Mysql/Gtid/Backtracking.antt =====
-- The search against a backtracking engine, which is how the package `regexp` documents its choice of a
-- match: the leftmost, and of these the one that a search with backtracking finds first.
use mathlib.Core.Path.{fun_ext}
use greatsql_operator.Prelude.{
  ℕ, ◌≡◌, refl, ap, ◌∙◌, sym, Bool, true, false, Option, none, some, inl, inr, List, [], ◌∷◌, ◌++◌,
  arith, Bool-cases, ◌==◌, if◌then◌else◌,
}
use greatsql_operator.Mysql.Gtid.{
  Bytes, Groups, is_uuid_char, is_digit, span, after, plus, ◌▹◌, or_else, match_here, find_submatch,
}

-- What a match has taken, with one more character in front.
abbrev pub longer : ℕ → Bytes × Bytes → Bytes × Bytes
longer c (u, r) = (c ∷ u, r)

extend : ℕ → List (Bytes × Bytes) → List (Bytes × Bytes)
extend c [] = []
extend c (x ∷ xs) = longer c x ∷ extend c xs

-- The ways in which a repetition `p+` can match at the front, the longest first.
pub splits : (ℕ → Bool) → Bytes → List (Bytes × Bytes)
unfolding extend
splits p [] = []
splits p (c ∷ s) =
    let rest = extend c (splits p s) ++ ((c ∷ [], s) ∷ []) in if p c then rest else []

-- The first of the ways that the rest of the expression accepts.
pub first_match : (Bytes × Bytes → Option Groups) → List (Bytes × Bytes) → Option Groups
first_match f [] = none
first_match f (x ∷ xs) = or_else (f x) (first_match f xs)

-- `([0-9a-f-]+):(\d+)-(\d+)` at the front of a text, with backtracking.
pub backtrack : Bytes → Option Groups
unfolding after first_match splits
backtrack s =
    first_match
      (λ (u, r). after b':' r ▹ λ r1.
        first_match
          (λ (d, r2). after b'-' r2 ▹ λ r3.
            first_match (λ (e, _). some (record { uuid = u; start = d; end = e }))
              (splits is_digit r3))
          (splits is_digit r1))
      (splits is_uuid_char s)

-- The same anywhere in the text, from the left.
pub search_with_backtracking : Bytes → Option Groups
unfolding backtrack
search_with_backtracking [] = backtrack []
search_with_backtracking (c ∷ s) = or_else (backtrack (c ∷ s)) (search_with_backtracking s)

first_match-append :
    (f : Bytes × Bytes → Option Groups) (xs : List (Bytes × Bytes)) (x : Bytes × Bytes)
    → first_match f (xs ++ (x ∷ [])) ≡ or_else (first_match f xs) (f x)
unfolding first_match
first_match-append f [] x = ground arith
first_match-append f (y ∷ xs) x = ground (arith, first_match-append f xs x)

first_match-extend :
    (f : Bytes × Bytes → Option Groups) (c : ℕ) (xs : List (Bytes × Bytes))
    → first_match f (extend c xs) ≡ first_match (λ x. f (longer c x)) xs
unfolding first_match extend
first_match-extend f c [] = refl
first_match-extend f c (x ∷ xs) = rw (first_match-extend f c xs)

-- A rest that, where the run could go on, is never accepted instead of a longer run.
abbrev Greedy : (ℕ → Bool) → (Bytes × Bytes → Option Groups) → Type 0
Greedy p f =
    (u r : Bytes) (c : ℕ) (v : Bytes × Bytes) → p c ≡ true → or_else (f v) (f (u, c ∷ r)) ≡ f v

Greedy-longer :
    (p : ℕ → Bool) (f : Bytes × Bytes → Option Groups) (d : ℕ)
    → Greedy p f
    → Greedy p (λ x. f (longer d x))
Greedy-longer p f d g u r c v h = g (d ∷ u) r c (longer d v) h

-- One character more: the longest run that goes on is preferred to stopping here.
plus-or_else :
    (p : ℕ → Bool) (f : Bytes × Bytes → Option Groups) (c : ℕ) (s : Bytes)
    → Greedy p f
    → or_else (plus p s ▹ λ x. f (longer c x)) (f (c ∷ [], s)) ≡ f (longer c (span p s))
unfolding plus span
plus-or_else p f c [] g = refl
plus-or_else p f c (d ∷ s) g = elim (Bool-cases (p d)) [
  | inl on ↦ rw on (g (c ∷ []) s d (c ∷ d ∷ (span p s).0, (span p s).1) on)
  | inr end ↦ rw end
]

-- Then only the longest run is needed.
first_match-splits :
    (p : ℕ → Bool) (f : Bytes × Bytes → Option Groups) (s : Bytes)
    → Greedy p f
    → first_match f (splits p s) ≡ (plus p s ▹ f)
unfolding splits plus
first_match-splits p f [] g = unfold first_match in refl
first_match-splits p f (c ∷ s) g = elim (Bool-cases (p c)) [
  | inl on ↦ rw on (
      first_match-append f (extend c (splits p s)) (c ∷ [], s)
      ∙ ap (λ o. or_else o (f (c ∷ [], s)))
          (first_match-extend f c (splits p s) ∙ first_match-splits p _ s (Greedy-longer p f c g))
      ∙ plus-or_else p f c s g)
  | inr end ↦ rw end (unfold first_match in refl)
]

or_else-none : (o : Option Groups) → or_else o none ≡ o
or_else-none none = refl
or_else-none (some g) = refl

-- A repetition whose characters do not hold the character that must follow it.
after-Greedy :
    (p : ℕ → Bool) (d : ℕ) (k : Bytes → Bytes → Option Groups)
    → p d ≡ false
    → Greedy p (λ v. after d (v.1) ▹ k (v.0))
unfolding after
after-Greedy p d k h u r c v on = elim (Bool-cases (c == d)) [
  | inl e ↦ let same : c ≡ d = ground arith in let off : p c ≡ false = rw same h in cc
  | inr e ↦ rw e (or_else-none _)
]

-- A repetition, the character behind it, and the rest.
first_match-after :
    (p : ℕ → Bool) (d : ℕ) (k l : Bytes → Bytes → Option Groups) (s : Bytes)
    → p d ≡ false
    → ((u r : Bytes) → k u r ≡ l u r)
    → first_match (λ v. after d (v.1) ▹ k (v.0)) (splits p s)
      ≡ (plus p s ▹ λ v. after d (v.1) ▹ l (v.0))
first_match-after p d k l s h same =
    first_match-splits p _ s (after-Greedy p d k h)
    ∙ ap (λ (m : Bytes → Bytes → Option Groups). plus p s ▹ λ v. after d (v.1) ▹ m (v.0))
        (fun_ext (λ u. fun_ext (same u)))

match_here-eq-backtrack : (s : Bytes) → backtrack s ≡ match_here s
unfolding backtrack match_here
match_here-eq-backtrack s = first_match-after is_uuid_char b':' _ _ s refl (λ u r1.
    first_match-after is_digit b'-' _ _ r1 refl (λ d r3.
      first_match-splits is_digit (λ v. some (record { uuid = u; start = d; end = v.0 })) r3
        (λ _ _ _ _ _. refl)))

-- The greedy search without backtracking finds in every text the match that the search with
-- backtracking finds, and none where that finds none.
pub find_submatch-eq-search_with_backtracking :
    (s : Bytes) → find_submatch s ≡ search_with_backtracking s
unfolding find_submatch search_with_backtracking
find_submatch-eq-search_with_backtracking [] = sym (match_here-eq-backtrack [])
find_submatch-eq-search_with_backtracking (c ∷ s) =
    rw (match_here-eq-backtrack (c ∷ s), find_submatch-eq-search_with_backtracking s)
