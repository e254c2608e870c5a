-- ===== src/Mysql/Gtid/Search.antt =====
-- The search for a GTID in a text, against the language of the regular expression.
use greatsql_operator.Prelude.{
  ℕ, ◌≡◌, refl, ◌≢◌, true, false, Option, none, some, [], ◌∷◌, ◌++◌, arith, subst, ap, inl, inr,
  Option-cases, All, Bool,
}
use greatsql_operator.Mysql.Gtid.{
  Bytes, Groups, is_uuid_char, is_digit, span, after, plus, match_here, ◌▹◌, find_submatch,
}

-- Every character of the text is in the class, and there is at least one.
abbrev pub IsRun : (ℕ → Bool) → Bytes → Type 0
IsRun p s = (s ≢ []) × All (λ c. p c ≡ true) s

-- The text holds, somewhere, what the expression `([0-9a-f-]+):(\d+)-(\d+)` describes.
pub record Holds (s : Bytes) (g : Groups) : Type 0 where
  pub before : Bytes
  pub behind : Bytes
  pub shape : s ≡ before ++ (g.uuid ++ (b':' ∷ (g.start ++ (b'-' ∷ (g.end ++ behind)))))
  pub uuid_run : IsRun is_uuid_char g.uuid
  pub start_run : IsRun is_digit g.start
  pub end_run : IsRun is_digit g.end

span-append : (p : ℕ → Bool) (s : Bytes) → s ≡ (span p s).0 ++ (span p s).1
unfolding span
span-append p [] = refl
span-append p (c ∷ s) = ground (arith, span-append p s)

span-All : (p : ℕ → Bool) (s : Bytes) → All (λ c. p c ≡ true) (span p s).0
unfolding span
span-All p [] = tt
span-All p (c ∷ s) = ground (arith, span-All p s)

plus_sound :
    (p : ℕ → Bool) (s : Bytes) {u r : Bytes} → plus p s ≡ some (u, r) → (s ≡ u ++ r) × IsRun p u
unfolding plus
plus_sound p [] h = cc
plus_sound p (c ∷ s) h = ground (arith, span-append p (c ∷ s), span-All p (c ∷ s))

after_sound : (c : ℕ) (s : Bytes) {r : Bytes} → after c s ≡ some r → s ≡ c ∷ r
unfolding after
after_sound c [] h = cc
after_sound c (d ∷ s) h = ground arith

▹-eq-some {ℓ κ} :
    {A : Type ℓ} {B : Type κ} (o : Option A) (f : A → Option B) {b : B}
    → (o ▹ f) ≡ some b
    → (a : A) × (o ≡ some a) × (f a ≡ some b)
▹-eq-some none f h = cc
▹-eq-some (some a) f h = (a, refl, h)

-- A match that begins at the front.
abbrev pub Front : Bytes → Groups → Type 0
Front s g = (h : Holds s g) × (h.before ≡ [])

-- The five steps of a match at the front, put together.
Front-of-steps :
    (s u r r1 d r2 r3 e rest : Bytes)
    → plus is_uuid_char s ≡ some (u, r)
    → after b':' r ≡ some r1
    → plus is_digit r1 ≡ some (d, r2)
    → after b'-' r2 ≡ some r3
    → plus is_digit r3 ≡ some (e, rest)
    → Front s (record { uuid = u; start = d; end = e })
Front-of-steps s u r r1 d r2 r3 e rest h1 h2 h3 h4 h5 =
    let (su, pu) = plus_sound is_uuid_char s h1 in
    let (sd, pd) = plus_sound is_digit r1 h3 in
    let (se, pe) = plus_sound is_digit r3 h5 in
    (
      record {
        before = [];
        behind = rest;
        shape = cc (su, after_sound b':' r h2, sd, after_sound b'-' r2 h4, se);
        uuid_run = pu;
        start_run = pd;
        end_run = pe;
      },
      refl,
    )

some_inj {ℓ} : {A : Type ℓ} {a b : A} → some a ≡ some b → a ≡ b
some_inj h = cc

pub match_here-Front : (s : Bytes) {g : Groups} → match_here s ≡ some g → Front s g
unfolding match_here
match_here-Front s {g} h =
    let ((u, r), h1, k1) = ▹-eq-some (plus is_uuid_char s) _ h in
    let (r1, h2, k2) = ▹-eq-some (after b':' r) _ k1 in
    let ((d, r2), h3, k3) = ▹-eq-some (plus is_digit r1) _ k2 in
    let (r3, h4, k4) = ▹-eq-some (after b'-' r2) _ k3 in
    let ((e, rest), h5, k5) = ▹-eq-some (plus is_digit r3) _ k4 in
    subst (Front s) (some_inj k5) (Front-of-steps s u r r1 d r2 r3 e rest h1 h2 h3 h4 h5)

-- The same match, in a text with one more character in front.
abbrev pub shift : (c : ℕ) (s : Bytes) {g : Groups} → Holds s g → Holds (c ∷ s) g
shift c s h = record {
  before = c ∷ h.before;
  behind = h.behind;
  shape = ap (λ t. c ∷ t) h.shape;
  uuid_run = h.uuid_run;
  start_run = h.start_run;
  end_run = h.end_run;
}

-- What the search finds, the text holds: it has the shape that the expression describes.
pub find_submatch_sound : (s : Bytes) (g : Groups) → find_submatch s ≡ some g → Holds s g
unfolding find_submatch
find_submatch_sound [] g h = (match_here-Front [] h).0
find_submatch_sound (c ∷ s) g h = elim (Option-cases (match_here (c ∷ s))) [
  | inl e ↦ shift c s (find_submatch_sound s g (ground (arith, h)))
  | inr (g', e) ↦ (match_here-Front (c ∷ s) (ground (arith, h))).0
]

span-run :
    (p : ℕ → Bool) (c : ℕ) (u t : Bytes)
    → All (λ d. p d ≡ true) u
    → p c ≡ false
    → span p (u ++ (c ∷ t)) ≡ (u, c ∷ t)
unfolding span
span-run p c [] t h sep = ground arith
span-run p c (d ∷ u) t h sep = ground (arith, span-run p c u t h.1 sep)

-- A run that ends before a character outside the class is read whole.
plus-run :
    (p : ℕ → Bool) (c : ℕ) (u t : Bytes)
    → IsRun p u
    → p c ≡ false
    → plus p (u ++ (c ∷ t)) ≡ some (u, c ∷ t)
unfolding plus
plus-run p c [] t h sep = absurd (h.0 refl)
plus-run p c (d ∷ u) t h sep = rw (h.1.0, span-run p c u t h.1.1 sep)

-- A run in front of any text is read, perhaps with more behind it.
plus-ne-none :
    (p : ℕ → Bool) (u t : Bytes) → IsRun p u → (x : Bytes × Bytes) × (plus p (u ++ t) ≡ some x)
unfolding plus
plus-ne-none p [] t h = absurd (h.0 refl)
plus-ne-none p (d ∷ u) t h = (span p (d ∷ u ++ t), rw h.1.0)

pub match_here_complete :
    (u d e rest : Bytes)
    → IsRun is_uuid_char u
    → IsRun is_digit d
    → IsRun is_digit e
    → (g : Groups) × (match_here (u ++ (b':' ∷ (d ++ (b'-' ∷ (e ++ rest))))) ≡ some g)
unfolding match_here after
match_here_complete u d e rest hu hd he =
    let (x, hx) = plus-ne-none is_digit e rest he in
    (
      record { uuid = u; start = d; end = x.0 },
      rw (
        plus-run is_uuid_char b':' u (d ++ (b'-' ∷ (e ++ rest))) hu refl,
        plus-run is_digit b'-' d (e ++ rest) hd refl,
        hx,
      ),
    )

pub find_submatch_front :
    (s : Bytes) {g : Groups} → match_here s ≡ some g → find_submatch s ≡ some g
unfolding find_submatch
find_submatch_front [] h = h
find_submatch_front (c ∷ s) h = rw h

find_submatch_later :
    (before s : Bytes) {g : Groups}
    → find_submatch s ≡ some g
    → (g' : Groups) × (find_submatch (before ++ s) ≡ some g')
unfolding find_submatch
find_submatch_later [] s {g} h = (g, h)
find_submatch_later (c ∷ before) s h = elim (Option-cases (match_here (c ∷ before ++ s))) [
  | inl e ↦ let (g', h') = find_submatch_later before s h in (g', rw e h')
  | inr (g', e) ↦ (g', rw e)
]

-- A text that holds a match of the expression anywhere has a match that the search finds.
pub find_submatch_complete :
    (s : Bytes) (g : Groups) → Holds s g → (g' : Groups) × (find_submatch s ≡ some g')
find_submatch_complete s g h =
    let (g', m) =
      match_here_complete g.uuid g.start g.end h.behind h.uuid_run h.start_run h.end_run in
    let (g'', f) = find_submatch_later h.before _ (find_submatch_front _ m) in (g'', rw h.shape f)
