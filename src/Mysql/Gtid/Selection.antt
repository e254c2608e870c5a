-- ===== src/Mysql/Gtid/Selection.antt =====
-- `GetMaxGTIDMember` over a list of texts: its result, that it has one, and what makes it fail.
use greatsql_operator.Prelude.{
  ℕ, zero, suc, ◌≡◌, ◌≢◌, refl, subst, sym, ◌⊎◌, inl, inr, true, some, List, [], ◌∷◌, ◌++◌, arith,
  All, All-middle, get_elem?, ok, >>=-eq-ok, ok_inj, Bool-cases, if◌then◌else◌,
}
use greatsql_operator.Prelude.Int.{pos, ◌≤ℤ◌}
use greatsql_operator.Mysql.Gtid.{
  Bytes, Gtid, zero_gtid, parse_gtid, compare_gtids, has_no_end, collect, get_max_gtid_member,
}
use greatsql_operator.Mysql.Gtid.Parse.{is_marker, parse_gtid_sound, parse_gtid-marker}
use greatsql_operator.Mysql.Gtid.Maximum.{max_from-greatest, compare_gtids-IsMaximum}

-- What `GetMaxGTIDMember` makes of its texts: the parsed GTIDs whose end is not 0, in order.
abbrev pub Collects : List Bytes → List Gtid → Type 0
Collects [] gs = gs ≡ []
Collects (s ∷ ss) gs =
    (g : Gtid) × (rest : List Gtid) × (parse_gtid s ≡ ok g)
    × Collects ss rest
    × (gs ≡ (if has_no_end g then rest else g ∷ rest))

collect-Collects : (ss : List Bytes) (gs : List Gtid) → collect ss ≡ ok gs → Collects ss gs
unfolding collect
collect-Collects [] gs h = ground arith
collect-Collects (s ∷ ss) gs h =
    let (g, e1, k1) = >>=-eq-ok (parse_gtid s) _ h in
    let (rest, e2, k2) = >>=-eq-ok (collect ss) _ k1 in
    (g, rest, e1, collect-Collects ss rest e2, sym (ok_inj k2))

-- The position and the text that a collected GTID comes from.
abbrev pub Comes : List Bytes → Gtid → Type 0
Comes ss g = (i : ℕ) × (s : Bytes) × (get_elem? ss i ≡ some s) × (parse_gtid s ≡ ok g)

Comes-later : {g : Gtid} (s : Bytes) (ss : List Bytes) → Comes ss g → Comes (s ∷ ss) g
Comes-later s ss (i, t, e, p) = (suc i, t, e, p)

Comes-head-or-later :
    (s : Bytes) (ss : List Bytes) (h : Gtid) (rest : List Gtid) (j : ℕ) (g : Gtid)
    → parse_gtid s ≡ ok h
    → get_elem? (h ∷ rest) j ≡ some g
    → ((k : ℕ) → get_elem? rest k ≡ some g → Comes ss g)
    → Comes (s ∷ ss) g
Comes-head-or-later s ss h rest zero g p e later = (0, s, refl, ground arith)
Comes-head-or-later s ss h rest (suc j) g p e later = Comes-later s ss (later j e)

Collects-Comes :
    (ss : List Bytes) (gs : List Gtid) (j : ℕ) (g : Gtid)
    → Collects ss gs
    → get_elem? gs j ≡ some g
    → Comes ss g
Collects-Comes [] gs j g c e = absurd (ground arith)
Collects-Comes (s ∷ ss) gs j g (h, rest, p, c, shape) e = elim (Bool-cases (has_no_end h)) [
  | inl none_left ↦ Comes-later s ss (Collects-Comes ss rest j g c (ground arith))
  | inr kept ↦
      Comes-head-or-later s ss h rest j g p (ground arith) (λ k. Collects-Comes ss rest k g c)
]

-- What `GetMaxGTIDMember` asserts of a text, if its result is `g`.
abbrev pub AtMost : Gtid → Bytes → Type 0
AtMost g s = (h : Gtid) × (parse_gtid s ≡ ok h) × (h.end ≤ℤ g.end)

Collects-AtMost :
    (r : Gtid) (ss : List Bytes) (gs : List Gtid)
    → Collects ss gs
    → pos 0 ≤ℤ r.end
    → All (λ h. h.end ≤ℤ r.end) gs
    → All (AtMost r) ss
Collects-AtMost r [] gs c nonneg h = tt
Collects-AtMost r (s ∷ ss) gs (g, rest, p, c, shape) nonneg h = elim (Bool-cases (has_no_end g)) [
  | inl none_left ↦ (
    (g, p, ground arith),
    Collects-AtMost r ss rest c nonneg
        (subst (All (λ k. k.end ≤ℤ r.end)) {y = rest} (ground arith) h),
  )
  | inr kept ↦
      let h' : All (λ k. k.end ≤ℤ r.end) (g ∷ rest) =
        subst (All (λ k. k.end ≤ℤ r.end)) {y = g ∷ rest} (ground arith) h in
      ((g, p, h'.0), Collects-AtMost r ss rest c nonneg h'.1)
]

parse_gtid-nonneg : (s : Bytes) (g : Gtid) → parse_gtid s ≡ ok g → pos 0 ≤ℤ g.end
parse_gtid-nonneg s g h = rw (parse_gtid_sound s g h).fields (omega arith)

Collects-nonneg : (ss : List Bytes) (gs : List Gtid) → Collects ss gs → All (λ h. pos 0 ≤ℤ h.end) gs
Collects-nonneg [] gs c = rw c tt
Collects-nonneg (s ∷ ss) gs (g, rest, p, c, shape) =
    let ih = Collects-nonneg ss rest c in ground (arith, parse_gtid-nonneg s g p)

-- The result of `GetMaxGTIDMember`: no text has a greater end, and it is the GTID of one of the
-- texts, or the zero value.
pub record IsFurthest (ss : List Bytes) (g : Gtid) : Type 0 where
  pub greatest : All (AtMost g) ss
  pub origin : Comes ss g ⊎ (g ≡ zero_gtid)

compare_gtids-nonneg :
    (gs : List Gtid) → All (λ h. pos 0 ≤ℤ h.end) gs → pos 0 ≤ℤ (compare_gtids gs).end
unfolding compare_gtids
compare_gtids-nonneg [] h = omega arith
compare_gtids-nonneg (g ∷ gs) h = omega (arith, max_from-greatest g gs)

Collects-IsFurthest :
    (ss : List Bytes) (gs : List Gtid) → Collects ss gs → IsFurthest ss (compare_gtids gs)
Collects-IsFurthest ss [] c = record {
  greatest = Collects-AtMost (compare_gtids []) ss [] c (compare_gtids-nonneg [] tt) tt;
  origin = inr (unfold compare_gtids in refl);
}
Collects-IsFurthest ss (g ∷ gs) c =
    let top = compare_gtids-IsMaximum g gs in
    let nonneg = compare_gtids-nonneg (g ∷ gs) (Collects-nonneg ss (g ∷ gs) c) in
    record {
      greatest = Collects-AtMost (compare_gtids (g ∷ gs)) ss (g ∷ gs) c nonneg top.greatest;
      origin = inl (Collects-Comes ss (g ∷ gs) top.at _ c top.found);
    }

-- If `GetMaxGTIDMember` returns `g`, every text was parsed to a GTID with an end of at most that of
-- `g`, and `g` is the GTID of one of the texts or the zero value.
pub get_max_gtid_member-IsFurthest :
    (ss : List Bytes) (g : Gtid) → get_max_gtid_member ss ≡ ok g → IsFurthest ss g
unfolding get_max_gtid_member
get_max_gtid_member-IsFurthest ss g h =
    let (gs, e, k) = >>=-eq-ok (collect ss) _ h in
    subst (IsFurthest ss) (ok_inj k) (Collects-IsFurthest ss gs (collect-Collects ss gs e))

collect_total :
    (ss : List Bytes)
    → All (λ s. (h : Gtid) × (parse_gtid s ≡ ok h)) ss
    → (gs : List Gtid) × (collect ss ≡ ok gs)
unfolding collect
collect_total [] h = ([], refl)
collect_total (s ∷ ss) ((g, p), h) =
    let (gs, e) = collect_total ss h in ((if has_no_end g then gs else g ∷ gs), rw (p, e))

-- If every text parses, `GetMaxGTIDMember` returns a GTID.
pub get_max_gtid_member_total :
    (ss : List Bytes)
    → All (λ s. (h : Gtid) × (parse_gtid s ≡ ok h)) ss
    → (g : Gtid) × (get_max_gtid_member ss ≡ ok g)
unfolding get_max_gtid_member
get_max_gtid_member_total ss h = let (gs, e) = collect_total ss h in (compare_gtids gs, rw e)

-- One text that is "0" or "1" makes the whole call fail, whatever the other texts are.
pub get_max_gtid_member_marker :
    (before behind : List Bytes) (s : Bytes) (g : Gtid)
    → is_marker s ≡ true
    → get_max_gtid_member (before ++ (s ∷ behind)) ≢ ok g
get_max_gtid_member_marker before behind s g m h =
    let (k, p, _) =
      All-middle (AtMost g) before s behind (get_max_gtid_member-IsFurthest _ g h).greatest in
    cc (parse_gtid-marker s m)
