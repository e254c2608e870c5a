-- ===== src/Mysql/Gtid/Maximum.antt =====
-- `compareGTIDs` returns the first GTID with the greatest end.
use greatsql_operator.Prelude.{
  ℕ, zero, suc, ◌≡◌, refl, subst, sym, ◌⊎◌, inl, inr, some, List, [], ◌∷◌, arith, All, get_elem?,
  take, Bool-cases,
}
use greatsql_operator.Prelude.Int.{◌≤ℤ◌, ◌<ℤ◌, ltb_ℤ}
use greatsql_operator.Mysql.Gtid.{Gtid, better, max_from, compare_gtids}

-- The element `g` stands in the list, every end in the list is at most the end of `g`, and the ends
-- before it are smaller: it is the first greatest one.
pub record IsMaximum (g : Gtid) (gs : List Gtid) : Type 0 where
  pub at : ℕ
  pub found : get_elem? gs at ≡ some g
  pub greatest : All (λ h. h.end ≤ℤ g.end) gs
  pub first : All (λ h. h.end <ℤ g.end) (take at gs)

better_bounds : (best g : Gtid) → (best.end ≤ℤ (better best g).end) × (g.end ≤ℤ (better best g).end)
unfolding better
better_bounds best g = ground arith

better_cases :
    (best g : Gtid)
    → ((better best g ≡ g) × (best.end <ℤ g.end)) ⊎ ((better best g ≡ best) × (g.end ≤ℤ best.end))
unfolding better
better_cases best g = elim (Bool-cases (ltb_ℤ best.end g.end)) [
  | inl e ↦ inl (rw e, ground arith)
  | inr e ↦ inr (rw e, ground arith)
]

pub max_from-greatest :
    (best : Gtid) (gs : List Gtid)
    → (best.end ≤ℤ (max_from best gs).end) × All (λ h. h.end ≤ℤ (max_from best gs).end) gs
unfolding max_from
max_from-greatest best [] = omega arith
max_from-greatest best (g ∷ gs) =
    let (above, rest) = max_from-greatest (better best g) gs in
    let (b, c) = better_bounds best g in (omega arith, (omega arith, rest))

-- Where the maximum stands, and that the ends before it are smaller.
abbrev First : Gtid → List Gtid → Type 0
First r gs = (i : ℕ) × (get_elem? gs i ≡ some r) × All (λ h. h.end <ℤ r.end) (take i gs)

First-skip :
    {r best g : Gtid} (gs : List Gtid)
    → g.end ≤ℤ best.end
    → First r (best ∷ gs)
    → First r (best ∷ g ∷ gs)
First-skip gs h (zero, e, _) = (0, e, tt)
First-skip gs h (suc i, e, (b, rest)) = (suc (suc i), e, (b, (omega arith, rest)))

max_from-First : (best : Gtid) (gs : List Gtid) → First (max_from best gs) (best ∷ gs)
unfolding max_from
max_from-First best [] = (0, refl, tt)
max_from-First best (g ∷ gs) = elim (better_cases best g) [
  | inl (e, lt) ↦
      let (i, found, before) = max_from-First g gs in
      let (above, _) = max_from-greatest g gs in
      subst (λ b. First (max_from b gs) (best ∷ g ∷ gs)) (sym e)
        (suc i, found, (omega arith, before))
  | inr (e, le) ↦
      subst (λ b. First (max_from b gs) (best ∷ g ∷ gs)) (sym e)
        (First-skip gs le (max_from-First best gs))
]

-- `compareGTIDs` of a list that is not empty returns its first greatest element.
pub compare_gtids-IsMaximum :
    (g : Gtid) (gs : List Gtid) → IsMaximum (compare_gtids (g ∷ gs)) (g ∷ gs)
unfolding compare_gtids
compare_gtids-IsMaximum g gs =
    let (i, found, before) = max_from-First g gs in
    record { at = i; found = found; greatest = max_from-greatest g gs; first = before }
