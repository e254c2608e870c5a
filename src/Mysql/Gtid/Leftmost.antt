-- ===== src/Mysql/Gtid/Leftmost.antt =====
-- The search finds the match that begins first.
use greatsql_operator.Prelude.{
  ℕ, suc, ◌≤◌, ◌≡◌, ◌≢◌, refl, ap, sym, ◌∙◌, none, some, inl, inr, [], ◌∷◌, ◌++◌, arith,
  Option-cases, length,
}
use greatsql_operator.Mysql.Gtid.{Bytes, Groups, is_uuid_char, is_digit, match_here, find_submatch}
use greatsql_operator.Mysql.Gtid.Search.{
  IsRun, Holds, shift, Front, match_here-Front, match_here_complete,
}

-- The text holds the groups, and every match in the text begins there or later.
pub record IsLeftmost (s : Bytes) (g : Groups) : Type 0 where
  pub held : Holds s g
  pub least : (g' : Groups) (h : Holds s g') → length held.before ≤ length h.before

-- What follows the text in front of a match.
abbrev matched : Groups → Bytes → Bytes
matched g behind = g.uuid ++ (b':' ∷ (g.start ++ (b'-' ∷ (g.end ++ behind))))

some-ne-none : {A : Type 0} {a : A} → some a ≢ none
some-ne-none e = cc

cons_tail : {c d : ℕ} {s t : Bytes} → c ∷ s ≡ d ∷ t → s ≡ t
cons_tail h = cc

-- Where no match begins at the front, a match lies in the rest of the text.
Holds-tail :
    (before behind : Bytes) (c : ℕ) (s : Bytes) (g : Groups)
    → c ∷ s ≡ before ++ matched g behind
    → IsRun is_uuid_char g.uuid
    → IsRun is_digit g.start
    → IsRun is_digit g.end
    → match_here (c ∷ s) ≡ none
    → (k : Holds s g) × (length before ≡ suc (length k.before))
Holds-tail [] behind c s g shape hu hs he e =
    let (g', m) = match_here_complete g.uuid g.start g.end behind hu hs he in
    absurd (some-ne-none (sym m ∙ ap match_here (sym shape) ∙ e))
Holds-tail (d ∷ before) behind c s g shape hu hs he e = (
  record {
    before = before;
    behind = behind;
    shape = cons_tail shape;
    uuid_run = hu;
    start_run = hs;
    end_run = he;
  },
  refl,
)

IsLeftmost-Front : (s : Bytes) (g : Groups) → Front s g → IsLeftmost s g
IsLeftmost-Front s g (h, e) = record { held = h; least = λ g' h'. rw e (omega arith) }

IsLeftmost-cons :
    (c : ℕ) (s : Bytes) (g : Groups)
    → match_here (c ∷ s) ≡ none
    → IsLeftmost s g
    → IsLeftmost (c ∷ s) g
IsLeftmost-cons c s g e l = record {
  held = shift c s l.held;
  least = λ g' h'.
      let (k, longer) =
        Holds-tail h'.before h'.behind c s g' h'.shape h'.uuid_run h'.start_run h'.end_run e in
      omega (arith, longer, l.least g' k);
}

-- The match that the search finds lies in the text, and no match of the expression begins before it.
pub find_submatch-IsLeftmost : (s : Bytes) (g : Groups) → find_submatch s ≡ some g → IsLeftmost s g
unfolding find_submatch
find_submatch-IsLeftmost [] g h = IsLeftmost-Front [] g (match_here-Front [] h)
find_submatch-IsLeftmost (c ∷ s) g h = elim (Option-cases (match_here (c ∷ s))) [
  | inl e ↦ IsLeftmost-cons c s g e (find_submatch-IsLeftmost s g (ground (arith, h)))
  | inr (g', e) ↦
      let here : match_here (c ∷ s) ≡ some g = ground (arith, h) in
      IsLeftmost-Front (c ∷ s) g (match_here-Front (c ∷ s) here)
]
