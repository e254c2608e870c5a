-- ===== src/Mysql/Gtid/Parse.antt =====
-- What `parseGTID` accepts and what it returns.
use greatsql_operator.Prelude.{
  ◌≤◌, ◌<◌, ◌⊎◌, ◌≡◌, false, Bool, true, ◌||◌, none, some, inl, inr, arith, Outcome, ok, err, panic,
  Option-cases,
}
use greatsql_operator.Prelude.Int.{ℤ, pos}
use greatsql_operator.Mysql.Gtid.{
  Bytes, codes, Gtid, GtidError, skip_comparison, invalid_format, zero_gtid, Groups, is_text,
  find_submatch, value, max_int64, parse_int, parse_gtid,
}
use greatsql_operator.Mysql.Gtid.Search.{Holds, find_submatch_sound, find_submatch_complete}

parse_int_sound :
    (s : Bytes) {n : ℤ} → parse_int s ≡ some n → (n ≡ pos (value 0 s)) × (value 0 s ≤ max_int64)
unfolding parse_int
parse_int_sound s h = ground arith

-- Where the text is neither "0" nor "1", the early return is not taken.
abbrev pub is_marker : Bytes → Bool
is_marker s = is_text s (codes "0") || is_text s (codes "1")

-- A GTID that `parseGTID` returns was read from the text: the text holds the three groups of the
-- expression, the start and the end are the numbers that the digits spell, with no wrap-around, and
-- the fields that the parser does not read are zero.
pub record ReadFrom (s : Bytes) (g : Gtid) : Type 0 where
  pub groups : Groups
  pub held : Holds s groups
  pub start_fits : value 0 groups.start ≤ max_int64
  pub end_fits : value 0 groups.end ≤ max_int64
  pub fields : g ≡ record zero_gtid {
    uuid = groups.uuid;
    start = pos (value 0 groups.start);
    end = pos (value 0 groups.end);
  }

pub parse_gtid_sound : (s : Bytes) (g : Gtid) → parse_gtid s ≡ ok g → ReadFrom s g
unfolding parse_gtid
parse_gtid_sound s g h = elim (Option-cases (find_submatch s)) [
  | inl e ↦ absurd (ground (arith, h, e))
  | inr (m, e) ↦ elim (Option-cases (parse_int m.start)) [
    | inl e1 ↦ absurd (ground arith)
    | inr (a, e1) ↦ elim (Option-cases (parse_int m.end)) [
      | inl e2 ↦ absurd (ground arith)
      | inr (b, e2) ↦ record {
        groups = m;
        held = find_submatch_sound s m e;
        start_fits = (parse_int_sound m.start e1).1;
        end_fits = (parse_int_sound m.end e2).1;
        fields = ground (arith, parse_int_sound m.start e1, parse_int_sound m.end e2);
      }
    ]
  ]
]

parse_int_out_of_range : (s : Bytes) → parse_int s ≡ none → max_int64 < value 0 s
unfolding parse_int
parse_int_out_of_range s h = ground arith

-- The texts "0" and "1" are refused.
pub parse_gtid-marker : (s : Bytes) → is_marker s ≡ true → parse_gtid s ≡ err skip_comparison
unfolding parse_gtid
parse_gtid-marker s m = rw m

-- Why `parseGTID` may refuse a text that is no marker: it holds no match, or a number of the match
-- that was found is past the largest `int64`.
abbrev pub Refusal : Bytes → Type 0
Refusal s =
    ((g : Groups) → ¬ Holds s g)
    ⊎ ((g : Groups) × (find_submatch s ≡ some g)
        × ((max_int64 < value 0 g.start) ⊎ (max_int64 < value 0 g.end)))

no-match : (s : Bytes) → find_submatch s ≡ none → (g : Groups) → ¬ Holds s g
no-match s e g h = let (g', e') = find_submatch_complete s g h in cc

-- What a result of the parser says of the text; it does not panic.
abbrev pub Parsed : Bytes → Outcome GtidError Gtid → Type 0
Parsed s (ok g) = (is_marker s ≡ false) × ReadFrom s g
Parsed s (err skip_comparison) = is_marker s ≡ true
Parsed s (err (invalid_format t)) = (t ≡ s) × (is_marker s ≡ false) × Refusal s
Parsed s (panic _) = ⊥

-- On every text the parser ends in one of three ways: it skips "0" and "1" with an error, it refuses
-- with the text in the error and for a reason, or it returns a GTID that was read from the text.
pub parse_gtid-Parsed : (s : Bytes) (r : Outcome GtidError Gtid) → parse_gtid s ≡ r → Parsed s r
unfolding parse_gtid
parse_gtid-Parsed s (ok g) h = (ground arith, parse_gtid_sound s g h)
parse_gtid-Parsed s (err skip_comparison) h = ground arith
parse_gtid-Parsed s (err (invalid_format t)) h = (
  ground arith,
  ground arith,
  elim (Option-cases (find_submatch s)) [
    | inl e ↦ inl (no-match s e)
    | inr (m, e) ↦ inr (
      m,
      e,
      elim (Option-cases (parse_int m.start)) [
        | inl e1 ↦ inl (parse_int_out_of_range m.start e1)
        | inr (a, e1) ↦ elim (Option-cases (parse_int m.end)) [
          | inl e2 ↦ inr (parse_int_out_of_range m.end e2)
          | inr (b, e2) ↦ absurd (ground arith)
        ]
      ],
    )
  ],
)
parse_gtid-Parsed s (panic p) h = ground arith
