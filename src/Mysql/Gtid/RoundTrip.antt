-- ===== src/Mysql/Gtid/RoundTrip.antt =====
-- A GTID set as a server prints it, parsed again.
use greatsql_operator.Prelude.{
  ℕ, ◌≤◌, ◌≡◌, refl, Bool, true, false, some, [], ◌∷◌, ◌++◌, arith, All, ok,
}
use greatsql_operator.Prelude.Int.{pos}
use greatsql_operator.Mysql.Gtid.{
  Bytes, zero_gtid, is_uuid_char, is_digit, span, after, plus, match_here, max_int64, parse_int,
  parse_gtid,
}
use greatsql_operator.Mysql.Gtid.Search.{IsRun, find_submatch_front}
use greatsql_operator.Mysql.Gtid.Parse.{is_marker}
use greatsql_operator.Mysql.Gtid.Digits.{digits, value-digits, digits-IsRun}

-- A run of the class ends in front of the text.
abbrev pub Ends : (ℕ → Bool) → Bytes → Type 0
Ends p [] = Unit
Ends p (c ∷ _) = p c ≡ false

-- One interval of one server: `uuid:start-end`.
unfoldable pub interval : Bytes → ℕ → ℕ → Bytes → Bytes
interval uuid start end rest = uuid ++ (b':' ∷ (digits start ++ (b'-' ∷ (digits end ++ rest))))

span-Ends :
    (p : ℕ → Bool) (u t : Bytes) → All (λ c. p c ≡ true) u → Ends p t → span p (u ++ t) ≡ (u, t)
unfolding span
span-Ends p [] [] h e = refl
span-Ends p [] (c ∷ t) h e = rw e
span-Ends p (d ∷ u) t h e = ground (arith, span-Ends p u t h.1 e)

plus-Ends : (p : ℕ → Bool) (u t : Bytes) → IsRun p u → Ends p t → plus p (u ++ t) ≡ some (u, t)
unfolding plus
plus-Ends p [] t h e = absurd (h.0 refl)
plus-Ends p (d ∷ u) t h e = rw (h.1.0, span-Ends p u t h.1.1 e)

match_here-interval :
    (uuid : Bytes) (start end : ℕ) (rest : Bytes)
    → IsRun is_uuid_char uuid
    → Ends is_digit rest
    → match_here (interval uuid start end rest)
      ≡ some (record { uuid = uuid; start = digits start; end = digits end })
unfolding match_here interval after
match_here-interval uuid start end rest h e = rw (
  plus-Ends is_uuid_char uuid (b':' ∷ (digits start ++ (b'-' ∷ (digits end ++ rest)))) h refl,
  plus-Ends is_digit (digits start) (b'-' ∷ (digits end ++ rest)) (digits-IsRun start) refl,
  plus-Ends is_digit (digits end) rest (digits-IsRun end) e,
)

parse_int-digits : (n : ℕ) → n ≤ max_int64 → parse_int (digits n) ≡ some (pos n)
unfolding parse_int
parse_int-digits n h = rw (value-digits n) (ground arith)

is_marker-interval :
    (uuid : Bytes) (start end : ℕ) (rest : Bytes)
    → IsRun is_uuid_char uuid
    → is_marker (interval uuid start end rest) ≡ false
unfolding interval
is_marker-interval [] start end rest h = absurd (h.0 refl)
is_marker-interval (c ∷ []) start end rest h = ground arith
is_marker-interval (c ∷ d ∷ u) start end rest h = ground arith

-- An interval that a server has printed is parsed to its UUID, its start and its end, if both fit an
-- `int64`, whatever follows it that is no digit: further intervals of the set are not looked at.
pub parse_gtid-interval :
    (uuid : Bytes) (start end : ℕ) (rest : Bytes)
    → IsRun is_uuid_char uuid
    → start ≤ max_int64
    → end ≤ max_int64
    → Ends is_digit rest
    → parse_gtid (interval uuid start end rest)
      ≡ ok (record zero_gtid { uuid = uuid; start = pos start; end = pos end })
unfolding parse_gtid
parse_gtid-interval uuid start end rest h hs he e = rw (
  is_marker-interval uuid start end rest h,
  find_submatch_front (interval uuid start end rest) (match_here-interval uuid start end rest h e),
  parse_int-digits start hs,
  parse_int-digits end he,
)
