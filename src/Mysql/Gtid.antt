-- ===== src/Mysql/Gtid.antt =====
-- internal/pkg/mysql/gtid.go: parsing GTID texts, and choosing the member that is furthest ahead.
-- A text is the list of its code points. The regular expression `([0-9a-f-]+):(\d+)-(\d+)` is the
-- leftmost greedy search: a run of class characters cannot hold the `:` or the `-` that must follow
-- it, so the only run that can be continued is the whole one, and no backtracking is needed.
pub mod Search
pub mod Parse
pub mod Maximum
pub mod Selection
pub mod Leftmost
pub mod Backtracking
pub mod Digits
pub mod RoundTrip
use Prim.Native.Char.{code}
use greatsql_operator.Prelude.{
  ℕ, ◌+◌, ◌*◌, ◌-◌, ◌^◌, String, ◌≡◌, refl, Bool, true, false, ◌&&◌, ◌||◌, Option, none, some, List,
  [], ◌∷◌, Outcome, ok, err, ◌>>=◌, ltb, leb, ◌==◌, if◌then◌else◌,
}
use greatsql_operator.Prelude.Int.{ℤ, pos, ltb_ℤ}

abbrev pub Bytes : Type 0
Bytes = List ℕ

abbrev pub codes : String → Bytes
codes String.[] = []
codes (String.◌∷◌ c s) = code c ∷ codes s

pub record Gtid : Type 0 where
  pub host : Bytes
  pub uuid : Bytes
  pub server_id : ℤ
  pub start : ℤ
  pub end : ℤ

-- The zero value `GTID{}`.
abbrev pub zero_gtid : Gtid
zero_gtid = record { host = []; uuid = []; server_id = pos 0; start = pos 0; end = pos 0 }

-- The errors of `parseGTID`; every one is returned beside a GTID whose fields are all zero.
pub data GtidError : Type 0 where
  skip_comparison : GtidError
  invalid_format : Bytes → GtidError

-- [0-9a-f-]
abbrev pub is_uuid_char : ℕ → Bool
is_uuid_char c = leb b'0' c && leb c b'9' || leb b'a' c && leb c b'f' || c == b'-'

-- \d
abbrev pub is_digit : ℕ → Bool
is_digit c = leb b'0' c && leb c b'9'

-- The longest run of characters in a class, and what follows it.
unfoldable pub span : (ℕ → Bool) → Bytes → Bytes × Bytes
span p [] = ([], [])
span p (c ∷ s) = let rest = span p s in if p c then (c ∷ rest.0, rest.1) else ([], c ∷ s)

-- The next character must be `c`.
unfoldable pub after : ℕ → Bytes → Option Bytes
after c [] = none
after c (d ∷ s) = if d == c then some s else none

-- One or more characters of a class, greedily.
unfoldable pub plus : (ℕ → Bool) → Bytes → Option (Bytes × Bytes)
unfolding span
plus p [] = none
plus p (c ∷ s) = if p c then some (span p (c ∷ s)) else none

-- The submatches of a match of the expression.
pub record Groups : Type 0 where
  pub uuid : Bytes
  pub start : Bytes
  pub end : Bytes

infixl 5 ◌▹◌
abbrev pub ◌▹◌ {ℓ κ} : {A : Type ℓ} {B : Type κ} → Option A → (A → Option B) → Option B
none ▹ f = none
some a ▹ f = f a

-- The match that begins at the front of the text, if there is one.
unfoldable pub match_here : Bytes → Option Groups
unfolding after plus
match_here s = plus is_uuid_char s ▹ λ (u, r). after b':' r ▹ λ r1. plus is_digit r1 ▹ λ (d, r2).
    after b'-' r2 ▹ λ r3.
    plus is_digit r3 ▹ λ (e, _). some (record { uuid = u; start = d; end = e })

abbrev pub or_else {ℓ} : {A : Type ℓ} → Option A → Option A → Option A
or_else none o = o
or_else (some a) _ = some a

-- `rex.FindStringSubmatch`: the leftmost match.
unfoldable pub find_submatch : Bytes → Option Groups
unfolding match_here
find_submatch [] = match_here []
find_submatch (c ∷ s) = or_else (match_here (c ∷ s)) (find_submatch s)

-- The number that digits spell behind `n`.
unfoldable pub value : ℕ → Bytes → ℕ
value n [] = n
value n (c ∷ s) = value (n * 10 + (c - b'0')) s

abbrev pub max_int64 : ℕ
max_int64 = 2 ^ 63 - 1

-- `strconv.ParseInt(s, 10, 64)` of a text of digits: a range error past the largest `int64`.
unfoldable pub parse_int : Bytes → Option ℤ
unfolding value
parse_int s = let n = value 0 s in if leb n max_int64 then some (pos n) else none

abbrev pub or_invalid : {A : Type 0} → Bytes → Option A → Outcome GtidError A
or_invalid s none = err (invalid_format s)
or_invalid s (some a) = ok a

abbrev pub is_text : Bytes → Bytes → Bool
is_text [] [] = true
is_text [] (_ ∷ _) = false
is_text (_ ∷ _) [] = false
is_text (c ∷ s) (d ∷ t) = c == d && is_text s t

-- `parseGTID`
unfoldable pub parse_gtid : Bytes → Outcome GtidError Gtid
unfolding find_submatch parse_int
parse_gtid s = if is_text s (codes "0") || is_text s (codes "1") then err skip_comparison else do
  groups ← or_invalid s (find_submatch s)
  start ← or_invalid s (parse_int groups.start)
  end ← or_invalid s (parse_int groups.end)
  ok (record zero_gtid { uuid = groups.uuid; start = start; end = end })

-- The body of the loop of `compareGTIDs`: a strictly greater end replaces the maximum.
unfoldable pub better : Gtid → Gtid → Gtid
better best g = if ltb_ℤ best.end g.end then g else best

-- The loop of `compareGTIDs` over `gtid[1:]`.
unfoldable pub max_from : Gtid → List Gtid → Gtid
unfolding better
max_from best [] = best
max_from best (g ∷ gs) = max_from (better best g) gs

-- `compareGTIDs`
unfoldable pub compare_gtids : List Gtid → Gtid
unfolding max_from
compare_gtids [] = zero_gtid
compare_gtids (g ∷ gs) = max_from g gs

-- `gtid.End == 0`
abbrev pub has_no_end : Gtid → Bool
has_no_end g = elim g.end [ pos n ↦ n == 0 | _ ↦ false ]

-- The loop of `GetMaxGTIDMember`: the parsed GTIDs with an end, in order, or the first error.
unfoldable pub collect : List Bytes → Outcome GtidError (List Gtid)
collect [] = ok []
collect (s ∷ ss) = do g ← parse_gtid s; gs ← collect ss; ok (if has_no_end g then gs else g ∷ gs)

-- `GetMaxGTIDMember`
unfoldable pub get_max_gtid_member : List Bytes → Outcome GtidError Gtid
unfolding collect compare_gtids
get_max_gtid_member ss = do gs ← collect ss; ok (compare_gtids gs)

parse_gtid-server :
    parse_gtid (codes "gtid is 46dda990-ceec:1-53,x")
    ≡ ok (record zero_gtid { uuid = codes "46dda990-ceec"; start = pos 1; end = pos 53 })
unfolding parse_gtid
parse_gtid-server = refl
