-- ===== src/Tests/Gtids.antt =====
-- Texts of GTIDs.
use greatsql_operator.Prelude.{◌≡◌, ◌≢◌, refl, some, [], ◌∷◌, ok, arith}
use greatsql_operator.Prelude.Int.{pos}
use greatsql_operator.Mysql.Gtid.{
  Bytes, codes, Gtid, Groups, zero_gtid, find_submatch, parse_gtid, get_max_gtid_member,
}
use greatsql_operator.Mysql.Gtid.RoundTrip.{interval, parse_gtid-interval}
use greatsql_operator.Mysql.Gtid.Parse.{Parsed, parse_gtid-Parsed}
use greatsql_operator.Mysql.Gtid.Selection.{
  IsFurthest, get_max_gtid_member-IsFurthest, get_max_gtid_member_total, get_max_gtid_member_marker,
}

abbrev ahead : Bytes
ahead = codes "46dda990-ceec:1-53"

abbrev behind : Bytes
behind = codes "46dda990-ceed:1-17"

abbrev ahead_groups : Groups
ahead_groups = record { uuid = codes "46dda990-ceec"; start = codes "1"; end = codes "53" }

abbrev ahead_gtid : Gtid
ahead_gtid = record zero_gtid { uuid = codes "46dda990-ceec"; start = pos 1; end = pos 53 }

abbrev behind_gtid : Gtid
behind_gtid = record zero_gtid { uuid = codes "46dda990-ceed"; start = pos 1; end = pos 17 }

find_ahead : find_submatch ahead ≡ some ahead_groups
unfolding find_submatch
find_ahead = refl

parse_ahead : parse_gtid ahead ≡ ok ahead_gtid
unfolding parse_gtid
parse_ahead = refl

parse_behind : parse_gtid behind ≡ ok behind_gtid
unfolding parse_gtid
parse_behind = refl

select_ahead : get_max_gtid_member (behind ∷ ahead ∷ []) ≡ ok ahead_gtid
unfolding get_max_gtid_member parse_gtid
select_ahead = refl

parse_gtid-Parsed_example : Parsed ahead (ok ahead_gtid)
parse_gtid-Parsed_example = parse_gtid-Parsed ahead (ok ahead_gtid) parse_ahead

get_max_gtid_member-IsFurthest_example : IsFurthest (behind ∷ ahead ∷ []) ahead_gtid
get_max_gtid_member-IsFurthest_example =
    get_max_gtid_member-IsFurthest (behind ∷ ahead ∷ []) ahead_gtid select_ahead

get_max_gtid_member_total_example : (g : Gtid) × (get_max_gtid_member (behind ∷ ahead ∷ []) ≡ ok g)
get_max_gtid_member_total_example =
    get_max_gtid_member_total (behind ∷ ahead ∷ [])
      ((behind_gtid, parse_behind), ((ahead_gtid, parse_ahead), tt))

get_max_gtid_member_marker_example :
    get_max_gtid_member (behind ∷ codes "0" ∷ ahead ∷ []) ≢ ok ahead_gtid
get_max_gtid_member_marker_example =
    get_max_gtid_member_marker (behind ∷ []) (ahead ∷ []) (codes "0") ahead_gtid refl

-- A set of two intervals, as a server prints it.
parse_gtid-interval_example :
    parse_gtid (interval (codes "46dda990-ceec") 1 53 (codes ":60-90"))
    ≡ ok (record zero_gtid { uuid = codes "46dda990-ceec"; start = pos 1; end = pos 53 })
parse_gtid-interval_example =
    parse_gtid-interval (codes "46dda990-ceec") 1 53 (codes ":60-90") (λ e. cc, ground arith)
      (omega arith) (omega arith) refl
