-- ===== src/Tests/Databases.antt =====
-- A database server whose state counts the open handles, and on which every ping fails.
use greatsql_operator.Prelude.{ℕ, zero, suc, ◌<◌, ◌≡◌, refl, none, some, [], arith, ok, err}
use greatsql_operator.Prelude.Int.{pos}
use greatsql_operator.Prelude.Steps.{◌>>=◌}
use greatsql_operator.Mysql.Client.{driver, verifying, Sql, Mysql, new_client, execute_query}
use greatsql_operator.Mysql.Client.Connections.{CountsHandles, handles-execute_query}

abbrev closing : ℕ → ℕ
closing zero = 0
closing (suc n) = n

abbrev pub unreachable : Sql ℕ
unreachable = record {
  open_db = λ source n. (ok n, suc n);
  ping = λ conn n. (some (driver "connection refused"), n);
  close = λ conn n. (none, closing n);
  exec = λ conn query args n. (none, n);
  query_text = λ conn query n. (ok "46dda990-ceec:1-53", n);
}

abbrev pub count : ℕ → ℕ
count n = n

closing-suc : (n : ℕ) → 0 < n → suc (closing n) ≡ n
closing-suc zero h = omega arith
closing-suc (suc n) h = refl

pub unreachable-CountsHandles : CountsHandles unreachable count
unreachable-CountsHandles = record {
  opened = λ source n. refl;
  pinged = λ conn n. refl;
  closed = λ conn n h. closing-suc n h;
  executed = λ conn query args n. refl;
  queried = λ conn query n. refl;
}

abbrev pub server : Mysql
server = record {
  user_name = "root";
  password = "greatsql";
  host = "db1";
  port = pos 3306;
  db = "mysql";
}

-- A failed ping is reported, and the handle is closed.
execute_query-unreachable :
    execute_query unreachable server "SELECT 1" [] 3
    ≡ (err (verifying (driver "connection refused")), 3)
unfolding execute_query new_client ◌>>=◌
execute_query-unreachable = refl

handles-execute_query_example : count (execute_query unreachable server "SELECT 1" [] 3).1 ≡ count 3
handles-execute_query_example =
    handles-execute_query unreachable count unreachable-CountsHandles server "SELECT 1" [] 3
