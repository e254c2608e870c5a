-- ===== src/Mysql/Client/Connections.antt =====
-- No connection is left open, whatever the database answers.
use greatsql_operator.Prelude.{ℕ, suc, ◌<◌, ◌≡◌, String, List, arith, Outcome, ok, err, panic}
use greatsql_operator.Prelude.Steps.{Step, continue, ◌>>=◌}
use greatsql_operator.Mysql.Client.{
  SqlError, Sql, Mysql, dsn, verify, new_client, deferred_close, exec_statement, execute_query,
  get_gtid,
}

-- The handles after a step that opens a connection: one more if it returns one, and else as before.
abbrev pub After : {W : Type 0} → (W → ℕ) → W → Outcome SqlError ℕ × W → Type 0
After handles w (ok _, w') = handles w' ≡ suc (handles w)
After handles w (err _, w') = handles w' ≡ handles w
After handles w (panic _, w') = handles w' ≡ handles w

-- What `database/sql` documents of the number of open handles: opening one adds it if there is no
-- error, closing one takes it away, and the other calls leave the number alone.
pub record CountsHandles {W : Type 0} (sql : Sql W) (handles : W → ℕ) : Type 0 where
  pub opened : (source : String) (w : W) → After handles w (sql.open_db source w)
  pub pinged : (conn : ℕ) (w : W) → handles (sql.ping conn w).1 ≡ handles w
  pub closed : (conn : ℕ) (w : W) → 0 < handles w → suc (handles (sql.close conn w).1) ≡ handles w
  pub executed :
      (conn : ℕ) (query : String) (args : List String) (w : W)
      → handles (sql.exec conn query args w).1 ≡ handles w
  pub queried :
      (conn : ℕ) (query : String) (w : W) → handles (sql.query_text conn query w).1 ≡ handles w

module _ {W : Type 0} (sql : Sql W) (handles : W → ℕ) (c : CountsHandles sql handles) where
  verify-After :
      (conn : ℕ) (w w0 : W) → handles w ≡ suc (handles w0) → After handles w0 (verify sql conn w)
  unfolding verify
  verify-After conn w w0 h = ground (arith, c.pinged conn w, c.closed conn (sql.ping conn w).1)

  continue-After :
      (w : W) (r : Outcome SqlError ℕ × W)
      → After handles w r
      → After handles w (continue r.0 (verify sql) r.1)
  continue-After w (ok conn, w') h = verify-After conn w' w h
  continue-After w (err e, w') h = h
  continue-After w (panic f, w') h = h

  new_client-After : (m : Mysql) (w : W) → After handles w (new_client sql m w)
  unfolding new_client ◌>>=◌
  new_client-After m w = continue-After w (sql.open_db (dsn m) w) (c.opened (dsn m) w)

  -- A body that leaves the number of handles alone, and its deferred close.
  deferred-Closes :
      {A : Type 0} (body : ℕ → Step SqlError W A)
      → ((conn : ℕ) (w : W) → handles (body conn w).1 ≡ handles w)
      → (w : W) (r : Outcome SqlError ℕ × W) → After handles w r
      → handles (continue r.0 (λ conn. deferred_close sql conn (body conn)) r.1).1 ≡ handles w
  unfolding deferred_close
  deferred-Closes body keeps w (ok conn, w') h =
      omega (arith, keeps conn w', c.closed conn (body conn w').1)
  deferred-Closes body keeps w (err e, w') h = h
  deferred-Closes body keeps w (panic f, w') h = h

  -- `executeQuery` leaves no connection open, whether the opening, the ping, the statement or the
  -- closing fails or not.
  pub handles-execute_query :
      (m : Mysql) (query : String) (args : List String) (w : W)
      → handles (execute_query sql m query args w).1 ≡ handles w
  unfolding execute_query ◌>>=◌
  handles-execute_query m query args w =
      deferred-Closes (λ conn. exec_statement sql conn query args)
        (λ conn w'. unfold exec_statement in c.executed conn query args w') w (new_client sql m w)
        (new_client-After m w)

  -- `GetGTID` leaves no connection open.
  pub handles-get_gtid : (m : Mysql) (w : W) → handles (get_gtid sql m w).1 ≡ handles w
  unfolding get_gtid ◌>>=◌
  handles-get_gtid m w =
      deferred-Closes (λ conn. sql.query_text conn _) (λ conn w'. c.queried conn _ w') w
        (new_client sql m w) (new_client-After m w)
