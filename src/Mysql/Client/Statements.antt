-- ===== src/Mysql/Client/Statements.antt =====
-- Which statements are sent to a server, in their order, and how they are answered: a driver that keeps
-- a log beside the world.
use greatsql_operator.Prelude.{
  ℕ, String, Option, none, some, List, [], ◌∷◌, ◌++◌, refl, ok, err, inl, inr,
}
use greatsql_operator.Prelude.Steps.{Step}
use greatsql_operator.Prelude.Plans.{
  Answered, answered, Ran, failure, Ran-unsent, Follows, Follows-bind,
}
use greatsql_operator.Mysql.Client.{
  SqlError, verifying, verifying_and_closing, Sql, Mysql, dsn, or_ok, give_up, verify, new_client,
  deferred_close, exec_statement, execute_query,
}

-- A statement with its arguments.
pub record Statement : Type 0 where
  pub query : String
  pub args : List String

abbrev pub statement : String → List String → Statement
statement query args = record { query = query; args = args }

abbrev pub Answers : Type 0
Answers = List (Answered Statement SqlError)

abbrev beside : {W A : Type 0} → (W → A × W) → W × Answers → A × (W × Answers)
beside f (w, log) = let (a, w') = f w in (a, (w', log))

-- The driver with a log of the statements.
abbrev pub recording : {W : Type 0} → Sql W → Sql (W × Answers)
recording sql = record {
  open_db = λ source. beside (sql.open_db source);
  ping = λ conn. beside (sql.ping conn);
  close = λ conn. beside (sql.close conn);
  exec = λ conn query args (w, log).
      let (failure, w') = sql.exec conn query args w in
      (failure, (w', log ++ (answered (statement query args) failure ∷ [])));
  query_text = λ conn query (w, log).
      let (r, w') = sql.query_text conn query w in
      (r, (w', log ++ (answered (statement query []) (failure r) ∷ [])));
}

module _ {W : Type 0} (sql : Sql W) where
  closed-Ran :
      (conn : ℕ) (e : SqlError) (log : Answers) (x : Option SqlError × W)
      → Ran {E = SqlError} {W = W} {A = ℕ} [] log (elim x.0 [
        | none ↦ (err (verifying e), (x.1, log))
        | some closing ↦ (err (verifying_and_closing e closing), (x.1, log))
      ])
  closed-Ran conn e log (none, w) = Ran-unsent log w _
  closed-Ran conn e log (some closing, w) = Ran-unsent log w _

  pinged-Ran :
      (conn : ℕ) (log : Answers) (x : Option SqlError × W)
      → Ran {E = SqlError} {W = W} {A = ℕ} [] log (elim x.0 [
        | none ↦ (ok conn, (x.1, log))
        | some e ↦ give_up (recording sql) conn e (x.1, log)
      ])
  unfolding give_up
  pinged-Ran conn log (none, w) = Ran-unsent log w _
  pinged-Ran conn log (some e, w) = closed-Ran conn e log (sql.close conn w)

  verify-Follows : (conn : ℕ) → Follows [] (verify (recording sql) conn)
  unfolding verify
  verify-Follows conn = record { at = λ w log. pinged-Ran conn log (sql.ping conn w) }

  new_client-Follows : (m : Mysql) → Follows [] (new_client (recording sql) m)
  unfolding new_client
  new_client-Follows m =
      Follows-bind [] [] _ verify-Follows _
        (record { at = λ w log. let (r, w') = sql.open_db (dsn m) w in Ran-unsent log w' r })

  deferred-Follows :
      {A : Type 0} (plan : List Statement) (conn : ℕ) (body : Step SqlError (W × Answers) A)
      → Follows plan body
      → Follows plan (deferred_close (recording sql) conn body)
  unfolding deferred_close
  deferred-Follows plan conn body h = record {
    at = λ w log.
        let r = h.at w log in
        record {
          sent = r.sent;
          rest = r.rest;
          logged_as = r.logged_as;
          planned = r.planned;
          complete = r.complete;
          halted = r.halted;
        };
  }

  answered-Ran :
      (c : Statement) (log : Answers) (x : Option SqlError × W)
      → Ran (c ∷ []) log (or_ok x.0, (x.1, log ++ (answered c x.0 ∷ [])))
  answered-Ran c log (none, w) = record {
    sent = answered c none ∷ [];
    rest = [];
    logged_as = refl;
    planned = refl;
    complete = refl;
    halted = inl (refl, tt);
  }
  answered-Ran c log (some e, w) = record {
    sent = answered c (some e) ∷ [];
    rest = [];
    logged_as = refl;
    planned = refl;
    complete = tt;
    halted = inr (refl, e, refl, refl);
  }

  exec-Follows :
      (conn : ℕ) (query : String) (args : List String)
      → Follows (statement query args ∷ []) (exec_statement (recording sql) conn query args)
  unfolding exec_statement
  exec-Follows conn query args = record {
    at = λ w log. answered-Ran (statement query args) log (sql.exec conn query args w);
  }

  pub execute_query-Follows :
      (m : Mysql) (query : String) (args : List String)
      → Follows (statement query args ∷ []) (execute_query (recording sql) m query args)
  unfolding execute_query
  execute_query-Follows m query args =
      Follows-bind [] _ _ (λ conn. deferred-Follows _ conn _ (exec-Follows conn query args)) _
        (new_client-Follows m)
