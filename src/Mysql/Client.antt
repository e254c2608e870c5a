-- ===== src/Mysql/Client.antt =====
-- internal/pkg/mysql/mysql.go: the statements that the operator sends to a server. `database/sql` is a
-- parameter; a connection is a handle that it has given out.
pub mod Connections
pub mod Statements
use Prim.Native.String.{◌++◌}
use greatsql_operator.Prelude.{ℕ, String, Option, none, some, List, [], ◌∷◌, Outcome, ok, err}
use greatsql_operator.Prelude.Int.{ℤ}
use greatsql_operator.Prelude.Decimal.{print_ℤ}
use greatsql_operator.Prelude.Steps.{Step, ◌>>=◌, ◌>>◌, pure, fail}

-- The errors: one of the driver, and the two texts that `NewClient` puts around them.
pub data SqlError : Type 0 where
  driver : String → SqlError
  verifying : SqlError → SqlError
  verifying_and_closing : SqlError → SqlError → SqlError

-- `database/sql` with the MySQL driver, over the world `W`.
pub record Sql (W : Type 0) : Type 0 where
  pub open_db : String → Step SqlError W ℕ
  pub ping : ℕ → W → Option SqlError × W
  pub close : ℕ → W → Option SqlError × W
  pub exec : ℕ → String → List String → W → Option SqlError × W
  pub query_text : ℕ → String → Step SqlError W String

-- `MySQL`
pub record Mysql : Type 0 where
  pub user_name : String
  pub password : String
  pub host : String
  pub port : ℤ
  pub db : String

-- The data source name of `NewClient`.
unfoldable pub dsn : Mysql → String
dsn m =
    m.user_name
    ++ (":"
        ++ (m.password
            ++ ("@tcp("
                ++ (m.host
                    ++ (":"
                        ++ (print_ℤ m.port
                            ++ (")/" ++ (m.db ++ "?charset=utf8mb4&parseTime=True&loc=Local"))))))))

abbrev pub or_ok : Option SqlError → Outcome SqlError (Unit {0})
or_ok none = ok tt
or_ok (some e) = err e

module _ {W : Type 0} (sql : Sql W) where
  -- what `NewClient` does after a failed ping: it closes the connection, and reports both failures
  unfoldable pub give_up : ℕ → SqlError → Step SqlError W ℕ
  give_up conn e w =
      let (failure, w') = sql.close conn w in
      elim failure [
        | none ↦ (err (verifying e), w')
        | some closing ↦ (err (verifying_and_closing e closing), w')
      ]

  -- the test on the result of `dbConn.Ping()`
  unfoldable pub verify : ℕ → Step SqlError W ℕ
  unfolding give_up
  verify conn w =
      let (failure, w') = sql.ping conn w in
      elim failure [ none ↦ (ok conn, w') | some e ↦ give_up conn e w' ]

  -- `NewClient`
  unfoldable pub new_client : Mysql → Step SqlError W ℕ
  unfolding verify
  new_client m = do conn ← sql.open_db (dsn m); verify conn

  -- the deferred `db.Close()`, whose error is only printed
  unfoldable pub deferred_close : {A : Type 0} → ℕ → Step SqlError W A → Step SqlError W A
  deferred_close conn body w = let (r, w') = body w in let (_, w'') = sql.close conn w' in (r, w'')

  unfoldable pub exec_statement : ℕ → String → List String → Step SqlError W (Unit {0})
  exec_statement conn query args w =
      let (failure, w') = sql.exec conn query args w in (or_ok failure, w')

  -- `executeQuery`
  unfoldable pub execute_query : Mysql → String → List String → Step SqlError W (Unit {0})
  unfolding deferred_close exec_statement
  execute_query m query args = do
    conn ← new_client m
    deferred_close conn (exec_statement conn query args)

  -- `GetGTID`
  unfoldable pub get_gtid : Mysql → Step SqlError W String
  unfolding deferred_close
  get_gtid m = do
    conn ← new_client m
    deferred_close conn (sql.query_text conn "SELECT @@global.gtid_executed;")

  -- `ModifyRootPassword`
  unfoldable pub modify_root_password : Mysql → String → Step SqlError W (Unit {0})
  modify_root_password m password =
      execute_query m "ALTER USER 'root'@'%' IDENTIFIED BY ?;" (password ∷ [])

  -- `CreateUser`
  unfoldable pub create_user : Mysql → String → String → Step SqlError W (Unit {0})
  create_user m username password =
      execute_query m "CREATE USER ?@'%' IDENTIFIED BY ?;" (username ∷ password ∷ [])

  -- `GrantPrivileges`
  unfoldable pub grant_privileges : Mysql → String → Step SqlError W (Unit {0})
  grant_privileges m username =
      execute_query m "GRANT BACKUP_ADMIN, REPLICATION SLAVE ON *.* TO ?@'%';" (username ∷ [])

  -- `SetBootstrapMember`
  unfoldable pub set_bootstrap_member : Mysql → Step SqlError W (Unit {0})
  set_bootstrap_member m = execute_query m "SET GLOBAL group_replication_bootstrap_group=ON;" []
