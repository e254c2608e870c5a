-- ===== src/Mysql/Config/File.antt =====
-- `(c *MySQLConfig) File(cnf)` of internal/pkg/mysql/config.go: the text of the settings in a file.
-- `os` is a parameter; an open file is a handle that it has given out.
pub mod Closing
use greatsql_operator.Prelude.{
  ℕ, suc, ◌<◌, String, ◌≡◌, refl, ◌⊎◌, inl, inr, Option, none, some, List, [], ◌∷◌, arith, Outcome,
  ok, err, panic,
}
use greatsql_operator.Prelude.Steps.{Step, ◌>>=◌, continue}
use greatsql_operator.Mysql.Config.{MysqlConfig, config_string}

-- The error of a call, with the text that `File` puts in front of it.
pub data FileError : Type 0 where
  creating writing : String → FileError

-- `os.Create`, `WriteString` and `Close`, over the world `W`.
pub record Os (W : Type 0) : Type 0 where
  pub create : String → W → Outcome String ℕ × W
  pub write_string : ℕ → String → W → Option String × W
  pub close : ℕ → W → Option String × W

module _ {W : Type 0} (os : Os W) where
  -- `os.Create("/tmp/my.cnf")`
  unfoldable pub create_file : Step FileError W ℕ
  create_file w =
      let (r, w') = os.create "/tmp/my.cnf" w in
      elim r [ ok f ↦ (ok f, w') | err e ↦ (err (creating e), w') | panic x ↦ (panic x, w') ]

  -- The writing, and the deferred close. Its error is put into the variable `err`, which is not the
  -- result of the function: the result was set before.
  unfoldable pub write_and_close : String → ℕ → Step FileError W (Unit {0})
  write_and_close text f w =
      let (failure, w1) = os.write_string f text w in
      let (_, w2) = os.close f w1 in
      elim failure [ none ↦ (ok tt, w2) | some e ↦ (err (writing e), w2) ]

  -- `File`
  unfoldable pub file : MysqlConfig → Step FileError W (Unit {0})
  unfolding create_file write_and_close
  file cnf = do f ← create_file; write_and_close (config_string cnf) f
