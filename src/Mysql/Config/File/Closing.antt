-- ===== src/Mysql/Config/File/Closing.antt =====
-- What the close of the file means for the result of `File`, and that each file is closed.
use greatsql_operator.Prelude.{ℕ, String, ◌≡◌, refl, Option, arith, Outcome, ok, err, panic}
use greatsql_operator.Prelude.Steps.{◌>>=◌, continue}
use greatsql_operator.Mysql.Config.{MysqlConfig, config_string}
use greatsql_operator.Mysql.Config.File.{FileError, Os, create_file, write_and_close, file}

-- The same operating system, with another `Close`.
abbrev pub with_close : {W : Type 0} → Os W → (ℕ → W → Option String × W) → Os W
with_close os close = record os { close = close }

module _ {W : Type 0} (os : Os W) (close : ℕ → W → Option String × W) where
  write_and_close-ignores_close :
      (text : String) (f : ℕ) (w : W)
      → (write_and_close (with_close os close) text f w).0 ≡ (write_and_close os text f w).0
  unfolding write_and_close
  write_and_close-ignores_close text f w = ground arith

  continue-ignores_close :
      (text : String) (r : Outcome FileError ℕ) (w : W)
      → (continue r (write_and_close (with_close os close) text) w).0
        ≡ (continue r (write_and_close os text) w).0
  continue-ignores_close text (ok f) w = write_and_close-ignores_close text f w
  continue-ignores_close text (err e) w = refl
  continue-ignores_close text (panic x) w = refl

  -- The result of `File` does not depend on what the close of the file answers: an error of the close is
  -- lost.
  pub file-ignores_close :
      (cnf : MysqlConfig) (w : W) → (file (with_close os close) cnf w).0 ≡ (file os cnf w).0
  unfolding file create_file ◌>>=◌
  file-ignores_close cnf w =
      continue-ignores_close (config_string cnf) (create_file os w).0 (create_file os w).1
