-- ===== src/Mysql/Config.antt =====
-- internal/pkg/mysql/config.go and mysql_util.go: the text of `my.cnf`, and the size of the buffer pool.
-- The embedded template is well formed and is written to memory, so neither of its steps fails.
mod Template
pub mod BufferPool
pub mod File
use Prim.Native.String.{◌++◌}
use greatsql_operator.Prelude.{ℕ, ◌*◌, String, Bool, true, List, [], ◌∷◌, if◌then◌else◌}
use greatsql_operator.Prelude.Int.{ℤ, mul64, quot}
use greatsql_operator.Prelude.Decimal.{print_ℤ}
use Template.{
  client_section, server_section, group_section, local_address_section, seeds_section,
  group_behaviour_section, report_port_section, after_report_section, innodb_section, tail_section,
}

pub record MysqlConfig : Type 0 where
  pub server_id : String
  pub enable_cluster : Bool
  pub group_replication_group_name : String
  pub group_replication_local_address : String
  pub group_replication_group_seeds : String
  pub report_host : String
  pub report_port : ℤ
  pub innodb_buffer_pool_size : String

abbrev pub unlines : List String → String
unlines [] = ""
unlines (s ∷ ss) = s ++ unlines ss

-- The part of the template between `{{ if .EnableCluster }}` and `{{ end -}}`.
unfoldable pub cluster_settings : MysqlConfig → String
unfolding group_section local_address_section seeds_section group_behaviour_section
    report_port_section after_report_section
cluster_settings c =
    unlines group_section
    ++ c.group_replication_group_name
    ++ unlines local_address_section
    ++ c.group_replication_local_address
    ++ unlines seeds_section
    ++ c.group_replication_group_seeds
    ++ unlines group_behaviour_section
    ++ c.report_host
    ++ unlines report_port_section
    ++ print_ℤ c.report_port
    ++ unlines after_report_section

-- `(c *MySQLConfig) String(cnf)`: the fields of `cnf` are copied into `c` and written by the template.
unfoldable pub config_string : MysqlConfig → String
unfolding client_section server_section innodb_section tail_section cluster_settings
config_string c =
    unlines client_section
    ++ c.server_id
    ++ unlines server_section
    ++ (if c.enable_cluster then cluster_settings c else "")
    ++ unlines innodb_section
    ++ c.innodb_buffer_pool_size
    ++ unlines tail_section

-- The number of mebibytes, by the arithmetic of `int64`.
unfoldable pub pool_mebibytes : ℤ → ℤ
unfolding mul64 quot
pool_mebibytes memory_req = quot (quot (mul64 memory_req 75) 100) (1024 * 1024)

-- `CalculateInnodbBufferPoolSize`
unfoldable pub calculate_innodb_buffer_pool_size : ℤ → String
unfolding pool_mebibytes
calculate_innodb_buffer_pool_size memory_req = print_ℤ (pool_mebibytes memory_req) ++ "M"
