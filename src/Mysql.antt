-- ===== src/Mysql.antt =====
-- internal/pkg/mysql: what the operator does with a database server.
pub mod Gtid
pub mod Config
pub mod Client
