-- ===== src/Mysql/Config/Template.antt =====
-- internal/pkg/mysql/tmpl/my.cnf.tmpl: the text between the actions of the template, line by line. The
-- trimming `-` of `{{ end -}}` has taken the white space behind it.
use greatsql_operator.Prelude.{String, List, [], ◌∷◌}

unfoldable pub client_section : List String
client_section =
    "\n" ∷ "[client]\n" ∷ "socket    = /data/GreatSQL/mysql.sock\n" ∷ "[mysql]\n"
    ∷ "loose-skip-binary-as-hex\n" ∷ "prompt = \"(\\\\D)[\\\\u@GreatSQL][\\\\d]>\"\n"
    ∷ "no-auto-rehash\n" ∷ "[mysqld]\n" ∷ "user    = mysql\n" ∷ "port    = 3306\n" ∷ "server_id = "
    ∷ []

unfoldable pub server_section : List String
server_section =
    "\n" ∷ "basedir = /usr/\n" ∷ "datadir    = /data/GreatSQL\n"
    ∷ "socket    = /data/GreatSQL/mysql.sock\n" ∷ "pid-file = mysql.pid\n"
    ∷ "character-set-server = UTF8MB4\n" ∷ "skip_name_resolve = 1\n"
    ∷ "# 若数据库主要运行在境外，请务必根据实际情况调整本参数\n" ∷ "default_time_zone = \"+8:00\"\n"
    ∷ "bind_address = \"0.0.0.0\"\n" ∷ "\n" ∷ "# performance setttings\n"
    ∷ "lock_wait_timeout = 3600\n" ∷ "open_files_limit    = 65535\n" ∷ "back_log = 1024\n"
    ∷ "max_connections = 1024\n" ∷ "max_connect_errors = 1000000\n" ∷ "table_open_cache = 2048\n"
    ∷ "table_definition_cache = 2048\n" ∷ "thread_stack = 512K\n" ∷ "sort_buffer_size = 4M\n"
    ∷ "join_buffer_size = 4M\n" ∷ "read_buffer_size = 8M\n" ∷ "read_rnd_buffer_size = 4M\n"
    ∷ "bulk_insert_buffer_size = 64M\n" ∷ "thread_cache_size = 768\n"
    ∷ "interactive_timeout = 600\n" ∷ "wait_timeout = 600\n" ∷ "tmp_table_size = 96M\n"
    ∷ "max_heap_table_size = 96M\n" ∷ "max_allowed_packet = 64M\n"
    ∷ "net_buffer_shrink_interval = 180\n" ∷ "# GIPK\n"
    ∷ "loose-sql_generate_invisible_primary_key = ON\n" ∷ "\n" ∷ "# log settings\n"
    ∷ "log_timestamps = SYSTEM\n" ∷ "log_error = /data/GreatSQL/error.log\n"
    ∷ "log_error_verbosity = 3\n" ∷ "slow_query_log = 1\n" ∷ "log_slow_extra = 1\n"
    ∷ "slow_query_log_file = /data/GreatSQL/slow.log\n" ∷ "# 设置slow log文件大小1G及总文件数10\n"
    ∷ "max_slowlog_size = 1073741824\n" ∷ "max_slowlog_files = 10\n" ∷ "long_query_time = 0.01\n"
    ∷ "log_queries_not_using_indexes = 1\n" ∷ "log_throttle_queries_not_using_indexes = 60\n"
    ∷ "min_examined_row_limit = 100\n" ∷ "log_slow_admin_statements = 1\n"
    ∷ "log_slow_slave_statements = 1\n" ∷ "log_slow_verbosity = FULL\n"
    ∷ "log_bin = /data/GreatSQL/binlog\n" ∷ "binlog_format = ROW\n" ∷ "sync_binlog = 1\n"
    ∷ "binlog_cache_size = 4M\n" ∷ "max_binlog_cache_size = 6G\n" ∷ "max_binlog_size = 1G\n"
    ∷ "# 控制binlog总大小，避免磁盘空间被撑爆\n" ∷ "binlog_space_limit = 500G\n"
    ∷ "binlog_rows_query_log_events = 1\n" ∷ "binlog_expire_logs_seconds = 604800\n"
    ∷ "binlog_checksum = CRC32\n" ∷ "gtid_mode = ON\n" ∷ "enforce_gtid_consistency = TRUE\n" ∷ "\n"
    ∷ "# myisam settings\n" ∷ "key_buffer_size = 32M\n" ∷ "myisam_sort_buffer_size = 128M\n" ∷ "\n"
    ∷ "# replication settings\n" ∷ "relay_log_recovery = 1\n"
    ∷ "slave_parallel_type = LOGICAL_CLOCK\n" ∷ "# 并行复制线程数可以设置为逻辑CPU数量的2倍\n"
    ∷ "slave_parallel_workers = 64\n" ∷ "binlog_transaction_dependency_tracking = WRITESET\n"
    ∷ "slave_preserve_commit_order = 1\n" ∷ "slave_checkpoint_period = 2\n" ∷ "\n"
    ∷ "# 启用InnoDB并行查询优化功能\n" ∷ "loose-force_parallel_execute = OFF\n" ∷ "# 设置每个SQL语句的并行查询最大并发度\n"
    ∷ "loose-parallel_default_dop = 8\n" ∷ "# 设置系统中总的并行查询线程数，可以和最大逻辑CPU数量一样\n"
    ∷ "loose-parallel_max_threads = 64\n" ∷ "# 并行执行时leader线程和worker线程使用的总内存大小上限，可以设置物理内存的5-10%左右\n"
    ∷ "loose-parallel_memory_limit = 2G\n" ∷ "\n" ∷ "# parallel load data\n"
    ∷ "loose-gdb_parallel_load_chunk_size = 4M\n" ∷ "\n" ∷ "# rapid engine\n"
    ∷ "loose-rapid_memory_limit = 12G\n" ∷ "loose-rapid_worker_threads = 32\n"
    ∷ "loose-rapid_hash_table_memory_limit = 30\n"
    ∷ "loose-secondary_engine_parallel_load_workers = 16\n" ∷ "\n" ∷ []

unfoldable pub group_section : List String
group_section =
    "\n" ∷ "# mgr settings\n" ∷ "loose-plugin_load_add = 'mysql_clone.so'\n"
    ∷ "loose-plugin_load_add = 'group_replication.so'\n" ∷ "loose-group_replication_group_name = "
    ∷ []

unfoldable pub local_address_section : List String
local_address_section =
    "\n" ∷ "# MGR本地节点IP:PORT\n" ∷ "loose-group_replication_local_address = " ∷ []

unfoldable pub seeds_section : List String
seeds_section = "\n" ∷ "# MGR集群所有节点IP:PORT\n" ∷ "loose-group_replication_group_seeds = " ∷ []

unfoldable pub group_behaviour_section : List String
group_behaviour_section =
    "\n" ∷ "loose-group_replication_start_on_boot = ON\n"
    ∷ "loose-group_replication_bootstrap_group = OFF\n"
    ∷ "loose-group_replication_exit_state_action = READ_ONLY\n"
    ∷ "loose-group_replication_flow_control_mode = \"DISABLED\"\n"
    ∷ "loose-group_replication_single_primary_mode = ON\n"
    ∷ "loose-group_replication_enforce_update_everywhere_checks=0\n"
    ∷ "loose-group_replication_majority_after_mode = ON\n"
    ∷ "loose-group_replication_communication_max_message_size = 10M\n"
    ∷ "loose-group_replication_arbitrator = 0\n"
    ∷ "loose-group_replication_single_primary_fast_mode = 1\n"
    ∷ "loose-group_replication_request_time_threshold = 100\n"
    ∷ "loose-group_replication_primary_election_mode = GTID_FIRST\n"
    ∷ "loose-group_replication_unreachable_majority_timeout = 0\n"
    ∷ "loose-group_replication_member_expel_timeout = 5\n"
    ∷ "loose-group_replication_autorejoin_tries = 288\n"
    ∷ "loose-group_replication_recovery_get_public_key = ON\n" ∷ "report_host = " ∷ []

unfoldable pub report_port_section : List String
report_port_section = "\n" ∷ "report_port = " ∷ []

unfoldable pub after_report_section : List String
after_report_section =
    "\n" ∷ "\n" ∷ "# MGR切主后是否断开旧Priamry节点上的所有应用连接\n"
    ∷ "loose-greatdb_ha_mgr_exit_primary_kill_connection_mode = 0\n" ∷ []

unfoldable pub innodb_section : List String
innodb_section = "# innodb settings\n" ∷ "innodb_buffer_pool_size = " ∷ []

unfoldable pub tail_section : List String
tail_section =
    "\n" ∷ "innodb_buffer_pool_instances = 8\n" ∷ "innodb_data_file_path = ibdata1:12M:autoextend\n"
    ∷ "innodb_flush_log_at_trx_commit = 1\n" ∷ "innodb_log_buffer_size = 32M\n"
    ∷ "innodb_log_file_size = 2G\n" ∷ "innodb_log_files_in_group = 3\n"
    ∷ "innodb_redo_log_capacity = 6G\n" ∷ "innodb_doublewrite_files = 2\n"
    ∷ "innodb_max_undo_log_size = 4G\n" ∷ "# 根据您的服务器IOPS能力适当调整\n"
    ∷ "# 一般配普通SSD盘的话，可以调整到 10000 - 20000\n" ∷ "# 配置高端PCIe SSD卡的话，则可以调整的更高，比如 50000 - 80000\n"
    ∷ "innodb_io_capacity = 4000\n" ∷ "innodb_io_capacity_max = 8000\n"
    ∷ "innodb_open_files = 65534\n" ∷ "# 提醒：当需要用CLONE加密特性时，不要选用O_DIRECT模式，否则会比较慢\n"
    ∷ "innodb_flush_method = O_DIRECT\n" ∷ "innodb_lru_scan_depth = 4000\n"
    ∷ "innodb_lock_wait_timeout = 10\n" ∷ "innodb_rollback_on_timeout = 1\n"
    ∷ "innodb_print_all_deadlocks = 1\n" ∷ "innodb_online_alter_log_max_size = 4G\n"
    ∷ "innodb_print_ddl_logs = 1\n" ∷ "innodb_status_file = 1\n" ∷ "innodb_status_output = 0\n"
    ∷ "innodb_status_output_locks = 1\n" ∷ "innodb_sort_buffer_size = 64M\n"
    ∷ "innodb_adaptive_hash_index = 0\n" ∷ "# 开启NUMA支持\n" ∷ "innodb_numa_interleave = ON\n"
    ∷ "innodb_print_lock_wait_timeout_info = 1\n" ∷ "# 自动杀掉超过5分钟不活跃事务，避免行锁被长时间持有\n"
    ∷ "kill_idle_transaction = 300\n" ∷ "# 异步清理大表\n" ∷ "innodb_data_file_async_purge = ON\n" ∷ "\n"
    ∷ "# innodb monitor settings\n"
    ∷ "#innodb_monitor_enable = \"module_innodb,module_server,module_dml,module_ddl,module_trx,module_os,module_purge,module_log,module_lock,module_buffer,module_index,module_ibuf_system,module_buffer_page,module_adaptive_hash\"\n"
    ∷ "\n" ∷ "# pfs settings\n" ∷ "performance_schema = 1\n"
    ∷ "performance_schema_instrument = '%lock%=on'\n" ∷ []
