-- ===== src/Consts.antt =====
-- internal/consts: the names, ports and keys that the operator writes into Kubernetes objects.
use Prim.Native.String.{◌++◌}
use greatsql_operator.Prelude.{String}
use greatsql_operator.Prelude.Int.{ℤ, pos}

-- greatsql_const.go
abbrev pub data_dir : String
data_dir = "/data/"

abbrev pub error_log_dir : String
error_log_dir = data_dir ++ "error.log"

abbrev pub config_dir : String
config_dir = "/etc/"

abbrev pub config_file : String
config_file = "my.cnf"

abbrev pub mysql_port_name : String
mysql_port_name = "mysql"

abbrev pub mysql_port : ℤ
mysql_port = pos 3306

abbrev pub mgr_communica_name : String
mgr_communica_name = "mgr-node-comm"

abbrev pub mgr_communicate_port : ℤ
mgr_communicate_port = pos 33061

abbrev pub mgr_admin_name : String
mgr_admin_name = "mgr-admin"

abbrev pub mgr_admin_port : ℤ
mgr_admin_port = pos 33060

abbrev pub config : String
config = "config"

abbrev pub db : String
db = "db"

abbrev pub init : String
init = "init"

abbrev pub snap_path : String
snap_path = "/snap"

abbrev pub root_user : String
root_user = "root"

abbrev pub mysql_db : String
mysql_db = "mysql"

-- the key, not the password
abbrev pub mysql_root_password : String
mysql_root_password = "MYSQL_ROOT_PASSWORD"

abbrev pub mysql_root_password_value : String
mysql_root_password_value = "R3JlYXRTUUxAMjAyNA=="

abbrev pub replication_channel_user : String
replication_channel_user = "repl"

abbrev pub replication_channel_password : String
replication_channel_password = "R3JlYXRTUUxAMjAyNA=="

abbrev pub greatsql_finalizer : String
greatsql_finalizer = "finalizer.greatsql.cn"

-- kind_const.go
abbrev pub single_instance : String
single_instance = "SingleInstance"

abbrev pub replicaof_group_cluster : String
replicaof_group_cluster = "ReplicaofGroupCluster"

abbrev pub group_replication_cluster : String
group_replication_cluster = "GroupReplicationCluster"

abbrev pub primary : String
primary = "primary"

abbrev pub sencondary : String
sencondary = "sencondary"

abbrev pub arbitrator : String
arbitrator = "arbitrator"

-- kube_const.go
abbrev pub controller : String
controller = "controller"

-- annotations_const.go
abbrev pub config_map_data_hash : String
config_map_data_hash = "greatsql.cn/configmap-data-hash"

-- labels_const.go
abbrev pub app_kubernetes_component : String
app_kubernetes_component = "app.kubernetes.io/component"

abbrev pub app_kubernetes_name : String
app_kubernetes_name = "app.kubernetes.io/name"

abbrev pub app_kubernetes_instance : String
app_kubernetes_instance = "app.kubernetes.io/instance"

-- api/v1/groupversion_info.go: `GroupVersion`
abbrev pub greatsql_group : String
greatsql_group = "greatsql.greatsql.cn"

abbrev pub greatsql_version : String
greatsql_version = "v1"
