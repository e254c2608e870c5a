-- ===== src/Controller/Cluster/Bootstrap.antt =====
-- `initializeCluster`: the replication user, its privileges and the bootstrap member, on the server of
-- the cluster.
pub mod Sequence
use Prim.Native.String.{◌++◌}
use greatsql_operator.Prelude.Steps.{Step, ◌>>◌}
use greatsql_operator.Consts
use greatsql_operator.Api.Cluster.{GroupReplicationCluster}
use greatsql_operator.Mysql.Client.{
  SqlError, Sql, Mysql, create_user, grant_privileges, set_bootstrap_member,
}

-- The server that is asked: the namespace stands where the name of the service would.
unfoldable pub bootstrap_server : GroupReplicationCluster → Mysql
bootstrap_server mgr = record {
  host =
      mgr.meta.name
      ++ ("."
          ++ (mgr.meta.namespace
              ++ ("-headless." ++ (mgr.meta.namespace ++ ".svc.cluster.local"))));
  port = Consts.mysql_port;
  user_name = Consts.root_user;
  password = Consts.mysql_root_password;
  db = Consts.mysql_db;
}

-- `initializeCluster`
unfoldable pub initialize_cluster :
    {W : Type 0} → Sql W → GroupReplicationCluster → Step SqlError W (Unit {0})
unfolding bootstrap_server
initialize_cluster sql mgr = do
  create_user sql (bootstrap_server mgr) Consts.replication_channel_user
      Consts.replication_channel_password
  grant_privileges sql (bootstrap_server mgr) Consts.replication_channel_user
  set_bootstrap_member sql (bootstrap_server mgr)
