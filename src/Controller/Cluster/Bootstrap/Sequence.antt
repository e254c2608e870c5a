-- ===== src/Controller/Cluster/Bootstrap/Sequence.antt =====
-- The statements of `initializeCluster`, and its connections.
use greatsql_operator.Prelude.{ℕ, ◌≡◌, List, [], ◌∷◌}
use greatsql_operator.Prelude.Steps.{Step}
use greatsql_operator.Prelude.Plans.{Follows, Follows-bind}
use greatsql_operator.Consts
use greatsql_operator.Api.Cluster.{GroupReplicationCluster}
use greatsql_operator.Mysql.Client.{
  SqlError, Sql, create_user, grant_privileges, set_bootstrap_member,
}
use greatsql_operator.Mysql.Client.Statements.{
  Statement, statement, recording, execute_query-Follows,
}
use greatsql_operator.Controller.Cluster.Bootstrap.{bootstrap_server, initialize_cluster}

-- The replication user, its privileges and the bootstrap member.
abbrev pub bootstrap_plan : List Statement
bootstrap_plan =
    statement "CREATE USER ?@'%' IDENTIFIED BY ?;"
      (Consts.replication_channel_user ∷ Consts.replication_channel_password ∷ [])
    ∷ statement "GRANT BACKUP_ADMIN, REPLICATION SLAVE ON *.* TO ?@'%';"
        (Consts.replication_channel_user ∷ [])
    ∷ statement "SET GLOBAL group_replication_bootstrap_group=ON;" []
    ∷ []

-- `initializeCluster` sends three statements in this order: the creation of the replication user with
-- its password, the grant of its privileges, and the setting of the bootstrap member. It returns only if
-- all of them are sent and none is refused; if one is refused, it is the last, and its error is
-- returned, and if a connection fails, a first part of them has been sent and nothing else.
pub initialize_cluster-Follows :
    {W : Type 0} (sql : Sql W) (mgr : GroupReplicationCluster)
    → Follows bootstrap_plan (initialize_cluster (recording sql) mgr)
unfolding initialize_cluster create_user grant_privileges set_bootstrap_member
initialize_cluster-Follows sql mgr =
    let one = execute_query-Follows sql (bootstrap_server mgr) in
    Follows-bind _ _ _
      (λ _.
        Follows-bind _ _ _ (λ _. one "SET GLOBAL group_replication_bootstrap_group=ON;" []) _
          (one "GRANT BACKUP_ADMIN, REPLICATION SLAVE ON *.* TO ?@'%';"
            (Consts.replication_channel_user ∷ [])))
      _
      (one "CREATE USER ?@'%' IDENTIFIED BY ?;"
        (Consts.replication_channel_user ∷ Consts.replication_channel_password ∷ []))

-- A step that leaves a number of the world alone.
record Leaves {W A : Type 0} (number : W → ℕ) (m : Step SqlError W A) : Type 0 where
  at : (w : W) → number (m w).1 ≡ number w
