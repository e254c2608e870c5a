-- ===== src/Controller/Cluster.antt =====
-- internal/controller/groupreplicationcluster_controller.go. Logging is left out.
pub mod Bootstrap
pub mod Rounds
pub mod Order
pub mod Promise
pub mod Retry
pub mod Scope
use Prim.Native.String.{◌++◌}
use mathlib.Core.List.{◌++◌ as append}
use greatsql_operator.Prelude.{
  ℕ, zero, suc, ◌+◌, String, Bool, true, Option, none, some, List, [], ◌∷◌, Outcome, ok, panic,
  index_out_of_range, deref, first,
}
use greatsql_operator.Prelude.Int.{ℤ, pos, pos_part}
use greatsql_operator.Prelude.Decimal.{print, print_ℤ}
use greatsql_operator.Prelude.Steps.{◌>>=◌, ◌>>◌, pure, fail, lift}
use greatsql_operator.Consts
use greatsql_operator.Api.Meta.{Key}
use greatsql_operator.Api.Pod.{PodSpec}
use greatsql_operator.Api.Cluster.{GroupReplicationCluster, MysqlGroupReplicationCluster, get_size}
use greatsql_operator.Mysql.Config.{MysqlConfig, config_string, calculate_innodb_buffer_pool_size}
use greatsql_operator.Kube.Objects.{
  Container, ContainerPort, PersistentVolumeClaim, StatefulSet, Service, config_map, claim, secret,
  stateful_set, service, cluster_kind,
}
use greatsql_operator.Kube.Pods.{tcp_port}
use greatsql_operator.Utils.Service.{get_uuid}
use greatsql_operator.Kube.Builders.Plain.{
  new_config_map, new_persistent_volume_claim, new_service, new_secret_env,
}
use greatsql_operator.Kube.Builders.Workloads.{new_stateful_set}
use greatsql_operator.Kube.Platform.{
  not_found, Reply, done, failed, Error, api, Platform, Op, request, attempt,
}

-- `strings.Join`
unfoldable pub join : String → List String → String
join sep [] = ""
join sep (s ∷ []) = s
join sep (s ∷ t ∷ r) = s ++ (sep ++ join sep (t ∷ r))

-- The name of the configuration of a member.
unfoldable pub config_map_name : Key → ℕ → String
config_map_name req ordinal = req.name ++ ("-config-" ++ print ordinal)

-- The name of the service in front of the members.
unfoldable pub headless_name : Key → String
headless_name req = req.name ++ "-headless"

-- The DNS name of a member.
unfoldable pub member_host : Key → ℕ → String
member_host req ordinal =
    req.name
    ++ ("-"
        ++ (print ordinal
            ++ ("." ++ (req.name ++ ("-headless." ++ (req.namespace ++ ".svc.cluster.local"))))))

-- The settings of a member; `uuid` names its group.
unfoldable pub member_config : Key → ℕ → String → ℤ → MysqlConfig
unfolding member_host join
member_config req ordinal uuid memory = record {
  server_id = print ordinal;
  enable_cluster = true;
  group_replication_group_name = uuid;
  group_replication_local_address = "";
  group_replication_group_seeds =
      join "," ((member_host req ordinal ++ (":" ++ print_ℤ Consts.mgr_communicate_port)) ∷ []);
  report_host = member_host req ordinal;
  report_port = pos 3306;
  innodb_buffer_pool_size = calculate_innodb_buffer_pool_size memory;
}

-- `sts.Spec.Template.Spec.Containers[0].Ports = append(…)`
unfoldable pub open_ports : {E : Type 0} → List Container → Outcome E (List Container)
open_ports [] = panic index_out_of_range
open_ports (c ∷ cs) = ok (
    record c {
      ports = append c.ports (
          tcp_port Consts.mgr_communica_name Consts.mgr_communicate_port
          ∷ tcp_port Consts.mgr_admin_name Consts.mgr_admin_port
          ∷ tcp_port Consts.mysql_port_name Consts.mysql_port
          ∷ []);
    }
    ∷ cs)

module _ {W : Type 0} (p : Platform W) where
  abbrev cluster_of : GroupReplicationCluster → Op W MysqlGroupReplicationCluster
  cluster_of mgr = lift (deref mgr.spec.cluster_spec)

  -- `mgr.Spec.ClusterSpec.PodSpec`
  unfoldable pub pod_of : GroupReplicationCluster → Op W PodSpec
  pod_of mgr = do cluster ← cluster_of mgr; lift (deref cluster.pod_spec)

  -- `createSecret`
  unfoldable pub create_secret : Key → GroupReplicationCluster → Op W (Unit {0})
  create_secret req mgr = do
    pod ← pod_of mgr
    container ← lift (first pod.containers)
    request
        (p.create secret (new_secret_env p (req.name ++ "-secret") req.namespace container.envs))
    pure tt

  -- The part of `createConfigMap` behind the look-up.
  unfoldable pub create_new_config_map : Key → GroupReplicationCluster → ℕ → Op W (Unit {0})
  create_new_config_map req mgr ordinal = do
    pod ← pod_of mgr
    container ← lift (first pod.containers)
    uuid ← (λ w. let (u, w') = get_uuid p.new_uuid w in (ok u, w'))
    let text = config_string (member_config req ordinal uuid (p.memory_request container.resources))
    request (
        p.create config_map
          (new_config_map (config_map_name req ordinal) req.namespace "my.cnf" text))
    pure tt

  -- `createConfigMap`
  unfoldable pub create_config_map : Key → GroupReplicationCluster → ℕ → Op W (Unit {0})
  create_config_map req mgr ordinal = do
    reply ← attempt (p.get config_map (record req { name = config_map_name req ordinal }))
    elim reply [
      | done _ ↦ pure tt
      | failed not_found ↦ create_new_config_map req mgr ordinal
      | failed e ↦ fail (api e)
    ]

  -- `createPersistentVolumeClaim`
  unfoldable pub create_persistent_volume_claim :
      Key → GroupReplicationCluster → ℕ → Op W (Unit {0})
  create_persistent_volume_claim req mgr ordinal = do
    pod ← pod_of mgr
    pvc ← lift (new_persistent_volume_claim p req.name req.namespace pod)
    let name = req.name ++ ("-" ++ (Consts.db ++ ("-" ++ print ordinal)))
    request (p.create claim (record pvc { meta = record pvc.meta { name = name } }))
    pure tt

  -- `createStatefulSet`
  unfoldable pub create_stateful_set : Key → GroupReplicationCluster → ℕ → Op W (Unit {0})
  create_stateful_set req mgr ordinal = do
    sts ←
        lift
          (new_stateful_set p (config_map_name req ordinal) (headless_name req) mgr (pos ordinal))
    containers ← lift (open_ports sts.template.containers)
    request (
        p.create stateful_set
          (record sts { template = record sts.template { containers = containers } }))
    pure tt

  -- `createService`
  unfoldable pub create_service : Key → GroupReplicationCluster → Op W (Unit {0})
  create_service req mgr = do
    cluster ← cluster_of mgr
    let svc =
        new_service p req.name req.namespace Consts.group_replication_cluster mgr.meta cluster.ports
          cluster.type
    request (
        p.create service
          (record svc { meta = record svc.meta { name = headless_name req }; cluster_ip = "None" }))
    pure tt

  -- The body of the loop of `createResources`.
  unfoldable pub create_member : Key → GroupReplicationCluster → ℕ → Op W (Unit {0})
  create_member req mgr ordinal = do
    create_config_map req mgr ordinal
    create_persistent_volume_claim req mgr ordinal
    create_stateful_set req mgr ordinal

  -- The loop, with `n` rounds left at `ordinal`.
  unfoldable pub create_members : Key → GroupReplicationCluster → ℕ → ℕ → Op W (Unit {0})
  create_members req mgr zero ordinal = pure tt
  create_members req mgr (suc n) ordinal = do
    create_member req mgr ordinal
    create_members req mgr n (ordinal + 1)

  -- `createResources`
  unfoldable pub create_resources : Key → GroupReplicationCluster → Op W (Unit {0})
  create_resources req mgr = do
    create_secret req mgr
    member ← lift (first mgr.spec.member)
    create_members req mgr (pos_part (get_size member)) 1
    create_service req mgr

  -- `Reconcile`, from the cluster that was found on
  unfoldable pub reconcile_found : Key → GroupReplicationCluster → Op W (Unit {0})
  reconcile_found req mgr = do
    reply ← attempt (p.get stateful_set req)
    elim reply [ done _ ↦ pure tt | failed _ ↦ create_resources req mgr ]

  -- `Reconcile`
  unfoldable pub reconcile : Key → Op W (Unit {0})
  reconcile req = do
    reply ← attempt (p.get cluster_kind req)
    elim reply [
      | done mgr ↦ reconcile_found req mgr
      | failed not_found ↦ pure tt
      | failed e ↦ fail (api e)
    ]
