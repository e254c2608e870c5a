-- ===== src/Controller/Single/Create.antt =====
-- `createResources` of the SingleInstance controller and the steps that it takes.
use Prim.Native.String.{◌++◌}
use text.Mathlib.Text.{◌==◌ as str_eq}
use greatsql_operator.Prelude.{Bool, false, ◌&&◌, deref, ◌==◌, if◌then◌else◌}
use greatsql_operator.Prelude.Int.{ℤ, pos, negsuc}
use greatsql_operator.Consts
use greatsql_operator.Api.Meta.{Key}
use greatsql_operator.Api.Instance.{SingleInstance, SingleInstanceStatus}
use greatsql_operator.Mysql.Config.{MysqlConfig, config_string}
use greatsql_operator.Kube.Objects.{
  ConfigMap, Service, config_map, claim, deployment, service, instance_kind,
}
use greatsql_operator.Kube.Builders.Plain.{new_config_map, new_persistent_volume_claim, new_service}
use greatsql_operator.Kube.Builders.Workloads.{new_deployment}
use greatsql_operator.Prelude.Steps.{◌>>=◌, ◌>>◌, pure, lift}
use greatsql_operator.Kube.Platform.{done, failed, Platform, Op, request, attempt}
use greatsql_operator.Utils.Service.{get_service_access_point}

-- The settings of a single instance.
abbrev pub single_config : MysqlConfig
single_config = record {
  server_id = "0";
  enable_cluster = false;
  group_replication_group_name = "greatsql";
  group_replication_local_address = "";
  group_replication_group_seeds = "";
  report_host = "";
  report_port = pos 3306;
  innodb_buffer_pool_size = "1G";
}

-- The configuration that is created, and later updated, for a request.
unfoldable pub config_map_for : Key → ConfigMap
config_map_for req =
    new_config_map (req.name ++ "-config") req.namespace "my.cnf" (config_string single_config)

-- What `reflect.DeepEqual` is asked to compare: the status itself and a pointer to the new one.
pub data Reflected : Type 0 where
  value pointer : SingleInstanceStatus → Reflected

abbrev pub same_number : ℤ → ℤ → Bool
same_number (pos m) (pos n) = m == n
same_number (negsuc m) (negsuc n) = m == n
same_number _ _ = false

abbrev pub same_status : SingleInstanceStatus → SingleInstanceStatus → Bool
same_status a b =
    str_eq a.access_point b.access_point
    && same_number a.size b.size
    && same_number a.ready b.ready
    && str_eq a.age b.age
    && str_eq a.deployment_status b.deployment_status

-- Values of different types are never deeply equal.
unfoldable pub deep_equal : Reflected → Reflected → Bool
deep_equal (value a) (value b) = same_status a b
deep_equal (pointer a) (pointer b) = same_status a b
deep_equal _ _ = false

module _ {W : Type 0} (p : Platform W) where
  -- `createConfigMap`
  unfoldable pub create_config_map : Key → Op W ConfigMap
  unfolding config_map_for
  create_config_map req = request (p.create config_map (config_map_for req))

  -- `createPersistentVolumeClaim`
  unfoldable pub create_persistent_volume_claim : Key → SingleInstance → Op W (Unit {0})
  create_persistent_volume_claim req s = do
    pvc ← lift (new_persistent_volume_claim p req.name req.namespace s.spec.pod_spec)
    request (p.create claim pvc)
    pure tt

  -- `createDeployment`
  unfoldable pub create_deployment : Key → SingleInstance → Op W (Unit {0})
  create_deployment req s = do
    size ← lift (deref s.spec.size)
    deploy ← lift (new_deployment p (req.name ++ Consts.config) s size)
    request (p.create deployment deploy)
    pure tt

  -- `updateStatus`
  unfoldable pub update_status : SingleInstance → Service → Op W SingleInstance
  unfolding deep_equal
  update_status s svc = do
    access_point ← lift (get_service_access_point svc)
    size ← lift (deref s.spec.size)
    let status : SingleInstanceStatus = record {
      access_point = access_point;
      size = size;
      ready = pos 0;
      age = p.time_string svc.meta.creation_timestamp;
      deployment_status = "";
    }
    if deep_equal (value s.status) (pointer status)
        then pure s
        else request (p.update_status instance_kind (record s { status = status }))

  unfoldable pub service_for : Key → SingleInstance → Service
  service_for req s =
      new_service p req.name req.namespace Consts.single_instance s.meta s.spec.ports s.spec.type

  -- `createService`
  unfoldable pub create_service : Key → SingleInstance → Op W SingleInstance
  unfolding service_for
  create_service req s = do
    svc ← request (p.create service (service_for req s))
    update_status s svc

  -- The body of the `if` of `createResources`.
  unfoldable pub create_all : Key → SingleInstance → Op W SingleInstance
  create_all req s = do
    create_config_map req
    create_persistent_volume_claim req s
    create_deployment req s
    create_service req s

  -- `createResources`: any error of the look-up counts as a missing deployment
  unfoldable pub create_resources : Key → SingleInstance → Op W SingleInstance
  create_resources req s = do
    reply ← attempt (p.get deployment req)
    elim reply [ done _ ↦ pure s | failed _ ↦ create_all req s ]
