-- ===== src/Tests/Clusters.antt =====
-- A cluster of one member, on the server that remembers, and its database.
use greatsql_operator.Prelude.{◌≡◌, refl, none, some, [], ◌∷◌, ok, err}
use greatsql_operator.Prelude.Int.{pos}
use greatsql_operator.Prelude.Steps.{◌>>=◌}
use greatsql_operator.Prelude.Plans.{Follows}
use greatsql_operator.Prelude.Choices.{Obeys}
use greatsql_operator.Api.Affinity.{cluster_pod_affinity}
use greatsql_operator.Api.Cluster.{get_size, GroupReplicationCluster}
use greatsql_operator.Kube.Objects.{config_map, claim, secret, stateful_set, service}
use greatsql_operator.Kube.Pods.{new_containers, pod_template}
use greatsql_operator.Kube.Trace.{get_call, create_call, traced}
use greatsql_operator.Kube.Answers.{recorded}
use greatsql_operator.Kube.Builders.Plain.{
  default_storage, new_persistent_volume_claim, new_service, new_secret_env, new_config_map,
}
use greatsql_operator.Kube.Builders.Workloads.{new_stateful_set}
use greatsql_operator.Mysql.Client.{driver, verifying, new_client, execute_query, create_user}
use greatsql_operator.Mysql.Client.Statements.{recording}
use greatsql_operator.Controller.Cluster.{
  config_map_name, headless_name, pod_of, open_ports, create_secret, create_new_config_map,
  create_config_map, create_persistent_volume_claim, create_stateful_set, create_service,
  create_member, create_members, create_resources, reconcile,
}
use greatsql_operator.Controller.Cluster.Bootstrap.{initialize_cluster}
use greatsql_operator.Controller.Cluster.Bootstrap.Sequence.{
  bootstrap_plan, initialize_cluster-Follows,
}
use greatsql_operator.Controller.Cluster.Order.{ResourcesPlan, config_key, claim_key}
use greatsql_operator.Controller.Cluster.Order.Resources.{create_resources-Obeys}
use greatsql_operator.Controller.Cluster.Promise.{AllThere}
use greatsql_operator.Controller.Cluster.Promise.Runs.{over, again, meanwhile, created-AllThere}
use greatsql_operator.Controller.Single.Promise.Returns.{Admits}
use greatsql_operator.Controller.Cluster.Promise.Returns.{HasParts, create_resources-completes}
use greatsql_operator.Tests.Returns.{done_inj}
use greatsql_operator.Tests.Databases.{unreachable}
use greatsql_operator.Tests.Server.{
  accepting, parts_of_cluster, pod, container, template, request_key, cluster, member,
}
use greatsql_operator.Tests.Storing.{storing, Holds, storing-Persists, storing-KeepsKeys}

abbrev three : GroupReplicationCluster
three = cluster (member (some (pos 3)) ∷ [])

create_resources-Obeys_example :
    Obeys (ResourcesPlan request_key 1) (create_resources (recorded accepting) request_key three)
create_resources-Obeys_example =
    create_resources-Obeys accepting request_key three refl (pos 3) (member (some (pos 3))) [] refl
      refl

returned : (create_resources storing request_key three []).0 ≡ ok tt
unfolding create_resources pod_of open_ports create_secret create_new_config_map create_config_map
    create_persistent_volume_claim create_stateful_set create_service create_member create_members
    get_size new_stateful_set new_containers new_persistent_volume_claim default_storage
    cluster_pod_affinity pod_template ◌>>=◌
returned = refl

-- What is sent for it on a server that holds nothing.
sent :
    (create_resources (traced storing) request_key three ([], [])).1.1
    ≡ create_call secret (record { namespace = "default"; name = "db1-secret" })
      ∷ get_call config_map (config_key request_key 1)
      ∷ create_call config_map (config_key request_key 1)
      ∷ create_call claim (claim_key request_key 1)
      ∷ create_call stateful_set request_key
      ∷ create_call service (record { namespace = "default"; name = "db1-headless" })
      ∷ []
unfolding create_resources pod_of open_ports create_secret create_new_config_map create_config_map
    create_persistent_volume_claim create_stateful_set create_service create_member create_members
    get_size new_stateful_set new_containers new_persistent_volume_claim default_storage
    cluster_pod_affinity pod_template ◌>>=◌ new_secret_env new_config_map config_map_name
    new_service headless_name
sent = refl

-- The objects are created, others change nothing, and two reconciliations follow.
created-AllThere_example :
    AllThere Holds request_key
      (reconcile storing request_key
        (reconcile storing request_key (create_resources storing request_key three []).1).1).1
created-AllThere_example =
    created-AllThere storing storing-KeepsKeys Holds storing-Persists request_key three refl (pos 3)
      (member (some (pos 3))) [] refl refl [] _ returned
      (meanwhile _ _ _ (λ k key h. h) (again request_key _ _ (again request_key _ _ (over _))))

storing-Admits : Admits storing
storing-Admits = record {
  creates = λ k o w. (o, refl);
  keeps_ports = λ o o' w e h. rw (← done_inj e) h;
  states = λ s w. (s, refl);
  reads = λ n. (pos 1073741824, refl);
}

abbrev three_parts : HasParts three
three_parts = record {
  cluster = parts_of_cluster;
  cluster_set = refl;
  pod = pod;
  pod_set = refl;
  container = container;
  containers = [];
  containers_set = refl;
  template = template;
  template_set = refl;
  strategy = record {
    type = "RollingUpdate";
    roleling_update = some (record { partition = some (pos 0); max_unavailable = none });
  };
  strategy_set = refl;
  rolling = record { partition = some (pos 0); max_unavailable = none };
  rolling_set = refl;
  head = member (some (pos 3));
  members = [];
  members_set = refl;
}

create_resources-completes_example :
    ((create_resources storing request_key three []).0 ≡ ok tt)
    × AllThere Holds request_key (create_resources storing request_key three []).1
create_resources-completes_example =
    create_resources-completes storing request_key three three_parts storing-Admits (λ key w. tt)
      Holds storing-Persists (pos 3) refl refl []

initialize_cluster-Follows_example :
    Follows bootstrap_plan (initialize_cluster (recording unreachable) three)
initialize_cluster-Follows_example = initialize_cluster-Follows unreachable three

-- An unreachable server is sent nothing.
initialize_cluster-unreachable :
    initialize_cluster (recording unreachable) three (3, [])
    ≡ (err (verifying (driver "connection refused")), (3, []))
unfolding initialize_cluster create_user execute_query new_client ◌>>=◌
initialize_cluster-unreachable = refl
