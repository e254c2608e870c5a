-- ===== src/Tests/Promises.antt =====
-- What is there after reconciliations on the server that remembers.
use greatsql_operator.Prelude.{◌≡◌, refl, [], ok}
use greatsql_operator.Prelude.Steps.{◌>>=◌}
use greatsql_operator.Kube.Ensures.{Ensures}
use greatsql_operator.Controller.Single.{reconcile}
use greatsql_operator.Controller.Single.Create.{
  create_all, create_config_map, create_persistent_volume_claim, create_deployment, create_service,
  update_status, service_for,
}
use greatsql_operator.Kube.Builders.Plain.{
  default_storage, new_persistent_volume_claim, new_service,
}
use greatsql_operator.Kube.Builders.Workloads.{deployment_affinity, new_deployment}
use greatsql_operator.Kube.Pods.{new_containers}
use greatsql_operator.Utils.Service.{get_service_access_point}
use greatsql_operator.Api.Instance.{SingleInstance}
use greatsql_operator.Prelude.Int.{pos}
use greatsql_operator.Controller.Single.Promise.{Established, Remains}
use greatsql_operator.Controller.Single.Promise.Establish.{reconcile-Established}
use greatsql_operator.Controller.Single.Promise.Runs.{rest, again, meanwhile, created-Remains}
use greatsql_operator.Tests.Server.{request_key, sample}
use greatsql_operator.Tests.Storing.{storing, Holds, storing-Persists, storing-KeepsKeys}

reconcile-Established_example :
    Ensures
      (λ _. Unit)
      (reconcile storing request_key)
      (λ _. Established Holds request_key)
      (λ _. Unit)
reconcile-Established_example =
    reconcile-Established storing storing-KeepsKeys Holds storing-Persists request_key

abbrev with_status : SingleInstance
with_status = record sample {
  status = record {
    access_point = "";
    size = pos 2;
    ready = pos 0;
    age = "";
    deployment_status = "";
  };
}

created : (create_all storing request_key sample []).0 ≡ ok with_status
unfolding create_all create_config_map create_persistent_volume_claim create_deployment
    create_service update_status new_persistent_volume_claim default_storage new_deployment
    deployment_affinity new_containers get_service_access_point service_for new_service ◌>>=◌
created = refl

-- The objects are created, others change nothing, and two reconciliations follow.
created-Remains_example :
    Remains Holds request_key
      (reconcile storing request_key
        (reconcile storing request_key (create_all storing request_key sample []).1).1).1
created-Remains_example =
    created-Remains storing storing-KeepsKeys Holds storing-Persists request_key sample with_status
      [] _ created (meanwhile _ _ _ (λ k key h. h) (again _ _ (again _ _ (rest _))))
