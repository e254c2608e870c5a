-- ===== src/Tests/Starts.antt =====
-- A start of the program, and updates that the informers report.
use greatsql_operator.Prelude.{
  ℕ, suc, String, ◌≡◌, refl, none, some, List, [], ◌∷◌, false, Outcome, ok, err, panic,
  index_out_of_range, type_assertion,
}
use greatsql_operator.Prelude.Int.{pos}
use greatsql_operator.Prelude.Steps.{◌>>=◌}
use greatsql_operator.Prelude.Plans.{answered, Follows}
use greatsql_operator.Controller.Setup
use greatsql_operator.Start.{Host, Flags, exit, serve, run}
use greatsql_operator.Start.Order.{
  flags_call, config_call, manager_call, controller_call, webhook_call, recorded, start_plan,
  run-Follows,
}
use greatsql_operator.Api.Instance.{zero_meta}
use greatsql_operator.Kube.Objects.{Secret, cluster_kind}
use greatsql_operator.Kube.Informers.{
  Action, Keyed, key, WatchedPod, WatchedWorkload, WatchedClaim, pod_object, deployment_object,
  stateful_set_object, claim_object, secret_object, other_object, pod_updated, deployment_updated,
  stateful_set_updated, claim_updated, secret_updated,
}
use greatsql_operator.Kube.Informers.Resync.{Quiet, resync-Quiet}

abbrev flags : Flags
flags = record {
  metrics_addr = ":8080";
  probe_addr = ":8081";
  enable_leader_election = false;
  secure_metrics = false;
  enable_http2 = false;
}

-- A host on which the webhook cannot be set up; its state counts the starts.
abbrev host : Host ℕ
host = record {
  parse_flags = λ n. (ok flags, n);
  get_config_or_die = λ n. (ok "https://10.0.0.1:6443", n);
  new_manager = λ config options n. (none, n);
  complete = λ watch n. (none, n);
  getenv = λ name n. "";
  complete_webhook = λ kind n. (some "no certificate", n);
  add_healthz_check = λ name n. (none, n);
  add_readyz_check = λ name n. (none, n);
  start = λ n. (none, suc n);
}

run-Follows_example : Follows (start_plan "") (run (recorded host))
run-Follows_example = run-Follows host "" λ n. refl

-- It exits behind the webhook, which is the last call.
run-webhook : run (recorded host) (0, []) ≡ (
  err (exit "unable to create webhook"),
  (
    0,
    answered flags_call none
        ∷ answered config_call none
        ∷ answered manager_call none
        ∷ answered (controller_call Setup.single_watch) none
        ∷ answered (controller_call Setup.cluster_watch) none
        ∷ answered (webhook_call cluster_kind) (some (exit "unable to create webhook"))
        ∷ [],
  ),
)
unfolding run serve ◌>>=◌
run-webhook = refl

abbrev secret : String → Secret
secret version = record {
  type_meta = record { api_version = "v1"; kind = "Secret" };
  meta = record zero_meta {
    name = "db1-secret";
    namespace = "default";
    resource_version = version;
  };
  items = [];
  type = "Opaque";
}

abbrev key_of_secret : Secret → Keyed
key_of_secret s = key s.meta.name

abbrev running : WatchedPod
running = record { name = "db1-0"; restart_counts = pos 2 ∷ [] }

abbrev workload : WatchedWorkload
workload = record { name = "db1"; replicas = pos 3 }

abbrev volume : WatchedClaim
volume = record { name = "db1-db"; phase = "Bound" }

resync-Quiet_example :
    Quiet (pod_updated (pod_object running) (pod_object running))
    × Quiet (deployment_updated (deployment_object workload) (deployment_object workload))
    × Quiet (stateful_set_updated (stateful_set_object workload) (stateful_set_object workload))
    × Quiet (claim_updated (claim_object volume) (claim_object volume))
    × Quiet (secret_updated key_of_secret (secret_object (secret "1")) (secret_object (secret "1")))
resync-Quiet_example =
    resync-Quiet running (pos 2) [] workload volume key_of_secret (secret "1") "db1-secret" refl
      refl

abbrev pending : WatchedPod
pending = record { name = "db1-0"; restart_counts = [] }

-- A pod without a container status makes its handler panic, and so does an object of another kind.
pending_panics :
    ◌≡◌ {A = Outcome String (List Action)}
      (pod_updated (pod_object pending) (pod_object running))
      (panic index_out_of_range)
unfolding pod_updated
pending_panics = refl

other_panics :
    ◌≡◌ {A = Outcome String (List Action)}
      (claim_updated other_object (claim_object volume))
      (panic type_assertion)
unfolding claim_updated
other_panics = refl
