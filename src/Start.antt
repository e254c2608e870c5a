-- ===== src/Start.antt =====
-- cmd/main.go: `run`, which sets the manager up and starts it. Logging is left out, but for the message
-- with which the program exits.
pub mod Order
use Prim.Native.String.{◌++◌}
use text.Mathlib.Text.{◌==◌ as str_eq}
use greatsql_operator.Prelude.{
  ℕ, String, Bool, true, false, not, Option, none, some, List, [], ◌∷◌, Outcome, ok, err,
  if◌then◌else◌,
}
use greatsql_operator.Prelude.Steps.{Step, ◌>>=◌, ◌>>◌, pure, fail}
use greatsql_operator.Api.Meta.{Raw}
use greatsql_operator.Kube.Objects.{Kind}
use greatsql_operator.Api.Webhook.{setup_webhook}
use greatsql_operator.Controller.Setup
use greatsql_operator.Controller.Setup.{Watch}

-- The variables that the flags set.
pub record Flags : Type 0 where
  pub metrics_addr : String
  pub probe_addr : String
  pub enable_leader_election : Bool
  pub secure_metrics : Bool
  pub enable_http2 : Bool

-- tls.Config
pub record TlsConfig : Type 0 where
  pub next_protos : List String

-- ctrl.Options, with the options of the metrics and the webhook server.
pub record ManagerOptions : Type 0 where
  pub metrics_bind_address : String
  pub secure_serving : Bool
  pub metrics_tls_opts : List (TlsConfig → TlsConfig)
  pub webhook_tls_opts : List (TlsConfig → TlsConfig)
  pub health_probe_bind_address : String
  pub leader_election : Bool
  pub leader_election_id : String

-- How the program ends itself: `os.Exit(1)` behind a message, or a library's `os.Exit`, with its code.
pub data Exit : Type 0 where
  exit : String → Exit
  library_exit : ℕ → Exit

-- The libraries that `run` calls, over the world `W`; a call returns an error or nothing.
pub record Host (W : Type 0) : Type 0 where
  -- flag.Parse and ctrl.GetConfigOrDie, which end the program where they fail
  pub parse_flags : Step Exit W Flags
  pub get_config_or_die : Step Exit W Raw
  pub new_manager : Raw → ManagerOptions → W → Option String × W
  -- `Complete` of the builder of a controller, and of that of a webhook
  pub complete : Watch → W → Option String × W
  pub getenv : String → W → String
  pub complete_webhook : Kind → W → Option String × W
  pub add_healthz_check : String → W → Option String × W
  pub add_readyz_check : String → W → Option String × W
  pub start : W → Option String × W

-- `%v` of a slice of texts, between the brackets.
abbrev spaced : List String → String
spaced [] = ""
spaced (arg ∷ []) = arg
spaced (arg ∷ next ∷ args) = arg ++ (" " ++ spaced (next ∷ args))

-- `cobraRootError`
unfoldable pub cobra_root_error : String → List String → String → Exit
cobra_root_error name args e =
    exit ("execute " ++ (name ++ (" args: [" ++ (spaced args ++ ("] error: " ++ (e ++ "\n"))))))

-- `disableHTTP2`
abbrev pub disable_http2 : TlsConfig → TlsConfig
disable_http2 c = record c { next_protos = "http/1.1" ∷ [] }

-- `tlsOpts`
unfoldable pub tls_opts : Flags → List (TlsConfig → TlsConfig)
tls_opts flags = if not flags.enable_http2 then disable_http2 ∷ [] else []

unfoldable pub manager_options : Flags → ManagerOptions
unfolding tls_opts
manager_options flags = record {
  metrics_bind_address = flags.metrics_addr;
  secure_serving = flags.secure_metrics;
  metrics_tls_opts = tls_opts flags;
  webhook_tls_opts = tls_opts flags;
  health_probe_bind_address = flags.probe_addr;
  leader_election = flags.enable_leader_election;
  leader_election_id = "00e44446.greatsql.cn";
}

abbrev pub or_exit : {W : Type 0} → String → (W → Option String × W) → Step Exit W (Unit {0})
or_exit message call w =
    let (failure, w') = call w in
    elim failure [ none ↦ (ok tt, w') | some _ ↦ (err (exit message), w') ]

module _ {W : Type 0} (h : Host W) where
  -- `os.Getenv("ENABLE_WEBHOOKS") != "false"`
  abbrev pub webhooks_enabled : Step Exit W Bool
  webhooks_enabled w = (ok (not (str_eq (h.getenv "ENABLE_WEBHOOKS" w) "false")), w)

  -- The part of `run` behind the controllers.
  unfoldable pub serve : Step Exit W (Unit {0})
  serve = do
    enabled ← webhooks_enabled
    if enabled
        then or_exit "unable to create webhook" (setup_webhook h.complete_webhook)
        else pure tt
    or_exit "unable to set up health check" (h.add_healthz_check "healthz")
    or_exit "unable to set up ready check" (h.add_readyz_check "readyz")
    or_exit "problem running manager" h.start

  -- `run`
  unfoldable pub run : Step Exit W (Unit {0})
  unfolding manager_options serve
  run = do
    flags ← h.parse_flags
    config ← h.get_config_or_die
    or_exit "unable to start manager" (h.new_manager config (manager_options flags))
    or_exit "unable to create controller" (Setup.single_instance h.complete)
    or_exit "unable to create controller" (Setup.group_replication_cluster h.complete)
    serve

  -- The function of `rootCmd`; `name` is `cmd.Name()`. Its last line, a second exit, is not reached.
  unfoldable pub root_cmd : String → List String → Step Exit W (Unit {0})
  unfolding run cobra_root_error
  root_cmd name [] = run
  root_cmd name (arg ∷ args) = fail (cobra_root_error name (arg ∷ args) "unknown command")

-- `init`: the types of client-go and then those of the operator are put into the scheme, each by a call
-- of `utilruntime.Must`, which is handed over.
unfoldable pub init :
    {W : Type 0} → (clientgo greatsql : Step Exit W (Unit {0})) → Step Exit W (Unit {0})
init clientgo greatsql = clientgo >> greatsql

-- `main`; `execute` is `rootCmd.Execute`. The error is printed before the exit.
unfoldable pub main : {W : Type 0} → (W → Option String × W) → Step Exit W (Unit {0})
main execute w =
    let (failure, w') = execute w in
    elim failure [ none ↦ (ok tt, w') | some e ↦ (err (exit (e ++ "\n")), w') ]
