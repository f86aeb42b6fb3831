-- ===== src/Entry.antt =====
-- cmd/main.go: the options that the flags set, and the stages of the start. The packages flag and
-- controller-runtime are not part of the repository: the values of the flags are an argument, and
-- the calls of the manager are fields of a record.
pub mod Safe
use raft_based_mysql_cluster.Prelude.{
  Str, lit, Bool, true, false, not, List, [], ◌∷◌, if◌then◌else◌,
}
use raft_based_mysql_cluster.Go.{Error, Go, pure, try}
use raft_based_mysql_cluster.Reconciler.{Watches, setup_with_manager}

-- The variables that the flags set, with the values that they have by default.
pub record Flags : Type 0 where
  pub metrics_addr : Str
  pub probe_addr : Str
  pub enable_leader_election : Bool
  pub secure_metrics : Bool
  pub enable_http2 : Bool

unfoldable pub default_flags : Flags
default_flags = record {
  metrics_addr = lit "0";
  probe_addr = lit ":8081";
  enable_leader_election = false;
  secure_metrics = true;
  enable_http2 = false;
}

-- tls.Config, as far as main changes it.
pub record TlsConfig : Type 0 where
  pub next_protos : List Str

unfoldable pub disable_http2 : TlsConfig → TlsConfig
disable_http2 c = record c { next_protos = lit "http/1.1" ∷ [] }

unfoldable pub tls_opts : Flags → List (TlsConfig → TlsConfig)
tls_opts flags = if not flags.enable_http2 then disable_http2 ∷ [] else []

-- metricsserver.Options; `authenticated` says that FilterProvider is WithAuthenticationAndAuthorization.
pub record MetricsOptions : Type 0 where
  pub bind_address : Str
  pub secure_serving : Bool
  pub tls : List (TlsConfig → TlsConfig)
  pub authenticated : Bool

unfoldable pub metrics_server_options : Flags → MetricsOptions
metrics_server_options flags =
    let options : MetricsOptions = record {
      bind_address = flags.metrics_addr;
      secure_serving = flags.secure_metrics;
      tls = tls_opts flags;
      authenticated = false;
    } in
    if flags.secure_metrics then record options { authenticated = true } else options

-- ctrl.Options, with the options of the webhook server instead of the server.
pub record ManagerOptions : Type 0 where
  pub metrics : MetricsOptions
  pub webhook_tls : List (TlsConfig → TlsConfig)
  pub health_probe_bind_address : Str
  pub leader_election : Bool
  pub leader_election_id : Str

unfoldable pub manager_options : Flags → ManagerOptions
manager_options flags = record {
  metrics = metrics_server_options flags;
  webhook_tls = tls_opts flags;
  health_probe_bind_address = flags.probe_addr;
  leader_election = flags.enable_leader_election;
  leader_election_id = lit "bf19fbca.ryansu.com";
}

-- The calls of controller-runtime; the checks are healthz.Ping. `get_config` is ctrl.GetConfig, whose
-- error GetConfigOrDie logs before it exits.
pub record Runtime (S : Type 0) : Type 1 where
  pub Config : Type 0
  pub get_config : Go S Config
  pub Manager : Type 0
  pub new_manager : Config → ManagerOptions → Go S Manager
  pub complete : Manager → Watches → Go S (Unit {0})
  pub add_healthz_check : Manager → Str → Go S (Unit {0})
  pub add_readyz_check : Manager → Str → Go S (Unit {0})
  pub start : Manager → Go S (Unit {0})

-- How main ends: by itself, in ctrl.GetConfigOrDie, or with os.Exit(1) after a message.
pub data Exit : Type 0 where
  returned : Exit
  died : Exit
  exit_1 : Str → Exit

module _ {S : Type 0} (runtime : Runtime S) where
  abbrev pub or_exit : {A : Type 0} → Go S A → Str → (A → Go S Exit) → Go S Exit
  or_exit stage message rest = try stage rest (λ _. pure (exit_1 message))

  abbrev pub or_die : {A : Type 0} → Go S A → (A → Go S Exit) → Go S Exit
  or_die stage rest = try stage rest (λ _. pure died)

  unfoldable pub main : Flags → Go S Exit
  main flags = or_die runtime.get_config λ config.
      or_exit (runtime.new_manager config (manager_options flags)) (lit "unable to start manager")
        λ mgr.
          or_exit (setup_with_manager (runtime.complete mgr)) (lit "unable to create controller")
            λ _.
              or_exit (runtime.add_healthz_check mgr (lit "healthz"))
                (lit "unable to set up health check")
                λ _.
                  or_exit (runtime.add_readyz_check mgr (lit "readyz"))
                    (lit "unable to set up ready check")
                    λ _.
                      or_exit (runtime.start mgr) (lit "problem running manager") λ _. pure returned
