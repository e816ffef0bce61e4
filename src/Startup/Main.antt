-- ===== src/Startup/Main.antt =====
-- The function `main` (cmd/main.go) with the set-up of controllers, validators and webhook server
-- (internal/controller/base_reconciler.go, internal/webhook/base_validator.go). An error, which is
-- logged, ends the process with status 1.
use k8s_postgresql_operator.Prelude.{ℕ, zero, suc, String, ◌<>◌, Bool, true, false, List, [], ◌∷◌}
use k8s_postgresql_operator.Errors.{wrapped}
use k8s_postgresql_operator.World.{
  Env, M, Action, Result, ok, RuntimeCall, cert_watcher, webhook_server, manager, controller,
  handler, runnable, healthz_check, readyz_check, start, wait, runtime_call, call, note, return_ok,
  map_err,
}
use k8s_postgresql_operator.World.Fallible.{◌>>=◌, ◌>>◌}
use k8s_postgresql_operator.Retry.{VaultClient}
use k8s_postgresql_operator.Metrics.{collect_metrics}
use k8s_postgresql_operator.Startup.Config.{Config, setup_webhooks_list}
use k8s_postgresql_operator.Startup.Entry.{WebhookCerts, init_vault_client, resolve_webhook_certs}
use k8s_postgresql_operator.Startup.Telemetry.{init_tracer_provider, shutdown_tracer_provider}

-- The controllers by the names of their set-up and of their builders.
abbrev pub controller_setups : List (String × String)
controller_setups =
    ("Postgresql", "postgresql")
    ∷ ("User", "user")
    ∷ ("Database", "database")
    ∷ ("Grant", "grant")
    ∷ ("RoleGroup", "rolegroup")
    ∷ ("Schema", "schema")
    ∷ []

-- The paths of the validators.
abbrev pub webhook_configs : List String
webhook_configs =
    "/uservalidate" ∷ "/postgresqlvalidate" ∷ "/databasevalidate" ∷ "/grantvalidate"
    ∷ "/rolegroupvalidate" ∷ "/schemavalidate" ∷ []

module _ (E : Env) where
  -- A call of controller-runtime.
  abbrev pub library : RuntimeCall → (E.State → Result (Unit {0}) × E.State) → Action E (Unit {0})
  library c f = call (runtime_call c) f

  -- `SetupWithManager` of a reconciler
  abbrev pub setup_with_manager : String → Action E (Unit {0})
  setup_with_manager name = library (controller name) (E.runtime.complete_controller name)

  -- The loop of `SetupControllers`
  unfoldable pub setup_controllers : List (String × String) → Action E (Unit {0})
  setup_controllers [] = return_ok tt
  setup_controllers ((name, built) ∷ setups) =
      map_err (wrapped ("unable to create controller " <> name)) (setup_with_manager built)
      >> setup_controllers setups

  -- The loop of `RegisterWebhooks`
  unfoldable pub register_handlers : List String → Action E (Unit {0})
  register_handlers [] w = (ok tt, w)
  register_handlers (path ∷ paths) w =
      register_handlers paths (note (runtime_call (handler path)) w).1

  -- `RegisterWebhooks`
  unfoldable pub register_webhooks : Action E (Unit {0})
  unfolding register_handlers
  register_webhooks =
      register_handlers webhook_configs
      >> map_err (wrapped "unable to set up webhook server")
          (library (runnable "webhook server") (E.runtime.add_runnable "webhook server"))

  -- `setupWebhookServer`. The certificate watcher is what it returns besides the server.
  unfoldable pub setup_webhook_server : Config → VaultClient → Action E WebhookCerts
  unfolding resolve_webhook_certs setup_webhooks_list
  setup_webhook_server cfg vault_client = do
    certs ← resolve_webhook_certs E cfg vault_client (setup_webhooks_list cfg)
    library (cert_watcher certs.cert_path certs.key_path)
        (E.runtime.new_cert_watcher certs.cert_path certs.key_path)
    λ w. (
      ok tt,
      (note (runtime_call (webhook_server cfg.webhook_server_addr cfg.webhook_server_port)) w).1,
    )
    return_ok certs

  -- `startPeriodicMetrics` up to its goroutine: an error is only logged.
  unfoldable pub collect_initially : Action E (Unit {0})
  unfolding collect_metrics
  collect_initially w = (ok tt, (collect_metrics E w).1)

  -- The first rounds of that goroutine, and whether it has returned by then.
  unfoldable pub metrics_loop : ℕ → ℕ → M E Bool
  unfolding collect_metrics
  metrics_loop interval zero w = (false, w)
  metrics_loop interval (suc rounds) w =
      let (stopped, w₁) = call (wait interval) (E.platform.wait_or_stop interval) w in
      elim stopped [
        | true ↦ (true, w₁)
        | false ↦ metrics_loop interval rounds (collect_metrics E w₁).1
      ]

  -- `main` from the manager on to its start.
  unfoldable pub run_manager : Config → Action E (Unit {0})
  unfolding setup_controllers register_webhooks collect_initially
  run_manager cfg = do
    library (manager cfg.probe_addr cfg.enable_leader_election)
        (E.runtime.new_manager cfg.probe_addr cfg.enable_leader_election)
    setup_controllers controller_setups
    library (runnable "webhook certificate watcher")
        (E.runtime.add_runnable "webhook certificate watcher")
    library (healthz_check "healthz") (E.runtime.add_healthz_check "healthz")
    library (readyz_check "readyz") (E.runtime.add_readyz_check "readyz")
    register_webhooks
    collect_initially

  -- `main`, once the configuration has been read
  unfoldable pub main : Config → Action E (Unit {0})
  unfolding init_tracer_provider shutdown_tracer_provider init_vault_client setup_webhook_server
      run_manager
  main cfg = do
    tp ← init_tracer_provider E "k8s-postgresql-operator" cfg.otlp_endpoint cfg.otlp_insecure
    vault_client ← init_vault_client E cfg
    certs ← setup_webhook_server cfg vault_client
    run_manager cfg
    λ w.
        let (r, w₁) = library start E.runtime.start_manager w in
        (r, (shutdown_tracer_provider E tp w₁).1)
