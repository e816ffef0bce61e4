-- ===== src/Startup/Starting.antt =====
-- The order of the start (cmd/main.go).
use k8s_postgresql_operator.Prelude.{
  String, ◌≡◌, refl, inl, inr, ◌⊎◌, Bool, true, false, List, [], ◌∷◌, ◌++◌, ◌==◌, if◌then◌else◌,
  arith, Bool-cases,
}
use mathlib.Core.Path.{subst}
use mathlib.Core.List.{append_assoc, append-nil}
use k8s_postgresql_operator.Errors.{Error, wrapped}
use k8s_postgresql_operator.World.{
  Env, World, Action, ok, err, RuntimeCall, otlp_exporter, otel_resource, cert_watcher,
  webhook_server, start, shutdown, Result-cases,
}
use k8s_postgresql_operator.World.Fallible.{◌>>=◌, ◌>>◌}
use k8s_postgresql_operator.Retry.{VaultClient}
use k8s_postgresql_operator.Startup.Config.{Config, setup_webhooks_list}
use k8s_postgresql_operator.Startup.Telemetry.{
  service_version, shutdown_timeout, init_tracer_provider, shutdown_tracer_provider,
}
use k8s_postgresql_operator.Startup.Entry.{init_vault_client, resolve_webhook_certs}
use k8s_postgresql_operator.Startup.Main.{library, setup_webhook_server, run_manager, main}
use k8s_postgresql_operator.Startup.Order.{calls, Follows, IsSilent-Follows, Follows-bind}
use k8s_postgresql_operator.Startup.Silent.{init_vault_client-IsSilent}
use k8s_postgresql_operator.Startup.Certs.{resolve_webhook_certs-IsSilent}
use k8s_postgresql_operator.Startup.Registering.{manager_calls, run_manager-Follows}

-- What is called before the Vault client, and after the manager has stopped.
abbrev pub tracer_calls : Config → List RuntimeCall
tracer_calls cfg =
    if cfg.otlp_endpoint == ""
    then []
    else otlp_exporter cfg.otlp_endpoint cfg.otlp_insecure
      ∷ otel_resource "k8s-postgresql-operator" service_version
      ∷ []

abbrev pub shutdown_calls : Bool → List RuntimeCall
shutdown_calls true = shutdown shutdown_timeout ∷ []
shutdown_calls false = []

abbrev pub server_calls : Config → List RuntimeCall
server_calls cfg =
    cert_watcher "" "" ∷ webhook_server cfg.webhook_server_addr cfg.webhook_server_port ∷ []

abbrev pub has_tracer : Config → Bool
has_tracer cfg = if cfg.otlp_endpoint == "" then false else true

-- The calls of a whole run.
abbrev pub start_plan : Config → List RuntimeCall
start_plan cfg =
    tracer_calls cfg
    ++ (server_calls cfg ++ (manager_calls cfg ++ (start ∷ shutdown_calls (has_tracer cfg))))

module _ (E : Env) where
  -- The server, once the certificates are there.
  setup_webhook_server-Follows :
      (cfg : Config) (vault_client : VaultClient)
      → Follows (server_calls cfg) (setup_webhook_server E cfg vault_client)
  unfolding setup_webhook_server setup_webhooks_list Follows calls
  setup_webhook_server-Follows cfg vault_client w =
      let names : List String = setup_webhooks_list cfg in
      let w₁ : World E = (resolve_webhook_certs E cfg vault_client names w).1 in
      elim (Result-cases (resolve_webhook_certs E cfg vault_client names w).0) [
        | inr (e, p) ↦ (
          [],
          server_calls cfg,
          refl,
          ground (
            arith,
            append-nil (calls w.trace),
            resolve_webhook_certs-IsSilent cfg vault_client names w,
          ),
          inr (e, ground (arith)),
        )
        | inl (certs, p) ↦
            elim (Result-cases
              (E.runtime.new_cert_watcher certs.cert_path certs.key_path w₁.state).0) [
                | inr (e, q) ↦ (
                  cert_watcher "" "" ∷ [],
                  webhook_server cfg.webhook_server_addr cfg.webhook_server_port ∷ [],
                  refl,
                  ground (arith, resolve_webhook_certs-IsSilent cfg vault_client names w),
                  inr (e, ground (arith)),
                )
                | inl (u, q) ↦ (
                  server_calls cfg,
                  [],
                  refl,
                  ground (
                    arith,
                    resolve_webhook_certs-IsSilent cfg vault_client names w,
                    append_assoc (calls w.trace) (cert_watcher "" "" ∷ [])
                        (webhook_server cfg.webhook_server_addr cfg.webhook_server_port ∷ []),
                  ),
                  inl refl,
                )
              ]
      ]

  init_tracer_provider-Follows :
      (cfg : Config)
      → Follows
          (tracer_calls cfg)
          (init_tracer_provider E "k8s-postgresql-operator" cfg.otlp_endpoint cfg.otlp_insecure)
  unfolding init_tracer_provider Follows calls
  init_tracer_provider-Follows cfg w =
      let exporter = otlp_exporter cfg.otlp_endpoint cfg.otlp_insecure in
      let resource = otel_resource "k8s-postgresql-operator" service_version in
      let (exported, s) = E.runtime.otlp_exporter_of cfg.otlp_endpoint cfg.otlp_insecure w.state in
      elim (Bool-cases (cfg.otlp_endpoint == "")) [
        | inl b ↦ ([], [], ground (arith), ground (arith, append-nil (calls w.trace)), inl refl)
        | inr b ↦ elim (Result-cases exported) [
          | inr (e, p) ↦ (
            exporter ∷ [],
            resource ∷ [],
            ground (arith),
            ground (arith),
            inr (wrapped "failed to create OTLP trace exporter" e, ground (arith)),
          )
          | inl (u, p) ↦
              elim (Result-cases
                (E.runtime.otel_resource_of "k8s-postgresql-operator" service_version s).0) [
                  | inr (e, q) ↦ (
                    exporter ∷ resource ∷ [],
                    [],
                    ground (arith),
                    ground (arith, append_assoc (calls w.trace) (exporter ∷ []) (resource ∷ [])),
                    inl refl,
                  )
                  | inl (v, q) ↦ (
                    exporter ∷ resource ∷ [],
                    [],
                    ground (arith),
                    ground (arith, append_assoc (calls w.trace) (exporter ∷ []) (resource ∷ [])),
                    inl refl,
                  )
                ]
        ]
      ]

  init_tracer_provider_traced :
      (cfg : Config) (w : World E) (tp : Bool)
      → (init_tracer_provider E "k8s-postgresql-operator" cfg.otlp_endpoint cfg.otlp_insecure w).0
        ≡ ok tp
      → tp ≡ has_tracer cfg
  unfolding init_tracer_provider
  init_tracer_provider_traced cfg w tp h = ground (arith)

  -- The run of the manager, and the shutdown of the tracer.
  start-Follows :
      (tp : Bool)
      → Follows (start ∷ shutdown_calls tp) (λ w.
        let (r, w₁) = library E start E.runtime.start_manager w in
        (r, (shutdown_tracer_provider E tp w₁).1))
  unfolding shutdown_tracer_provider Follows calls
  start-Follows true w = (
    start ∷ shutdown_calls true,
    [],
    refl,
    append_assoc (calls w.trace) (start ∷ []) (shutdown_calls true),
    inl refl,
  )
  start-Follows false w = (start ∷ [], [], refl, refl, inl refl)

  main-Follows : (cfg : Config) → Follows (start_plan cfg) (main E cfg)
  unfolding main
  main-Follows cfg =
      let tracer =
        init_tracer_provider E "k8s-postgresql-operator" cfg.otlp_endpoint cfg.otlp_insecure in
      let last : Bool → Action E (Unit {0}) = λ tp w.
        let (r, w₁) = library E start E.runtime.start_manager w in
        (r, (shutdown_tracer_provider E tp w₁).1) in
      let run : Bool → Action E (Unit {0}) = λ tp. run_manager E cfg >> last tp in
      let serve : Bool → VaultClient → Action E (Unit {0}) =
        λ tp c. setup_webhook_server E cfg c >>= λ _. run tp in
      let ended = start ∷ shutdown_calls (has_tracer cfg) in
      let managed = manager_calls cfg ++ ended in
      Follows-bind (tracer_calls cfg) (server_calls cfg ++ managed) tracer
        (λ tp. init_vault_client E cfg >>= serve tp) (init_tracer_provider-Follows cfg)
        (λ tp w h.
          let traced = init_tracer_provider_traced cfg w tp h in
          Follows-bind [] (server_calls cfg ++ managed) (init_vault_client E cfg) (serve tp)
            (IsSilent-Follows (init_vault_client E cfg) (init_vault_client-IsSilent cfg))
            (λ c w h.
              Follows-bind (server_calls cfg) managed (setup_webhook_server E cfg c) (λ _. run tp)
                (setup_webhook_server-Follows cfg c)
                (λ certs w h.
                  Follows-bind (manager_calls cfg) ended (run_manager E cfg) (λ _. last tp)
                    (run_manager-Follows E cfg)
                    (λ u w h.
                      subst (λ b. Follows (start ∷ shutdown_calls b) (last tp)) traced
                        (start-Follows tp)))))

  -- The calls that main makes of controller-runtime and OpenTelemetry are, up to the paths of the
  -- certificate, the plan of the start or a first part of it that an error ends: the exporter and
  -- the resource if there is an endpoint, the certificate watcher and the webhook server, the
  -- manager, the six controllers, the watcher and both checks, the six handlers and the server,
  -- the manager's start, and the shutdown of the tracer if there is one.
  pub main_order :
      (cfg : Config) (w : World E)
      → let (r, w') = main E cfg w in
        (done : List RuntimeCall) × (left : List RuntimeCall) × (start_plan cfg ≡ done ++ left)
        × (calls w'.trace ≡ calls w.trace ++ done)
        × ((left ≡ []) ⊎ ((e : Error) × (r ≡ err e)))
  unfolding Follows
  main_order cfg w = main-Follows cfg w
