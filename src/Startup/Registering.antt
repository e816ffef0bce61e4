-- ===== src/Startup/Registering.antt =====
-- The order in which controllers, checks and validators are given to the manager (cmd/main.go,
-- internal/controller/base_reconciler.go and internal/webhook/base_validator.go).
use k8s_postgresql_operator.Prelude.{String, ◌<>◌, refl, inl, List, [], ◌∷◌, ◌++◌, map, arith}
use mathlib.Core.List.{append_assoc, append-nil}
use k8s_postgresql_operator.Errors.{wrapped}
use k8s_postgresql_operator.World.{
  Env, World, Action, Result, RuntimeCall, manager, controller, handler, runnable, healthz_check,
  readyz_check, runtime_call, map_err, note, return_ok,
}
use k8s_postgresql_operator.World.Fallible.{◌>>◌}
use k8s_postgresql_operator.Startup.Config.{Config}
use k8s_postgresql_operator.Startup.Main.{
  controller_setups, webhook_configs, library, setup_with_manager, setup_controllers,
  register_handlers, register_webhooks, collect_initially, run_manager,
}
use k8s_postgresql_operator.Startup.Order.{
  calls, masked, Follows, IsSilent, IsSilent-Follows, Follows-bind, Follows-library,
  Follows-map_err,
}
use k8s_postgresql_operator.Startup.Silent.{collect_metrics-IsSilent}

abbrev pub webhook_calls : List RuntimeCall
webhook_calls =
    handler "/uservalidate"
    ∷ handler "/postgresqlvalidate"
    ∷ handler "/databasevalidate"
    ∷ handler "/grantvalidate"
    ∷ handler "/rolegroupvalidate"
    ∷ handler "/schemavalidate"
    ∷ runnable "webhook server"
    ∷ []

abbrev pub manager_calls : Config → List RuntimeCall
manager_calls cfg =
    manager cfg.probe_addr cfg.enable_leader_election
    ∷ controller "postgresql"
    ∷ controller "user"
    ∷ controller "database"
    ∷ controller "grant"
    ∷ controller "rolegroup"
    ∷ controller "schema"
    ∷ runnable "webhook certificate watcher"
    ∷ healthz_check "healthz"
    ∷ readyz_check "readyz"
    ∷ webhook_calls

module _ (E : Env) where
  setup_controllers-Follows :
      (setups : List (String × String))
      → Follows (map (λ (s : String × String). controller s.1) setups) (setup_controllers E setups)
  unfolding setup_controllers
  setup_controllers-Follows [] = IsSilent-Follows (return_ok tt) (λ w. refl)
  setup_controllers-Follows ((name, built) ∷ setups) =
      let set_up = setup_with_manager E built in
      Follows-bind (controller built ∷ []) (map (λ (s : String × String). controller s.1) setups)
        (map_err (wrapped ("unable to create controller " <> name)) set_up)
        (λ _. setup_controllers E setups)
        (Follows-map_err (controller built ∷ []) (wrapped ("unable to create controller " <> name))
          set_up (Follows-library E (controller built) (E.runtime.complete_controller built)))
        (λ a w h. setup_controllers-Follows setups)

  register_handlers-Follows :
      (paths : List String) → Follows (map handler paths) (register_handlers E paths)
  unfolding register_handlers Follows calls
  register_handlers-Follows [] w =
      ([], [], refl, ground (arith, append-nil (calls w.trace)), inl refl)
  register_handlers-Follows (path ∷ paths) w =
      let w₁ : World E = (note (runtime_call (handler path)) w).1 in
      let (done, left, split, made, end) = register_handlers-Follows paths w₁ in
      (
        handler path ∷ done,
        left,
        ground (arith, split),
        ground (arith, made, append_assoc (calls w.trace) (handler path ∷ []) done),
        end,
      )

  register_webhooks-Follows : Follows webhook_calls (register_webhooks E)
  unfolding register_webhooks
  register_webhooks-Follows =
      let added =
        map_err (wrapped "unable to set up webhook server")
          (library E (runnable "webhook server") (E.runtime.add_runnable "webhook server")) in
      Follows-bind (map handler webhook_configs) (runnable "webhook server" ∷ [])
        (register_handlers E webhook_configs) (λ _. added)
        (register_handlers-Follows webhook_configs)
        (λ a w h.
          Follows-map_err (runnable "webhook server" ∷ [])
            (wrapped "unable to set up webhook server")
            (library E (runnable "webhook server") (E.runtime.add_runnable "webhook server"))
            (Follows-library E (runnable "webhook server")
              (E.runtime.add_runnable "webhook server")))

  collect_initially-IsSilent : IsSilent (collect_initially E)
  unfolding collect_initially
  collect_initially-IsSilent w = collect_metrics-IsSilent w

  -- A call of a library, and what follows it.
  library-then :
      (c : RuntimeCall) (f : E.State → Result (Unit {0}) × E.State) (q : List RuntimeCall)
      (k : Action E (Unit {0}))
      → Follows q k
      → Follows (masked c ∷ q) (library E c f >> k)
  library-then c f q k h =
      Follows-bind (masked c ∷ []) q (library E c f) (λ _. k) (Follows-library E c f) (λ a w e. h)

  -- What follows the controllers.
  registered_calls : List RuntimeCall
  registered_calls =
      runnable "webhook certificate watcher"
      ∷ healthz_check "healthz"
      ∷ readyz_check "readyz"
      ∷ webhook_calls

  checks_and_webhooks-Follows : Follows registered_calls (do
    library E
        (runnable "webhook certificate watcher")
        (E.runtime.add_runnable "webhook certificate watcher")
    library E (healthz_check "healthz") (E.runtime.add_healthz_check "healthz")
    library E (readyz_check "readyz") (E.runtime.add_readyz_check "readyz")
    register_webhooks E
    collect_initially E)
  unfolding registered_calls
  checks_and_webhooks-Follows =
      let last = register_webhooks E >> collect_initially E in
      let ready = library E (readyz_check "readyz") (E.runtime.add_readyz_check "readyz") >> last in
      let healthy =
        library E (healthz_check "healthz") (E.runtime.add_healthz_check "healthz") >> ready in
      library-then (runnable "webhook certificate watcher")
        (E.runtime.add_runnable "webhook certificate watcher")
        (healthz_check "healthz" ∷ readyz_check "readyz" ∷ webhook_calls) healthy
        (library-then (healthz_check "healthz") (E.runtime.add_healthz_check "healthz")
          (readyz_check "readyz" ∷ webhook_calls) ready
          (library-then (readyz_check "readyz") (E.runtime.add_readyz_check "readyz") webhook_calls
            last
            (Follows-bind webhook_calls [] (register_webhooks E) (λ _. collect_initially E)
              register_webhooks-Follows
              (λ a w h. IsSilent-Follows (collect_initially E) collect_initially-IsSilent))))

  pub run_manager-Follows : (cfg : Config) → Follows (manager_calls cfg) (run_manager E cfg)
  unfolding run_manager registered_calls
  run_manager-Follows cfg =
      let rest = (do
        library E (runnable "webhook certificate watcher")
            (E.runtime.add_runnable "webhook certificate watcher")
        library E (healthz_check "healthz") (E.runtime.add_healthz_check "healthz")
        library E (readyz_check "readyz") (E.runtime.add_readyz_check "readyz")
        register_webhooks E
        collect_initially E) in
      let controllers = map (λ (s : String × String). controller s.1) controller_setups in
      library-then (manager cfg.probe_addr cfg.enable_leader_election)
        (E.runtime.new_manager cfg.probe_addr cfg.enable_leader_election)
        (controllers ++ registered_calls) (setup_controllers E controller_setups >> rest)
        (Follows-bind controllers registered_calls (setup_controllers E controller_setups)
          (λ _. rest) (setup_controllers-Follows controller_setups)
          (λ a w h. checks_and_webhooks-Follows))
