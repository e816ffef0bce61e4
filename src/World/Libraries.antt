-- ===== src/World/Libraries.antt =====
-- The libraries that run the operator: controller-runtime and OpenTelemetry.
use k8s_postgresql_operator.Prelude.{ℕ, String, Bool}
use k8s_postgresql_operator.World.Values.{Result}

-- A call of them, with what it passes.
pub data RuntimeCall : Type 0 where
  otlp_exporter : String → Bool → RuntimeCall
  otel_resource : String → String → RuntimeCall
  cert_watcher : String → String → RuntimeCall
  webhook_server : String → ℕ → RuntimeCall
  manager : String → Bool → RuntimeCall
  controller : String → RuntimeCall
  handler : String → RuntimeCall
  runnable : String → RuntimeCall
  healthz_check readyz_check : String → RuntimeCall
  start : RuntimeCall
  shutdown : ℕ → RuntimeCall

pub record Runtime (S : Type 0) : Type 0 where
  -- `otlptracegrpc.New`, `resource.New`, and `Shutdown` of a provider.
  pub otlp_exporter_of : String → Bool → S → Result (Unit {0}) × S
  pub otel_resource_of : String → String → S → Result (Unit {0}) × S
  pub shutdown_tracer : ℕ → S → Result (Unit {0}) × S
  -- `certwatcher.New`; `ctrl.NewManager`; `Complete` of the builder of a controller, by its name.
  pub new_cert_watcher : String → String → S → Result (Unit {0}) × S
  pub new_manager : String → Bool → S → Result (Unit {0}) × S
  pub complete_controller : String → S → Result (Unit {0}) × S
  -- The manager's `Add`, `AddHealthzCheck`, `AddReadyzCheck` and `Start`.
  pub add_runnable : String → S → Result (Unit {0}) × S
  pub add_healthz_check : String → S → Result (Unit {0}) × S
  pub add_readyz_check : String → S → Result (Unit {0}) × S
  pub start_manager : S → Result (Unit {0}) × S
