-- ===== src/Startup/Telemetry.antt =====
-- The tracer provider (internal/telemetry/telemetry.go): whether there is one. Spans are left out.
use k8s_postgresql_operator.Prelude.{ℕ, ◌*◌, String, Bool, true, false, ◌==◌, if◌then◌else◌}
use k8s_postgresql_operator.Errors.{wrapped}
use k8s_postgresql_operator.World.{
  Env, M, Action, otlp_exporter, otel_resource, shutdown, runtime_call, call, return_ok, map_err,
}
use k8s_postgresql_operator.World.Fallible.{◌>>◌}
use k8s_postgresql_operator.Retry.{second}

abbrev pub service_version : String
service_version = "0.0.1"

abbrev pub shutdown_timeout : ℕ
shutdown_timeout = 5 * second

module _ (E : Env) where
  -- `InitTracerProvider`
  unfoldable pub init_tracer_provider : String → String → Bool → Action E Bool
  init_tracer_provider service_name otlp_endpoint insecure_conn =
      if otlp_endpoint == ""
      then return_ok false
      else map_err (wrapped "failed to create OTLP trace exporter") (
          call (runtime_call (otlp_exporter otlp_endpoint insecure_conn))
            (E.runtime.otlp_exporter_of otlp_endpoint insecure_conn))
        >> map_err (wrapped "failed to create OTel resource") (
            call (runtime_call (otel_resource service_name service_version))
              (E.runtime.otel_resource_of service_name service_version))
        >> return_ok true

  -- `ShutdownTracerProvider`, whose error is dropped
  unfoldable pub shutdown_tracer_provider : Bool → M E (Unit {0})
  shutdown_tracer_provider false w = (tt, w)
  shutdown_tracer_provider true w =
      let (r, w₁) =
        call (runtime_call (shutdown shutdown_timeout)) (E.runtime.shutdown_tracer shutdown_timeout)
          w in
      (tt, w₁)
