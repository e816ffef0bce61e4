-- ===== src/Controller/Instance.antt =====
-- The validated instance of an ID (internal/controller/helpers/reconcile.go).
use k8s_postgresql_operator.Prelude.{ℕ, String, ◌<>◌, true, false, none, some}
use k8s_postgresql_operator.Errors.{plain, wrapped}
use k8s_postgresql_operator.Api.{Postgresql, ExternalPostgresqlInstance}
use k8s_postgresql_operator.World.{Env, Action, return_ok, fail, map_err}
use k8s_postgresql_operator.World.Fallible.{◌>>=◌}
use k8s_postgresql_operator.Cluster.{find_postgresql_by_id}
use k8s_postgresql_operator.Postgres.Connection.{port_of, ssl_mode_of}

-- `PostgresqlInstanceInfo`
pub record PostgresqlInstanceInfo : Type 0 where
  pub postgresql : Postgresql
  pub external_instance : ExternalPostgresqlInstance
  pub port : ℕ
  pub ssl_mode : String

-- `FindAndValidatePostgresql`
unfoldable pub find_and_validate_postgresql : (E : Env) → String → Action E PostgresqlInstanceInfo
unfolding port_of ssl_mode_of
find_and_validate_postgresql E postgresql_id = do
  postgresql ←
      map_err (wrapped ("postgresql instance with ID " <> postgresql_id <> " not found"))
        (find_postgresql_by_id E postgresql_id)
  elim (postgresql.connected) [
    | false ↦ fail (plain ("postgresql instance with ID " <> postgresql_id <> " is not connected"))
    | true ↦ elim (postgresql.external_instance) [
      | none ↦ fail (plain "postgresql instance has no external instance configuration")
      | some external ↦ return_ok (record {
        postgresql = postgresql;
        external_instance = external;
        port = port_of external;
        ssl_mode = ssl_mode_of external;
      })
    ]
  ]
