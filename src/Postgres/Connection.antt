-- ===== src/Postgres/Connection.antt =====
-- Connection tests (internal/postgresql/connection.go).
use k8s_postgresql_operator.Prelude.{
  ℕ, String, ◌<>◌, true, false, ◌||◌, none, some, ◌==◌, eqb, decimal, if◌then◌else◌,
}
use k8s_postgresql_operator.Errors.{plain, wrapped, is_secret_not_found}
use k8s_postgresql_operator.Api.{Postgresql, ExternalPostgresqlInstance}
use k8s_postgresql_operator.World.{Env, Action, ok, err, return_ok, fail, map_err}
use k8s_postgresql_operator.World.Fallible.{◌>>=◌, ◌>>◌}
use k8s_postgresql_operator.Vault.{get_postgresql_credentials, get_default_credentials}
use k8s_postgresql_operator.Retry.{
  VaultClient, Plan, with_retries, calculate_connection_backoff, max_connection_retry_delay,
  never_fatal,
}
use k8s_postgresql_operator.Postgres.{
  Server, connection_string, open_conn, number, default_db, default_port, default_ssl_mode,
}

-- The defaults for a port of 0 and an empty SSL mode.
unfoldable pub port_of : ExternalPostgresqlInstance → ℕ
port_of x = if eqb x.port 0 then default_port else x.port

unfoldable pub ssl_mode_of : ExternalPostgresqlInstance → String
ssl_mode_of x = if x.ssl_mode == "" then default_ssl_mode else x.ssl_mode

module _ (E : Env) where
  -- `testSingleConnection`: (true, nil) is `ok tt`, and (false, err) is `err`.
  unfoldable pub test_single_connection : Server → String → Action E (Unit {0})
  unfolding connection_string
  test_single_connection server database =
      let conn = connection_string server database in
      do
        map_err (wrapped "failed to open database connection") (open_conn E conn)
        result ← map_err (wrapped "failed to query database") (number E conn "SELECT 1")
        if eqb result 1
            then return_ok tt
            else fail (plain ("unexpected query result: " <> decimal result))

  -- The loop of `TestConnection`
  abbrev pub test_plan : Server → String → ℕ → ℕ → Plan E (Unit {0})
  test_plan server database retries retry_timeout = record {
    operation = test_single_connection server database;
    fatal = never_fatal;
    backoff =
        λ attempt. calculate_connection_backoff E retry_timeout attempt max_connection_retry_delay;
    canceled = "connection test canceled";
    exhausted =
        wrapped ("failed to connect to PostgreSQL after " <> decimal retries <> " attempts");
  }

  -- `TestConnection`, which returns true exactly if its error is nil.
  unfoldable pub test_connection : Server → String → ℕ → ℕ → Action E (Unit {0})
  unfolding with_retries
  test_connection server database retries retry_timeout =
      with_retries (test_plan server database retries retry_timeout) retries

  -- `resolveVaultCredentials`: the default credentials serve only where the instance has none.
  unfoldable pub resolve_vault_credentials : String → String → Action E (String × String)
  unfolding get_postgresql_credentials get_default_credentials is_secret_not_found
  resolve_vault_credentials secret_path postgresql_id w =
      let (r, w₁) = get_postgresql_credentials E secret_path postgresql_id w in
      elim r [
        | ok credentials ↦ (ok credentials, w₁)
        | err e ↦ elim (is_secret_not_found e) [
          | true ↦
              map_err
                (wrapped
                  "no credentials available: instance_admin not found, default credentials also unavailable")
                (get_default_credentials E secret_path) w₁
          | false ↦ (err (wrapped "failed to get credentials from Vault" e), w₁)
        ]
      ]

  -- `TestConnectionFromPostgresql`: with no Vault client nothing is tested.
  unfoldable pub test_connection_from_postgresql :
      Postgresql → VaultClient → ℕ → ℕ → Action E (Unit {0})
  unfolding port_of ssl_mode_of test_connection resolve_vault_credentials
  test_connection_from_postgresql postgresql vault_client retries retry_timeout =
      elim postgresql.external_instance [
        | none ↦ fail (plain "PostgreSQL instance has no external instance configuration")
        | some external ↦ elim vault_client [
          | none ↦ return_ok tt
          | some secret_path ↦ do
            credentials ← resolve_vault_credentials secret_path external.postgresql_id
            if credentials.0 == "" || credentials.1 == ""
                then fail (
                    plain
                      "no credentials available to test connection (credentials not found in Vault)")
                else test_connection
                    (record {
                      host = external.address;
                      port = port_of external;
                      admin_user = credentials.0;
                      admin_password = credentials.1;
                      ssl_mode = ssl_mode_of external;
                    })
                    default_db retries retry_timeout
        ]
      ]
