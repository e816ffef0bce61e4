-- ===== src/Postgres/Client.antt =====
-- The interface of the PostgreSQL operations (internal/postgresql/interface.go), and the client that
-- fills it with them.
use k8s_postgresql_operator.Prelude.{ℕ, String, List}
use k8s_postgresql_operator.Api.{Postgresql, GrantItem, DefaultPrivilegeItem}
use k8s_postgresql_operator.World.{Env, Action}
use k8s_postgresql_operator.Retry.{VaultClient, execute_operation_with_retry}
use k8s_postgresql_operator.Postgres.{Server}
use k8s_postgresql_operator.Postgres.Connection.{test_connection, test_connection_from_postgresql}
use k8s_postgresql_operator.Postgres.Databases.{
  create_or_update_database, create_or_update_schema, close_all_sessions, delete_database,
}
use k8s_postgresql_operator.Postgres.Roles.{create_or_update_user, create_or_update_role_group}
use k8s_postgresql_operator.Postgres.Grants.{apply_grants}

-- `type Client interface`
pub record Client (E : Env) : Type 0 where
  pub client_create_or_update_database :
      Server → String → String → String → String → Action E (Unit {0})
  pub client_create_or_update_user : Server → String → String → Action E (Unit {0})
  pub client_create_or_update_role_group : Server → String → List String → Action E (Unit {0})
  pub client_create_or_update_schema : Server → String → String → String → Action E (Unit {0})
  pub client_apply_grants :
      Server → String → String → List GrantItem → List DefaultPrivilegeItem → Action E (Unit {0})
  pub client_delete_database : Server → String → Action E (Unit {0})
  pub client_close_all_sessions : Server → String → Action E (Unit {0})
  pub client_test_connection : Server → String → ℕ → ℕ → Action E (Unit {0})
  pub client_test_connection_from_postgresql :
      Postgresql → VaultClient → ℕ → ℕ → Action E (Unit {0})
  pub client_execute_operation_with_retry :
      Action E (Unit {0}) → ℕ → ℕ → String → Action E (Unit {0})

-- `NewDefaultClient`, with the methods of `DefaultClient`
unfoldable pub new_default_client : (E : Env) → Client E
new_default_client E = record {
  client_create_or_update_database = create_or_update_database E;
  client_create_or_update_user = create_or_update_user E;
  client_create_or_update_role_group = create_or_update_role_group E;
  client_create_or_update_schema = create_or_update_schema E;
  client_apply_grants = apply_grants E;
  client_delete_database = delete_database E;
  client_close_all_sessions = close_all_sessions E;
  client_test_connection = test_connection E;
  client_test_connection_from_postgresql = test_connection_from_postgresql E;
  client_execute_operation_with_retry = execute_operation_with_retry E;
}
