-- ===== src/Postgres.antt =====
-- What the operations on a PostgreSQL server share (internal/postgresql): the connection string
-- and the calls of database/sql.
pub mod Plain
pub mod Connection
pub mod Databases
pub mod Roles
pub mod Grants
pub mod Client
use k8s_postgresql_operator.Prelude.{ℕ, String, ◌<>◌, Bool, List, [], ◌∷◌, decimal}
use k8s_postgresql_operator.World.{
  Env, Action, Rows, Effect, sql_open, sql_ping, sql_query, sql_exec, call,
}

abbrev pub default_ssl_mode : String
default_ssl_mode = "require"

abbrev pub default_port : ℕ
default_port = 5432

abbrev pub default_db : String
default_db = "postgres"

-- How an operation reaches a server: the arguments that every one of them takes.
pub record Server : Type 0 where
  pub host : String
  pub port : ℕ
  pub admin_user : String
  pub admin_password : String
  pub ssl_mode : String

-- The connection string for a database. None of its values is quoted.
unfoldable pub connection_string : Server → String → String
connection_string s dbname =
    "host="
    <> s.host
    <> " port="
    <> decimal s.port
    <> " user="
    <> s.admin_user
    <> " password="
    <> s.admin_password
    <> " dbname="
    <> dbname
    <> " sslmode="
    <> s.ssl_mode
    <> " connect_timeout=5"

module _ (E : Env) (conn : String) where
  abbrev pub open_conn : Action E (Unit {0})
  open_conn = call (sql_open conn) (E.open_db conn)

  abbrev pub ping : Action E (Unit {0})
  ping = call (sql_ping conn) (E.ping_db conn)

  -- `SELECT EXISTS(…)` with one argument.
  abbrev pub exists : String → String → Action E Bool
  exists query arg = call (sql_query conn query (arg ∷ [])) (E.query_exists conn query arg)

  abbrev pub number : String → Action E ℕ
  number query = call (sql_query conn query []) (E.query_number conn query)

  abbrev pub rows : String → String → Action E Rows
  rows query arg = call (sql_query conn query (arg ∷ [])) (E.query_rows conn query arg)

  abbrev pub execute : String → List String → Action E (Unit {0})
  execute query args = call (sql_exec conn query args) (E.exec conn query args)
