-- ===== src/Postgres/Databases.antt =====
-- Creating, updating and deleting databases and schemas (internal/postgresql/operations.go and
-- internal/postgresql/database_deletion.go).
pub mod Statements
use k8s_postgresql_operator.Prelude.{
  ℕ, String, ◌<>◌, Bool, true, false, ◌||◌, not, Option, none, some, List, [], ◌∷◌, ◌==◌,
  if◌then◌else◌,
}
use k8s_postgresql_operator.Errors.{
  Error, Structured, wrapped, structured, err_postgresql_operation_failed,
  err_postgresql_connection_failed,
}
use k8s_postgresql_operator.World.{Env, Action, ok, err, Effect, sleep, return_ok, map_err, note}
use k8s_postgresql_operator.World.Fallible.{◌>>=◌, ◌>>◌}
use k8s_postgresql_operator.Retry.{second}
use k8s_postgresql_operator.Postgres.{
  Server, connection_string, open_conn, exists, execute, default_db,
}

-- `operrors.Wrap(base, err).WithOp(op)`, for an error that is not nil.
abbrev pub wrapped_op : Structured → String → Error → Error
wrapped_op base op e = structured base.code base.message op e

abbrev pub failed_op : String → Error → Error
failed_op = wrapped_op err_postgresql_operation_failed

abbrev pub database_exists_query : String
database_exists_query = "SELECT EXISTS(SELECT 1 FROM pg_database WHERE datname = $1)"

abbrev pub schema_exists_query : String
schema_exists_query =
    "SELECT EXISTS(SELECT 1 FROM information_schema.schemata WHERE schema_name = $1)"

abbrev pub terminate_query : String
terminate_query =
    "SELECT pg_terminate_backend(pg_stat_activity.pid) FROM pg_stat_activity WHERE pg_stat_activity.datname = $1 AND pid <> pg_backend_pid()"

module _ (E : Env) where
  abbrev pub alter_database : String → String → String
  alter_database database owner =
      "ALTER DATABASE " <> E.quote_identifier database <> " OWNER TO " <> E.quote_identifier owner

  abbrev pub create_database : String → String → String → String
  create_database database owner template =
      if template == ""
      then "CREATE DATABASE "
        <> E.quote_identifier database
        <> " OWNER "
        <> E.quote_identifier owner
      else "CREATE DATABASE "
        <> E.quote_identifier database
        <> " OWNER "
        <> E.quote_identifier owner
        <> " TEMPLATE "
        <> E.quote_identifier template

  abbrev pub alter_schema : String → String → String
  alter_schema schema owner =
      "ALTER SCHEMA " <> E.quote_identifier schema <> " OWNER TO " <> E.quote_identifier owner

  abbrev pub create_schema : String → String → String
  create_schema schema owner =
      "CREATE SCHEMA " <> E.quote_identifier schema <> " AUTHORIZATION " <> E.quote_identifier owner

  abbrev pub drop_database : String → String
  drop_database database = "DROP DATABASE " <> E.quote_identifier database

  -- The part of `CreateOrUpdateDatabase` on a database that it has just created.
  unfoldable pub own_schema : Server → String → String → String → Action E (Unit {0})
  unfolding connection_string
  own_schema server database owner schema =
      let conn = connection_string server database in
      do
        map_err
            (wrapped_op err_postgresql_connection_failed
              ("CreateOrUpdateDatabase.sql.Open(" <> database <> ")"))
            (open_conn E conn)
        present ←
            map_err (failed_op "CreateOrUpdateDatabase.checkSchemaExists")
              (exists E conn schema_exists_query schema)
        if present
            then map_err (failed_op "CreateOrUpdateDatabase.updateSchemaOwner")
                (execute E conn (alter_schema schema owner) [])
            else return_ok tt

  -- `CreateOrUpdateDatabase`
  unfoldable pub create_or_update_database :
      Server → String → String → String → String → Action E (Unit {0})
  unfolding connection_string
  create_or_update_database server database owner schema template =
      let conn = connection_string server default_db in
      do
        map_err (wrapped "failed to open database connection") (open_conn E conn)
        present ←
            map_err (failed_op "CreateOrUpdateDatabase.checkDatabaseExists")
              (exists E conn database_exists_query database)
        if present
            then map_err (failed_op "CreateOrUpdateDatabase.updateDatabaseOwner")
                (execute E conn (alter_database database owner) [])
            else do
              map_err (failed_op "CreateOrUpdateDatabase.createDatabase")
                  (execute E conn (create_database database owner template) [])
              if schema == "" || schema == "public"
                  then return_ok tt
                  else own_schema server database owner schema

  -- `CreateOrUpdateSchema`
  unfoldable pub create_or_update_schema : Server → String → String → String → Action E (Unit {0})
  unfolding connection_string
  create_or_update_schema server database schema owner =
      let conn = connection_string server database in
      do
        map_err (wrapped "failed to open database connection") (open_conn E conn)
        present ←
            map_err (wrapped "failed to check if schema exists")
              (exists E conn schema_exists_query schema)
        if present
            then map_err (wrapped "failed to update schema owner")
                (execute E conn (alter_schema schema owner) [])
            else map_err (wrapped "failed to create schema")
                (execute E conn (create_schema schema owner) [])

  -- `CloseAllSessions`, with the second that it sleeps
  unfoldable pub close_all_sessions : Server → String → Action E (Unit {0})
  unfolding connection_string
  close_all_sessions server database =
      let conn = connection_string server "postgres" in
      do
        map_err (wrapped "failed to open database connection") (open_conn E conn)
        map_err (wrapped "failed to terminate connections to database")
            (execute E conn terminate_query (database ∷ []))
        λ w. (ok tt, (note (sleep second) w).1)

  -- `DeleteDatabase`
  unfoldable pub delete_database : Server → String → Action E (Unit {0})
  unfolding connection_string
  delete_database server database =
      let conn = connection_string server "postgres" in
      do
        map_err (wrapped "failed to close sessions before deletion")
            (close_all_sessions server database)
        map_err (wrapped "failed to open database connection") (open_conn E conn)
        present ←
            map_err (wrapped "failed to check if database exists")
              (exists E conn database_exists_query database)
        if present
            then map_err (wrapped "failed to drop database")
                (execute E conn (drop_database database) [])
            else return_ok tt
