-- ===== src/Controller/Databases.antt =====
-- The reconciler of databases (internal/controller/database_controller.go).
use k8s_postgresql_operator.Prelude.{
  String, ◌<>◌, Bool, true, false, not, Option, none, some, List, [], ◌∷◌, ◌++◌, ◌==◌,
  if◌then◌else◌,
}
use k8s_postgresql_operator.Errors.{error_text}
use k8s_postgresql_operator.Api.{condition_false, Database, SyncStatus, Object, database_object}
use k8s_postgresql_operator.World.{Env, M, Action, ok, err, event, note, pure}
use k8s_postgresql_operator.World.Steps.{◌>>=◌, ◌>>◌}
use k8s_postgresql_operator.Retry.{execute_operation_with_retry, get_vault_credentials_with_retry}
use k8s_postgresql_operator.Postgres.Databases.{create_or_update_database, delete_database}
use k8s_postgresql_operator.Controller.{
  Reconciler, Outcome, finished, requeued, later, outcome_of, contains_string, remove_string,
  is_nil, ConnectionInfo, server_of, resolved, unresolved, Texts, set_ready, update_status_of,
  update_object, resolve_postgresql_connection, try_admin_credentials, fetch, refuse, settle,
}

abbrev pub database_finalizer_name : String
database_finalizer_name = "database.postgresql-operator.vyrodovalexey.github.com/finalizer"

-- The database with another status.
abbrev pub with_status : Database → SyncStatus → Object
with_status database s = database_object (record database { status = s })

-- The database with other finalizers.
abbrev pub with_finalizers : Database → List String → Database
with_finalizers database l = record database { meta = record (database.meta) { finalizers = l } }

module _ (E : Env) (r : Reconciler) where
  -- `ensureFinalizer`: the database as the caller then sees it, and whether it returns early. A
  -- failed update leaves the finalizer on the caller's copy only.
  unfoldable pub ensure_finalizer : Database → M E (Database × Bool)
  unfolding contains_string
  ensure_finalizer database w = elim (database.spec.delete_from_crd) [
    | false ↦ ((database, false), w)
    | true ↦ elim (contains_string (database.meta.finalizers) database_finalizer_name) [
      | true ↦ ((database, false), w)
      | false ↦
          let marked =
            with_finalizers database (database.meta.finalizers ++ (database_finalizer_name ∷ [])) in
          let (updated, w₁) = update_object E (database_object marked) w in
          elim updated [ ok u ↦ ((marked, true), w₁) | err e ↦ ((marked, false), w₁) ]
    ]
  ]

  abbrev pub database_texts : Database → Texts
  database_texts database = record {
    failure_reason = "CreateFailed";
    success_reason = "Created";
    failure = "Failed to create database";
    success = "Database " <> database.spec.database <> " successfully created in PostgreSQL";
    failure_event = "Failed to create database " <> database.spec.database;
    success_event = "Successfully created database " <> database.spec.database;
  }

  -- `syncDatabase`
  unfoldable pub sync_database : Database → ConnectionInfo → Action E (Unit {0})
  unfolding settle
  sync_database database info = do
    let schema_name = if database.spec.schema == "" then "public" else database.spec.schema
    result ←
        execute_operation_with_retry E
          (create_or_update_database E (server_of info) database.spec.database database.spec.owner
            schema_name database.spec.db_template)
          r.connection_retries r.connection_timeout "createOrUpdateDatabase"
    settle E "database" database.status database.meta.generation (database_texts database)
        (with_status database) result

  -- `removeDBFinalizer`
  unfoldable pub remove_db_finalizer : Database → M E Outcome
  unfolding remove_string
  remove_db_finalizer database = do
    updated ← update_object E (
        database_object (
          with_finalizers database
            (remove_string database.meta.finalizers database_finalizer_name)))
    pure (outcome_of updated)

  -- `resolveDeletionConnection`: none where the finalizer is to go without a deletion.
  unfoldable pub resolve_deletion_connection : Database → M E (Option ConnectionInfo)
  unfolding resolve_postgresql_connection
  resolve_deletion_connection database = do
    resolution ← resolve_postgresql_connection E database.spec.postgresql_id
    elim resolution [
      | unresolved reason message ↦ pure none
      | resolved info ↦ elim (r.vault_client) [
        | none ↦ pure none
        | some path ↦ do
          found ←
              get_vault_credentials_with_retry E (some path) info.external.postgresql_id
                r.vault_retries r.vault_retry_delay
          elim found [
            | err e ↦ pure none
            | ok (username, password) ↦
                pure (some (record info { username = username; password = password }))
          ]
      ]
    ]

  -- The part of `handleDeletion` that deletes the database in PostgreSQL.
  unfoldable pub delete_in_postgresql : Database → ConnectionInfo → M E Outcome
  unfolding set_ready
  delete_in_postgresql database info = do
    result ←
        execute_operation_with_retry E (delete_database E (server_of info) database.spec.database)
          r.connection_retries r.connection_timeout "deleteDatabase"
    elim result [
      | ok u ↦ remove_db_finalizer database
      | err e ↦ do
        update_status_of E (
            with_status database (
              set_ready E database.status database.meta.generation condition_false "DeleteFailed"
                ("Failed to delete database: " <> error_text e)))
        pure later
    ]

  -- `handleDeletion`
  unfoldable pub handle_deletion : Database → M E Outcome
  unfolding contains_string
  handle_deletion database =
      let marked = contains_string database.meta.finalizers database_finalizer_name in
      if not database.spec.delete_from_crd
      then (if marked then remove_db_finalizer database else pure finished)
      else if not marked
      then pure finished
      else do
        connection ← resolve_deletion_connection database
        elim connection [
          | none ↦ remove_db_finalizer database
          | some info ↦ delete_in_postgresql database info
        ]

  -- The part of `Reconcile` for a database that is not being deleted and has its finalizer.
  unfoldable pub create_in_postgresql : Database → M E Outcome
  unfolding refuse
  create_in_postgresql database = do
    resolution ← resolve_postgresql_connection E database.spec.postgresql_id
    elim resolution [
      | unresolved reason message ↦ do
        outcome ←
            refuse E database.status database.meta.generation (with_status database) reason message
        note (event "Warning" "ConnectionFailed" message)
        pure outcome
      | resolved info ↦ do
        filled ← try_admin_credentials E r info
        result ← sync_database database filled
        pure (outcome_of result)
    ]

  -- `Reconcile` on a database that was found.
  unfoldable pub reconcile_database : Database → M E Outcome
  reconcile_database database =
      if not (is_nil database.meta.deletion_timestamp) then handle_deletion database else do
        (marked, requeues) ← ensure_finalizer database
        if requeues then pure requeued else create_in_postgresql marked

  -- `Reconcile`
  unfoldable pub database_reconcile : String → String → M E Outcome
  unfolding fetch
  database_reconcile namespace name =
      fetch E "database" name (E.get_database namespace name) reconcile_database
