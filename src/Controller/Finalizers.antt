-- ===== src/Controller/Finalizers.antt =====
-- The finalizer of a database (internal/controller/database_controller.go), and when it goes.
use k8s_postgresql_operator.Prelude.{
  String, ◌<>◌, ◌≡◌, refl, true, false, not, ◌&&◌, List, [], ◌∷◌, ◌==◌, ◌⊎◌, inl, inr, arith,
  eq_iff,
}
use k8s_postgresql_operator.Errors.{error_text}
use k8s_postgresql_operator.Api.{Database, condition_false, database_object}
use k8s_postgresql_operator.World.{Env, World, Effect, Result-cases, k8s_update}
use k8s_postgresql_operator.Retry.{execute_operation_with_retry}
use k8s_postgresql_operator.Retry.Operations.{
  execute_operation_with_retry-ok, execute_operation_with_retry_keeps,
}
use k8s_postgresql_operator.Postgres.{Server, connection_string, open_conn}
use k8s_postgresql_operator.Postgres.Databases.{
  delete_database, close_all_sessions, database_exists_query,
}
use k8s_postgresql_operator.Postgres.Databases.Statements.{IsDatabaseCatalog, delete_database-has}
use k8s_postgresql_operator.Controller.{
  Reconciler, later, contains_string, remove_string, ConnectionInfo, server_of, set_ready,
  update_status_of,
}
use k8s_postgresql_operator.Controller.Databases.{remove_db_finalizer, delete_in_postgresql}

-- Removing a string from a list takes away every copy of it, and no other string.
pub contains_string-remove_string :
    (slice : List String) (s t : String)
    → contains_string (remove_string slice s) t ≡ (not (s == t) && contains_string slice t)
unfolding contains_string remove_string
contains_string-remove_string [] s t = ground arith
contains_string-remove_string (item ∷ slice) s t =
    ground
      (arith, contains_string-remove_string slice s t, eq_iff item s, eq_iff s t, eq_iff item t)

-- The updates of objects in a trace, the last one first. A status update is not one.
abbrev pub object_updates : List Effect → List Effect
object_updates [] = []
object_updates (k8s_update o ∷ t) = k8s_update o ∷ object_updates t
object_updates (_ ∷ t) = object_updates t

close_all_sessions_keeps_objects :
    (E : Env) (server : Server) (name : String) (writes : List Effect) (w : World E)
    → object_updates w.trace ≡ writes
    → object_updates (close_all_sessions E server name w).1.trace ≡ writes
unfolding close_all_sessions
close_all_sessions_keeps_objects E server name writes w h = ground arith

delete_database_keeps_objects :
    (E : Env) (server : Server) (name : String) (writes : List Effect) (w : World E)
    → object_updates w.trace ≡ writes
    → object_updates (delete_database E server name w).1.trace ≡ writes
unfolding delete_database
delete_database_keeps_objects E server name writes w h =
    let conn = connection_string server "postgres" in
    let w₁ : World E = (close_all_sessions E server name w).1 in
    let closed : object_updates w₁.trace ≡ writes =
      close_all_sessions_keeps_objects E server name writes w h in
    let w₂ : World E = (open_conn E conn w₁).1 in
    elim (Result-cases (close_all_sessions E server name w).0) [
      | inr (e, p) ↦ ground (arith, p, closed)
      | inl (u, p) ↦ elim (Result-cases (E.open_db conn w₁.state).0) [
        | inr (e, q) ↦ ground (arith, p, q, closed)
        | inl (v, q) ↦
            elim (Result-cases (E.query_exists conn database_exists_query name w₂.state).0) [
              | inr (e, r) ↦ ground (arith, p, q, r, closed)
              | inl (true, r) ↦ ground (arith, p, q, r, closed)
              | inl (false, r) ↦ ground (arith, p, q, r, closed)
            ]
      ]
    ]

module _ (E : Env) (r : Reconciler) (database : Database) where
  -- On a database catalog, the step that deletes a database in PostgreSQL, once its connection is
  -- resolved, ends in one of two ways: the finalizer is removed in a state in which the server
  -- does not have the database; or the step has made no update of an object, ends with a status
  -- update of the same metadata and specification, and is tried again in 30 seconds.
  pub delete_in_postgresql_correct :
      {owner schema template : String}
      → (catalog : IsDatabaseCatalog E database.spec.database owner schema template)
      → (info : ConnectionInfo) (w : World E)
      → ((w' : World E) × (catalog.has w'.state ≡ false)
          × (delete_in_postgresql E r database info w ≡ remove_db_finalizer E r database w'))
        ⊎ ((w' : World E) × (marked : Database) × (marked.meta ≡ database.meta)
            × (marked.spec ≡ database.spec)
            × (object_updates w'.trace ≡ object_updates w.trace)
            × (delete_in_postgresql E r database info w
                ≡ (later, (update_status_of E (database_object marked) w').1)))
  unfolding delete_in_postgresql
  delete_in_postgresql_correct {owner} {schema} {template} catalog info w =
      let operation = delete_database E (server_of info) database.spec.database in
      let run =
        execute_operation_with_retry E operation r.connection_retries r.connection_timeout
          "deleteDatabase" w in
      elim (Result-cases run.0) [
        | inr (e, p) ↦
            let marked : Database = record database {
              status =
                  set_ready E database.status database.meta.generation condition_false
                    "DeleteFailed" ("Failed to delete database: " <> error_text e);
            } in
            inr (
              run.1,
              marked,
              refl,
              refl,
              execute_operation_with_retry_keeps E operation r.connection_retries
                  r.connection_timeout "deleteDatabase"
                  (λ v. object_updates v.trace ≡ object_updates w.trace)
                  (delete_database_keeps_objects E (server_of info) database.spec.database
                    (object_updates w.trace))
                  (λ n v k. k) (λ n v k. k) w refl,
              ground arith,
            )
        | inl (u, p) ↦
            let (w₁, succeeded, same) =
              execute_operation_with_retry-ok E operation r.connection_retries r.connection_timeout
                "deleteDatabase" w p in
            inl (
              run.1,
              rw (same) (
                  delete_database-has E database.spec.database owner schema template catalog
                    (server_of info) w₁ succeeded),
              ground arith,
            )
      ]
