-- ===== src/Postgres/Databases/Statements.antt =====
-- What the operations on databases leave in the server's catalog
-- (internal/postgresql/operations.go and internal/postgresql/database_deletion.go).
use k8s_postgresql_operator.Prelude.{
  String, ◌≡◌, Bool, true, false, [], ◌∷◌, arith, Bool-cases, inl, inr,
}
use k8s_postgresql_operator.World.{Env, World, ok, Result-cases}
use k8s_postgresql_operator.Postgres.{
  Server, connection_string, default_db, open_conn, exists, execute,
}
use k8s_postgresql_operator.Postgres.Databases.{
  alter_database, create_database, alter_schema, drop_database, database_exists_query,
  schema_exists_query, terminate_query, own_schema, create_or_update_database, close_all_sessions,
  delete_database,
}

-- What the operator relies on in a server: by any connection, the query tells whether a database
-- exists; CREATE DATABASE makes one, DROP DATABASE ends one; and opening a connection, a query,
-- a change of owner or the end of its sessions leaves it there.
pub record IsDatabaseCatalog (E : Env) (database owner schema template : String) : Type 0 where
  pub has : E.State → Bool
  pub told :
      (s : E.State) (conn : String) (b : Bool)
      → (E.query_exists conn database_exists_query database s).0 ≡ ok b
      → b ≡ has s
  pub opened : (s : E.State) (conn : String) → has (E.open_db conn s).1 ≡ has s
  pub queried :
      (s : E.State) (conn query arg : String) → has (E.query_exists conn query arg s).1 ≡ has s
  pub terminated :
      (s : E.State) (conn : String) → has (E.exec conn terminate_query (database ∷ []) s).1 ≡ has s
  pub altered :
      (s : E.State) (conn : String)
      → has (E.exec conn (alter_database E database owner) [] s).1 ≡ has s
  pub schema_altered :
      (s : E.State) (conn : String) → has (E.exec conn (alter_schema E schema owner) [] s).1 ≡ has s
  pub created :
      (s : E.State) (conn : String)
      → let (r, s') = E.exec conn (create_database E database owner template) [] s in
        r ≡ ok tt → has s' ≡ true
  pub dropped :
      (s : E.State) (conn : String)
      → let (r, s') = E.exec conn (drop_database E database) [] s in r ≡ ok tt → has s' ≡ false

module _ (E : Env) (database owner schema template : String)
    (catalog : IsDatabaseCatalog E database owner schema template) (server : Server) where
  open catalog use {
    has, told, opened, queried, terminated, altered, schema_altered, created, dropped,
  }

  own_schema-has :
      (w : World E) → has (own_schema E server database owner schema w).1.state ≡ has w.state
  unfolding own_schema
  own_schema-has w =
      let conn = connection_string server database in
      let s₁ : E.State = (E.open_db conn w.state).1 in
      let s₂ : E.State = (E.query_exists conn schema_exists_query schema s₁).1 in
      ground (
        arith,
        opened w.state conn,
        queried s₁ conn schema_exists_query schema,
        schema_altered s₂ conn,
      )

  -- On a database catalog, after a success of CreateOrUpdateDatabase the database exists, whether
  -- it was there before or not.
  pub create_or_update_database-has :
      (w : World E)
      → (create_or_update_database E server database owner schema template w).0 ≡ ok tt
      → has (create_or_update_database E server database owner schema template w).1.state ≡ true
  unfolding create_or_update_database
  create_or_update_database-has w h =
      let conn = connection_string server default_db in
      let w₁ : World E = (open_conn E conn w).1 in
      let w₂ : World E = (exists E conn database_exists_query database w₁).1 in
      let create = create_database E database owner template in
      let w₃ : World E = (execute E conn create [] w₂).1 in
      elim (Result-cases (E.open_db conn w.state).0) [
        | inr (e, p) ↦ absurd (ground arith)
        | inl (u, p) ↦
            elim (Result-cases (E.query_exists conn database_exists_query database w₁.state).0) [
              | inr (e, q) ↦ absurd (ground arith)
              | inl (present, q) ↦ elim (Bool-cases present) [
                | inl t ↦ ground (
                  arith,
                  told w₁.state conn present q,
                  queried w₁.state conn database_exists_query database,
                  altered w₂.state conn,
                )
                | inr f ↦ elim (Result-cases (E.exec conn create [] w₂.state).0) [
                  | inr (e, c) ↦ absurd (ground arith)
                  | inl (v, c) ↦ ground (arith, created w₂.state conn c, own_schema-has w₃)
                ]
              ]
            ]
      ]

  -- On a database catalog, after a success of DeleteDatabase the database does not exist, whether
  -- it was there before or not.
  pub delete_database-has :
      (w : World E)
      → (delete_database E server database w).0 ≡ ok tt
      → has (delete_database E server database w).1.state ≡ false
  unfolding delete_database
  delete_database-has w h =
      let conn = connection_string server "postgres" in
      let w₀ : World E = (close_all_sessions E server database w).1 in
      let w₁ : World E = (open_conn E conn w₀).1 in
      let w₂ : World E = (exists E conn database_exists_query database w₁).1 in
      elim (Result-cases (close_all_sessions E server database w).0) [
        | inr (e, p) ↦ absurd (ground arith)
        | inl (u, p) ↦ elim (Result-cases (E.open_db conn w₀.state).0) [
          | inr (e, q) ↦ absurd (ground arith)
          | inl (v, q) ↦
              elim (Result-cases (E.query_exists conn database_exists_query database w₁.state).0) [
                | inr (e, t) ↦ absurd (ground arith)
                | inl (present, t) ↦ ground (
                  arith,
                  told w₁.state conn present t,
                  queried w₁.state conn database_exists_query database,
                  dropped w₂.state conn,
                )
              ]
        ]
      ]
