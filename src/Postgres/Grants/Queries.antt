-- ===== src/Postgres/Grants/Queries.antt =====
-- The statements that grants become (internal/postgresql/operations.go).
use k8s_postgresql_operator.Prelude.{String, List, [], ◌∷◌, ◌++◌, join, ◌<>◌}
use k8s_postgresql_operator.Api.{GrantItem, DefaultPrivilegeItem}
use k8s_postgresql_operator.World.{Env, World, Result, ok, err, Effect, sql_exec}
use k8s_postgresql_operator.Postgres.Grants.{
  build_grant_query, default_privilege_query, escape_grant_fields,
}

-- The statements executed so far, the first one first, each with its connection.
abbrev pub executed : List Effect → List (String × String)
executed [] = []
executed (sql_exec conn query args ∷ t) = executed t ++ ((conn, query) ∷ [])
executed (_ ∷ t) = executed t

-- The text of a query that was built.
abbrev pub text_of : Result String → String
text_of (ok query) = query
text_of (err e) = ""

module _ (E : Env) where
  -- The statement of a grant on a database, of any other grant, and of a default privilege, on a
  -- connection and for a quoted role.
  abbrev pub database_statement : String → String → String → GrantItem → String × String
  database_statement conn database role g =
      (conn, "GRANT " <> join ", " g.privileges <> " ON DATABASE " <> database <> " TO " <> role)

  abbrev pub item_statement : String → String → GrantItem → String × String
  item_statement conn role g =
      (conn, text_of (build_grant_query g (join ", " g.privileges) role (escape_grant_fields E g)))

  abbrev pub default_statement : String → String → DefaultPrivilegeItem → String × String
  default_statement conn role p =
      (conn, text_of (default_privilege_query p (E.quote_identifier p.schema) role))
