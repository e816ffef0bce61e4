-- ===== src/Postgres/Grants.antt =====
-- Privileges (internal/postgresql/operations.go, from `applyDatabaseGrants` on).
pub mod Queries
use k8s_postgresql_operator.Prelude.{
  ℕ, String, ◌<>◌, Bool, true, false, ◌||◌, not, Option, none, some, List, [], ◌∷◌, ◌==◌, join,
  if◌then◌else◌,
}
use k8s_postgresql_operator.Errors.{Error, plain, wrapped}
use k8s_postgresql_operator.Api.{
  GrantType, database_type, schema_type, table_type, sequence_type, function_type, all_tables_type,
  all_sequences_type, other_type, GrantItem, DefaultPrivilegeItem,
}
use k8s_postgresql_operator.World.{Env, Action, Result, ok, err, return_ok, fail, map_err}
use k8s_postgresql_operator.World.Fallible.{◌>>=◌, ◌>>◌}
use k8s_postgresql_operator.Postgres.{
  Server, connection_string, open_conn, ping, execute, default_db,
}

-- The names of the seven types.
abbrev pub type_name : GrantType → String
type_name database_type = "database"
type_name schema_type = "schema"
type_name table_type = "table"
type_name sequence_type = "sequence"
type_name function_type = "function"
type_name all_tables_type = "all_tables"
type_name all_sequences_type = "all_sequences"
type_name (other_type s) = s

abbrev pub is_database_grant : GrantType → Bool
is_database_grant database_type = true
is_database_grant _ = false

-- `type grantIdentifiers`: the escaped names, empty where the item has none.
pub record GrantIdentifiers : Type 0 where
  pub schema : String
  pub table : String
  pub sequence : String
  pub function : String

-- `requireFields`: the error, if a required field is empty.
unfoldable pub require_fields : String → String → String → String → String → Option Error
require_fields schema_val schema_name field_val field_name grant_type =
    if schema_val == ""
    then some (plain (schema_name <> " is required for " <> grant_type <> " grant type"))
    else if field_val == ""
    then some (plain (field_name <> " is required for " <> grant_type <> " grant type"))
    else none

-- The two loops that split the grants of `ApplyGrants`.
unfoldable pub database_grants : List GrantItem → List GrantItem
database_grants [] = []
database_grants (g ∷ gs) =
    let rest = database_grants gs in if is_database_grant g.type then g ∷ rest else rest

unfoldable pub other_grants : List GrantItem → List GrantItem
other_grants [] = []
other_grants (g ∷ gs) =
    let rest = other_grants gs in if is_database_grant g.type then rest else g ∷ rest

-- Whether a list of Go has elements, `len(l) > 0`.
abbrev pub has_items {ℓ} : {A : Type ℓ} → List A → Bool
has_items [] = false
has_items (x ∷ xs) = true

-- A query on an object of a schema, and one on a schema.
abbrev pub object_query : String → String → String → String → String → String
object_query privileges kind schema name role =
    "GRANT " <> privileges <> " ON " <> kind <> " " <> schema <> "." <> name <> " TO " <> role

abbrev pub schema_query : String → String → String → String → String
schema_query privileges kind schema role =
    "GRANT " <> privileges <> " ON " <> kind <> " " <> schema <> " TO " <> role

-- The outcome of `requireFields` and of the query that follows it.
abbrev required : Option Error → String → Result String
required (some e) query = err e
required none query = ok query

-- `buildGrantQuery`
unfoldable pub build_grant_query : GrantItem → String → String → GrantIdentifiers → Result String
unfolding require_fields
build_grant_query grant privileges role ids = elim grant.type [
  | schema_type ↦
      if grant.schema == ""
      then err (plain "schema is required for schema grant type")
      else ok (schema_query privileges "SCHEMA" ids.schema role)
  | table_type ↦
      required (require_fields grant.schema "schema" grant.table "table" "table")
        (object_query privileges "TABLE" ids.schema ids.table role)
  | sequence_type ↦
      required (require_fields grant.schema "schema" grant.sequence "sequence" "sequence")
        (object_query privileges "SEQUENCE" ids.schema ids.sequence role)
  | function_type ↦
      required (require_fields grant.schema "schema" grant.function "function" "function")
        (object_query privileges "FUNCTION" ids.schema ids.function role)
  | all_tables_type ↦
      if grant.schema == ""
      then err (plain "schema is required for all_tables grant type")
      else ok (schema_query privileges "ALL TABLES IN SCHEMA" ids.schema role)
  | all_sequences_type ↦
      if grant.schema == ""
      then err (plain "schema is required for all_sequences grant type")
      else ok (schema_query privileges "ALL SEQUENCES IN SCHEMA" ids.schema role)
  | database_type ↦ err (plain "unknown grant type: database")
  | other_type s ↦ err (plain ("unknown grant type: " <> s))
]

-- The switch of `applyDefaultPrivilege`.
unfoldable pub default_privilege_query : DefaultPrivilegeItem → String → String → Result String
default_privilege_query p schema role =
    let query = λ (kind : String).
      "ALTER DEFAULT PRIVILEGES IN SCHEMA "
      <> schema
      <> " GRANT "
      <> join ", " p.privileges
      <> " ON "
      <> kind
      <> " TO "
      <> role in
    if p.object_type == "tables"
    then ok (query "TABLES")
    else if p.object_type == "sequences"
    then ok (query "SEQUENCES")
    else if p.object_type == "functions"
    then ok (query "FUNCTIONS")
    else if p.object_type == "types"
    then ok (query "TYPES")
    else err (plain ("unknown default privilege object type: " <> p.object_type))

module _ (E : Env) where
  -- `escapeGrantFields`
  unfoldable pub escape_grant_fields : GrantItem → GrantIdentifiers
  escape_grant_fields grant = record {
    schema = if grant.schema == "" then "" else E.quote_identifier grant.schema;
    table = if grant.table == "" then "" else E.quote_identifier grant.table;
    sequence = if grant.sequence == "" then "" else E.quote_identifier grant.sequence;
    function = if grant.function == "" then "" else E.quote_identifier grant.function;
  }

  -- `applyGrantItem`
  unfoldable pub apply_grant_item : String → String → GrantItem → Action E (Unit {0})
  apply_grant_item conn role grant = do
    query ← λ w.
        (build_grant_query grant (join ", " grant.privileges) role (escape_grant_fields grant), w)
    map_err (wrapped "failed to execute grant query") (execute E conn query [])

  -- `applyDefaultPrivilege`
  unfoldable pub apply_default_privilege :
      String → String → DefaultPrivilegeItem → Action E (Unit {0})
  apply_default_privilege conn role p = do
    query ← λ w. (default_privilege_query p (E.quote_identifier p.schema) role, w)
    map_err (wrapped "failed to execute default privilege query") (execute E conn query [])

  unfoldable pub grant_on_database : String → String → String → List GrantItem → Action E (Unit {0})
  grant_on_database conn database role [] = return_ok tt
  grant_on_database conn database role (g ∷ gs) = do
    map_err (wrapped "failed to apply database grant") (
        execute E conn
          ("GRANT " <> join ", " g.privileges <> " ON DATABASE " <> database <> " TO " <> role) [])
    grant_on_database conn database role gs

  unfoldable pub apply_items : String → String → List GrantItem → Action E (Unit {0})
  apply_items conn role [] = return_ok tt
  apply_items conn role (g ∷ gs) = do
    map_err (wrapped ("failed to apply grant " <> type_name g.type)) (apply_grant_item conn role g)
    apply_items conn role gs

  unfoldable pub apply_defaults : String → String → List DefaultPrivilegeItem → Action E (Unit {0})
  apply_defaults conn role [] = return_ok tt
  apply_defaults conn role (p ∷ ps) = do
    map_err (wrapped ("failed to apply default privilege for " <> p.object_type))
        (apply_default_privilege conn role p)
    apply_defaults conn role ps

  -- `applyDatabaseGrants`
  unfoldable pub apply_database_grants :
      Server → String → String → List GrantItem → Action E (Unit {0})
  unfolding connection_string
  apply_database_grants server database role grants =
      let conn = connection_string server default_db in
      do
        map_err (wrapped ("failed to open database connection to " <> default_db))
            (open_conn E conn)
        map_err (wrapped "failed to ping postgres database") (ping E conn)
        grant_on_database conn database role grants

  -- `applyNonDatabaseGrants`
  unfoldable pub apply_non_database_grants :
      Server → String → String → List GrantItem → List DefaultPrivilegeItem → Action E (Unit {0})
  unfolding connection_string
  apply_non_database_grants server database role grants defaults =
      let conn = connection_string server database in
      do
        map_err (wrapped ("failed to open database connection to " <> database)) (open_conn E conn)
        map_err (wrapped ("failed to ping database " <> database)) (ping E conn)
        apply_items conn role grants
        apply_defaults conn role defaults

  -- `ApplyGrants`
  unfoldable pub apply_grants :
      Server → String → String → List GrantItem → List DefaultPrivilegeItem → Action E (Unit {0})
  apply_grants server database role_name grants defaults =
      let role = E.quote_identifier role_name in
      let on_database = database_grants grants in
      let others = other_grants grants in
      do
        (if has_items on_database
            then apply_database_grants server (E.quote_identifier database) role on_database
            else return_ok tt)
        if has_items others || has_items defaults
            then apply_non_database_grants server database role others defaults
            else return_ok tt
