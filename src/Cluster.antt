-- ===== src/Cluster.antt =====
-- Lookups and duplicate checks over the resources of the whole cluster
-- (internal/k8s/crd_verification.go and internal/k8s/duplicate_check.go).
pub mod Uniqueness
pub mod Listing
use k8s_postgresql_operator.Prelude.{
  ℕ, String, ◌<>◌, Bool, true, false, ◌&&◌, Option, none, some, List, [], ◌∷◌, ◌==◌, if◌then◌else◌,
}
use k8s_postgresql_operator.Errors.{Error, plain, wrapped}
use k8s_postgresql_operator.Api.{
  ObjectMeta, ExternalPostgresqlInstance, Postgresql, User, Database, Grant, RoleGroup, Schema,
}
use k8s_postgresql_operator.World.{
  Env, Action, ok, err, Effect, k8s_list, call, return_ok, fail, map_err, Result,
}
use k8s_postgresql_operator.World.Fallible.{◌>>=◌, ◌>>◌}

-- `type DuplicateCheckResult`: `none` is `Found: false`. Of the existing object its metadata is kept.
pub record Duplicate : Type 0 where
  pub existing : ObjectMeta
  pub resource : String
  pub fields : List (String × String)
  pub message : String

-- The external instance of a resource has the ID.
unfoldable pub has_postgresql_id : String → Postgresql → Bool
has_postgresql_id postgresql_id p = elim p.external_instance [
  | none ↦ false
  | some external ↦ external.postgresql_id == postgresql_id
]

unfoldable pub first_match {ℓ} : {A : Type ℓ} → (A → Bool) → List A → Option A
first_match test [] = none
first_match test (x ∷ xs) = let rest = first_match test xs in if test x then some x else rest

-- The resource under review, which an update skips.
abbrev pub is_current : String → String → Bool → ObjectMeta → Bool
is_current name namespace is_update m = is_update && (m.name == name && m.namespace == namespace)

-- The loop of the six duplicate checks: the first other resource with the same keys.
unfoldable pub first_duplicate {ℓ} :
    {A : Type ℓ} → (A → ObjectMeta) → (A → Bool) → String → String → Bool → List A → Option A
first_duplicate meta matches name namespace is_update [] = none
first_duplicate meta matches name namespace is_update (x ∷ xs) =
    let rest = first_duplicate meta matches name namespace is_update xs in
    if is_current name namespace is_update (meta x)
    then rest
    else if matches x
    then some x
    else rest

abbrev pub user_matches : String → String → User → Bool
user_matches postgresql_id username u =
    u.spec.postgresql_id == postgresql_id && u.spec.username == username

abbrev pub database_matches : String → String → Database → Bool
database_matches postgresql_id database_name d =
    d.spec.postgresql_id == postgresql_id && d.spec.database == database_name

abbrev pub grant_matches : String → String → String → Grant → Bool
grant_matches postgresql_id role database_name g =
    g.spec.postgresql_id == postgresql_id
    && (g.spec.role == role && g.spec.database == database_name)

abbrev pub rolegroup_matches : String → String → RoleGroup → Bool
rolegroup_matches postgresql_id group_role r =
    r.spec.postgresql_id == postgresql_id && r.spec.group_role == group_role

abbrev pub schema_matches : String → String → Schema → Bool
schema_matches postgresql_id schema_name s =
    s.spec.postgresql_id == postgresql_id && s.spec.schema == schema_name

-- The report on a duplicate: the message goes on with the place of the existing resource.
report :
    {A : Type 0}
    → (A → ObjectMeta)
    → String
    → List (String × String)
    → String
    → Option A
    → Option Duplicate
report meta resource fields message none = none
report meta resource fields message (some x) =
    let m = meta x in
    some (record {
      existing = m;
      resource = resource;
      fields = fields;
      message =
          message <> " already exists in namespace " <> m.namespace <> " (instance: " <> m.name
          <> ")";
    })

module _ (E : Env) where
  abbrev pub list_all :
      {A : Type 0} → String → (E.State → Result (List A) × E.State) → Action E (List A)
  list_all resource list =
      map_err (wrapped ("failed to list " <> resource <> " instances"))
        (call (k8s_list resource) list)

  -- `FindPostgresqlByID`
  unfoldable pub find_postgresql_by_id : String → Action E Postgresql
  unfolding first_match has_postgresql_id
  find_postgresql_by_id postgresql_id = do
    items ← list_all "PostgreSQL" E.list_postgresqls
    elim (first_match (has_postgresql_id postgresql_id) items) [
      | none ↦ fail (plain ("PostgreSQL instance with ID " <> postgresql_id <> " not found"))
      | some p ↦ return_ok p
    ]

  -- `FindDatabaseByPostgresqlIDAndName`
  unfoldable pub find_database_by_postgresql_id_and_name : String → String → Action E Database
  unfolding first_match
  find_database_by_postgresql_id_and_name postgresql_id database_name = do
    items ← list_all "Database" E.list_databases
    elim (first_match (database_matches postgresql_id database_name) items) [
      | none ↦ fail (
          plain (
            "database " <> database_name <> " with postgresqlID " <> postgresql_id <> " not found"))
      | some d ↦ return_ok d
    ]

  -- `DatabaseExistsByPostgresqlIDAndName`
  unfoldable pub database_exists_by_postgresql_id_and_name : String → String → Action E Bool
  unfolding first_match
  database_exists_by_postgresql_id_and_name postgresql_id database_name = do
    items ← list_all "Database" E.list_databases
    elim (first_match (database_matches postgresql_id database_name) items) [
      | none ↦ return_ok false
      | some d ↦ return_ok true
    ]

  -- `CheckDuplicatePostgresqlID`
  unfoldable pub check_duplicate_postgresql_id :
      String → String → String → Bool → Action E (Option Duplicate)
  unfolding first_duplicate report has_postgresql_id
  check_duplicate_postgresql_id name namespace postgresql_id is_update = do
    items ← list_all "PostgreSQL" E.list_postgresqls
    return_ok (
        report (λ p. p.meta) "PostgreSQL" (("postgresqlID", postgresql_id) ∷ [])
          ("PostgreSQL instance with postgresqlID " <> postgresql_id)
          (first_duplicate (λ p. p.meta) (has_postgresql_id postgresql_id) name namespace is_update
            items))

  -- `CheckDuplicateUser`
  unfoldable pub check_duplicate_user :
      String → String → String → String → Bool → Action E (Option Duplicate)
  unfolding first_duplicate report
  check_duplicate_user name namespace postgresql_id username is_update = do
    items ← list_all "User" E.list_users
    return_ok (
        report (λ u. u.meta) "User" (("postgresqlID", postgresql_id) ∷ ("username", username) ∷ [])
          ("User with postgresqlID " <> postgresql_id <> " and username " <> username)
          (first_duplicate (λ u. u.meta) (user_matches postgresql_id username) name namespace
            is_update items))

  -- `CheckDuplicateDatabase`
  unfoldable pub check_duplicate_database :
      String → String → String → String → Bool → Action E (Option Duplicate)
  unfolding first_duplicate report
  check_duplicate_database name namespace postgresql_id database_name is_update = do
    items ← list_all "Database" E.list_databases
    return_ok (
        report (λ d. d.meta) "Database"
          (("postgresqlID", postgresql_id) ∷ ("database", database_name) ∷ [])
          ("Database with postgresqlID " <> postgresql_id <> " and database name " <> database_name)
          (first_duplicate (λ d. d.meta) (database_matches postgresql_id database_name) name
            namespace is_update items))

  -- `CheckDuplicateGrant`
  unfoldable pub check_duplicate_grant :
      String → String → String → String → String → Bool → Action E (Option Duplicate)
  unfolding first_duplicate report
  check_duplicate_grant name namespace postgresql_id role database_name is_update = do
    items ← list_all "Grant" E.list_grants
    return_ok (
        report (λ g. g.meta) "Grant"
          (("postgresqlID", postgresql_id) ∷ ("role", role) ∷ ("database", database_name) ∷ [])
          ("Grant with postgresqlID " <> postgresql_id <> ", role " <> role <> ", and database "
            <> database_name)
          (first_duplicate (λ g. g.meta) (grant_matches postgresql_id role database_name) name
            namespace is_update items))

  -- `CheckDuplicateRoleGroup`
  unfoldable pub check_duplicate_rolegroup :
      String → String → String → String → Bool → Action E (Option Duplicate)
  unfolding first_duplicate report
  check_duplicate_rolegroup name namespace postgresql_id group_role is_update = do
    items ← list_all "RoleGroup" E.list_rolegroups
    return_ok (
        report (λ r. r.meta) "RoleGroup"
          (("postgresqlID", postgresql_id) ∷ ("groupRole", group_role) ∷ [])
          ("RoleGroup with postgresqlID " <> postgresql_id <> " and groupRole " <> group_role)
          (first_duplicate (λ r. r.meta) (rolegroup_matches postgresql_id group_role) name namespace
            is_update items))

  -- `CheckDuplicateSchema`
  unfoldable pub check_duplicate_schema :
      String → String → String → String → Bool → Action E (Option Duplicate)
  unfolding first_duplicate report
  check_duplicate_schema name namespace postgresql_id schema_name is_update = do
    items ← list_all "Schema" E.list_schemas
    return_ok (
        report (λ s. s.meta) "Schema"
          (("postgresqlID", postgresql_id) ∷ ("schema", schema_name) ∷ [])
          ("Schema with postgresqlID " <> postgresql_id <> " and schema " <> schema_name)
          (first_duplicate (λ s. s.meta) (schema_matches postgresql_id schema_name) name namespace
            is_update items))
