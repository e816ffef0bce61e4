-- ===== src/Webhook.antt =====
-- The admission webhooks (internal/webhook): each validator takes a decoded resource, asks
-- Vault, the cluster and the PostgreSQL server, and allows or denies it.
pub mod Checks
pub mod Passed
pub mod Allowed
pub mod AllowedGrant
use k8s_postgresql_operator.Prelude.{
  ℕ, zero, suc, ◌+◌, String, ◌<>◌, Bool, true, false, ◌||◌, not, Option, none, some, List, [], ◌∷◌,
  ◌==◌, ltb, decimal, if◌then◌else◌,
}
use k8s_postgresql_operator.Errors.{Error, nil_error, plain, wrapped, error_text}
use k8s_postgresql_operator.Api.{Postgresql, User, Database, Grant, RoleGroup, Schema}
use k8s_postgresql_operator.World.{Env, M, Action, Result, ok, err, Effect, sleep, note}
use k8s_postgresql_operator.Vault.{vault_check_health}
use k8s_postgresql_operator.Retry.{VaultClient}
use k8s_postgresql_operator.Cluster.{
  Duplicate, find_postgresql_by_id, database_exists_by_postgresql_id_and_name,
  check_duplicate_postgresql_id, check_duplicate_user, check_duplicate_database,
  check_duplicate_grant, check_duplicate_rolegroup, check_duplicate_schema,
}
use k8s_postgresql_operator.Postgres.Connection.{test_connection_from_postgresql}
use Checks.{
  Response, denied, errored, Checked, refused, passed, Gate, require, checking, decoding, answer,
  ◌>>=◌, ◌>>◌,
}

-- `type BaseValidatorConfig`, as far as its handlers read it.
pub record Validator : Type 0 where
  pub vault_client : VaultClient
  pub connection_retries : ℕ
  pub connection_timeout : ℕ
  pub vault_retries : ℕ
  pub vault_retry_delay : ℕ

-- An admission request: whether its operation is `Update`, and what the decoder made of it.
pub record Request (A : Type 0) : Type 0 where
  pub is_update : Bool
  pub decoded : Result A

-- `for _, user := range v.ExcludeUserList`
unfoldable pub is_excluded : String → List String → Bool
is_excluded username [] = false
is_excluded username (u ∷ us) = u == username || is_excluded username us

module _ (E : Env) where
  -- The loop of `checkVaultAvailability`, with `time.Sleep` between the attempts.
  availability_attempts : ℕ → ℕ → ℕ → ℕ → Error → Action E (Unit {0})
  unfolding vault_check_health
  availability_attempts retries delay zero attempt last_err w = (
    err (wrapped ("vault is not available after " <> decimal retries <> " attempts") last_err),
    w,
  )
  availability_attempts retries delay (suc rounds) attempt last_err w =
      let (r, w₁) = vault_check_health E w in
      elim r [
        | ok done ↦ (ok tt, w₁)
        | err e ↦
            let failure = wrapped "vault health check failed" e in
            elim (ltb attempt retries) [
              | true ↦
                  availability_attempts retries delay rounds (attempt + 1) failure
                    (note (sleep delay) w₁).1
              | false ↦ availability_attempts retries delay rounds (attempt + 1) failure w₁
            ]
      ]

  unfoldable pub check_vault_availability : VaultClient → ℕ → ℕ → Action E (Unit {0})
  unfolding availability_attempts
  check_vault_availability none retries delay w = (err (plain "vault client is not configured"), w)
  check_vault_availability (some secret_path) retries delay w =
      availability_attempts retries delay retries 1 nil_error w

  -- `if v.VaultClient != nil { … }` at the head of each handler.
  unfoldable pub vault_gate : Validator → Gate E (Unit {0})
  vault_gate v = elim v.vault_client [
    | none ↦ λ w. (passed tt, w)
    | some secret_path ↦
        checking (λ e. denied ("Vault is not available: " <> error_text e))
          (check_vault_availability v.vault_client v.vault_retries v.vault_retry_delay)
  ]

  unfoldable pub instance_gate : String → Gate E Postgresql
  instance_gate postgresql_id =
      checking
        (λ e. denied (
          "PostgreSQL instance with postgresqlID " <> postgresql_id
          <> " does not exist in the cluster"))
        (find_postgresql_by_id E postgresql_id)

  unfoldable pub connection_gate : Validator → String → Postgresql → Gate E (Unit {0})
  connection_gate v postgresql_id postgresql =
      checking
        (λ e. denied (
          "Cannot connect to PostgreSQL instance with postgresqlID "
          <> postgresql_id
          <> ": "
          <> error_text e))
        (test_connection_from_postgresql E postgresql v.vault_client v.connection_retries
          v.connection_timeout)

  -- An error of a check answers 500, and a duplicate is denied with the report's message.
  unfoldable pub duplicate_gate : Action E (Option Duplicate) → Gate E (Unit {0})
  duplicate_gate check = do
    found ← checking (errored 500) check
    λ w. (elim found [ none ↦ passed tt | some d ↦ refused (denied d.message) ], w)

  -- `(v *PostgresqlValidator) Handle`
  unfoldable pub handle_postgresql : Validator → Request Postgresql → M E Response
  handle_postgresql v req =
      answer "No duplicate postgresqlID found in cluster and connection test passed" do
        postgresql ← decoding req.decoded
        external ← λ w. (
          elim postgresql.external_instance [
            | none ↦ refused (denied "externalInstance with postgresqlID is required")
            | some x ↦ passed x
          ],
          w,
        )
        require (not (external.postgresql_id == ""))
            "externalInstance with postgresqlID is required"
        vault_gate v
        duplicate_gate (
            check_duplicate_postgresql_id E postgresql.meta.name postgresql.meta.namespace
              external.postgresql_id req.is_update)
        connection_gate v external.postgresql_id postgresql

  -- `(v *UserValidator) Handle`, over the list of excluded names
  unfoldable pub handle_user : Validator → List String → Request User → M E Response
  handle_user v excluded req =
      answer "No duplicate postgresqlID and username combination found in cluster" do
        user ← decoding req.decoded
        require (not (user.spec.postgresql_id == "")) "postgresqlID is required"
        require (not (user.spec.username == "")) "username is required"
        vault_gate v
        require (not (is_excluded user.spec.username excluded))
            ("Username " <> user.spec.username <> " is in the excludelist and cannot be created")
        found ← instance_gate user.spec.postgresql_id
        connection_gate v user.spec.postgresql_id found
        duplicate_gate (
            check_duplicate_user E user.meta.name user.meta.namespace user.spec.postgresql_id
              user.spec.username req.is_update)

  -- `(v *DatabaseValidator) Handle`
  unfoldable pub handle_database : Validator → Request Database → M E Response
  handle_database v req =
      answer "No duplicate postgresqlID and database name combination found in cluster" do
        database ← decoding req.decoded
        require (not (database.spec.postgresql_id == "")) "postgresqlID is required"
        require (not (database.spec.database == "")) "database name is required"
        vault_gate v
        found ← instance_gate database.spec.postgresql_id
        connection_gate v database.spec.postgresql_id found
        duplicate_gate (
            check_duplicate_database E database.meta.name database.meta.namespace
              database.spec.postgresql_id database.spec.database req.is_update)

  unfoldable pub database_gate : String → String → Gate E (Unit {0})
  database_gate postgresql_id database_name = do
    present ←
        checking (errored 500)
          (database_exists_by_postgresql_id_and_name E postgresql_id database_name)
    require present (
        "Database " <> database_name <> " with postgresqlID " <> postgresql_id
        <> " does not exist in any namespace")

  -- `(v *GrantValidator) Handle`
  unfoldable pub handle_grant : Validator → Request Grant → M E Response
  handle_grant v req =
      answer "No duplicate postgresqlID, role, and database combination found in cluster" do
        grant ← decoding req.decoded
        require (not (grant.spec.postgresql_id == "")) "postgresqlID is required"
        require (not (grant.spec.role == "")) "role is required"
        require (not (grant.spec.database == "")) "database is required"
        vault_gate v
        found ← instance_gate grant.spec.postgresql_id
        connection_gate v grant.spec.postgresql_id found
        database_gate grant.spec.postgresql_id grant.spec.database
        duplicate_gate (
            check_duplicate_grant E grant.meta.name grant.meta.namespace grant.spec.postgresql_id
              grant.spec.role grant.spec.database req.is_update)

  -- `(v *RoleGroupValidator) Handle`
  unfoldable pub handle_rolegroup : Validator → Request RoleGroup → M E Response
  handle_rolegroup v req =
      answer "No duplicate postgresqlID and groupRole combination found in cluster" do
        role_group ← decoding req.decoded
        require (not (role_group.spec.postgresql_id == "")) "postgresqlID is required"
        require (not (role_group.spec.group_role == "")) "groupRole is required"
        vault_gate v
        found ← instance_gate role_group.spec.postgresql_id
        connection_gate v role_group.spec.postgresql_id found
        duplicate_gate (
            check_duplicate_rolegroup E role_group.meta.name role_group.meta.namespace
              role_group.spec.postgresql_id role_group.spec.group_role req.is_update)

  -- `(v *SchemaValidator) Handle`
  unfoldable pub handle_schema : Validator → Request Schema → M E Response
  handle_schema v req =
      answer "No duplicate postgresqlID and schema combination found in cluster" do
        schema ← decoding req.decoded
        require (not (schema.spec.postgresql_id == "")) "postgresqlID is required"
        require (not (schema.spec.schema == "")) "schema name is required"
        require (not (schema.spec.owner == "")) "owner is required"
        vault_gate v
        found ← instance_gate schema.spec.postgresql_id
        connection_gate v schema.spec.postgresql_id found
        duplicate_gate (
            check_duplicate_schema E schema.meta.name schema.meta.namespace
              schema.spec.postgresql_id schema.spec.schema req.is_update)
