-- ===== src/Controller/Privileges.antt =====
-- The reconcilers of grants, role groups and schemas (internal/controller/grant_controller.go,
-- rolegroup_controller.go and schema_controller.go).
use k8s_postgresql_operator.Prelude.{String, ◌<>◌}
use k8s_postgresql_operator.Errors.{error_text}
use k8s_postgresql_operator.Api.{
  Grant, RoleGroup, Schema, SyncStatus, Object, grant_object, rolegroup_object, schema_object,
}
use k8s_postgresql_operator.World.{Env, M, ok, err, pure}
use k8s_postgresql_operator.World.Steps.{◌>>=◌}
use k8s_postgresql_operator.Retry.{execute_operation_with_retry}
use k8s_postgresql_operator.Postgres.{default_db}
use k8s_postgresql_operator.Postgres.Roles.{create_or_update_role_group}
use k8s_postgresql_operator.Postgres.Databases.{create_or_update_schema}
use k8s_postgresql_operator.Postgres.Grants.{apply_grants}
use k8s_postgresql_operator.Controller.{
  Reconciler, Outcome, outcome_of, ConnectionInfo, server_of, resolved, unresolved, Texts,
  resolve_postgresql_connection, resolve_admin_credentials, try_admin_credentials, fetch, refuse,
  settle,
}

abbrev pub with_grant_status : Grant → SyncStatus → Object
with_grant_status grant s = grant_object (record grant { status = s })

abbrev pub with_rolegroup_status : RoleGroup → SyncStatus → Object
with_rolegroup_status group s = rolegroup_object (record group { status = s })

abbrev pub with_schema_status : Schema → SyncStatus → Object
with_schema_status schema s = schema_object (record schema { status = s })

module _ (E : Env) (r : Reconciler) where
  abbrev pub grant_texts : Grant → Texts
  grant_texts grant = record {
    failure_reason = "ApplyFailed";
    success_reason = "Applied";
    failure = "Failed to apply grants";
    success =
        "Grants successfully applied to role " <> grant.spec.role <> " on database "
        <> grant.spec.database;
    failure_event =
        "Failed to apply grants for role " <> grant.spec.role <> " on database "
        <> grant.spec.database;
    success_event =
        "Successfully applied grants for role " <> grant.spec.role <> " on database "
        <> grant.spec.database;
  }

  -- `syncGrants`
  unfoldable pub sync_grants : Grant → ConnectionInfo → M E Outcome
  unfolding settle
  sync_grants grant info = do
    result ←
        execute_operation_with_retry E
          (apply_grants E (server_of info) grant.spec.database grant.spec.role grant.spec.grants
            grant.spec.default_privileges)
          r.connection_retries r.connection_timeout "applyGrants"
    updated ←
        settle E "grant" grant.status grant.meta.generation (grant_texts grant)
          (with_grant_status grant) result
    pure (outcome_of updated)

  -- `GrantReconciler.Reconcile` on a grant that was found. Unlike a database, a user or a schema,
  -- a grant is not attempted without the credentials.
  unfoldable pub reconcile_grant : Grant → M E Outcome
  unfolding refuse
  reconcile_grant grant = do
    resolution ← resolve_postgresql_connection E grant.spec.postgresql_id
    elim resolution [
      | unresolved reason message ↦
          refuse E grant.status grant.meta.generation (with_grant_status grant) reason message
      | resolved info ↦ do
        found ← resolve_admin_credentials E r info
        elim found [
          | ok filled ↦ sync_grants grant filled
          | err e ↦
              refuse E grant.status grant.meta.generation (with_grant_status grant) "VaultError"
                ("Failed to get credentials from Vault: " <> error_text e)
        ]
    ]

  unfoldable pub grant_reconcile : String → String → M E Outcome
  unfolding fetch
  grant_reconcile namespace name = fetch E "grant" name (E.get_grant namespace name) reconcile_grant

  abbrev pub rolegroup_texts : RoleGroup → Texts
  rolegroup_texts group = record {
    failure_reason = "CreateFailed";
    success_reason = "Created";
    failure = "Failed to create role group";
    success = "Role group " <> group.spec.group_role <> " successfully created in PostgreSQL";
    failure_event = "Failed to create role group " <> group.spec.group_role;
    success_event = "Successfully created role group " <> group.spec.group_role;
  }

  -- `syncRoleGroup`
  unfoldable pub sync_role_group : RoleGroup → ConnectionInfo → M E Outcome
  unfolding settle
  sync_role_group group info = do
    result ←
        execute_operation_with_retry E
          (create_or_update_role_group E (server_of info) group.spec.group_role
            group.spec.member_roles)
          r.connection_retries r.connection_timeout "createOrUpdateRoleGroup"
    updated ←
        settle E "rolegroup" group.status group.meta.generation (rolegroup_texts group)
          (with_rolegroup_status group) result
    pure (outcome_of updated)

  -- `RoleGroupReconciler.Reconcile` on a role group that was found.
  unfoldable pub reconcile_rolegroup : RoleGroup → M E Outcome
  unfolding refuse
  reconcile_rolegroup group = do
    resolution ← resolve_postgresql_connection E group.spec.postgresql_id
    elim resolution [
      | unresolved reason message ↦
          refuse E group.status group.meta.generation (with_rolegroup_status group) reason message
      | resolved info ↦ do
        found ← resolve_admin_credentials E r info
        elim found [
          | ok filled ↦ sync_role_group group filled
          | err e ↦
              refuse E group.status group.meta.generation (with_rolegroup_status group) "VaultError"
                ("Failed to get credentials from Vault: " <> error_text e)
        ]
    ]

  unfoldable pub rolegroup_reconcile : String → String → M E Outcome
  unfolding fetch
  rolegroup_reconcile namespace name =
      fetch E "rolegroup" name (E.get_rolegroup namespace name) reconcile_rolegroup

  abbrev pub schema_texts : Schema → Texts
  schema_texts schema = record {
    failure_reason = "CreateFailed";
    success_reason = "Created";
    failure = "Failed to create schema";
    success = "Schema " <> schema.spec.schema <> " successfully created";
    failure_event = "Failed to create schema " <> schema.spec.schema;
    success_event = "Successfully created schema " <> schema.spec.schema;
  }

  -- `syncSchema`: the schema is always one of the default database.
  unfoldable pub sync_schema : Schema → ConnectionInfo → M E Outcome
  unfolding settle
  sync_schema schema info = do
    result ←
        execute_operation_with_retry E
          (create_or_update_schema E (server_of info) default_db schema.spec.schema
            schema.spec.owner)
          r.connection_retries r.connection_timeout "createOrUpdateSchema"
    updated ←
        settle E "schema" schema.status schema.meta.generation (schema_texts schema)
          (with_schema_status schema) result
    pure (outcome_of updated)

  -- `SchemaReconciler.Reconcile` on a schema that was found.
  unfoldable pub reconcile_schema : Schema → M E Outcome
  unfolding refuse
  reconcile_schema schema = do
    resolution ← resolve_postgresql_connection E schema.spec.postgresql_id
    elim resolution [
      | unresolved reason message ↦
          refuse E schema.status schema.meta.generation (with_schema_status schema) reason message
      | resolved info ↦ do filled ← try_admin_credentials E r info; sync_schema schema filled
    ]

  unfoldable pub schema_reconcile : String → String → M E Outcome
  unfolding fetch
  schema_reconcile namespace name =
      fetch E "schema" name (E.get_schema namespace name) reconcile_schema
