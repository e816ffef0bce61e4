-- ===== src/Controller/Instances.antt =====
-- The reconciler of PostgreSQL instances (internal/controller/postgresql_controller.go).
use k8s_postgresql_operator.Prelude.{
  String, ◌<>◌, Bool, true, false, not, ◌&&◌, ◌||◌, Option, none, some, ◌==◌, beq, decimal,
  if◌then◌else◌,
}
use k8s_postgresql_operator.Errors.{error_text, is_secret_not_found}
use k8s_postgresql_operator.Api.{
  Condition, ConditionStatus, condition_true, condition_false, Postgresql,
  ExternalPostgresqlInstance, postgresql_object,
}
use k8s_postgresql_operator.Metrics.Counters.{
  inc_reconcile_errors, inc_vault_credential_resolution, inc_vault_password_rotation,
}
use k8s_postgresql_operator.World.{Env, M, Result, ok, err, event, now, call, note, pure}
use k8s_postgresql_operator.World.Steps.{◌>>=◌, ◌>>◌}
use k8s_postgresql_operator.Retry.{
  execute_operation_with_retry, get_vault_credentials_with_retry,
  get_default_vault_credentials_with_retry, store_vault_credentials_with_retry,
  get_instance_admin_new_password_with_retry, rotate_instance_admin_password_with_retry,
}
use k8s_postgresql_operator.Postgres.{Server, default_db}
use k8s_postgresql_operator.Postgres.Connection.{port_of, ssl_mode_of, test_connection}
use k8s_postgresql_operator.Postgres.Roles.{create_or_update_user}
use k8s_postgresql_operator.Controller.{
  Reconciler, Outcome, finished, later, is_nil, update_condition, update_status_of, fetch,
}

-- What `resolveInstanceCredentials` returns.
pub record Credentials : Type 0 where
  pub login : String
  pub password : String
  pub used_default : Bool

abbrev pub no_credentials : Credentials
no_credentials = record { login = ""; password = ""; used_default = false }

abbrev pub same_status : ConditionStatus → ConditionStatus → Bool
same_status condition_true condition_true = true
same_status condition_false condition_false = true
same_status _ _ = false

-- Whether the connection test succeeded.
abbrev pub is_ok : Result (Unit {0}) → Bool
is_ok (ok u) = true
is_ok (err e) = false

-- `buildConnectionCondition`: the status, the reason and the message. The test of the connection
-- fails exactly with an error, so the message without one does not arise.
unfoldable pub build_connection_condition :
    Result (Unit {0}) → String → String → ConditionStatus × (String × String)
build_connection_condition (ok u) postgresql_id address =
    (condition_true, ("Connected", "Successfully connected to PostgreSQL at " <> address))
build_connection_condition (err e) postgresql_id address = (
  condition_false,
  (
    "ConnectionFailed",
    "Failed to connect to PostgreSQL with id "
        <> postgresql_id
        <> " at "
        <> address
        <> ": "
        <> error_text e,
  ),
)

abbrev pub server_at : ExternalPostgresqlInstance → String → String → Server
server_at external login password = record {
  host = external.address;
  port = port_of external;
  admin_user = login;
  admin_password = password;
  ssl_mode = ssl_mode_of external;
}

module _ (E : Env) where
  -- Whether the condition `Ready` is to be written: `readyCondition == nil || …`
  unfoldable pub ready_differs : Option Condition → ConditionStatus → String → Bool
  ready_differs none status message = true
  ready_differs (some c) status message =
      not (same_status c.status status) || not (c.message == message)

  -- `updateConnectionStatus`: the object, and whether its status has changed.
  unfoldable pub update_connection_status :
      Postgresql → String → String → Result (Unit {0}) → Postgresql × Bool
  unfolding build_connection_condition ready_differs update_condition
  update_connection_status p postgresql_id address connection =
      let (status, (reason, message)) =
        build_connection_condition connection postgresql_id address in
      let connected = is_ok connection in
      let differs = ready_differs (E.find_status_condition p.conditions "Ready") status message in
      let conditions =
        if differs
        then update_condition E p.conditions p.meta.generation "Ready" status reason message
        else p.conditions in
      (
        record p { connection_address = address; connected = connected; conditions = conditions },
        not (p.connection_address == address) || not (beq p.connected connected) || differs,
      )

module _ (E : Env) (r : Reconciler) where
  -- The part of `resolveInstanceCredentials` for an instance that has no secret of its own.
  unfoldable pub resolve_default_credentials : M E Credentials
  resolve_default_credentials = do
    found ←
        get_default_vault_credentials_with_retry E r.vault_client r.vault_retries
          r.vault_retry_delay
    elim found [
      | ok (login, password) ↦
          inc_vault_credential_resolution "default"
          >> pure (record { login = login; password = password; used_default = true })
      | err f ↦ inc_vault_credential_resolution "none" >> pure no_credentials
    ]

  -- `resolveInstanceCredentials`
  unfoldable pub resolve_instance_credentials : String → M E Credentials
  unfolding is_secret_not_found
  resolve_instance_credentials postgresql_id = do
    own ←
        get_vault_credentials_with_retry E r.vault_client postgresql_id r.vault_retries
          r.vault_retry_delay
    elim own [
      | ok (login, password) ↦
          inc_vault_credential_resolution "instance_admin"
          >> pure (record { login = login; password = password; used_default = false })
      | err e ↦
          if is_secret_not_found e
          then resolve_default_credentials
          else (inc_vault_credential_resolution "none" >> pure no_credentials)
    ]

  -- `storeInstanceAdminCredentials`
  unfoldable pub store_instance_admin_credentials : String → String → String → M E (Unit {0})
  store_instance_admin_credentials postgresql_id login password = do
    stored ←
        store_vault_credentials_with_retry E r.vault_client postgresql_id login password
          r.vault_retries r.vault_retry_delay
    elim stored [
      | err e ↦ note (
          event "Warning" "CredentialStoreFailed" (
            "Failed to store instance admin credentials for "
            <> postgresql_id
            <> ": "
            <> error_text e))
      | ok u ↦ note (
          event "Normal" "InstanceRegistered"
            ("Instance admin credentials stored for " <> postgresql_id))
    ]

  -- The end of a rotation, once PostgreSQL has the new password.
  unfoldable pub rotate_in_vault : String → String → M E (Unit {0})
  rotate_in_vault postgresql_id new_password = do
    rotated ←
        rotate_instance_admin_password_with_retry E r.vault_client postgresql_id new_password
          r.vault_retries r.vault_retry_delay
    elim rotated [
      | err e ↦
          note (
            event "Warning" "VaultRotationFailed" (
              "Password changed in PostgreSQL but Vault update failed for "
              <> postgresql_id
              <> ": "
              <> error_text e))
          >> inc_vault_password_rotation "vault_failed"
      | ok u ↦
          note (
            event "Normal" "PasswordRotated"
              ("Instance admin password rotated for " <> postgresql_id))
          >> inc_vault_password_rotation "success"
    ]

  -- The change of the password in PostgreSQL, and what follows it.
  unfoldable pub rotate_in_postgresql :
      ExternalPostgresqlInstance → String → String → String → M E (Unit {0})
  unfolding port_of ssl_mode_of
  rotate_in_postgresql external login current_password new_password = do
    changed ←
        execute_operation_with_retry E
          (create_or_update_user E (server_at external login current_password) login new_password)
          r.connection_retries r.connection_timeout "rotateInstanceAdminPassword"
    elim changed [
      | err e ↦
          note (
            event "Warning" "PasswordRotationFailed" (
              "Failed to change password in PostgreSQL for "
              <> external.postgresql_id
              <> ": "
              <> error_text e))
          >> inc_reconcile_errors "postgresql"
          >> inc_vault_password_rotation "pg_failed"
      | ok u ↦ rotate_in_vault external.postgresql_id new_password
    ]

  -- `handleInstanceAdminPasswordRotation`
  unfoldable pub handle_instance_admin_password_rotation :
      ExternalPostgresqlInstance → M E (Unit {0})
  handle_instance_admin_password_rotation external = do
    asked ←
        get_instance_admin_new_password_with_retry E r.vault_client external.postgresql_id
          r.vault_retries r.vault_retry_delay
    elim asked [
      | err e ↦ pure tt
      | ok new_password ↦ if new_password == "" then pure tt else do
        current ←
            get_vault_credentials_with_retry E r.vault_client external.postgresql_id r.vault_retries
              r.vault_retry_delay
        elim current [
          | err e ↦ pure tt
          | ok (login, password) ↦ rotate_in_postgresql external login password new_password
        ]
    ]

  -- `logAndPersistStatus`
  unfoldable pub log_and_persist_status : Postgresql → String → Bool → M E (Unit {0})
  log_and_persist_status p address connected = do
    t ← call now E.now_time
    updated ← update_status_of E (postgresql_object (record p { last_connection_attempt = some t }))
    elim updated [
      | err e ↦ pure tt
      | ok u ↦
          if connected
          then note
              (event "Normal" "Connected" ("Successfully connected to PostgreSQL at " <> address))
          else note
              (event "Warning" "Disconnected" ("Failed to connect to PostgreSQL at " <> address))
    ]

  -- The event and the counter of a failed connection test.
  unfoldable pub report_connection : String → Result (Unit {0}) → M E (Unit {0})
  report_connection address (ok u) = pure tt
  report_connection address (err e) =
      inc_reconcile_errors "postgresql"
      >> note (
          event "Warning" "ConnectionFailed"
            ("Failed to connect to PostgreSQL at " <> address <> ": " <> error_text e))

  -- `reconcileExternalInstance`
  unfoldable pub reconcile_external_instance : Postgresql → ExternalPostgresqlInstance → M E Outcome
  unfolding port_of ssl_mode_of
  reconcile_external_instance p external =
      let address = external.address <> ":" <> decimal (port_of external) in
      let has_vault = not (is_nil r.vault_client) in
      do
        credentials ←
            (if has_vault
              then resolve_instance_credentials external.postgresql_id
              else pure no_credentials)
        connection ←
            test_connection E (server_at external credentials.login credentials.password) default_db
              r.connection_retries r.connection_timeout
        report_connection address connection
        (if is_ok connection && credentials.used_default && has_vault
            then store_instance_admin_credentials external.postgresql_id credentials.login
                credentials.password
            else pure tt)
        (if is_ok connection && has_vault && not credentials.used_default
            then handle_instance_admin_password_rotation external
            else pure tt)
        let (updated, changed) =
            update_connection_status E p external.postgresql_id address connection
        (if changed then log_and_persist_status updated address (is_ok connection) else pure tt)
        pure later

  -- `PostgresqlReconciler.Reconcile`
  unfoldable pub postgresql_reconcile : String → String → M E Outcome
  unfolding fetch
  postgresql_reconcile namespace name =
      fetch E "postgresql" name (E.get_postgresql namespace name) (λ p. elim p.external_instance [
        | none ↦ pure finished
        | some external ↦ reconcile_external_instance p external
      ])
