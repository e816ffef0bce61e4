-- ===== src/Controller/Agreement/Stuck.antt =====
-- A round in which the server does not have the administrator's password that Vault holds
-- (internal/controller/postgresql_controller.go).
use k8s_postgresql_operator.Prelude.{
  String, ◌<>◌, ◌≡◌, ◌≢◌, true, false, some, inl, inr, arith, decimal,
}
use k8s_postgresql_operator.Api.{Postgresql, ExternalPostgresqlInstance}
use k8s_postgresql_operator.World.{Env, World, ok}
use k8s_postgresql_operator.Vault.{instance_admin_path}
use k8s_postgresql_operator.Postgres.{default_db}
use k8s_postgresql_operator.Postgres.Connection.{test_connection, port_of}
use k8s_postgresql_operator.Retry.{get_vault_credentials_with_retry}
use k8s_postgresql_operator.Postgres.Plain.{is_plain}
use k8s_postgresql_operator.Controller.{Reconciler}
use k8s_postgresql_operator.Controller.Instances.{
  Credentials, server_at, resolve_instance_credentials, report_connection,
  reconcile_external_instance, update_connection_status,
}
use k8s_postgresql_operator.Controller.Agreement.{IsAccountWorld, IsKept}
use k8s_postgresql_operator.Controller.Agreement.Servers.{test_connection-IsKept}
use k8s_postgresql_operator.Controller.Agreement.Rounds.{
  log_and_persist_status-IsKept, report_connection-IsKept, resolve_instance_credentials-IsKept,
}

module _ {E : Env} (r : Reconciler) (external : ExternalPostgresqlInstance) where
  resolve_instance_credentials_own :
      (w : World E) (login password : String)
      → (get_vault_credentials_with_retry E r.vault_client external.postgresql_id r.vault_retries
          r.vault_retry_delay w).0
        ≡ ok (login, password)
      → (resolve_instance_credentials E r external.postgresql_id w).0
        ≡ record { login = login; password = password; used_default = false }
  unfolding resolve_instance_credentials
  resolve_instance_credentials_own w login password h = ground (arith)

module _ {E : Env} {sp : String} (r : Reconciler) (external : ExternalPostgresqlInstance)
    (k : IsAccountWorld E
      (instance_admin_path sp external.postgresql_id)
      (server_at external)) where
  -- In a world with one server that asks for passwords, and with a Vault client, if the
  -- administrator's credentials can be read from Vault and are plain, and the server has another
  -- password for the login, then a round changes neither the secret nor the accounts of the
  -- server, and no rotation fails in it.
  pub reconcile_external_instance_stuck :
      (p : Postgresql) (w : World E) {login password : String}
      → r.vault_client ≡ some sp
      → (get_vault_credentials_with_retry E r.vault_client external.postgresql_id r.vault_retries
          r.vault_retry_delay w).0
        ≡ ok (login, password)
      → is_plain login ≡ true
      → is_plain password ≡ true
      → k.password (k.accounts w.state) login ≢ password
      → IsKept k w (reconcile_external_instance E r p external w).1
  unfolding reconcile_external_instance
  reconcile_external_instance_stuck p w {login} {password} client read plain_login plain_password
        wrong =
      let address = external.address <> ":" <> decimal (port_of external) in
      let c : Credentials = record { login = login; password = password; used_default = false } in
      let own : (resolve_instance_credentials E r external.postgresql_id w).0 ≡ c =
        resolve_instance_credentials_own r external w login password read in
      let w₁ : World E = (resolve_instance_credentials E r external.postgresql_id w).1 in
      let kept₁ : IsKept k w w₁ = resolve_instance_credentials-IsKept r external k w client in
      let tested =
        test_connection E (server_at external login password) default_db r.connection_retries
          r.connection_timeout w₁ in
      let w₂ : World E = tested.1 in
      let w₃ : World E = (report_connection E r address tested.0 w₂).1 in
      let kept₃ : IsKept k w₂ w₃ = report_connection-IsKept r k address tested.0 w₂ in
      let (kept₂, result) =
        test_connection-IsKept sp external.postgresql_id k login password r.connection_retries
          r.connection_timeout w₁ in
      let (updated, changed) =
        update_connection_status E p external.postgresql_id address tested.0 in
      elim result [
        | inl (q, right) ↦ absurd (wrong (ground (arith, right plain_login plain_password, kept₁)))
        | inr (e, q) ↦ ground (
          arith,
          client,
          own,
          kept₁,
          kept₂,
          kept₃,
          q,
          log_and_persist_status-IsKept r k updated address false w₃,
        )
      ]
