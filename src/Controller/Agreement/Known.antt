-- ===== src/Controller/Agreement/Known.antt =====
-- The administrator's password over a history of rounds (internal/controller/postgresql_controller.go):
-- the server's password is one that the secret in Vault has.
use k8s_postgresql_operator.Prelude.{
  String, ◌<>◌, ◌≡◌, true, false, some, ◌==◌, inl, inr, arith, decimal, eq_refl, Bool-cases,
}
use k8s_postgresql_operator.Api.{Postgresql, ExternalPostgresqlInstance}
use k8s_postgresql_operator.World.{Env, World}
use k8s_postgresql_operator.Vault.{string_field, instance_admin_path}
use k8s_postgresql_operator.Postgres.{default_db}
use k8s_postgresql_operator.Postgres.Connection.{test_connection, port_of}
use k8s_postgresql_operator.Retry.{
  get_instance_admin_new_password_with_retry, get_vault_credentials_with_retry,
}
use k8s_postgresql_operator.Controller.{Reconciler}
use k8s_postgresql_operator.Controller.Instances.{
  Credentials, server_at, resolve_instance_credentials, report_connection,
  reconcile_external_instance, update_connection_status, store_instance_admin_credentials,
  handle_instance_admin_password_rotation,
}
use k8s_postgresql_operator.Controller.Agreement.{
  IsAccountWorld, HasPlainDefaults, IsKept, is_known,
}
use k8s_postgresql_operator.Controller.Agreement.Steps.{
  get_vault_credentials_with_retry-IsKept, get_instance_admin_new_password_with_retry-IsKept,
}
use k8s_postgresql_operator.Controller.Agreement.Changes.{store_vault_credentials_with_retry_stored}
use k8s_postgresql_operator.Controller.Agreement.Servers.{test_connection-IsKept}
use k8s_postgresql_operator.Controller.Agreement.Rotations.{rotate_in_postgresql_known}
use k8s_postgresql_operator.Controller.Agreement.Rounds.{
  log_and_persist_status-IsKept, report_connection-IsKept, resolve_instance_credentials-IsKept,
  resolve_instance_credentials_plain,
}

module _ {E : Env} {sp : String} (r : Reconciler) (external : ExternalPostgresqlInstance)
    (k : IsAccountWorld E (instance_admin_path sp external.postgresql_id) (server_at external))
    (client : r.vault_client ≡ some sp) where
  handle_instance_admin_password_rotation_known :
      (w : World E)
      → is_known k w ≡ true
      → is_known k (handle_instance_admin_password_rotation E r external w).1 ≡ true
  unfolding handle_instance_admin_password_rotation
  handle_instance_admin_password_rotation_known w known =
      let w₁ : World E =
        (get_instance_admin_new_password_with_retry E (some sp) external.postgresql_id
          r.vault_retries r.vault_retry_delay w).1 in
      let w₂ : World E =
        (get_vault_credentials_with_retry E (some sp) external.postgresql_id r.vault_retries
          r.vault_retry_delay w₁).1 in
      let (kept, asked) =
        get_instance_admin_new_password_with_retry-IsKept sp external.postgresql_id k
          r.vault_retries r.vault_retry_delay w in
      let (kept₂, current) =
        get_vault_credentials_with_retry-IsKept sp external.postgresql_id k r.vault_retries
          r.vault_retry_delay w₁ in
      elim asked [
        | inr (e, p) ↦ ground (arith, client, kept)
        | inl (d, new, p, found, wanted) ↦ elim (Bool-cases (new == "")) [
          | inl empty ↦ ground (arith, client, kept)
          | inr full ↦ elim current [
            | inr (e, q) ↦ ground (arith, client, kept, kept₂)
            | inl (d', login, password, q, found', named, secret, a, b) ↦ ground (
              arith,
              client,
              rotate_in_postgresql_known r external k client w₂ d login password new
                  (ground (arith, found, kept, kept₂)) (ground (arith, found, found', named, kept))
                  wanted (ground (arith, known, kept, kept₂)),
            )
          ]
        ]
      ]

  store_instance_admin_credentials_known :
      (w : World E) (login password : String)
      → is_known k w ≡ true
      → k.password (k.accounts w.state) login ≡ password
      → is_known k (store_instance_admin_credentials E r external.postgresql_id login password w).1
        ≡ true
  unfolding store_instance_admin_credentials string_field
  store_instance_admin_credentials_known w login password known set =
      elim (store_vault_credentials_with_retry_stored sp external.postgresql_id k login password
        r.vault_retries r.vault_retry_delay w) [
          | inr (e, p, inl kept) ↦ ground (arith, client, kept)
          | inr (e, p, inr (s, a, f)) ↦ ground (arith, client, s, a, set, eq_refl password)
          | inl (p, s, a, f) ↦ ground (arith, client, s, a, set, eq_refl password)
        ]

  pub reconcile_external_instance_known :
      (p : Postgresql) (w : World E)
      → HasPlainDefaults E sp
      → is_known k w ≡ true
      → is_known k (reconcile_external_instance E r p external w).1 ≡ true
  unfolding reconcile_external_instance
  reconcile_external_instance_known p w defaults known =
      let address = external.address <> ":" <> decimal (port_of external) in
      let c : Credentials = (resolve_instance_credentials E r external.postgresql_id w).0 in
      let w₁ : World E = (resolve_instance_credentials E r external.postgresql_id w).1 in
      let kept₁ : IsKept k w w₁ = resolve_instance_credentials-IsKept r external k w client in
      let tested =
        test_connection E (server_at external c.login c.password) default_db r.connection_retries
          r.connection_timeout w₁ in
      let w₂ : World E = tested.1 in
      let w₃ : World E = (report_connection E r address tested.0 w₂).1 in
      let kept₃ : IsKept k w₂ w₃ = report_connection-IsKept r k address tested.0 w₂ in
      let (kept₂, result) =
        test_connection-IsKept sp external.postgresql_id k c.login c.password r.connection_retries
          r.connection_timeout w₁ in
      let known₃ : is_known k w₃ ≡ true = ground (arith, known, kept₁, kept₂, kept₃) in
      let (updated, changed) =
        update_connection_status E p external.postgresql_id address tested.0 in
      elim result [
        | inr (e, q) ↦
            ground
              (arith, client, q, known₃, log_and_persist_status-IsKept r k updated address false w₃)
        | inl (q, right) ↦ elim (Bool-cases c.used_default) [
          | inl default ↦
              let (plain_login, plain_password) =
                resolve_instance_credentials_plain r external k w client defaults default in
              let w₄ : World E =
                (store_instance_admin_credentials E r external.postgresql_id c.login c.password
                  w₃).1 in
              ground (
                arith,
                client,
                q,
                default,
                store_instance_admin_credentials_known w₃ c.login c.password known₃
                    (ground (arith, right plain_login plain_password, kept₂, kept₃)),
                log_and_persist_status-IsKept r k updated address true w₄,
              )
          | inr own ↦
              let w₄ : World E = (handle_instance_admin_password_rotation E r external w₃).1 in
              ground (
                arith,
                client,
                q,
                own,
                handle_instance_admin_password_rotation_known w₃ known₃,
                log_and_persist_status-IsKept r k updated address true w₄,
              )
        ]
      ]
