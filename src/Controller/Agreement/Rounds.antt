-- ===== src/Controller/Agreement/Rounds.antt =====
-- The administrator's credentials in Vault and on the server over a round
-- (internal/controller/postgresql_controller.go).
use k8s_postgresql_operator.Prelude.{
  String, ◌<>◌, ◌≡◌, refl, Bool, true, false, some, inl, inr, arith, Bool-cases, eq_refl, decimal,
}
use k8s_postgresql_operator.Errors.{is_secret_not_found}
use k8s_postgresql_operator.Api.{Postgresql, ExternalPostgresqlInstance, postgresql_object}
use k8s_postgresql_operator.World.{Env, World, Result, ok, err, call, Result-cases, now}
use k8s_postgresql_operator.Vault.{string_field, instance_admin_path}
use k8s_postgresql_operator.Postgres.{Server, default_db}
use k8s_postgresql_operator.Postgres.Connection.{test_connection, port_of}
use k8s_postgresql_operator.Retry.{
  get_vault_credentials_with_retry, get_default_vault_credentials_with_retry,
}
use k8s_postgresql_operator.Postgres.Plain.{is_plain}
use k8s_postgresql_operator.Controller.{Reconciler}
use k8s_postgresql_operator.Controller.Instances.{
  Credentials, server_at, resolve_default_credentials, resolve_instance_credentials,
  store_instance_admin_credentials, handle_instance_admin_password_rotation, log_and_persist_status,
  report_connection, reconcile_external_instance, update_connection_status,
}
use k8s_postgresql_operator.Controller.Agreement.{
  IsAccountWorld, HasPlainDefaults, IsKept, is_agreed, HasAgreed, HasAgreed-IsKept,
  rotation_failures,
}
use k8s_postgresql_operator.Controller.Agreement.Steps.{
  get_vault_credentials_with_retry-IsKept, get_default_vault_credentials_with_retry-IsKept,
  get_default_vault_credentials_with_retry_plain,
}
use k8s_postgresql_operator.Controller.Agreement.Changes.{store_vault_credentials_with_retry_stored}
use k8s_postgresql_operator.Controller.Agreement.Servers.{test_connection-IsKept}
use k8s_postgresql_operator.Controller.Agreement.Rotations.{
  handle_instance_admin_password_rotation-HasAgreed,
}

module _ {E : Env} {path : String} (r : Reconciler) {reach : String → String → Server}
    (k : IsAccountWorld E path reach) where
  pub log_and_persist_status-IsKept :
      (p : Postgresql) (address : String) (connected : Bool) (w : World E)
      → IsKept k w (log_and_persist_status E r p address connected w).1
  unfolding log_and_persist_status rotation_failures
  log_and_persist_status-IsKept p address connected w =
      let t = (E.now_time w.state).0 in
      let w₁ : World E = (call now E.now_time w).1 in
      ground (
        arith,
        k.timed w.state,
        k.updated (postgresql_object (record p { last_connection_attempt = some t })) w₁.state,
      )

  pub report_connection-IsKept :
      (address : String) (c : Result (Unit {0})) (w : World E)
      → IsKept k w (report_connection E r address c w).1
  unfolding report_connection rotation_failures
  report_connection-IsKept address (ok u) w = (refl, refl, refl)
  report_connection-IsKept address (err e) w = (refl, refl, refl)

module _ {E : Env} {sp : String} (r : Reconciler) (external : ExternalPostgresqlInstance)
    (k : IsAccountWorld E
      (instance_admin_path sp external.postgresql_id)
      (server_at external)) where
  pub resolve_instance_credentials-IsKept :
      (w : World E)
      → r.vault_client ≡ some sp
      → IsKept k w (resolve_instance_credentials E r external.postgresql_id w).1
  unfolding resolve_instance_credentials resolve_default_credentials rotation_failures
  resolve_instance_credentials-IsKept w client =
      let w₁ : World E =
        (get_vault_credentials_with_retry E (some sp) external.postgresql_id r.vault_retries
          r.vault_retry_delay w).1 in
      let w₂ : World E =
        (get_default_vault_credentials_with_retry E (some sp) r.vault_retries r.vault_retry_delay
          w₁).1 in
      let (kept, own) =
        get_vault_credentials_with_retry-IsKept sp external.postgresql_id k r.vault_retries
          r.vault_retry_delay w in
      let kept₂ : IsKept k w₁ w₂ =
        get_default_vault_credentials_with_retry-IsKept sp external.postgresql_id k r.vault_retries
          r.vault_retry_delay w₁ in
      elim own [
        | inl (d, login, password, p, found, l, q, a, b) ↦ ground (arith, client, kept)
        | inr (e, p) ↦ elim (Bool-cases (is_secret_not_found e)) [
          | inr other ↦ ground (arith, client, kept)
          | inl absent ↦
              elim (Result-cases
                (get_default_vault_credentials_with_retry E (some sp) r.vault_retries
                  r.vault_retry_delay w₁).0) [
                    | inl (c, q) ↦ ground (arith, client, kept, kept₂)
                    | inr (f, q) ↦ ground (arith, client, kept, kept₂)
                  ]
        ]
      ]

  -- Default credentials that are used are plain.
  pub resolve_instance_credentials_plain :
      (w : World E)
      → r.vault_client ≡ some sp
      → HasPlainDefaults E sp
      → let c = (resolve_instance_credentials E r external.postgresql_id w).0 in
        c.used_default ≡ true → (is_plain c.login ≡ true) × (is_plain c.password ≡ true)
  unfolding resolve_instance_credentials resolve_default_credentials
  resolve_instance_credentials_plain w client defaults used =
      let own =
        get_vault_credentials_with_retry E (some sp) external.postgresql_id r.vault_retries
          r.vault_retry_delay w in
      let default =
        get_default_vault_credentials_with_retry E (some sp) r.vault_retries r.vault_retry_delay
          own.1 in
      elim (Result-cases own.0) [
        | inl (c, p) ↦ absurd (ground (arith, client))
        | inr (e, p) ↦ elim (Bool-cases (is_secret_not_found e)) [
          | inr other ↦ absurd (ground (arith, client))
          | inl absent ↦ elim (Result-cases default.0) [
            | inr (f, q) ↦ absurd (ground (arith, client))
            | inl ((login, password), q) ↦
                let (x, y) =
                  get_default_vault_credentials_with_retry_plain sp external.postgresql_id k
                    defaults r.vault_retries r.vault_retry_delay own.1 login password q in
                (ground (arith, client, x), ground (arith, client, y))
          ]
        ]
      ]

  store_instance_admin_credentials-HasAgreed :
      (w : World E) (login password : String)
      → r.vault_client ≡ some sp
      → is_agreed k w ≡ true
      → k.password (k.accounts w.state) login ≡ password
      → HasAgreed k w
          (store_instance_admin_credentials E r external.postgresql_id login password w).1
  unfolding store_instance_admin_credentials rotation_failures string_field
  store_instance_admin_credentials-HasAgreed w login password client agreed set =
      elim (store_vault_credentials_with_retry_stored sp external.postgresql_id k login password
        r.vault_retries r.vault_retry_delay w) [
          | inr (e, p, inl kept) ↦ inl (ground (arith, client, kept), ground (arith, client, kept))
          | inr (e, p, inr (s, a, f)) ↦
              inl (ground (arith, client, s, a, set, eq_refl password), ground (arith, client, f))
          | inl (p, s, a, f) ↦
              inl (ground (arith, client, s, a, set, eq_refl password), ground (arith, client, f))
        ]

  -- In a world with one server that asks for passwords, with a Vault client and with plain
  -- default credentials, if the administrator's login and password in Vault, where there are any,
  -- are those of the server before a round, then after it they are and no rotation has been
  -- counted as failed; or one has, on the server or in Vault, and the server's password is the
  -- one in the secret or the one that the secret asks for, where there are credentials.
  pub reconcile_external_instance-HasAgreed :
      (p : Postgresql) (w : World E)
      → r.vault_client ≡ some sp
      → HasPlainDefaults E sp
      → is_agreed k w ≡ true
      → HasAgreed k w (reconcile_external_instance E r p external w).1
  unfolding reconcile_external_instance
  reconcile_external_instance-HasAgreed p w client defaults agreed =
      let address = external.address <> ":" <> decimal (port_of external) in
      let c : Credentials = (resolve_instance_credentials E r external.postgresql_id w).0 in
      let w₁ : World E = (resolve_instance_credentials E r external.postgresql_id w).1 in
      let kept₁ : IsKept k w w₁ = resolve_instance_credentials-IsKept w client in
      let tested =
        test_connection E (server_at external c.login c.password) default_db r.connection_retries
          r.connection_timeout w₁ in
      let w₂ : World E = tested.1 in
      let w₃ : World E = (report_connection E r address tested.0 w₂).1 in
      let kept₃ : IsKept k w₂ w₃ = report_connection-IsKept r k address tested.0 w₂ in
      let (kept₂, result) =
        test_connection-IsKept sp external.postgresql_id k c.login c.password r.connection_retries
          r.connection_timeout w₁ in
      let before : IsKept k w w₃ = ground (arith, kept₁, kept₂, kept₃) in
      let agreed₃ : is_agreed k w₃ ≡ true = ground (arith, agreed, before) in
      let (updated, changed) =
        update_connection_status E p external.postgresql_id address tested.0 in
      elim result [
        | inr (e, q) ↦
            HasAgreed-IsKept k w w₃ w₃ (reconcile_external_instance E r p external w).1 before
              (inl (agreed₃, refl))
              (ground
                (arith, client, q, log_and_persist_status-IsKept r k updated address false w₃))
        | inl (q, right) ↦ elim (Bool-cases c.used_default) [
          | inl default ↦
              let (plain_login, plain_password) =
                resolve_instance_credentials_plain w client defaults default in
              let w₄ : World E =
                (store_instance_admin_credentials E r external.postgresql_id c.login c.password
                  w₃).1 in
              HasAgreed-IsKept k w w₃ w₄ (reconcile_external_instance E r p external w).1 before
                (store_instance_admin_credentials-HasAgreed w₃ c.login c.password client agreed₃
                  (ground (arith, right plain_login plain_password, kept₂, kept₃)))
                (ground (
                  arith,
                  client,
                  q,
                  default,
                  log_and_persist_status-IsKept r k updated address true w₄,
                ))
          | inr own ↦
              let w₄ : World E = (handle_instance_admin_password_rotation E r external w₃).1 in
              HasAgreed-IsKept k w w₃ w₄ (reconcile_external_instance E r p external w).1 before
                (handle_instance_admin_password_rotation-HasAgreed r external k w₃ client agreed₃)
                (ground (
                  arith,
                  client,
                  q,
                  own,
                  log_and_persist_status-IsKept r k updated address true w₄,
                ))
        ]
      ]
