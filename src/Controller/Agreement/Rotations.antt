-- ===== src/Controller/Agreement/Rotations.antt =====
-- The administrator's credentials in Vault and on the server over a rotation of the password
-- (internal/controller/postgresql_controller.go).
use k8s_postgresql_operator.Prelude.{
  String, ◌≡◌, true, some, ◌==◌, inl, inr, arith, Bool-cases, eq_refl,
}
use k8s_postgresql_operator.Api.{ExternalPostgresqlInstance}
use k8s_postgresql_operator.World.{Env, World, Data}
use k8s_postgresql_operator.Vault.{string_field, instance_admin_path}
use k8s_postgresql_operator.Postgres.Roles.{create_or_update_user}
use k8s_postgresql_operator.Retry.{
  get_vault_credentials_with_retry, get_instance_admin_new_password_with_retry,
  execute_operation_with_retry,
}
use k8s_postgresql_operator.Controller.{Reconciler}
use k8s_postgresql_operator.Controller.Instances.{
  server_at, rotate_in_vault, rotate_in_postgresql, handle_instance_admin_password_rotation,
}
use k8s_postgresql_operator.Controller.Agreement.{
  IsAccountWorld, is_agreed, is_known, HasAgreed, rotation_failures,
}
use k8s_postgresql_operator.Controller.Agreement.Steps.{
  get_vault_credentials_with_retry-IsKept, get_instance_admin_new_password_with_retry-IsKept,
}
use k8s_postgresql_operator.Controller.Agreement.Changes.{
  rotate_instance_admin_password_with_retry_stored,
}
use k8s_postgresql_operator.Controller.Agreement.Servers.{create_or_update_user_with_retry_set}

module _ {E : Env} {sp : String} (r : Reconciler) (external : ExternalPostgresqlInstance)
    (k : IsAccountWorld E (instance_admin_path sp external.postgresql_id) (server_at external))
    (client : r.vault_client ≡ some sp) where
  rotate_in_vault_known :
      (w : World E) (d : Data) (new : String)
      → k.secret w.state ≡ some d
      → string_field "new_password" d ≡ new
      → k.password (k.accounts w.state) (string_field "login" d) ≡ new
      → is_known k (rotate_in_vault E r external.postgresql_id new w).1 ≡ true
  unfolding rotate_in_vault string_field
  rotate_in_vault_known w d new found asked set =
      elim (rotate_instance_admin_password_with_retry_stored sp external.postgresql_id k new
        r.vault_retries r.vault_retry_delay w) [
          | inr (e, p, inl kept) ↦ ground (arith, client, kept, eq_refl new)
          | inr (e, p, inr (d', s, (t, a, f))) ↦ ground (arith, client, s, t, a, eq_refl new)
          | inl (d', p, s, t, a, f) ↦ ground (arith, client, s, t, a, eq_refl new)
        ]

  pub rotate_in_postgresql_known :
      (w : World E) (d : Data) (login current new : String)
      → k.secret w.state ≡ some d
      → string_field "login" d ≡ login
      → string_field "new_password" d ≡ new
      → is_known k w ≡ true
      → is_known k (rotate_in_postgresql E r external login current new w).1 ≡ true
  unfolding rotate_in_postgresql
  rotate_in_postgresql_known w d login current new found named asked known =
      let server = server_at external login current in
      let w₁ : World E =
        (execute_operation_with_retry E (create_or_update_user E server login new)
          r.connection_retries r.connection_timeout "rotateInstanceAdminPassword" w).1 in
      elim (create_or_update_user_with_retry_set sp external.postgresql_id k server login new
        "rotateInstanceAdminPassword" r.connection_retries r.connection_timeout w) [
          | inr (e, p, (s, inl same, f)) ↦ ground (arith, s, same)
          | inr (e, p, (s, inr set, f)) ↦ ground (arith, s, set, found, named, asked, eq_refl new)
          | inl (p, s, t, f) ↦ ground (
            arith,
            rotate_in_vault_known w₁ d new (ground (arith, s, found)) asked
                (ground (arith, t, named)),
          )
        ]

module _ {E : Env} {sp : String} (r : Reconciler) (external : ExternalPostgresqlInstance)
    (k : IsAccountWorld E
      (instance_admin_path sp external.postgresql_id)
      (server_at external)) where
  rotate_in_vault-HasAgreed :
      (w : World E) (d : Data) (new : String)
      → r.vault_client ≡ some sp
      → k.secret w.state ≡ some d
      → string_field "new_password" d ≡ new
      → k.password (k.accounts w.state) (string_field "login" d) ≡ new
      → HasAgreed k w (rotate_in_vault E r external.postgresql_id new w).1
  unfolding rotate_in_vault rotation_failures string_field
  rotate_in_vault-HasAgreed w d new client found asked set =
      let known = rotate_in_vault_known r external k client w d new found asked set in
      elim (rotate_instance_admin_password_with_retry_stored sp external.postgresql_id k new
        r.vault_retries r.vault_retry_delay w) [
          | inr (e, p, inl kept) ↦ inr (known, ground (arith, client, kept))
          | inr (e, p, inr (d', s, (t, a, f))) ↦ inr (known, ground (arith, client, f))
          | inl (d', p, s, t, a, f) ↦
              inl (ground (arith, client, s, t, a, eq_refl new), ground (arith, client, f))
        ]

  rotate_in_postgresql-HasAgreed :
      (w : World E) (d : Data) (login current new : String)
      → r.vault_client ≡ some sp
      → k.secret w.state ≡ some d
      → string_field "login" d ≡ login
      → string_field "new_password" d ≡ new
      → is_agreed k w ≡ true
      → HasAgreed k w (rotate_in_postgresql E r external login current new w).1
  unfolding rotate_in_postgresql rotation_failures
  rotate_in_postgresql-HasAgreed w d login current new client found named asked agreed =
      let known =
        rotate_in_postgresql_known r external k client w d login current new found named asked
          (ground (arith, agreed)) in
      let server = server_at external login current in
      let w₁ : World E =
        (execute_operation_with_retry E (create_or_update_user E server login new)
          r.connection_retries r.connection_timeout "rotateInstanceAdminPassword" w).1 in
      elim (create_or_update_user_with_retry_set sp external.postgresql_id k server login new
        "rotateInstanceAdminPassword" r.connection_retries r.connection_timeout w) [
          | inr (e, p, (s, a, f)) ↦ inr (known, ground (arith, f))
          | inl (p, s, t, f) ↦
              elim (rotate_in_vault-HasAgreed w₁ d new client (ground (arith, s, found)) asked
                (ground (arith, t, named))) [
                  | inl (a, n) ↦ inl (ground (arith, a), ground (arith, n, f))
                  | inr (a, n) ↦ inr (ground (arith, a), ground (arith, n, f))
                ]
        ]

  pub handle_instance_admin_password_rotation-HasAgreed :
      (w : World E)
      → r.vault_client ≡ some sp
      → is_agreed k w ≡ true
      → HasAgreed k w (handle_instance_admin_password_rotation E r external w).1
  unfolding handle_instance_admin_password_rotation
  handle_instance_admin_password_rotation-HasAgreed w client agreed =
      let w₁ : World E =
        (get_instance_admin_new_password_with_retry E (some sp) external.postgresql_id
          r.vault_retries r.vault_retry_delay w).1 in
      let w₂ : World E =
        (get_vault_credentials_with_retry E (some sp) external.postgresql_id r.vault_retries
          r.vault_retry_delay w₁).1 in
      let (kept, asked) =
        get_instance_admin_new_password_with_retry-IsKept sp external.postgresql_id k
          r.vault_retries r.vault_retry_delay w in
      elim asked [
        | inr (e, p) ↦ inl (ground (arith, client, kept), ground (arith, client, kept))
        | inl (d, new, p, found, wanted) ↦ elim (Bool-cases (new == "")) [
          | inl empty ↦ inl (ground (arith, client, kept), ground (arith, client, kept))
          | inr full ↦
              let (kept₂, current) =
                get_vault_credentials_with_retry-IsKept sp external.postgresql_id k r.vault_retries
                  r.vault_retry_delay w₁ in
              elim current [
                | inr (e, q) ↦
                    inl (ground (arith, client, kept, kept₂), ground (arith, client, kept, kept₂))
                | inl (d', login, password, q, found', named, secret, a, b) ↦
                    elim (rotate_in_postgresql-HasAgreed w₂ d login password new client
                      (ground (arith, found, kept, kept₂))
                      (ground (arith, found, found', named, kept)) wanted
                      (ground (arith, agreed, kept, kept₂))) [
                        | inl (x, n) ↦
                            inl (ground (arith, x, client), ground (arith, n, client, kept, kept₂))
                        | inr (x, n) ↦
                            inr (ground (arith, x, client), ground (arith, n, client, kept, kept₂))
                      ]
              ]
        ]
      ]
