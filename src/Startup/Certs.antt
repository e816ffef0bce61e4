-- ===== src/Startup/Certs.antt =====
-- The set-up of the certificates calls neither controller-runtime nor OpenTelemetry
-- (internal/k8s/k8s.go, internal/cert).
use k8s_postgresql_operator.Prelude.{String, refl, inl, inr, List, [], ◌∷◌, arith, none, some, ◌<>◌}
use k8s_postgresql_operator.World.{Env, World, Action, Result-cases, call}
use k8s_postgresql_operator.Certificates.{make_directory}
use k8s_postgresql_operator.Certificates.Pki.{
  Manager, write_pki_cert_files, report_expiry, issue_certificate_and_write_to_disk,
  get_ca_certificate_pem,
}
use k8s_postgresql_operator.Vault.Pki.{issue_certificate, get_ca_certificate}
use k8s_postgresql_operator.Startup.Config.{Config}
use k8s_postgresql_operator.Startup.Webhooks.{
  update_each, update_webhook_configuration_with_ca_bundle, update_webhook_ca_bundle_from_pem,
  put_ca_bundle,
}
use k8s_postgresql_operator.Startup.Order.{calls, IsSilent}
use k8s_postgresql_operator.Certificates.SelfSigned.{
  create_and_write, write_cert_from_secret, template_of, store_secret, store_certificate,
  sign_and_store, generate_and_store, reuse_secret, generate_self_signed_cert_and_store_in_secret,
}
use k8s_postgresql_operator.Startup.Webhooks.{
  get_current_namespace, setup_webhook_certificates_internal,
  setup_webhook_certificates_with_vault_pki_internal,
}
use k8s_postgresql_operator.Startup.Entry.{setup_vault_pki_certs, resolve_webhook_certs}
use k8s_postgresql_operator.Certificates.Pki.{new_manager}
use k8s_postgresql_operator.World.{secret_get, crypto, make_dir}
use k8s_postgresql_operator.Retry.{VaultClient}

pub update_each-IsSilent :
    {E : Env} (update : String → Action E (Unit {0}))
    → ((name : String) → IsSilent (update name))
    → (names : List String) → IsSilent (update_each E update names)
unfolding update_each
update_each-IsSilent update h [] w = refl
update_each-IsSilent {E} update h (name ∷ names) w =
    let w₁ : World E = (update name w).1 in
    ground (arith, h name w, update_each-IsSilent update h names w₁)

put_ca_bundle-IsSilent :
    {E : Env} (missing bundle name : String) → IsSilent (put_ca_bundle E missing bundle name)
unfolding put_ca_bundle calls
put_ca_bundle-IsSilent missing bundle name w = ground (arith)

update_webhook_configuration_with_ca_bundle-IsSilent :
    {E : Env} (s n name : String)
    → IsSilent (update_webhook_configuration_with_ca_bundle E s n name)
unfolding update_webhook_configuration_with_ca_bundle put_ca_bundle calls
update_webhook_configuration_with_ca_bundle-IsSilent s n name w = ground (arith)

update_webhook_ca_bundle_from_pem-IsSilent :
    {E : Env} (bundle name : String) → IsSilent (update_webhook_ca_bundle_from_pem E bundle name)
unfolding update_webhook_ca_bundle_from_pem put_ca_bundle calls
update_webhook_ca_bundle_from_pem-IsSilent bundle name w = ground (arith)

module _ {E : Env} where
  write_cert_from_secret-IsSilent :
      (secret : List (String × String)) (cert_path key_path : String)
      → IsSilent (write_cert_from_secret E secret cert_path key_path)
  unfolding write_cert_from_secret create_and_write calls
  write_cert_from_secret-IsSilent secret cert_path key_path w = ground (arith)

  reuse_secret-IsSilent :
      (namespace secret_name cert_path key_path : String)
      → IsSilent (reuse_secret E namespace secret_name cert_path key_path)
  unfolding reuse_secret calls
  reuse_secret-IsSilent namespace secret_name cert_path key_path w =
      let w₁ : World E =
        (call (secret_get namespace secret_name) (E.platform.get_k8s_secret namespace secret_name)
          w).1 in
      elim (Result-cases (E.platform.get_k8s_secret namespace secret_name w.state).0) [
        | inl (none, p) ↦ ground (arith)
        | inl (some d, p) ↦ ground (arith, write_cert_from_secret-IsSilent d cert_path key_path w₁)
        | inr (e, p) ↦ ground (arith)
      ]

  generate_and_store-IsSilent :
      (service_name namespace secret_name cert_path key_path : String)
      → IsSilent (generate_and_store E service_name namespace secret_name cert_path key_path)
  unfolding generate_and_store sign_and_store store_certificate template_of store_secret
      create_and_write calls
  generate_and_store-IsSilent service_name namespace secret_name cert_path key_path w =
      ground (arith)

  generate_self_signed_cert_and_store_in_secret-IsSilent :
      (service_name namespace secret_name cert_dir : String)
      → IsSilent (
          generate_self_signed_cert_and_store_in_secret E service_name namespace secret_name
            cert_dir)
  unfolding generate_self_signed_cert_and_store_in_secret calls
  generate_self_signed_cert_and_store_in_secret-IsSilent service_name namespace secret_name cert_dir
        w =
      let cert_path = E.platform.join_path cert_dir "tls.crt" in
      let key_path = E.platform.join_path cert_dir "tls.key" in
      let w₁ : World E = (make_directory E cert_dir w).1 in
      let w₂ : World E = (call (crypto "kubernetes.NewForConfig") E.platform.clientset w₁).1 in
      let w₃ : World E = (reuse_secret E namespace secret_name cert_path key_path w₂).1 in
      ground (
        arith,
        reuse_secret-IsSilent namespace secret_name cert_path key_path w₂,
        generate_and_store-IsSilent service_name namespace secret_name cert_path key_path w₃,
      )

  get_current_namespace-IsSilent : (f : String) → IsSilent (get_current_namespace E f)
  unfolding get_current_namespace calls
  get_current_namespace-IsSilent f w = ground (arith)

  setup_webhook_certificates_internal-IsSilent :
      (cfg : Config) (names : List String)
      → IsSilent (setup_webhook_certificates_internal E cfg names)
  unfolding setup_webhook_certificates_internal calls
  setup_webhook_certificates_internal-IsSilent cfg names w =
      let w₁ : World E =
        (call (make_dir "webhook-certs-") (E.platform.make_temp_dir "webhook-certs-") w).1 in
      let namespace : String = (get_current_namespace E cfg.k8s_namespace_path w₁).0 in
      let w₂ : World E = (get_current_namespace E cfg.k8s_namespace_path w₁).1 in
      let secret_name = cfg.webhook_k8s_service_name <> "-webhook-cert" in
      elim (Result-cases (E.platform.make_temp_dir "webhook-certs-" w.state).0) [
        | inr (e, p) ↦ ground (arith)
        | inl (dir, p) ↦
            let w₃ : World E =
              (generate_self_signed_cert_and_store_in_secret E cfg.webhook_k8s_service_name
                namespace secret_name dir w₂).1 in
            let update = update_webhook_configuration_with_ca_bundle E secret_name namespace in
            ground (
              arith,
              get_current_namespace-IsSilent cfg.k8s_namespace_path w₁,
              generate_self_signed_cert_and_store_in_secret-IsSilent cfg.webhook_k8s_service_name
                  namespace secret_name dir w₂,
              update_each-IsSilent update
                  (update_webhook_configuration_with_ca_bundle-IsSilent secret_name namespace) names
                  w₃,
            )
      ]

  issue_certificate_and_write_to_disk-IsSilent :
      (m : Manager) → IsSilent (issue_certificate_and_write_to_disk E m)
  unfolding issue_certificate_and_write_to_disk issue_certificate write_pki_cert_files report_expiry
      calls
  issue_certificate_and_write_to_disk-IsSilent m w = ground (arith)

  get_ca_certificate_pem-IsSilent : (m : Manager) → IsSilent (get_ca_certificate_pem E m)
  unfolding get_ca_certificate_pem get_ca_certificate calls
  get_ca_certificate_pem-IsSilent m w = ground (arith)

  setup_webhook_certificates_with_vault_pki_internal-IsSilent :
      (m : Manager) (names : List String)
      → IsSilent (setup_webhook_certificates_with_vault_pki_internal E m names)
  unfolding setup_webhook_certificates_with_vault_pki_internal
  setup_webhook_certificates_with_vault_pki_internal-IsSilent m names w =
      let w₁ : World E = (issue_certificate_and_write_to_disk E m w).1 in
      let w₂ : World E = (get_ca_certificate_pem E m w₁).1 in
      elim (Result-cases (get_ca_certificate_pem E m w₁).0) [
        | inr (e, p) ↦ ground (
          arith,
          issue_certificate_and_write_to_disk-IsSilent m w,
          get_ca_certificate_pem-IsSilent m w₁,
        )
        | inl (bundle, p) ↦ ground (
          arith,
          issue_certificate_and_write_to_disk-IsSilent m w,
          get_ca_certificate_pem-IsSilent m w₁,
          update_each-IsSilent (update_webhook_ca_bundle_from_pem E bundle)
              (update_webhook_ca_bundle_from_pem-IsSilent bundle) names w₂,
        )
      ]

  setup_vault_pki_certs-IsSilent :
      (cfg : Config) (names : List String) → IsSilent (setup_vault_pki_certs E cfg names)
  unfolding setup_vault_pki_certs calls
  setup_vault_pki_certs-IsSilent cfg names w =
      elim (Result-cases (E.platform.parse_duration cfg.vault_pki_renewal_buffer)) [
        | inr (e, p) ↦ ground (arith)
        | inl (buffer, p) ↦
            let namespace : String = (get_current_namespace E cfg.k8s_namespace_path w).0 in
            let w₁ : World E = (get_current_namespace E cfg.k8s_namespace_path w).1 in
            let w₂ : World E =
              (call (make_dir "vault-pki-certs-") (E.platform.make_temp_dir "vault-pki-certs-")
                w₁).1 in
            elim (Result-cases (E.platform.make_temp_dir "vault-pki-certs-" w₁.state).0) [
              | inr (e, q) ↦ ground (arith, get_current_namespace-IsSilent cfg.k8s_namespace_path w)
              | inl (dir, q) ↦
                  let m : Manager =
                    new_manager E cfg.vault_pki_mount_path cfg.vault_pki_role cfg.vault_pki_ttl
                      buffer cfg.webhook_k8s_service_name namespace dir in
                  ground (
                    arith,
                    get_current_namespace-IsSilent cfg.k8s_namespace_path w,
                    setup_webhook_certificates_with_vault_pki_internal-IsSilent m names w₂,
                  )
            ]
      ]

  pub resolve_webhook_certs-IsSilent :
      (cfg : Config) (vault_client : VaultClient) (names : List String)
      → IsSilent (resolve_webhook_certs E cfg vault_client names)
  unfolding resolve_webhook_certs
  resolve_webhook_certs-IsSilent cfg none names w =
      ground (arith, setup_webhook_certificates_internal-IsSilent cfg names w)
  resolve_webhook_certs-IsSilent cfg (some c) names w = ground (
    arith,
    setup_webhook_certificates_internal-IsSilent cfg names w,
    setup_vault_pki_certs-IsSilent cfg names w,
  )
