-- ===== src/Startup/Webhooks.antt =====
-- The certificates of the webhooks and the bundles of their configurations
-- (internal/k8s/k8s.go). The kubeconfig is left out, and an error of the two set-ups ends the
-- process.
use k8s_postgresql_operator.Prelude.{
  String, ◌<>◌, Option, none, some, List, [], ◌∷◌, ◌==◌, if◌then◌else◌,
}
use k8s_postgresql_operator.Errors.{plain, wrapped}
use k8s_postgresql_operator.World.{
  Env, M, Action, Result, ok, err, WebhookEntry, WebhookConfiguration, make_dir, secret_get,
  webhook_get, webhook_update, crypto, call, return_ok, fail, map_err,
}
use k8s_postgresql_operator.World.Fallible.{◌>>=◌, ◌>>◌}
use k8s_postgresql_operator.Certificates.{read_file}
use k8s_postgresql_operator.Certificates.SelfSigned.{
  entry, generate_self_signed_cert_and_store_in_secret,
}
use k8s_postgresql_operator.Certificates.Pki.{
  Manager, issue_certificate_and_write_to_disk, get_ca_certificate_pem,
}
use k8s_postgresql_operator.Startup.Texts.{trim_space}
use k8s_postgresql_operator.Startup.Config.{Config}

abbrev pub operator_webhook : String
operator_webhook = "postgresql-operator.vyrodovalexey.github.com"

abbrev pub in_front : WebhookEntry → Option WebhookConfiguration → Option WebhookConfiguration
in_front h none = none
in_front h (some hs) = some (h ∷ hs)

-- The loop over the webhooks: the first of the operator's name gets the bundle; `none` where
-- there is none.
unfoldable pub set_ca_bundle : String → WebhookConfiguration → Option WebhookConfiguration
set_ca_bundle bundle [] = none
set_ca_bundle bundle (h ∷ rest) =
    let more = in_front h (set_ca_bundle bundle rest) in
    if h.name == operator_webhook then some (record h { ca_bundle = bundle } ∷ rest) else more

module _ (E : Env) where
  -- `GetCurrentNamespace`
  unfoldable pub get_current_namespace : String → M E String
  get_current_namespace namespace_file w =
      let (content, w₁) = read_file E namespace_file w in
      elim content [
        | err e ↦ ("k8s-postgresql-operator", w₁)
        | ok d ↦ let ns = trim_space d in (if ns == "" then "k8s-postgresql-operator" else ns, w₁)
      ]

  abbrev new_clientset : Action E (Unit {0})
  new_clientset =
      map_err (wrapped "failed to create Kubernetes client")
        (call (crypto "kubernetes.NewForConfig") E.platform.clientset)

  -- The end of both updates: the configuration is read, changed and written.
  unfoldable pub put_ca_bundle : String → String → String → Action E (Unit {0})
  unfolding set_ca_bundle
  put_ca_bundle missing bundle webhook_name = do
    configuration ←
        map_err (wrapped "failed to get ValidatingWebhookConfiguration")
          (call (webhook_get webhook_name) (E.platform.get_webhook webhook_name))
    elim (set_ca_bundle bundle configuration) [
      | none ↦ fail (plain missing)
      | some changed ↦ map_err (wrapped "failed to update ValidatingWebhookConfiguration") (
          call (webhook_update webhook_name changed)
            (E.platform.update_webhook webhook_name changed))
    ]

  -- The entry `tls.crt` of a secret. A nil secret, which client-go gives with an error only,
  -- would panic.
  abbrev certificate_of : String → Option (List (String × String)) → Result String
  certificate_of secret_name none = err (plain "nil pointer dereference")
  certificate_of secret_name (some d) = elim (entry "tls.crt" d) [
    | none ↦ err (plain ("tls.crt not found in secret " <> secret_name))
    | some bundle ↦ ok bundle
  ]

  -- `UpdateWebhookConfigurationWithCABundle`
  unfoldable pub update_webhook_configuration_with_ca_bundle :
      String → String → String → Action E (Unit {0})
  unfolding put_ca_bundle
  update_webhook_configuration_with_ca_bundle secret_name namespace webhook_name = do
    new_clientset
    secret ←
        map_err (wrapped "failed to get secret") (
          call (secret_get namespace secret_name) (E.platform.get_k8s_secret namespace secret_name))
    bundle ← λ w. (certificate_of secret_name secret, w)
    put_ca_bundle
        ("webhook '" <> operator_webhook <> "' not found in ValidatingWebhookConfiguration") bundle
        webhook_name

  -- `UpdateWebhookCABundleFromPEM`
  unfoldable pub update_webhook_ca_bundle_from_pem : String → String → Action E (Unit {0})
  unfolding put_ca_bundle
  update_webhook_ca_bundle_from_pem bundle webhook_name =
      new_clientset
      >> put_ca_bundle ("webhook '" <> operator_webhook <> "' not found in webhook configuration")
          bundle webhook_name

  -- The loops over the configurations: an error is only logged.
  unfoldable pub update_each : (String → Action E (Unit {0})) → List String → M E (Unit {0})
  update_each update [] w = (tt, w)
  update_each update (name ∷ names) w = update_each update names (update name w).1

  -- `setupWebhookCertificatesInternal`: the paths of the certificate and of the key.
  unfoldable pub setup_webhook_certificates_internal :
      Config → List String → Action E (String × String)
  setup_webhook_certificates_internal cfg webhook_names =
      if cfg.webhook_cert_path == ""
      then (do
        temp_cert_dir ←
            map_err (wrapped "failed to create temporary directory for webhook certificates")
              (call (make_dir "webhook-certs-") (E.platform.make_temp_dir "webhook-certs-"))
        namespace ←
            λ w. let (ns, w₁) = get_current_namespace cfg.k8s_namespace_path w in (ok ns, w₁)
        let secret_name = cfg.webhook_k8s_service_name <> "-webhook-cert"
        paths ← map_err (wrapped "failed to generate self-signed webhook certificates") (
            generate_self_signed_cert_and_store_in_secret E cfg.webhook_k8s_service_name namespace
              secret_name temp_cert_dir)
        λ w.
            let updated =
              update_each (update_webhook_configuration_with_ca_bundle secret_name namespace)
                webhook_names w in
            (ok paths, updated.1))
      else return_ok (
        E.platform.join_path cfg.webhook_cert_path cfg.webhook_cert_name,
        E.platform.join_path cfg.webhook_cert_path cfg.webhook_cert_key,
      )

  -- `setupWebhookCertificatesWithVaultPKIInternal`: the paths of the certificate and of the key.
  unfoldable pub setup_webhook_certificates_with_vault_pki_internal :
      Manager → List String → Action E (String × String)
  setup_webhook_certificates_with_vault_pki_internal m webhook_names = do
    map_err (wrapped "failed to issue Vault PKI certificate")
        (issue_certificate_and_write_to_disk E m)
    bundle ← map_err (wrapped "failed to get Vault PKI CA certificate") (get_ca_certificate_pem E m)
    λ w.
        let updated = update_each (update_webhook_ca_bundle_from_pem bundle) webhook_names w in
        (ok (m.cert_path, m.key_path), updated.1)
