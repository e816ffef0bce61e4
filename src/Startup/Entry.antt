-- ===== src/Startup/Entry.antt =====
-- The entry point (cmd/main.go) and what it hands on: an error, which is logged, ends the process
-- with status 1.
use k8s_postgresql_operator.Prelude.{
  String, ◌&&◌, Option, none, some, List, [], map, ◌==◌, if◌then◌else◌,
}
use k8s_postgresql_operator.World.{Env, Action, ok, make_dir, call, return_ok}
use k8s_postgresql_operator.World.Fallible.{◌>>=◌}
use k8s_postgresql_operator.Vault.Pki.{new_client}
use k8s_postgresql_operator.Retry.{VaultClient}
use k8s_postgresql_operator.Certificates.Pki.{Manager, new_manager}
use k8s_postgresql_operator.Controller.{Reconciler}
use k8s_postgresql_operator.Webhook.{Validator}
use k8s_postgresql_operator.Startup.Texts.{split_commas, trim_space}
use k8s_postgresql_operator.Startup.Config.{
  Config, postgresql_connection_timeout, vault_availability_retry_delay,
}
use k8s_postgresql_operator.Startup.Webhooks.{
  get_current_namespace, setup_webhook_certificates_internal,
  setup_webhook_certificates_with_vault_pki_internal,
}

-- The paths of the webhooks' certificate and key, and the manager whose renewal was started.
pub record WebhookCerts : Type 0 where
  pub cert_path : String
  pub key_path : String
  pub renewing : Option Manager

-- `NewBaseReconcilerConfig`, which `SetupControllers` gives to each reconciler
unfoldable pub new_base_reconciler_config : VaultClient → Config → Reconciler
unfolding postgresql_connection_timeout vault_availability_retry_delay
new_base_reconciler_config vault_client cfg = record {
  vault_client = vault_client;
  connection_retries = cfg.postgresql_connection_retries;
  connection_timeout = postgresql_connection_timeout cfg;
  vault_retries = cfg.vault_availability_retries;
  vault_retry_delay = vault_availability_retry_delay cfg;
}

-- `NewBaseValidatorConfig`, which `RegisterWebhooks` gives to each validator
unfoldable pub new_base_validator_config : VaultClient → Config → Validator
unfolding postgresql_connection_timeout vault_availability_retry_delay
new_base_validator_config vault_client cfg = record {
  vault_client = vault_client;
  connection_retries = cfg.postgresql_connection_retries;
  connection_timeout = postgresql_connection_timeout cfg;
  vault_retries = cfg.vault_availability_retries;
  vault_retry_delay = vault_availability_retry_delay cfg;
}

-- `parseExcludeUserList`
unfoldable pub parse_exclude_user_list : Config → List String
unfolding split_commas trim_space
parse_exclude_user_list cfg =
    if cfg.exclude_user_list == "" then [] else map trim_space (split_commas cfg.exclude_user_list)

module _ (E : Env) where
  -- `initVaultClient`
  unfoldable pub init_vault_client : Config → Action E VaultClient
  init_vault_client cfg =
      if cfg.vault_addr == ""
      then return_ok none
      else new_client E cfg.vault_addr cfg.vault_role cfg.k8s_token_path cfg.vault_secret_path
        >>= λ client. return_ok (some client)

  -- `setupVaultPKICerts`
  unfoldable pub setup_vault_pki_certs : Config → List String → Action E WebhookCerts
  setup_vault_pki_certs cfg webhook_names = do
    renewal_buffer ← λ w. (E.platform.parse_duration cfg.vault_pki_renewal_buffer, w)
    namespace ← λ w. let (ns, w₁) = get_current_namespace E cfg.k8s_namespace_path w in (ok ns, w₁)
    temp_cert_dir ← call (make_dir "vault-pki-certs-") (E.platform.make_temp_dir "vault-pki-certs-")
    let m =
        new_manager E cfg.vault_pki_mount_path cfg.vault_pki_role cfg.vault_pki_ttl renewal_buffer
          cfg.webhook_k8s_service_name namespace temp_cert_dir
    paths ← setup_webhook_certificates_with_vault_pki_internal E m webhook_names
    return_ok (record { cert_path = paths.0; key_path = paths.1; renewing = some m })

  -- `resolveWebhookCerts`
  unfoldable pub resolve_webhook_certs : Config → VaultClient → List String → Action E WebhookCerts
  unfolding setup_vault_pki_certs
  resolve_webhook_certs cfg vault_client webhook_names = elim vault_client [
    | some client ↦
        if cfg.vault_pki_enabled && cfg.webhook_cert_path == ""
        then setup_vault_pki_certs cfg webhook_names
        else provided cfg webhook_names
    | none ↦ provided cfg webhook_names
  ]
    where
      provided : Config → List String → Action E WebhookCerts
      provided cfg names = do
        paths ← setup_webhook_certificates_internal E cfg names
        return_ok (record { cert_path = paths.0; key_path = paths.1; renewing = none })
