-- ===== src/Startup/Config.antt =====
-- The configuration (internal/config/config.go), whose numbers are those that are not negative.
use k8s_postgresql_operator.Prelude.{ℕ, ◌*◌, ◌%◌, ◌^◌, String, Bool, true, false, List, [], ◌∷◌}
use k8s_postgresql_operator.Retry.{second}

-- `type Config struct`
pub record Config : Type 0 where
  pub webhook_cert_path : String
  pub webhook_cert_name : String
  pub webhook_cert_key : String
  pub webhook_server_port : ℕ
  pub webhook_server_addr : String
  pub webhook_k8s_service_name : String
  pub k8s_webhook_name_postgresql : String
  pub k8s_webhook_name_user : String
  pub k8s_webhook_name_database : String
  pub k8s_webhook_name_grant : String
  pub k8s_webhook_name_rolegroup : String
  pub k8s_webhook_name_schema : String
  pub enable_leader_election : Bool
  pub probe_addr : String
  pub vault_addr : String
  pub vault_role : String
  pub vault_mount_point : String
  pub vault_secret_path : String
  pub k8s_token_path : String
  pub k8s_namespace_path : String
  pub exclude_user_list : String
  pub postgresql_connection_retries : ℕ
  pub postgresql_connection_timeout_secs : ℕ
  pub vault_availability_retries : ℕ
  pub vault_availability_retry_delay_secs : ℕ
  pub vault_pki_enabled : Bool
  pub vault_pki_mount_path : String
  pub vault_pki_role : String
  pub vault_pki_ttl : String
  pub vault_pki_renewal_buffer : String
  pub metrics_collection_interval_secs : ℕ
  pub otlp_endpoint : String
  pub otlp_insecure : Bool

-- `New`
abbrev pub new : Config
new = record {
  webhook_cert_path = "";
  webhook_cert_name = "tls.crt";
  webhook_cert_key = "tls.key";
  webhook_server_port = 8443;
  webhook_server_addr = "0.0.0.0";
  webhook_k8s_service_name = "k8s-postgresql-operator-controller-service";
  k8s_webhook_name_postgresql = "k8s-postgresql-operator-validating-webhook-postgresql";
  k8s_webhook_name_user = "k8s-postgresql-operator-validating-webhook-user";
  k8s_webhook_name_database = "k8s-postgresql-operator-validating-webhook-database";
  k8s_webhook_name_grant = "k8s-postgresql-operator-validating-webhook-grant";
  k8s_webhook_name_rolegroup = "k8s-postgresql-operator-validating-webhook-rolegroup";
  k8s_webhook_name_schema = "k8s-postgresql-operator-validating-webhook-schema";
  enable_leader_election = false;
  probe_addr = ":8081";
  vault_addr = "";
  vault_role = "role";
  vault_mount_point = "secret";
  vault_secret_path = "pdb";
  k8s_token_path = "/var/run/secrets/kubernetes.io/serviceaccount/token";
  k8s_namespace_path = "/var/run/secrets/kubernetes.io/serviceaccount/namespace";
  exclude_user_list = "postgres";
  postgresql_connection_retries = 3;
  postgresql_connection_timeout_secs = 10;
  vault_availability_retries = 3;
  vault_availability_retry_delay_secs = 10;
  vault_pki_enabled = true;
  vault_pki_mount_path = "pki";
  vault_pki_role = "webhook-cert";
  vault_pki_ttl = "720h";
  vault_pki_renewal_buffer = "24h";
  metrics_collection_interval_secs = 30;
  otlp_endpoint = "";
  otlp_insecure = true;
}

-- The 64 bits of a number of seconds as a `time.Duration`.
abbrev seconds : ℕ → ℕ
seconds n = (n * second) % 2 ^ 64

-- `PostgresqlConnectionTimeout`
unfoldable pub postgresql_connection_timeout : Config → ℕ
postgresql_connection_timeout c = seconds c.postgresql_connection_timeout_secs

-- `VaultAvailabilityRetryDelay`
unfoldable pub vault_availability_retry_delay : Config → ℕ
vault_availability_retry_delay c = seconds c.vault_availability_retry_delay_secs

-- `MetricsCollectionInterval`
unfoldable pub metrics_collection_interval : Config → ℕ
metrics_collection_interval c = seconds c.metrics_collection_interval_secs

-- `SetupWebhooksList`
unfoldable pub setup_webhooks_list : Config → List String
setup_webhooks_list c =
    c.k8s_webhook_name_postgresql ∷ c.k8s_webhook_name_user ∷ c.k8s_webhook_name_database
    ∷ c.k8s_webhook_name_grant ∷ c.k8s_webhook_name_rolegroup ∷ c.k8s_webhook_name_schema ∷ []
