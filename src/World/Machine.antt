-- ===== src/World/Machine.antt =====
-- The outside that the operator meets at its start: files, Vault's login and logical interface,
-- client-go, and the crypto library.
use k8s_postgresql_operator.Prelude.{ℕ, String, Bool, Option, List}
use k8s_postgresql_operator.World.Values.{
  Result, Answers, WebhookConfiguration, CertificateTemplate,
}

pub record Platform (S : Type 0) : Type 0 where
  -- `os.ReadFile`, `os.WriteFile`, `os.Create`, a `Write` to the file created, `os.MkdirAll`,
  -- `os.MkdirTemp`.
  pub read_file : String → S → Result String × S
  pub write_file : String → String → S → Result (Unit {0}) × S
  pub create_file : String → S → Result (Unit {0}) × S
  pub append_file : String → String → S → Result (Unit {0}) × S
  pub make_dir : String → S → Result (Unit {0}) × S
  pub make_temp_dir : String → S → Result String × S
  -- Vault's `NewClient` by address, `NewKubernetesAuth` by role and token, and `Login`, whose
  -- `ok false` is empty auth info.
  pub vault_client : String → S → Result (Unit {0}) × S
  pub kubernetes_auth : String → String → S → Result (Unit {0}) × S
  pub login : String → S → Result Bool × S
  -- `Logical().Write` and `Logical().Read`: `none` is a nil secret or nil data.
  pub logical_write : String → List (String × String) → S → Result (Option Answers) × S
  pub logical_read : String → S → Result (Option Answers) × S
  -- `kubernetes.NewForConfig`; secrets by namespace and name (`ok none` is a nil secret);
  -- webhook configurations by name.
  pub clientset : S → Result (Unit {0}) × S
  pub get_k8s_secret : String → String → S → Result (Option (List (String × String))) × S
  pub create_k8s_secret : String → String → List (String × String) → S → Result (Unit {0}) × S
  pub update_k8s_secret : String → String → List (String × String) → S → Result (Unit {0}) × S
  pub get_webhook : String → S → Result WebhookConfiguration × S
  pub update_webhook : String → WebhookConfiguration → S → Result (Unit {0}) × S
  -- A private key; a certificate for a template and a key; and their texts.
  pub generate_key : S → Result String × S
  pub create_certificate : CertificateTemplate → String → S → Result String × S
  pub certificate_pem : String → String
  pub key_pem : String → String
  -- `pem.Decode`, and the end of validity that `x509.ParseCertificate` reads.
  pub decode_pem : String → Option String
  pub parse_certificate : String → Result ℕ
  -- `filepath.Join` and `time.ParseDuration`.
  pub join_path : String → String → String
  pub parse_duration : String → Result ℕ
  -- The renewal's `select`: whether the stop channel or the context ends the wait.
  pub wait_or_stop : ℕ → S → Bool × S
