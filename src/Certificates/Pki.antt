-- ===== src/Certificates/Pki.antt =====
-- Certificates from Vault PKI (internal/cert/vault_pki.go, up to GetCACertificatePEM). The manager's
-- lock is left out: one call runs at a time.
use k8s_postgresql_operator.Prelude.{ℕ, String, ◌<>◌, none, some, [], ◌∷◌, join}
use k8s_postgresql_operator.Errors.{wrapped}
use k8s_postgresql_operator.World.{Env, M, Action, ok, err, now, expiry, call, note, map_err}
use k8s_postgresql_operator.World.Fallible.{◌>>=◌, ◌>>◌}
use k8s_postgresql_operator.Vault.Pki.{PkiCertificate, issue_certificate, get_ca_certificate}
use k8s_postgresql_operator.Certificates.{build_alt_names, write_file, make_directory}

-- `VaultPKIManager`
pub record Manager : Type 0 where
  pub mount_path : String
  pub role_name : String
  pub ttl : String
  pub renewal_buffer : ℕ
  pub service_name : String
  pub namespace : String
  pub cert_dir : String
  pub cert_path : String
  pub key_path : String
  pub ca_path : String

module _ (E : Env) where
  -- `NewVaultPKIManager`
  unfoldable pub new_manager : String → String → String → ℕ → String → String → String → Manager
  new_manager mount_path role_name ttl renewal_buffer service_name namespace cert_dir = record {
    mount_path = mount_path;
    role_name = role_name;
    ttl = ttl;
    renewal_buffer = renewal_buffer;
    service_name = service_name;
    namespace = namespace;
    cert_dir = cert_dir;
    cert_path = E.platform.join_path cert_dir "tls.crt";
    key_path = E.platform.join_path cert_dir "tls.key";
    ca_path = E.platform.join_path cert_dir "ca.crt";
  }

  -- `writePKICertFiles`: the key, the chain, and the certificate last.
  unfoldable pub write_pki_cert_files :
      PkiCertificate → String → String → String → Action E (Unit {0})
  write_pki_cert_files pki_cert cert_path key_path ca_path = do
    map_err (wrapped ("failed to write private key to " <> key_path))
        (write_file E key_path pki_cert.private_key)
    map_err (wrapped ("failed to write CA chain to " <> ca_path))
        (write_file E ca_path (join "\n" pki_cert.ca_chain))
    map_err (wrapped ("failed to write certificate to " <> cert_path))
        (write_file E cert_path pki_cert.certificate)

  -- `metrics.SetCertificateExpiry`, with `time.Until`
  abbrev pub set_certificate_expiry : String → ℕ → M E (Unit {0})
  set_certificate_expiry source not_after w =
      let (t, w₁) = call now E.now_time w in note (expiry source not_after t) w₁

  -- The metric of a certificate that can be decoded and parsed.
  unfoldable pub report_expiry : String → M E (Unit {0})
  report_expiry certificate w = elim (E.platform.decode_pem certificate) [
    | none ↦ (tt, w)
    | some block ↦ elim (E.platform.parse_certificate block) [
      | err e ↦ (tt, w)
      | ok not_after ↦ set_certificate_expiry "vault_pki" not_after w
    ]
  ]

  -- `IssueCertificateAndWriteToDisk`
  unfoldable pub issue_certificate_and_write_to_disk : Manager → Action E (Unit {0})
  unfolding build_alt_names
  issue_certificate_and_write_to_disk m =
      let common_name = m.service_name <> "." <> m.namespace <> ".svc" in
      do
        pki_cert ← map_err (wrapped "failed to issue certificate from Vault PKI") (
            issue_certificate E m.mount_path m.role_name common_name
              (build_alt_names m.service_name m.namespace) ("127.0.0.1" ∷ []) m.ttl)
        map_err (wrapped ("failed to create cert directory " <> m.cert_dir))
            (make_directory E m.cert_dir)
        write_pki_cert_files pki_cert m.cert_path m.key_path m.ca_path
        λ w. (ok tt, (report_expiry pki_cert.certificate w).1)

  -- `GetCACertificatePEM`
  unfoldable pub get_ca_certificate_pem : Manager → Action E String
  get_ca_certificate_pem m =
      map_err (wrapped "failed to get CA certificate from Vault PKI")
        (get_ca_certificate E m.mount_path)
