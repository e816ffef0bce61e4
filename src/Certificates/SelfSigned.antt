-- ===== src/Certificates/SelfSigned.antt =====
-- Self-signed certificates (internal/cert/cert.go).
use k8s_postgresql_operator.Prelude.{
  ℕ, ◌+◌, ◌*◌, ◌^◌, String, ◌<>◌, Bool, true, false, Option, none, some, List, [], ◌∷◌, ◌==◌,
  if◌then◌else◌,
}
use k8s_postgresql_operator.Errors.{wrapped}
use k8s_postgresql_operator.World.{
  Env, M, Action, ok, err, CertificateTemplate, secret_get, secret_create, secret_update, crypto,
  random, now, expiry, call, note, return_ok, map_err,
}
use k8s_postgresql_operator.World.Fallible.{◌>>=◌, ◌>>◌}
use k8s_postgresql_operator.Retry.{second}
use k8s_postgresql_operator.Certificates.{build_alt_names, create_file, append_file, make_directory}

-- `secret.Data[key]`
unfoldable pub entry : String → List (String × String) → Option String
entry key [] = none
entry key ((k, v) ∷ rest) = if k == key then some v else entry key rest

abbrev pub year : ℕ
year = 365 * 24 * 3600 * second

-- The certificate and the key as the secret holds them.
abbrev pub tls_data : String → String → List (String × String)
tls_data cert_pem key_pem = ("tls.crt", cert_pem) ∷ ("tls.key", key_pem) ∷ []

module _ (E : Env) where
  -- A file created and written.
  unfoldable pub create_and_write : String → String → String → String → Action E (Unit {0})
  create_and_write uncreated unwritten path content =
      map_err (wrapped uncreated) (create_file E path)
      >> map_err (wrapped unwritten) (append_file E path content)

  -- `writeCertFromSecret`: whether the secret has both entries and both files were written.
  unfoldable pub write_cert_from_secret : List (String × String) → String → String → M E Bool
  unfolding entry create_and_write
  write_cert_from_secret secret cert_path key_path w = elim (entry "tls.crt" secret) [
    | none ↦ (false, w)
    | some cert_data ↦ elim (entry "tls.key" secret) [
      | none ↦ (false, w)
      | some key_data ↦
          let (r, w₁) =
            (create_and_write "" "" cert_path cert_data >> create_and_write "" "" key_path key_data)
              w in
          elim r [ ok u ↦ (true, w₁) | err e ↦ (false, w₁) ]
    ]
  ]

  -- The template of the new certificate.
  unfoldable pub template_of : String → String → ℕ → M E CertificateTemplate
  unfolding build_alt_names
  template_of service_name namespace serial w =
      let (t₁, w₁) = call now E.now_time w in
      let (t₂, w₂) = call now E.now_time w₁ in
      (
        record {
          serial = serial;
          common_name = service_name <> "." <> namespace <> ".svc";
          organization = "postgresql-operator.vyrodovalexey.github.com" ∷ [];
          not_before = t₁;
          not_after = t₂ + year;
          dns_names = build_alt_names service_name namespace;
          ip_addresses = "127.0.0.1" ∷ [];
        },
        w₂,
      )

  -- `Create` on the secret, and `Update` where that fails.
  unfoldable pub store_secret : String → String → List (String × String) → Action E (Unit {0})
  store_secret namespace secret_name d w =
      let (created, w₁) =
        call (secret_create namespace secret_name d)
          (E.platform.create_k8s_secret namespace secret_name d) w in
      elim created [
        | ok u ↦ (ok tt, w₁)
        | err e ↦
            map_err (wrapped "failed to create/update secret")
              (call (secret_update namespace secret_name d)
                (E.platform.update_k8s_secret namespace secret_name d))
              w₁
      ]

  -- The end of `GenerateSelfSignedCertAndStoreInSecret`: the secret, and then the files.
  unfoldable pub store_certificate :
      String → String → String → String → String → String → Action E (Unit {0})
  unfolding create_and_write
  store_certificate namespace secret_name cert_path key_path cert_pem key_pem = do
    store_secret namespace secret_name (tls_data cert_pem key_pem)
    create_and_write "failed to create cert file" "failed to write certificate" cert_path cert_pem
    create_and_write "failed to create key file" "failed to write private key" key_path key_pem

  -- Its part from the signature on.
  unfoldable pub sign_and_store :
      String → String → String → String → String → CertificateTemplate → Action E (Unit {0})
  sign_and_store namespace secret_name cert_path key_path private_key template = do
    cert_der ← map_err (wrapped "failed to create certificate") (
        call (crypto "x509.CreateCertificate") (E.platform.create_certificate template private_key))
    λ w.
        let (t, w₁) = call now E.now_time w in
        (ok tt, (note (expiry "self_signed" template.not_after t) w₁).1)
    store_certificate namespace secret_name cert_path key_path (E.platform.certificate_pem cert_der)
        (E.platform.key_pem private_key)

  -- The part that makes a certificate and stores it.
  unfoldable pub generate_and_store :
      String → String → String → String → String → Action E (Unit {0})
  generate_and_store service_name namespace secret_name cert_path key_path = do
    private_key ←
        map_err (wrapped "failed to generate private key")
          (call (crypto "rsa.GenerateKey") E.platform.generate_key)
    serial ←
        map_err (wrapped "failed to generate serial number")
          (call (random (2 ^ 128)) (E.random_int (2 ^ 128)))
    template ← λ w. let (t, w₁) = template_of service_name namespace serial w in (ok t, w₁)
    sign_and_store namespace secret_name cert_path key_path private_key template

  -- Whether the secret exists and its certificate could be written to the files.
  unfoldable pub reuse_secret : String → String → String → String → M E Bool
  reuse_secret namespace secret_name cert_path key_path w =
      let (secret, w₁) =
        call (secret_get namespace secret_name) (E.platform.get_k8s_secret namespace secret_name)
          w in
      elim secret [
        | err e ↦ (false, w₁)
        | ok none ↦ (false, w₁)
        | ok (some d) ↦ write_cert_from_secret d cert_path key_path w₁
      ]

  -- `GenerateSelfSignedCertAndStoreInSecret`: the paths of the certificate and of the key.
  unfoldable pub generate_self_signed_cert_and_store_in_secret :
      String → String → String → String → Action E (String × String)
  generate_self_signed_cert_and_store_in_secret service_name namespace secret_name cert_dir =
      let cert_path = E.platform.join_path cert_dir "tls.crt" in
      let key_path = E.platform.join_path cert_dir "tls.key" in
      do
        map_err (wrapped "failed to create cert directory") (make_directory E cert_dir)
        map_err (wrapped "failed to create Kubernetes client")
            (call (crypto "kubernetes.NewForConfig") E.platform.clientset)
        reused ←
            λ w. let (b, w₁) = reuse_secret namespace secret_name cert_path key_path w in (ok b, w₁)
        if reused
            then return_ok (cert_path, key_path)
            else (generate_and_store service_name namespace secret_name cert_path key_path
                >> return_ok (cert_path, key_path))
