-- ===== src/Certificates/Stored.antt =====
-- What a success of the self-signed set-up leaves in the secret and in the files
-- (internal/cert/cert.go).
use k8s_postgresql_operator.Prelude.{
  ℕ, ◌^◌, String, ◌≡◌, refl, sym, ap, ◌∙◌, inl, inr, true, none, some, List, arith, Bool-cases,
}
use k8s_postgresql_operator.World.{
  Env, World, CertificateTemplate, ok, Result-cases, call, crypto, random, secret_get,
  secret_create, now, note, expiry,
}
use k8s_postgresql_operator.World.Fallible.{◌>>◌}
use k8s_postgresql_operator.Certificates.{make_directory}
use k8s_postgresql_operator.Certificates.SelfSigned.{
  entry, tls_data, create_and_write, template_of, store_secret, store_certificate, sign_and_store,
  generate_and_store, reuse_secret, generate_self_signed_cert_and_store_in_secret,
}
use k8s_postgresql_operator.Certificates.Served.{
  IsCertificateStore, HasServed, same-HasServed, write_both-HasServed,
  write_cert_from_secret-HasServed,
}

module _ {E : Env} {namespace secret_name cert_path key_path : String}
    (k : IsCertificateStore E namespace secret_name cert_path key_path) where
  reuse_secret-HasServed :
      (w : World E)
      → (reuse_secret E namespace secret_name cert_path key_path w).0 ≡ true
      → (cert : String) × HasServed k cert
          (reuse_secret E namespace secret_name cert_path key_path w).1
  unfolding reuse_secret
  reuse_secret-HasServed w h =
      let w₁ : World E =
        (call (secret_get namespace secret_name) (E.platform.get_k8s_secret namespace secret_name)
          w).1 in
      elim (Result-cases (E.platform.get_k8s_secret namespace secret_name w.state).0) [
        | inr (e, p) ↦ absurd (ground (arith))
        | inl (none, p) ↦ absurd (ground (arith))
        | inl (some d, p) ↦
            let (cert, (d', key, x, y, z, f, g)) =
              write_cert_from_secret-HasServed k d w₁ (k.read w.state d p) (ground (arith)) in
            (cert, (d', key, ground (arith, x), y, z, ground (arith, f), ground (arith, g)))
      ]

  store_secret_stored :
      (d : List (String × String)) (w : World E)
      → (store_secret E namespace secret_name d w).0 ≡ ok tt
      → k.secret (store_secret E namespace secret_name d w).1.state ≡ some d
  unfolding store_secret
  store_secret_stored d w h =
      let w₁ : World E =
        (call (secret_create namespace secret_name d)
          (E.platform.create_k8s_secret namespace secret_name d) w).1 in
      elim (Result-cases (E.platform.create_k8s_secret namespace secret_name d w.state).0) [
        | inl (u, p) ↦ ground (arith, k.created d w.state p)
        | inr (e, p) ↦
            elim (Result-cases (E.platform.update_k8s_secret namespace secret_name d w₁.state).0) [
              | inl (u, q) ↦ ground (arith, k.updated d w₁.state q)
              | inr (f, q) ↦ absurd (ground (arith))
            ]
      ]

  -- The end of the set-up: the secret, and then the files.
  store_certificate-HasServed :
      (cert key : String) (w : World E)
      → (store_certificate E namespace secret_name cert_path key_path cert key w).0 ≡ ok tt
      → HasServed k cert (store_certificate E namespace secret_name cert_path key_path cert key w).1
  unfolding store_certificate entry
  store_certificate-HasServed cert key w h =
      let d : List (String × String) = tls_data cert key in
      let w₁ : World E = (store_secret E namespace secret_name d w).1 in
      let both =
        create_and_write E "failed to create cert file" "failed to write certificate" cert_path cert
        >> create_and_write E "failed to create key file" "failed to write private key" key_path
            key in
      elim (Result-cases (store_secret E namespace secret_name d w).0) [
        | inr (e, p) ↦ absurd (ground (arith))
        | inl (u, p) ↦
            let same : store_certificate E namespace secret_name cert_path key_path cert key w
                ≡ both w₁ =
              ground (arith) in
            same-HasServed k
              (store_certificate E namespace secret_name cert_path key_path cert key w) (both w₁)
              same
              (write_both-HasServed k "failed to create cert file" "failed to write certificate"
                "failed to create key file" "failed to write private key" cert key d w₁
                (store_secret_stored d w p) refl refl (ap (λ z. z.0) (sym same) ∙ h))
      ]

  sign_and_store-HasServed :
      (private_key : String) (template : CertificateTemplate) (w : World E)
      → (sign_and_store E namespace secret_name cert_path key_path private_key template w).0 ≡ ok tt
      → (cert : String) × HasServed k cert
          (sign_and_store E namespace secret_name cert_path key_path private_key template w).1
  unfolding sign_and_store
  sign_and_store-HasServed private_key template w h =
      let w₁ : World E =
        (call (crypto "x509.CreateCertificate") (E.platform.create_certificate template private_key)
          w).1 in
      elim (Result-cases (E.platform.create_certificate template private_key w.state).0) [
        | inr (e, r) ↦ absurd (ground (arith))
        | inl (cert_der, r) ↦
            let t : ℕ = (E.now_time w₁.state).0 in
            let w₂ : World E =
              (note (expiry "self_signed" template.not_after t) (call now E.now_time w₁).1).1 in
            let cert = E.platform.certificate_pem cert_der in
            let key = E.platform.key_pem private_key in
            let same : sign_and_store E namespace secret_name cert_path key_path private_key
                  template w
                ≡ store_certificate E namespace secret_name cert_path key_path cert key w₂ =
              ground (arith) in
            (
              cert,
              same-HasServed k {cert = cert}
                  (sign_and_store E namespace secret_name cert_path key_path private_key template w)
                  (store_certificate E namespace secret_name cert_path key_path cert key w₂) same
                  (store_certificate-HasServed cert key w₂ (ap (λ z. z.0) (sym same) ∙ h)),
            )
      ]

  generate_and_store-HasServed :
      (service_name : String) (w : World E)
      → (generate_and_store E service_name namespace secret_name cert_path key_path w).0 ≡ ok tt
      → (cert : String) × HasServed k cert
          (generate_and_store E service_name namespace secret_name cert_path key_path w).1
  unfolding generate_and_store
  generate_and_store-HasServed service_name w h =
      let w₁ : World E = (call (crypto "rsa.GenerateKey") E.platform.generate_key w).1 in
      let w₂ : World E = (call (random (2 ^ 128)) (E.random_int (2 ^ 128)) w₁).1 in
      elim (Result-cases (E.platform.generate_key w.state).0) [
        | inr (e, p) ↦ absurd (ground (arith))
        | inl (private_key, p) ↦ elim (Result-cases (E.random_int (2 ^ 128) w₁.state).0) [
          | inr (e, q) ↦ absurd (ground (arith))
          | inl (serial, q) ↦
              let template : CertificateTemplate =
                (template_of E service_name namespace serial w₂).0 in
              let w₃ : World E = (template_of E service_name namespace serial w₂).1 in
              let same : generate_and_store E service_name namespace secret_name cert_path key_path
                    w
                  ≡ sign_and_store E namespace secret_name cert_path key_path private_key template
                      w₃ =
                ground (arith) in
              let (cert, served) =
                sign_and_store-HasServed private_key template w₃ (ap (λ z. z.0) (sym same) ∙ h) in
              (
                cert,
                same-HasServed k {cert = cert}
                    (generate_and_store E service_name namespace secret_name cert_path key_path w)
                    (sign_and_store E namespace secret_name cert_path key_path private_key template
                      w₃)
                    same served,
              )
        ]
      ]

module _ {E : Env} (namespace secret_name cert_dir : String)
    (k : IsCertificateStore E namespace secret_name
      (E.platform.join_path cert_dir "tls.crt")
      (E.platform.join_path cert_dir "tls.key")) where
  pub generate_self_signed_cert_and_store_in_secret-HasServed :
      (service_name : String) (w : World E) {paths : String × String}
      → (generate_self_signed_cert_and_store_in_secret E service_name namespace secret_name cert_dir
          w).0
        ≡ ok paths
      → (cert : String) × HasServed k cert
          (generate_self_signed_cert_and_store_in_secret E service_name namespace secret_name
            cert_dir w).1
  unfolding generate_self_signed_cert_and_store_in_secret
  generate_self_signed_cert_and_store_in_secret-HasServed service_name w h =
      let cert_path = E.platform.join_path cert_dir "tls.crt" in
      let key_path = E.platform.join_path cert_dir "tls.key" in
      let whole =
        generate_self_signed_cert_and_store_in_secret E service_name namespace secret_name cert_dir
          w in
      let w₁ : World E = (make_directory E cert_dir w).1 in
      let w₂ : World E = (call (crypto "kubernetes.NewForConfig") E.platform.clientset w₁).1 in
      let reused = reuse_secret E namespace secret_name cert_path key_path w₂ in
      let w₃ : World E = reused.1 in
      let made = generate_and_store E service_name namespace secret_name cert_path key_path w₃ in
      elim (Result-cases (E.platform.make_dir cert_dir w.state).0) [
        | inr (e, p) ↦ absurd (ground (arith))
        | inl (u, p) ↦ elim (Result-cases (E.platform.clientset w₁.state).0) [
          | inr (e, q) ↦ absurd (ground (arith))
          | inl (v, q) ↦ elim (Bool-cases reused.0) [
            | inl old ↦
                let (cert, served) = reuse_secret-HasServed k w₂ old in
                let same : whole.1 ≡ reused.1 = ground (arith) in
                (
                  cert,
                  same-HasServed k {cert = cert} (tt, whole.1) (tt, reused.1)
                      (ap (λ v. (tt, v)) same) served,
                )
            | inr new ↦ elim (Result-cases made.0) [
              | inr (e, r) ↦ absurd (ground (arith))
              | inl (x, r) ↦
                  let (cert, served) = generate_and_store-HasServed k service_name w₃ r in
                  let same : whole.1 ≡ made.1 = ground (arith) in
                  (
                    cert,
                    same-HasServed k {cert = cert} (tt, whole.1) (tt, made.1)
                        (ap (λ v. (tt, v)) same) served,
                  )
            ]
          ]
        ]
      ]
