-- ===== src/Startup/Served.antt =====
-- The bundle of a webhook configuration and the certificate that the webhook server reads
-- (internal/cert/cert.go and internal/k8s/k8s.go).
use mathlib.Core.Path.{subst}
use k8s_postgresql_operator.Prelude.{String, ◌≡◌, ap, arith}
use k8s_postgresql_operator.World.{Env, World, ok}
use k8s_postgresql_operator.Certificates.SelfSigned.{
  entry, generate_self_signed_cert_and_store_in_secret,
}
use k8s_postgresql_operator.Certificates.Served.{IsCertificateStore, HasServed}
use k8s_postgresql_operator.Certificates.Stored.{
  generate_self_signed_cert_and_store_in_secret-HasServed,
}
use k8s_postgresql_operator.Startup.Webhooks.{update_webhook_configuration_with_ca_bundle}
use k8s_postgresql_operator.Startup.Bundles.{
  HasWritten, update_webhook_configuration_with_ca_bundle-written,
}

module _ {E : Env} (namespace secret_name cert_dir : String)
    (k : IsCertificateStore E namespace secret_name
      (E.platform.join_path cert_dir "tls.crt")
      (E.platform.join_path cert_dir "tls.key")) where
  -- On a certificate store, after a self-signed set-up that succeeds the server's two files have
  -- the certificate and the key of the secret, be it an old or a new one; and if an update of a
  -- webhook configuration that follows succeeds, its last call writes this certificate as the
  -- bundle of the first webhook of the operator's name and changes nothing else in the
  -- configuration.
  pub update-generate-HasServed :
      (service_name name : String) (w : World E) {paths : String × String}
      → (generate_self_signed_cert_and_store_in_secret E service_name namespace secret_name cert_dir
          w).0
        ≡ ok paths
      → (update_webhook_configuration_with_ca_bundle E secret_name namespace name
          (generate_self_signed_cert_and_store_in_secret E service_name namespace secret_name
            cert_dir w).1).0
        ≡ ok tt
      → let w₁ =
          (generate_self_signed_cert_and_store_in_secret E service_name namespace secret_name
            cert_dir w).1 in
        let s₂ =
          (E.platform.get_k8s_secret namespace secret_name (E.platform.clientset w₁.state).1).1 in
        (cert : String) × HasServed k cert w₁
        × HasWritten E cert name s₂
            (update_webhook_configuration_with_ca_bundle E secret_name namespace name w₁).1
  update-generate-HasServed service_name name w made updated =
      let w₁ : World E =
        (generate_self_signed_cert_and_store_in_secret E service_name namespace secret_name cert_dir
          w).1 in
      let s₁ : E.State = (E.platform.clientset w₁.state).1 in
      let (cert, (d, key, stored, a, b, f, g)) =
        generate_self_signed_cert_and_store_in_secret-HasServed namespace secret_name cert_dir k
          service_name w made in
      let (d', bundle, read, a', written) =
        update_webhook_configuration_with_ca_bundle-written E secret_name namespace name w₁
          updated in
      let same : d ≡ d' =
        ground (arith, stored, k.connected w₁.state, k.got s₁, k.read s₁ d' read) in
      let cert_of : bundle ≡ cert = ground (arith, ap (entry "tls.crt") same, a, a') in
      (
        cert,
        (d, key, stored, a, b, f, g),
        subst
            (λ c.
              HasWritten E c name (E.platform.get_k8s_secret namespace secret_name s₁).1
                (update_webhook_configuration_with_ca_bundle E secret_name namespace name w₁).1)
            cert_of written,
      )
