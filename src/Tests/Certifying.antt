-- ===== src/Tests/Certifying.antt =====
-- A cluster whose secret has a certificate and its key, and the theorem on the bundle there.
use k8s_postgresql_operator.Prelude.{String, refl, List, [], ◌∷◌, some, arith}
use k8s_postgresql_operator.Errors.{plain}
use k8s_postgresql_operator.World.{Env, World, ok, err}
use k8s_postgresql_operator.Certificates.SelfSigned.{
  entry, create_and_write, write_cert_from_secret, reuse_secret,
  generate_self_signed_cert_and_store_in_secret,
}
use k8s_postgresql_operator.Certificates.Served.{IsCertificateStore, HasServed}
use k8s_postgresql_operator.Startup.Webhooks.{
  set_ca_bundle, put_ca_bundle, update_webhook_configuration_with_ca_bundle,
}
use k8s_postgresql_operator.Startup.Bundles.{HasWritten}
use k8s_postgresql_operator.Startup.Served.{update-generate-HasServed}
use k8s_postgresql_operator.Tests.Machine.{lookup, machine}
use k8s_postgresql_operator.Tests.Simulation.{sim, start}

abbrev held : List (String × String)
held = ("tls.crt", "certificate") ∷ ("tls.key", "key") ∷ []

abbrev cluster : Env
cluster = record sim {
  platform = record machine {
    get_k8s_secret = λ namespace name s. (ok (some held), s);
    create_k8s_secret = λ namespace name d s. (err (plain "already exists"), s);
    update_k8s_secret = λ namespace name d s. (err (plain "forbidden"), s);
  };
}

abbrev begun : World cluster
begun = record { state = start.state; trace = [] }

cluster-IsCertificateStore :
    IsCertificateStore cluster "default" "webhook-cert" "/tmp/certs/tls.crt" "/tmp/certs/tls.key"
cluster-IsCertificateStore = record {
  secret = λ s. some held;
  cert_file = λ s. lookup "/tmp/certs/tls.crt" s.files;
  key_file = λ s. lookup "/tmp/certs/tls.key" s.files;
  read = λ s d h. ground (arith);
  got = λ s. refl;
  connected = λ s. refl;
  created = λ d s h. absurd (ground (arith));
  updated = λ d s h. absurd (ground (arith));
  cert_created = λ s h. (refl, refl, refl);
  key_created = λ s h. (refl, refl, refl);
  cert_appended = λ c s h e. (refl, refl, refl);
  key_appended = λ c s h e. (refl, refl, refl);
}

update-generate-HasServed_example :
    let w₁ =
      (generate_self_signed_cert_and_store_in_secret cluster "operator" "default" "webhook-cert"
        "/tmp/certs" begun).1 in
    (cert : String) × HasServed cluster-IsCertificateStore cert w₁
    × HasWritten cluster cert "hooks" w₁.state
        (update_webhook_configuration_with_ca_bundle cluster "webhook-cert" "default" "hooks" w₁).1
unfolding generate_self_signed_cert_and_store_in_secret reuse_secret write_cert_from_secret
    create_and_write entry update_webhook_configuration_with_ca_bundle put_ca_bundle set_ca_bundle
update-generate-HasServed_example =
    update-generate-HasServed "default" "webhook-cert" "/tmp/certs" cluster-IsCertificateStore
      "operator" "hooks" begun refl refl
