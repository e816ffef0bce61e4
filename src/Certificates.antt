-- ===== src/Certificates.antt =====
-- The TLS certificates of the webhooks (internal/cert): the self-signed ones, and those that Vault
-- PKI issues and that are renewed.
pub mod Pki
pub mod Renewal
pub mod SelfSigned
pub mod Written
pub mod Rounds
pub mod Served
pub mod Stored
use k8s_postgresql_operator.Prelude.{ℕ, String, ◌<>◌, List, [], ◌∷◌}
use k8s_postgresql_operator.World.{
  Env, Action, Effect, file_read, file_write, file_create, file_append, make_dir, call,
}

-- `buildAltNames`
unfoldable pub build_alt_names : String → String → List String
build_alt_names service_name namespace =
    service_name
    ∷ (service_name <> "." <> namespace)
    ∷ (service_name <> "." <> namespace <> ".svc")
    ∷ (service_name <> "." <> namespace <> ".svc.cluster.local")
    ∷ []

-- The calls of package os.
module _ (E : Env) where
  abbrev pub read_file : String → Action E String
  read_file path = call (file_read path) (E.platform.read_file path)

  abbrev pub write_file : String → String → Action E (Unit {0})
  write_file path content = call (file_write path content) (E.platform.write_file path content)

  abbrev pub create_file : String → Action E (Unit {0})
  create_file path = call (file_create path) (E.platform.create_file path)

  abbrev pub append_file : String → String → Action E (Unit {0})
  append_file path content = call (file_append path content) (E.platform.append_file path content)

  abbrev pub make_directory : String → Action E (Unit {0})
  make_directory path = call (make_dir path) (E.platform.make_dir path)
