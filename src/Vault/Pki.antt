-- ===== src/Vault/Pki.antt =====
-- The Vault client's login and its certificates (internal/vault/vault.go, NewClient and from
-- PKICertificate on).
use k8s_postgresql_operator.Prelude.{
  ℕ, String, ◌<>◌, Option, none, some, List, [], ◌∷◌, ◌++◌, ◌==◌, join, if◌then◌else◌,
}
use k8s_postgresql_operator.Errors.{plain, wrapped}
use k8s_postgresql_operator.World.{
  Env, Action, Result, ok, err, Value, text, other, Answer, text_answer, number_answer, list_answer,
  Answers, login, logical_write, logical_read, call, return_ok, fail, map_err,
}
use k8s_postgresql_operator.World.Fallible.{◌>>=◌, ◌>>◌}

-- `PKICertificate`
pub record PkiCertificate : Type 0 where
  pub certificate : String
  pub private_key : String
  pub ca_chain : List String
  pub serial_number : String
  pub expiration : ℕ

unfoldable pub lookup : String → Answers → Option Answer
lookup key [] = none
lookup key ((k, a) ∷ rest) = if k == key then some a else lookup key rest

-- `data[key].(string)`, with the empty string where the value is no text.
abbrev pub text_of : Option Answer → String
text_of (some (text_answer s)) = s
text_of _ = ""

-- The integer of `data["expiration"]`, 0 where it has none.
abbrev pub number_of : Option Answer → ℕ
number_of (some (number_answer (some n))) = n
number_of _ = 0

-- The texts of a list; its other values are passed over.
abbrev pub texts : List Value → List String
texts [] = []
texts (text s ∷ rest) = s ∷ texts rest
texts (other ∷ rest) = texts rest

abbrev pub chain_of : Option Answer → List String
chain_of (some (list_answer l)) = texts l
chain_of _ = []

-- `parsePKICertificateResponse`
unfoldable pub parse_pki_certificate_response : Answers → String → Result PkiCertificate
unfolding lookup
parse_pki_certificate_response d path =
    let certificate = text_of (lookup "certificate" d) in
    let private_key = text_of (lookup "private_key" d) in
    if certificate == ""
    then err (plain ("certificate not found in Vault PKI response at: " <> path))
    else if private_key == ""
    then err (plain ("private_key not found in Vault PKI response at: " <> path))
    else ok (record {
      certificate = certificate;
      private_key = private_key;
      ca_chain = chain_of (lookup "ca_chain" d);
      serial_number = text_of (lookup "serial_number" d);
      expiration = number_of (lookup "expiration" d);
    })

-- An entry of the request, left out where the list is empty.
abbrev pub joined : String → List String → List (String × String)
joined key [] = []
joined key (s ∷ rest) = (key, join "," (s ∷ rest)) ∷ []

abbrev pub issue_request : String → List String → List String → String → List (String × String)
issue_request common_name alt_names ip_sans ttl =
    ("common_name", common_name)
    ∷ ("ttl", ttl)
    ∷ (joined "alt_names" alt_names ++ joined "ip_sans" ip_sans)

-- The data of a response; a nil secret is an error.
abbrev pub required_data : String → Option Answers → Result Answers
required_data message none = err (plain message)
required_data message (some d) = ok d

module _ (E : Env) where
  -- `IssueCertificate`
  unfoldable pub issue_certificate :
      String → String → String → List String → List String → String → Action E PkiCertificate
  unfolding parse_pki_certificate_response
  issue_certificate mount_path role_name common_name alt_names ip_sans ttl =
      let path = mount_path <> "/issue/" <> role_name in
      let request = issue_request common_name alt_names ip_sans ttl in
      do
        secret ←
            map_err (wrapped "failed to issue certificate from Vault PKI")
              (call (logical_write path request) (E.platform.logical_write path request))
        d ← λ w. (required_data ("empty response from Vault PKI at path: " <> path) secret, w)
        λ w. (parse_pki_certificate_response d path, w)

  -- `GetCACertificate`
  unfoldable pub get_ca_certificate : String → Action E String
  unfolding lookup
  get_ca_certificate mount_path =
      let path = mount_path <> "/cert/ca" in
      do
        secret ←
            map_err (wrapped "failed to read CA certificate from Vault PKI")
              (call (logical_read path) (E.platform.logical_read path))
        d ← λ w. (required_data ("empty CA response from Vault PKI at path: " <> path) secret, w)
        let certificate = text_of (lookup "certificate" d)
        if certificate == ""
            then fail (plain ("CA certificate not found in Vault PKI response at: " <> path))
            else return_ok certificate

  -- `NewClient`. The client is its secret path, as the other operations take it.
  unfoldable pub new_client : String → String → String → String → Action E String
  new_client vault_addr vault_role token_path secret_path =
      if vault_role == ""
      then fail (plain "environment variable VAULT_ROLE is not set (required for Kubernetes auth)")
      else do
        map_err (wrapped "failed to create Vault client")
            (call (login vault_addr) (E.platform.vault_client vault_addr))
        map_err (wrapped "failed to create Kubernetes auth method")
            (call (login vault_role) (E.platform.kubernetes_auth vault_role token_path))
        authenticated ←
            map_err (wrapped "failed to authenticate with Vault using Kubernetes auth")
              (call (login vault_addr) (E.platform.login vault_addr))
        if authenticated
            then return_ok secret_path
            else fail (plain "authentication returned empty auth info")
