-- ===== src/Vault.antt =====
-- The Vault client (internal/vault/vault.go): credentials in the key-value store. The mount point
-- is fixed, so `Env` has the one store that is mounted there.
pub mod Laws
pub mod Pki
pub mod Paths
pub mod Refinement
use k8s_postgresql_operator.Prelude.{
  ℕ, String, ◌<>◌, Bool, true, false, not, ◌||◌, Option, none, some, List, [], ◌∷◌, ◌==◌, eqb,
  if◌then◌else◌,
}
use k8s_postgresql_operator.Errors.{
  Error, plain, wrapped, secret_not_found, error_text, status_code, contains_text,
}
use k8s_postgresql_operator.World.{
  Env, Action, Result, ok, err, Value, text, other, Data, Effect, kv_get, kv_put, health, call,
  return_ok, fail, map_err,
}
use k8s_postgresql_operator.World.Fallible.{◌>>=◌, ◌>>◌}

-- `isVaultNotFoundError`
unfoldable pub is_vault_not_found_error : Error → Bool
unfolding status_code contains_text
is_vault_not_found_error e = elim (status_code e) [
  | some status ↦ eqb status 404
  | none ↦ contains_text (error_text e) "secret not found"
]

-- `if v, ok := data[key].(string); ok`, with the empty string otherwise.
unfoldable pub string_field : String → Data → String
string_field key [] = ""
string_field key ((k, text s) ∷ d) = if k == key then s else string_field key d
string_field key ((k, other) ∷ d) = if k == key then "" else string_field key d

unfoldable pub instance_admin_path : String → String → String
instance_admin_path secret_path postgresql_id =
    secret_path <> "/" <> postgresql_id <> "/" <> "instance_admin"

unfoldable pub default_path : String → String
default_path secret_path = secret_path <> "/" <> "default"

unfoldable pub user_path : String → String → String → String
user_path secret_path postgresql_id username =
    secret_path <> "/" <> postgresql_id <> "/" <> username

-- What is written for an administrator and for a user.
abbrev pub admin_data : String → String → Data
admin_data login password = ("login", text login) ∷ ("password", text password) ∷ []

abbrev pub user_data : String → Data
user_data password = ("password", text password) ∷ []

-- What the client answers from the data of a secret: a login and a password, neither of them empty.
credentials_of : String → Data → Result (String × String)
unfolding string_field
credentials_of missing d =
    let login = string_field "login" d in
    let password = string_field "password" d in
    if login == "" || password == "" then err (plain missing) else ok (login, password)

module _ (E : Env) where
  abbrev pub read_kv : String → Action E (Option Data)
  read_kv path = call (kv_get path) (E.get_secret path)

  abbrev pub write_kv : String → Data → Action E (Unit {0})
  write_kv path d = call (kv_put path d) (E.put_secret path d)

  unfoldable pub vault_check_health : Action E (Unit {0})
  vault_check_health = do
    healthy ← map_err (wrapped "failed to check Vault health") (call health E.check_health)
    if healthy then return_ok tt else fail (plain "vault health check returned nil")

  -- The reading of a secret whose absence is `ErrSecretNotFound`.
  require_secret : String → String → String → Action E Data
  require_secret absent unread path w =
      let (r, w') = read_kv path w in
      elim r [
        | err e ↦ elim (is_vault_not_found_error e) [
          | true ↦ (err (wrapped absent secret_not_found), w')
          | false ↦ (err (wrapped unread e), w')
        ]
        | ok none ↦ (err (wrapped absent secret_not_found), w')
        | ok (some d) ↦ (ok d, w')
      ]

  -- `GetPostgresqlCredentials`
  unfoldable pub get_postgresql_credentials : String → String → Action E (String × String)
  unfolding require_secret credentials_of instance_admin_path
  get_postgresql_credentials secret_path postgresql_id =
      let path = instance_admin_path secret_path postgresql_id in
      do
        d ←
            require_secret ("instance admin credentials at path " <> path)
              "failed to read secret from Vault" path
        λ w. (credentials_of ("credentials not found in secret at path: " <> path) d, w)

  -- `GetDefaultCredentials`
  unfoldable pub get_default_credentials : String → Action E (String × String)
  unfolding require_secret credentials_of default_path
  get_default_credentials secret_path =
      let path = default_path secret_path in
      do
        d ←
            require_secret ("default credentials at path " <> path)
              "failed to read default credentials from Vault" path
        λ w. (credentials_of ("credentials not found in default secret at path: " <> path) d, w)

  -- `StorePostgresqlCredentials`
  unfoldable pub store_postgresql_credentials :
      String → String → String → String → Action E (Unit {0})
  unfolding instance_admin_path
  store_postgresql_credentials secret_path postgresql_id login password =
      map_err (wrapped "failed to store instance admin credentials in Vault")
        (write_kv (instance_admin_path secret_path postgresql_id) (admin_data login password))

  -- `GetInstanceAdminNewPassword`: empty where no rotation is asked for.
  unfoldable pub get_instance_admin_new_password : String → String → Action E String
  unfolding require_secret string_field instance_admin_path
  get_instance_admin_new_password secret_path postgresql_id =
      let path = instance_admin_path secret_path postgresql_id in
      do
        d ←
            require_secret ("instance admin secret at path " <> path)
              "failed to read instance admin secret from Vault" path
        return_ok (string_field "new_password" d)

  -- The reading of a secret whose absence is a plain error.
  read_secret : String → String → String → Action E Data
  read_secret absent unread path w =
      let (r, w') = read_kv path w in
      elim r [
        | err e ↦ (err (wrapped unread e), w')
        | ok none ↦ (err (plain absent), w')
        | ok (some d) ↦ (ok d, w')
      ]

  -- `RotateInstanceAdminPassword`
  unfoldable pub rotate_instance_admin_password : String → String → String → Action E (Unit {0})
  unfolding read_secret string_field instance_admin_path
  rotate_instance_admin_password secret_path postgresql_id new_password =
      let path = instance_admin_path secret_path postgresql_id in
      do
        d ←
            read_secret ("instance admin secret not found for rotation at path: " <> path)
              "failed to read instance admin secret for rotation" path
        let login = string_field "login" d
        if login == ""
            then fail (plain ("login not found in instance admin secret at path: " <> path))
            else map_err (wrapped "failed to rotate instance admin password in Vault")
                (write_kv path (admin_data login new_password))

  -- `GetPostgresqlUserCredentials`
  unfoldable pub get_postgresql_user_credentials : String → String → String → Action E String
  unfolding read_secret string_field user_path
  get_postgresql_user_credentials secret_path postgresql_id username =
      let path = user_path secret_path postgresql_id username in
      do
        d ←
            read_secret ("secret not found at path: " <> path) "failed to read secret from Vault"
              path
        let password = string_field "password" d
        if password == ""
            then fail (plain ("credentials not found in secret at path: " <> path))
            else return_ok password

  -- `StorePostgresqlUserCredentials`
  unfoldable pub store_postgresql_user_credentials :
      String → String → String → String → Action E (Unit {0})
  unfolding user_path
  store_postgresql_user_credentials secret_path postgresql_id username password =
      write_kv (user_path secret_path postgresql_id username) (user_data password)
