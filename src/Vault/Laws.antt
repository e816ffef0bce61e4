-- ===== src/Vault/Laws.antt =====
-- What the credentials in Vault promise (internal/vault/vault.go), over a key-value store that
-- answers a read with what was last written.
use k8s_postgresql_operator.Prelude.{
  String, ◌<>◌, ◌≡◌, refl, ◌≢◌, false, some, eq_iff, eq_false, arith,
}
use k8s_postgresql_operator.Errors.{Error, plain, errors_is, is_secret_not_found}
use k8s_postgresql_operator.World.{Env, World, ok, err, Data}
use k8s_postgresql_operator.Vault.{
  string_field, admin_data, user_data, instance_admin_path, user_path, get_postgresql_credentials,
  store_postgresql_credentials, get_instance_admin_new_password, rotate_instance_admin_password,
  get_postgresql_user_credentials, store_postgresql_user_credentials,
}

-- What the operator relies on in the KV store: a successful write is what the next read of its
-- path returns, and a read changes no later read.
pub record IsKeyValueStore (E : Env) : Type 0 where
  pub get-put :
      (s : E.State) (p : String) (d : Data)
      → (E.put_secret p d s).0 ≡ ok tt
      → (E.get_secret p (E.put_secret p d s).1).0 ≡ ok (some d)

module _ (E : Env) where
  -- A successful read of an administrator's credentials gives a login and a password that are
  -- both nonempty.
  pub get_postgresql_credentials_nonempty :
      (secret_path postgresql_id : String) (w : World E) {login password : String}
      → (get_postgresql_credentials E secret_path postgresql_id w).0 ≡ ok (login, password)
      → (login ≢ "") × (password ≢ "")
  unfolding get_postgresql_credentials
  get_postgresql_credentials_nonempty secret_path postgresql_id w {login} {password} h =
      ground (arith, eq_iff login "", eq_iff password "")

module _ (E : Env) (kv : IsKeyValueStore E) where
  -- On a key-value store, a nonempty login and password of an administrator that a store has
  -- written with success are those that the next read returns.
  pub get-store_postgresql_credentials :
      (secret_path postgresql_id login password : String) (w : World E)
      → login ≢ ""
      → password ≢ ""
      → (store_postgresql_credentials E secret_path postgresql_id login password w).0 ≡ ok tt
      → (get_postgresql_credentials E secret_path postgresql_id
          (store_postgresql_credentials E secret_path postgresql_id login password w).1).0
        ≡ ok (login, password)
  unfolding get_postgresql_credentials store_postgresql_credentials
  get-store_postgresql_credentials secret_path postgresql_id login password w hl hp h = ground (
    arith,
    eq_false login "" hl,
    eq_false password "" hp,
    kv.get-put w.state (instance_admin_path secret_path postgresql_id) (admin_data login password),
  )

  -- On a key-value store whose secret of the instance is read, and with a new password that is
  -- not empty, after a rotation that succeeds the administrator's credentials are the old login
  -- with the new password, and no further rotation is asked for.
  pub rotate_instance_admin_password_completes :
      (secret_path postgresql_id new_password : String) (w : World E) {d : Data}
      → (E.get_secret (instance_admin_path secret_path postgresql_id) w.state).0 ≡ ok (some d)
      → new_password ≢ ""
      → (rotate_instance_admin_password E secret_path postgresql_id new_password w).0 ≡ ok tt
      → let w' = (rotate_instance_admin_password E secret_path postgresql_id new_password w).1 in
        ((get_postgresql_credentials E secret_path postgresql_id w').0
          ≡ ok (string_field "login" d, new_password))
        × ((get_instance_admin_new_password E secret_path postgresql_id w').0 ≡ ok "")
  unfolding get_postgresql_credentials rotate_instance_admin_password
      get_instance_admin_new_password
  rotate_instance_admin_password_completes secret_path postgresql_id new_password w {d} found hn h =
      let path = instance_admin_path secret_path postgresql_id in
      ground (
        arith,
        eq_false new_password "" hn,
        kv.get-put (E.get_secret path w.state).1 path
            (admin_data (string_field "login" d) new_password),
      )

  -- On a key-value store, a nonempty password of a user that a store has written with success is
  -- the one that the next read returns.
  pub get-store_postgresql_user_credentials :
      (secret_path postgresql_id username password : String) (w : World E)
      → password ≢ ""
      → (store_postgresql_user_credentials E secret_path postgresql_id username password w).0
        ≡ ok tt
      → (get_postgresql_user_credentials E secret_path postgresql_id username
          (store_postgresql_user_credentials E secret_path postgresql_id username password w).1).0
        ≡ ok password
  unfolding get_postgresql_user_credentials store_postgresql_user_credentials
  get-store_postgresql_user_credentials secret_path postgresql_id username password w hp h =
      ground (
        arith,
        eq_false password "" hp,
        kv.get-put w.state (user_path secret_path postgresql_id username) (user_data password),
      )

  -- On a key-value store, once the password of a user named instance_admin has been stored with
  -- success, the read of the administrator's credentials fails, with an error that is not the one
  -- for a missing secret.
  pub user_named_instance_admin_breaks_admin :
      (secret_path postgresql_id password : String) (w : World E)
      → (store_postgresql_user_credentials E secret_path postgresql_id "instance_admin" password
          w).0
        ≡ ok tt
      → let w' =
          (store_postgresql_user_credentials E secret_path postgresql_id "instance_admin" password
            w).1 in
        (e : Error) × ((get_postgresql_credentials E secret_path postgresql_id w').0 ≡ err e)
        × (is_secret_not_found e ≡ false)
  unfolding get_postgresql_credentials store_postgresql_user_credentials is_secret_not_found
      errors_is
  user_named_instance_admin_breaks_admin secret_path postgresql_id password w h =
      let path = instance_admin_path secret_path postgresql_id in
      (
        plain ("credentials not found in secret at path: " <> path),
        ground (arith, kv.get-put w.state path (user_data password)),
        refl,
      )
