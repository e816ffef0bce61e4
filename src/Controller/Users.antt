-- ===== src/Controller/Users.antt =====
-- The reconciler of users (internal/controller/user_controller.go).
use k8s_postgresql_operator.Prelude.{
  ℕ, zero, suc, String, ◌<>◌, not, ◌&&◌, List, [], ◌∷◌, ◌==◌, if◌then◌else◌,
}
use k8s_postgresql_operator.Errors.{plain, wrapped}
use k8s_postgresql_operator.Api.{User, SyncStatus, Object, user_object}
use k8s_postgresql_operator.World.{
  Env, M, Action, Result, ok, err, random, call, pure, fail, return_ok,
}
use k8s_postgresql_operator.World.Steps.{◌>>=◌, ◌>>◌}
use k8s_postgresql_operator.Retry.{
  execute_operation_with_retry, get_vault_user_credentials_with_retry,
  store_vault_user_credentials_with_retry,
}
use k8s_postgresql_operator.Postgres.Roles.{create_or_update_user}
use k8s_postgresql_operator.Controller.{
  Reconciler, Outcome, failed, outcome_of, is_nil, ConnectionInfo, server_of, resolved, unresolved,
  Texts, resolve_postgresql_connection, try_admin_credentials, fetch, refuse, settle,
}

-- The characters of a password, each as a text of its own.
abbrev pub charset : List String
charset =
    "a" ∷ "b" ∷ "c" ∷ "d" ∷ "e" ∷ "f" ∷ "g" ∷ "h" ∷ "i" ∷ "j" ∷ "k" ∷ "l" ∷ "m" ∷ "n" ∷ "o" ∷ "p"
    ∷ "q" ∷ "r" ∷ "s" ∷ "t" ∷ "u" ∷ "v" ∷ "w" ∷ "x" ∷ "y" ∷ "z" ∷ "A" ∷ "B" ∷ "C" ∷ "D" ∷ "E" ∷ "F"
    ∷ "G" ∷ "H" ∷ "I" ∷ "J" ∷ "K" ∷ "L" ∷ "M" ∷ "N" ∷ "O" ∷ "P" ∷ "Q" ∷ "R" ∷ "S" ∷ "T" ∷ "U" ∷ "V"
    ∷ "W" ∷ "X" ∷ "Y" ∷ "Z" ∷ "0" ∷ "1" ∷ "2" ∷ "3" ∷ "4" ∷ "5" ∷ "6" ∷ "7" ∷ "8" ∷ "9" ∷ "!" ∷ "@"
    ∷ "#" ∷ "$" ∷ "%" ∷ "^" ∷ "&" ∷ "*" ∷ "(" ∷ ")" ∷ "_" ∷ "+" ∷ "-" ∷ "=" ∷ "[" ∷ "]" ∷ "{" ∷ "}"
    ∷ "|" ∷ ";" ∷ ":" ∷ "," ∷ "." ∷ "<" ∷ ">" ∷ "?" ∷ []

abbrev pub charset_size : ℕ
charset_size = 88

-- `charset[i]`; an index out of range, which the random source does not give, would panic.
abbrev pub nth : List String → ℕ → String
nth [] i = ""
nth (c ∷ cs) zero = c
nth (c ∷ cs) (suc i) = nth cs i

-- The user with another status, and the hash of a password that has been applied.
abbrev pub with_status : User → String → SyncStatus → Object
with_status user hash s =
    user_object (record user { status = s; last_applied_password_hash = hash })

module _ (E : Env) where
  -- `generateRandomPassword`
  unfoldable pub generate_random_password : ℕ → Action E String
  generate_random_password zero = return_ok ""
  generate_random_password (suc length) = do
    num ← call (random charset_size) (E.random_int charset_size)
    elim num [
      | err e ↦ fail (wrapped "failed to generate random number" e)
      | ok i ↦ do
        rest ← generate_random_password length
        elim rest [ err e ↦ fail e | ok password ↦ return_ok (nth charset i <> password) ]
    ]

module _ (E : Env) (r : Reconciler) where
  -- `handleVaultUserPassword`, from the generation of a password on
  unfoldable pub renew_user_password : User → M E String
  unfolding generate_random_password
  renew_user_password user = do
    generated ← generate_random_password E 32
    elim generated [
      | err e ↦ pure ""
      | ok password ↦ do
        store_vault_user_credentials_with_retry E r.vault_client user.spec.postgresql_id
            user.spec.username password r.vault_retries r.vault_retry_delay
        pure password
    ]

  -- `handleVaultUserPassword`
  unfoldable pub handle_vault_user_password : User → M E String
  unfolding renew_user_password
  handle_vault_user_password user = do
    found ←
        get_vault_user_credentials_with_retry E r.vault_client user.spec.postgresql_id
          user.spec.username r.vault_retries r.vault_retry_delay
    elim found [
      | err e ↦ renew_user_password user
      | ok password ↦
          if not (password == "") && not user.spec.update_password
          then pure password
          else renew_user_password user
    ]

  -- `resolveUserPassword`
  unfoldable pub resolve_user_password : User → M E String
  unfolding handle_vault_user_password
  resolve_user_password user =
      if is_nil r.vault_client then pure "" else handle_vault_user_password user

  abbrev pub user_texts : User → Texts
  user_texts user = record {
    failure_reason = "CreateFailed";
    success_reason = "Created";
    failure = "Failed to create user";
    success = "User " <> user.spec.username <> " successfully created in PostgreSQL";
    failure_event = "Failed to create user " <> user.spec.username;
    success_event = "Successfully created user " <> user.spec.username;
  }

  -- The hash in the status after a synchronisation.
  applied_hash : User → String → Result (Unit {0}) → String
  applied_hash user password (err e) = user.last_applied_password_hash
  applied_hash user password (ok u) =
      if password == "" then user.last_applied_password_hash else E.sha256_hex password

  -- `syncUser`
  unfoldable pub sync_user : User → ConnectionInfo → String → M E Outcome
  unfolding settle applied_hash
  sync_user user info db_password = do
    result ←
        execute_operation_with_retry E
          (create_or_update_user E (server_of info) user.spec.username db_password)
          r.connection_retries r.connection_timeout "createOrUpdateUser"
    updated ←
        settle E "user" user.status user.meta.generation (user_texts user)
          (with_status user (applied_hash user db_password result)) result
    pure (outcome_of updated)

  -- `Reconcile` on a user that was found.
  unfoldable pub reconcile_user : User → M E Outcome
  unfolding refuse
  reconcile_user user = do
    resolution ← resolve_postgresql_connection E user.spec.postgresql_id
    elim resolution [
      | unresolved reason message ↦
          refuse E user.status user.meta.generation
            (with_status user user.last_applied_password_hash) reason message
      | resolved info ↦ do
        filled ← try_admin_credentials E r info
        db_password ← resolve_user_password user
        if db_password == "" && not (is_nil r.vault_client)
            then pure (failed (plain "failed to handle user password from Vault"))
            else sync_user user filled db_password
    ]

  -- `Reconcile`
  unfoldable pub user_reconcile : String → String → M E Outcome
  unfolding fetch
  user_reconcile namespace name = fetch E "user" name (E.get_user namespace name) reconcile_user
