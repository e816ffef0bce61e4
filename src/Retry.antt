-- ===== src/Retry.antt =====
-- Retries with exponential backoff: the loop that internal/postgresql/retry.go and
-- internal/controller/connection_retry.go repeat, the delays, and the operations built on it.
-- Times are in nanoseconds. A count of retries that is not positive gives no round, as 0 does.
pub mod Laws
pub mod Delays
pub mod Operations
pub mod Runs
use k8s_postgresql_operator.Prelude.{
  ℕ, zero, suc, ◌+◌, ℤ, pos, negsuc, ◌*◌, ◌/◌, ◌^◌, String, ◌<>◌, Bool, true, false, Option, none,
  some, ltb, decimal, if◌then◌else◌,
}
use k8s_postgresql_operator.Errors.{Error, nil_error, plain, wrapped, is_secret_not_found}
use k8s_postgresql_operator.World.{
  Env, World, M, Action, Result, ok, err, Effect, wait, random, call, fail,
}
use k8s_postgresql_operator.Vault.{
  get_postgresql_credentials, get_default_credentials, store_postgresql_credentials,
  get_instance_admin_new_password, rotate_instance_admin_password, get_postgresql_user_credentials,
  store_postgresql_user_credentials,
}

abbrev pub second : ℕ
second = 1000000000

abbrev pub max_retry_delay : ℕ
max_retry_delay = 60 * second

abbrev pub max_vault_retry_delay : ℕ
max_vault_retry_delay = 60 * second

abbrev pub max_connection_retry_delay : ℕ
max_connection_retry_delay = 60 * second

-- What a loop of retries is made of: the operation, which errors end it at once, the delay before
-- the next attempt, the text for a canceled wait, and the error when every attempt has failed.
pub record Plan (E : Env) (A : Type 0) : Type 0 where
  pub operation : Action E A
  pub fatal : Error → Bool
  pub backoff : ℕ → Action E ℕ
  pub canceled : String
  pub exhausted : Error → Error

module _ (E : Env) where
  -- `calculateBackoff`. `to_duration` is the conversion of the float, which is the base delay times
  -- two to the power of the attempt less one: the attempt 0 halves the delay. The jitter is drawn
  -- from 0 up to a quarter of the delay, and is left out if the random source fails. A conversion
  -- that overflows is negative and passes the test for the cap: with -4 or less `rand.Int` panics,
  -- which is an error here, and a delay of -1 to -3 counts as 0, since no time is waited.
  unfoldable pub calculate_backoff : ℕ → ℕ → ℕ → Action E ℕ
  calculate_backoff base_delay attempt max_delay w =
      elim (E.to_duration (base_delay * 2 ^ attempt / 2)) [
        | pos scaled ↦
            let delay = if ltb max_delay scaled then max_delay else scaled in
            let max_jitter = delay / 4 + 1 in
            let (n, w') = call (random max_jitter) (E.random_int max_jitter) w in
            elim n [ ok jitter ↦ (ok (delay + jitter), w') | err e ↦ (ok delay, w') ]
        | negsuc n ↦
            let (r, w') = call (random 1) (E.random_int 1) w in
            if ltb n 3 then (ok 0, w') else (err (plain "crypto/rand: argument to Int is <= 0"), w)
      ]

  unfoldable pub calculate_vault_backoff : ℕ → ℕ → Action E ℕ
  unfolding calculate_backoff
  calculate_vault_backoff base_delay attempt =
      calculate_backoff base_delay attempt max_vault_retry_delay

  unfoldable pub calculate_connection_backoff : ℕ → ℕ → ℕ → Action E ℕ
  unfolding calculate_backoff
  calculate_connection_backoff base_delay attempt max_delay =
      calculate_backoff base_delay attempt max_delay

  -- The wait on `time.After(delay)` or `ctx.Done()`.
  abbrev pub await : ℕ → M E (Option Error)
  await delay = call (wait delay) (E.wait_or_done delay)

  -- The wait for a delay that may not be there: a panic in its computation ends the loop, as the end
  -- of the context does.
  abbrev pub pause : Result ℕ → M E (Option Error)
  pause (ok delay) w = await delay w
  pause (err panicked) w = (some panicked, w)

module _ {E : Env} {A : Type 0} (plan : Plan E A) (retries : ℕ) where
  -- `for attempt := 1; attempt <= retries; attempt++`, on the rounds that are left.
  unfoldable pub attempts : ℕ → ℕ → Error → Action E A
  attempts zero attempt last_err w = (err (plan.exhausted last_err), w)
  attempts (suc rounds) attempt last_err w =
      let (r, w₁) = plan.operation w in
      elim r [
        | ok a ↦ (ok a, w₁)
        | err e ↦ elim (plan.fatal e) [
          | true ↦ (err e, w₁)
          | false ↦ elim (ltb attempt retries) [
            | true ↦
                let (delay, w₂) = plan.backoff attempt w₁ in
                let (done, w₃) = pause E delay w₂ in
                elim done [
                  | none ↦ attempts rounds (attempt + 1) e w₃
                  | some cause ↦ (err (wrapped plan.canceled cause), w₃)
                ]
            | false ↦ attempts rounds (attempt + 1) e w₁
          ]
        ]
      ]

  unfoldable pub with_retries : Action E A
  unfolding attempts
  with_retries = attempts retries 1 nil_error

abbrev pub never_fatal : Error → Bool
never_fatal e = false

-- The loop of `ExecuteOperationWithRetry`
abbrev pub operation_plan : (E : Env) → Action E (Unit {0}) → ℕ → ℕ → String → Plan E (Unit {0})
operation_plan E operation retries retry_delay operation_name = record {
  operation = operation;
  fatal = never_fatal;
  backoff = λ attempt. calculate_backoff E retry_delay attempt max_retry_delay;
  canceled = "operation " <> operation_name <> " canceled";
  exhausted = wrapped (
      "postgreSQL operation "
      <> operation_name
      <> " failed after "
      <> decimal retries
      <> " attempts");
}

-- `ExecuteOperationWithRetry`
unfoldable pub execute_operation_with_retry :
    (E : Env) → Action E (Unit {0}) → ℕ → ℕ → String → Action E (Unit {0})
unfolding with_retries
execute_operation_with_retry E operation retries retry_delay operation_name =
    with_retries (operation_plan E operation retries retry_delay operation_name) retries

-- The Vault client as the controllers hold it: its secret path, or nil.
abbrev pub VaultClient : Type 0
VaultClient = Option String

-- The loops of connection_retry.go, and their retries: a nil client fails at once.
module _ (E : Env) {A : Type 0} where
  abbrev pub vault_plan : Action E A → (Error → Bool) → String → String → ℕ → ℕ → Plan E A
  vault_plan operation fatal canceled failed retries retry_delay = record {
    operation = operation;
    fatal = fatal;
    backoff = calculate_vault_backoff E retry_delay;
    canceled = canceled <> " canceled";
    exhausted = wrapped (failed <> " after " <> decimal retries <> " attempts");
  }

  vault_retry :
      (String → Action E A) → (Error → Bool) → String → String → VaultClient → ℕ → ℕ → Action E A
  unfolding with_retries
  vault_retry operation fatal canceled failed none retries retry_delay =
      fail (plain "vault client is not configured")
  vault_retry operation fatal canceled failed (some secret_path) retries retry_delay =
      with_retries (vault_plan (operation secret_path) fatal canceled failed retries retry_delay)
        retries

module _ (E : Env) where
  unfoldable pub get_vault_credentials_with_retry :
      VaultClient → String → ℕ → ℕ → Action E (String × String)
  unfolding vault_retry is_secret_not_found
  get_vault_credentials_with_retry vault_client postgresql_id retries retry_delay =
      vault_retry E (λ p. get_postgresql_credentials E p postgresql_id) is_secret_not_found
        "vault credentials retrieval" "failed to get credentials from Vault" vault_client retries
        retry_delay

  unfoldable pub get_default_vault_credentials_with_retry :
      VaultClient → ℕ → ℕ → Action E (String × String)
  unfolding vault_retry is_secret_not_found
  get_default_vault_credentials_with_retry vault_client retries retry_delay =
      vault_retry E (λ p. get_default_credentials E p) is_secret_not_found
        "vault default credentials retrieval" "failed to get default credentials from Vault"
        vault_client retries retry_delay

  unfoldable pub store_vault_credentials_with_retry :
      VaultClient → String → String → String → ℕ → ℕ → Action E (Unit {0})
  unfolding vault_retry
  store_vault_credentials_with_retry vault_client postgresql_id login password retries retry_delay =
      vault_retry E (λ p. store_postgresql_credentials E p postgresql_id login password) never_fatal
        "vault instance admin credentials storage"
        "failed to store instance admin credentials in Vault" vault_client retries retry_delay

  unfoldable pub get_instance_admin_new_password_with_retry :
      VaultClient → String → ℕ → ℕ → Action E String
  unfolding vault_retry is_secret_not_found
  get_instance_admin_new_password_with_retry vault_client postgresql_id retries retry_delay =
      vault_retry E (λ p. get_instance_admin_new_password E p postgresql_id) is_secret_not_found
        "vault instance admin new password retrieval"
        "failed to get instance admin new password from Vault" vault_client retries retry_delay

  unfoldable pub rotate_instance_admin_password_with_retry :
      VaultClient → String → String → ℕ → ℕ → Action E (Unit {0})
  unfolding vault_retry
  rotate_instance_admin_password_with_retry vault_client postgresql_id new_password retries
        retry_delay =
      vault_retry E (λ p. rotate_instance_admin_password E p postgresql_id new_password) never_fatal
        "vault instance admin password rotation" "failed to rotate instance admin password in Vault"
        vault_client retries retry_delay

  unfoldable pub get_vault_user_credentials_with_retry :
      VaultClient → String → String → ℕ → ℕ → Action E String
  unfolding vault_retry
  get_vault_user_credentials_with_retry vault_client postgresql_id username retries retry_delay =
      vault_retry E (λ p. get_postgresql_user_credentials E p postgresql_id username) never_fatal
        "vault user credentials retrieval" "failed to get user credentials from Vault" vault_client
        retries retry_delay

  unfoldable pub store_vault_user_credentials_with_retry :
      VaultClient → String → String → String → ℕ → ℕ → Action E (Unit {0})
  unfolding vault_retry
  store_vault_user_credentials_with_retry vault_client postgresql_id username password retries
        retry_delay =
      vault_retry E (λ p. store_postgresql_user_credentials E p postgresql_id username password)
        never_fatal "vault user credentials storage" "failed to store user credentials in Vault"
        vault_client retries retry_delay
