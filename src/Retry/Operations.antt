-- ===== src/Retry/Operations.antt =====
-- The retries of one operation (internal/postgresql/retry.go).
use k8s_postgresql_operator.Prelude.{
  ℕ, suc, ◌+◌, Bool-cases, some, arith, ◌*◌, ◌/◌, ◌^◌, String, ◌≡◌, ltb, inl, inr, if◌then◌else◌,
}
use k8s_postgresql_operator.World.{Env, World, Action, ok, Result-cases, random, call}
use k8s_postgresql_operator.Vault.{
  get_postgresql_user_credentials, store_postgresql_user_credentials,
}
use k8s_postgresql_operator.Retry.{
  with_retries, attempts, get_vault_user_credentials_with_retry,
  store_vault_user_credentials_with_retry, calculate_backoff, await, execute_operation_with_retry,
  operation_plan, max_retry_delay,
}
use k8s_postgresql_operator.Retry.Delays.{duration-cases}
use k8s_postgresql_operator.Retry.Laws.{with_retries-ok, with_retries_keeps}

pub calculate_backoff_keeps :
    {E : Env} (P : World E → Type 0)
    → ((n : ℕ) (w : World E) → P w → P (call (random n) (E.random_int n) w).1)
    → (base_delay attempt max_delay : ℕ) (w : World E) → P w
    → P (calculate_backoff E base_delay attempt max_delay w).1
unfolding calculate_backoff
calculate_backoff_keeps {E} P drawn base_delay attempt max_delay w h =
    elim (duration-cases (E.to_duration (base_delay * 2 ^ attempt / 2))) [
      | inl (scaled, fits) ↦
          let delay = if ltb max_delay scaled then max_delay else scaled in
          elim (Result-cases (E.random_int (delay / 4 + 1) w.state).0) [
            | inl (k, p) ↦ rw (fits, p, calculate_backoff) (drawn (delay / 4 + 1) w h)
            | inr (e, p) ↦ rw (fits, p, calculate_backoff) (drawn (delay / 4 + 1) w h)
          ]
      | inr (n, overflow) ↦ elim (Bool-cases (ltb n 3)) [
        | inl small ↦ rw (overflow, small, calculate_backoff) (drawn 1 w h)
        | inr large ↦ rw (overflow, large, calculate_backoff) h
      ]
    ]

module _ (E : Env) (operation : Action E (Unit {0})) (retries retry_delay : ℕ)
    (operation_name : String) where
  -- If the retried operation succeeds, then some call of the operation succeeded and nothing was
  -- done after that call.
  pub execute_operation_with_retry-ok :
      (w : World E)
      → (execute_operation_with_retry E operation retries retry_delay operation_name w).0 ≡ ok tt
      → (w' : World E) × (operation w').0 ≡ ok tt
        × ((execute_operation_with_retry E operation retries retry_delay operation_name w).1
            ≡ (operation w').1)
  unfolding execute_operation_with_retry
  execute_operation_with_retry-ok w h =
      with_retries-ok (operation_plan E operation retries retry_delay operation_name) retries w h

  -- A property that the operation, a wait and a draw of a random number keep is kept.
  pub execute_operation_with_retry_keeps :
      (P : World E → Type 0)
      → ((w : World E) → P w → P (operation w).1)
      → ((n : ℕ) (w : World E) → P w → P (call (random n) (E.random_int n) w).1)
      → ((n : ℕ) (w : World E) → P w → P (await E n w).1)
      → (w : World E) → P w
      → P (execute_operation_with_retry E operation retries retry_delay operation_name w).1
  unfolding execute_operation_with_retry
  execute_operation_with_retry_keeps P called drawn waited w h =
      with_retries_keeps (operation_plan E operation retries retry_delay operation_name) P called
        (λ n v k. calculate_backoff_keeps P drawn retry_delay n max_retry_delay v k) waited retries
        w h

module _ (E : Env) (secret_path postgresql_id username : String) (n retry_delay : ℕ)
    (w : World E) where
  -- A first attempt that succeeds is the only one.
  pub get_vault_user_credentials_at_once :
      {password : String}
      → (get_postgresql_user_credentials E secret_path postgresql_id username w).0 ≡ ok password
      → get_vault_user_credentials_with_retry E
          (some secret_path)
          postgresql_id
          username
          (suc n)
          retry_delay
          w
        ≡ get_postgresql_user_credentials E secret_path postgresql_id username w
  unfolding get_vault_user_credentials_with_retry with_retries attempts
  get_vault_user_credentials_at_once h = ground arith

  pub store_vault_user_credentials_at_once :
      (password : String)
      → (store_postgresql_user_credentials E secret_path postgresql_id username password w).0
        ≡ ok tt
      → store_vault_user_credentials_with_retry E
          (some secret_path)
          postgresql_id
          username
          password
          (suc n)
          retry_delay
          w
        ≡ store_postgresql_user_credentials E secret_path postgresql_id username password w
  unfolding store_vault_user_credentials_with_retry with_retries attempts
  store_vault_user_credentials_at_once password h = ground arith
