-- ===== src/Controller/Agreement/Steps.antt =====
-- What the retried operations of a round keep of the administrator's credentials
-- (internal/controller/connection_retry.go, internal/postgresql/retry.go).
use k8s_postgresql_operator.Prelude.{
  ℕ, String, ◌≡◌, refl, Bool, true, false, none, some, ◌==◌, ◌⊎◌, inl, inr, arith,
}
use k8s_postgresql_operator.Errors.{Error, is_secret_not_found}
use k8s_postgresql_operator.World.{Env, World, Action, ok, err, Data, Result-cases}
use k8s_postgresql_operator.Vault.{
  string_field, instance_admin_path, default_path, get_postgresql_credentials,
  get_default_credentials, get_instance_admin_new_password,
}
use k8s_postgresql_operator.Postgres.{Server}
use k8s_postgresql_operator.Retry.{
  Plan, await, vault_plan, calculate_backoff, with_retries, max_vault_retry_delay,
  calculate_vault_backoff, get_vault_credentials_with_retry,
  get_default_vault_credentials_with_retry, get_instance_admin_new_password_with_retry,
}
use k8s_postgresql_operator.Retry.Laws.{with_retries-ok}
use k8s_postgresql_operator.Retry.Runs.{HasEnded, with_retries-HasEnded}
use k8s_postgresql_operator.Postgres.Plain.{is_plain}
use k8s_postgresql_operator.Controller.Agreement.{
  IsAccountWorld, HasPlainDefaults, IsKept, rotation_failures, calculate_backoff-IsKept,
  await-IsKept,
}

module _ {E : Env} (sp id : String) {reach : String → String → Server}
    (k : IsAccountWorld E (instance_admin_path sp id) reach) where
  -- A loop whose delays are those of `calculate_backoff`.
  pub loop-HasEnded :
      {A : Type 0} (plan : Plan E A) (base max retries : ℕ) (w : World E)
      → ((v : World E) (e : Error) → (plan.operation v).0 ≡ err e → IsKept k v (plan.operation v).1)
      → ((n : ℕ) (v : World E) → (plan.backoff n v).1 ≡ (calculate_backoff E base n max v).1)
      → HasEnded (IsKept k w) plan.operation (with_retries plan retries w)
  loop-HasEnded plan base max retries w called delays =
      with_retries-HasEnded plan (IsKept k w) (λ v e h p. ground (arith, p, called v e h))
        (λ n v p. ground (arith, delays n v, calculate_backoff-IsKept k w base max n v p))
        (await-IsKept k w) retries w (refl, refl, refl)

  pub vault-HasEnded :
      {A : Type 0} (operation : Action E A) (fatal : Error → Bool) (canceled failed : String)
      (retries delay : ℕ) (w : World E)
      → ((v : World E) (e : Error) → (operation v).0 ≡ err e → IsKept k v (operation v).1)
      → HasEnded
          (IsKept k w)
          operation
          (with_retries (vault_plan E operation fatal canceled failed retries delay) retries w)
  unfolding calculate_vault_backoff
  vault-HasEnded operation fatal canceled failed retries delay w called =
      loop-HasEnded (vault_plan E operation fatal canceled failed retries delay) delay
        max_vault_retry_delay retries w called (λ n v. refl)

  -- The same for any property that is kept by what keeps the credentials.
  pub vault-HasEnded_by :
      {A : Type 0} (operation : Action E A) (fatal : Error → Bool) (canceled failed : String)
      (retries delay : ℕ) (w : World E) (P : World E → Type 0)
      → ((v v' : World E) → P v → IsKept k v v' → P v')
      → ((v : World E) (e : Error) → (operation v).0 ≡ err e → P v → P (operation v).1)
      → P w
      → HasEnded P operation
          (with_retries (vault_plan E operation fatal canceled failed retries delay) retries w)
  unfolding calculate_vault_backoff
  vault-HasEnded_by operation fatal canceled failed retries delay w P still called h =
      with_retries-HasEnded (vault_plan E operation fatal canceled failed retries delay) P called
        (λ n v p.
          still v (calculate_backoff E delay n max_vault_retry_delay v).1 p
            (calculate_backoff-IsKept k v delay max_vault_retry_delay n v (refl, refl, refl)))
        (λ n v p. still v (await E n v).1 p (await-IsKept k v n v (refl, refl, refl))) retries w h

  -- The credentials of the secret are read, or an error is returned.
  get_postgresql_credentials-IsKept :
      (v : World E) → IsKept k v (get_postgresql_credentials E sp id v).1
  unfolding get_postgresql_credentials rotation_failures
  get_postgresql_credentials-IsKept v = ground (arith, k.got (instance_admin_path sp id) v.state)

  get_postgresql_credentials_read :
      (v : World E) (login password : String)
      → (get_postgresql_credentials E sp id v).0 ≡ ok (login, password)
      → (d : Data) × (k.secret v.state ≡ some d)
        × (string_field "login" d ≡ login)
        × (string_field "password" d ≡ password)
        × ((login == "") ≡ false)
        × ((password == "") ≡ false)
  unfolding get_postgresql_credentials
  get_postgresql_credentials_read v login password h =
      elim (Result-cases (E.get_secret (instance_admin_path sp id) v.state).0) [
        | inr (e, p) ↦ absurd (ground (arith))
        | inl (none, p) ↦ absurd (ground (arith))
        | inl (some d, p) ↦
            (d, k.read v.state d p, ground (arith), ground (arith), ground (arith), ground (arith))
      ]

  pub get_vault_credentials_with_retry-IsKept :
      (retries delay : ℕ) (w : World E)
      → let (r, w') = get_vault_credentials_with_retry E (some sp) id retries delay w in
        IsKept k w w'
        × (((d : Data) × (login : String) × (password : String) × (r ≡ ok (login, password))
              × (k.secret w.state ≡ some d)
              × (string_field "login" d ≡ login)
              × (string_field "password" d ≡ password)
              × ((login == "") ≡ false)
              × ((password == "") ≡ false))
            ⊎ ((e : Error) × (r ≡ err e)))
  unfolding get_vault_credentials_with_retry calculate_vault_backoff
  get_vault_credentials_with_retry-IsKept retries delay w =
      elim (vault-HasEnded (get_postgresql_credentials E sp id) is_secret_not_found
        "vault credentials retrieval" "failed to get credentials from Vault" retries delay w
        (λ v e h. get_postgresql_credentials-IsKept v)) [
          | inr (e, p, h) ↦ (h, inr (e, p))
          | inl ((login, password), v, kept, h, p, same) ↦
              let (d, s, l, q, a, b) = get_postgresql_credentials_read v login password h in
              (
                ground (arith, kept, same, get_postgresql_credentials-IsKept v),
                inl (d, login, password, p, ground (arith, s, kept), l, q, a, b),
              )
        ]

  get_default_credentials-IsKept : (v : World E) → IsKept k v (get_default_credentials E sp v).1
  unfolding get_default_credentials rotation_failures
  get_default_credentials-IsKept v = ground (arith, k.got (default_path sp) v.state)

  pub get_default_vault_credentials_with_retry-IsKept :
      (retries delay : ℕ) (w : World E)
      → IsKept k w (get_default_vault_credentials_with_retry E (some sp) retries delay w).1
  unfolding get_default_vault_credentials_with_retry
  get_default_vault_credentials_with_retry-IsKept retries delay w =
      elim (vault-HasEnded (get_default_credentials E sp) is_secret_not_found
        "vault default credentials retrieval" "failed to get default credentials from Vault" retries
        delay w (λ v e h. get_default_credentials-IsKept v)) [
          | inr (e, p, h) ↦ h
          | inl (a, v, kept, h, p, same) ↦
              ground (arith, kept, same, get_default_credentials-IsKept v)
        ]

  pub get_default_vault_credentials_with_retry_plain :
      HasPlainDefaults E sp
      → (retries delay : ℕ) (w : World E) (login password : String)
      → (get_default_vault_credentials_with_retry E (some sp) retries delay w).0
        ≡ ok (login, password)
      → (is_plain login ≡ true) × (is_plain password ≡ true)
  unfolding get_default_vault_credentials_with_retry
  get_default_vault_credentials_with_retry_plain defaults retries delay w login password h =
      let (v, p, same) =
        with_retries-ok
          (vault_plan E (get_default_credentials E sp) is_secret_not_found
            "vault default credentials retrieval" "failed to get default credentials from Vault"
            retries delay)
          retries w h in
      defaults.plain v login password p

  get_instance_admin_new_password-IsKept :
      (v : World E) → IsKept k v (get_instance_admin_new_password E sp id v).1
  unfolding get_instance_admin_new_password rotation_failures
  get_instance_admin_new_password-IsKept v =
      ground (arith, k.got (instance_admin_path sp id) v.state)

  get_instance_admin_new_password_read :
      (v : World E) (new : String)
      → (get_instance_admin_new_password E sp id v).0 ≡ ok new
      → (d : Data) × (k.secret v.state ≡ some d) × (string_field "new_password" d ≡ new)
  unfolding get_instance_admin_new_password
  get_instance_admin_new_password_read v new h =
      elim (Result-cases (E.get_secret (instance_admin_path sp id) v.state).0) [
        | inr (e, p) ↦ absurd (ground (arith))
        | inl (none, p) ↦ absurd (ground (arith))
        | inl (some d, p) ↦ (d, k.read v.state d p, ground (arith))
      ]

  pub get_instance_admin_new_password_with_retry-IsKept :
      (retries delay : ℕ) (w : World E)
      → let (r, w') = get_instance_admin_new_password_with_retry E (some sp) id retries delay w in
        IsKept k w w'
        × (((d : Data) × (new : String) × (r ≡ ok new)
              × (k.secret w.state ≡ some d)
              × (string_field "new_password" d ≡ new))
            ⊎ ((e : Error) × (r ≡ err e)))
  unfolding get_instance_admin_new_password_with_retry
  get_instance_admin_new_password_with_retry-IsKept retries delay w =
      elim (vault-HasEnded (get_instance_admin_new_password E sp id) is_secret_not_found
        "vault instance admin new password retrieval"
        "failed to get instance admin new password from Vault" retries delay w
        (λ v e h. get_instance_admin_new_password-IsKept v)) [
          | inr (e, p, h) ↦ (h, inr (e, p))
          | inl (new, v, kept, h, p, same) ↦
              let (d, s, q) = get_instance_admin_new_password_read v new h in
              (
                ground (arith, kept, same, get_instance_admin_new_password-IsKept v),
                inl (d, new, p, ground (arith, s, kept), q),
              )
        ]
