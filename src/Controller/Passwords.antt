-- ===== src/Controller/Passwords.antt =====
-- The passwords of users (internal/controller/user_controller.go).
use package.text.Mathlib.TextLemmas.{length-append}
use Prim.Native.String.{count}
use k8s_postgresql_operator.Retry.Laws.{IsRandomSource}
use k8s_postgresql_operator.Prelude.{
  zero, ◌<◌, List, [], ◌∷◌, Bool, true, ◌&&◌, eqb, length, inl, inr, refl, sym, ap, ℕ, suc, String,
  ◌≡◌, ◌≢◌, false, some, arith, eq_false,
}
use k8s_postgresql_operator.Api.{User}
use k8s_postgresql_operator.World.{call, random, Result-cases, Env, World, ok}
use k8s_postgresql_operator.Vault.{store_postgresql_user_credentials}
use k8s_postgresql_operator.Vault.Laws.{IsKeyValueStore, get-store_postgresql_user_credentials}
use k8s_postgresql_operator.Retry.Operations.{
  get_vault_user_credentials_at_once, store_vault_user_credentials_at_once,
}
use k8s_postgresql_operator.Controller.{Reconciler}
use k8s_postgresql_operator.Controller.Users.{
  charset, charset_size, nth, generate_random_password, renew_user_password,
  handle_vault_user_password,
}

-- Whether all the texts are of one character.
abbrev all_single : List String → Bool
all_single [] = true
all_single (c ∷ cs) = eqb (count c) 1 && all_single cs

nth_single : (l : List String) (i : ℕ) → all_single l ≡ true → i < length l → count (nth l i) ≡ 1
nth_single [] i h lt = absurd (omega arith)
nth_single (c ∷ cs) zero h lt = ground arith
nth_single (c ∷ cs) (suc i) h lt = nth_single cs i (ground arith) (omega arith)

-- If random numbers are below their bound, a generated password has exactly the number of
-- characters that was asked for.
pub generate_random_password-length :
    (E : Env)
    → IsRandomSource E
    → (n : ℕ) (w : World E) {password : String} → (generate_random_password E n w).0 ≡ ok password
    → count password ≡ n
unfolding generate_random_password
generate_random_password-length E source zero w {password} h =
    let empty : "" ≡ password = cc in sym (ap count empty)
generate_random_password-length E source (suc n) w {password} h =
    let w₁ : World E = (call {E = E} (random charset_size) (E.random_int charset_size) w).1 in
    elim (Result-cases (E.random_int charset_size w.state).0) [
      | inr (e, p) ↦ absurd (ground arith)
      | inl (i, p) ↦ elim (Result-cases (generate_random_password E n w₁).0) [
        | inr (e, q) ↦ absurd (ground arith)
        | inl (rest, q) ↦
            let single = nth_single charset i refl (source.below charset_size w.state i p) in
            ground (
              arith,
              single,
              generate_random_password-length E source n w₁ q,
              length-append (nth charset i) rest,
            )
      ]
    ]

-- On a key-value store, if random numbers are below their bound, and with a Vault client and at
-- least one attempt, a generated password whose first store succeeds is the one returned, and the
-- one that the next reconciliation returns if updatePassword is off.
pub handle-renew_user_password :
    (E : Env)
    → IsKeyValueStore E
    → IsRandomSource E
    → (r : Reconciler) (user : User) (w : World E) {path password : String} {n : ℕ}
    → r.vault_client ≡ some path
    → r.vault_retries ≡ suc n
    → user.spec.update_password ≡ false
    → (generate_random_password E 32 w).0 ≡ ok password
    → (store_postgresql_user_credentials E path user.spec.postgresql_id user.spec.username password
        (generate_random_password E 32 w).1).0
      ≡ ok tt
    → let (returned, w') = renew_user_password E r user w in
      (returned ≡ password) × ((handle_vault_user_password E r user w').0 ≡ password)
unfolding renew_user_password handle_vault_user_password
handle-renew_user_password E kv source r user w {path} {password} {n} client retries off generated
      stored =
    let size = generate_random_password-length E source 32 w generated in
    let filled : password ≢ "" = λ h. absurd (ground (arith, size, ap count h)) in
    let w₁ : World E = (generate_random_password E 32 w).1 in
    let store =
      store_postgresql_user_credentials E path user.spec.postgresql_id user.spec.username
        password in
    let w₂ : World E = (store w₁).1 in
    let read =
      get-store_postgresql_user_credentials E kv path user.spec.postgresql_id user.spec.username
        password w₁ filled stored in
    let once =
      store_vault_user_credentials_at_once E path user.spec.postgresql_id user.spec.username n
        r.vault_retry_delay w₁ password stored in
    let again =
      get_vault_user_credentials_at_once E path user.spec.postgresql_id user.spec.username n
        r.vault_retry_delay w₂ read in
    (ground arith, ground (arith, client, retries, eq_false password "" filled, once, again, read))
