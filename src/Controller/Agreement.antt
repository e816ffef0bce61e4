-- ===== src/Controller/Agreement.antt =====
-- The administrator's credentials of an instance in Vault and on its server
-- (internal/controller/postgresql_controller.go): a world with one instance, as far as these
-- credentials can be seen, and what the calls of the operator keep of it.
pub mod Steps
pub mod History
pub mod Known
pub mod Stuck
pub mod Rounds
pub mod Changes
pub mod Servers
pub mod Rotations
use k8s_postgresql_operator.Prelude.{
  ℕ, suc, String, ◌≡◌, refl, Bool, true, false, ◌||◌, Option, none, some, List, [], ◌∷◌, ◌&&◌, ◌==◌,
  ◌⊎◌, inl, inr, arith, if◌then◌else◌,
}
use k8s_postgresql_operator.Errors.{Error}
use k8s_postgresql_operator.Api.{Object}
use k8s_postgresql_operator.World.{
  Env, World, Action, Result, ok, err, Data, Effect, metric, random, call,
}
use k8s_postgresql_operator.Vault.{string_field, get_default_credentials}
use k8s_postgresql_operator.Postgres.{Server, connection_string, default_db}
use k8s_postgresql_operator.Postgres.Plain.{is_plain}
use k8s_postgresql_operator.Postgres.Roles.{alter_user, create_user}
use k8s_postgresql_operator.Retry.{Plan, await, calculate_backoff, with_retries}
use k8s_postgresql_operator.Retry.Operations.{calculate_backoff_keeps}
use k8s_postgresql_operator.Retry.Runs.{HasEnded, with_retries-HasEnded}

-- How many rotations have failed, on the server or in Vault.
unfoldable pub rotation_failures : List Effect → ℕ
rotation_failures [] = 0
rotation_failures (metric name label ∷ trace) =
    let n = rotation_failures trace in
    if name == "vault_password_rotation" && (label == "pg_failed" || label == "vault_failed")
    then suc n
    else n
rotation_failures (_ ∷ trace) = rotation_failures trace

-- The default credentials, where Vault gives them, are plain.
pub record HasPlainDefaults (E : Env) (secret_path : String) : Type 0 where
  pub plain :
      (w : World E) (login password : String)
      → (get_default_credentials E secret_path w).0 ≡ ok (login, password)
      → (is_plain login ≡ true) × (is_plain password ≡ true)

-- A world with one server that asks for passwords, the path of its secret in Vault, and how the
-- server is reached with a login and a password. A statement that succeeds sets the password of
-- its login; a statement or a write that fails, as with a timeout, either took effect or changed
-- nothing; the server answers a query on a connection with a plain login and password only if the
-- password is right; its address and SSL mode are plain; and no other call touches these.
pub record IsAccountWorld (E : Env) (path : String) (reach : String → String → Server)
    : Type 1 where
  pub Accounts : Type 0
  pub accounts : E.State → Accounts
  pub password : Accounts → String → String
  pub secret : E.State → Option Data
  pub read : (s : E.State) (d : Data) → (E.get_secret path s).0 ≡ ok (some d) → secret s ≡ some d
  pub got :
      (p : String) (s : E.State)
      → let s' = (E.get_secret p s).1 in (secret s' ≡ secret s) × (accounts s' ≡ accounts s)
  pub put : (d : Data) (s : E.State) → accounts (E.put_secret path d s).1 ≡ accounts s
  pub put_ok :
      (d : Data) (s : E.State)
      → (E.put_secret path d s).0 ≡ ok tt
      → secret (E.put_secret path d s).1 ≡ some d
  pub put_failed :
      (d : Data) (s : E.State) (e : Error)
      → (E.put_secret path d s).0 ≡ err e
      → (secret (E.put_secret path d s).1 ≡ secret s) ⊎ (secret (E.put_secret path d s).1 ≡ some d)
  pub opened :
      (conn : String) (s : E.State)
      → let s' = (E.open_db conn s).1 in (secret s' ≡ secret s) × (accounts s' ≡ accounts s)
  pub existed :
      (conn query arg : String) (s : E.State)
      → let s' = (E.query_exists conn query arg s).1 in
        (secret s' ≡ secret s) × (accounts s' ≡ accounts s)
  pub numbered :
      (conn query : String) (s : E.State)
      → let s' = (E.query_number conn query s).1 in
        (secret s' ≡ secret s) × (accounts s' ≡ accounts s)
  pub drawn :
      (n : ℕ) (s : E.State)
      → let s' = (E.random_int n s).1 in (secret s' ≡ secret s) × (accounts s' ≡ accounts s)
  pub waited :
      (n : ℕ) (s : E.State)
      → let s' = (E.wait_or_done n s).1 in (secret s' ≡ secret s) × (accounts s' ≡ accounts s)
  pub timed :
      (s : E.State)
      → let s' = (E.now_time s).1 in (secret s' ≡ secret s) × (accounts s' ≡ accounts s)
  pub updated :
      (object : Object) (s : E.State)
      → let s' = (E.update_status object s).1 in (secret s' ≡ secret s) × (accounts s' ≡ accounts s)
  pub executed : (conn query : String) (s : E.State) → secret (E.exec conn query [] s).1 ≡ secret s
  pub alter_failed :
      (conn login new : String) (s : E.State) (e : Error)
      → (E.exec conn (alter_user E login new) [] s).0 ≡ err e
      → let s' = (E.exec conn (alter_user E login new) [] s).1 in
        (accounts s' ≡ accounts s) ⊎ (password (accounts s') login ≡ new)
  pub create_failed :
      (conn login new : String) (s : E.State) (e : Error)
      → (E.exec conn (create_user E login new) [] s).0 ≡ err e
      → let s' = (E.exec conn (create_user E login new) [] s).1 in
        (accounts s' ≡ accounts s) ⊎ (password (accounts s') login ≡ new)
  pub altered :
      (conn login new : String) (s : E.State)
      → (E.exec conn (alter_user E login new) [] s).0 ≡ ok tt
      → password (accounts (E.exec conn (alter_user E login new) [] s).1) login ≡ new
  pub created :
      (conn login new : String) (s : E.State)
      → (E.exec conn (create_user E login new) [] s).0 ≡ ok tt
      → password (accounts (E.exec conn (create_user E login new) [] s).1) login ≡ new
  pub address :
      (login given : String)
      → (is_plain (reach login given).host ≡ true) × (is_plain (reach login given).ssl_mode ≡ true)
  pub logged_in :
      (login given query : String) (s : E.State) (n : ℕ)
      → is_plain login ≡ true
      → is_plain given ≡ true
      → (E.query_number (connection_string (reach login given) default_db) query s).0 ≡ ok n
      → password (accounts s) login ≡ given

module _ {E : Env} {path : String} {reach : String → String → Server}
    (k : IsAccountWorld E path reach) where
  -- Whether the credentials in Vault, where there are any, are those of the server.
  abbrev pub is_agreed : World E → Bool
  is_agreed w = elim (k.secret w.state) [
    | none ↦ true
    | some d ↦
        let login = string_field "login" d in
        let stored = string_field "password" d in
        login == "" || stored == "" || k.password (k.accounts w.state) login == stored
  ]

  -- What is the same in two worlds.
  abbrev pub IsKept : World E → World E → Type 0
  IsKept w w' =
      (k.secret w'.state ≡ k.secret w.state)
      × (k.accounts w'.state ≡ k.accounts w.state)
      × (rotation_failures w'.trace ≡ rotation_failures w.trace)

  -- Whether the server's password of the administrator is the one in the secret or the one that the
  -- secret asks for, where there are credentials.
  abbrev pub is_known : World E → Bool
  is_known w = elim (k.secret w.state) [
    | none ↦ true
    | some d ↦
        let login = string_field "login" d in
        let stored = string_field "password" d in
        let held = k.password (k.accounts w.state) login in
        login == "" || stored == "" || held == stored || held == string_field "new_password" d
  ]

  -- After some steps the credentials agree and no rotation has failed; or one has failed, and the
  -- server's password is one that the secret has.
  abbrev pub HasAgreed : World E → World E → Type 0
  HasAgreed w w' =
      ((is_agreed w' ≡ true) × (rotation_failures w'.trace ≡ rotation_failures w.trace))
      ⊎ ((is_known w' ≡ true) × (rotation_failures w'.trace ≡ suc (rotation_failures w.trace)))

  -- The end of a change of the password of a login on the server that failed.
  abbrev pub HasTried : String → String → World E → World E → Type 0
  HasTried login new w w' =
      (k.secret w'.state ≡ k.secret w.state)
      × ((k.accounts w'.state ≡ k.accounts w.state)
          ⊎ (k.password (k.accounts w'.state) login ≡ new))
      × (rotation_failures w'.trace ≡ rotation_failures w.trace)

  pub calculate_backoff-IsKept :
      (w : World E) (base_delay max_delay attempt : ℕ) (v : World E)
      → IsKept w v
      → IsKept w (calculate_backoff E base_delay attempt max_delay v).1
  unfolding rotation_failures
  calculate_backoff-IsKept w base_delay max_delay attempt v h =
      calculate_backoff_keeps (IsKept w) (λ n u p. ground (arith, p, k.drawn n u.state)) base_delay
        attempt max_delay v h

  pub await-IsKept : (w : World E) (n : ℕ) (v : World E) → IsKept w v → IsKept w (await E n v).1
  unfolding rotation_failures
  await-IsKept w n v h = ground (arith, h, k.waited n v.state)

  pub HasAgreed-IsKept :
      (w v v' w' : World E) → IsKept w v → HasAgreed v v' → IsKept v' w' → HasAgreed w w'
  HasAgreed-IsKept w v v' w' before h after = elim h [
    | inl (a, n) ↦ inl (ground (arith, a, after), ground (arith, n, before, after))
    | inr (a, n) ↦ inr (ground (arith, a, after), ground (arith, n, before, after))
  ]

  pub HasTried-trans :
      (login new : String) (w v v' : World E)
      → HasTried login new w v
      → HasTried login new v v'
      → HasTried login new w v'
  HasTried-trans login new w v v' (s, a, f) (s', inl a', f') = (
    ground (arith, s, s'),
    elim a [ inl same ↦ inl (ground (arith, same, a')) | inr set ↦ inr (ground (arith, set, a')) ],
    ground (arith, f, f'),
  )
  HasTried-trans login new w v v' (s, a, f) (s', inr a', f') =
      (ground (arith, s, s'), inr a', ground (arith, f, f'))

  HasTried-IsKept :
      (login new : String) (w v v' : World E)
      → HasTried login new w v
      → IsKept v v'
      → HasTried login new w v'
  HasTried-IsKept login new w v v' h (s, a, f) = HasTried-trans login new w v v' h (s, inl a, f)

  pub calculate_backoff-HasTried :
      (w : World E) (login new : String) (base_delay max_delay attempt : ℕ) (v : World E)
      → HasTried login new w v
      → HasTried login new w (calculate_backoff E base_delay attempt max_delay v).1
  calculate_backoff-HasTried w login new base_delay max_delay attempt v h =
      HasTried-IsKept login new w v (calculate_backoff E base_delay attempt max_delay v).1 h
        (calculate_backoff-IsKept v base_delay max_delay attempt v (refl, refl, refl))

  pub await-HasTried :
      (w : World E) (login new : String) (n : ℕ) (v : World E)
      → HasTried login new w v
      → HasTried login new w (await E n v).1
  await-HasTried w login new n v h =
      HasTried-IsKept login new w v (await E n v).1 h (await-IsKept v n v (refl, refl, refl))
