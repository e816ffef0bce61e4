-- ===== src/Vault/Refinement.antt =====
-- The users' passwords in Vault as a map by ID and name (internal/vault/vault.go), which the client's
-- two operations implement on a reliable store.
use k8s_postgresql_operator.Prelude.{
  String, ◌≡◌, ◌≢◌, true, ◌&&◌, Option, none, some, List, [], ◌∷◌, ◌==◌, if◌then◌else◌,
}
use k8s_postgresql_operator.Errors.{Error}
use k8s_postgresql_operator.World.{Env, World, Result, ok, err, Data}
use k8s_postgresql_operator.Vault.{
  is_vault_not_found_error, string_field, user_path, get_postgresql_user_credentials,
  store_postgresql_user_credentials,
}
use k8s_postgresql_operator.Vault.Paths.{is_segment}

-- What the operator relies on in a store that is reliable: a read gives the content of its path, or
-- the error for a missing secret where there is none, and changes nothing; and every write is made
-- and changes its own path only.
pub record IsReliableStore (E : Env) : Type 0 where
  pub content : E.State → String → Option Data
  pub present :
      (p : String) (s : E.State) (d : Data)
      → content s p ≡ some d
      → E.get_secret p s ≡ (ok (some d), s)
  pub missing :
      (p : String) (s : E.State)
      → content s p ≡ none
      → (e : Error) × (is_vault_not_found_error e ≡ true) × (E.get_secret p s ≡ (err e, s))
  pub stored : (p : String) (d : Data) (s : E.State) → (E.put_secret p d s).0 ≡ ok tt
  pub changed : (p : String) (d : Data) (s : E.State) → content (E.put_secret p d s).1 p ≡ some d
  pub unchanged :
      (p q : String) (d : Data) (s : E.State)
      → q ≢ p
      → content (E.put_secret p d s).1 q ≡ content s q

-- What the reconcilers ask of the client about a user's password.
pub data Request : Type 0 where
  put_password : String → String → String → Request
  get_password : String → String → Request

abbrev pub id_of : Request → String
id_of (put_password id username password) = id
id_of (get_password id username) = id

-- The abstract map.
abbrev pub Passwords : Type 0
Passwords = String → String → Option String

abbrev pub nonempty : String → Option String
nonempty password = if password == "" then none else some password

abbrev pub assign : String → String → String → Passwords → Passwords
assign id username password passwords id' username' =
    if id' == id && username' == username then nonempty password else passwords id' username'

-- The answers that the map gives to requests, one for each question.
unfoldable pub specified : Passwords → List Request → List (Option String)
specified passwords [] = []
specified passwords (put_password id username password ∷ requests) =
    specified (assign id username password passwords) requests
specified passwords (get_password id username ∷ requests) =
    passwords id username ∷ specified passwords requests

-- The password in a secret.
unfoldable pub password_in : Option Data → Option String
unfolding string_field
password_in none = none
password_in (some d) = nonempty (string_field "password" d)

abbrev pub answer_of : Result String → Option String
answer_of (ok password) = some password
answer_of (err e) = none

module _ (E : Env) (secret_path : String) where
  -- The answers that the client gives.
  unfoldable pub served : List Request → World E → List (Option String)
  served [] w = []
  served (put_password id username password ∷ requests) w =
      let r = store_postgresql_user_credentials E secret_path id username password w in
      served requests r.1
  served (get_password id username ∷ requests) w =
      let r = get_postgresql_user_credentials E secret_path id username w in
      answer_of r.0 ∷ served requests r.1

  module _ (store : IsReliableStore E) where
    -- The map that a state of the store stands for.
    unfoldable pub stored_passwords : E.State → Passwords
    stored_passwords s id username =
        password_in (store.content s (user_path secret_path id username))

    -- The map agrees with the state on the IDs without a slash.
    abbrev Agrees : Passwords → E.State → Type 0
    Agrees passwords s =
        (id username : String)
        → is_segment id ≡ true
        → passwords id username ≡ stored_passwords s id username
