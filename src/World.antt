-- ===== src/World.antt =====
-- The world outside the operator: the API server, Vault's key-value store, the PostgreSQL servers,
-- the clock and the random source. Their operations are the fields of `Env`, over a state of
-- their own; every call also leaves an entry in a trace, so that statements can speak of what
-- was called, with which arguments and in which order.
mod Values
mod Machine
mod Libraries
pub mod Steps
pub mod Fallible
pub use Values.*
pub use Machine.*
pub use Libraries.*
use k8s_postgresql_operator.Prelude.{
  ℕ, ℤ, String, Bool, Option, none, some, List, ◌∷◌, ◌≡◌, refl, ◌⊎◌, inl, inr,
}
use k8s_postgresql_operator.Errors.{Error}
use k8s_postgresql_operator.Api.{
  Condition, Postgresql, User, Database, Grant, RoleGroup, Schema, Object,
}

-- A call of the operator to the outside, with what it passes.
pub data Effect : Type 0 where
  kv_get : String → Effect
  kv_put : String → Data → Effect
  health : Effect
  sql_open : String → Effect
  sql_ping : String → Effect
  sql_query : String → String → List String → Effect
  sql_exec : String → String → List String → Effect
  k8s_get : String → String → Effect
  k8s_list : String → Effect
  k8s_update : Object → Effect
  status_update : Object → Effect
  event : String → String → String → Effect
  metric : String → String → Effect
  wait : ℕ → Effect
  sleep : ℕ → Effect
  random : ℕ → Effect
  now : Effect
  file_read : String → Effect
  file_write : String → String → Effect
  file_create : String → Effect
  file_append : String → String → Effect
  make_dir : String → Effect
  login : String → Effect
  logical_write : String → List (String × String) → Effect
  logical_read : String → Effect
  secret_get : String → String → Effect
  secret_create : String → String → List (String × String) → Effect
  secret_update : String → String → List (String × String) → Effect
  webhook_get : String → Effect
  webhook_update : String → WebhookConfiguration → Effect
  crypto : String → Effect
  runtime_call : RuntimeCall → Effect
  -- A gauge with its labels and its value; the expiry of a certificate by its source, with the
  -- end of its validity and the time then, whose difference is the gauge's value.
  gauge : String → List String → ℕ → Effect
  expiry : String → ℕ → ℕ → Effect

pub record Env : Type 1 where
  pub State : Type 0
  -- Vault: `KVv2(mount).Get` (`none` is a nil secret or nil data), `Put`, and `Sys().Health`
  -- (`ok false` is a nil response).
  pub get_secret : String → State → Result (Option Data) × State
  pub put_secret : String → Data → State → Result (Unit {0}) × State
  pub check_health : State → Result Bool × State
  -- `database/sql` with `lib/pq`, by connection string.
  pub open_db : String → State → Result (Unit {0}) × State
  pub ping_db : String → State → Result (Unit {0}) × State
  pub query_exists : String → String → String → State → Result Bool × State
  pub query_number : String → String → State → Result ℕ × State
  pub query_rows : String → String → String → State → Result Rows × State
  pub exec : String → String → List String → State → Result (Unit {0}) × State
  pub quote_identifier : String → String
  pub quote_literal : String → String
  -- controller-runtime's client: `Get` (`ok none` is a not-found error), `List`, `Update`,
  -- `Status().Update`.
  pub get_postgresql : String → String → State → Result (Option Postgresql) × State
  pub get_user : String → String → State → Result (Option User) × State
  pub get_database : String → String → State → Result (Option Database) × State
  pub get_grant : String → String → State → Result (Option Grant) × State
  pub get_rolegroup : String → String → State → Result (Option RoleGroup) × State
  pub get_schema : String → String → State → Result (Option Schema) × State
  pub list_postgresqls : State → Result (List Postgresql) × State
  pub list_users : State → Result (List User) × State
  pub list_databases : State → Result (List Database) × State
  pub list_grants : State → Result (List Grant) × State
  pub list_rolegroups : State → Result (List RoleGroup) × State
  pub list_schemas : State → Result (List Schema) × State
  pub update : Object → State → Result (Unit {0}) × State
  pub update_status : Object → State → Result (Unit {0}) × State
  -- apimachinery's `meta.SetStatusCondition` and `meta.FindStatusCondition`.
  pub set_status_condition : List Condition → Condition → List Condition
  pub find_status_condition : List Condition → String → Option Condition
  -- `select` on `time.After(d)` and `ctx.Done()`: `none` is the timer, `some` is `ctx.Err()`.
  pub wait_or_done : ℕ → State → Option Error × State
  pub now_time : State → ℕ × State
  -- `rand.Int(rand.Reader, n)`: a number below n, or an error.
  pub random_int : ℕ → State → Result ℕ × State
  -- SHA-256 of a text, in hexadecimal.
  pub sha256_hex : String → String
  -- The conversion of a float64 number of nanoseconds to a `time.Duration`, which can overflow.
  pub to_duration : ℕ → ℤ
  -- Files, Vault's logical interface, client-go and the crypto library.
  pub platform : Platform State
  -- controller-runtime and OpenTelemetry.
  pub runtime : Runtime State

pub record World (E : Env) : Type 0 where
  pub state : E.State
  -- The calls made so far, the latest first.
  pub trace : List Effect

-- Code that may call the outside.
abbrev pub M : Env → Type 0 → Type 0
M E A = World E → A × World E

-- The same with a Go error.
abbrev pub Action : Env → Type 0 → Type 0
Action E A = M E (Result A)

module _ {E : Env} {A : Type 0} where
  -- A call of an operation of the outside.
  abbrev pub call : Effect → (E.State → A × E.State) → M E A
  call e f w = let (a, s) = f w.state in (a, record { state = s; trace = e ∷ w.trace })

  abbrev pub pure : A → M E A
  pure a w = (a, w)

  abbrev pub return_ok : A → Action E A
  return_ok a w = (ok a, w)

  abbrev pub fail : Error → Action E A
  fail e w = (err e, w)

-- A call that only leaves its entry: an event, or a counter of the metrics.
abbrev pub note : {E : Env} → Effect → M E (Unit {0})
note e w = (tt, record w { trace = e ∷ w.trace })

-- `if err != nil { return fmt.Errorf(…) }`: what `f` makes of the error is returned.
abbrev pub map_err : {E : Env} {A : Type 0} → (Error → Error) → Action E A → Action E A
map_err f m w = let (r, w') = m w in elim r [ ok a ↦ (ok a, w') | err e ↦ (err (f e), w') ]
