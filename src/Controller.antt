-- ===== src/Controller.antt =====
-- What the reconcilers share (internal/controller/base_reconciler.go and
-- internal/controller/helpers): their configuration and results, the way to a connected server,
-- and the head and the tail that their loops have in common.
pub mod Agreement
pub mod Databases
pub mod Users
pub mod Privileges
pub mod Instances
pub mod Reports
pub mod Passwords
pub mod Finalizers
pub mod Instance
use k8s_postgresql_operator.Prelude.{
  ℕ, ◌*◌, String, ◌<>◌, Bool, true, false, not, Option, none, some, List, [], ◌∷◌, ◌==◌, eqb,
  if◌then◌else◌,
}
use k8s_postgresql_operator.Errors.{Error, error_text}
use k8s_postgresql_operator.Api.{
  ObjectMeta, Condition, ConditionStatus, condition_true, condition_false, Postgresql,
  ExternalPostgresqlInstance, SyncStatus, Object,
}
use k8s_postgresql_operator.Metrics.Counters.{inc_reconcile_errors, inc_reconcile_total}
use k8s_postgresql_operator.World.{
  Env, World, M, Action, Result, ok, err, Effect, k8s_get, k8s_update, status_update, event, metric,
  now, call, note, pure, return_ok,
}
use k8s_postgresql_operator.World.Steps.{◌>>=◌, ◌>>◌}
use k8s_postgresql_operator.Retry.{second, VaultClient, get_vault_credentials_with_retry}
use k8s_postgresql_operator.Cluster.{find_postgresql_by_id}
use k8s_postgresql_operator.Postgres.{Server}
use k8s_postgresql_operator.Postgres.Connection.{port_of, ssl_mode_of}

-- `BaseReconcilerConfig`
pub record Reconciler : Type 0 where
  pub vault_client : VaultClient
  pub connection_retries : ℕ
  pub connection_timeout : ℕ
  pub vault_retries : ℕ
  pub vault_retry_delay : ℕ

-- `ctrl.Result` and the error of a `Reconcile`.
pub record Outcome : Type 0 where
  pub requeue : Bool
  pub requeue_after : ℕ
  pub error : Option Error

abbrev pub finished : Outcome
finished = record { requeue = false; requeue_after = 0; error = none }

abbrev pub requeued : Outcome
requeued = record { requeue = true; requeue_after = 0; error = none }

abbrev pub later : Outcome
later = record { requeue = false; requeue_after = 30 * second; error = none }

abbrev pub failed : Error → Outcome
failed e = record { requeue = false; requeue_after = 0; error = some e }

-- `return ctrl.Result{}, err`
abbrev pub outcome_of : Result (Unit {0}) → Outcome
outcome_of (ok u) = finished
outcome_of (err e) = failed e

-- `ContainsString`
unfoldable pub contains_string : List String → String → Bool
contains_string [] s = false
contains_string (item ∷ slice) s = if item == s then true else contains_string slice s

-- `RemoveString`
unfoldable pub remove_string : List String → String → List String
remove_string [] s = []
remove_string (item ∷ slice) s =
    let rest = remove_string slice s in if item == s then rest else item ∷ rest

abbrev pub is_nil {ℓ} : {A : Type ℓ} → Option A → Bool
is_nil none = true
is_nil (some x) = false

-- The `UpdateFunc` of `IgnoreStatusUpdatesPredicate`
unfoldable pub triggers_on_update : ObjectMeta → ObjectMeta → Bool
triggers_on_update old new =
    if not (eqb old.generation new.generation)
    then true
    else if is_nil old.deletion_timestamp
    then not (is_nil new.deletion_timestamp)
    else is_nil new.deletion_timestamp

-- `type connectionInfo`
pub record ConnectionInfo : Type 0 where
  pub external : ExternalPostgresqlInstance
  pub port : ℕ
  pub ssl_mode : String
  pub username : String
  pub password : String

-- The arguments that the operations take from it.
abbrev pub server_of : ConnectionInfo → Server
server_of info = record {
  host = info.external.address;
  port = info.port;
  admin_user = info.username;
  admin_password = info.password;
  ssl_mode = info.ssl_mode;
}

-- A connection, or the reason and the message of a refusal.
pub data Resolution : Type 0 where
  resolved : ConnectionInfo → Resolution
  unresolved : String → String → Resolution

-- What the status, the event and the message of a synchronisation say.
pub record Texts : Type 0 where
  pub failure_reason : String
  pub success_reason : String
  pub failure : String
  pub success : String
  pub failure_event : String
  pub success_event : String

module _ (E : Env) where
  -- `UpdateCondition`
  unfoldable pub update_condition :
      List Condition → ℕ → String → ConditionStatus → String → String → List Condition
  update_condition conditions generation kind status reason message =
      E.set_status_condition conditions (record {
        kind = kind;
        status = status;
        reason = reason;
        message = message;
        observed_generation = generation;
      })

  -- The same for the condition `Ready` of a status.
  unfoldable pub set_ready : SyncStatus → ℕ → ConditionStatus → String → String → SyncStatus
  unfolding update_condition
  set_ready s generation status reason message = record s {
    conditions = update_condition s.conditions generation "Ready" status reason message;
  }

  abbrev pub update_status_of : Object → Action E (Unit {0})
  update_status_of object = call (status_update object) (E.update_status object)

  abbrev pub update_object : Object → Action E (Unit {0})
  update_object object = call (k8s_update object) (E.update object)

  -- `resolvePostgresqlConnection`
  unfoldable pub resolve_postgresql_connection : String → M E Resolution
  unfolding port_of ssl_mode_of
  resolve_postgresql_connection postgresql_id w =
      let (r, w₁) = find_postgresql_by_id E postgresql_id w in
      elim r [
        | err e ↦ (
          unresolved "PostgresqlNotFound"
              ("PostgreSQL instance with ID " <> postgresql_id <> " not found: " <> error_text e),
          w₁,
        )
        | ok postgresql ↦ elim postgresql.connected [
          | false ↦ (
            unresolved "PostgresqlNotConnected"
                ("PostgreSQL instance with ID " <> postgresql_id <> " is not connected"),
            w₁,
          )
          | true ↦ elim postgresql.external_instance [
            | none ↦ (
              unresolved "InvalidConfiguration"
                  "PostgreSQL instance has no external instance configuration",
              w₁,
            )
            | some external ↦ (
              resolved (record {
                external = external;
                port = port_of external;
                ssl_mode = ssl_mode_of external;
                username = "";
                password = "";
              }),
              w₁,
            )
          ]
        ]
      ]

  -- `resolveAdminCredentials`, with the connection that it fills in.
  unfoldable pub resolve_admin_credentials : Reconciler → ConnectionInfo → Action E ConnectionInfo
  resolve_admin_credentials r info w = elim r.vault_client [
    | none ↦ (ok info, w)
    | some path ↦
        let (found, w₁) =
          get_vault_credentials_with_retry E (some path) info.external.postgresql_id r.vault_retries
            r.vault_retry_delay w in
        elim found [
          | err e ↦ (err e, w₁)
          | ok (username, password) ↦
              (ok (record info { username = username; password = password }), w₁)
        ]
  ]

  -- `_ = r.resolveAdminCredentials(ctx, connInfo)`: after an error the connection has no credentials.
  unfoldable pub try_admin_credentials : Reconciler → ConnectionInfo → M E ConnectionInfo
  unfolding resolve_admin_credentials
  try_admin_credentials r info w =
      let (found, w₁) = resolve_admin_credentials r info w in
      elim found [ ok filled ↦ (filled, w₁) | err e ↦ (info, w₁) ]

  -- The head of every `Reconcile`: an object that is not found needs nothing.
  unfoldable pub fetch :
      {A : Type 0}
      → String
      → String
      → (E.State → Result (Option A) × E.State)
      → (A → M E Outcome)
      → M E Outcome
  fetch kind name get continue = do
    inc_reconcile_total kind
    found ← call (k8s_get kind name) get
    elim found [
      | err e ↦ inc_reconcile_errors kind >> pure (failed e)
      | ok none ↦ pure finished
      | ok (some object) ↦ continue object
    ]

  -- A refusal: `Ready` becomes false, and the object is tried again in 30 seconds. An error of
  -- the status update is only logged.
  unfoldable pub refuse : SyncStatus → ℕ → (SyncStatus → Object) → String → String → M E Outcome
  unfolding set_ready
  refuse s generation object reason message = do
    update_status_of (object (set_ready s generation condition_false reason message))
    pure later

  -- The tail of every synchronisation: the status, the event, the time, the status update.
  unfoldable pub settle :
      String
      → SyncStatus
      → ℕ
      → Texts
      → (SyncStatus → Object)
      → Result (Unit {0})
      → M E (Result (Unit {0}))
  unfolding set_ready
  settle kind s generation texts object (err e) = do
    note (event "Warning" texts.failure_reason (texts.failure_event <> ": " <> error_text e))
    inc_reconcile_errors kind
    t ← call now E.now_time
    update_status_of (
        object
          (record (set_ready s generation condition_false texts.failure_reason
            (texts.failure <> ": " <> error_text e)) {
              created = false;
              last_sync_attempt = some t;
            }))
  settle kind s generation texts object (ok u) = do
    note (event "Normal" texts.success_reason texts.success_event)
    t ← call now E.now_time
    update_status_of (
        object (record (set_ready s generation condition_true texts.success_reason texts.success) {
          created = true;
          last_sync_attempt = some t;
        }))
