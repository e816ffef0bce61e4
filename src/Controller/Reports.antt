-- ===== src/Controller/Reports.antt =====
-- What the reconcilers report and where they get credentials (internal/controller).
use k8s_postgresql_operator.Prelude.{
  ℕ, String, ◌≡◌, refl, true, false, some, List, [], ◌∷◌, ◌⊎◌, inl, inr, arith, eq_refl, Bool-cases,
}
use k8s_postgresql_operator.Errors.{Error, is_secret_not_found}
use k8s_postgresql_operator.Api.{
  Condition, ConditionStatus, condition_true, condition_false, Postgresql, SyncStatus, Object,
  ExternalPostgresqlInstance,
}
use k8s_postgresql_operator.World.{
  Env, World, Result, ok, err, Result-cases, Effect, kv_put, status_update,
}
use k8s_postgresql_operator.Retry.{execute_operation_with_retry, get_vault_credentials_with_retry}
use k8s_postgresql_operator.Retry.Operations.{
  execute_operation_with_retry-ok, execute_operation_with_retry_keeps,
}
use k8s_postgresql_operator.Postgres.Roles.{create_or_update_user}
use k8s_postgresql_operator.Controller.{Reconciler, Texts, set_ready, settle, update_condition}
use k8s_postgresql_operator.Controller.Instances.{
  is_ok, server_at, build_connection_condition, ready_differs, update_connection_status,
  resolve_instance_credentials, rotate_in_postgresql, rotate_in_vault,
}

-- What the operator relies on in `meta.SetStatusCondition` and `meta.FindStatusCondition`: the
-- condition that has been set is the one that is found under its type.
pub record IsConditionStore (E : Env) : Type 0 where
  pub find-set :
      (conditions : List Condition) (c : Condition)
      → E.find_status_condition (E.set_status_condition conditions c) c.kind ≡ some c

abbrev pub status_of : Result (Unit {0}) → ConditionStatus
status_of (ok u) = condition_true
status_of (err e) = condition_false

-- The writes of secrets among the calls.
abbrev pub secret_writes : List Effect → List Effect
secret_writes [] = []
secret_writes (kv_put path d ∷ t) = kv_put path d ∷ secret_writes t
secret_writes (_ ∷ t) = secret_writes t

module _ (E : Env) where
  -- On a condition store, the last call of a synchronisation's end updates the status of the
  -- object; in that status Created is true and Ready is true exactly if the operation succeeded,
  -- and Ready is for the given generation.
  pub settle_truthful :
      IsConditionStore E
      → (kind : String) (s : SyncStatus) (generation : ℕ) (texts : Texts)
        (object : SyncStatus → Object) (result : Result (Unit {0})) (w : World E)
      → (s' : SyncStatus) × (c : Condition) × (earlier : List Effect) × ((settle E kind s generation
            texts object result w).1.trace
          ≡ status_update (object s') ∷ earlier)
        × (s'.created ≡ is_ok result)
        × (E.find_status_condition s'.conditions "Ready" ≡ some c)
        × (c.status ≡ status_of result)
        × (c.observed_generation ≡ generation)
  unfolding settle set_ready update_condition
  settle_truthful store kind s generation texts object (ok u) w =
      (_, _, _, refl, refl, store.find-set s.conditions _, refl, refl)
  settle_truthful store kind s generation texts object (err e) w =
      (_, _, _, refl, refl, store.find-set s.conditions _, refl, refl)

  -- On a condition store, writing the outcome of a connection test to the status it has already
  -- been written to finds nothing to change.
  pub update_connection_status_settles :
      IsConditionStore E
      → (p : Postgresql) (postgresql_id address : String) (connection : Result (Unit {0}))
      → let p' = (update_connection_status E p postgresql_id address connection).0 in
        (update_connection_status E p' postgresql_id address connection).1 ≡ false
  unfolding update_connection_status build_connection_condition ready_differs update_condition
  update_connection_status_settles store p postgresql_id address connection =
      let (status, (reason, message)) =
        build_connection_condition connection postgresql_id address in
      let found = E.find_status_condition p.conditions "Ready" in
      elim (Bool-cases (ready_differs E found status message)) [
        | inl differs ↦ ground (
          arith,
          eq_refl address,
          eq_refl message,
          store.find-set p.conditions (record {
            kind = "Ready";
            status = status;
            reason = reason;
            message = message;
            observed_generation = p.meta.generation;
          }),
        )
        | inr same ↦ ground (arith, eq_refl address)
      ]

module _ (E : Env) (r : Reconciler) where
  -- The default credentials are used only if the reading of the instance's own credentials ended
  -- in an error that says that the secret is not found.
  pub resolve_instance_credentials_default :
      (postgresql_id : String) (w : World E)
      → (resolve_instance_credentials E r postgresql_id w).0.used_default ≡ true
      → (e : Error) × ((get_vault_credentials_with_retry E r.vault_client postgresql_id
            r.vault_retries r.vault_retry_delay w).0
          ≡ err e)
        × (is_secret_not_found e ≡ true)
  unfolding resolve_instance_credentials
  resolve_instance_credentials_default postgresql_id w h =
      let own =
        get_vault_credentials_with_retry E r.vault_client postgresql_id r.vault_retries
          r.vault_retry_delay w in
      elim (Result-cases own.0) [
        | inl (c, p) ↦ absurd (ground arith)
        | inr (e, p) ↦ elim (Bool-cases (is_secret_not_found e)) [
          | inl t ↦ (e, p, t)
          | inr f ↦ absurd (ground arith)
        ]
      ]

  create_or_update_user_keeps_secrets :
      (external : ExternalPostgresqlInstance) (login current_password new_password : String)
      (writes : List Effect) (w : World E)
      → secret_writes w.trace ≡ writes
      → secret_writes
          (create_or_update_user E
            (server_at external login current_password)
            login
            new_password
            w).1.trace
        ≡ writes
  unfolding create_or_update_user
  create_or_update_user_keeps_secrets external login current_password new_password writes w h =
      ground arith

  -- A rotation of an administrator's password writes to Vault only once PostgreSQL has the new
  -- password: either the change in PostgreSQL succeeded and the rotation in Vault follows it, or
  -- no secret is written.
  pub rotate_in_postgresql_order :
      (external : ExternalPostgresqlInstance) (login current_password new_password : String)
      (w : World E)
      → let change =
          create_or_update_user E (server_at external login current_password) login new_password in
        let run = rotate_in_postgresql E r external login current_password new_password in
        ((w' : World E) × ((change w').0 ≡ ok tt)
          × (run w ≡ rotate_in_vault E r external.postgresql_id new_password (change w').1))
        ⊎ (secret_writes (run w).1.trace ≡ secret_writes w.trace)
  unfolding rotate_in_postgresql
  rotate_in_postgresql_order external login current_password new_password w =
      let change =
        create_or_update_user E (server_at external login current_password) login new_password in
      let changed =
        execute_operation_with_retry E change r.connection_retries r.connection_timeout
          "rotateInstanceAdminPassword" w in
      elim (Result-cases changed.0) [
        | inl (u, p) ↦
            let (w', succeeded, same) =
              execute_operation_with_retry-ok E change r.connection_retries r.connection_timeout
                "rotateInstanceAdminPassword" w p in
            inl (w', succeeded, ground (arith, same))
        | inr (e, p) ↦ inr (
            ground (
              arith,
              execute_operation_with_retry_keeps E change r.connection_retries r.connection_timeout
                  "rotateInstanceAdminPassword" (λ v. secret_writes v.trace ≡ secret_writes w.trace)
                  (create_or_update_user_keeps_secrets external login current_password new_password
                    (secret_writes w.trace))
                  (λ n v k. k) (λ n v k. k) w refl,
            ))
      ]
