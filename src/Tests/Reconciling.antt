-- ===== src/Tests/Reconciling.antt =====
-- The theorems on the reconcilers at concrete inputs.
use Prim.Native.String.{count}
use k8s_postgresql_operator.Prelude.{String, ◌≡◌, refl, true, false, some, List, [], ◌∷◌, ◌⊎◌}
use k8s_postgresql_operator.Errors.{Error, plain, is_secret_not_found, errors_is}
use k8s_postgresql_operator.Api.{Database, SyncStatus, Condition, condition_false, database_object}
use k8s_postgresql_operator.World.{World, ok, err, Effect, status_update}
use k8s_postgresql_operator.Vault.{
  store_postgresql_user_credentials, get_postgresql_credentials, get_default_credentials,
}
use k8s_postgresql_operator.Retry.{
  with_retries, attempts, get_vault_credentials_with_retry,
  get_default_vault_credentials_with_retry,
}
use k8s_postgresql_operator.Postgres.Roles.{create_or_update_user}
use k8s_postgresql_operator.Controller.{later, ConnectionInfo, settle, update_status_of}
use k8s_postgresql_operator.Controller.Databases.{
  with_status, database_texts, remove_db_finalizer, delete_in_postgresql,
}
use k8s_postgresql_operator.Controller.Finalizers.{object_updates, delete_in_postgresql_correct}
use k8s_postgresql_operator.Controller.Users.{
  generate_random_password, renew_user_password, handle_vault_user_password,
}
use k8s_postgresql_operator.Controller.Passwords.{
  handle-renew_user_password, generate_random_password-length,
}
use k8s_postgresql_operator.Controller.Instances.{
  update_connection_status, resolve_instance_credentials, resolve_default_credentials,
  rotate_in_postgresql, rotate_in_vault, server_at,
}
use k8s_postgresql_operator.Controller.Reports.{
  settle_truthful, update_connection_status_settles, resolve_instance_credentials_default,
  rotate_in_postgresql_order, secret_writes,
}
use k8s_postgresql_operator.Tests.Simulation.{
  sim, start, unregistered, reconciler, app, orders, pg_instance, external, fresh,
  sim-IsRandomSource, sim-IsKeyValueStore, sim-IsConditionStore, sim-IsDatabaseCatalog,
}

abbrev info : ConnectionInfo
info = record {
  external = external;
  port = 5432;
  ssl_mode = "require";
  username = "root";
  password = "old";
}

delete_in_postgresql_correct_example :
    ((w' : World sim) × (sim-IsDatabaseCatalog.has w'.state ≡ false)
      × (delete_in_postgresql sim reconciler orders info start
          ≡ remove_db_finalizer sim reconciler orders w'))
    ⊎ ((w' : World sim) × (marked : Database) × (marked.meta ≡ orders.meta)
        × (marked.spec ≡ orders.spec)
        × (object_updates w'.trace ≡ object_updates start.trace)
        × (delete_in_postgresql sim reconciler orders info start
            ≡ (later, (update_status_of sim (database_object marked) w').1)))
delete_in_postgresql_correct_example =
    delete_in_postgresql_correct sim reconciler orders sim-IsDatabaseCatalog info start

abbrev drawn : String
drawn = "aaaaaaaaaaaaaaaaaaaaaaaaaaaaaaaa"

handle-renew_user_password_example :
    ((renew_user_password sim reconciler app start).0 ≡ drawn)
    × ((handle_vault_user_password sim reconciler app
          (renew_user_password sim reconciler app start).1).0
        ≡ drawn)
unfolding generate_random_password store_postgresql_user_credentials
handle-renew_user_password_example =
    handle-renew_user_password sim sim-IsKeyValueStore sim-IsRandomSource reconciler app start
      {path = "kv"} {password = drawn} {n = 2} refl refl refl refl refl

generate_random_password-length_example : count drawn ≡ 32
unfolding generate_random_password
generate_random_password-length_example =
    generate_random_password-length sim sim-IsRandomSource 32 start {password = drawn} refl

settle_truthful_example :
    (s' : SyncStatus) × (c : Condition) × (earlier : List Effect) × ((settle sim "database" fresh 1
        (database_texts sim reconciler orders)
        (with_status orders)
        (err (plain "refused"))
        start).1.trace
      ≡ status_update (with_status orders s') ∷ earlier)
    × (s'.created ≡ false)
    × (sim.find_status_condition s'.conditions "Ready" ≡ some c)
    × (c.status ≡ condition_false)
    × (c.observed_generation ≡ 1)
settle_truthful_example =
    settle_truthful sim sim-IsConditionStore "database" fresh 1
      (database_texts sim reconciler orders) (with_status orders) (err (plain "refused")) start

update_connection_status_settles_example :
    (update_connection_status sim
      (update_connection_status sim pg_instance "id1" "db.example:5432" (err (plain "refused"))).0
      "id1"
      "db.example:5432"
      (err (plain "refused"))).1
    ≡ false
update_connection_status_settles_example =
    update_connection_status_settles sim sim-IsConditionStore pg_instance "id1" "db.example:5432"
      (err (plain "refused"))

resolve_instance_credentials_default_example :
    (e : Error) × ((get_vault_credentials_with_retry sim (some "kv") "id1" 3 10 unregistered).0
      ≡ err e)
    × (is_secret_not_found e ≡ true)
unfolding resolve_instance_credentials resolve_default_credentials get_vault_credentials_with_retry
    get_default_vault_credentials_with_retry get_postgresql_credentials get_default_credentials
    with_retries attempts errors_is
resolve_instance_credentials_default_example =
    resolve_instance_credentials_default sim reconciler "id1" unregistered refl

rotate_in_postgresql_order_example :
    ((w' : World sim) × ((create_or_update_user sim
          (server_at external "root" "old")
          "root"
          "next"
          w').0
        ≡ ok tt)
      × (rotate_in_postgresql sim reconciler external "root" "old" "next" start
          ≡ rotate_in_vault sim reconciler "id1" "next"
              (create_or_update_user sim (server_at external "root" "old") "root" "next" w').1))
    ⊎ (secret_writes
          (rotate_in_postgresql sim reconciler external "root" "old" "next" start).1.trace
        ≡ secret_writes [])
rotate_in_postgresql_order_example =
    rotate_in_postgresql_order sim reconciler external "root" "old" "next" start
