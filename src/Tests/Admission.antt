-- ===== src/Tests/Admission.antt =====
-- The admission theorems on requests that are allowed, and the theorems on duplicates.
use k8s_postgresql_operator.Prelude.{
  String, ◌≡◌, refl, ◌≢◌, Bool, true, false, [], ◌∷◌, ◌==◌, ◌&&◌, ◌⊎◌, arith, eq_iff, All,
}
use k8s_postgresql_operator.Errors.{Error}
use k8s_postgresql_operator.Api.{
  ExternalPostgresqlInstance, Postgresql, User, Database, Grant, RoleGroup, Schema,
}
use k8s_postgresql_operator.World.{ok, err}
use k8s_postgresql_operator.Cluster.{
  user_matches, has_postgresql_id, first_duplicate, find_postgresql_by_id,
  check_duplicate_postgresql_id, check_duplicate_user, check_duplicate_database,
  check_duplicate_grant, check_duplicate_rolegroup, check_duplicate_schema,
  database_exists_by_postgresql_id_and_name,
}
use k8s_postgresql_operator.Cluster.Uniqueness.{
  IsFree, first_duplicate-none_iff, IsApart, stored, stored-IsApart, find_postgresql_by_id_correct,
}
use k8s_postgresql_operator.Postgres.Connection.{
  test_single_connection, test_connection_from_postgresql,
}
use k8s_postgresql_operator.Webhook.{
  Request, is_excluded, vault_gate, instance_gate, connection_gate, duplicate_gate, database_gate,
  check_vault_availability, handle_postgresql, handle_user, handle_database, handle_grant,
  handle_rolegroup, handle_schema,
}
use k8s_postgresql_operator.Webhook.Checks.{allowed}
use k8s_postgresql_operator.Webhook.Allowed.{
  handle_user-allowed, handle_database-allowed, handle_rolegroup-allowed, handle_schema-allowed,
  handle_postgresql-allowed,
}
use k8s_postgresql_operator.Webhook.AllowedGrant.{handle_grant-allowed}
use k8s_postgresql_operator.Tests.Simulation.{
  sim, start, validator, app, orders, app_grant, readers, audit, pg_instance,
}

abbrev asking : {A : Type 0} → A → Request A
asking a = record { is_update = false; decoded = ok a }

abbrev again : {A : Type 0} → A → Request A
again a = record { is_update = true; decoded = ok a }

app_passes :
    (handle_user sim validator ("root" ∷ []) (asking app) start).0
    ≡ allowed "No duplicate postgresqlID and username combination found in cluster"
unfolding handle_user is_excluded vault_gate instance_gate connection_gate duplicate_gate
    check_vault_availability test_connection_from_postgresql test_single_connection
    find_postgresql_by_id check_duplicate_user
app_passes = refl

handle_user-allowed_example : (x : User) × (x.spec.username ≢ "")
handle_user-allowed_example =
    let (x, decoded, id, name, included, reached, free) =
      handle_user-allowed sim validator start ("root" ∷ []) (asking app) app_passes in
    (x, name)

orders_passes :
    (handle_database sim validator (again orders) start).0
    ≡ allowed "No duplicate postgresqlID and database name combination found in cluster"
unfolding handle_database vault_gate instance_gate connection_gate duplicate_gate
    check_vault_availability test_connection_from_postgresql test_single_connection
    find_postgresql_by_id check_duplicate_database
orders_passes = refl

handle_database-allowed_example : (x : Database) × (x.spec.database ≢ "")
handle_database-allowed_example =
    let (x, decoded, id, name, reached, free) =
      handle_database-allowed sim validator start (again orders) orders_passes in
    (x, name)

readers_passes :
    (handle_rolegroup sim validator (asking readers) start).0
    ≡ allowed "No duplicate postgresqlID and groupRole combination found in cluster"
unfolding handle_rolegroup vault_gate instance_gate connection_gate duplicate_gate
    check_vault_availability test_connection_from_postgresql test_single_connection
    find_postgresql_by_id check_duplicate_rolegroup
readers_passes = refl

handle_rolegroup-allowed_example : (x : RoleGroup) × (x.spec.group_role ≢ "")
handle_rolegroup-allowed_example =
    let (x, decoded, id, name, reached, free) =
      handle_rolegroup-allowed sim validator start (asking readers) readers_passes in
    (x, name)

audit_passes :
    (handle_schema sim validator (asking audit) start).0
    ≡ allowed "No duplicate postgresqlID and schema combination found in cluster"
unfolding handle_schema vault_gate instance_gate connection_gate duplicate_gate
    check_vault_availability test_connection_from_postgresql test_single_connection
    find_postgresql_by_id check_duplicate_schema
audit_passes = refl

handle_schema-allowed_example : (x : Schema) × (x.spec.owner ≢ "")
handle_schema-allowed_example =
    let (x, decoded, id, name, owner, reached, free) =
      handle_schema-allowed sim validator start (asking audit) audit_passes in
    (x, owner)

instance_passes :
    (handle_postgresql sim validator (again pg_instance) start).0
    ≡ allowed "No duplicate postgresqlID found in cluster and connection test passed"
unfolding handle_postgresql vault_gate connection_gate duplicate_gate check_vault_availability
    test_connection_from_postgresql test_single_connection check_duplicate_postgresql_id
instance_passes = refl

handle_postgresql-allowed_example :
    (x : Postgresql) × (external : ExternalPostgresqlInstance) × (external.postgresql_id ≢ "")
handle_postgresql-allowed_example =
    let (x, external, decoded, given, id, moment, tested, free) =
      handle_postgresql-allowed sim validator start (again pg_instance) instance_passes in
    (x, external, id)

grant_passes :
    (handle_grant sim validator (asking app_grant) start).0
    ≡ allowed "No duplicate postgresqlID, role, and database combination found in cluster"
unfolding handle_grant vault_gate instance_gate connection_gate duplicate_gate database_gate
    check_vault_availability test_connection_from_postgresql test_single_connection
    find_postgresql_by_id database_exists_by_postgresql_id_and_name check_duplicate_grant
grant_passes = refl

handle_grant-allowed_example : (x : Grant) × (x.spec.role ≢ "")
handle_grant-allowed_example =
    let (x, decoded, id, role, database, reached, lookup, declared, free) =
      handle_grant-allowed sim validator start (asking app_grant) grant_passes in
    (x, role)

-- Two users of the same instance by their names.
abbrev same_user : User → User → Bool
same_user x y = user_matches x.spec.postgresql_id x.spec.username y

abbrev named : String → User
named name = record app {
  meta = record (app.meta) { name = name };
  spec = record (app.spec) { username = name };
}

same_user_symmetric : (x y : User) → same_user x y ≡ same_user y x
same_user_symmetric x y = ground (
  arith,
  eq_iff x.spec.postgresql_id y.spec.postgresql_id,
  eq_iff y.spec.postgresql_id x.spec.postgresql_id,
  eq_iff x.spec.username y.spec.username,
  eq_iff y.spec.username x.spec.username,
)

stored-IsApart_example :
    IsApart same_user
      (stored (λ x. x.meta) "b" "default" true (named "c") (named "a" ∷ named "b" ∷ []))
unfolding first_duplicate
stored-IsApart_example =
    stored-IsApart (λ x. x.meta) same_user same_user_symmetric "b" "default" (named "c") true
      (named "a" ∷ named "b" ∷ []) (absurd_current, ((λ h. tt), tt)) ((refl, tt), (tt, tt)) refl
  where
    absurd_current :
        false ≡ true
        → All (λ y. (y.meta.name == "b" && y.meta.namespace == "default") ≡ false) (named "b" ∷ [])
    absurd_current h = absurd (ground arith)

first_duplicate-none_iff_example :
    IsFree (λ x. x.meta) (user_matches "id1" "c") "x" "default" false (named "a" ∷ named "b" ∷ [])
unfolding first_duplicate
first_duplicate-none_iff_example =
    (first_duplicate-none_iff (λ x. x.meta) (user_matches "id1" "c") "x" "default" false
        (named "a" ∷ named "b" ∷ [])).0
      refl

find_postgresql_by_id_correct_example :
    ((p : Postgresql) × ((find_postgresql_by_id sim "id1" start).0 ≡ ok p)
      × (has_postgresql_id "id1" p ≡ true))
    ⊎ ((e : Error) × ((find_postgresql_by_id sim "id1" start).0 ≡ err e)
        × All (λ p. has_postgresql_id "id1" p ≡ false) (pg_instance ∷ []))
find_postgresql_by_id_correct_example = find_postgresql_by_id_correct sim "id1" start refl
