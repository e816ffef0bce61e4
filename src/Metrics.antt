-- ===== src/Metrics.antt =====
-- The metrics collector (internal/metrics). A gauge that is set leaves its entry in the trace. Its
-- lock is left out: one collection runs at a time.
pub mod Counts
pub mod Counters
pub mod Gauges
pub mod Collections
use k8s_postgresql_operator.Prelude.{
  ℕ, zero, suc, ◌+◌, String, ◌<>◌, Bool, true, false, Option, none, some, List, [], ◌∷◌, map, ◌==◌,
  length, if◌then◌else◌,
}
use k8s_postgresql_operator.Errors.{Error}
use k8s_postgresql_operator.Api.{
  ObjectMeta, ExternalPostgresqlInstance, Postgresql, User, Database, Grant, RoleGroup, Schema,
}
use k8s_postgresql_operator.World.{
  Env, World, M, Action, Result, ok, err, Effect, gauge, k8s_list, call, note, return_ok,
}
use k8s_postgresql_operator.World.Fallible.{◌>>=◌, ◌>>◌}

-- What the loops read of a resource.
pub record Listed : Type 0 where
  pub postgresql_id : String
  pub name : String
  pub namespace : String
  pub database_name : String
  pub username : String

abbrev pub listed_of : ObjectMeta → String → String → String → Listed
listed_of m postgresql_id database_name username = record {
  postgresql_id = postgresql_id;
  name = m.name;
  namespace = m.namespace;
  database_name = database_name;
  username = username;
}

-- An instance without an ID is passed over.
unfoldable pub listed_postgresqls : List Postgresql → List Listed
listed_postgresqls [] = []
listed_postgresqls (p ∷ items) =
    let rest = listed_postgresqls items in
    elim p.external_instance [
      | none ↦ rest
      | some external ↦
          if external.postgresql_id == ""
          then rest
          else listed_of p.meta external.postgresql_id "" "" ∷ rest
    ]

abbrev pub listed_user : User → Listed
listed_user u = listed_of u.meta u.spec.postgresql_id "" u.spec.username

abbrev pub listed_database : Database → Listed
listed_database d = listed_of d.meta d.spec.postgresql_id d.spec.database ""

abbrev pub listed_grant : Grant → Listed
listed_grant g = listed_of g.meta g.spec.postgresql_id "" ""

abbrev pub listed_rolegroup : RoleGroup → Listed
listed_rolegroup r = listed_of r.meta r.spec.postgresql_id "" ""

abbrev pub listed_schema : Schema → Listed
listed_schema s = listed_of s.meta s.spec.postgresql_id "" ""

-- `postgresqlIDCounts[postgresqlID]++`
unfoldable pub count_id : String → List (String × ℕ) → List (String × ℕ)
count_id postgresql_id [] = (postgresql_id, 1) ∷ []
count_id postgresql_id ((k, n) ∷ counts) =
    let rest = count_id postgresql_id counts in
    if k == postgresql_id then (k, suc n) ∷ counts else (k, n) ∷ rest

-- The counts of the loop, from those so far.
unfoldable pub count_ids : List Listed → List (String × ℕ) → List (String × ℕ)
unfolding count_id
count_ids [] counts = counts
count_ids (x ∷ items) counts = count_ids items (count_id x.postgresql_id counts)

module _ {E : Env} where
  -- `UpdatePostgresqlCount`
  abbrev pub update_postgresql_count : ℕ → M E (Unit {0})
  update_postgresql_count n = note (gauge "postgresql_operator_postgresql_count" [] n)

  -- `UpdateObjectCount`
  abbrev pub update_object_count : String → String → ℕ → M E (Unit {0})
  update_object_count kind postgresql_id n =
      note (gauge "postgresql_operator_object_count" (kind ∷ postgresql_id ∷ []) n)

  -- `SetObjectInfo`
  abbrev pub set_object_info : String → Listed → M E (Unit {0})
  set_object_info kind x = note (
      gauge "postgresql_operator_object_info"
        (kind ∷ x.postgresql_id ∷ x.name ∷ x.namespace ∷ x.database_name ∷ x.username ∷ []) 1)

  unfoldable pub set_infos : String → List Listed → M E (Unit {0})
  set_infos kind [] w = (tt, w)
  set_infos kind (x ∷ items) w = set_infos kind items (set_object_info kind x w).1

  -- `for postgresqlID, count := range postgresqlIDCounts`, in the order of the first resources;
  -- Go's order is any, over keys that differ.
  unfoldable pub set_counts : String → List (String × ℕ) → M E (Unit {0})
  set_counts kind [] w = (tt, w)
  set_counts kind ((postgresql_id, n) ∷ counts) w =
      set_counts kind counts (update_object_count kind postgresql_id n w).1

  -- The common part of the six collections.
  unfoldable pub report_items : String → List Listed → Action E (Unit {0})
  unfolding set_infos set_counts count_ids
  report_items kind items w =
      (ok tt, (set_counts kind (count_ids items []) (set_infos kind items w).1).1)

module _ (E : Env) where
  unfoldable pub collect_postgresqls : Action E (Unit {0})
  unfolding listed_postgresqls report_items
  collect_postgresqls = do
    items ← call (k8s_list "PostgreSQL") E.list_postgresqls
    λ w. (ok tt, (update_postgresql_count (length items) w).1)
    report_items "postgresql" (listed_postgresqls items)

  unfoldable pub collect_users : Action E (Unit {0})
  unfolding report_items
  collect_users = do
    items ← call (k8s_list "User") E.list_users
    report_items "user" (map listed_user items)

  unfoldable pub collect_databases : Action E (Unit {0})
  unfolding report_items
  collect_databases = do
    items ← call (k8s_list "Database") E.list_databases
    report_items "database" (map listed_database items)

  unfoldable pub collect_grants : Action E (Unit {0})
  unfolding report_items
  collect_grants = do
    items ← call (k8s_list "Grant") E.list_grants
    report_items "grant" (map listed_grant items)

  unfoldable pub collect_rolegroups : Action E (Unit {0})
  unfolding report_items
  collect_rolegroups = do
    items ← call (k8s_list "RoleGroup") E.list_rolegroups
    report_items "rolegroup" (map listed_rolegroup items)

  unfoldable pub collect_schemas : Action E (Unit {0})
  unfolding report_items
  collect_schemas = do
    items ← call (k8s_list "Schema") E.list_schemas
    report_items "schema" (map listed_schema items)

  -- `CollectMetrics`
  unfoldable pub collect_metrics : Action E (Unit {0})
  unfolding collect_postgresqls collect_users collect_databases collect_grants collect_rolegroups
      collect_schemas
  collect_metrics = do
    collect_postgresqls
    collect_users
    collect_databases
    collect_grants
    collect_rolegroups
    collect_schemas
