-- ===== src/Metrics/Collections.antt =====
-- What a collection makes of the gauges of counts (internal/metrics/collector.go).
use k8s_postgresql_operator.Prelude.{String, ◌≡◌, List, map, ◌==◌, if◌then◌else◌}
use k8s_postgresql_operator.Api.{Postgresql, User, Database, Grant, RoleGroup, Schema}
use k8s_postgresql_operator.World.{Env, World, Result, ok}
use k8s_postgresql_operator.Metrics.{
  Listed, listed_postgresqls, listed_user, listed_database, listed_grant, listed_rolegroup,
  listed_schema,
}
use k8s_postgresql_operator.Metrics.Counts.{occurrences}
use k8s_postgresql_operator.Metrics.Gauges.{object_count, set_count}

-- The kinds of resources, by the names in the gauges.
pub data Kind : Type 0 where
  postgresqls users databases grants rolegroups schemas : Kind

abbrev pub kind_name : Kind → String
kind_name postgresqls = "postgresql"
kind_name users = "user"
kind_name databases = "database"
kind_name grants = "grant"
kind_name rolegroups = "rolegroup"
kind_name schemas = "schema"

-- What the API server lists during a collection.
pub record Snapshot : Type 0 where
  pub postgresql_items : List Postgresql
  pub user_items : List User
  pub database_items : List Database
  pub grant_items : List Grant
  pub rolegroup_items : List RoleGroup
  pub schema_items : List Schema

unfoldable pub listed : Snapshot → Kind → List Listed
unfolding listed_postgresqls
listed s postgresqls = listed_postgresqls s.postgresql_items
listed s users = map listed_user s.user_items
listed s databases = map listed_database s.database_items
listed s grants = map listed_grant s.grant_items
listed s rolegroups = map listed_rolegroup s.rolegroup_items
listed s schemas = map listed_schema s.schema_items

-- The lists in the order of the collection.
unfoldable pub IsListed : (E : Env) → E.State → Snapshot → Type 0
IsListed E s₀ snapshot =
    let s₁ : E.State = (E.list_postgresqls s₀).1 in
    let s₂ : E.State = (E.list_users s₁).1 in
    let s₃ : E.State = (E.list_databases s₂).1 in
    let s₄ : E.State = (E.list_grants s₃).1 in
    let s₅ : E.State = (E.list_rolegroups s₄).1 in
    ((E.list_postgresqls s₀).0 ≡ ok snapshot.postgresql_items)
    × ((E.list_users s₁).0 ≡ ok snapshot.user_items)
    × ((E.list_databases s₂).0 ≡ ok snapshot.database_items)
    × ((E.list_grants s₃).0 ≡ ok snapshot.grant_items)
    × ((E.list_rolegroups s₄).0 ≡ ok snapshot.rolegroup_items)
    × ((E.list_schemas s₅).0 ≡ ok snapshot.schema_items)

module _ {E : Env} where
  -- A collection of one kind that has succeeded, on the items listed.
  abbrev IsCollected :
      {A : Type 0}
      → String
      → (List A → List Listed)
      → (E.State → Result (List A) × E.State)
      → World E
      → World E
      → List A
      → Type 0
  IsCollected shown f list w w' items =
      ((list w.state).0 ≡ ok items)
      × (w'.state ≡ (list w.state).1)
      × ((kind i : String)
          → object_count kind i w'.trace ≡ (
              if shown == kind
              then set_count (occurrences i (f items)) (object_count kind i w.trace)
              else object_count kind i w.trace))
