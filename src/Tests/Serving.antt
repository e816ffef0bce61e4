-- ===== src/Tests/Serving.antt =====
-- The theorems on the operations in PostgreSQL at concrete inputs.
use k8s_postgresql_operator.Prelude.{String, ◌≡◌, refl, true, false, [], ◌∷◌, ◌&&◌, arith}
use k8s_postgresql_operator.World.{World}
use k8s_postgresql_operator.Postgres.Roles.{
  contains, sync_role_group_members, add_members, remove_members,
}
use k8s_postgresql_operator.Postgres.Roles.Members.{sync_role_group_members_correct}
use k8s_postgresql_operator.Postgres.Databases.{
  create_or_update_database, delete_database, close_all_sessions,
}
use k8s_postgresql_operator.Postgres.Databases.Statements.{
  create_or_update_database-has, delete_database-has,
}
use k8s_postgresql_operator.Tests.Simulation.{sim, start, server, sim-IsDatabaseCatalog}
use k8s_postgresql_operator.Tests.Members.{after_grant, is_member, sim-IsRoleCatalog}

create_or_update_database-has_example :
    sim-IsDatabaseCatalog.has
      (create_or_update_database sim server "orders" "app" "" "" start).1.state
    ≡ true
unfolding create_or_update_database
create_or_update_database-has_example =
    create_or_update_database-has sim "orders" "app" "" "" sim-IsDatabaseCatalog server start refl

-- The world in which the database has been created.
abbrev created : World sim
created = record {
  state = record {
    secrets = start.state.secrets;
    statements = "CREATE DATABASE orders OWNER app" ∷ [];
    files = [];
  };
  trace = [];
}

delete_database-has_example :
    sim-IsDatabaseCatalog.has (delete_database sim server "orders" created).1.state ≡ false
unfolding delete_database close_all_sessions
delete_database-has_example =
    delete_database-has sim "orders" "app" "" "" sim-IsDatabaseCatalog server created refl

-- The world in which `old` is a member of the group.
abbrev with_old : World sim
with_old = record {
  state = record {
    secrets = start.state.secrets;
    statements = "GRANT readers TO old" ∷ [];
    files = [];
  };
  trace = [];
}

only_old : (y : String) → contains ("old" ∷ []) y ≡ is_member with_old.state.statements y
unfolding contains
only_old y = ground (arith, after_grant [] "old" y)

sync_role_group_members_correct_example :
    is_member
      (sync_role_group_members sim "db" "readers"
        ("old" ∷ [])
        ("app" ∷ [])
        with_old).1.state.statements
      "old"
    ≡ (contains ("app" ∷ []) "old" && true)
unfolding sync_role_group_members contains add_members remove_members
sync_role_group_members_correct_example =
    sync_role_group_members_correct sim "db" "readers" (sim-IsRoleCatalog "db") ("old" ∷ [])
      ("app" ∷ []) with_old only_old refl "old"
