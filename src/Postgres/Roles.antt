-- ===== src/Postgres/Roles.antt =====
-- Users and role groups (internal/postgresql/operations.go).
pub mod Members
use k8s_postgresql_operator.Prelude.{
  ℕ, String, ◌<>◌, Bool, true, false, ◌||◌, not, Option, none, some, List, [], ◌∷◌, ◌==◌,
  if◌then◌else◌,
}
use k8s_postgresql_operator.Errors.{Error, wrapped, err_postgresql_connection_failed}
use k8s_postgresql_operator.World.{Env, Action, Result, ok, err, Rows, return_ok, fail, map_err}
use k8s_postgresql_operator.World.Fallible.{◌>>=◌, ◌>>◌}
use k8s_postgresql_operator.Postgres.{
  Server, connection_string, open_conn, exists, rows, execute, default_db,
}
use k8s_postgresql_operator.Postgres.Databases.{failed_op, wrapped_op}

abbrev pub role_exists_query : String
role_exists_query = "SELECT EXISTS(SELECT 1 FROM pg_roles WHERE rolname = $1)"

abbrev pub members_query : String
members_query =
    "SELECT r.rolname FROM pg_roles r JOIN pg_auth_members m ON r.oid = m.member JOIN pg_roles g ON g.oid = m.roleid WHERE g.rolname = $1"

-- `m[k]` of a map to bool, of which the code sets no key to false.
unfoldable pub contains : List String → String → Bool
contains [] k = false
contains (x ∷ xs) k = x == k || contains xs k

-- The rows as the map `currentMembers`: its keys, each once, in the order in which `range` goes.
-- That order is Go's to choose; statements hold for every list of keys.
scan_members : List (Result String) → Option Error → List String → Result (List String)
scan_members [] none members = ok members
scan_members [] (some e) members = err (wrapped "error iterating members" e)
scan_members (ok m ∷ rest) failure members =
    scan_members rest failure (if contains members m then members else m ∷ members)
scan_members (err e ∷ rest) failure members = err (wrapped "failed to scan member" e)

module _ (E : Env) where
  abbrev pub alter_user : String → String → String
  alter_user username password =
      "ALTER USER " <> E.quote_identifier username <> " WITH PASSWORD " <> E.quote_literal password

  abbrev pub create_user : String → String → String
  create_user username password =
      "CREATE USER " <> E.quote_identifier username <> " WITH PASSWORD " <> E.quote_literal password

  abbrev pub grant_role : String → String → String
  grant_role escaped_group member = "GRANT " <> escaped_group <> " TO " <> E.quote_identifier member

  abbrev pub revoke_role : String → String → String
  revoke_role escaped_group member =
      "REVOKE " <> escaped_group <> " FROM " <> E.quote_identifier member

  -- `CreateOrUpdateUser`
  unfoldable pub create_or_update_user : Server → String → String → Action E (Unit {0})
  unfolding connection_string
  create_or_update_user server username password =
      let conn = connection_string server default_db in
      do
        map_err (wrapped_op err_postgresql_connection_failed "CreateOrUpdateUser.sql.Open")
            (open_conn E conn)
        present ←
            map_err (failed_op "CreateOrUpdateUser.checkUserExists")
              (exists E conn "SELECT EXISTS(SELECT 1 FROM pg_user WHERE usename = $1)" username)
        if present
            then map_err (failed_op "CreateOrUpdateUser.updateUserPassword")
                (execute E conn (alter_user username password) [])
            else map_err (failed_op "CreateOrUpdateUser.createUser")
                (execute E conn (create_user username password) [])

  -- `getCurrentMembers`
  unfoldable pub get_current_members : String → String → Action E (List String)
  unfolding scan_members contains
  get_current_members conn group_role = do
    found ←
        map_err (failed_op "CreateOrUpdateRoleGroup.queryCurrentMembers")
          (rows E conn members_query group_role)
    λ w. (scan_members found.items found.failure [], w)

  -- The first loop of `syncRoleGroupMembers`: each desired member that is not one yet, and that
  -- exists as a role, is added.
  unfoldable pub add_members : String → String → List String → List String → Action E (Unit {0})
  add_members conn escaped_group current [] = return_ok tt
  add_members conn escaped_group current (m ∷ ms) =
      let rest = add_members conn escaped_group current ms in
      if contains current m then rest else do
        present ←
            map_err (failed_op "CreateOrUpdateRoleGroup.checkMemberRoleExists")
              (exists E conn role_exists_query m)
        if present
            then (map_err (failed_op ("CreateOrUpdateRoleGroup.addMemberToGroup(" <> m <> ")"))
                  (execute E conn (grant_role escaped_group m) [])
                >> rest)
            else rest

  -- The second loop: each current member that is not desired is removed.
  unfoldable pub remove_members : String → String → List String → List String → Action E (Unit {0})
  remove_members conn escaped_group desired [] = return_ok tt
  remove_members conn escaped_group desired (m ∷ ms) =
      let rest = remove_members conn escaped_group desired ms in
      if contains desired m then rest else do
        map_err (wrapped ("failed to remove member " <> m <> " from group role"))
            (execute E conn (revoke_role escaped_group m) [])
        rest

  -- `syncRoleGroupMembers`
  unfoldable pub sync_role_group_members :
      String → String → List String → List String → Action E (Unit {0})
  sync_role_group_members conn escaped_group current desired = do
    add_members conn escaped_group current desired
    remove_members conn escaped_group desired current

  -- `CreateOrUpdateRoleGroup`
  unfoldable pub create_or_update_role_group : Server → String → List String → Action E (Unit {0})
  create_or_update_role_group server group_role member_roles =
      let conn = connection_string server default_db in
      let escaped = E.quote_identifier group_role in
      do
        map_err (wrapped_op err_postgresql_connection_failed "CreateOrUpdateRoleGroup.sql.Open")
            (open_conn E conn)
        present ←
            map_err (failed_op "CreateOrUpdateRoleGroup.checkGroupRoleExists")
              (exists E conn role_exists_query group_role)
        (if present
            then return_ok tt
            else map_err (failed_op "CreateOrUpdateRoleGroup.createGroupRole")
                (execute E conn ("CREATE ROLE " <> escaped) []))
        current ← get_current_members conn group_role
        sync_role_group_members conn escaped current member_roles
