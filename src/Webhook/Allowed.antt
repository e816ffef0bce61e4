-- ===== src/Webhook/Allowed.antt =====
-- What an allowed request has passed (internal/webhook): every check of its validator.
use k8s_postgresql_operator.Prelude.{
  String, ◌≡◌, ◌≢◌, false, Option, some, List, eq_iff, arith, Option-cases, inl, inr,
}
use k8s_postgresql_operator.Api.{
  Postgresql, User, Database, RoleGroup, Schema, ExternalPostgresqlInstance,
}
use k8s_postgresql_operator.World.{Env, World, Action, ok, Result-cases}
use k8s_postgresql_operator.Cluster.{
  Duplicate, has_postgresql_id, check_duplicate_user, check_duplicate_database,
  check_duplicate_rolegroup, check_duplicate_schema, check_duplicate_postgresql_id, user_matches,
  database_matches, rolegroup_matches, schema_matches,
}
use k8s_postgresql_operator.Cluster.Listing.{
  NoDuplicate, check_duplicate_postgresql_id-none, check_duplicate_user-none,
  check_duplicate_database-none, check_duplicate_rolegroup-none, check_duplicate_schema-none,
}
use k8s_postgresql_operator.Webhook.{
  Validator, Request, is_excluded, vault_gate, duplicate_gate, handle_postgresql, handle_user,
  handle_database, handle_rolegroup, handle_schema,
}
use k8s_postgresql_operator.Webhook.Passed.{
  Reaches, IsTested, tail-passed, connection_gate-passed, duplicate_gate-passed,
}
use k8s_postgresql_operator.Webhook.Checks.{allowed}

module _ (E : Env) (v : Validator) (w : World E) where
  -- An allowed user request was decoded to a user with a nonempty ID and name, the name is not on
  -- the exclude list, the instance of its ID was found and, where the validator has a Vault
  -- client, passed a connection test with the credentials that Vault gives for it, and no other
  -- listed user has the same ID and name.
  pub handle_user-allowed :
      (excluded : List String) (req : Request User) {shown : String}
      → (handle_user E v excluded req w).0 ≡ allowed shown
      → (x : User) × (req.decoded ≡ ok x)
        × (x.spec.postgresql_id ≢ "")
        × (x.spec.username ≢ "")
        × (is_excluded x.spec.username excluded ≡ false)
        × Reaches E v x.spec.postgresql_id
        × NoDuplicate E E.list_users
            (λ y. y.meta)
            (user_matches x.spec.postgresql_id x.spec.username)
            x.meta.name
            x.meta.namespace
            req.is_update
  unfolding handle_user
  handle_user-allowed excluded req h = elim (Result-cases req.decoded) [
    | inl (x, d) ↦
        let w₁ : World E = (vault_gate E v w).1 in
        let (reached, w', none_found) =
          tail-passed E v x.spec.postgresql_id
            (check_duplicate_user E x.meta.name x.meta.namespace x.spec.postgresql_id
              x.spec.username req.is_update)
            w₁ (ground arith) in
        (
          x,
          d,
          ground (arith, eq_iff x.spec.postgresql_id ""),
          ground (arith, eq_iff x.spec.username ""),
          ground arith,
          reached,
          check_duplicate_user-none E x.meta.name x.meta.namespace x.spec.postgresql_id
              req.is_update w' x.spec.username none_found,
        )
    | inr (e, d) ↦ absurd (ground arith)
  ]

  -- An allowed database request was decoded to a database with a nonempty ID and name, the
  -- instance of its ID was found and, where the validator has a Vault client, passed a connection
  -- test with the credentials that Vault gives for it, and no other listed database has the same
  -- ID and name.
  pub handle_database-allowed :
      (req : Request Database) {shown : String}
      → (handle_database E v req w).0 ≡ allowed shown
      → (x : Database) × (req.decoded ≡ ok x)
        × (x.spec.postgresql_id ≢ "")
        × (x.spec.database ≢ "")
        × Reaches E v x.spec.postgresql_id
        × NoDuplicate E E.list_databases
            (λ y. y.meta)
            (database_matches x.spec.postgresql_id x.spec.database)
            x.meta.name
            x.meta.namespace
            req.is_update
  unfolding handle_database
  handle_database-allowed req h = elim (Result-cases req.decoded) [
    | inl (x, d) ↦
        let w₁ : World E = (vault_gate E v w).1 in
        let (reached, w', none_found) =
          tail-passed E v x.spec.postgresql_id
            (check_duplicate_database E x.meta.name x.meta.namespace x.spec.postgresql_id
              x.spec.database req.is_update)
            w₁ (ground arith) in
        (
          x,
          d,
          ground (arith, eq_iff x.spec.postgresql_id ""),
          ground (arith, eq_iff x.spec.database ""),
          reached,
          check_duplicate_database-none E x.meta.name x.meta.namespace x.spec.postgresql_id
              req.is_update w' x.spec.database none_found,
        )
    | inr (e, d) ↦ absurd (ground arith)
  ]

  -- An allowed role group request was decoded to a role group with a nonempty ID and group role,
  -- the instance of its ID was found and, where the validator has a Vault client, passed a
  -- connection test with the credentials that Vault gives for it, and no other listed role group
  -- has the same ID and group role.
  pub handle_rolegroup-allowed :
      (req : Request RoleGroup) {shown : String}
      → (handle_rolegroup E v req w).0 ≡ allowed shown
      → (x : RoleGroup) × (req.decoded ≡ ok x)
        × (x.spec.postgresql_id ≢ "")
        × (x.spec.group_role ≢ "")
        × Reaches E v x.spec.postgresql_id
        × NoDuplicate E E.list_rolegroups
            (λ y. y.meta)
            (rolegroup_matches x.spec.postgresql_id x.spec.group_role)
            x.meta.name
            x.meta.namespace
            req.is_update
  unfolding handle_rolegroup
  handle_rolegroup-allowed req h = elim (Result-cases req.decoded) [
    | inl (x, d) ↦
        let w₁ : World E = (vault_gate E v w).1 in
        let (reached, w', none_found) =
          tail-passed E v x.spec.postgresql_id
            (check_duplicate_rolegroup E x.meta.name x.meta.namespace x.spec.postgresql_id
              x.spec.group_role req.is_update)
            w₁ (ground arith) in
        (
          x,
          d,
          ground (arith, eq_iff x.spec.postgresql_id ""),
          ground (arith, eq_iff x.spec.group_role ""),
          reached,
          check_duplicate_rolegroup-none E x.meta.name x.meta.namespace x.spec.postgresql_id
              req.is_update w' x.spec.group_role none_found,
        )
    | inr (e, d) ↦ absurd (ground arith)
  ]

  -- An allowed schema request was decoded to a schema with a nonempty ID, name and owner, the
  -- instance of its ID was found and, where the validator has a Vault client, passed a connection
  -- test with the credentials that Vault gives for it, and no other listed schema has the same ID
  -- and name.
  pub handle_schema-allowed :
      (req : Request Schema) {shown : String}
      → (handle_schema E v req w).0 ≡ allowed shown
      → (x : Schema) × (req.decoded ≡ ok x)
        × (x.spec.postgresql_id ≢ "")
        × (x.spec.schema ≢ "")
        × (x.spec.owner ≢ "")
        × Reaches E v x.spec.postgresql_id
        × NoDuplicate E E.list_schemas
            (λ y. y.meta)
            (schema_matches x.spec.postgresql_id x.spec.schema)
            x.meta.name
            x.meta.namespace
            req.is_update
  unfolding handle_schema
  handle_schema-allowed req h = elim (Result-cases req.decoded) [
    | inl (x, d) ↦
        let w₁ : World E = (vault_gate E v w).1 in
        let (reached, w', none_found) =
          tail-passed E v x.spec.postgresql_id
            (check_duplicate_schema E x.meta.name x.meta.namespace x.spec.postgresql_id
              x.spec.schema req.is_update)
            w₁ (ground arith) in
        (
          x,
          d,
          ground (arith, eq_iff x.spec.postgresql_id ""),
          ground (arith, eq_iff x.spec.schema ""),
          ground (arith, eq_iff x.spec.owner ""),
          reached,
          check_duplicate_schema-none E x.meta.name x.meta.namespace x.spec.postgresql_id
              req.is_update w' x.spec.schema none_found,
        )
    | inr (e, d) ↦ absurd (ground arith)
  ]

  -- An allowed instance request was decoded to an instance with an external instance and a
  -- nonempty ID, where the validator has a Vault client it passed a connection test with the
  -- credentials that Vault gives for it, and no other listed instance has the same ID.
  pub handle_postgresql-allowed :
      (req : Request Postgresql) {shown : String}
      → (handle_postgresql E v req w).0 ≡ allowed shown
      → (x : Postgresql) × (external : ExternalPostgresqlInstance) × (req.decoded ≡ ok x)
        × (x.external_instance ≡ some external)
        × (external.postgresql_id ≢ "")
        × (moment : World E) × IsTested E v x moment
        × NoDuplicate E E.list_postgresqls
            (λ y. y.meta)
            (has_postgresql_id external.postgresql_id)
            x.meta.name
            x.meta.namespace
            req.is_update
  unfolding handle_postgresql
  handle_postgresql-allowed req h = elim (Result-cases req.decoded) [
    | inl (x, d) ↦ elim (Option-cases x.external_instance) [
      | inl absent ↦ absurd (ground arith)
      | inr (external, named) ↦
          let w₁ : World E = (vault_gate E v w).1 in
          let check : Action E (Option Duplicate) =
            check_duplicate_postgresql_id E x.meta.name x.meta.namespace external.postgresql_id
              req.is_update in
          let w₂ : World E = (duplicate_gate E check w₁).1 in
          (
            x,
            external,
            d,
            named,
            ground (arith, eq_iff external.postgresql_id ""),
            w₂,
            connection_gate-passed E v external.postgresql_id x w₂ (ground arith),
            check_duplicate_postgresql_id-none E x.meta.name x.meta.namespace external.postgresql_id
                req.is_update w₁ (duplicate_gate-passed E v check w₁ (ground arith)),
          )
    ]
    | inr (e, d) ↦ absurd (ground arith)
  ]
