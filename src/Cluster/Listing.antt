-- ===== src/Cluster/Listing.antt =====
-- What each of the six duplicate checks has seen when it reports nothing
-- (internal/k8s/duplicate_check.go).
use k8s_postgresql_operator.Prelude.{String, ◌≡◌, inl, inr, Bool, none, List, arith}
use k8s_postgresql_operator.Api.{ObjectMeta}
use k8s_postgresql_operator.World.{Env, World, ok, return_ok, Result, Result-cases}
use k8s_postgresql_operator.World.Fallible.{◌>>=◌}
use k8s_postgresql_operator.Cluster.{
  list_all, report, check_duplicate_postgresql_id, check_duplicate_user, check_duplicate_database,
  check_duplicate_grant, check_duplicate_rolegroup, check_duplicate_schema, user_matches,
  database_matches, grant_matches, rolegroup_matches, schema_matches, first_duplicate,
  has_postgresql_id,
}
use k8s_postgresql_operator.Cluster.Uniqueness.{IsFree, IsFree-of_none}

-- At some moment the cluster listed no resource with the same keys, but for the one under review.
abbrev pub NoDuplicate :
    {A : Type 0} (E : Env)
    → (E.State → Result (List A) × E.State)
    → (A → ObjectMeta)
    → (A → Bool)
    → String
    → String
    → Bool
    → Type 0
NoDuplicate {A} E list meta matches name namespace is_update =
    (moment : E.State) × (items : List A) × ((list moment).0 ≡ ok items)
    × IsFree meta matches name namespace is_update items

-- What the six duplicate checks share: they report nothing only on such a listing.
module _ {A : Type 0} (E : Env) (list : E.State → Result (List A) × E.State) (meta : A → ObjectMeta)
    (matches : A → Bool) (name namespace : String) (is_update : Bool) where
  check_none :
      (resource shown message : String) (fields : List (String × String)) (w : World E)
      → ((list_all E resource list >>= λ items. return_ok (
            report meta shown fields message
              (first_duplicate meta matches name namespace is_update items)))
          w).0
        ≡ ok none
      → NoDuplicate E list meta matches name namespace is_update
  unfolding report
  check_none resource shown message fields w h = elim (Result-cases (list w.state).0) [
    | inl (items, listed) ↦ (
      w.state,
      items,
      listed,
      IsFree-of_none meta matches name namespace is_update items (ground arith),
    )
    | inr (e, failed) ↦ absurd (ground arith)
  ]

module _ (E : Env) (name namespace postgresql_id : String) (is_update : Bool) (w : World E) where
  pub check_duplicate_postgresql_id-none :
      (check_duplicate_postgresql_id E name namespace postgresql_id is_update w).0 ≡ ok none
      → NoDuplicate E E.list_postgresqls
          (λ p. p.meta)
          (has_postgresql_id postgresql_id)
          name
          namespace
          is_update
  unfolding check_duplicate_postgresql_id
  check_duplicate_postgresql_id-none h =
      check_none E E.list_postgresqls (λ p. p.meta) (has_postgresql_id postgresql_id) name namespace
        is_update _ _ _ _ w h

  pub check_duplicate_user-none :
      (username : String)
      → (check_duplicate_user E name namespace postgresql_id username is_update w).0 ≡ ok none
      → NoDuplicate E E.list_users
          (λ x. x.meta)
          (user_matches postgresql_id username)
          name
          namespace
          is_update
  unfolding check_duplicate_user
  check_duplicate_user-none username h =
      check_none E E.list_users (λ x. x.meta) (user_matches postgresql_id username) name namespace
        is_update _ _ _ _ w h

  pub check_duplicate_database-none :
      (database_name : String)
      → (check_duplicate_database E name namespace postgresql_id database_name is_update w).0
        ≡ ok none
      → NoDuplicate E E.list_databases
          (λ x. x.meta)
          (database_matches postgresql_id database_name)
          name
          namespace
          is_update
  unfolding check_duplicate_database
  check_duplicate_database-none database_name h =
      check_none E E.list_databases (λ x. x.meta) (database_matches postgresql_id database_name)
        name namespace is_update _ _ _ _ w h

  pub check_duplicate_grant-none :
      (role database_name : String)
      → (check_duplicate_grant E name namespace postgresql_id role database_name is_update w).0
        ≡ ok none
      → NoDuplicate E E.list_grants
          (λ x. x.meta)
          (grant_matches postgresql_id role database_name)
          name
          namespace
          is_update
  unfolding check_duplicate_grant
  check_duplicate_grant-none role database_name h =
      check_none E E.list_grants (λ x. x.meta) (grant_matches postgresql_id role database_name) name
        namespace is_update _ _ _ _ w h

  pub check_duplicate_rolegroup-none :
      (group_role : String)
      → (check_duplicate_rolegroup E name namespace postgresql_id group_role is_update w).0
        ≡ ok none
      → NoDuplicate E E.list_rolegroups
          (λ x. x.meta)
          (rolegroup_matches postgresql_id group_role)
          name
          namespace
          is_update
  unfolding check_duplicate_rolegroup
  check_duplicate_rolegroup-none group_role h =
      check_none E E.list_rolegroups (λ x. x.meta) (rolegroup_matches postgresql_id group_role) name
        namespace is_update _ _ _ _ w h

  pub check_duplicate_schema-none :
      (schema_name : String)
      → (check_duplicate_schema E name namespace postgresql_id schema_name is_update w).0 ≡ ok none
      → NoDuplicate E E.list_schemas
          (λ x. x.meta)
          (schema_matches postgresql_id schema_name)
          name
          namespace
          is_update
  unfolding check_duplicate_schema
  check_duplicate_schema-none schema_name h =
      check_none E E.list_schemas (λ x. x.meta) (schema_matches postgresql_id schema_name) name
        namespace is_update _ _ _ _ w h
