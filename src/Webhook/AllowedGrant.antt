-- ===== src/Webhook/AllowedGrant.antt =====
-- What an allowed grant has passed (internal/webhook/grant_validator.go).
use k8s_postgresql_operator.Prelude.{String, ◌≡◌, ◌≢◌, true, eq_iff, arith, inl, inr}
use k8s_postgresql_operator.Api.{Grant}
use k8s_postgresql_operator.World.{Env, World, ok, Result-cases}
use k8s_postgresql_operator.Cluster.{
  check_duplicate_grant, grant_matches, database_exists_by_postgresql_id_and_name,
}
use k8s_postgresql_operator.Cluster.Listing.{NoDuplicate, check_duplicate_grant-none}
use k8s_postgresql_operator.Webhook.{Validator, Request, vault_gate, handle_grant}
use k8s_postgresql_operator.Webhook.Passed.{Reaches, grant_tail, grant_tail-passed}
use k8s_postgresql_operator.Webhook.Checks.{allowed, passed}

module _ (E : Env) (v : Validator) (w : World E) (x : Grant) (req : Request Grant)
    (d : req.decoded ≡ ok x) {shown : String} (h : (handle_grant E v req w).0 ≡ allowed shown) where
  grant_id : x.spec.postgresql_id ≢ ""
  unfolding handle_grant
  grant_id = ground (arith, eq_iff x.spec.postgresql_id "")

  grant_role : x.spec.role ≢ ""
  unfolding handle_grant
  grant_role = ground (arith, eq_iff x.spec.role "")

  grant_database : x.spec.database ≢ ""
  unfolding handle_grant
  grant_database = ground (arith, eq_iff x.spec.database "")

  grant_checks :
      (grant_tail E v x.spec.postgresql_id x.spec.database
        (check_duplicate_grant E x.meta.name x.meta.namespace x.spec.postgresql_id x.spec.role
          x.spec.database req.is_update)
        (vault_gate E v w).1).0
      ≡ passed tt
  unfolding handle_grant
  grant_checks = ground arith

module _ (E : Env) (v : Validator) (w : World E) where
  -- An allowed grant request was decoded to a grant with a nonempty ID, role and database, the
  -- instance of its ID was found and, where the validator has a Vault client, passed a connection
  -- test with the credentials that Vault gives for it, the database is declared for that ID, and
  -- no other listed grant has the same ID, role and database.
  pub handle_grant-allowed :
      (req : Request Grant) {shown : String}
      → (handle_grant E v req w).0 ≡ allowed shown
      → (x : Grant) × (req.decoded ≡ ok x)
        × (x.spec.postgresql_id ≢ "")
        × (x.spec.role ≢ "")
        × (x.spec.database ≢ "")
        × Reaches E v x.spec.postgresql_id
        × (seen : World E) × ((database_exists_by_postgresql_id_and_name E x.spec.postgresql_id
              x.spec.database seen).0
            ≡ ok true)
        × NoDuplicate E E.list_grants
            (λ y. y.meta)
            (grant_matches x.spec.postgresql_id x.spec.role x.spec.database)
            x.meta.name
            x.meta.namespace
            req.is_update
  unfolding handle_grant
  handle_grant-allowed req h = elim (Result-cases req.decoded) [
    | inl (x, d) ↦
        let w₁ : World E = (vault_gate E v w).1 in
        let (reached, seen, present, w', none_found) =
          grant_tail-passed E v x.spec.postgresql_id x.spec.database
            (check_duplicate_grant E x.meta.name x.meta.namespace x.spec.postgresql_id x.spec.role
              x.spec.database req.is_update)
            w₁ (grant_checks E v w x req d h) in
        (
          x,
          d,
          grant_id E v w x req d h,
          grant_role E v w x req d h,
          grant_database E v w x req d h,
          reached,
          seen,
          present,
          check_duplicate_grant-none E x.meta.name x.meta.namespace x.spec.postgresql_id
              req.is_update w' x.spec.role x.spec.database none_found,
        )
    | inr (e, d) ↦ absurd (ground arith)
  ]
