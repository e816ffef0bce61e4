-- ===== src/Postgres/Roles/Members.antt =====
-- The synchronisation of a role group's members (internal/postgresql/operations.go) against the
-- catalog of the server.
use k8s_postgresql_operator.Prelude.{
  String, ◌≡◌, Bool, true, ◌||◌, ◌&&◌, not, List, [], ◌∷◌, ◌==◌, eq_iff, arith, Bool-cases, inl,
  inr, ◌∙◌, sym,
}
use k8s_postgresql_operator.World.{Env, World, ok, Result-cases}
use k8s_postgresql_operator.Postgres.{exists, execute}
use k8s_postgresql_operator.Postgres.Roles.{
  contains, role_exists_query, grant_role, revoke_role, add_members, remove_members,
  sync_role_group_members,
}

-- What the operator relies on in the server's catalog, for one group: the query tells whether a
-- role exists and changes nothing; GRANT makes a member, REVOKE ends one, and neither changes
-- another or which roles exist; and a member is a role.
pub record IsRoleCatalog (E : Env) (conn group : String) : Type 0 where
  pub member : E.State → String → Bool
  pub role : E.State → String → Bool
  pub member_is_role : (s : E.State) (x : String) → member s x ≡ true → role s x ≡ true
  pub told :
      (s : E.State) (x : String) (b : Bool)
      → (E.query_exists conn role_exists_query x s).0 ≡ ok b
      → b ≡ role s x
  pub query_keeps :
      (s : E.State) (x y : String)
      → let s' = (E.query_exists conn role_exists_query x s).1 in
        (member s' y ≡ member s y) × (role s' y ≡ role s y)
  pub granted :
      (s : E.State) (x y : String)
      → let (r, s') = E.exec conn (grant_role E (E.quote_identifier group) x) [] s in
        r ≡ ok tt → (member s' y ≡ (x == y || member s y)) × (role s' y ≡ role s y)
  pub revoked :
      (s : E.State) (x y : String)
      → let (r, s') = E.exec conn (revoke_role E (E.quote_identifier group) x) [] s in
        r ≡ ok tt → (member s' y ≡ (not (x == y) && member s y)) × (role s' y ≡ role s y)

module _ (E : Env) (conn group : String) (catalog : IsRoleCatalog E conn group) where
  open catalog use {member, role, told, query_keeps, granted, revoked}

  -- The world after the question whether a role exists, after a GRANT, and after a REVOKE.
  asked : String → World E → World E
  asked m w = (exists E conn role_exists_query m w).1

  added : String → World E → World E
  added m w = (execute E conn (grant_role E (E.quote_identifier group) m) [] w).1

  removed : String → World E → World E
  removed m w = (execute E conn (revoke_role E (E.quote_identifier group) m) [] w).1

  add_members_lem :
      (current desired : List String) (x : String) (w : World E)
      → ((y : String) → contains current y ≡ true → member w.state y ≡ true)
      → (add_members E conn (E.quote_identifier group) current desired w).0 ≡ ok tt
      → let s' = (add_members E conn (E.quote_identifier group) current desired w).1.state in
        (member s' x ≡ (member w.state x || (contains desired x && role w.state x)))
        × (role s' x ≡ role w.state x)
  unfolding add_members contains asked added
  add_members_lem current [] x w inv h = ground arith
  add_members_lem current (m ∷ ms) x w inv h = elim (Bool-cases (contains current m)) [
    | inl old ↦ ground (arith, inv m, eq_iff m x, add_members_lem current ms x w inv)
    | inr new ↦ elim (Result-cases (E.query_exists conn role_exists_query m w.state).0) [
      | inr (e, failed) ↦ absurd (ground arith)
      | inl (present, q) ↦
          let w₁ : World E = asked m w in
          let inv₁ : (y : String) → contains current y ≡ true → member w₁.state y ≡ true =
            λ y c. (query_keeps w.state m y).0 ∙ inv y c in
          elim (Bool-cases present) [
            | inr absent ↦ ground (
              arith,
              eq_iff m x,
              told w.state m present q,
              query_keeps w.state m x,
              add_members_lem current ms x w₁ inv₁,
            )
            | inl there ↦
                let w₂ : World E = added m w₁ in
                elim (Result-cases
                  (E.exec conn (grant_role E (E.quote_identifier group) m) [] w₁.state).0) [
                    | inr (e, failed) ↦ absurd (ground arith)
                    | inl (t, done) ↦
                        let inv₂ : (y : String)
                            → contains current y ≡ true
                            → member w₂.state y ≡ true =
                          λ y c. ground (arith, granted w₁.state m y done, inv₁ y c) in
                        ground (
                          arith,
                          eq_iff m x,
                          told w.state m present q,
                          query_keeps w.state m x,
                          granted w₁.state m x done,
                          add_members_lem current ms x w₂ inv₂,
                        )
                  ]
          ]
    ]
  ]

  remove_members_lem :
      (desired current : List String) (x : String) (w : World E)
      → (remove_members E conn (E.quote_identifier group) desired current w).0 ≡ ok tt
      → let s' = (remove_members E conn (E.quote_identifier group) desired current w).1.state in
        member s' x ≡ (member w.state x && (not (contains current x) || contains desired x))
  unfolding remove_members contains removed
  remove_members_lem desired [] x w h = ground arith
  remove_members_lem desired (m ∷ ms) x w h = elim (Bool-cases (contains desired m)) [
    | inl wanted ↦ ground (arith, eq_iff m x, remove_members_lem desired ms x w)
    | inr unwanted ↦
        elim (Result-cases
          (E.exec conn (revoke_role E (E.quote_identifier group) m) [] w.state).0) [
            | inr (e, failed) ↦ absurd (ground arith)
            | inl (t, done) ↦ ground (
              arith,
              eq_iff m x,
              revoked w.state m x done,
              remove_members_lem desired ms x (removed m w),
            )
          ]
  ]

  -- On a role catalog, after a synchronisation of a role group that succeeds and that began with
  -- the current members, a name is a member of the group exactly if it is desired and is a role.
  pub sync_role_group_members_correct :
      (current desired : List String) (w : World E)
      → ((y : String) → contains current y ≡ member w.state y)
      → (sync_role_group_members E conn (E.quote_identifier group) current desired w).0 ≡ ok tt
      → (x : String)
      → member
          (sync_role_group_members E conn (E.quote_identifier group) current desired w).1.state
          x
        ≡ (contains desired x && role w.state x)
  unfolding sync_role_group_members
  sync_role_group_members_correct current desired w listed h x =
      let w₁ : World E = (add_members E conn (E.quote_identifier group) current desired w).1 in
      let grown = add_members_lem current desired x w (λ y c. sym (listed y) ∙ c) in
      ground (
        arith,
        listed x,
        catalog.member_is_role w.state x,
        grown,
        remove_members_lem desired current x w₁,
      )
