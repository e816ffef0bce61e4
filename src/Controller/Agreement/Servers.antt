-- ===== src/Controller/Agreement/Servers.antt =====
-- What the retried operations of a round change of the administrator's account on the server, and
-- what a connection test says of it (internal/postgresql).
use k8s_postgresql_operator.Prelude.{ℕ, String, ◌≡◌, refl, true, false, [], ◌⊎◌, inl, inr, arith}
use k8s_postgresql_operator.Errors.{Error}
use k8s_postgresql_operator.World.{Env, World, ok, err, Result-cases}
use k8s_postgresql_operator.Vault.{instance_admin_path}
use k8s_postgresql_operator.Postgres.{Server, connection_string, default_db, open_conn, exists}
use k8s_postgresql_operator.Postgres.Connection.{test_connection, test_plan, test_single_connection}
use k8s_postgresql_operator.Postgres.Roles.{create_or_update_user, alter_user, create_user}
use k8s_postgresql_operator.Retry.{
  max_retry_delay, max_connection_retry_delay, calculate_connection_backoff,
  execute_operation_with_retry, operation_plan,
}
use k8s_postgresql_operator.Retry.Runs.{with_retries-HasEnded}
use k8s_postgresql_operator.Postgres.Plain.{is_plain}
use k8s_postgresql_operator.Controller.Agreement.{
  IsAccountWorld, IsKept, HasTried, HasTried-trans, calculate_backoff-HasTried, await-HasTried,
  rotation_failures,
}
use k8s_postgresql_operator.Controller.Agreement.Steps.{loop-HasEnded}

module _ {E : Env} (sp id : String) {reach : String → String → Server}
    (k : IsAccountWorld E (instance_admin_path sp id) reach) where
  create_or_update_user-HasTried :
      (server : Server) (login new : String) (v : World E) (e : Error)
      → (create_or_update_user E server login new v).0 ≡ err e
      → HasTried k login new v (create_or_update_user E server login new v).1
  unfolding create_or_update_user rotation_failures
  create_or_update_user-HasTried server login new v e h =
      let conn = connection_string server default_db in
      let query : String = "SELECT EXISTS(SELECT 1 FROM pg_user WHERE usename = $1)" in
      let w₁ : World E = (open_conn E conn v).1 in
      let w₂ : World E = (exists E conn query login w₁).1 in
      let kept : IsKept k v w₂ =
        ground (arith, k.opened conn v.state, k.existed conn query login w₁.state) in
      elim (Result-cases (E.open_db conn v.state).0) [
        | inr (f, p) ↦ (
          ground (arith, k.opened conn v.state),
          inl (ground (arith, k.opened conn v.state)),
          ground (arith, kept),
        )
        | inl (u, p) ↦ elim (Result-cases (E.query_exists conn query login w₁.state).0) [
          | inr (f, q) ↦ (ground (arith, kept), inl (ground (arith, kept)), ground (arith, kept))
          | inl (true, q) ↦
              elim (Result-cases (E.exec conn (alter_user E login new) [] w₂.state).0) [
                | inl (x, r) ↦ absurd (ground (arith))
                | inr (f, r) ↦ elim (k.alter_failed conn login new w₂.state f r) [
                  | inl none_done ↦ (
                    ground (arith, kept, k.executed conn (alter_user E login new) w₂.state),
                    inl (ground (arith, kept, none_done)),
                    ground (arith, kept),
                  )
                  | inr done ↦ (
                    ground (arith, kept, k.executed conn (alter_user E login new) w₂.state),
                    inr (ground (arith, done)),
                    ground (arith, kept),
                  )
                ]
              ]
          | inl (false, q) ↦
              elim (Result-cases (E.exec conn (create_user E login new) [] w₂.state).0) [
                | inl (x, r) ↦ absurd (ground (arith))
                | inr (f, r) ↦ elim (k.create_failed conn login new w₂.state f r) [
                  | inl none_done ↦ (
                    ground (arith, kept, k.executed conn (create_user E login new) w₂.state),
                    inl (ground (arith, kept, none_done)),
                    ground (arith, kept),
                  )
                  | inr done ↦ (
                    ground (arith, kept, k.executed conn (create_user E login new) w₂.state),
                    inr (ground (arith, done)),
                    ground (arith, kept),
                  )
                ]
              ]
        ]
      ]

  create_or_update_user_set :
      (server : Server) (login new : String) (v : World E)
      → (create_or_update_user E server login new v).0 ≡ ok tt
      → let w' = (create_or_update_user E server login new v).1 in
        (k.secret w'.state ≡ k.secret v.state)
        × (k.password (k.accounts w'.state) login ≡ new)
        × (rotation_failures w'.trace ≡ rotation_failures v.trace)
  unfolding create_or_update_user rotation_failures
  create_or_update_user_set server login new v h =
      let conn = connection_string server default_db in
      let query : String = "SELECT EXISTS(SELECT 1 FROM pg_user WHERE usename = $1)" in
      let w₁ : World E = (open_conn E conn v).1 in
      let w₂ : World E = (exists E conn query login w₁).1 in
      let kept : IsKept k v w₂ =
        ground (arith, k.opened conn v.state, k.existed conn query login w₁.state) in
      elim (Result-cases (E.open_db conn v.state).0) [
        | inr (f, p) ↦ absurd (ground (arith))
        | inl (u, p) ↦ elim (Result-cases (E.query_exists conn query login w₁.state).0) [
          | inr (f, q) ↦ absurd (ground (arith))
          | inl (true, q) ↦
              elim (Result-cases (E.exec conn (alter_user E login new) [] w₂.state).0) [
                | inr (f, r) ↦ absurd (ground (arith))
                | inl (x, r) ↦ (
                  ground (arith, kept, k.executed conn (alter_user E login new) w₂.state),
                  ground (arith, k.altered conn login new w₂.state r),
                  ground (arith, kept),
                )
              ]
          | inl (false, q) ↦
              elim (Result-cases (E.exec conn (create_user E login new) [] w₂.state).0) [
                | inr (f, r) ↦ absurd (ground (arith))
                | inl (x, r) ↦ (
                  ground (arith, kept, k.executed conn (create_user E login new) w₂.state),
                  ground (arith, k.created conn login new w₂.state r),
                  ground (arith, kept),
                )
              ]
        ]
      ]

  -- The change on the server: with success the login has the new password, and else it has it or
  -- nothing changes.
  pub create_or_update_user_with_retry_set :
      (server : Server) (login new name : String) (retries delay : ℕ) (w : World E)
      → let (r, w') =
          execute_operation_with_retry E
            (create_or_update_user E server login new)
            retries
            delay
            name
            w in
        ((r ≡ ok tt)
          × (k.secret w'.state ≡ k.secret w.state)
          × (k.password (k.accounts w'.state) login ≡ new)
          × (rotation_failures w'.trace ≡ rotation_failures w.trace))
        ⊎ ((e : Error) × (r ≡ err e) × HasTried k login new w w')
  unfolding execute_operation_with_retry
  create_or_update_user_with_retry_set server login new name retries delay w =
      let op = create_or_update_user E server login new in
      let plan = operation_plan E op retries delay name in
      let kept_by_delays = calculate_backoff-HasTried k w login new delay max_retry_delay in
      elim (with_retries-HasEnded plan (HasTried k login new w)
        (λ v e h p.
          HasTried-trans k login new w v (op v).1 p
            (create_or_update_user-HasTried server login new v e h))
        kept_by_delays (await-HasTried k w login new) retries w (refl, inl refl, refl)) [
          | inr (e, p, h) ↦ inr (e, p, h)
          | inl (u, v, tried, h, p, same) ↦
              let (s, t, f) = create_or_update_user_set server login new v h in
              inl (
                p,
                ground (arith, s, same, tried),
                ground (arith, t, same),
                ground (arith, f, same, tried),
              )
        ]

  test_single_connection-IsKept :
      (server : Server) (v : World E) → IsKept k v (test_single_connection E server default_db v).1
  unfolding test_single_connection rotation_failures
  test_single_connection-IsKept server v =
      let conn = connection_string server default_db in
      let w₁ : World E = (open_conn E conn v).1 in
      ground (arith, k.opened conn v.state, k.numbered conn "SELECT 1" w₁.state)

  test_single_connection_password :
      (login given : String) (v : World E)
      → is_plain login ≡ true
      → is_plain given ≡ true
      → (test_single_connection E (reach login given) default_db v).0 ≡ ok tt
      → k.password (k.accounts v.state) login ≡ given
  unfolding test_single_connection rotation_failures
  test_single_connection_password login given v plain_login plain_given h =
      let conn = connection_string (reach login given) default_db in
      let w₁ : World E = (open_conn E conn v).1 in
      elim (Result-cases (E.open_db conn v.state).0) [
        | inr (f, p) ↦ absurd (ground (arith))
        | inl (u, p) ↦ elim (Result-cases (E.query_number conn "SELECT 1" w₁.state).0) [
          | inr (f, q) ↦ absurd (ground (arith))
          | inl (n, q) ↦ ground (
            arith,
            k.opened conn v.state,
            k.logged_in login given "SELECT 1" w₁.state n plain_login plain_given q,
          )
        ]
      ]

  -- A connection test changes nothing, and with a plain login and password it succeeds only with the
  -- password of its login.
  pub test_connection-IsKept :
      (login given : String) (retries delay : ℕ) (w : World E)
      → let (r, w') = test_connection E (reach login given) default_db retries delay w in
        IsKept k w w'
        × (((r ≡ ok tt)
              × (is_plain login ≡ true
                  → is_plain given ≡ true
                  → k.password (k.accounts w.state) login ≡ given))
            ⊎ ((e : Error) × (r ≡ err e)))
  unfolding test_connection calculate_connection_backoff
  test_connection-IsKept login given retries delay w =
      elim (loop-HasEnded sp id k (test_plan E (reach login given) default_db retries delay) delay
        max_connection_retry_delay retries w
        (λ v e h. test_single_connection-IsKept (reach login given) v) (λ n v. refl)) [
          | inr (e, p, h) ↦ (h, inr (e, p))
          | inl (u, v, kept, h, p, same) ↦ (
            ground (arith, kept, same, test_single_connection-IsKept (reach login given) v),
            inl (
              p,
              λ plain_login plain_given. ground (
                arith,
                kept,
                test_single_connection_password login given v plain_login plain_given h,
              ),
            ),
          )
        ]
