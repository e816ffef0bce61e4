-- ===== src/Controller/Agreement/Changes.antt =====
-- What the retried operations of a round change of the administrator's credentials, in Vault and on
-- the server (internal/controller/connection_retry.go, internal/postgresql).
use k8s_postgresql_operator.Prelude.{
  ℕ, String, ◌≡◌, refl, sym, ap, ◌∙◌, none, some, [], ◌==◌, Bool-cases, ◌⊎◌, inl, inr, arith,
}
use k8s_postgresql_operator.Errors.{Error}
use k8s_postgresql_operator.World.{Env, World, ok, err, Data, Result-cases}
use k8s_postgresql_operator.Vault.{
  string_field, instance_admin_path, read_kv, store_postgresql_credentials,
  rotate_instance_admin_password, admin_data,
}
use k8s_postgresql_operator.Postgres.{Server}
use k8s_postgresql_operator.Retry.{
  store_vault_credentials_with_retry, rotate_instance_admin_password_with_retry, never_fatal,
}
use k8s_postgresql_operator.Controller.Agreement.{IsAccountWorld, IsKept, rotation_failures}
use k8s_postgresql_operator.Controller.Agreement.Steps.{vault-HasEnded_by}

module _ {E : Env} (sp id : String) {reach : String → String → Server}
    (k : IsAccountWorld E (instance_admin_path sp id) reach) where
  -- The secret is the one that was to be written, and the accounts are as before.
  abbrev pub HasStored : Data → World E → World E → Type 0
  HasStored d w w' =
      (k.secret w'.state ≡ some d)
      × (k.accounts w'.state ≡ k.accounts w.state)
      × (rotation_failures w'.trace ≡ rotation_failures w.trace)

  HasStored-trans :
      (d : Data) (w v v' : World E)
      → IsKept k w v ⊎ HasStored d w v
      → IsKept k v v' ⊎ HasStored d v v'
      → IsKept k w v' ⊎ HasStored d w v'
  HasStored-trans d w v v' (inl kept) (inl same) =
      inl (ground (arith, kept, same), ground (arith, kept, same), ground (arith, kept, same))
  HasStored-trans d w v v' (inr (s, a, f)) (inl same) =
      inr (ground (arith, s, same), ground (arith, a, same), ground (arith, f, same))
  HasStored-trans d w v v' (inl kept) (inr (s, a, f)) =
      inr (s, ground (arith, kept, a), ground (arith, kept, f))
  HasStored-trans d w v v' (inr (s, a, f)) (inr (s', a', f')) =
      inr (s', ground (arith, a, a'), ground (arith, f, f'))

  store_failed :
      (login password : String) (v : World E) (e : Error)
      → (store_postgresql_credentials E sp id login password v).0 ≡ err e
      → let v' = (store_postgresql_credentials E sp id login password v).1 in
        IsKept k v v' ⊎ HasStored (admin_data login password) v v'
  unfolding store_postgresql_credentials rotation_failures
  store_failed login password v e h =
      let d = admin_data login password in
      elim (Result-cases (E.put_secret (instance_admin_path sp id) d v.state).0) [
        | inl (u, p) ↦ absurd (ground (arith))
        | inr (f, p) ↦ elim (k.put_failed d v.state f p) [
          | inl same ↦ inl (ground (arith, same), ground (arith, k.put d v.state), ground (arith))
          | inr done ↦ inr (ground (arith, done), ground (arith, k.put d v.state), ground (arith))
        ]
      ]

  -- A store: with success the secret is the new one, and else it is so or nothing changes.
  pub store_vault_credentials_with_retry_stored :
      (login password : String) (retries delay : ℕ) (w : World E)
      → let (r, w') =
          store_vault_credentials_with_retry E (some sp) id login password retries delay w in
        ((r ≡ ok tt)
          × (k.secret w'.state ≡ some (admin_data login password))
          × (k.accounts w'.state ≡ k.accounts w.state)
          × (rotation_failures w'.trace ≡ rotation_failures w.trace))
        ⊎ ((e : Error) × (r ≡ err e) × (IsKept k w w' ⊎ HasStored (admin_data login password) w w'))
  unfolding store_vault_credentials_with_retry store_postgresql_credentials rotation_failures
  store_vault_credentials_with_retry_stored login password retries delay w =
      let path = instance_admin_path sp id in
      let d = admin_data login password in
      let op = store_postgresql_credentials E sp id login password in
      elim (vault-HasEnded_by sp id k op never_fatal "vault instance admin credentials storage"
        "failed to store instance admin credentials in Vault" retries delay w
        (λ v. IsKept k w v ⊎ HasStored d w v) (λ v v' h same. HasStored-trans d w v v' h (inl same))
        (λ v e h p. HasStored-trans d w v (op v).1 p (store_failed login password v e h))
        (inl (refl, refl, refl))) [
          | inr (e, p, h) ↦ inr (e, p, h)
          | inl (u, v, stored, h, p, same) ↦ elim (Result-cases (E.put_secret path d v.state).0) [
            | inr (f, q) ↦ absurd (ground (arith))
            | inl (x, q) ↦ inl (
              p,
              ground (arith, k.put_ok d v.state q, same),
              ground (arith, stored, same, k.put d v.state),
              ground (arith, stored, same),
            )
          ]
        ]

  -- The secret before some steps, after a rotation of the password that may have been written.
  abbrev pub HasTurned : String → World E → World E → Type 0
  HasTurned new w v =
      IsKept k w v
      ⊎ ((d : Data) × (k.secret w.state ≡ some d)
          × HasStored (admin_data (string_field "login" d) new) w v)

  -- A rotation that is written after some that may have been is the rotation of what was there first.
  HasTurned-HasStored :
      (new : String) (w v v' : World E) (d : Data)
      → HasTurned new w v
      → k.secret v.state ≡ some d
      → HasStored (admin_data (string_field "login" d) new) v v'
      → (d₀ : Data) × (k.secret w.state ≡ some d₀)
        × HasStored (admin_data (string_field "login" d₀) new) w v'
  unfolding string_field
  HasTurned-HasStored new w v v' d (inl kept) found (s, a, f) =
      (d, ground (arith, kept, found), (s, ground (arith, kept, a), ground (arith, kept, f)))
  HasTurned-HasStored new w v v' d (inr (d₀, found₀, (s₀, a₀, f₀))) found (s, a, f) =
      let same : some d ≡ some (admin_data (string_field "login" d₀) new) = sym found ∙ s₀ in
      (
        d₀,
        found₀,
        (
          s
              ∙ ap
                  (λ x. elim x [
                    | none ↦ some []
                    | some y ↦ some (admin_data (string_field "login" y) new)
                  ])
                  same,
          ground (arith, a, a₀),
          ground (arith, f, f₀),
        ),
      )

  HasTurned-trans :
      (new : String) (w v v' : World E)
      → HasTurned new w v
      → HasTurned new v v'
      → HasTurned new w v'
  HasTurned-trans new w v v' (inl kept) (inl same) =
      inl (ground (arith, kept, same), ground (arith, kept, same), ground (arith, kept, same))
  HasTurned-trans new w v v' (inr (d, found, (s, a, f))) (inl same) =
      inr (d, found, (ground (arith, s, same), ground (arith, a, same), ground (arith, f, same)))
  HasTurned-trans new w v v' h (inr (d, found, stored)) =
      inr (HasTurned-HasStored new w v v' d h found stored)

  rotation_failed :
      (new : String) (v : World E) (e : Error)
      → (rotate_instance_admin_password E sp id new v).0 ≡ err e
      → HasTurned new v (rotate_instance_admin_password E sp id new v).1
  unfolding rotate_instance_admin_password rotation_failures
  rotation_failed new v e h =
      let path = instance_admin_path sp id in
      let w₁ : World E = (read_kv E path v).1 in
      let got = k.got path v.state in
      elim (Result-cases (E.get_secret path v.state).0) [
        | inr (f, p) ↦ inl (ground (arith, got), ground (arith, got), ground (arith))
        | inl (none, p) ↦ inl (ground (arith, got), ground (arith, got), ground (arith))
        | inl (some d, p) ↦
            let d' = admin_data (string_field "login" d) new in
            let put = k.put d' w₁.state in
            elim (Bool-cases (string_field "login" d == "")) [
              | inl unnamed ↦ inl (ground (arith, got), ground (arith, got), ground (arith))
              | inr named ↦ elim (Result-cases (E.put_secret path d' w₁.state).0) [
                | inl (u, q) ↦ absurd (ground (arith))
                | inr (f, q) ↦ elim (k.put_failed d' w₁.state f q) [
                  | inl same ↦
                      inl (ground (arith, got, same), ground (arith, got, put), ground (arith))
                  | inr done ↦ inr (
                    d,
                    k.read v.state d p,
                    (ground (arith, done), ground (arith, got, put), ground (arith)),
                  )
                ]
              ]
            ]
      ]

  rotate_instance_admin_password_stored :
      (new : String) (v : World E)
      → (rotate_instance_admin_password E sp id new v).0 ≡ ok tt
      → let w' = (rotate_instance_admin_password E sp id new v).1 in
        (d : Data) × (k.secret v.state ≡ some d)
        × (k.secret w'.state ≡ some (admin_data (string_field "login" d) new))
        × (k.accounts w'.state ≡ k.accounts v.state)
        × (rotation_failures w'.trace ≡ rotation_failures v.trace)
  unfolding rotate_instance_admin_password rotation_failures
  rotate_instance_admin_password_stored new v h =
      let path = instance_admin_path sp id in
      let w₁ : World E = (read_kv E path v).1 in
      elim (Result-cases (E.get_secret path v.state).0) [
        | inr (f, p) ↦ absurd (ground (arith))
        | inl (none, p) ↦ absurd (ground (arith))
        | inl (some d, p) ↦
            let d' = admin_data (string_field "login" d) new in
            elim (Result-cases (E.put_secret path d' w₁.state).0) [
              | inr (f, q) ↦ absurd (ground (arith))
              | inl (u, q) ↦ (
                d,
                k.read v.state d p,
                ground (arith, k.put_ok d' w₁.state q),
                ground (arith, k.got path v.state, k.put d' w₁.state),
                ground (arith),
              )
            ]
      ]

  -- A rotation in Vault: with success the secret has the old login and the new password, and else it
  -- is so or nothing changes.
  pub rotate_instance_admin_password_with_retry_stored :
      (new : String) (retries delay : ℕ) (w : World E)
      → let (r, w') =
          rotate_instance_admin_password_with_retry E (some sp) id new retries delay w in
        ((d : Data) × (r ≡ ok tt)
          × (k.secret w.state ≡ some d)
          × (k.secret w'.state ≡ some (admin_data (string_field "login" d) new))
          × (k.accounts w'.state ≡ k.accounts w.state)
          × (rotation_failures w'.trace ≡ rotation_failures w.trace))
        ⊎ ((e : Error) × (r ≡ err e) × HasTurned new w w')
  unfolding rotate_instance_admin_password_with_retry
  rotate_instance_admin_password_with_retry_stored new retries delay w =
      let op = rotate_instance_admin_password E sp id new in
      elim (vault-HasEnded_by sp id k op never_fatal "vault instance admin password rotation"
        "failed to rotate instance admin password in Vault" retries delay w (HasTurned new w)
        (λ v v' h same. HasTurned-trans new w v v' h (inl same))
        (λ v e h p. HasTurned-trans new w v (op v).1 p (rotation_failed new v e h))
        (inl (refl, refl, refl))) [
          | inr (e, p, h) ↦ inr (e, p, h)
          | inl (u, v, before, h, p, same) ↦
              let (d, s, t, a, f) = rotate_instance_admin_password_stored new v h in
              let (d₀, found, (s', a', f')) =
                HasTurned-HasStored new w v (op v).1 d before s (t, a, f) in
              inl (
                d₀,
                p,
                found,
                ground (arith, s', same),
                ground (arith, a', same),
                ground (arith, f', same),
              )
        ]
