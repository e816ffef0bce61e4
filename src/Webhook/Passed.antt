-- ===== src/Webhook/Passed.antt =====
-- What follows from the checks that the validators share (internal/webhook) when they pass.
use k8s_postgresql_operator.Prelude.{
  String, ◌≡◌, refl, true, ◌||◌, ◌==◌, Option, none, some, arith, inl, inr, ◌⊎◌, Option-cases,
  Bool-cases,
}
use k8s_postgresql_operator.Api.{Postgresql, ExternalPostgresqlInstance}
use k8s_postgresql_operator.World.{Env, World, Action, ok, Result-cases}
use k8s_postgresql_operator.Cluster.{
  Duplicate, find_postgresql_by_id, database_exists_by_postgresql_id_and_name,
}
use k8s_postgresql_operator.Postgres.{default_db}
use k8s_postgresql_operator.Postgres.Connection.{
  port_of, ssl_mode_of, test_connection, resolve_vault_credentials, test_connection_from_postgresql,
}
use k8s_postgresql_operator.Webhook.{
  Validator, instance_gate, connection_gate, duplicate_gate, database_gate,
}
use k8s_postgresql_operator.Webhook.Checks.{Refusal, Checked, refused, passed, Gate, ◌>>=◌, ◌>>◌}

pub Checked-cases :
    {A : Type 0} (c : Checked A) → ((a : A) × (c ≡ passed a)) ⊎ ((r : Refusal) × (c ≡ refused r))
Checked-cases (passed a) = inl (a, refl)
Checked-cases (refused r) = inr (r, refl)

-- With no Vault client an instance is not tested. With one, the credentials that Vault gives for the
-- instance open a connection to its server, with the validator's retries.
abbrev pub IsTested : (E : Env) → Validator → Postgresql → World E → Type 0
IsTested E v p w =
    (v.vault_client ≡ none)
    ⊎ ((path : String) × (external : ExternalPostgresqlInstance) × (login : String)
        × (password : String) × (v.vault_client ≡ some path)
        × (p.external_instance ≡ some external)
        × ((resolve_vault_credentials E path external.postgresql_id w).0 ≡ ok (login, password))
        × ((test_connection E
              (record {
                host = external.address;
                port = port_of external;
                admin_user = login;
                admin_password = password;
                ssl_mode = ssl_mode_of external;
              })
              default_db v.connection_retries v.connection_timeout
              (resolve_vault_credentials E path external.postgresql_id w).1).0
            ≡ ok tt))

-- The ID stands for an instance of the cluster, and with a Vault client that instance has passed a
-- connection test.
pub record Reaches (E : Env) (v : Validator) (postgresql_id : String) : Type 0 where
  pub instance_found : Postgresql
  pub lookup_world : World E
  pub test_world : World E
  pub found : (find_postgresql_by_id E postgresql_id lookup_world).0 ≡ ok instance_found
  pub tested : IsTested E v instance_found test_world

module _ (E : Env) (v : Validator) where
  -- The checks that most handlers end with.
  abbrev pub tail : String → Action E (Option Duplicate) → Gate E (Unit {0})
  tail postgresql_id check = do
    found ← instance_gate E postgresql_id
    connection_gate E v postgresql_id found
    duplicate_gate E check

  pub instance_gate-passed :
      (postgresql_id : String) (w : World E) {p : Postgresql}
      → (instance_gate E postgresql_id w).0 ≡ passed p
      → (find_postgresql_by_id E postgresql_id w).0 ≡ ok p
  unfolding instance_gate
  instance_gate-passed postgresql_id w h = ground arith

  test_connection_from_postgresql-ok :
      (p : Postgresql) (w : World E)
      → (test_connection_from_postgresql E p v.vault_client v.connection_retries
          v.connection_timeout w).0
        ≡ ok tt
      → IsTested E v p w
  unfolding test_connection_from_postgresql
  test_connection_from_postgresql-ok p w h = elim (Option-cases v.vault_client) [
    | inl no_client ↦ inl no_client
    | inr (path, client) ↦ elim (Option-cases p.external_instance) [
      | inl absent ↦ absurd (ground arith)
      | inr (external, given) ↦
          elim (Result-cases (resolve_vault_credentials E path external.postgresql_id w).0) [
            | inr (e, failed) ↦ absurd (ground arith)
            | inl ((login, password), resolved) ↦
                elim (Bool-cases (login == "" || password == "")) [
                  | inl missing ↦ absurd (ground arith)
                  | inr present ↦
                      inr (path, external, login, password, client, given, resolved, ground arith)
                ]
          ]
    ]
  ]

  pub connection_gate-passed :
      (postgresql_id : String) (p : Postgresql) (w : World E)
      → (connection_gate E v postgresql_id p w).0 ≡ passed tt
      → IsTested E v p w
  unfolding connection_gate
  connection_gate-passed postgresql_id p w h = test_connection_from_postgresql-ok p w (ground arith)

  pub duplicate_gate-passed :
      (check : Action E (Option Duplicate)) (w : World E)
      → (duplicate_gate E check w).0 ≡ passed tt
      → (check w).0 ≡ ok none
  unfolding duplicate_gate
  duplicate_gate-passed check w h = ground arith

  -- An instance that is found and then passes its connection test.
  pub reaches :
      (postgresql_id : String) (p : Postgresql) (w w' : World E)
      → (instance_gate E postgresql_id w).0 ≡ passed p
      → (connection_gate E v postgresql_id p w').0 ≡ passed tt
      → Reaches E v postgresql_id
  reaches postgresql_id p w w' h k = record {
    instance_found = p;
    lookup_world = w;
    test_world = w';
    found = instance_gate-passed postgresql_id w h;
    tested = connection_gate-passed postgresql_id p w' k;
  }

  pub tail-passed :
      (postgresql_id : String) (check : Action E (Option Duplicate)) (w : World E)
      → (tail postgresql_id check w).0 ≡ passed tt
      → Reaches E v postgresql_id × (w' : World E) × ((check w').0 ≡ ok none)
  tail-passed postgresql_id check w h =
      let w₁ : World E = (instance_gate E postgresql_id w).1 in
      elim (Checked-cases (instance_gate E postgresql_id w).0) [
        | inl (p, found) ↦
            let w₂ : World E = (connection_gate E v postgresql_id p w₁).1 in
            (
              reaches postgresql_id p w w₁ found (ground arith),
              w₂,
              duplicate_gate-passed check w₂ (ground arith),
            )
        | inr (r, refused_) ↦ absurd (ground arith)
      ]

  database_gate-passed :
      (postgresql_id database_name : String) (w : World E)
      → (database_gate E postgresql_id database_name w).0 ≡ passed tt
      → (database_exists_by_postgresql_id_and_name E postgresql_id database_name w).0 ≡ ok true
  unfolding database_gate
  database_gate-passed postgresql_id database_name w h = ground arith

  -- The checks of a grant: the database too is declared in the cluster.
  abbrev pub grant_tail : String → String → Action E (Option Duplicate) → Gate E (Unit {0})
  grant_tail postgresql_id database_name check = do
    found ← instance_gate E postgresql_id
    connection_gate E v postgresql_id found
    database_gate E postgresql_id database_name
    duplicate_gate E check

  pub grant_tail-passed :
      (postgresql_id database_name : String) (check : Action E (Option Duplicate)) (w : World E)
      → (grant_tail postgresql_id database_name check w).0 ≡ passed tt
      → Reaches E v postgresql_id
        × (w' : World E) × ((database_exists_by_postgresql_id_and_name E postgresql_id database_name
              w').0
            ≡ ok true)
        × (w'' : World E) × ((check w'').0 ≡ ok none)
  grant_tail-passed postgresql_id database_name check w h =
      let w₁ : World E = (instance_gate E postgresql_id w).1 in
      elim (Checked-cases (instance_gate E postgresql_id w).0) [
        | inl (p, found) ↦
            let w₂ : World E = (connection_gate E v postgresql_id p w₁).1 in
            let w₃ : World E = (database_gate E postgresql_id database_name w₂).1 in
            (
              reaches postgresql_id p w w₁ found (ground arith),
              w₂,
              database_gate-passed postgresql_id database_name w₂ (ground arith),
              w₃,
              duplicate_gate-passed check w₃ (ground arith),
            )
        | inr (r, refused_) ↦ absurd (ground arith)
      ]
