-- ===== src/Startup/Silent.antt =====
-- The parts of the start that call neither controller-runtime nor OpenTelemetry (cmd/main.go,
-- internal/k8s/k8s.go, internal/cert and internal/metrics).
use k8s_postgresql_operator.Prelude.{ℕ, String, refl, inl, inr, List, [], ◌∷◌, arith, map, length}
use k8s_postgresql_operator.Errors.{Error}
use k8s_postgresql_operator.World.{
  Env, World, Action, Result, Result-cases, map_err, call, k8s_list,
}
use k8s_postgresql_operator.World.Fallible.{◌>>=◌}
use k8s_postgresql_operator.Metrics.{
  listed_user, listed_database, listed_grant, listed_rolegroup, listed_schema, Listed, set_infos,
  set_counts, set_object_info, update_object_count, update_postgresql_count, count_ids,
  report_items, collect_metrics, collect_postgresqls, collect_users, collect_databases,
  collect_grants, collect_rolegroups, collect_schemas, listed_postgresqls,
}
use k8s_postgresql_operator.Vault.Pki.{new_client}
use k8s_postgresql_operator.Startup.Config.{Config}
use k8s_postgresql_operator.Startup.Entry.{init_vault_client}
use k8s_postgresql_operator.Startup.Order.{calls, IsSilent}

pub IsSilent-bind :
    {E : Env} {A B : Type 0} (m : Action E A) (f : A → Action E B)
    → IsSilent m
    → ((a : A) → IsSilent (f a))
    → IsSilent (m >>= f)
IsSilent-bind m f hm hf w = elim (Result-cases (m w).0) [
  | inl (a, p) ↦ ground (arith, hm w, hf a (m w).1)
  | inr (e, p) ↦ ground (arith, hm w)
]

pub IsSilent-map_err :
    {E : Env} {A : Type 0} (f : Error → Error) (m : Action E A)
    → IsSilent m
    → IsSilent (map_err f m)
IsSilent-map_err f m hm w = ground (arith, hm w)

pub init_vault_client-IsSilent : {E : Env} → (cfg : Config) → IsSilent (init_vault_client E cfg)
unfolding init_vault_client new_client calls
init_vault_client-IsSilent {E} cfg w = ground (arith)

set_infos-IsSilent :
    {E : Env} (kind : String) (items : List Listed) → IsSilent (set_infos {E = E} kind items)
unfolding set_infos calls
set_infos-IsSilent {E} kind [] w = refl
set_infos-IsSilent {E} kind (x ∷ items) w =
    set_infos-IsSilent kind items (set_object_info kind x w).1

set_counts-IsSilent :
    {E : Env} (kind : String) (counts : List (String × ℕ))
    → IsSilent (set_counts {E = E} kind counts)
unfolding set_counts calls
set_counts-IsSilent {E} kind [] w = refl
set_counts-IsSilent {E} kind (x ∷ counts) w =
    set_counts-IsSilent kind counts (update_object_count kind x.0 x.1 w).1

report_items-IsSilent :
    {E : Env} (kind : String) (items : List Listed) → IsSilent (report_items {E = E} kind items)
unfolding report_items
report_items-IsSilent {E} kind items w =
    let w₁ : World E = (set_infos kind items w).1 in
    ground (
      arith,
      set_infos-IsSilent {E = E} kind items w,
      set_counts-IsSilent {E = E} kind (count_ids items []) w₁,
    )

listing-IsSilent :
    {E : Env} {A : Type 0} (kind label : String) (list : E.State → Result (List A) × E.State)
    (listed : List A → List Listed)
    → IsSilent {E = E} (call (k8s_list kind) list >>= λ items. report_items label (listed items))
unfolding calls
listing-IsSilent kind label list listed =
    IsSilent-bind (call (k8s_list kind) list) (λ items. report_items label (listed items))
      (λ w. refl) (λ items. report_items-IsSilent label (listed items))

module _ {E : Env} where
  collect_users-IsSilent : IsSilent (collect_users E)
  unfolding collect_users
  collect_users-IsSilent = listing-IsSilent "User" "user" E.list_users (map listed_user)

  collect_databases-IsSilent : IsSilent (collect_databases E)
  unfolding collect_databases
  collect_databases-IsSilent =
      listing-IsSilent "Database" "database" E.list_databases (map listed_database)

  collect_grants-IsSilent : IsSilent (collect_grants E)
  unfolding collect_grants
  collect_grants-IsSilent = listing-IsSilent "Grant" "grant" E.list_grants (map listed_grant)

  collect_rolegroups-IsSilent : IsSilent (collect_rolegroups E)
  unfolding collect_rolegroups
  collect_rolegroups-IsSilent =
      listing-IsSilent "RoleGroup" "rolegroup" E.list_rolegroups (map listed_rolegroup)

  collect_schemas-IsSilent : IsSilent (collect_schemas E)
  unfolding collect_schemas
  collect_schemas-IsSilent = listing-IsSilent "Schema" "schema" E.list_schemas (map listed_schema)

  collect_postgresqls-IsSilent : IsSilent (collect_postgresqls E)
  unfolding collect_postgresqls calls
  collect_postgresqls-IsSilent w = elim (Result-cases (E.list_postgresqls w.state).0) [
    | inl (items, p) ↦
        let w₁ : World E =
          (update_postgresql_count (length items)
            (call (k8s_list "PostgreSQL") E.list_postgresqls w).1).1 in
        ground (arith, report_items-IsSilent "postgresql" (listed_postgresqls items) w₁)
    | inr (e, p) ↦ ground (arith)
  ]

  pub collect_metrics-IsSilent : IsSilent (collect_metrics E)
  unfolding collect_metrics
  collect_metrics-IsSilent w =
      let w₁ : World E = (collect_postgresqls E w).1 in
      let w₂ : World E = (collect_users E w₁).1 in
      let w₃ : World E = (collect_databases E w₂).1 in
      let w₄ : World E = (collect_grants E w₃).1 in
      let w₅ : World E = (collect_rolegroups E w₄).1 in
      ground (
        arith,
        collect_postgresqls-IsSilent w,
        collect_users-IsSilent w₁,
        collect_databases-IsSilent w₂,
        collect_grants-IsSilent w₃,
        collect_rolegroups-IsSilent w₄,
        collect_schemas-IsSilent w₅,
      )
