-- ===== src/Tests/Accounts.antt =====
-- A server with one account, whose password is changed once, and its secret in Vault.
use package.text.Mathlib.TextLemmas.{
  append_cancel_left, append_cancel_right, append_assoc, append_inj, length-append,
}
use Prim.Native.String.{count}
use k8s_postgresql_operator.Prelude.{
  ◌+◌, ◌⊎◌, String, ◌<>◌, ◌≡◌, ◌≢◌, refl, ap, ◌∙◌, true, false, Bool, List, [], ◌∷◌, ◌==◌, inl, inr,
  arith, ne_of_eq, if◌then◌else◌, decimal,
}
use k8s_postgresql_operator.Errors.{plain}
use k8s_postgresql_operator.World.{Env, World, ok, err, text}
use k8s_postgresql_operator.Postgres.{connection_string, default_db}
use k8s_postgresql_operator.Postgres.Connection.{port_of, ssl_mode_of}
use k8s_postgresql_operator.Controller.Instances.{server_at}
use k8s_postgresql_operator.Tests.Machine.{lookup}
use k8s_postgresql_operator.Tests.Simulation.{sim, external}

abbrev pub changed_statement : String
changed_statement = "ALTER USER a WITH PASSWORD c"

abbrev pub right_connection : String
right_connection = connection_string (server_at external "a" "b") default_db

abbrev pub is_changed : List String → Bool
is_changed [] = false
is_changed (_ ∷ _) = true

abbrev pub account_sim : Env
account_sim = record sim {
  get_secret = λ p s.
      if p == "kv/id1/instance_admin"
      then (ok (lookup p s.secrets), s)
      else (err (plain "secret not found"), s);
  query_number = λ conn query s.
      if conn == right_connection
      then (if is_changed s.statements
          then (err (plain "password authentication failed"), s)
          else (ok 1, s))
      else (err (plain "password authentication failed"), s);
  exec = λ conn query args s.
      if query == changed_statement
      then (ok tt, record s { statements = query ∷ s.statements })
      else (err (plain "syntax error"), s);
}

abbrev pub registered : World account_sim
registered = record {
  state = record {
    secrets =
        (
          "kv/id1/instance_admin",
          ("login", text "a") ∷ ("password", text "b") ∷ ("new_password", text "c") ∷ [],
        )
        ∷ [];
    statements = [];
    files = [];
  };
  trace = [];
}

-- The same, after a rotation that has reached the server only.
abbrev pub rotated : World account_sim
rotated = record registered {
  state = record registered.state { statements = changed_statement ∷ [] };
}

abbrev pub is_b : List String → String
is_b l = if is_changed l then "c" else "b"

-- The only login and password that are written as those of the account are its own.
split_once :
    (login given : String) → login <> (" password=" <> given) ≡ "a password=b" → given ≡ "b"
split_once login given h =
    let size : count login + (10 + count given) ≡ 12 = ground (
      arith,
      ap count h,
      length-append login (" password=" <> given),
      length-append " password=" given,
    ) in
    let sizes : (count login ≡ 0) ⊎ ((count login ≡ 1) ⊎ (count login ≡ 2)) = ground (arith) in
    elim sizes [
      | inl z ↦
          let (p, q) =
            append_inj {s₁ = login} {s₂ = ""} {t₁ = " password=" <> given} {t₂ = "a password=b"} h
              z in
          let (u, v) =
            append_inj {s₁ = " password="} {s₂ = "a password"} {t₁ = given} {t₂ = "=b"} q refl in
          absurd (ne_of_eq " password=" "a password" refl u)
      | inr (inl o) ↦
          let (p, q) =
            append_inj {s₁ = login} {s₂ = "a"} {t₁ = " password=" <> given} {t₂ = " password=b"} h
              o in
          append_cancel_left " password=" given "b" q
      | inr (inr t) ↦
          let (p, q) =
            append_inj {s₁ = login} {s₂ = "a "} {t₁ = " password=" <> given} {t₂ = "password=b"} h
              t in
          let (u, v) =
            append_inj {s₁ = " password="} {s₂ = "password=b"} {t₁ = given} {t₂ = ""} q refl in
          absurd (ne_of_eq " password=" "password=b" refl u)
    ]

pub right_password :
    (login given : String)
    → connection_string (server_at external login given) default_db ≡ right_connection
    → given ≡ "b"
unfolding connection_string ssl_mode_of
right_password login given h =
    let tail : String = " dbname=postgres sslmode=require connect_timeout=5" in
    let port : String = decimal (port_of external) in
    let r₅ : String = login <> (" password=" <> (given <> tail)) in
    let r₄ : String = " user=" <> r₅ in
    let r₃ : String = port <> r₄ in
    let r₂ : String = " port=" <> r₃ in
    let r₁ : String = "db.example" <> r₂ in
    let t₅ : String = "a password=b" <> tail in
    let t₄ : String = " user=" <> t₅ in
    let t₃ : String = port <> t₄ in
    let t₂ : String = " port=" <> t₃ in
    let t₁ : String = "db.example" <> t₂ in
    let e₁ = append_cancel_left "host=" r₁ t₁ h in
    let e₂ = append_cancel_left "db.example" r₂ t₂ e₁ in
    let e₃ = append_cancel_left " port=" r₃ t₃ e₂ in
    let e₄ = append_cancel_left port r₄ t₄ e₃ in
    let e₅ = append_cancel_left " user=" r₅ t₅ e₄ in
    let whole : (login <> (" password=" <> given)) <> tail ≡ "a password=b" <> tail =
      append_assoc login (" password=" <> given) tail
      ∙ ap (λ x. login <> x) (append_assoc " password=" given tail)
      ∙ e₅ in
    split_once login given
      (append_cancel_right (login <> (" password=" <> given)) "a password=b" tail whole)

-- The only login and password that the statement is made of are its own.
split_statement :
    (login new : String) → login <> (" WITH PASSWORD " <> new) ≡ "a WITH PASSWORD c" → new ≡ "c"
split_statement login new h =
    let size : count login + (15 + count new) ≡ 17 = ground (
      arith,
      ap count h,
      length-append login (" WITH PASSWORD " <> new),
      length-append " WITH PASSWORD " new,
    ) in
    let sizes : (count login ≡ 0) ⊎ ((count login ≡ 1) ⊎ (count login ≡ 2)) = ground (arith) in
    elim sizes [
      | inl z ↦
          let (p, q) =
            append_inj {s₁ = login} {s₂ = ""} {t₁ = " WITH PASSWORD " <> new}
              {t₂ = "a WITH PASSWORD c"} h z in
          let (u, v) =
            append_inj {s₁ = " WITH PASSWORD "} {s₂ = "a WITH PASSWORD"} {t₁ = new} {t₂ = " c"} q
              refl in
          absurd (ne_of_eq " WITH PASSWORD " "a WITH PASSWORD" refl u)
      | inr (inl o) ↦
          let (p, q) =
            append_inj {s₁ = login} {s₂ = "a"} {t₁ = " WITH PASSWORD " <> new}
              {t₂ = " WITH PASSWORD c"} h o in
          append_cancel_left " WITH PASSWORD " new "c" q
      | inr (inr t) ↦
          let (p, q) =
            append_inj {s₁ = login} {s₂ = "a "} {t₁ = " WITH PASSWORD " <> new}
              {t₂ = "WITH PASSWORD c"} h t in
          let (u, v) =
            append_inj {s₁ = " WITH PASSWORD "} {s₂ = "WITH PASSWORD c"} {t₁ = new} {t₂ = ""} q
              refl in
          absurd (ne_of_eq " WITH PASSWORD " "WITH PASSWORD c" refl u)
    ]

pub changed_password :
    (login new : String)
    → "ALTER USER " <> (login <> (" WITH PASSWORD " <> new)) ≡ changed_statement
    → new ≡ "c"
changed_password login new h =
    split_statement login new
      (append_cancel_left "ALTER USER " (login <> (" WITH PASSWORD " <> new)) "a WITH PASSWORD c" h)

pub not_created : (rest : String) → "CREATE USER " <> rest ≢ changed_statement
not_created rest h =
    let (u, v) =
      append_inj {s₁ = "CREATE USER "} {s₂ = "ALTER USER a"} {t₁ = rest} {t₂ = " WITH PASSWORD c"} h
        refl in
    ne_of_eq "CREATE USER " "ALTER USER a" refl u
