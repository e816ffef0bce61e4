-- ===== src/Certificates/Served.antt =====
-- The self-signed certificate in its secret and in the files that the webhook server reads
-- (internal/cert/cert.go).
use k8s_postgresql_operator.Prelude.{
  String, ◌≡◌, ap, ◌∙◌, inl, inr, true, Option, some, List, arith, Option-cases,
}
use k8s_postgresql_operator.World.{Env, World, ok, Result-cases}
use k8s_postgresql_operator.World.Fallible.{◌>>◌}
use k8s_postgresql_operator.Certificates.{create_file}
use k8s_postgresql_operator.Certificates.SelfSigned.{
  entry, create_and_write, write_cert_from_secret,
}

-- A secret, and the files of the certificate and of the key: a secret that is read is the one that
-- is stored, and a read or a new client changes none; a write that succeeds stores its data and changes no file; a file is empty once it has been created, has
-- what is then written to it, and no change of one file changes the other or the secret.
pub record IsCertificateStore (E : Env) (namespace secret_name cert_path key_path : String)
    : Type 0 where
  pub secret : E.State → Option (List (String × String))
  pub cert_file : E.State → Option String
  pub key_file : E.State → Option String
  pub read :
      (s : E.State) (d : List (String × String))
      → (E.platform.get_k8s_secret namespace secret_name s).0 ≡ ok (some d)
      → secret (E.platform.get_k8s_secret namespace secret_name s).1 ≡ some d
  pub got : (s : E.State) → secret (E.platform.get_k8s_secret namespace secret_name s).1 ≡ secret s
  pub connected : (s : E.State) → secret (E.platform.clientset s).1 ≡ secret s
  pub created :
      (d : List (String × String)) (s : E.State)
      → (E.platform.create_k8s_secret namespace secret_name d s).0 ≡ ok tt
      → secret (E.platform.create_k8s_secret namespace secret_name d s).1 ≡ some d
  pub updated :
      (d : List (String × String)) (s : E.State)
      → (E.platform.update_k8s_secret namespace secret_name d s).0 ≡ ok tt
      → secret (E.platform.update_k8s_secret namespace secret_name d s).1 ≡ some d
  pub cert_created :
      (s : E.State)
      → (E.platform.create_file cert_path s).0 ≡ ok tt
      → let s' = (E.platform.create_file cert_path s).1 in
        (cert_file s' ≡ some "") × (key_file s' ≡ key_file s) × (secret s' ≡ secret s)
  pub key_created :
      (s : E.State)
      → (E.platform.create_file key_path s).0 ≡ ok tt
      → let s' = (E.platform.create_file key_path s).1 in
        (key_file s' ≡ some "") × (cert_file s' ≡ cert_file s) × (secret s' ≡ secret s)
  pub cert_appended :
      (c : String) (s : E.State)
      → (E.platform.append_file cert_path c s).0 ≡ ok tt
      → cert_file s ≡ some ""
      → let s' = (E.platform.append_file cert_path c s).1 in
        (cert_file s' ≡ some c) × (key_file s' ≡ key_file s) × (secret s' ≡ secret s)
  pub key_appended :
      (c : String) (s : E.State)
      → (E.platform.append_file key_path c s).0 ≡ ok tt
      → key_file s ≡ some ""
      → let s' = (E.platform.append_file key_path c s).1 in
        (key_file s' ≡ some c) × (cert_file s' ≡ cert_file s) × (secret s' ≡ secret s)

module _ {E : Env} {namespace secret_name cert_path key_path : String}
    (k : IsCertificateStore E namespace secret_name cert_path key_path) where
  -- The server reads the certificate and the key that the secret has.
  abbrev pub HasServed : String → World E → Type 0
  HasServed cert w =
      (d : List (String × String)) × (key : String) × (k.secret w.state ≡ some d)
      × (entry "tls.crt" d ≡ some cert)
      × (entry "tls.key" d ≡ some key)
      × (k.cert_file w.state ≡ some cert)
      × (k.key_file w.state ≡ some key)

  pub same-HasServed :
      {A : Type 0} {cert : String} (m n : A × World E)
      → m ≡ n
      → HasServed cert n.1
      → HasServed cert m.1
  same-HasServed m n same (d, key, s, a, b, f, g) = (
    d,
    key,
    ap (λ z. k.secret z.1.state) same ∙ s,
    a,
    b,
    ap (λ z. k.cert_file z.1.state) same ∙ f,
    ap (λ z. k.key_file z.1.state) same ∙ g,
  )

  create_and_write_cert :
      (uncreated unwritten cert : String) (w : World E)
      → (create_and_write E uncreated unwritten cert_path cert w).0 ≡ ok tt
      → let w' = (create_and_write E uncreated unwritten cert_path cert w).1 in
        (k.cert_file w'.state ≡ some cert)
        × (k.key_file w'.state ≡ k.key_file w.state)
        × (k.secret w'.state ≡ k.secret w.state)
  unfolding create_and_write
  create_and_write_cert uncreated unwritten cert w h =
      let w₁ : World E = (create_file E cert_path w).1 in
      elim (Result-cases (E.platform.create_file cert_path w.state).0) [
        | inr (e, p) ↦ absurd (ground (arith))
        | inl (u, p) ↦ elim (Result-cases (E.platform.append_file cert_path cert w₁.state).0) [
          | inr (e, q) ↦ absurd (ground (arith))
          | inl (v, q) ↦
              let (a, b, c) = k.cert_created w.state p in
              let (a', b', c') = k.cert_appended cert w₁.state q a in
              (ground (arith, a'), ground (arith, b, b'), ground (arith, c, c'))
        ]
      ]

  create_and_write_key :
      (uncreated unwritten key : String) (w : World E)
      → (create_and_write E uncreated unwritten key_path key w).0 ≡ ok tt
      → let w' = (create_and_write E uncreated unwritten key_path key w).1 in
        (k.key_file w'.state ≡ some key)
        × (k.cert_file w'.state ≡ k.cert_file w.state)
        × (k.secret w'.state ≡ k.secret w.state)
  unfolding create_and_write
  create_and_write_key uncreated unwritten key w h =
      let w₁ : World E = (create_file E key_path w).1 in
      elim (Result-cases (E.platform.create_file key_path w.state).0) [
        | inr (e, p) ↦ absurd (ground (arith))
        | inl (u, p) ↦ elim (Result-cases (E.platform.append_file key_path key w₁.state).0) [
          | inr (e, q) ↦ absurd (ground (arith))
          | inl (v, q) ↦
              let (a, b, c) = k.key_created w.state p in
              let (a', b', c') = k.key_appended key w₁.state q a in
              (ground (arith, a'), ground (arith, b, b'), ground (arith, c, c'))
        ]
      ]

  -- Both files, from the data of the secret.
  pub write_both-HasServed :
      (x y x' y' cert key : String) (d : List (String × String)) (w : World E)
      → k.secret w.state ≡ some d
      → entry "tls.crt" d ≡ some cert
      → entry "tls.key" d ≡ some key
      → ((create_and_write E x y cert_path cert >> create_and_write E x' y' key_path key) w).0
        ≡ ok tt
      → HasServed cert
          ((create_and_write E x y cert_path cert >> create_and_write E x' y' key_path key) w).1
  write_both-HasServed x y x' y' cert key d w stored a b h =
      let w₁ : World E = (create_and_write E x y cert_path cert w).1 in
      elim (Result-cases (create_and_write E x y cert_path cert w).0) [
        | inr (e, p) ↦ absurd (ground (arith))
        | inl (u, p) ↦ elim (Result-cases (create_and_write E x' y' key_path key w₁).0) [
          | inr (e, q) ↦ absurd (ground (arith))
          | inl (v, q) ↦
              let (f, g, s) = create_and_write_cert x y cert w p in
              let (f', g', s') = create_and_write_key x' y' key w₁ q in
              (
                d,
                key,
                ground (arith, s, s', stored),
                a,
                b,
                ground (arith, g', f),
                ground (arith, f'),
              )
        ]
      ]

  pub write_cert_from_secret-HasServed :
      (d : List (String × String)) (w : World E)
      → k.secret w.state ≡ some d
      → (write_cert_from_secret E d cert_path key_path w).0 ≡ true
      → (cert : String) × HasServed cert (write_cert_from_secret E d cert_path key_path w).1
  unfolding write_cert_from_secret
  write_cert_from_secret-HasServed d w stored h = elim (Option-cases (entry "tls.crt" d)) [
    | inl a ↦ absurd (ground (arith))
    | inr (cert, a) ↦ elim (Option-cases (entry "tls.key" d)) [
      | inl b ↦ absurd (ground (arith))
      | inr (key, b) ↦
          let both =
            create_and_write E "" "" cert_path cert >> create_and_write E "" "" key_path key in
          elim (Result-cases (both w).0) [
            | inr (e, q) ↦ absurd (ground (arith))
            | inl (u, q) ↦
                let (d', key', x, y, z, f, g) =
                  write_both-HasServed "" "" "" "" cert key d w stored a b q in
                (cert, (d', key', ground (arith, x), y, z, ground (arith, f), ground (arith, g)))
          ]
    ]
  ]
