-- ===== src/Certificates/Written.antt =====
-- The files of a certificate from Vault PKI (internal/cert/vault_pki.go), over a file system on
-- which a write changes its own path only.
use k8s_postgresql_operator.Prelude.{
  String, ◌<>◌, ◌≡◌, sym, ◌≢◌, ◌⊎◌, inl, inr, Option, some, List, [], ◌∷◌, arith, join,
  Option-cases,
}
use k8s_postgresql_operator.Errors.{Error, wrapped}
use k8s_postgresql_operator.World.{Env, World, Result, ok, err, Result-cases}
use k8s_postgresql_operator.Vault.Pki.{PkiCertificate, issue_request, issue_certificate}
use k8s_postgresql_operator.Certificates.{build_alt_names, write_file, make_directory}
use k8s_postgresql_operator.Certificates.Pki.{
  Manager, write_pki_cert_files, report_expiry, issue_certificate_and_write_to_disk,
}

-- What the operator relies on in the file system: a write that succeeds leaves its content, a write
-- of one path changes no other, and the other calls of an issue change no file.
pub record IsFileSystem (E : Env) : Type 0 where
  pub content : String → E.State → Option String
  pub written :
      (p c : String) (s : E.State)
      → (E.platform.write_file p c s).0 ≡ ok tt
      → content p (E.platform.write_file p c s).1 ≡ some c
  pub unwritten :
      (q p c : String) (s : E.State)
      → q ≢ p
      → content q (E.platform.write_file p c s).1 ≡ content q s
  pub made : (q p : String) (s : E.State) → content q (E.platform.make_dir p s).1 ≡ content q s
  pub asked :
      (q p : String) (d : List (String × String)) (s : E.State)
      → content q (E.platform.logical_write p d s).1 ≡ content q s
  pub timed : (q : String) (s : E.State) → content q (E.now_time s).1 ≡ content q s

-- The certificate of a manager stands in its three files.
unfoldable pub HasKeyAndChain :
    {E : Env} → IsFileSystem E → Manager → PkiCertificate → World E → Type 0
HasKeyAndChain fs m c w =
    (fs.content m.key_path w.state ≡ some c.private_key)
    × (fs.content m.ca_path w.state ≡ some (join "\n" c.ca_chain))

unfoldable pub HasDistinctPaths : Manager → Type 0
HasDistinctPaths m =
    (m.cert_path ≢ m.key_path) × (m.cert_path ≢ m.ca_path) × (m.key_path ≢ m.ca_path)

module _ (E : Env) (fs : IsFileSystem E) (m : Manager) (paths : HasDistinctPaths m) where
  abbrev pub cert_of : World E → Option String
  cert_of w = fs.content m.cert_path w.state

  -- The three writes: an error leaves the old certificate, or the new key and chain stand.
  write_pki_cert_files-files :
      (c : PkiCertificate) (w : World E)
      → let (r, w') = write_pki_cert_files E c m.cert_path m.key_path m.ca_path w in
        ((cert_of w' ≡ cert_of w) ⊎ HasKeyAndChain fs m c w')
        × (r ≡ ok tt → HasKeyAndChain fs m c w' × (cert_of w' ≡ some c.certificate))
  unfolding write_pki_cert_files HasKeyAndChain HasDistinctPaths
  write_pki_cert_files-files c w =
      let chain = join "\n" c.ca_chain in
      let (cert_key, cert_ca, key_ca) = paths in
      let w₁ : World E = (write_file E m.key_path c.private_key w).1 in
      let w₂ : World E = (write_file E m.ca_path chain w₁).1 in
      let w₃ : World E = (write_file E m.cert_path c.certificate w₂).1 in
      let c₁ = fs.unwritten m.cert_path m.key_path c.private_key w.state cert_key in
      let c₂ = fs.unwritten m.cert_path m.ca_path chain w₁.state cert_ca in
      let k₂ = fs.unwritten m.key_path m.ca_path chain w₁.state key_ca in
      let k₃ = fs.unwritten m.key_path m.cert_path c.certificate w₂.state (λ e. cert_key (sym e)) in
      let a₃ = fs.unwritten m.ca_path m.cert_path c.certificate w₂.state (λ e. cert_ca (sym e)) in
      elim (Result-cases (E.platform.write_file m.key_path c.private_key w.state).0) [
        | inr (e, p) ↦ (inl (ground (arith, c₁)), λ h. absurd (ground (arith)))
        | inl (u, p) ↦ elim (Result-cases (E.platform.write_file m.ca_path chain w₁.state).0) [
          | inr (e, q) ↦ (inl (ground (arith, c₁, c₂)), λ h. absurd (ground (arith)))
          | inl (v, q) ↦
              let s₁ = fs.written m.key_path c.private_key w.state p in
              let s₂ = fs.written m.ca_path chain w₁.state q in
              elim (Result-cases (E.platform.write_file m.cert_path c.certificate w₂.state).0) [
                | inl (x, r) ↦ (
                  inr (ground (arith, k₃, k₂, s₁), ground (arith, a₃, s₂)),
                  λ h. (
                    (ground (arith, k₃, k₂, s₁), ground (arith, a₃, s₂)),
                    ground (arith, fs.written m.cert_path c.certificate w₂.state),
                  ),
                )
                | inr (e, r) ↦ (
                  inr (ground (arith, k₃, k₂, s₁), ground (arith, a₃, s₂)),
                  λ h. absurd (ground (arith)),
                )
              ]
        ]
      ]

  content-issue_certificate :
      (q mount_path role_name common_name : String) (alt_names ip_sans : List String) (ttl : String)
      (w : World E)
      → let w' : World E =
          (issue_certificate E mount_path role_name common_name alt_names ip_sans ttl w).1 in
        fs.content q w'.state ≡ fs.content q w.state
  unfolding issue_certificate
  content-issue_certificate q mount_path role_name common_name alt_names ip_sans ttl w =
      let path = mount_path <> "/issue/" <> role_name in
      let request = issue_request common_name alt_names ip_sans ttl in
      let a = fs.asked q path request w.state in
      elim (Result-cases (E.platform.logical_write path request w.state).0) [
        | inr (e, p) ↦ ground (arith, a)
        | inl (found, p) ↦ elim (Option-cases found) [
          | inl o ↦ ground (arith, a)
          | inr (d, o) ↦ ground (arith, a)
        ]
      ]

  content-report_expiry :
      (q certificate : String) (w : World E)
      → fs.content q (report_expiry E certificate w).1.state ≡ fs.content q w.state
  unfolding report_expiry
  content-report_expiry q certificate w = ground (arith, fs.timed q w.state)

  -- What Vault answers to the request of the issue.
  abbrev pub answered : World E → Result PkiCertificate
  answered w =
      let issue =
        issue_certificate E m.mount_path m.role_name
          (m.service_name <> "." <> m.namespace <> ".svc")
          (build_alt_names m.service_name m.namespace) ("127.0.0.1" ∷ []) m.ttl w in
      issue.0

  -- On a file system on which a write changes its own path only, with three different paths, an
  -- issue that succeeds leaves the three files of the certificate that Vault has answered with;
  -- after one that fails the certificate file is as before, or the key and the chain are already
  -- those of that certificate.
  pub issue_certificate_and_write_to_disk-files :
      (w : World E)
      → let (r, w') = issue_certificate_and_write_to_disk E m w in
        ((r ≡ ok tt)
          × ((c : PkiCertificate) × (answered w ≡ ok c)
              × HasKeyAndChain fs m c w'
              × (cert_of w' ≡ some c.certificate)))
        ⊎ ((e : Error) × (r ≡ err e)
            × ((cert_of w' ≡ cert_of w)
                ⊎ ((c : PkiCertificate) × (answered w ≡ ok c) × HasKeyAndChain fs m c w')))
  unfolding issue_certificate_and_write_to_disk HasKeyAndChain
  issue_certificate_and_write_to_disk-files w =
      let common_name = m.service_name <> "." <> m.namespace <> ".svc" in
      let alt_names = build_alt_names m.service_name m.namespace in
      let ip_sans : List String = "127.0.0.1" ∷ [] in
      let w₁ : World E =
        (issue_certificate E m.mount_path m.role_name common_name alt_names ip_sans m.ttl w).1 in
      let w₂ : World E = (make_directory E m.cert_dir w₁).1 in
      let kept =
        content-issue_certificate m.cert_path m.mount_path m.role_name common_name alt_names ip_sans
          m.ttl w in
      let made = fs.made m.cert_path m.cert_dir w₁.state in
      elim (Result-cases (answered w)) [
        | inr (e, p) ↦ inr (
          wrapped "failed to issue certificate from Vault PKI" e,
          ground (arith),
          inl (ground (arith, kept)),
        )
        | inl (c, p) ↦ elim (Result-cases (E.platform.make_dir m.cert_dir w₁.state).0) [
          | inr (e, q) ↦ inr (
            wrapped ("failed to create cert directory " <> m.cert_dir) e,
            ground (arith),
            inl (ground (arith, kept, made)),
          )
          | inl (u, q) ↦
              let w₃ : World E = (write_pki_cert_files E c m.cert_path m.key_path m.ca_path w₂).1 in
              let files = write_pki_cert_files-files c w₂ in
              let k = content-report_expiry m.key_path c.certificate w₃ in
              let a = content-report_expiry m.ca_path c.certificate w₃ in
              let t = content-report_expiry m.cert_path c.certificate w₃ in
              elim (Result-cases (write_pki_cert_files E c m.cert_path m.key_path m.ca_path w₂).0) [
                | inr (e, r) ↦ inr (
                  e,
                  ground (arith),
                  elim (files.0) [
                    | inl same ↦ inl (ground (arith, kept, made, same))
                    | inr new ↦ inr (c, p, (ground (arith, new), ground (arith, new)))
                  ],
                )
                | inl (v, r) ↦
                    let (new, cert) = files.1 (ground (arith)) in
                    inl (
                      ground (arith),
                      (
                        c,
                        p,
                        (ground (arith, new, k), ground (arith, new, a)),
                        ground (arith, cert, t),
                      ),
                    )
              ]
        ]
      ]
