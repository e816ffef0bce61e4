-- ===== src/Startup/Bundles.antt =====
-- What an update of a webhook configuration writes (internal/k8s/k8s.go).
use k8s_postgresql_operator.Prelude.{
  String, ◌<>◌, ◌≡◌, refl, false, none, some, List, [], ◌∷◌, ◌++◌, ◌==◌, arith, eq_iff, Bool-cases,
  Option-cases, inl, inr, All,
}
use k8s_postgresql_operator.World.{
  Env, World, ok, WebhookEntry, WebhookConfiguration, Effect, webhook_get, webhook_update,
  Result-cases, call, crypto, secret_get,
}
use k8s_postgresql_operator.Certificates.SelfSigned.{entry}
use k8s_postgresql_operator.Startup.Webhooks.{
  operator_webhook, set_ca_bundle, put_ca_bundle, update_webhook_configuration_with_ca_bundle,
}

-- A change of a configuration in the first webhook of the operator's name, which gets the bundle.
unfoldable pub IsBundled : String → WebhookConfiguration → WebhookConfiguration → Type 0
IsBundled bundle old new =
    (before : WebhookConfiguration) × (h : WebhookEntry) × (after : WebhookConfiguration) × (old
      ≡ before ++ (h ∷ after))
    × (new ≡ before ++ (record h { ca_bundle = bundle } ∷ after))
    × (h.name ≡ operator_webhook)
    × All (λ (g : WebhookEntry). (g.name == operator_webhook) ≡ false) before

set_ca_bundle-IsBundled :
    (bundle : String) (old : WebhookConfiguration) {new : WebhookConfiguration}
    → set_ca_bundle bundle old ≡ some new
    → IsBundled bundle old new
unfolding set_ca_bundle IsBundled
set_ca_bundle-IsBundled bundle [] h = absurd (ground (arith))
set_ca_bundle-IsBundled bundle (g ∷ rest) {new} h = elim (Bool-cases (g.name == operator_webhook)) [
  | inl e ↦ ([], g, rest, refl, ground (arith), ground (arith, eq_iff g.name operator_webhook), tt)
  | inr e ↦ elim (Option-cases (set_ca_bundle bundle rest)) [
    | inl o ↦ absurd (ground (arith))
    | inr (hs, o) ↦
        let (before, k, after, p, q, named, others) = set_ca_bundle-IsBundled bundle rest o in
        (g ∷ before, k, after, ground (arith), ground (arith), named, (e, others))
  ]
]

module _ (E : Env) where
  -- The last call has written the configuration `name` with the change.
  abbrev pub HasWritten : String → String → E.State → World E → Type 0
  HasWritten bundle name s w' =
      (old : WebhookConfiguration) × (new : WebhookConfiguration) × (rest : List Effect)
      × ((E.platform.get_webhook name s).0 ≡ ok old)
      × IsBundled bundle old new
      × (w'.trace ≡ webhook_update name new ∷ rest)

  put_ca_bundle-HasWritten :
      (missing bundle name : String) (w : World E)
      → (put_ca_bundle E missing bundle name w).0 ≡ ok tt
      → HasWritten bundle name w.state (put_ca_bundle E missing bundle name w).1
  unfolding put_ca_bundle
  put_ca_bundle-HasWritten missing bundle name w h =
      elim (Result-cases (E.platform.get_webhook name w.state).0) [
        | inr (e, p) ↦ absurd (ground (arith))
        | inl (old, p) ↦ elim (Option-cases (set_ca_bundle bundle old)) [
          | inl o ↦ absurd (ground (arith))
          | inr (new, o) ↦
              let w₁ : World E = (call (webhook_get name) (E.platform.get_webhook name) w).1 in
              elim (Result-cases (E.platform.update_webhook name new w₁.state).0) [
                | inr (e, q) ↦ absurd (ground (arith))
                | inl (u, q) ↦
                    (old, new, w₁.trace, p, set_ca_bundle-IsBundled bundle old o, ground (arith))
              ]
        ]
      ]

  -- If the update of a webhook configuration from a secret succeeds, the secret was read and has
  -- a certificate, and the last call wrote the configuration that was read with this certificate
  -- as the bundle of the first webhook of the operator's name and nothing else in it changed.
  pub update_webhook_configuration_with_ca_bundle-written :
      (secret_name namespace name : String) (w : World E)
      → (update_webhook_configuration_with_ca_bundle E secret_name namespace name w).0 ≡ ok tt
      → let s₁ : E.State = (E.platform.clientset w.state).1 in
        let (secret, s₂) = E.platform.get_k8s_secret namespace secret_name s₁ in
        (d : List (String × String)) × (bundle : String) × (secret ≡ ok (some d))
        × (entry "tls.crt" d ≡ some bundle)
        × HasWritten bundle name s₂
            (update_webhook_configuration_with_ca_bundle E secret_name namespace name w).1
  unfolding update_webhook_configuration_with_ca_bundle
  update_webhook_configuration_with_ca_bundle-written secret_name namespace name w h =
      let w₁ : World E = (call (crypto "kubernetes.NewForConfig") E.platform.clientset w).1 in
      let w₂ : World E =
        (call (secret_get namespace secret_name) (E.platform.get_k8s_secret namespace secret_name)
          w₁).1 in
      let missing =
        "webhook '" <> operator_webhook <> "' not found in ValidatingWebhookConfiguration" in
      elim (Result-cases (E.platform.clientset w.state).0) [
        | inr (e, p) ↦ absurd (ground (arith))
        | inl (u, p) ↦
            elim (Result-cases (E.platform.get_k8s_secret namespace secret_name w₁.state).0) [
              | inr (e, q) ↦ absurd (ground (arith))
              | inl (none, q) ↦ absurd (ground (arith))
              | inl (some d, q) ↦ elim (Option-cases (entry "tls.crt" d)) [
                | inl o ↦ absurd (ground (arith))
                | inr (bundle, o) ↦
                    let (old, new, rest, found, bundled, last) =
                      put_ca_bundle-HasWritten missing bundle name w₂ (ground (arith)) in
                    (d, bundle, q, o, (old, new, rest, found, bundled, ground (arith)))
              ]
            ]
      ]
