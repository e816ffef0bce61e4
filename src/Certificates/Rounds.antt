-- ===== src/Certificates/Rounds.antt =====
-- What the renewal loop goes on doing (internal/cert/vault_pki.go, renewalLoop).
use k8s_postgresql_operator.Prelude.{
  ℕ, zero, suc, ◌+◌, ◌<◌, ltb, ◌≡◌, refl, Bool, true, false, ◌&&◌, List, [], ◌∷◌, ◌==◌, arith, inl,
  inr, if◌then◌else◌,
}
use k8s_postgresql_operator.World.{
  Env, World, ok, err, Effect, metric, wait, now, call, Result-cases,
}
use k8s_postgresql_operator.Vault.Pki.{parse_pki_certificate_response, issue_certificate}
use k8s_postgresql_operator.Certificates.Pki.{
  Manager, write_pki_cert_files, report_expiry, issue_certificate_and_write_to_disk,
}
use k8s_postgresql_operator.Certificates.Renewal.{
  minute, sleep_duration, calculate_renewal_time, wait_or_stop, renew, renewal_round, renewal_loop,
}

-- The number of renewals that were tried: each leaves an entry in their counter.
unfoldable pub renewals : List Effect → ℕ
renewals [] = 0
renewals (metric name label ∷ trace) =
    let n = renewals trace in if name == "certificate_renewal" then suc n else n
renewals (_ ∷ trace) = renewals trace

-- No wait of the loop is empty.
unfoldable pub has_pauses : List Effect → Bool
has_pauses [] = true
has_pauses (wait d ∷ trace) = ltb 0 d && has_pauses trace
has_pauses (_ ∷ trace) = has_pauses trace

sleep_duration-positive : (renew_at t : ℕ) → 0 < sleep_duration renew_at t
unfolding sleep_duration
sleep_duration-positive renew_at t = ground (arith)

module _ (E : Env) (m : Manager) where
  -- What a part of a round keeps: the number of renewals and the pauses.
  abbrev Keeps : World E → World E → Type 0
  Keeps w w' = (renewals w'.trace ≡ renewals w.trace) × (has_pauses w'.trace ≡ has_pauses w.trace)

  calculate_renewal_time-Keeps : (w : World E) → Keeps w (calculate_renewal_time E m w).1
  unfolding calculate_renewal_time renewals has_pauses
  calculate_renewal_time-Keeps w = ground (arith)

  issue-Keeps : (w : World E) → Keeps w (issue_certificate_and_write_to_disk E m w).1
  unfolding issue_certificate_and_write_to_disk issue_certificate parse_pki_certificate_response
      write_pki_cert_files report_expiry renewals has_pauses
  issue-Keeps w = ground (arith)

  renew-renewals :
      (w : World E)
      → (renewals (renew E m w).1.trace ≡ suc (renewals w.trace))
        × (has_pauses (renew E m w).1.trace ≡ has_pauses w.trace)
  unfolding renew renewals has_pauses
  renew-renewals w =
      let (a, b) = issue-Keeps w in
      elim (Result-cases (issue_certificate_and_write_to_disk E m w).0) [
        | inl (u, p) ↦ (ground (arith, a), ground (arith, b))
        | inr (e, p) ↦ (ground (arith, a), ground (arith, b))
      ]

  -- Whether the time of the renewal can be read from the certificate.
  unfoldable pub is_readable : World E → Bool
  is_readable w = elim (calculate_renewal_time E m w).0 [ ok t ↦ true | err e ↦ false ]

  -- The number of the first rounds in which it can.
  unfoldable pub readable_rounds : ℕ → World E → ℕ
  unfolding is_readable renewal_round
  readable_rounds zero w = 0
  readable_rounds (suc n) w =
      let rest = readable_rounds n (renewal_round E m w).1 in
      if is_readable w then suc rest else rest

  module _ (unstopped : (d : ℕ) (s : E.State) → (E.platform.wait_or_stop d s).0 ≡ false) where
    renewal_round-renewals :
        (w : World E)
        → let (stopped, w') = renewal_round E m w in
          (stopped ≡ false)
          × (renewals w'.trace
              ≡ (if is_readable w then suc (renewals w.trace) else renewals w.trace))
          × (has_pauses w'.trace ≡ has_pauses w.trace)
    unfolding renewal_round is_readable wait_or_stop renewals has_pauses
    renewal_round-renewals w =
        let w₁ : World E = (calculate_renewal_time E m w).1 in
        let (a, b) = calculate_renewal_time-Keeps w in
        elim (Result-cases (calculate_renewal_time E m w).0) [
          | inr (e, p) ↦ ground (arith, a, b, unstopped minute w₁.state)
          | inl (renew_at, p) ↦
              let (t, w₂) = call now E.now_time w₁ in
              let d = sleep_duration renew_at t in
              let w₃ : World E = (wait_or_stop E m d w₂).1 in
              ground (
                arith,
                a,
                b,
                unstopped d w₂.state,
                renew-renewals w₃,
                sleep_duration-positive renew_at t,
              )
        ]

    -- If nothing stops the waits, the renewal loop has not returned after any number of rounds,
    -- whatever failed in them; it has tried one renewal in each round whose certificate could be
    -- read, and if no earlier wait was empty, none of its own is.
    pub renewal_loop-renewals :
        (n : ℕ) (w : World E)
        → let (stopped, w') = renewal_loop E m n w in
          (stopped ≡ false)
          × (renewals w'.trace ≡ renewals w.trace + readable_rounds n w)
          × (has_pauses w'.trace ≡ has_pauses w.trace)
    unfolding renewal_loop readable_rounds
    renewal_loop-renewals zero w = (refl, ground (arith), refl)
    renewal_loop-renewals (suc n) w =
        let w₁ : World E = (renewal_round E m w).1 in
        ground (arith, renewal_round-renewals w, renewal_loop-renewals n w₁)
