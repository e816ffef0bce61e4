-- ===== src/Certificates/Renewal.antt =====
-- The renewal of certificates (internal/cert/vault_pki.go, from StartRenewal on).
use k8s_postgresql_operator.Prelude.{
  ℕ, zero, suc, ◌-◌, ◌*◌, ◌<>◌, Bool, true, false, none, some, ltb, if◌then◌else◌,
}
use k8s_postgresql_operator.Errors.{plain, wrapped}
use k8s_postgresql_operator.Metrics.Counters.{inc_certificate_renewal}
use k8s_postgresql_operator.World.{Env, M, Action, ok, err, wait, now, call, map_err}
use k8s_postgresql_operator.World.Fallible.{◌>>=◌}
use k8s_postgresql_operator.Retry.{second}
use k8s_postgresql_operator.Certificates.{read_file}
use k8s_postgresql_operator.Certificates.Pki.{
  Manager, set_certificate_expiry, issue_certificate_and_write_to_disk,
}

abbrev pub minute : ℕ
minute = 60 * second

-- `time.Until(renewAt)`, and a minute where that is not positive.
unfoldable pub sleep_duration : ℕ → ℕ → ℕ
sleep_duration renew_at t = if ltb t renew_at then renew_at - t else minute

module _ (E : Env) (m : Manager) where
  -- `calculateRenewalTime`. Times count from an early start, so that the buffer can be taken off.
  unfoldable pub calculate_renewal_time : Action E ℕ
  calculate_renewal_time = do
    cert_pem ←
        map_err (wrapped ("failed to read certificate file " <> m.cert_path))
          (read_file E m.cert_path)
    not_after ← λ w. (
      elim (E.platform.decode_pem cert_pem) [
        | none ↦ err (plain ("failed to decode PEM block from " <> m.cert_path))
        | some block ↦ elim (E.platform.parse_certificate block) [
          | err e ↦ err (wrapped ("failed to parse certificate from " <> m.cert_path) e)
          | ok t ↦ ok t
        ]
      ],
      w,
    )
    λ w. (ok (not_after - m.renewal_buffer), (set_certificate_expiry E "vault_pki" not_after w).1)

  -- `waitOrStop`
  unfoldable pub wait_or_stop : ℕ → M E Bool
  wait_or_stop d = call (wait d) (E.platform.wait_or_stop d)

  -- The end of a round: the renewal and its counter.
  unfoldable pub renew : M E (Unit {0})
  renew w =
      let (r, w₁) = issue_certificate_and_write_to_disk E m w in
      elim r [
        | ok u ↦ inc_certificate_renewal "success" w₁
        | err e ↦ inc_certificate_renewal "error" w₁
      ]

  -- A round of `renewalLoop`: whether the loop returns.
  unfoldable pub renewal_round : M E Bool
  renewal_round w =
      let (scheduled, w₁) = calculate_renewal_time w in
      elim scheduled [
        | err e ↦ wait_or_stop minute w₁
        | ok renew_at ↦
            let (t, w₂) = call now E.now_time w₁ in
            let (stopped, w₃) = wait_or_stop (sleep_duration renew_at t) w₂ in
            elim stopped [ true ↦ (true, w₃) | false ↦ (false, (renew w₃).1) ]
      ]

  -- The first rounds of `renewalLoop`, and whether it has returned by then.
  unfoldable pub renewal_loop : ℕ → M E Bool
  renewal_loop zero w = (false, w)
  renewal_loop (suc rounds) w =
      let (stopped, w₁) = renewal_round w in
      elim stopped [ true ↦ (true, w₁) | false ↦ renewal_loop rounds w₁ ]
