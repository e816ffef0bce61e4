-- ===== src/Metrics/Counters.antt =====
-- The counters (internal/metrics/metrics.go): an increment leaves its entry in the trace.
use k8s_postgresql_operator.Prelude.{String}
use k8s_postgresql_operator.World.{Env, M, metric, note}

module _ {E : Env} where
  -- `IncReconcileErrors`
  abbrev pub inc_reconcile_errors : String → M E (Unit {0})
  inc_reconcile_errors controller = note (metric "reconcile_errors" controller)

  -- `IncReconcileTotal`
  abbrev pub inc_reconcile_total : String → M E (Unit {0})
  inc_reconcile_total controller = note (metric "reconcile_total" controller)

  -- `IncVaultCredentialResolution`
  abbrev pub inc_vault_credential_resolution : String → M E (Unit {0})
  inc_vault_credential_resolution source = note (metric "vault_credential_resolution" source)

  -- `IncVaultPasswordRotation`
  abbrev pub inc_vault_password_rotation : String → M E (Unit {0})
  inc_vault_password_rotation result = note (metric "vault_password_rotation" result)

  -- `IncCertificateRenewal`
  abbrev pub inc_certificate_renewal : String → M E (Unit {0})
  inc_certificate_renewal result = note (metric "certificate_renewal" result)
