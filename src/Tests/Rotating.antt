-- ===== src/Tests/Rotating.antt =====
-- The theorems on the administrator's credentials, on a server with one account.
use k8s_postgresql_operator.Prelude.{
  String, ◌<>◌, ◌≡◌, refl, true, List, ◌==◌, inl, inr, arith, eq_iff, ne_of_eq, Bool-cases,
}
use k8s_postgresql_operator.World.{World}
use k8s_postgresql_operator.Vault.{
  string_field, instance_admin_path, get_postgresql_credentials, get_default_credentials,
}
use k8s_postgresql_operator.Retry.{get_vault_credentials_with_retry}
use k8s_postgresql_operator.Postgres.{connection_string, default_db}
use k8s_postgresql_operator.Postgres.Connection.{ssl_mode_of}
use k8s_postgresql_operator.Postgres.Roles.{alter_user, create_user}
use k8s_postgresql_operator.Postgres.Plain.{is_plain}
use k8s_postgresql_operator.Controller.Instances.{server_at, reconcile_external_instance}
use k8s_postgresql_operator.Controller.Agreement.{
  IsAccountWorld, HasPlainDefaults, is_known, IsKept, HasAgreed,
}
use k8s_postgresql_operator.Controller.Agreement.Rounds.{reconcile_external_instance-HasAgreed}
use k8s_postgresql_operator.Controller.Agreement.Stuck.{reconcile_external_instance_stuck}
use k8s_postgresql_operator.Tests.Machine.{lookup}
use k8s_postgresql_operator.Tests.Simulation.{external, pg_instance, reconciler}
use k8s_postgresql_operator.Controller.Agreement.History.{round, here, after, is_known-Reach}
use k8s_postgresql_operator.Tests.Accounts.{
  account_sim, registered, rotated, changed_statement, right_connection, is_b, right_password,
  changed_password, not_created,
}

account_sim-HasPlainDefaults : HasPlainDefaults account_sim "kv"
unfolding get_default_credentials
account_sim-HasPlainDefaults = record { plain = λ w login password h. absurd (ground (arith)) }

account_sim-IsAccountWorld : IsAccountWorld account_sim "kv/id1/instance_admin" (server_at external)
unfolding is_plain ssl_mode_of
account_sim-IsAccountWorld = record {
  Accounts = List String;
  accounts = λ s. s.statements;
  password = λ l login. is_b l;
  secret = λ s. lookup "kv/id1/instance_admin" s.secrets;
  read = λ s d h. ground (arith);
  got = λ p s. ground (arith);
  put = λ d s. refl;
  put_ok = λ d s h. refl;
  put_failed = λ d s e h. absurd (ground (arith));
  opened = λ conn s. (refl, refl);
  existed = λ conn query arg s. (refl, refl);
  numbered = λ conn query s. ground (arith);
  drawn = λ n s. ground (arith);
  waited = λ n s. (refl, refl);
  timed = λ s. (refl, refl);
  updated = λ object s. (refl, refl);
  executed = λ conn query s. ground (arith);
  alter_failed = λ conn login new s e h. inl (ground (arith));
  create_failed = λ conn login new s e h. inl (ground (arith));
  address = λ login given. (refl, refl);
  altered = λ conn login new s h.
      elim (Bool-cases (alter_user account_sim login new == changed_statement)) [
        | inl b ↦ ground (
          arith,
          changed_password login new
              (ground (arith, eq_iff (alter_user account_sim login new) changed_statement)),
        )
        | inr b ↦ absurd (ground (arith))
      ];
  created = λ conn login new s h.
      elim (Bool-cases (create_user account_sim login new == changed_statement)) [
        | inl b ↦ absurd (
            not_created (login <> (" WITH PASSWORD " <> new))
              (ground (arith, eq_iff (create_user account_sim login new) changed_statement)))
        | inr b ↦ absurd (ground (arith))
      ];
  logged_in = λ login given query s n plain_login plain_given h.
      elim (Bool-cases
        (connection_string (server_at external login given) default_db == right_connection)) [
          | inl b ↦ ground (
            arith,
            right_password login given (
                ground (
                  arith,
                  eq_iff (connection_string (server_at external login given) default_db)
                      right_connection,
                )),
          )
          | inr b ↦ absurd (ground (arith))
        ];
}

reconcile_external_instance-HasAgreed_example :
    HasAgreed account_sim-IsAccountWorld registered
      (reconcile_external_instance account_sim reconciler pg_instance external registered).1
unfolding string_field account_sim-IsAccountWorld instance_admin_path
reconcile_external_instance-HasAgreed_example =
    reconcile_external_instance-HasAgreed reconciler external account_sim-IsAccountWorld pg_instance
      registered refl account_sim-HasPlainDefaults refl

reconcile_external_instance_stuck_example :
    IsKept account_sim-IsAccountWorld rotated
      (reconcile_external_instance account_sim reconciler pg_instance external rotated).1
unfolding string_field account_sim-IsAccountWorld instance_admin_path
    get_vault_credentials_with_retry get_postgresql_credentials is_plain
reconcile_external_instance_stuck_example =
    reconcile_external_instance_stuck reconciler external account_sim-IsAccountWorld pg_instance
      rotated refl refl refl refl (ne_of_eq "c" "b" refl)

abbrev after_round : World account_sim → World account_sim
after_round w = (reconcile_external_instance account_sim reconciler pg_instance external w).1

is_known-Reach_example :
    is_known account_sim-IsAccountWorld (after_round (after_round registered)) ≡ true
unfolding string_field account_sim-IsAccountWorld instance_admin_path
is_known-Reach_example =
    is_known-Reach "kv" external account_sim-IsAccountWorld registered
      (after_round (after_round registered)) account_sim-HasPlainDefaults
      (after (after here (round reconciler pg_instance refl)) (round reconciler pg_instance refl))
      refl
