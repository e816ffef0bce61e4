-- ===== src/Tests/Starting.antt =====
-- The theorems on the start, the certificates, the metrics and the users' passwords, at concrete
-- inputs.
use k8s_postgresql_operator.Prelude.{
  String, ◌≡◌, Option, ◌⊎◌, refl, sym, false, none, some, List, [], ◌∷◌, arith, eq_refl, eq_false,
  ne_of_eq, ◌+◌, ◌++◌,
}
use k8s_postgresql_operator.Errors.{Error, plain, error_text}
use k8s_postgresql_operator.World.{Env, World, Result, ok, err, Data}
use k8s_postgresql_operator.Vault.{is_vault_not_found_error}
use k8s_postgresql_operator.Vault.Pki.{PkiCertificate}
use k8s_postgresql_operator.Vault.Refinement.{IsReliableStore, Request, put_password, get_password}
use k8s_postgresql_operator.Certificates.Pki.{Manager, issue_certificate_and_write_to_disk}
use k8s_postgresql_operator.Certificates.Renewal.{renewal_loop}
use k8s_postgresql_operator.Certificates.Written.{
  IsFileSystem, HasKeyAndChain, HasDistinctPaths, answered, cert_of,
  issue_certificate_and_write_to_disk-files,
}
use k8s_postgresql_operator.Certificates.Rounds.{
  renewals, has_pauses, readable_rounds, renewal_loop-renewals,
}
use k8s_postgresql_operator.Startup.Config.{Config, new}
use k8s_postgresql_operator.World.{RuntimeCall}
use k8s_postgresql_operator.Startup.Main.{main}
use k8s_postgresql_operator.Startup.Order.{calls}
use k8s_postgresql_operator.Startup.Starting.{start_plan, main_order}
use k8s_postgresql_operator.Startup.Entry.{parse_exclude_user_list}
use k8s_postgresql_operator.Startup.Bundles.{
  HasWritten, update_webhook_configuration_with_ca_bundle-written,
}
use k8s_postgresql_operator.Startup.Excluded.{
  has_no_comma, is_blank, IsListable, parse_exclude_user_list-join,
}
use k8s_postgresql_operator.Startup.Texts.{is_space, trim_left, trim_right, trim_space}
use k8s_postgresql_operator.Certificates.SelfSigned.{entry}
use k8s_postgresql_operator.Startup.Webhooks.{
  set_ca_bundle, put_ca_bundle, update_webhook_configuration_with_ca_bundle,
}
use k8s_postgresql_operator.Tests.Machine.{lookup}
use k8s_postgresql_operator.Tests.Simulation.{sim, start}

abbrev manager : Manager
manager = record {
  mount_path = "pki";
  role_name = "webhook-cert";
  ttl = "720h";
  renewal_buffer = 100;
  service_name = "operator";
  namespace = "default";
  cert_dir = "/tmp/certs";
  cert_path = "/tmp/certs/tls.crt";
  key_path = "/tmp/certs/tls.key";
  ca_path = "/tmp/certs/ca.crt";
}

-- The world with a certificate that can be read.
abbrev certified : World sim
certified = record {
  state = record {
    secrets = [];
    statements = [];
    files = ("/tmp/certs/tls.crt", "old certificate") ∷ [];
  };
  trace = [];
}

sim-IsFileSystem : IsFileSystem sim
sim-IsFileSystem = record {
  content = λ p s. lookup p s.files;
  written = λ p c s h. ground (arith, eq_refl p);
  unwritten = λ q p c s h. ground (arith, eq_false p q (λ e. h (sym e)));
  made = λ q p s. refl;
  asked = λ q p d s. refl;
  timed = λ q s. refl;
}

manager-HasDistinctPaths : HasDistinctPaths manager
unfolding HasDistinctPaths
manager-HasDistinctPaths = (
  ne_of_eq "/tmp/certs/tls.crt" "/tmp/certs/tls.key" refl,
  ne_of_eq "/tmp/certs/tls.crt" "/tmp/certs/ca.crt" refl,
  ne_of_eq "/tmp/certs/tls.key" "/tmp/certs/ca.crt" refl,
)

-- The read of a path of a Vault that answers "secret not found" where there is none.
abbrev found_or_not : Option Data → Result (Option Data)
found_or_not (some d) = ok (some d)
found_or_not none = err (plain "secret not found")

abbrev vault_sim : Env
vault_sim = record sim { get_secret = λ p s. (found_or_not (lookup p s.secrets), s) }

abbrev vault_start : World vault_sim
vault_start = record { state = start.state; trace = [] }

vault_sim-IsReliableStore : IsReliableStore vault_sim
unfolding is_vault_not_found_error error_text
vault_sim-IsReliableStore = record {
  content = λ s p. lookup p s.secrets;
  present = λ p s d h. λ i. (found_or_not (h i), s);
  missing = λ p s h. (plain "secret not found", refl, λ i. (found_or_not (h i), s));
  stored = λ p d s. refl;
  changed = λ p d s. ground (arith, eq_refl p);
  unchanged = λ p q d s h. ground (arith, eq_false p q (λ e. h (sym e)));
}

abbrev requests : List Request
requests =
    put_password "id1" "app" "first"
    ∷ get_password "id1" "app"
    ∷ get_password "id2" "app"
    ∷ put_password "id1" "app" "second"
    ∷ get_password "id1" "app"
    ∷ []

abbrev excluding : Config
excluding = record new { exclude_user_list = "postgres, app" }

abbrev names : List String
names = "postgres" ∷ "app" ∷ []

issue_certificate_and_write_to_disk-files_example :
    let (r, w') = issue_certificate_and_write_to_disk sim manager certified in
    let fs = sim-IsFileSystem in
    let answer = answered sim fs manager manager-HasDistinctPaths certified in
    let cert_of = cert_of sim fs manager manager-HasDistinctPaths in
    ((r ≡ ok tt)
      × ((c : PkiCertificate) × (answer ≡ ok c)
          × HasKeyAndChain fs manager c w'
          × (cert_of w' ≡ some c.certificate)))
    ⊎ ((e : Error) × (r ≡ err e)
        × ((cert_of w' ≡ cert_of certified)
            ⊎ ((c : PkiCertificate) × (answer ≡ ok c) × HasKeyAndChain fs manager c w')))
issue_certificate_and_write_to_disk-files_example =
    issue_certificate_and_write_to_disk-files sim sim-IsFileSystem manager manager-HasDistinctPaths
      certified

renewal_loop-renewals_example :
    let (stopped, w') = renewal_loop sim manager 3 certified in
    (stopped ≡ false)
    × (renewals w'.trace ≡ renewals certified.trace + readable_rounds sim manager 3 certified)
    × (has_pauses w'.trace ≡ has_pauses certified.trace)
renewal_loop-renewals_example = renewal_loop-renewals sim manager (λ d s. refl) 3 certified

update_webhook_configuration_with_ca_bundle-written_example :
    (d : List (String × String)) × (bundle : String) × (ok (some (("tls.crt", "bundle") ∷ []))
      ≡ ok (some d))
    × (entry "tls.crt" d ≡ some bundle)
    × HasWritten sim bundle "hook" start.state
        (update_webhook_configuration_with_ca_bundle sim "cert" "default" "hook" start).1
unfolding update_webhook_configuration_with_ca_bundle put_ca_bundle set_ca_bundle entry
update_webhook_configuration_with_ca_bundle-written_example =
    update_webhook_configuration_with_ca_bundle-written sim "cert" "default" "hook" start refl

parse_exclude_user_list-join_example : parse_exclude_user_list excluding ≡ names
unfolding is_blank is_space trim_space trim_left trim_right has_no_comma IsListable
parse_exclude_user_list-join_example =
    parse_exclude_user_list-join excluding " " names refl
      ((ne_of_eq "postgres" "" refl, refl, refl), ((ne_of_eq "app" "" refl, refl, refl), tt)) refl

main_order_example :
    let (r, w') = main sim new certified in
    (done : List RuntimeCall) × (left : List RuntimeCall) × (start_plan new ≡ done ++ left)
    × (calls w'.trace ≡ calls certified.trace ++ done)
    × ((left ≡ []) ⊎ ((e : Error) × (r ≡ err e)))
main_order_example = main_order sim new certified
