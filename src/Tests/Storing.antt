-- ===== src/Tests/Storing.antt =====
-- The theorems on Vault, retries and errors at concrete inputs.
use k8s_postgresql_operator.Prelude.{
  ℕ, pos, negsuc, ◌+◌, ◌/◌, ◌≤◌, ◌<◌, min, String, ◌≡◌, refl, false, some, List, [], ◌∷◌, ◌⊎◌,
  arith, eq_iff, length,
}
use k8s_postgresql_operator.Errors.{
  Error, Structured, plain, wrapped, as_error, sentinel, errors_is, wrapf, with_op,
  err_postgresql_operation_failed, is_secret_not_found,
}
use k8s_postgresql_operator.Errors.Laws.{errors_is-wrapf}
use k8s_postgresql_operator.World.{World, ok, err, Action, Data, Effect, wait, random}
use k8s_postgresql_operator.Vault.{
  instance_admin_path, get_postgresql_credentials, store_postgresql_credentials,
  rotate_instance_admin_password, get_instance_admin_new_password,
  store_postgresql_user_credentials, string_field,
}
use k8s_postgresql_operator.Vault.Laws.{
  get-store_postgresql_credentials, rotate_instance_admin_password_completes,
  user_named_instance_admin_breaks_admin,
}
use k8s_postgresql_operator.Retry.{Plan, never_fatal, calculate_backoff, with_retries}
use k8s_postgresql_operator.Retry.Delays.{calculate_backoff_bounds}
use k8s_postgresql_operator.Retry.Laws.{
  failed_rounds, is_final, with_retries_final, with_retries_exhausted, with_retries-count,
}
use k8s_postgresql_operator.Tests.Simulation.{
  sim, start, admin_secret, sim-IsKeyValueStore, sim-IsRandomSource,
}

get-store_postgresql_credentials_example :
    (get_postgresql_credentials sim "kv" "id2"
      (store_postgresql_credentials sim "kv" "id2" "admin" "pass" start).1).0
    ≡ ok ("admin", "pass")
unfolding store_postgresql_credentials
get-store_postgresql_credentials_example =
    get-store_postgresql_credentials sim sim-IsKeyValueStore "kv" "id2" "admin" "pass" start
      (λ h. absurd (ground (arith, eq_iff "admin" "")))
      (λ h. absurd (ground (arith, eq_iff "pass" ""))) refl

rotate_instance_admin_password_completes_example :
    let w' = (rotate_instance_admin_password sim "kv" "id1" "next" start).1 in
    ((get_postgresql_credentials sim "kv" "id1" w').0 ≡ ok ("root", "next"))
    × ((get_instance_admin_new_password sim "kv" "id1" w').0 ≡ ok "")
unfolding rotate_instance_admin_password instance_admin_path string_field
rotate_instance_admin_password_completes_example =
    rotate_instance_admin_password_completes sim sim-IsKeyValueStore "kv" "id1" "next" start
      {d = admin_secret} refl (λ h. absurd (ground (arith, eq_iff "next" ""))) refl

user_named_instance_admin_breaks_admin_example :
    let w' = (store_postgresql_user_credentials sim "kv" "id1" "instance_admin" "pass" start).1 in
    (e : Error) × ((get_postgresql_credentials sim "kv" "id1" w').0 ≡ err e)
    × (is_secret_not_found e ≡ false)
unfolding store_postgresql_user_credentials
user_named_instance_admin_breaks_admin_example =
    user_named_instance_admin_breaks_admin sim sim-IsKeyValueStore "kv" "id1" "pass" start refl

calculate_backoff_bounds_example :
    let run = calculate_backoff sim 3 3 60 start in
    ((scaled : ℕ) × (delay : ℕ) × (pos 12 ≡ pos scaled)
      × (run.0 ≡ ok delay)
      × ((scaled ≤ delay) ⊎ (60 ≤ delay))
      × (delay ≤ scaled + scaled / 4)
      × (delay ≤ 60 + 60 / 4))
    ⊎ (((n : ℕ) × (pos 12 ≡ negsuc n) × (n < 3) × (run.0 ≡ ok 0))
        ⊎ ((n : ℕ) × (e : Error) × (pos 12 ≡ negsuc n) × (3 ≤ n) × (run ≡ (err e, start))))
calculate_backoff_bounds_example = calculate_backoff_bounds sim sim-IsRandomSource 3 2 60 start

-- An operation that counts its calls in the server's statements, and succeeds from the third on.
abbrev third_time : Action sim ℕ
third_time w = elim (w.state.statements) [
  | a ∷ rest ↦ elim rest [
    | b ∷ more ↦
        (ok 42, record w { state = record (w.state) { statements = "call" ∷ a ∷ b ∷ more } })
    | [] ↦ (
      err (plain "not yet"),
      record w { state = record (w.state) { statements = "call" ∷ a ∷ [] } },
    )
  ]
  | [] ↦ (err (plain "not yet"), record w { state = record (w.state) { statements = "call" ∷ [] } })
]

abbrev plan : Plan sim ℕ
plan = record {
  operation = third_time;
  fatal = never_fatal;
  backoff = λ attempt. calculate_backoff sim 10 attempt 100;
  canceled = "canceled";
  exhausted = wrapped "failed";
}

-- The worlds after one failed round and after two.
abbrev after_one : World sim
after_one = record {
  state = record { secrets = start.state.secrets; statements = "call" ∷ []; files = [] };
  trace = wait 10 ∷ random 3 ∷ [];
}

abbrev after_two : World sim
after_two = record {
  state = record { secrets = start.state.secrets; statements = "call" ∷ "call" ∷ []; files = [] };
  trace = wait 20 ∷ random 6 ∷ wait 10 ∷ random 3 ∷ [];
}

with_retries_final_example : with_retries plan 5 start ≡ third_time after_two
unfolding failed_rounds is_final calculate_backoff
with_retries_final_example = with_retries_final plan 5 2 start after_two (omega arith) refl refl

with_retries_exhausted_example :
    with_retries plan 2 start ≡ (err (wrapped "failed" (plain "not yet")), (third_time after_one).1)
unfolding failed_rounds calculate_backoff
with_retries_exhausted_example =
    with_retries_exhausted plan 1 {e = plain "not yet"} start after_one refl refl refl

abbrev calls : World sim → ℕ
calls w = length w.state.statements

counted :
    (secrets : List (String × Data)) (l : List String) (f : List (String × String))
    (t : List Effect)
    → calls
        (third_time
          (record { state = record { secrets = secrets; statements = l; files = f }; trace = t })).1
      ≡ length l + 1
counted secrets [] f t = refl
counted secrets (a ∷ []) f t = refl
counted secrets (a ∷ b ∷ more) f t = ground arith

backoff_keeps_calls : (n : ℕ) (w : World sim) → calls (plan.backoff n w).1 ≡ calls w
unfolding calculate_backoff
backoff_keeps_calls n w = ground arith

with_retries-count_example :
    (calls (with_retries plan 5 start).1 ≤ 0 + 5)
    × (0 + min 1 5 ≤ calls (with_retries plan 5 start).1)
with_retries-count_example =
    with_retries-count plan calls
      (λ w. counted w.state.secrets w.state.statements w.state.files w.trace) backoff_keeps_calls
      (λ n w. refl) 5 start

-- The world in which the database has been created.
abbrev created : World sim
created = record {
  state = record {
    secrets = start.state.secrets;
    statements = "CREATE DATABASE orders OWNER app" ∷ [];
    files = [];
  };
  trace = [];
}

errors_is-wrapf_example :
    (x : Structured) × (wrapf
        (some err_postgresql_operation_failed)
        (plain "timeout")
        "failed to create app"
      ≡ some x)
    × (errors_is (as_error (with_op "CreateUser" x)) (sentinel err_postgresql_operation_failed)
        ≡ false)
unfolding errors_is
errors_is-wrapf_example =
    errors_is-wrapf err_postgresql_operation_failed (plain "timeout") "failed to create app"
      "CreateUser" refl
      (λ h. absurd (ground (arith, eq_iff "failed to create app" "postgresql operation failed")))
      refl
