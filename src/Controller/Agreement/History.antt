-- ===== src/Controller/Agreement/History.antt =====
-- A history of the administrator's credentials: rounds of the operator, whatever their instance
-- resources and settings are, and what others do in between
-- (internal/controller/postgresql_controller.go).
use k8s_postgresql_operator.Prelude.{String, ◌≡◌, ◌⊎◌, inl, inr, true, some, arith, eq_refl}
use k8s_postgresql_operator.Api.{Postgresql, ExternalPostgresqlInstance}
use k8s_postgresql_operator.World.{Env, World, Data}
use k8s_postgresql_operator.Vault.{string_field, instance_admin_path}
use k8s_postgresql_operator.Controller.{Reconciler}
use k8s_postgresql_operator.Controller.Instances.{server_at, reconcile_external_instance}
use k8s_postgresql_operator.Controller.Agreement.{
  IsAccountWorld, HasPlainDefaults, is_agreed, is_known,
}
use k8s_postgresql_operator.Controller.Agreement.Known.{reconcile_external_instance_known}

-- A round; a change of the password on the server that takes effect late, after its statement has
-- failed in an earlier round; something that leaves the secret and the accounts alone; and a request for a new password,
-- which is written to the secret while its credentials are those of the server.
pub data Step {E : Env} (sp : String) (external : ExternalPostgresqlInstance)
    (k : IsAccountWorld E (instance_admin_path sp external.postgresql_id) (server_at external))
    (w : World E) : World E → Type 0 where
  round :
      (r : Reconciler) (p : Postgresql)
      → r.vault_client ≡ some sp
      → Step sp external k w (reconcile_external_instance E r p external w).1
  late :
      {v : World E} {d : Data}
      → k.secret w.state ≡ some d
      → k.secret v.state ≡ some d
      → (k.password (k.accounts v.state) (string_field "login" d) ≡ string_field "new_password" d)
        ⊎ (k.password (k.accounts v.state) (string_field "login" d) ≡ string_field "password" d)
      → Step sp external k w v
  elsewhere :
      {v : World E}
      → k.secret v.state ≡ k.secret w.state
      → k.accounts v.state ≡ k.accounts w.state
      → Step sp external k w v
  request :
      {v : World E} {d d' : Data}
      → is_agreed k w ≡ true
      → k.secret w.state ≡ some d
      → k.secret v.state ≡ some d'
      → string_field "login" d' ≡ string_field "login" d
      → string_field "password" d' ≡ string_field "password" d
      → k.accounts v.state ≡ k.accounts w.state
      → Step sp external k w v

pub data Reach {E : Env} (sp : String) (external : ExternalPostgresqlInstance)
    (k : IsAccountWorld E (instance_admin_path sp external.postgresql_id) (server_at external))
    (w : World E) : World E → Type 0 where
  here : Reach sp external k w w
  after :
      {u v : World E} → Reach sp external k w u → Step sp external k u v → Reach sp external k w v

module _ {E : Env} (sp : String) (external : ExternalPostgresqlInstance)
    (k : IsAccountWorld E
      (instance_admin_path sp external.postgresql_id)
      (server_at external)) where
  is_known-Step :
      (w v : World E)
      → HasPlainDefaults E sp
      → Step sp external k w v
      → is_known k w ≡ true
      → is_known k v ≡ true
  is_known-Step w _ defaults (round r p client) known =
      reconcile_external_instance_known r external k client p w defaults known
  is_known-Step w v defaults (late {d = d} s t (inl new)) known =
      ground (arith, s, t, new, eq_refl (string_field "new_password" d))
  is_known-Step w v defaults (late {d = d} s t (inr old)) known =
      ground (arith, s, t, old, eq_refl (string_field "password" d))
  is_known-Step w v defaults (elsewhere s a) known = ground (arith, s, a, known)
  is_known-Step w v defaults (request agreed s t l q a) known =
      ground (arith, agreed, s, t, l, q, a)

  -- In a world with one server that asks for passwords, and with plain default credentials, if
  -- the server's password of the administrator is the one in the secret or the one that the
  -- secret asks for, where there are credentials, then it is so after every history of rounds
  -- with a Vault client, in which statements and writes may fail after they took effect; of
  -- changes to one of these two passwords that take effect late; of steps that leave the secret
  -- and the accounts alone; and of requests for a new password that are written while the
  -- credentials agree.
  pub is_known-Reach :
      (w v : World E)
      → HasPlainDefaults E sp
      → Reach sp external k w v
      → is_known k w ≡ true
      → is_known k v ≡ true
  is_known-Reach w _ defaults here known = known
  is_known-Reach w v defaults (after {u} before step) known =
      is_known-Step u v defaults step (is_known-Reach w u defaults before known)
