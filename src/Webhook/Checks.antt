-- ===== src/Webhook/Checks.antt =====
-- The responses of a webhook, and checks that may answer the request early.
use k8s_postgresql_operator.Prelude.{ℕ, String, Bool, true, false}
use k8s_postgresql_operator.Errors.{Error}
use k8s_postgresql_operator.World.{Env, M, Action, Result, ok, err}

-- `admission.Allowed`, `Denied` and `Errored`
pub data Refusal : Type 0 where
  denied : String → Refusal
  errored : ℕ → Error → Refusal

pub data Response : Type 0 where
  allowed : String → Response
  refusal : Refusal → Response

-- A handler after some of its checks: it has answered, or it goes on.
pub data Checked (A : Type 0) : Type 0 where
  refused : Refusal → Checked A
  passed : A → Checked A

abbrev pub Gate : Env → Type 0 → Type 0
Gate E A = M E (Checked A)

infixl 5 ◌>>=◌ ◌>>◌
abbrev pub ◌>>=◌ : {E : Env} {A B : Type 0} → Gate E A → (A → Gate E B) → Gate E B
◌>>=◌ m f w = let (c, w') = m w in elim c [ passed a ↦ f a w' | refused r ↦ (refused r, w') ]

abbrev pub ◌>>◌ : {E : Env} {A B : Type 0} → Gate E A → Gate E B → Gate E B
m >> k = m >>= λ _. k

-- `if !condition { return admission.Denied(reason) }`
abbrev pub require : {E : Env} → Bool → String → Gate E (Unit {0})
require true reason w = (passed tt, w)
require false reason w = (refused (denied reason), w)

-- `if err != nil { return … }`
abbrev pub checking : {E : Env} {A : Type 0} → (Error → Refusal) → Action E A → Gate E A
checking on_error m w =
    let (r, w') = m w in elim r [ ok a ↦ (passed a, w') | err e ↦ (refused (on_error e), w') ]

-- A request that cannot be decoded answers 400.
abbrev pub decoding : {E : Env} {A : Type 0} → Result A → Gate E A
decoding (ok a) w = (passed a, w)
decoding (err e) w = (refused (errored 400 e), w)

-- The whole handler: the request is allowed if every check has passed.
abbrev pub answer : {E : Env} → String → Gate E (Unit {0}) → M E Response
answer message m w =
    let (c, w') = m w in
    elim c [ passed done ↦ (allowed message, w') | refused r ↦ (refusal r, w') ]
