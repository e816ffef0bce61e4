-- ===== src/World/Fallible.antt =====
-- Sequencing with `if err != nil { return err }` after each step.
use k8s_postgresql_operator.World.{Env, Action, ok, err}

infixl 5 ◌>>=◌ ◌>>◌
abbrev pub ◌>>=◌ : {E : Env} {A B : Type 0} → Action E A → (A → Action E B) → Action E B
◌>>=◌ m f w = let (r, w') = m w in elim r [ ok a ↦ f a w' | err e ↦ (err e, w') ]

abbrev pub ◌>>◌ : {E : Env} {A B : Type 0} → Action E A → Action E B → Action E B
m >> k = m >>= λ _. k
