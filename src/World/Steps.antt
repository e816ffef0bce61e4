-- ===== src/World/Steps.antt =====
-- Sequencing of code that calls the outside.
use k8s_postgresql_operator.World.{Env, M}

infixl 5 ◌>>=◌ ◌>>◌
abbrev pub ◌>>=◌ : {E : Env} {A B : Type 0} → M E A → (A → M E B) → M E B
◌>>=◌ m f w = let (a, w') = m w in f a w'

abbrev pub ◌>>◌ : {E : Env} {A B : Type 0} → M E A → M E B → M E B
m >> k = m >>= λ _. k
