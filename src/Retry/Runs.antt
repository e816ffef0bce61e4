-- ===== src/Retry/Runs.antt =====
-- What a loop of retries keeps, and the call that ends it (internal/postgresql/retry.go and
-- internal/controller/connection_retry.go).
use k8s_postgresql_operator.Prelude.{
  ℕ, zero, suc, ◌+◌, ◌≡◌, refl, ltb, arith, Bool-cases, Option-cases, inl, inr, ◌⊎◌,
}
use k8s_postgresql_operator.Errors.{Error, nil_error, wrapped}
use k8s_postgresql_operator.World.{Env, World, Result, ok, err, Result-cases}
use k8s_postgresql_operator.Retry.{Plan, await, pause, attempts, with_retries}
use k8s_postgresql_operator.Retry.Laws.{pause_keeps}

-- How a loop ends from a world on: a call whose value it returns, made in a world where `P` holds, or
-- an error, with `P` at the end.
abbrev pub HasEnded :
    {E : Env} {A : Type 0}
    → (World E → Type 0)
    → (World E → Result A × World E)
    → Result A × World E
    → Type 0
HasEnded {E} {A} P operation (r, w') =
    ((a : A) × (v : World E) × P v × ((operation v).0 ≡ ok a) × (r ≡ ok a) × (w' ≡ (operation v).1))
    ⊎ ((e : Error) × (r ≡ err e) × P w')

module _ {E : Env} {A : Type 0} (plan : Plan E A) (P : World E → Type 0)
    (called : (w : World E) (e : Error)
      → (plan.operation w).0 ≡ err e
      → P w
      → P (plan.operation w).1)
    (delayed : (n : ℕ) (w : World E) → P w → P (plan.backoff n w).1)
    (waited : (n : ℕ) (w : World E) → P w → P (await E n w).1) where
  attempts-HasEnded :
      (retries rounds attempt : ℕ) (last_err : Error) (w : World E)
      → P w
      → HasEnded P plan.operation (attempts plan retries rounds attempt last_err w)
  unfolding attempts
  attempts-HasEnded retries zero attempt last_err w h = inr (plan.exhausted last_err, refl, h)
  attempts-HasEnded retries (suc rounds) attempt last_err w h =
      let w₁ : World E = (plan.operation w).1 in
      let delay : Result ℕ = (plan.backoff attempt w₁).0 in
      let w₂ : World E = (plan.backoff attempt w₁).1 in
      let w₃ : World E = (pause E delay w₂).1 in
      elim (Result-cases (plan.operation w).0) [
        | inl (a, p) ↦ inl (a, w, h, p, ground (arith), ground (arith))
        | inr (e, p) ↦
            let h₁ : P w₁ = called w e p h in
            let h₃ : P w₃ = pause_keeps P waited delay w₂ (delayed attempt w₁ h₁) in
            elim (Bool-cases (plan.fatal e)) [
              | inl stop ↦ inr (e, ground (arith), rw (p, stop, attempts) h₁)
              | inr go_on ↦ elim (Bool-cases (ltb attempt retries)) [
                | inl again ↦ elim (Option-cases (pause E delay w₂).0) [
                  | inl ended ↦
                      rw (p, go_on, again, ended, attempts)
                        (attempts-HasEnded retries rounds (attempt + 1) e w₃ h₃)
                  | inr (cause, ended) ↦
                      rw (p, go_on, again, ended, attempts)
                        (inr (wrapped plan.canceled cause, refl, h₃))
                ]
                | inr last ↦
                    rw (p, go_on, last, attempts)
                      (attempts-HasEnded retries rounds (attempt + 1) e w₁ h₁)
              ]
            ]
      ]

  pub with_retries-HasEnded :
      (retries : ℕ) (w : World E) → P w → HasEnded P plan.operation (with_retries plan retries w)
  unfolding with_retries
  with_retries-HasEnded retries w h = attempts-HasEnded retries retries 1 nil_error w h
