-- ===== src/Retry/Laws.antt =====
-- The loop of retries and its delays (internal/postgresql/retry.go and
-- internal/controller/connection_retry.go).
use k8s_postgresql_operator.Prelude.{
  ℕ, zero, suc, ◌+◌, ◌≤◌, ◌<◌, min, ◌≡◌, refl, Bool, true, false, Option, none, some, ltb, arith,
  Bool-cases, Option-cases, inl, inr,
}
use k8s_postgresql_operator.Errors.{Error, nil_error}
use k8s_postgresql_operator.World.{Env, World, Result, ok, err, Result-cases}
use k8s_postgresql_operator.Retry.{Plan, await, pause, attempts, with_retries}

-- `crypto/rand.Int` returns a number below its argument.
pub record IsRandomSource (E : Env) : Type 0 where
  pub below : (n : ℕ) (s : E.State) (k : ℕ) → (E.random_int n s).0 ≡ ok k → k < n

-- What a wait keeps, a pause keeps.
pub pause_keeps :
    {E : Env} (P : World E → Type 0)
    → ((n : ℕ) (w : World E) → P w → P (await E n w).1)
    → (delay : Result ℕ) (w : World E) → P w
    → P (pause E delay w).1
pause_keeps P waited (ok n) w h = waited n w h
pause_keeps P waited (err e) w h = h

module _ {E : Env} {A : Type 0} (plan : Plan E A) where
  -- The world after a number of failed rounds, from an attempt on: each call failed with an error
  -- that is not fatal, and each wait ran to its end. `none` if it did not go so.
  unfoldable pub failed_rounds : ℕ → ℕ → World E → Option (World E)
  failed_rounds zero attempt w = some w
  failed_rounds (suc rounds) attempt w =
      let (r, w₁) = plan.operation w in
      elim r [
        | ok a ↦ none
        | err e ↦ elim (plan.fatal e) [
          | true ↦ none
          | false ↦
              let (delay, w₂) = plan.backoff attempt w₁ in
              let (done, w₃) = pause E delay w₂ in
              elim done [ none ↦ failed_rounds rounds (attempt + 1) w₃ | some cause ↦ none ]
        ]
      ]

  -- What ends the loop: a value, or a fatal error.
  unfoldable pub is_final : Result A → Bool
  is_final (ok a) = true
  is_final (err e) = plan.fatal e

  -- The world after a failed round.
  next_round : ℕ → World E → World E
  next_round attempt w =
      let (delay, w₂) = plan.backoff attempt (plan.operation w).1 in (pause E delay w₂).1

  attempts_final :
      (retries rounds k attempt : ℕ) (last_err : Error) (w w' : World E)
      → attempt + rounds ≡ retries + 1
      → k < rounds
      → failed_rounds k attempt w ≡ some w'
      → is_final (plan.operation w').0 ≡ true
      → attempts plan retries rounds attempt last_err w ≡ plan.operation w'
  unfolding attempts failed_rounds is_final next_round
  attempts_final retries zero k attempt last_err w w' sum lt run final = absurd (omega arith)
  attempts_final retries (suc rounds) zero attempt last_err w w' sum lt run final = ground arith
  attempts_final retries (suc rounds) (suc k) attempt last_err w w' sum lt run final =
      elim (Result-cases (plan.operation w).0) [
        | inl (a, h) ↦ ground arith
        | inr (e, h) ↦
            ground
              (arith, attempts_final retries rounds k (attempt + 1) e (next_round attempt w) w')
      ]

  attempts_exhausted :
      (retries rounds attempt : ℕ) (last_err e : Error) (w w' : World E)
      → attempt + suc rounds ≡ retries + 1
      → failed_rounds rounds attempt w ≡ some w'
      → (plan.operation w').0 ≡ err e
      → plan.fatal e ≡ false
      → attempts plan retries (suc rounds) attempt last_err w
        ≡ (err (plan.exhausted e), (plan.operation w').1)
  unfolding attempts failed_rounds next_round
  attempts_exhausted retries zero attempt last_err e w w' sum run failed go_on = ground arith
  attempts_exhausted retries (suc rounds) attempt last_err e w w' sum run failed go_on =
      elim (Result-cases (plan.operation w).0) [
        | inl (a, h) ↦ ground arith
        | inr (f, h) ↦
            ground
              (arith, attempts_exhausted retries rounds (attempt + 1) f e (next_round attempt w) w')
      ]

  -- If fewer rounds than there are retries fail and wait without being canceled, and the next
  -- attempt succeeds or fails with a fatal error, then the loop ends with that attempt and with
  -- what it returned.
  pub with_retries_final :
      (retries k : ℕ) (w w' : World E)
      → k < retries
      → failed_rounds k 1 w ≡ some w'
      → is_final (plan.operation w').0 ≡ true
      → with_retries plan retries w ≡ plan.operation w'
  unfolding with_retries
  with_retries_final retries k w w' lt run final =
      attempts_final retries retries k 1 nil_error w w' (omega arith) lt run final

  -- If all attempts fail with errors that are not fatal and no wait is canceled, the loop ends
  -- after the last attempt, with no wait after it, and wraps the last error.
  pub with_retries_exhausted :
      (rounds : ℕ) {e : Error} (w w' : World E)
      → failed_rounds rounds 1 w ≡ some w'
      → (plan.operation w').0 ≡ err e
      → plan.fatal e ≡ false
      → with_retries plan (suc rounds) w ≡ (err (plan.exhausted e), (plan.operation w').1)
  unfolding with_retries
  with_retries_exhausted rounds {e} w w' run failed go_on =
      attempts_exhausted (suc rounds) rounds 1 nil_error e w w' (omega arith) run failed go_on

  attempts-ok :
      (retries rounds attempt : ℕ) (last_err : Error) (w : World E) {a : A}
      → (attempts plan retries rounds attempt last_err w).0 ≡ ok a
      → (w' : World E) × (plan.operation w').0 ≡ ok a
        × ((attempts plan retries rounds attempt last_err w).1 ≡ (plan.operation w').1)
  unfolding attempts next_round
  attempts-ok retries zero attempt last_err w h = cc
  attempts-ok retries (suc rounds) attempt last_err w {a} h =
      elim (Result-cases (plan.operation w).0) [
        | inl (b, p) ↦ (w, ground arith, ground arith)
        | inr (e, p) ↦ elim (Bool-cases (plan.fatal e)) [
          | inl stop ↦ absurd (ground arith)
          | inr go_on ↦ elim (Bool-cases (ltb attempt retries)) [
            | inl again ↦
                let w₁ : World E = next_round attempt w in
                let delay : Result ℕ = (plan.backoff attempt (plan.operation w).1).0 in
                let w₂ : World E = (plan.backoff attempt (plan.operation w).1).1 in
                elim (Option-cases (pause E delay w₂).0) [
                  | inl waited ↦
                      let (w', q, same) =
                        attempts-ok retries rounds (attempt + 1) e w₁ (ground arith) in
                      (w', q, ground arith)
                  | inr (cause, stopped) ↦ absurd (ground arith)
                ]
            | inr last ↦
                let (w', q, same) =
                  attempts-ok retries rounds (attempt + 1) e (plan.operation w).1 (ground arith) in
                (w', q, ground arith)
          ]
        ]
      ]

  -- A value that the loop returns is one that its last call returned, and nothing is called after
  -- that.
  pub with_retries-ok :
      (retries : ℕ) (w : World E) {a : A}
      → (with_retries plan retries w).0 ≡ ok a
      → (w' : World E) × (plan.operation w').0 ≡ ok a
        × ((with_retries plan retries w).1 ≡ (plan.operation w').1)
  unfolding with_retries
  with_retries-ok retries w h = attempts-ok retries retries 1 nil_error w h

module _ {E : Env} {A : Type 0} (plan : Plan E A) (count : World E → ℕ)
    (called : (w : World E) → count (plan.operation w).1 ≡ count w + 1)
    (delayed : (n : ℕ) (w : World E) → count (plan.backoff n w).1 ≡ count w)
    (waited : (n : ℕ) (w : World E) → count (await E n w).1 ≡ count w) where
  pause-count : (delay : Result ℕ) (w : World E) → count (pause E delay w).1 ≡ count w
  pause-count (ok n) w = waited n w
  pause-count (err e) w = refl

  attempts-count :
      (retries rounds attempt : ℕ) (last_err : Error) (w : World E)
      → let w' = (attempts plan retries rounds attempt last_err w).1 in
        (count w' ≤ count w + rounds) × (count w + min 1 rounds ≤ count w')
  unfolding attempts
  attempts-count retries zero attempt last_err w = omega arith
  attempts-count retries (suc rounds) attempt last_err w =
      let w₁ : World E = (plan.operation w).1 in
      let delay : Result ℕ = (plan.backoff attempt w₁).0 in
      let w₂ : World E = (plan.backoff attempt w₁).1 in
      elim (Result-cases (plan.operation w).0) [
        | inl (a, p) ↦ ground (arith, called w)
        | inr (e, p) ↦ ground (
          arith,
          called w,
          delayed attempt w₁,
          pause-count delay w₂,
          attempts-count retries rounds (attempt + 1) e w₁,
          attempts-count retries rounds (attempt + 1) e (pause E delay w₂).1,
        )
      ]

  -- By any count that a call of the operation raises by one, and a delay or a wait leaves alone,
  -- the loop calls the operation at most as often as there are retries, and at least once if
  -- there is one.
  pub with_retries-count :
      (retries : ℕ) (w : World E)
      → let w' = (with_retries plan retries w).1 in
        (count w' ≤ count w + retries) × (count w + min 1 retries ≤ count w')
  unfolding with_retries
  with_retries-count retries w = attempts-count retries retries 1 nil_error w

module _ {E : Env} {A : Type 0} (plan : Plan E A) (P : World E → Type 0)
    (called : (w : World E) → P w → P (plan.operation w).1)
    (delayed : (n : ℕ) (w : World E) → P w → P (plan.backoff n w).1)
    (waited : (n : ℕ) (w : World E) → P w → P (await E n w).1) where
  attempts_keeps :
      (retries rounds attempt : ℕ) (last_err : Error) (w : World E)
      → P w
      → P (attempts plan retries rounds attempt last_err w).1
  unfolding attempts
  attempts_keeps retries zero attempt last_err w h = h
  attempts_keeps retries (suc rounds) attempt last_err w h =
      let w₁ : World E = (plan.operation w).1 in
      let h₁ : P w₁ = called w h in
      let delay : Result ℕ = (plan.backoff attempt w₁).0 in
      let w₂ : World E = (plan.backoff attempt w₁).1 in
      let w₃ : World E = (pause E delay w₂).1 in
      let h₃ : P w₃ = pause_keeps P waited delay w₂ (delayed attempt w₁ h₁) in
      elim (Result-cases (plan.operation w).0) [
        | inl (a, p) ↦ rw (p, attempts) h₁
        | inr (e, p) ↦ elim (Bool-cases (plan.fatal e)) [
          | inl stop ↦ rw (p, stop, attempts) h₁
          | inr go_on ↦ elim (Bool-cases (ltb attempt retries)) [
            | inl again ↦ elim (Option-cases (pause E delay w₂).0) [
              | inl ended ↦
                  rw (p, go_on, again, ended, attempts)
                    (attempts_keeps retries rounds (attempt + 1) e w₃ h₃)
              | inr (cause, ended) ↦ rw (p, go_on, again, ended, attempts) h₃
            ]
            | inr last ↦
                rw (p, go_on, last, attempts) (attempts_keeps retries rounds (attempt + 1) e w₁ h₁)
          ]
        ]
      ]

  -- What the operation, the delays and the waits all keep, the loop keeps.
  pub with_retries_keeps : (retries : ℕ) (w : World E) → P w → P (with_retries plan retries w).1
  unfolding with_retries
  with_retries_keeps retries w h = attempts_keeps retries retries 1 nil_error w h
