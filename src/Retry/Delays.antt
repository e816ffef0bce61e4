-- ===== src/Retry/Delays.antt =====
-- The delays between retries, with their jitter (calculateBackoff of internal/postgresql/retry.go).
use native.Mathlib.Nat.{mul_assoc}
use k8s_postgresql_operator.Prelude.{
  ℕ, suc, ◌+◌, ℤ, pos, negsuc, ◌*◌, ◌/◌, ◌^◌, ◌≤◌, ◌<◌, ◌≡◌, refl, ltb, arith, Bool-cases, inl, inr,
  ◌⊎◌, if◌then◌else◌,
}
use k8s_postgresql_operator.Errors.{Error, plain}
use k8s_postgresql_operator.World.{Env, World, ok, err, Result-cases}
use k8s_postgresql_operator.Retry.{calculate_backoff}
use k8s_postgresql_operator.Retry.Laws.{IsRandomSource}

half_of_double : (base attempt : ℕ) → base * 2 ^ suc attempt / 2 ≡ base * 2 ^ attempt
half_of_double base attempt = ground (arith, mul_assoc base (2 ^ attempt) 2)

pub duration-cases : (d : ℤ) → ((n : ℕ) × (d ≡ pos n)) ⊎ ((n : ℕ) × (d ≡ negsuc n))
duration-cases (pos n) = inl (n, refl)
duration-cases (negsuc n) = inr (n, refl)

-- If random numbers are below their bound, the computation of a delay for an attempt from 1 on
-- ends in one of three ways. The scaled delay is converted to a duration that is not negative:
-- then the delay is at least the converted one or the cap, and exceeds neither by more than a
-- quarter, so it may pass the cap itself. The conversion overflows to -1, -2 or -3: then the
-- delay counts as 0. It overflows to -4 or less: then the draw of the jitter panics, and no
-- random number is drawn.
pub calculate_backoff_bounds :
    (E : Env)
    → IsRandomSource E
    → (base_delay attempt max_delay : ℕ) (w : World E)
    → let run = calculate_backoff E base_delay (suc attempt) max_delay w in
      let converted = E.to_duration (base_delay * 2 ^ attempt) in
      ((scaled : ℕ) × (delay : ℕ) × (converted ≡ pos scaled)
        × (run.0 ≡ ok delay)
        × ((scaled ≤ delay) ⊎ (max_delay ≤ delay))
        × (delay ≤ scaled + scaled / 4)
        × (delay ≤ max_delay + max_delay / 4))
      ⊎ (((n : ℕ) × (converted ≡ negsuc n) × (n < 3) × (run.0 ≡ ok 0))
          ⊎ ((n : ℕ) × (e : Error) × (converted ≡ negsuc n) × (3 ≤ n) × (run ≡ (err e, w))))
unfolding calculate_backoff
calculate_backoff_bounds E source base_delay attempt max_delay w =
    let converted = E.to_duration (base_delay * 2 ^ attempt) in
    let same : base_delay * 2 ^ suc attempt / 2 ≡ base_delay * 2 ^ attempt =
      half_of_double base_delay attempt in
    elim (duration-cases converted) [
      | inl (scaled, fits) ↦
          let delay : ℕ = if ltb max_delay scaled then max_delay else scaled in
          elim (Result-cases (E.random_int (delay / 4 + 1) w.state).0) [
            | inl (jitter, e) ↦
                let low : jitter < delay / 4 + 1 = source.below (delay / 4 + 1) w.state jitter e in
                inl (
                  scaled,
                  delay + jitter,
                  fits,
                  rw (same, fits, e, calculate_backoff) refl,
                  ground (arith, low),
                  ground (arith, low),
                  ground (arith, low),
                )
            | inr (failed, e) ↦ inl (
              scaled,
              delay,
              fits,
              rw (same, fits, e, calculate_backoff) refl,
              ground arith,
              ground arith,
              ground arith,
            )
          ]
      | inr (n, overflow) ↦ elim (Bool-cases (ltb n 3)) [
        | inl small ↦
            inr
              (inl (n, overflow, ground arith, rw (same, overflow, small, calculate_backoff) refl))
        | inr large ↦ inr (
            inr (
              n,
              plain "crypto/rand: argument to Int is <= 0",
              overflow,
              ground arith,
              rw (same, overflow, large, calculate_backoff) refl,
            ))
      ]
    ]
