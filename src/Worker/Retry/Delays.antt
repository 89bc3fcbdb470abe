-- ===== src/Worker/Retry/Delays.antt =====
-- The waits of retry.ts.
use void.Base.{
  ℕ, suc, ◌+◌, ◌-◌, ◌*◌, ◌/◌, ◌^◌, ◌≤◌, ◌<◌, ◌≡◌, ap, ◌∙◌, arith, Bool-cases, inl, inr, min,
}
use void.Base.Ratio.{Ratio}
use native.Mathlib.Nat.{le-div_iff_mul-le, mul-le-mul_right}
use native.Mathlib.Nat.{pow-suc}
use void.Worker.Retry.{RetryPolicy, raw_delay, jittered, retry_delay_ms}

-- Half of the exponential delay or more, rounded down, and less than the ceiling.
jittered-half : (raw : ℕ) (random : Ratio) → 0 < random.den → raw / 2 ≤ jittered raw random
unfolding jittered
jittered-half raw random p =
    let half : raw / 2 * 2 ≤ raw = omega arith in
    (le-div_iff_mul-le {k = 2 * random.den} {x = raw / 2}
        {y = raw * (random.den + 2 * random.num) + random.den} (omega arith)).1
      (omega (arith, mul-le-mul_right random.den half))

doubles :
    (limit base power next : ℕ)
    → next ≡ 2 * power
    → min limit (base * next) ≡ min limit (2 * min limit (base * power))
doubles limit base power next e =
    let twice : base * next ≡ 2 * (base * power) = omega (arith, ap (λ (x : ℕ). base * x) e) in
    omega (arith, twice)

power_next : (n m : ℕ) → m ≡ suc n → 2 ^ m ≡ 2 * 2 ^ n
power_next n m e = ap (λ (x : ℕ). 2 ^ x) e ∙ pow-suc 2 n ∙ omega arith

-- A wait is at least half of the exponential delay, rounded down; and each attempt
-- doubles the exponential delay up to the ceiling.
pub retry_delay_ms-bounds :
    (attempt : ℕ) (policy : RetryPolicy) (random : Ratio)
    → 0 < random.den
    → (raw_delay attempt policy / 2 ≤ retry_delay_ms attempt policy random)
      × (raw_delay (attempt + 2) policy
          ≡ min policy.max_delay_ms (2 * raw_delay (attempt + 1) policy))
unfolding retry_delay_ms raw_delay
retry_delay_ms-bounds attempt policy random p =
    let next =
      doubles policy.max_delay_ms policy.base_delay_ms (2 ^ (attempt + 1 - 1))
        (2 ^ (attempt + 2 - 1)) (power_next (attempt + 1 - 1) (attempt + 2 - 1) (omega arith)) in
    let half = jittered-half (raw_delay attempt policy) random p in
    elim (Bool-cases policy.jitter) [
      | inl t ↦ rw t (omega (arith, half), next)
      | inr t ↦ rw t (omega arith, next)
    ]

pub retry_delay_ms-capped :
    (attempt : ℕ) (policy : RetryPolicy) (random : Ratio)
    → retry_delay_ms attempt policy random ≤ policy.max_delay_ms
unfolding retry_delay_ms raw_delay
retry_delay_ms-capped attempt policy random = elim (Bool-cases policy.jitter) [
  | inl t ↦ rw t (omega arith)
  | inr t ↦ rw t (omega arith)
]
