-- ===== src/Worker/Retry/Attempts.antt =====
-- The attempts of withRetry of retry.ts.
use void.Base.{
  ℕ, zero, suc, ◌+◌, ◌≤◌, ◌<◌, ◌≡◌, ◌==◌, subst, refl, true, false, some, List, [], ◌∷◌, ◌++◌,
  arith, Bool-cases, inl, inr, max, length, length-append, All, All-append, Result, ok, throws,
}
use void.Base.Ratio.{Ratio}
use void.Worker.Retry.Delays.{retry_delay_ms-capped}
use void.Worker.Retry.{
  RetryPolicy, RetryRun, ProviderError, is_final, retry_from, with_retry, retry_delay_ms,
}

module _ {ℓ} {A : Type ℓ} (policy : RetryPolicy) (random : ℕ → Ratio)
    (call : ℕ → Result ProviderError A) where
  -- What a run from an attempt on is: it ends at the first final call.
  pub record Run (attempt : ℕ) (before : ℕ) (r : RetryRun A) : Type ℓ where
    pub result : r.result ≡ call r.calls
    pub final : is_final policy r.calls (call r.calls) ≡ true
    pub earlier : (k : ℕ) → attempt ≤ k → k < r.calls → is_final policy k (call k) ≡ false
    pub late : attempt ≤ r.calls
    pub early : r.calls ≤ max attempt policy.max_attempts
    pub pauses : length r.waits + attempt ≡ before + r.calls
    pub bounded : All (λ w. w ≤ policy.max_delay_ms) r.waits

  before_last :
      (attempt : ℕ) (x : Result ProviderError A)
      → is_final policy attempt x ≡ false
      → attempt < policy.max_attempts
  before_last attempt (ok a) t = cc
  before_last attempt (throws e) t = ground arith

  earliest :
      (r : RetryRun A) (attempt : ℕ)
      → is_final policy attempt (call attempt) ≡ false
      → ((k : ℕ) → suc attempt ≤ k → k < r.calls → is_final policy k (call k) ≡ false)
      → (k : ℕ) → attempt ≤ k
      → k < r.calls
      → is_final policy k (call k) ≡ false
  earliest r attempt t h k a b = elim (Bool-cases (k == attempt)) [
    | inl e ↦
        let same : attempt ≡ k = ground arith in
        subst (λ (j : ℕ). is_final policy j (call j) ≡ false) same t
    | inr e ↦ h k (ground arith) b
  ]

  retry_from-Run :
      (fuel attempt : ℕ) (waits : List ℕ)
      → policy.max_attempts < attempt + fuel
      → 0 < fuel
      → All (λ w. w ≤ policy.max_delay_ms) waits
      → (r : RetryRun A) × (retry_from policy random call fuel attempt waits ≡ some r)
        × Run attempt (length waits) r
  unfolding retry_from
  retry_from-Run zero attempt waits l p q = absurd (ground arith)
  retry_from-Run (suc fuel) attempt waits l p q =
      elim (Bool-cases (is_final policy attempt (call attempt))) [
        | inl t ↦ rw t (
          _,
          refl,
          record {
            result = refl;
            final = t;
            earlier = λ k a b. absurd (ground arith);
            late = omega arith;
            early = omega arith;
            pauses = refl;
            bounded = q;
          },
        )
        | inr t ↦
            let soon : attempt < policy.max_attempts = before_last attempt (call attempt) t in
            let wait = retry_delay_ms attempt policy (random attempt) in
            let (r, e, h) =
              retry_from-Run fuel (suc attempt) (waits ++ wait ∷ []) (omega arith) (omega arith) (
                All-append (λ w. w ≤ policy.max_delay_ms) waits (wait ∷ []) q
                  (retry_delay_ms-capped attempt policy (random attempt), tt)) in
            rw t (
              r,
              e,
              record {
                result = h.result;
                final = h.final;
                earlier = λ k a b. earliest r attempt t h.earlier k a b;
                late = omega (arith, h.late);
                early = omega (arith, h.early);
                pauses = omega (arith, h.pauses, length-append waits (wait ∷ []));
                bounded = h.bounded;
              },
            )
      ]

  -- A run returns, with what the first call returned that succeeded, failed for good, or was the last
  -- allowed; it makes at most the allowed number of calls, or one if none is allowed, and waits once
  -- between two calls, no longer than the ceiling.
  pub with_retry-Run : (r : RetryRun A) × (with_retry policy random call ≡ some r) × Run 1 0 r
  unfolding with_retry
  with_retry-Run = retry_from-Run (suc policy.max_attempts) 1 [] (omega arith) (omega arith) tt
