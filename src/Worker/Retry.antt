-- ===== src/Worker/Retry.antt =====
-- workers/odds-collector/src/retry.ts. An error is what the code looks at: an HTTP transport error
-- with its status, an Error with its name and code, or anything else. The calls of the callback are a
-- function from the attempt to what it returns; `Math.random` is a fraction below one.
pub mod Delays
pub mod Attempts
use void.Base.{
  ℕ, zero, suc, ◌+◌, ◌-◌, ◌*◌, ◌/◌, ◌^◌, Bool, true, false, ◌||◌, ◌&&◌, not, Option, none, some,
  List, [], ◌∷◌, ◌++◌, if◌then◌else◌, leb, ◌==◌, min, any, Result, ok, throws,
}
use void.Base.Ratio.{Ratio}
use void.Text.{Text, codes, text_eq}

-- A `code` that is no string is none.
pub data ProviderError : Type 0 where
  transport : Option ℕ → ProviderError
  named : Text → Option Text → ProviderError
  no_error : ProviderError

-- Without `onRetry`, which observes, and `sleep`.
pub record RetryPolicy : Type 0 where
  pub max_attempts : ℕ
  pub base_delay_ms : ℕ
  pub max_delay_ms : ℕ
  pub jitter : Bool
  pub retryable : ProviderError → Bool

abbrev pub transient_codes : List Text
transient_codes =
    codes "ECONNRESET"
    ∷ codes "ECONNREFUSED"
    ∷ codes "ETIMEDOUT"
    ∷ codes "EAI_AGAIN"
    ∷ codes "ENETUNREACH"
    ∷ codes "ENOTFOUND"
    ∷ codes "EPIPE"
    ∷ codes "SOCKET_TIMEOUT"
    ∷ codes "UND_ERR_CONNECT_TIMEOUT"
    ∷ []

transient_code : Option Text → Bool
transient_code none = false
transient_code (some code) = any (text_eq code) transient_codes

unfoldable pub is_retryable_transient : ProviderError → Bool
unfolding transient_code
is_retryable_transient (transport none) = true
is_retryable_transient (transport (some status)) = status == 429 || leb 500 status
is_retryable_transient (named name code) =
    text_eq name (codes "AbortError") || text_eq name (codes "TimeoutError") || transient_code code
is_retryable_transient no_error = false

unfoldable pub default_retry_policy : RetryPolicy
unfolding is_retryable_transient
default_retry_policy = record {
  max_attempts = 4;
  base_delay_ms = 250;
  max_delay_ms = 2000;
  jitter = true;
  retryable = is_retryable_transient;
}

unfoldable pub raw_delay : ℕ → RetryPolicy → ℕ
raw_delay attempt policy = min policy.max_delay_ms (policy.base_delay_ms * 2 ^ (attempt - 1))

-- `Math.round(raw * (0.5 + random))`, with halves rounded up.
unfoldable pub jittered : ℕ → Ratio → ℕ
jittered raw random = (raw * (random.den + 2 * random.num) + random.den) / (2 * random.den)

unfoldable pub retry_delay_ms : ℕ → RetryPolicy → Ratio → ℕ
unfolding raw_delay jittered
retry_delay_ms attempt policy random =
    if policy.jitter
    then min policy.max_delay_ms (jittered (raw_delay attempt policy) random)
    else raw_delay attempt policy

-- How a run ended: the result, how often the callback ran, and the waits between.
pub record RetryRun {ℓ} (A : Type ℓ) : Type ℓ where
  pub result : Result ProviderError A
  pub calls : ℕ
  pub waits : List ℕ

abbrev pub is_final {ℓ} : {A : Type ℓ} → RetryPolicy → ℕ → Result ProviderError A → Bool
is_final policy attempt (ok a) = true
is_final policy attempt (throws e) = leb policy.max_attempts attempt || not (policy.retryable e)

module _ {ℓ} {A : Type ℓ} (policy : RetryPolicy) (random : ℕ → Ratio)
    (call : ℕ → Result ProviderError A) where
  -- The loop from an attempt on; nothing if the fuel is not enough.
  unfoldable pub retry_from : ℕ → ℕ → List ℕ → Option (RetryRun A)
  unfolding retry_delay_ms
  retry_from zero attempt waits = none
  retry_from (suc fuel) attempt waits =
      let rest =
        retry_from fuel (suc attempt)
          (waits ++ retry_delay_ms attempt policy (random attempt) ∷ []) in
      if is_final policy attempt (call attempt)
      then some (record { result = call attempt; calls = attempt; waits = waits })
      else rest

  -- The fuel is the number of attempts that are allowed.
  unfoldable pub with_retry : Option (RetryRun A)
  unfolding retry_from
  with_retry = retry_from (suc policy.max_attempts) 1 []
