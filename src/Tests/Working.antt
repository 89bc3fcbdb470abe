-- ===== src/Tests/Working.antt =====
-- The worker's retries, rate limit and health, and the rate limit of the API.
use void.Base.{
  ℕ, zero, suc, ◌+◌, ◌-◌, ◌*◌, ◌≤◌, ◌<◌, ◌≡◌, refl, Bool, true, false, Option, none, some, List, [],
  ◌∷◌, arith, Result, throws, length, if◌then◌else◌, leb,
}
use void.Base.Int.{ℤ, pos}
use void.Base.Ratio.{Ratio}
use void.Text.{Text, codes}
use void.Worker.Retry.{RetryRun, ProviderError, with_retry, default_retry_policy}
use void.Worker.Retry.Attempts.{Run, with_retry-Run}
use void.Worker.Limiter.{RateLimit, TokenBucket, Elapsed, Clock, new_bucket, acquire, acquire_all}
use void.Worker.Limiter.Quota.{IsBounded, acquire_all-quota}
use void.Worker.Limiter.Waits.{acquire-returns, acquire-stuck, longest_wait}
use void.Worker.Health.{
  HealthError, WorkerHealthEvaluation, WorkerHealthState, Number, finite,
  create_worker_health_state, snapshot, validate_durations,
}
use void.Worker.Health.Ready.{Cycles, after_cycles, is_ready, Snapped, snapshot-is_ready}
use void.Web.Limiter.{ApiLimit, ApiLimiter, consume}
use void.Web.Limiter.Callers.{IsCurrent}
use void.Web.Limiter.Refines.{Consumed, consume-Consumed}

-- A server error twice, and then an answer.
abbrev flaky : ℕ → Result ProviderError ℕ
flaky n =
    if leb n 1
    then throws (ProviderError.transport (some 503))
    else if leb n 2
    then throws (ProviderError.transport none)
    else Result.ok 7

abbrev no_jitter : ℕ → Ratio
no_jitter n = record { num = 1; den = 2 }

with_retry-Run_example :
    (r : RetryRun ℕ) × (with_retry default_retry_policy no_jitter flaky ≡ some r)
    × Run default_retry_policy no_jitter flaky 1 0 r
with_retry-Run_example = with_retry-Run default_retry_policy no_jitter flaky

retried_run :
    with_retry default_retry_policy no_jitter flaky
    ≡ some (record { result = Result.ok 7; calls = 3; waits = 250 ∷ 500 ∷ [] })
unfolding void.Worker.Retry.with_retry void.Worker.Retry.retry_from void.Worker.Retry.retry_delay_ms
    void.Worker.Retry.raw_delay void.Worker.Retry.jittered void.Worker.Retry.default_retry_policy
    void.Worker.Retry.is_retryable_transient
retried_run = refl

-- Two tokens, and one more in a second.
abbrev two_tokens : RateLimit
two_tokens = record { capacity = 2000; token = 1000; per_ms = 1 }

-- A sleep lasts as long as it is asked to.
abbrev exact_clock : Clock
exact_clock n slept = slept

abbrev at_start : Elapsed
at_start = record { reads = 0; slept = 0 }

abbrev full_bucket : TokenBucket
full_bucket = record { credits = 2000; last_refill = 0 }

three_taken :
    (new_bucket two_tokens 0 ≡ Result.ok full_bucket)
    × (acquire_all two_tokens exact_clock 2 3 at_start full_bucket
        ≡ some (record { reads = 5; slept = 1000 }, record { credits = 0; last_refill = 1000 }))
unfolding new_bucket acquire_all acquire void.Worker.Limiter.refill void.Worker.Limiter.wait_of
three_taken = (refl, refl)

acquire_all-quota_example :
    (3 * 1000 ≤ 2000 + (1000 - 0) * 1)
    × IsBounded two_tokens (record { credits = 0; last_refill = 1000 })
acquire_all-quota_example =
    acquire_all-quota two_tokens exact_clock 2 3 0 at_start (record { reads = 5; slept = 1000 })
      full_bucket (record { credits = 0; last_refill = 1000 }) three_taken.0 three_taken.1

abbrev empty_bucket : TokenBucket
empty_bucket = record { credits = 0; last_refill = 0 }

acquire-returns_example :
    (r : Elapsed × TokenBucket) × (acquire two_tokens exact_clock 2 at_start empty_bucket ≡ some r)
    × (r.0.slept ≤ 0 + longest_wait two_tokens)
acquire-returns_example =
    acquire-returns two_tokens exact_clock at_start empty_bucket 0 (omega arith) (omega arith)
      (λ n slept d. omega arith) (omega arith)

-- Half a token.
abbrev half_token : RateLimit
half_token = record { capacity = 500; token = 1000; per_ms = 1 }

acquire-stuck_example :
    (b : TokenBucket) × (new_bucket half_token 0 ≡ Result.ok b)
    × ((clock : Clock) (fuel : ℕ) (e : Elapsed) → acquire half_token clock fuel e b ≡ none)
acquire-stuck_example = acquire-stuck half_token 0 (omega arith) (omega arith) (omega arith)

abbrev api_limit : ApiLimit
api_limit = record { capacity = 2000; token = 1000; per_ms = 2; prune_after_ms = 600000 }

abbrev no_callers : ApiLimiter
no_callers = record { buckets = []; consult_count = 0 }

nobody : IsCurrent api_limit 5 []
unfolding IsCurrent
nobody = tt

consume-Consumed_example :
    Consumed api_limit
      (omega arith)
      5
      (codes "a")
      no_callers
      (consume api_limit 5 (codes "a") no_callers)
consume-Consumed_example = consume-Consumed api_limit (omega arith) 5 (codes "a") no_callers nobody

abbrev new_state : WorkerHealthState
new_state = record {
  started_at = pos 0;
  startup_grace_ms = finite (pos 30000);
  stale_after_ms = finite (pos 300000);
  last_cycle_at = none;
  last_cycle_status = none;
  cycle_count = 0;
}

is_new : create_worker_health_state (finite (pos 0)) none none ≡ Result.ok new_state
unfolding create_worker_health_state validate_durations void.Worker.Health.timestamp_ms
is_new = refl

abbrev two_cycles : Cycles
two_cycles = (codes " ok", pos 2000) ∷ (codes "DOWN", pos 1000) ∷ []

snapshot-is_ready_example :
    (durations : ℕ × ℕ) × (validate_durations (finite (pos 30000)) (finite (pos 300000))
      ≡ Result.ok durations)
    × ((after_cycles new_state two_cycles).cycle_count ≡ length two_cycles)
    × Snapped new_state durations
        (pos 5000)
        two_cycles
        none
        (snapshot (after_cycles new_state two_cycles) none (finite (pos 5000)))
snapshot-is_ready_example =
    snapshot-is_ready (finite (pos 0)) none none new_state (pos 5000) two_cycles none is_new

-- A finite time that a Date cannot hold.
far_run :
    snapshot
      (after_cycles new_state ((codes "OK", pos 8640000000000001) ∷ []))
      none
      (finite (pos 0))
    ≡ throws HealthError.invalid_time_value
unfolding snapshot after_cycles void.Worker.Health.record_cycle
    void.Worker.Health.evaluate_worker_health void.Worker.Health.to_iso_string
    void.Worker.Health.optional_iso_string validate_durations void.Worker.Health.timestamp_ms
far_run = refl

ready_run : is_ready (pos 0) (30000, 300000) (pos 5000) two_cycles ≡ true
unfolding void.Text.Trim.upper void.Text.Trim.trim_start void.Text.Trim.trim_end
    void.Text.Trim.is_space void.Text.Trim.upper_code void.Base.Int.◌-ℤ◌
ready_run = refl
