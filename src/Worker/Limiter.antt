-- ===== src/Worker/Limiter.antt =====
-- workers/odds-collector/src/rate-limit.ts. A token is a whole number of credits, and so are the
-- capacity and what a millisecond adds: every positive capacity and rate that are fractions have such a
-- form. `clock n slept` is what `now` returns when it is read for the n-th time, after sleeps that were
-- asked to last `slept` milliseconds in all.
pub mod Quota
pub mod Waits
use void.Base.{
  ℕ, zero, suc, ◌+◌, ◌-◌, ◌*◌, ◌/◌, Bool, Option, none, some, if◌then◌else◌, leb, ◌==◌, ◌||◌, min,
  max, Result, ok, throws,
}
use void.Base.Quotient.{ceil_div}

-- The capacity, the credits of one token, and the credits that a millisecond adds.
pub record RateLimit : Type 0 where
  pub capacity : ℕ
  pub token : ℕ
  pub per_ms : ℕ

pub record TokenBucket : Type 0 where
  pub credits : ℕ
  pub last_refill : ℕ

pub data LimitError : Type 0 where
  capacity_not_positive refill_not_positive : LimitError

-- The constructor, at a reading of the clock.
unfoldable pub new_bucket : RateLimit → ℕ → Result LimitError TokenBucket
new_bucket limit now =
    if limit.capacity == 0
    then throws capacity_not_positive
    else if limit.per_ms == 0
    then throws refill_not_positive
    else ok (record { credits = limit.capacity; last_refill = now })

unfoldable pub refill : RateLimit → ℕ → TokenBucket → TokenBucket
refill limit now b = if leb now b.last_refill then b else record {
  credits = min limit.capacity (b.credits + (now - b.last_refill) * limit.per_ms);
  last_refill = now;
}

-- What `queuedMs` returns after its refill.
unfoldable pub wait_of : RateLimit → TokenBucket → ℕ
wait_of limit b =
    if leb limit.token b.credits then 0 else ceil_div (limit.token - b.credits) limit.per_ms

unfoldable pub queued_ms : RateLimit → ℕ → TokenBucket → TokenBucket × ℕ
unfolding refill wait_of
queued_ms limit now b = let after = refill limit now b in (after, wait_of limit after)

abbrev pub Clock : Type 0
Clock = ℕ → ℕ → ℕ

-- How often the clock was read, and how long the sleeps were to last.
pub record Elapsed : Type 0 where
  pub reads : ℕ
  pub slept : ℕ

abbrev pub read : Elapsed → Elapsed
read e = record e { reads = suc e.reads }

abbrev pub take_token : RateLimit → TokenBucket → TokenBucket
take_token limit b = record b { credits = b.credits - limit.token }

-- The rounds of the loop, as many as the fuel; nothing if it has not returned by then.
unfoldable pub acquire :
    RateLimit → Clock → ℕ → Elapsed → TokenBucket → Option (Elapsed × TokenBucket)
unfolding refill wait_of
acquire limit clock zero e b = none
acquire limit clock (suc n) e b =
    let full = refill limit (clock e.reads e.slept) b in
    let queued = refill limit (clock (suc e.reads) e.slept) full in
    let pause = max 1 (wait_of limit queued) in
    let rest =
      acquire limit clock n (record { reads = suc (suc e.reads); slept = e.slept + pause })
        queued in
    if leb limit.token full.credits then some (read e, take_token limit full) else rest

-- `n` calls one after the other, each with the same fuel.
unfoldable pub acquire_all :
    RateLimit → Clock → ℕ → ℕ → Elapsed → TokenBucket → Option (Elapsed × TokenBucket)
unfolding acquire
acquire_all limit clock fuel zero e b = some (e, b)
acquire_all limit clock fuel (suc n) e b = elim (acquire limit clock fuel e b) [
  | none ↦ none
  | some r ↦ acquire_all limit clock fuel n r.0 r.1
]
