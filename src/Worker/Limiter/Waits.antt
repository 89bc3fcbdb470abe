-- ===== src/Worker/Limiter/Waits.antt =====
-- How long `acquire` of rate-limit.ts waits.
use void.Base.{
  ℕ, zero, suc, ◌+◌, ◌-◌, ◌*◌, ◌/◌, ◌≤◌, ◌<◌, ◌≡◌, subst, refl, true, false, none, some, arith, leb,
  Bool-cases, inl, inr, min, max, ok, ◌==◌,
}
use void.Worker.Limiter.{
  RateLimit, TokenBucket, Clock, Elapsed, refill, wait_of, acquire, new_bucket,
}
use void.Base.Quotient.{ceil_div, ceil_div-enough}
use native.Mathlib.Nat.{mul-le-mul_right, le-div_iff_mul-le, mul-div-le}

-- A clock that goes on by at least the time that a sleep was to last: `Date.now` with `setTimeout`.
abbrev pub IsHonest : Clock → Type 0
IsHonest clock = (n slept d : ℕ) → clock n slept + d ≤ clock (suc n) (slept + d)

refill-later :
    (limit : RateLimit) (now : ℕ) (b : TokenBucket)
    → b.last_refill ≤ now
    → (refill limit now b).last_refill ≤ now
unfolding refill
refill-later limit now b h = ground arith

wait_of-enough :
    (limit : RateLimit) (b : TokenBucket)
    → 0 < limit.per_ms
    → limit.token ≤ b.credits + wait_of limit b * limit.per_ms
unfolding wait_of
wait_of-enough limit b p = elim (Bool-cases (leb limit.token b.credits)) [
  | inl e ↦ rw e (ground arith)
  | inr e ↦ rw e (ground (arith, ceil_div-enough (limit.token - b.credits) limit.per_ms p))
]

-- A bucket that has waited long enough has a token.
waited :
    (limit : RateLimit) (b : TokenBucket) (now pause : ℕ)
    → 0 < limit.per_ms
    → limit.token ≤ limit.capacity
    → wait_of limit b ≤ pause
    → 0 < pause
    → b.last_refill + pause ≤ now
    → leb limit.token (refill limit now b).credits ≡ true
unfolding refill
waited limit b now pause p c w z l =
    let past : leb now b.last_refill ≡ false = ground arith in
    rw past (
      reached (now - b.last_refill) (wait_of limit b) b.credits (omega arith)
        (wait_of-enough limit b p))
  where
    reached :
        (d w credits : ℕ)
        → w ≤ d
        → limit.token ≤ credits + w * limit.per_ms
        → leb limit.token (min limit.capacity (credits + d * limit.per_ms)) ≡ true
    reached d w credits l h =
        let more : w * limit.per_ms ≤ d * limit.per_ms = mul-le-mul_right limit.per_ms l in
        ground arith

-- What one call may wait: for a token from an empty bucket.
abbrev pub longest_wait : RateLimit → ℕ
longest_wait limit = max 1 (ceil_div limit.token limit.per_ms)

goes_on : (clock : Clock) → IsHonest clock → (n slept : ℕ) → clock n slept ≤ clock (suc n) slept
goes_on clock h n slept =
    let same : slept + 0 ≡ slept = omega arith in
    let next : clock n slept ≤ clock (suc n) (slept + 0) = omega (arith, h n slept 0) in
    subst (λ s. clock n slept ≤ clock (suc n) s) same next

quotient_le : (x y k : ℕ) → 0 < k → x ≤ y → x / k ≤ y / k
quotient_le x y k p h =
    (le-div_iff_mul-le {k = k} {x = x / k} {y = y} p).1 (omega (arith, mul-div-le x k))

wait_of-longest :
    (limit : RateLimit) (b : TokenBucket)
    → 0 < limit.per_ms
    → wait_of limit b ≤ ceil_div limit.token limit.per_ms
unfolding wait_of
wait_of-longest limit b p = ground (
  arith,
  quotient_le (limit.token - b.credits + limit.per_ms - 1) (limit.token + limit.per_ms - 1)
      limit.per_ms p (omega arith),
)

module _ (limit : RateLimit) (clock : Clock) (e : Elapsed) (b : TokenBucket) where
  -- With a capacity of a token or more, and a clock that goes on, a call of `acquire` returns by its
  -- second round, after a wait that is no longer than an empty bucket needs for a token.
  pub acquire-returns :
      (n : ℕ)
      → 0 < limit.per_ms
      → limit.token ≤ limit.capacity
      → IsHonest clock
      → b.last_refill ≤ clock e.reads e.slept
      → (r : Elapsed × TokenBucket) × (acquire limit clock (suc (suc n)) e b ≡ some r)
        × (r.0.slept ≤ e.slept + longest_wait limit)
  unfolding acquire
  acquire-returns n p c h l =
      let full = refill limit (clock e.reads e.slept) b in
      elim (Bool-cases (leb limit.token full.credits)) [
        | inl t ↦ rw t (_, refl, omega arith)
        | inr t ↦
            let second = clock (suc e.reads) e.slept in
            let queued = refill limit second full in
            let before : queued.last_refill ≤ second = refill-later limit second full (
              omega (
                arith,
                refill-later limit (clock e.reads e.slept) b l,
                goes_on clock h e.reads e.slept,
              )) in
            let pause = max 1 (wait_of limit queued) in
            let third = clock (suc (suc e.reads)) (e.slept + pause) in
            let there : leb limit.token (refill limit third queued).credits ≡ true =
              waited limit queued third pause p c (omega arith) (omega arith)
                (omega (arith, before, h (suc e.reads) e.slept pause)) in
            rw (t, there) (_, refl, omega (arith, wait_of-longest limit queued p))
      ]

-- The limiter whose capacity is less than a token.
abbrev new_full : RateLimit → ℕ → TokenBucket
new_full limit now = record { credits = limit.capacity; last_refill = now }

refill-bounded :
    (limit : RateLimit) (now : ℕ) (b : TokenBucket)
    → b.credits ≤ limit.capacity
    → (refill limit now b).credits ≤ limit.capacity
unfolding refill
refill-bounded limit now b h = ground arith

never :
    (limit : RateLimit) (clock : Clock) (fuel : ℕ) (e : Elapsed) (b : TokenBucket)
    → limit.capacity < limit.token
    → b.credits ≤ limit.capacity
    → acquire limit clock fuel e b ≡ none
unfolding acquire
never limit clock zero e b c h = refl
never limit clock (suc n) e b c h =
    let full = refill limit (clock e.reads e.slept) b in
    let first = refill-bounded limit (clock e.reads e.slept) b h in
    let empty : leb limit.token full.credits ≡ false = ground (arith, first) in
    let queued = refill limit (clock (suc e.reads) e.slept) full in
    rw empty (
      never limit clock n
        (record { reads = suc (suc e.reads); slept = e.slept + max 1 (wait_of limit queued) })
        queued c (refill-bounded limit (clock (suc e.reads) e.slept) full first))

-- The constructor accepts a capacity above zero and below a token, and then `acquire` never returns.
pub acquire-stuck :
    (limit : RateLimit) (now : ℕ)
    → 0 < limit.capacity
    → limit.capacity < limit.token
    → 0 < limit.per_ms
    → (b : TokenBucket) × (new_bucket limit now ≡ ok b)
      × ((clock : Clock) (fuel : ℕ) (e : Elapsed) → acquire limit clock fuel e b ≡ none)
unfolding new_bucket
acquire-stuck limit now p c q =
    let some_capacity : (limit.capacity == 0) ≡ false = ground arith in
    let some_refill : (limit.per_ms == 0) ≡ false = ground arith in
    (
      new_full limit now,
      rw (some_capacity, some_refill) refl,
      λ clock fuel e. never limit clock fuel e (new_full limit now) c (omega arith),
    )
