-- ===== src/Web/Limiter/Refines.antt =====
-- `consume` of the API limiter against one bucket for each caller.
use void.Base.{
  ℕ, suc, ◌+◌, ◌-◌, ◌*◌, ◌%◌, ◌≤◌, ◌<◌, ◌≡◌, refl, ap, sym, ◌∙◌, subst, true, false, Option, some,
  [], ◌∷◌, arith, if◌then◌else◌, leb, ltb, ◌==◌, min, Bool-cases, inl, inr, le→leb,
}
use void.Base.Quotient.{ceil_div, ceil_div-enough}
use void.Text.{Text, text_eq}
use void.Text.Equality.{text_eq_refl}
use void.Web.Limiter.{
  ApiLimit, Bucket, Buckets, ApiLimiter, RateLimitResult, find_bucket, set_bucket, tokens_at,
  maybe_prune, consume, settle_bucket, prune_every,
}
use void.Web.Limiter.Callers.{
  balance, IsCurrent, find-set, set_bucket-IsCurrent, prune-IsCurrent, prune-unseen,
}

tokens_at-bounded :
    (limit : ApiLimit) (at : ℕ) (key : Text) (bs : Buckets)
    → IsCurrent limit at bs
    → tokens_at limit at (find_bucket key bs) ≤ limit.capacity
unfolding tokens_at find_bucket IsCurrent
tokens_at-bounded limit at key [] h = omega arith
tokens_at-bounded limit at key ((k, b) ∷ bs) h = elim (Bool-cases (text_eq k key)) [
  | inl e ↦ rw e (ground (arith, h))
  | inr e ↦ rw e (tokens_at-bounded limit at key bs h.3)
]

own_key :
    (key : Text) (b : Bucket) (o : Option Bucket) → (if text_eq key key then some b else o) ≡ some b
own_key key b o = rw (text_eq_refl key) refl

other_key :
    (key other : Text) (b : Bucket) (o : Option Bucket)
    → text_eq key other ≡ false
    → (if text_eq key other then some b else o) ≡ o
other_key key other b o n = rw n refl

refilled :
    (limit : ApiLimit) (at later tokens : ℕ)
    → at ≤ later
    → tokens ≤ limit.capacity
    → tokens_at limit later (some (record { tokens = tokens; updated_at = at }))
      ≡ min limit.capacity (tokens + (later - at) * limit.per_ms)
unfolding tokens_at
refilled limit at later tokens l b = elim (Bool-cases (ltb at later)) [
  | inl e ↦ rw e refl
  | inr e ↦ let now : later - at ≡ 0 = ground arith in rw (e, now) (omega arith)
]

module _ (limit : ApiLimit) (fills : limit.capacity ≤ limit.prune_after_ms * limit.per_ms)
    (at : ℕ) where
  maybe_prune-unseen :
      (s : ApiLimiter) (key : Text) (later : ℕ)
      → at ≤ later
      → IsCurrent limit at s.buckets
      → balance limit (maybe_prune limit at s) key later ≡ balance limit s key later
  unfolding maybe_prune
  maybe_prune-unseen s key later l h = elim (Bool-cases (suc s.consult_count % prune_every == 0)) [
    | inl t ↦ rw t (prune-unseen limit at later key s.buckets fills l h)
    | inr t ↦ rw t refl
  ]

  maybe_prune-IsCurrent :
      (s : ApiLimiter)
      → IsCurrent limit at s.buckets
      → IsCurrent limit at (maybe_prune limit at s).buckets
  unfolding maybe_prune
  maybe_prune-IsCurrent s h = elim (Bool-cases (suc s.consult_count % prune_every == 0)) [
    | inl t ↦ rw t (prune-IsCurrent limit at limit.prune_after_ms s.buckets h)
    | inr t ↦ rw t h
  ]

  -- What setting a caller's tokens does to the balances.
  pub record Settled (key : Text) (tokens : ℕ) (s t : ApiLimiter) : Type 0 where
    pub own :
        (later : ℕ)
        → at ≤ later
        → balance limit t key later ≡ min limit.capacity (tokens + (later - at) * limit.per_ms)
    pub others :
        (other : Text) (later : ℕ)
        → text_eq key other ≡ false
        → at ≤ later
        → balance limit t other later ≡ balance limit s other later
    pub current : IsCurrent limit at t.buckets

  settle_bucket-Settled :
      (s : ApiLimiter) (key : Text) (tokens : ℕ)
      → tokens ≤ limit.capacity
      → IsCurrent limit at s.buckets
      → Settled key tokens s (settle_bucket limit at key tokens s)
  settle_bucket-Settled s key tokens b h =
      let new : Bucket = record { tokens = tokens; updated_at = at } in
      let set : ApiLimiter = record s { buckets = set_bucket key new s.buckets } in
      let good = set_bucket-IsCurrent limit at tokens key s.buckets b h in
      record {
        own = λ later l.
            maybe_prune-unseen set key later l good
            ∙ ap (tokens_at limit later)
                (find-set key key new s.buckets ∙ own_key key new (find_bucket key s.buckets))
            ∙ refilled limit at later tokens l b;
        others = λ other later n l.
            maybe_prune-unseen set other later l good
            ∙ ap (tokens_at limit later) (
                find-set key other new s.buckets
                ∙ other_key key other new (find_bucket other s.buckets) n);
        current = maybe_prune-IsCurrent set good;
      }

  -- What `consume` promises a caller.
  pub record Consumed (key : Text) (s : ApiLimiter) (r : ApiLimiter × RateLimitResult)
      : Type 0 where
    pub decision : r.1.allowed ≡ leb limit.token (balance limit s key at)
    pub settled :
        Settled key
          (if r.1.allowed then balance limit s key at - limit.token else balance limit s key at)
          s
          r.0
    pub retry :
        r.1.allowed ≡ false
        → 0 < limit.per_ms
        → limit.token ≤ limit.capacity
        → leb limit.token (balance limit r.0 key (at + r.1.retry_after_ms)) ≡ true

  -- Where a bucket fills up in the time after which it may be forgotten, and each caller has at most one
  -- bucket, none of them over the capacity or of a later time, `consume` is what one bucket for each
  -- caller would do: it allows a request exactly if the caller's balance has a token, takes it from that
  -- balance only, and keeps these conditions. Where the capacity is a token or more and the rate is
  -- positive, a refused caller that waits as told has a token.
  pub consume-Consumed :
      (key : Text) (s : ApiLimiter)
      → IsCurrent limit at s.buckets
      → Consumed key s (consume limit at key s)
  unfolding consume
  consume-Consumed key s h =
      let tokens = balance limit s key at in
      let bound = tokens_at-bounded limit at key s.buckets h in
      elim (Bool-cases (leb limit.token tokens)) [
        | inl t ↦ rw t (record {
          decision = sym t;
          settled = settle_bucket-Settled s key (tokens - limit.token) (omega (arith, bound)) h;
          retry = λ e. absurd (ground arith);
        })
        | inr t ↦
            let kept = settle_bucket-Settled s key tokens bound h in
            rw t (record {
              decision = sym t;
              settled = kept;
              retry = λ e p c.
                  retried (limit.token - tokens) tokens _ (ground arith) p c
                    (kept.own (at + ceil_div (limit.token - tokens) limit.per_ms) (omega arith));
            })
      ]
    where
      retried :
          (missing tokens b : ℕ)
          → limit.token ≡ tokens + missing
          → 0 < limit.per_ms
          → limit.token ≤ limit.capacity
          → b
            ≡ min limit.capacity (tokens + (at + ceil_div missing limit.per_ms - at) * limit.per_ms)
          → leb limit.token b ≡ true
      retried missing tokens b e p c q =
          let wait : at + ceil_div missing limit.per_ms - at ≡ ceil_div missing limit.per_ms =
            omega arith in
          let more : missing ≤ (at + ceil_div missing limit.per_ms - at) * limit.per_ms =
            subst (λ (x : ℕ). missing ≤ x * limit.per_ms) (sym wait)
              (ceil_div-enough missing limit.per_ms p) in
          le→leb limit.token b (omega (arith, e, c, q, more))
