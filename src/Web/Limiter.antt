-- ===== src/Web/Limiter.antt =====
-- apps/web/lib/security/rate-limit.ts: the token bucket of each caller. A token is a whole number of
-- credits, and so are the capacity and what a millisecond adds: every positive capacity and rate that
-- are fractions have such a form.
pub mod Callers
pub mod Refines
use void.Base.{
  ℕ, suc, ◌+◌, ◌-◌, ◌*◌, ◌/◌, ◌%◌, Bool, true, false, Option, none, some, List, [], ◌∷◌,
  if◌then◌else◌, leb, ltb, ◌==◌, min, length, Result, ok, throws,
}
use void.Base.Quotient.{ceil_div}
use void.Text.{Text, text_eq, codes}
use void.Text.Trim.{trim, trim_start, trim_end, before}

pub record ApiLimit : Type 0 where
  pub capacity : ℕ
  pub token : ℕ
  pub per_ms : ℕ
  pub prune_after_ms : ℕ

pub record Bucket : Type 0 where
  pub tokens : ℕ
  pub updated_at : ℕ

-- A Map from callers, in the order of insertion.
abbrev pub Buckets : Type 0
Buckets = List (Text × Bucket)

pub record ApiLimiter : Type 0 where
  pub buckets : Buckets
  pub consult_count : ℕ

pub record RateLimitResult : Type 0 where
  pub allowed : Bool
  pub remaining : ℕ
  pub retry_after_ms : ℕ

abbrev pub prune_every : ℕ
prune_every = 256

unfoldable pub find_bucket : Text → Buckets → Option Bucket
find_bucket key [] = none
find_bucket key ((k, b) ∷ bs) = if text_eq k key then some b else find_bucket key bs

unfoldable pub set_bucket : Text → Bucket → Buckets → Buckets
set_bucket key b [] = (key, b) ∷ []
set_bucket key b ((k, c) ∷ bs) = if text_eq k key then (k, b) ∷ bs else (k, c) ∷ set_bucket key b bs

-- The tokens of a caller now; a new one has all.
unfoldable pub tokens_at : ApiLimit → ℕ → Option Bucket → ℕ
tokens_at limit at none = limit.capacity
tokens_at limit at (some b) =
    if ltb b.updated_at at
    then min limit.capacity (b.tokens + (at - b.updated_at) * limit.per_ms)
    else b.tokens

unfoldable pub prune : ℕ → ℕ → Buckets → Buckets
prune at after [] = []
prune at after ((k, b) ∷ bs) =
    let rest = prune at after bs in if ltb after (at - b.updated_at) then rest else (k, b) ∷ rest

unfoldable pub maybe_prune : ApiLimit → ℕ → ApiLimiter → ApiLimiter
unfolding prune
maybe_prune limit at s =
    let count = suc s.consult_count in
    record {
      buckets =
          if count % prune_every == 0 then prune at limit.prune_after_ms s.buckets else s.buckets;
      consult_count = count;
    }

-- The bucket is set, and perhaps others are forgotten.
abbrev settle_bucket : ApiLimit → ℕ → Text → ℕ → ApiLimiter → ApiLimiter
settle_bucket limit at key tokens s =
    maybe_prune limit at (record s {
      buckets = set_bucket key (record { tokens = tokens; updated_at = at }) s.buckets;
    })

unfoldable pub consume : ApiLimit → ℕ → Text → ApiLimiter → ApiLimiter × RateLimitResult
unfolding find_bucket set_bucket tokens_at maybe_prune
consume limit at key s =
    let tokens = tokens_at limit at (find_bucket key s.buckets) in
    if leb limit.token tokens
    then (
      settle_bucket limit at key (tokens - limit.token) s,
      record { allowed = true; remaining = tokens - limit.token; retry_after_ms = 0 },
    )
    else (
      settle_bucket limit at key tokens s,
      record {
        allowed = false;
        remaining = 0;
        retry_after_ms = ceil_div (limit.token - tokens) limit.per_ms;
      },
    )

pub data ApiLimitError : Type 0 where
  no_capacity no_refill : ApiLimitError

-- The constructor.
unfoldable pub new_api_limiter : ApiLimit → Result ApiLimitError ApiLimiter
new_api_limiter limit =
    if limit.capacity == 0
    then throws no_capacity
    else if limit.per_ms == 0
    then throws no_refill
    else ok (record { buckets = []; consult_count = 0 })

abbrev real_ip_or : Option Text → Text
real_ip_or none = codes "unknown"
real_ip_or (some ip) = if ltb 0 (length (trim ip)) then trim ip else codes "unknown"

-- `clientIp`, of the headers x-forwarded-for and x-real-ip.
unfoldable pub client_ip : Option Text → Option Text → Text
unfolding trim_start trim_end before
client_ip none real_ip = real_ip_or real_ip
client_ip (some forwarded) real_ip =
    if ltb 0 (length (trim forwarded)) then trim (before b',' forwarded) else real_ip_or real_ip
