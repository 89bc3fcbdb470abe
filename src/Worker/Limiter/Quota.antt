-- ===== src/Worker/Limiter/Quota.antt =====
-- How many tokens the limiter of rate-limit.ts gives out.
use void.Base.{
  ℕ, zero, suc, ◌+◌, ◌-◌, ◌*◌, ◌≤◌, ◌≡◌, ◌≢◌, ap, subst, refl, true, Option, none, some, arith, leb,
  Bool-cases, Option-cases, inl, inr, min, ok,
}
use void.Worker.Limiter.{
  RateLimit, TokenBucket, Clock, Elapsed, refill, acquire, acquire_all, take_token, new_bucket,
}

-- A bucket that is not over its capacity.
abbrev pub IsBounded : RateLimit → TokenBucket → Type 0
IsBounded limit b = b.credits ≤ limit.capacity

-- From `b` to `c` some credits were spent that were there or were added since.
pub record Spent (limit : RateLimit) (spent : ℕ) (b c : TokenBucket) : Type 0 where
  pub later : b.last_refill ≤ c.last_refill
  pub bounded : IsBounded limit b → IsBounded limit c
  pub balance :
      c.credits + spent + b.last_refill * limit.per_ms ≤ b.credits + c.last_refill * limit.per_ms

some-pair {ℓ κ} :
    {A : Type ℓ} {B : Type κ} {a c : A} {b d : B}
    → ◌≡◌ {A = Option (A × B)} (some (a, b)) (some (c, d))
    → b ≡ d
some-pair e = cc

none-some {ℓ} : {A : Type ℓ} {a : A} → none ≢ some a
none-some e = cc

module _ (limit : RateLimit) where
  refill-Spent : (now : ℕ) (b : TokenBucket) → Spent limit 0 b (refill limit now b)
  unfolding refill
  refill-Spent now b = elim (Bool-cases (leb now b.last_refill)) [
    | inl e ↦ rw e (record { later = omega arith; bounded = λ h. h; balance = omega arith })
    | inr e ↦ rw e (record {
      later = ground arith;
      bounded = λ h. omega arith;
      balance = added (now - b.last_refill) b.last_refill now b.credits (ground arith);
    })
  ]
    where
      added :
          (d last now credits : ℕ)
          → now ≡ last + d
          → min limit.capacity (credits + d * limit.per_ms) + 0 + last * limit.per_ms
            ≤ credits + now * limit.per_ms
      added d last now credits e = omega (arith, ap (λ (x : ℕ). x * limit.per_ms) e)

  Spent-both :
      (m n k : ℕ) (a b c : TokenBucket)
      → m + n ≡ k
      → Spent limit m a b
      → Spent limit n b c
      → Spent limit k a c
  Spent-both m n k a b c e h g = record {
    later = omega (arith, h.later, g.later);
    bounded = λ x. g.bounded (h.bounded x);
    balance = omega (arith, h.balance, g.balance);
  }

  take_token-Spent :
      (b : TokenBucket)
      → leb limit.token b.credits ≡ true
      → Spent limit limit.token b (take_token limit b)
  take_token-Spent b e = record {
    later = omega arith;
    bounded = λ h. omega arith;
    balance = ground arith;
  }

  abbrev full_at : ℕ → TokenBucket
  full_at now = record { credits = limit.capacity; last_refill = now }

  new_bucket-full :
      (now : ℕ) (b : TokenBucket)
      → new_bucket limit now ≡ ok b
      → (b.credits ≡ limit.capacity) × (b.last_refill ≡ now) × (b ≡ full_at now)
  unfolding new_bucket
  new_bucket-full now b e = ground arith

  spent_since :
      (now last spent credits : ℕ)
      → now ≤ last
      → credits + spent + now * limit.per_ms ≤ limit.capacity + last * limit.per_ms
      → spent ≤ limit.capacity + (last - now) * limit.per_ms
  spent_since now last spent credits l h =
      shifted (last - now) now last spent credits (omega arith) h
    where
      shifted :
          (d now last spent credits : ℕ)
          → last ≡ now + d
          → credits + spent + now * limit.per_ms ≤ limit.capacity + last * limit.per_ms
          → spent ≤ limit.capacity + d * limit.per_ms
      shifted d now last spent credits e h = omega (arith, h, ap (λ (x : ℕ). x * limit.per_ms) e)

  module _ (clock : Clock) where
    acquire-Spent :
        (fuel : ℕ) (e f : Elapsed) (b c : TokenBucket)
        → acquire limit clock fuel e b ≡ some (f, c)
        → Spent limit limit.token b c
    unfolding acquire
    acquire-Spent zero e f b c q = cc
    acquire-Spent (suc n) e f b c q =
        let now = clock e.reads e.slept in
        let full = refill limit now b in
        let first = refill-Spent now b in
        elim (Bool-cases (leb limit.token full.credits)) [
          | inl t ↦
              let same = some-pair (rw t at q) in
              subst (Spent limit limit.token b) same (
                Spent-both 0 limit.token limit.token b full (take_token limit full) (omega arith)
                  first (take_token-Spent full t))
          | inr t ↦
              let queued = refill limit (clock (suc e.reads) e.slept) full in
              Spent-both 0 limit.token limit.token b queued c (omega arith)
                (Spent-both 0 0 0 b full queued refl first
                  (refill-Spent (clock (suc e.reads) e.slept) full))
                (acquire-Spent n _ f queued c (rw t at q))
        ]

    acquire_all-Spent :
        (fuel n : ℕ) (e f : Elapsed) (b c : TokenBucket)
        → acquire_all limit clock fuel n e b ≡ some (f, c)
        → Spent limit (n * limit.token) b c
    unfolding acquire_all
    acquire_all-Spent fuel zero e f b c q =
        subst (Spent limit (0 * limit.token) b) (some-pair q)
          (record { later = omega arith; bounded = λ h. h; balance = omega arith })
    acquire_all-Spent fuel (suc n) e f b c q = elim (Option-cases (acquire limit clock fuel e b)) [
      | inl t ↦ absurd (none-some (rw (acquire_all, t) at q))
      | inr (r, t) ↦
          let rest = acquire_all-Spent fuel n r.0 f r.1 c (rw (acquire_all, t) at q) in
          Spent-both limit.token (n * limit.token) (suc n * limit.token) b r.1 c (omega arith)
            (acquire-Spent fuel e r.0 b r.1 t) rest
    ]

    -- A limiter gives out no more tokens than its capacity and what was added from its creation to the
    -- last refill, and holds no more than its capacity.
    pub acquire_all-quota :
        (fuel n now : ℕ) (e f : Elapsed) (b c : TokenBucket)
        → new_bucket limit now ≡ ok b
        → acquire_all limit clock fuel n e b ≡ some (f, c)
        → (n * limit.token ≤ limit.capacity + (c.last_refill - now) * limit.per_ms)
          × IsBounded limit c
    unfolding new_bucket
    acquire_all-quota fuel n now e f b c k q =
        let s = acquire_all-Spent fuel n e f b c q in
        let new = new_bucket-full now b k in
        (
          spent_since now c.last_refill (n * limit.token) c.credits (omega (arith, s.later, new.1))
              (subst
                (λ (x : TokenBucket).
                  c.credits + n * limit.token + x.last_refill * limit.per_ms
                  ≤ x.credits + c.last_refill * limit.per_ms)
                new.2 s.balance),
          s.bounded (omega (arith, new.0)),
        )
