-- ===== src/Web/Limiter/Callers.antt =====
-- Each caller of the API limiter against a bucket of its own.
use void.Base.{
  ℕ, ◌-◌, ◌*◌, ◌≤◌, ◌≡◌, ◌≢◌, refl, ap, sym, ◌∙◌, subst, true, false, none, some, [], ◌∷◌, arith,
  if◌then◌else◌, ltb, Bool-cases, inl, inr,
}
use void.Text.{Text, text_eq}
use void.Text.Equality.{text_eq-eq, text_eq_sym}
use void.Web.Limiter.{
  ApiLimit, Bucket, Buckets, ApiLimiter, find_bucket, set_bucket, tokens_at, prune,
}
use native.Mathlib.Nat.{mul-le-mul_right}

-- The tokens that a caller would have at a time.
abbrev pub balance : ApiLimit → ApiLimiter → Text → ℕ → ℕ
balance limit s key at = tokens_at limit at (find_bucket key s.buckets)

-- Each caller has one bucket, none over the capacity or of a later time.
unfoldable pub IsCurrent : ApiLimit → ℕ → Buckets → Type 0
IsCurrent limit at [] = Unit
IsCurrent limit at ((k, b) ∷ bs) =
    (b.tokens ≤ limit.capacity)
    × (b.updated_at ≤ at)
    × (find_bucket k bs ≡ none)
    × IsCurrent limit at bs

pub find-set :
    (key k : Text) (b : Bucket) (bs : Buckets)
    → find_bucket k (set_bucket key b bs) ≡ (if text_eq key k then some b else find_bucket k bs)
unfolding find_bucket set_bucket
find-set key k b [] = refl
find-set key k b ((j, c) ∷ bs) = elim (Bool-cases (text_eq j key)) [
  | inl e ↦ rw (e, text_eq-eq j key e) (ground arith)
  | inr e ↦ elim (Bool-cases (text_eq j k)) [
    | inr f ↦ rw (e, f) (find-set key k b bs)
    | inl f ↦
        let same : text_eq key k ≡ text_eq key j = ap (text_eq key) (sym (text_eq-eq j k f)) in
        let other : text_eq key k ≡ false = same ∙ text_eq_sym key j ∙ e in rw (e, f, other) refl
  ]
]

pub IsCurrent-later :
    (limit : ApiLimit) (at later : ℕ) (bs : Buckets)
    → at ≤ later
    → IsCurrent limit at bs
    → IsCurrent limit later bs
unfolding IsCurrent
IsCurrent-later limit at later [] l h = tt
IsCurrent-later limit at later ((k, b) ∷ bs) l h =
    (h.0, omega (arith, h.1), h.2, IsCurrent-later limit at later bs l h.3)

pub set_bucket-IsCurrent :
    (limit : ApiLimit) (at tokens : ℕ) (key : Text) (bs : Buckets)
    → tokens ≤ limit.capacity
    → IsCurrent limit at bs
    → IsCurrent limit at (set_bucket key (record { tokens = tokens; updated_at = at }) bs)
unfolding IsCurrent set_bucket find_bucket
set_bucket-IsCurrent limit at tokens key [] l h = (l, omega arith, refl, tt)
set_bucket-IsCurrent limit at tokens key ((k, b) ∷ bs) l h = elim (Bool-cases (text_eq k key)) [
  | inl e ↦ rw e (l, omega arith, h.2, h.3)
  | inr e ↦
      let new : Bucket = record { tokens = tokens; updated_at = at } in
      let other : text_eq key k ≡ false = text_eq_sym key k ∙ e in
      rw e (
        h.0,
        h.1,
        find-set key k new bs ∙ ground (arith, h.2),
        set_bucket-IsCurrent limit at tokens key bs l h.3,
      )
]

some-none {ℓ} : {A : Type ℓ} {a : A} → some a ≢ none
some-none e = cc

new_full : (limit : ApiLimit) (at : ℕ) → tokens_at limit at none ≡ limit.capacity
unfolding tokens_at
new_full limit at = refl

prune-none :
    (at after : ℕ) (key : Text) (bs : Buckets)
    → find_bucket key bs ≡ none
    → find_bucket key (prune at after bs) ≡ none
unfolding find_bucket prune
prune-none at after key [] h = refl
prune-none at after key ((k, b) ∷ bs) h = elim (Bool-cases (text_eq k key)) [
  | inl e ↦ absurd (some-none (rw e at h))
  | inr e ↦
      let rest = prune-none at after key bs (rw e at h) in
      elim (Bool-cases (ltb after (at - b.updated_at))) [
        | inl f ↦ rw f rest
        | inr f ↦ rw (f, e) rest
      ]
]

pub prune-IsCurrent :
    (limit : ApiLimit) (at after : ℕ) (bs : Buckets)
    → IsCurrent limit at bs
    → IsCurrent limit at (prune at after bs)
unfolding IsCurrent prune
prune-IsCurrent limit at after [] h = tt
prune-IsCurrent limit at after ((k, b) ∷ bs) h =
    let rest = prune-IsCurrent limit at after bs h.3 in
    elim (Bool-cases (ltb after (at - b.updated_at))) [
      | inl f ↦ rw f rest
      | inr f ↦ rw f (h.0, h.1, prune-none at after k bs h.2, rest)
    ]

-- A bucket that is old enough to be forgotten is full again.
forgotten-full :
    (limit : ApiLimit) (at later : ℕ) (b : Bucket)
    → limit.capacity ≤ limit.prune_after_ms * limit.per_ms
    → at ≤ later
    → ltb limit.prune_after_ms (at - b.updated_at) ≡ true
    → tokens_at limit later (some b) ≡ limit.capacity
unfolding tokens_at
forgotten-full limit at later b c l f =
    let old : limit.prune_after_ms ≤ later - b.updated_at = ground arith in
    let past : ltb b.updated_at later ≡ true = ground arith in
    let more = mul-le-mul_right limit.per_ms old in rw past (omega (arith, more, c))

-- Forgetting a bucket that is full again changes nothing.
pub prune-unseen :
    (limit : ApiLimit) (at later : ℕ) (key : Text) (bs : Buckets)
    → limit.capacity ≤ limit.prune_after_ms * limit.per_ms
    → at ≤ later
    → IsCurrent limit at bs
    → tokens_at limit later (find_bucket key (prune at limit.prune_after_ms bs))
      ≡ tokens_at limit later (find_bucket key bs)
unfolding IsCurrent prune find_bucket
prune-unseen limit at later key [] c l h = refl
prune-unseen limit at later key ((k, b) ∷ bs) c l h =
    let rest = prune-unseen limit at later key bs c l h.3 in
    elim (Bool-cases (ltb limit.prune_after_ms (at - b.updated_at))) [
      | inr f ↦ elim (Bool-cases (text_eq k key)) [
        | inl e ↦ rw (f, e) refl
        | inr e ↦ rw (f, e) rest
      ]
      | inl f ↦ elim (Bool-cases (text_eq k key)) [
        | inr e ↦ rw (f, e) rest
        | inl e ↦
            let gone : find_bucket key (prune at limit.prune_after_ms bs) ≡ none =
              subst (λ x. find_bucket x (prune at limit.prune_after_ms bs) ≡ none)
                (text_eq-eq k key e) (prune-none at limit.prune_after_ms k bs h.2) in
            rw (f, e, gone) (new_full limit later ∙ sym (forgotten-full limit at later b c l f))
      ]
    ]
