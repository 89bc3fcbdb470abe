-- ===== src/Arbitrage/Generate/Fitting.antt =====
-- The best prices that the loop of bestPricePerSelection of candidates.ts keeps.
use void.Base.{
  ◌≡◌, ◌≢◌, inl, inr, refl, ap, ◌∙◌, sym, subst, true, false, Option, none, some, List, ◌∷◌, arith,
  if◌then◌else◌, In, here, there, In-cons, Bool-cases,
}
use void.Base.Ratio.{lt_ratio, IsProper, AtMost, AtMost-trans}
use void.Arbitrage.Candidate.{PricedSelection}
use void.Arbitrage.Generate.{TextMap, leg_key, lookup, better_than, improve}
use void.Text.{Text, text_eq}
use void.Text.Equality.{text_eq-eq, text_eq_refl}
use void.Arbitrage.Generate.Keyed.{KeysApart, lookup-put, put-KeysApart}

improve-KeysApart :
    (e : PricedSelection) (m : TextMap PricedSelection) → KeysApart m → KeysApart (improve e m)
unfolding improve
improve-KeysApart e m h = elim (Bool-cases (better_than e (lookup (leg_key e) m))) [
  | inl t ↦ rw t (put-KeysApart (leg_key e) e m h)
  | inr t ↦ rw t h
]

apart : (a b : Text) → text_eq a b ≡ false → a ≢ b
apart a b e q =
    let same : text_eq a b ≡ true = subst (λ x. text_eq a x ≡ true) q (text_eq_refl a) in
    absurd (ground arith)

-- What a map holds under a key, when the entries of `done` were tried: one that pays the most, or
-- nothing if no entry has the key.
unfoldable pub Fits : List PricedSelection → Text → Option PricedSelection → Type 0
Fits done k none = (e : PricedSelection) → In e done → leg_key e ≢ k
Fits done k (some b) =
    In b done
    × (leg_key b ≡ k)
    × ((e : PricedSelection) → In e done → leg_key e ≡ k → AtMost e.odds b.odds)

abbrev pub Best : List PricedSelection → TextMap PricedSelection → Type 0
Best done m = KeysApart m × ((k : Text) → Fits done k (lookup k m))

-- A key other than that of a new entry.
Fits-other :
    (e : PricedSelection) (done : List PricedSelection) (k : Text) (o : Option PricedSelection)
    → leg_key e ≢ k
    → Fits done k o
    → Fits (e ∷ done) k o
unfolding Fits
Fits-other e done k none n h =
    λ f i. elim (In-cons i) [ inl q ↦ λ x. n (sym (ap leg_key q) ∙ x) | inr j ↦ h f j ]
Fits-other e done k (some b) n h = (
  there h.0,
  h.1,
  λ f i x. elim (In-cons i) [ inl q ↦ absurd (n (sym (ap leg_key q) ∙ x)) | inr j ↦ h.2 f j x ],
)

-- The key of a new entry, with what was there.
abbrev after : PricedSelection → Option PricedSelection → Option PricedSelection
after e o = if better_than e o then some e else o

Fits-own :
    (e : PricedSelection) (done : List PricedSelection) (o : Option PricedSelection)
    → ((f : PricedSelection) → In f (e ∷ done) → IsProper f.odds)
    → Fits done (leg_key e) o
    → Fits (e ∷ done) (leg_key e) (after e o)
unfolding Fits
Fits-own e done none p h = (
  here,
  refl,
  λ f i x. elim (In-cons i) [
    | inl q ↦ subst (λ y. AtMost f.odds y.odds) q (omega arith)
    | inr j ↦ absurd (h f j x)
  ],
)
Fits-own e done (some b) p h = elim (Bool-cases (lt_ratio b.odds e.odds)) [
  | inl t ↦ rw t (
    here,
    refl,
    (λ f i x. elim (In-cons i) [
      | inl q ↦ subst (λ y. AtMost f.odds y.odds) q (omega arith)
      | inr j ↦ AtMost-trans f.odds b.odds e.odds (p b (there h.0)) (h.2 f j x) (ground arith)
    ]),
  )
  | inr t ↦ rw t (
    there h.0,
    h.1,
    (λ f i x. elim (In-cons i) [
      | inl q ↦ subst (λ y. AtMost y.odds b.odds) (sym q) (ground arith)
      | inr j ↦ h.2 f j x
    ]),
  )
]

lookup-improve :
    (e : PricedSelection) (m : TextMap PricedSelection) (k : Text)
    → lookup k (improve e m)
      ≡ (if text_eq (leg_key e) k then after e (lookup (leg_key e) m) else lookup k m)
unfolding improve
lookup-improve e m k = elim (Bool-cases (better_than e (lookup (leg_key e) m))) [
  | inl t ↦ rw t (lookup-put k (leg_key e) e m)
  | inr t ↦ rw t (elim (Bool-cases (text_eq (leg_key e) k)) [
    | inl u ↦ rw (u, text_eq-eq (leg_key e) k u) refl
    | inr u ↦ rw u refl
  ])
]

pub improve-Best :
    (e : PricedSelection) (done : List PricedSelection) (m : TextMap PricedSelection)
    → ((f : PricedSelection) → In f (e ∷ done) → IsProper f.odds)
    → Best done m
    → Best (e ∷ done) (improve e m)
improve-Best e done m p h = (
  improve-KeysApart e m h.0,
  λ k. elim (Bool-cases (text_eq (leg_key e) k)) [
    | inl u ↦
        let same = text_eq-eq (leg_key e) k u in
        rw (lookup-improve e m k, u)
          (subst (λ x. Fits (e ∷ done) x (after e (lookup (leg_key e) m))) same
            (Fits-own e done (lookup (leg_key e) m) p (h.1 (leg_key e))))
    | inr u ↦
        rw (lookup-improve e m k, u)
          (Fits-other e done k (lookup k m) (apart (leg_key e) k u) (h.1 k))
  ],
)
