-- ===== src/Arbitrage/Validation/Gates.antt =====
-- The gates of `validateCandidate`, written as one test, and the empty lists of failures.
use void.Base.{
  ℕ, ◌≡◌, refl, ap, ◌∙◌, Bool, true, false, ◌&&◌, not, Option, none, some, List, [], ◌∷◌, ◌++◌, map,
  if◌then◌else◌, any, every, arith, Bool-cases, inl, inr,
}
use void.Base.Ratio.{Ratio}
use void.Arbitrage.Validation.{is_true, leg_failures, each_failure}
use void.Arbitrage.Checks.{
  attestable, within, price_age, reaches, usable, on_some, is_there, current_of, moved,
  evaluate_cross_source, build_leg_validation, changes, change_of,
}
use void.Arbitrage.Candidate.{
  PricedSelection, CandidateScan, ScanStatus, Limits, RecheckedPrice, RecheckChange, arb,
}

abbrev pub is_arb : ScanStatus → Bool
is_arb arb = true
is_arb _ = false

-- The gates of one leg: its price was fetched again and did not move, its provenance is attested, its
-- age is known and within the horizon, both confidences reach their floors, and its source is usable.
abbrev pub same_price : Ratio → List RecheckedPrice → PricedSelection → Bool
same_price tolerance prices l = not (moved tolerance l.odds (current_of l.id prices))

abbrev pub fetched : List RecheckedPrice → PricedSelection → Bool
fetched prices l = is_there (current_of l.id prices)

abbrev pub in_time : Limits → ℕ → PricedSelection → Bool
in_time limits now l = within limits.max_age_ms (price_age l now)

abbrev pub trusted : Limits → PricedSelection → Bool
trusted limits l =
    is_true (on_some (reaches limits.min_event_confidence) l.event_confidence)
    && is_true (on_some (reaches limits.min_settlement_confidence) l.settlement_confidence)
    && is_true (on_some usable l.source_status)

-- Timestamps that are all there and too far apart.
abbrev pub is_spread : List PricedSelection → Limits → Bool
is_spread legs limits =
    let cross = evaluate_cross_source legs limits.max_source_spread_ms in
    cross.evaluable && not cross.pass

abbrev pub gates :
    CandidateScan → List PricedSelection → Limits → ℕ → Option (List RecheckedPrice) → Bool
gates scan legs limits now none = false
gates scan legs limits now (some prices) =
    is_arb scan.status
    && every (same_price limits.tolerance prices) legs
    && every (fetched prices) legs
    && every attestable legs
    && every (in_time limits now) legs
    && every (trusted limits) legs
    && not (is_spread legs limits)

abbrev pub is_empty {ℓ} : {A : Type ℓ} → List A → Bool
is_empty [] = true
is_empty (x ∷ xs) = false

pub is_empty-append {ℓ} :
    {A : Type ℓ} (xs ys : List A) → is_empty (xs ++ ys) ≡ (is_empty xs && is_empty ys)
is_empty-append [] ys = refl
is_empty-append (x ∷ xs) ys = refl

pub any-not {ℓ} :
    {A : Type ℓ} (p : A → Bool) (xs : List A) → any (λ x. not (p x)) xs ≡ not (every p xs)
any-not p [] = refl
any-not p (x ∷ xs) = ground (arith, any-not p xs)

pub every-map {ℓ κ} :
    {A : Type ℓ} {B : Type κ} (f : A → B) (p : B → Bool) (xs : List A)
    → every p (map f xs) ≡ every (λ x. p (f x)) xs
every-map f p [] = refl
every-map f p (x ∷ xs) = ap (λ b. p (f x) && b) (every-map f p xs)

one_change :
    (tolerance : Ratio) (l : PricedSelection) (current : Option Ratio) (rest : List RecheckChange)
    → is_empty (if moved tolerance l.odds current then change_of l current ++ rest else rest)
      ≡ (not (moved tolerance l.odds current) && is_empty rest)
unfolding change_of moved
one_change tolerance l none rest = refl
one_change tolerance l (some c) rest = elim (Bool-cases (moved tolerance l.odds (some c))) [
  | inl e ↦ rw e refl
  | inr e ↦ rw e refl
]

-- No change is found exactly if no price moved.
pub changes-empty :
    (tolerance : Ratio) (prices : List RecheckedPrice) (legs : List PricedSelection)
    → is_empty (changes tolerance prices legs) ≡ every (same_price tolerance prices) legs
unfolding changes
changes-empty tolerance prices [] = refl
changes-empty tolerance prices (l ∷ ls) =
    one_change tolerance l (current_of l.id prices) (changes tolerance prices ls)
    ∙ ap (λ b. same_price tolerance prices l && b) (changes-empty tolerance prices ls)

-- The failures of an attested leg are none exactly if it is trusted.
leg_failures-empty :
    (limits : Limits) (now : ℕ) (l : PricedSelection)
    → attestable l ≡ true
    → is_empty (leg_failures (build_leg_validation limits now l)) ≡ trusted limits l
unfolding leg_failures build_leg_validation attestable
leg_failures-empty limits now l a = ground arith

pub each_failure-empty :
    (limits : Limits) (now : ℕ) (ls : List PricedSelection)
    → every attestable ls ≡ true
    → is_empty (each_failure (map (build_leg_validation limits now) ls)) ≡ every (trusted limits) ls
unfolding each_failure
each_failure-empty limits now [] a = refl
each_failure-empty limits now (l ∷ ls) a =
    is_empty-append (leg_failures (build_leg_validation limits now l)) _
    ∙ rw
        (
          leg_failures-empty limits now l (ground (arith, a)),
          each_failure-empty limits now ls (ground (arith, a)),
        )
        refl
