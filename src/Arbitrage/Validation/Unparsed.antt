-- ===== src/Arbitrage/Validation/Unparsed.antt =====
-- Legs whose `sourceUpdatedAt` is there and does not parse.
use void.Base.{
  ℕ, ◌≤◌, ◌<◌, ◌≡◌, refl, ap, ◌∙◌, Bool, false, ◌&&◌, not, some, List, [], ◌∷◌, length, every,
  arith, In, here, there, ◌==◌,
}
use void.Arbitrage.Validation.{is_verified, validate_candidate}
use void.Arbitrage.Checks.{evaluate_cross_source, stamps_of, attestable, cross_of, not_evaluable}
use void.Arbitrage.Candidate.{
  PricedSelection, CandidateScan, RecheckedPrice, ValidationOptions, limits_of,
}
use void.Domain.Stamp.{unparsed}
use void.Arbitrage.Validation.Gates.{is_arb, same_price, fetched, in_time, trusted, is_spread}
use void.Arbitrage.Validation.Verified.{validate_candidate-verified}

stamps_of-length : (legs : List PricedSelection) → length (stamps_of legs) ≤ length legs
unfolding stamps_of
stamps_of-length [] = omega arith
stamps_of-length (l ∷ ls) = ground (arith, stamps_of-length ls)

stamps_of-shorter :
    (legs : List PricedSelection) {l : PricedSelection}
    → In l legs
    → l.source_updated_at ≡ some unparsed
    → length (stamps_of legs) < length legs
unfolding stamps_of
stamps_of-shorter [] i e = elim i [ ]
stamps_of-shorter (l ∷ ls) here e = rw e (ground (arith, stamps_of-length ls))
stamps_of-shorter (x ∷ ls) (there i) e = ground (arith, stamps_of-shorter ls i e)

lt-neq : (a b : ℕ) → a < b → (a == b) ≡ false
lt-neq a b h = ground arith

and_unspread :
    (a b c d e f s : Bool)
    → s ≡ false
    → (a && b && c && d && e && f && not s) ≡ (a && b && c && d && e && f)
and_unspread a b c d e f s h = ground arith

cross_of-short :
    (stamps : List ℕ) (n limit : ℕ) → length stamps < n → cross_of stamps n limit ≡ not_evaluable
unfolding cross_of
cross_of-short [] n limit h = refl
cross_of-short (a ∷ as') n limit h = rw (lt-neq (length (a ∷ as')) n h) refl

not_evaluable-unparsed :
    (legs : List PricedSelection) (limit : ℕ) {l : PricedSelection}
    → In l legs
    → l.source_updated_at ≡ some unparsed
    → evaluate_cross_source legs limit ≡ not_evaluable
unfolding evaluate_cross_source
not_evaluable-unparsed legs limit i e =
    cross_of-short (stamps_of legs) (length legs) limit (stamps_of-shorter legs i e)

not_evaluable-pass : not_evaluable.pass ≡ false
unfolding not_evaluable
not_evaluable-pass = refl

not_evaluable-unspread : (not_evaluable.evaluable && not not_evaluable.pass) ≡ false
unfolding not_evaluable
not_evaluable-unspread = refl

-- With a leg whose timestamp does not parse the report says that the cross-source gate is not passed,
-- and yet the candidate is verified if it passes the other gates.
pub validate_candidate-unparsed :
    (scan : CandidateScan) (legs : List PricedSelection) (options : ValidationOptions) (now : ℕ)
    (prices : List RecheckedPrice) {l : PricedSelection}
    → In l legs
    → l.source_updated_at ≡ some unparsed
    → let r = validate_candidate scan legs options now (some prices) in
      let limits = limits_of options in
      (r.cross_source.pass ≡ false)
      × (is_verified r.status ≡ (
          is_arb scan.status
          && every (same_price limits.tolerance prices) legs
          && every (fetched prices) legs
          && every attestable legs
          && every (in_time limits now) legs
          && every (trusted limits) legs))
unfolding validate_candidate
validate_candidate-unparsed scan legs options now prices i e =
    let limits = limits_of options in
    let none_there = not_evaluable-unparsed legs limits.max_source_spread_ms i e in
    (
      ap (λ c. c.pass) none_there ∙ not_evaluable-pass,
      validate_candidate-verified scan legs options now (some prices)
          ∙ and_unspread (is_arb scan.status) (every (same_price limits.tolerance prices) legs)
              (every (fetched prices) legs) (every attestable legs)
              (every (in_time limits now) legs) (every (trusted limits) legs)
              (is_spread legs limits)
              (ap (λ c. c.evaluable && not c.pass) none_there ∙ not_evaluable-unspread),
    )
