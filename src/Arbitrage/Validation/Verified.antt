-- ===== src/Arbitrage/Validation/Verified.antt =====
-- When `validateCandidate` reports VERIFIED_ARB, and that every other verdict on an ARB scan has a
-- reason.
use void.Base.{
  ℕ, ◌≡◌, refl, ap, ◌∙◌, Bool, true, false, ◌&&◌, not, Option, none, some, List, [], ◌∷◌, map,
  if◌then◌else◌, ltb, length, any, every, arith, Bool-cases, inl, inr,
}
use void.Domain.Values.{OpportunityStatus}
use void.Arbitrage.Validation.{
  Verdict, is_verified, decide_failures, decide_fresh, decide_provenance, decide_arb, decide_scan,
  stale_failures, changed_failures, recheck_of, ran, validate_candidate, collect_failures,
  each_failure,
}
use void.Arbitrage.Checks.{
  attestable, recheck_not_run, compare_rechecked_prices, build_leg_validation,
  evaluate_cross_source, changes,
}
use void.Arbitrage.Candidate.{
  PricedSelection, CandidateScan, ScanStatus, Limits, RecheckedPrice, RecheckStatus, RecheckResult,
  LegValidation, ValidationFailure, ValidationOptions, CrossSourceConsistency, RecheckChange, arb,
  unchanged, changed, not_run, limits_of,
}
use void.Arbitrage.Validation.Gates.{
  gates, is_arb, is_empty, is_empty-append, any-not, every-map, changes-empty, each_failure-empty,
  same_price, in_time, trusted, is_spread,
}

abbrev verifies : Verdict → Bool
verifies v = is_verified v.0

abbrev has_run : RecheckStatus → Bool
has_run unchanged = true
has_run _ = false

decide_failures-verifies :
    (fs : List ValidationFailure) (s : RecheckStatus)
    → verifies (decide_failures fs s) ≡ (is_empty fs && has_run s)
unfolding decide_failures ran
decide_failures-verifies [] s = ground arith
decide_failures-verifies (f ∷ fs) s = refl

if-verifies :
    (b : Bool) (v : Verdict) (o : Verdict)
    → verifies o ≡ false
    → verifies (if b then v else o) ≡ (b && verifies v)
if-verifies true v o e = refl
if-verifies false v o e = e

has_run-none :
    (cs : List RecheckChange)
    → has_run (if ltb 0 (length cs) then changed else unchanged) ≡ is_empty cs
has_run-none [] = refl
has_run-none (c ∷ cs) = ground arith

module _ (limits : Limits) (now : ℕ) (legs : List PricedSelection) where
  abbrev validations : List LegValidation
  validations = map (build_leg_validation limits now) legs

  abbrev cross : CrossSourceConsistency
  cross = evaluate_cross_source legs limits.max_source_spread_ms

  collect_failures-empty :
      every attestable legs ≡ true
      → is_empty (collect_failures legs validations cross)
        ≡ (every (trusted limits) legs && not (is_spread legs limits))
  unfolding collect_failures
  collect_failures-empty a =
      is_empty-append (each_failure validations) _
      ∙ rw (each_failure-empty limits now legs a) (ground arith)

  decide_fresh-verifies :
      (s : RecheckStatus)
      → every attestable legs ≡ true
      → verifies (decide_fresh legs validations cross s) ≡ (
          every (in_time limits now) legs
          && every (trusted limits) legs
          && not (is_spread legs limits)
          && has_run s)
  unfolding decide_fresh build_leg_validation
  decide_fresh-verifies s a =
      let age =
        any-not (λ v. v.price_age_pass) validations
        ∙ ap not (every-map (build_leg_validation limits now) (λ v. v.price_age_pass) legs) in
      let rest =
        decide_failures-verifies (collect_failures legs validations cross) s
        ∙ ap (λ b. b && has_run s) (collect_failures-empty a) in
      elim (Bool-cases (every (in_time limits now) legs)) [
        | inl e ↦ rw (age, e) (rest ∙ ground arith)
        | inr e ↦ rw (age, e) refl
      ]

  decide_provenance-verifies :
      (s : RecheckStatus)
      → verifies (decide_provenance legs validations cross s) ≡ (
          every attestable legs
          && every (in_time limits now) legs
          && every (trusted limits) legs
          && not (is_spread legs limits)
          && has_run s)
  unfolding decide_provenance
  decide_provenance-verifies s = elim (Bool-cases (every attestable legs)) [
    | inl e ↦ rw e (decide_fresh-verifies s e)
    | inr e ↦ rw e refl
  ]

  decide_arb-verifies :
      (r : RecheckResult) (s : RecheckStatus)
      → verifies (decide_arb legs validations cross r s) ≡ (
          has_run s
          && r.covering
          && every attestable legs
          && every (in_time limits now) legs
          && every (trusted limits) legs
          && not (is_spread legs limits))
  unfolding decide_arb
  decide_arb-verifies r changed = refl
  decide_arb-verifies r not_run = decide_provenance-verifies not_run ∙ ground arith
  decide_arb-verifies r unchanged = elim (Bool-cases r.covering) [
    | inl e ↦ rw e (decide_provenance-verifies unchanged ∙ ground arith)
    | inr e ↦ rw e refl
  ]

  decide_scan-verifies :
      (scan : CandidateScan) (s : ScanStatus) (r : RecheckResult)
      → verifies (decide_scan scan s legs validations cross r) ≡ (
          is_arb s
          && has_run r.status
          && r.covering
          && every attestable legs
          && every (in_time limits now) legs
          && every (trusted limits) legs
          && not (is_spread legs limits))
  unfolding decide_scan
  decide_scan-verifies scan arb r = decide_arb-verifies r r.status
  decide_scan-verifies scan _ r = refl

  recheck-status :
      (prices : List RecheckedPrice)
      → has_run (compare_rechecked_prices legs prices limits.tolerance).status
        ≡ every (same_price limits.tolerance prices) legs
  unfolding compare_rechecked_prices
  recheck-status prices =
      has_run-none (changes limits.tolerance prices legs)
      ∙ changes-empty limits.tolerance prices legs

  gates-hold :
      (scan : CandidateScan) (prices : Option (List RecheckedPrice))
      → verifies (
          decide_scan scan scan.status legs validations cross
            (recheck_of legs prices limits.tolerance))
        ≡ gates scan legs limits now prices
  unfolding recheck_of recheck_not_run compare_rechecked_prices
  gates-hold scan none = decide_scan-verifies scan scan.status _ ∙ ground arith
  gates-hold scan (some prices) =
      decide_scan-verifies scan scan.status (compare_rechecked_prices legs prices limits.tolerance)
      ∙ rw (recheck-status prices) refl

-- A candidate is reported as verified exactly if it passes the gates: the scan found an ARB, a final
-- recheck gave every leg a price that did not move, every leg is attested, within the age horizon
-- and trusted, and the source timestamps, where all of them parse, are close to each other.
pub validate_candidate-verified :
    (scan : CandidateScan) (legs : List PricedSelection) (options : ValidationOptions) (now : ℕ)
    (prices : Option (List RecheckedPrice))
    → is_verified (validate_candidate scan legs options now prices).status
      ≡ gates scan legs (limits_of options) now prices
unfolding validate_candidate
validate_candidate-verified scan legs options now prices =
    gates-hold (limits_of options) now legs scan prices

-- Statuses that a candidate may be shown with.
abbrev pub is_ready : OpportunityStatus → Bool
is_ready OpportunityStatus.verified_arb = true
is_ready OpportunityStatus.fresh_arb = true
is_ready _ = false

-- There is a reason exactly if the status is no ready one.
abbrev Explained : Verdict → Type 0
Explained v = is_empty v.1 ≡ is_ready v.0

decide_failures-Explained :
    (fs : List ValidationFailure) (s : RecheckStatus) → Explained (decide_failures fs s)
unfolding decide_failures ran
decide_failures-Explained [] s = ground arith
decide_failures-Explained (f ∷ fs) s = refl

stale_failures-some :
    (vs : List LegValidation)
    → any (λ v. not v.price_age_pass) vs ≡ true
    → is_empty (stale_failures vs) ≡ false
unfolding stale_failures
stale_failures-some [] e = absurd (ground arith)
stale_failures-some (v ∷ vs) e = elim (Bool-cases v.price_age_pass) [
  | inl t ↦ rw t (stale_failures-some vs (rw t at e))
  | inr t ↦ rw t refl
]

module _ (limits : Limits) (legs : List PricedSelection) (vs : List LegValidation)
    (c : CrossSourceConsistency) where
  decide_provenance-Explained : (s : RecheckStatus) → Explained (decide_provenance legs vs c s)
  unfolding decide_provenance decide_fresh
  decide_provenance-Explained s = elim (Bool-cases (every attestable legs)) [
    | inr e ↦ rw e refl
    | inl e ↦ elim (Bool-cases (any (λ v. not v.price_age_pass) vs)) [
      | inl t ↦ rw (e, t) (stale_failures-some vs t)
      | inr t ↦ rw (e, t) (decide_failures-Explained (collect_failures legs vs c) s)
    ]
  ]

  -- A recheck that reports a change has one.
  abbrev HasChange : RecheckResult → Type 0
  HasChange r = r.status ≡ changed → is_empty r.changed ≡ false

  changed_failures-empty : (cs : List RecheckChange) → is_empty (changed_failures cs) ≡ is_empty cs
  unfolding changed_failures
  changed_failures-empty [] = refl
  changed_failures-empty (x ∷ cs) = refl

  decide_arb-Explained :
      (r : RecheckResult) (s : RecheckStatus)
      → r.status ≡ s
      → HasChange r
      → Explained (decide_arb legs vs c r s)
  unfolding decide_arb
  decide_arb-Explained r changed q h = changed_failures-empty r.changed ∙ h q
  decide_arb-Explained r not_run q h = decide_provenance-Explained not_run
  decide_arb-Explained r unchanged q h = elim (Bool-cases r.covering) [
    | inl e ↦ rw e (decide_provenance-Explained unchanged)
    | inr e ↦ rw e refl
  ]

  some_change :
      (cs : List RecheckChange)
      → (if ltb 0 (length cs) then changed else unchanged) ≡ changed
      → is_empty cs ≡ false
  some_change [] e = ground arith
  some_change (x ∷ cs) e = refl

  recheck_of-HasChange :
      (prices : Option (List RecheckedPrice)) → HasChange (recheck_of legs prices limits.tolerance)
  unfolding recheck_of recheck_not_run compare_rechecked_prices
  recheck_of-HasChange none = λ e. cc
  recheck_of-HasChange (some ps) = some_change (changes limits.tolerance ps legs)

  decide_scan-Explained :
      (scan : CandidateScan) (s : ScanStatus) (prices : Option (List RecheckedPrice))
      → s ≡ arb
      → Explained (decide_scan scan s legs vs c (recheck_of legs prices limits.tolerance))
  unfolding decide_scan
  decide_scan-Explained scan s prices e = rw e (
      decide_arb-Explained (recheck_of legs prices limits.tolerance)
        (recheck_of legs prices limits.tolerance).status refl (recheck_of-HasChange prices))

-- For a scan that found an ARB, a report has no rejection exactly if its status is verified or fresh.
pub validate_candidate-explained :
    (scan : CandidateScan) (legs : List PricedSelection) (options : ValidationOptions) (now : ℕ)
    (prices : Option (List RecheckedPrice))
    → scan.status ≡ arb
    → let r = validate_candidate scan legs options now prices in
      is_empty r.rejections ≡ is_ready r.status
unfolding validate_candidate
validate_candidate-explained scan legs options now prices e =
    let limits = limits_of options in
    decide_scan-Explained limits legs (map (build_leg_validation limits now) legs)
      (evaluate_cross_source legs limits.max_source_spread_ms) scan scan.status prices e
