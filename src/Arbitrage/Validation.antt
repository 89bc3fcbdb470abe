-- ===== src/Arbitrage/Validation.antt =====
-- packages/arbitrage/src/validation.ts: the failures and the decision of validateCandidate. The prose
-- `detail` of a failure is left out.
pub mod Gates
pub mod Verified
pub mod Unparsed
use void.Base.{
  ℕ, suc, ◌+◌, ◌-◌, ◌*◌, Bool, true, false, ◌&&◌, ◌||◌, not, Option, none, some, List, [], ◌∷◌,
  ◌++◌, map, if◌then◌else◌, ◌==◌, leb, ltb, min, max, length, any, every,
}
use void.Base.Ratio.{Ratio, lt_ratio}
use void.Domain.Freshness.{
  ScoreFreshness, FreshnessPolicy, classify_freshness, default_freshness_policy,
}
use void.Domain.Stamp.{Stamp, parsed, unparsed}
use void.Domain.Values.{RejectionReason, OpportunityStatus}
use void.Arbitrage.Report.{CoverageReport, FalseArbVerdict}
use void.Arbitrage.Stakes.{StakePlan}
use void.Text.{Text, text_eq}
use void.Arbitrage.Candidate.{
  CandidateScan, CrossSourceConsistency, LegValidation, Limits, PricedSelection, PruneReason,
  PruneVerdict, RecheckChange, RecheckResult, RecheckStatus, RecheckedPrice, ScanStatus,
  SourceStatus, ValidationFailure, ValidationOptions, ValidationReport, arb, candidate_size,
  changed, degraded, down, duplicate_selection, event_mismatch, event_uncertain,
  incompatible_market, invalid_odds, limits_of, no_arb, not_run, ok, or_default, period_mismatch,
  price_prefilter, pruned, ratio, rejected, same_bookmaker, stale_odds, suspended, unchanged,
  unknown,
}
use void.Arbitrage.Checks.{
  attestable, build_leg_validation, change_of, changes, compare_rechecked_prices, cross_of,
  current_of, evaluate_cross_source, is_there, maximum, minimum, moved, not_evaluable, observed_age,
  on_some, parsed_stamp, price_age, reaches, recheck_not_run, relative_delta, stamps_of, usable,
  within,
}

abbrev failure : RejectionReason → List Text → ValidationFailure
failure reason ids = record { reason = reason; leg_ids = some ids; count = none }

-- `=== false` and `=== true` of a result that may be null.
abbrev pub is_false : Option Bool → Bool
is_false (some false) = true
is_false _ = false

abbrev pub is_true : Option Bool → Bool
is_true (some true) = true
is_true _ = false

abbrev when : Bool → ValidationFailure → List ValidationFailure
when true f = f ∷ []
when false f = []

unfoldable pub leg_failures : LegValidation → List ValidationFailure
leg_failures v =
    when (is_false v.event_confidence_pass)
      (failure RejectionReason.event_match_uncertain (v.leg_id ∷ []))
    ++ when (is_false v.settlement_confidence_pass)
        (failure RejectionReason.settlement_confidence_low (v.leg_id ∷ []))
    ++ when (is_false v.source_pass) (failure RejectionReason.provider_unavailable (v.leg_id ∷ []))

unfoldable pub each_failure : List LegValidation → List ValidationFailure
unfolding leg_failures
each_failure [] = []
each_failure (v ∷ vs) = leg_failures v ++ each_failure vs

abbrev pub ids_of : List PricedSelection → List Text
ids_of = map λ l. l.id

unfoldable pub collect_failures :
    List PricedSelection → List LegValidation → CrossSourceConsistency → List ValidationFailure
unfolding each_failure
collect_failures legs validations cross =
    each_failure validations
    ++ when (cross.evaluable && not cross.pass)
        (failure RejectionReason.cross_source_timestamp_spread (ids_of legs))

unfoldable pub map_prune_reason : PruneReason → RejectionReason
map_prune_reason candidate_size = RejectionReason.invalid_market
map_prune_reason event_mismatch = RejectionReason.event_mismatch
map_prune_reason period_mismatch = RejectionReason.period_mismatch
map_prune_reason duplicate_selection = RejectionReason.invalid_market
map_prune_reason invalid_odds = RejectionReason.invalid_odds
map_prune_reason suspended = RejectionReason.invalid_market
map_prune_reason stale_odds = RejectionReason.stale_odds
map_prune_reason same_bookmaker = RejectionReason.stake_limit
map_prune_reason event_uncertain = RejectionReason.event_match_uncertain
map_prune_reason incompatible_market = RejectionReason.unsupported_market
map_prune_reason price_prefilter = RejectionReason.negative_guaranteed_profit

-- The failures that a coverage verdict and a pruning verdict turn into.
verdict_failure : FalseArbVerdict → ValidationFailure
verdict_failure v = record {
  reason = v.reason;
  leg_ids = v.evidence.leg_ids;
  count = v.evidence.count;
}

prune_failure : PruneVerdict → ValidationFailure
unfolding map_prune_reason
prune_failure v = record { reason = map_prune_reason v.reason; leg_ids = v.leg_ids; count = none }

plain_failure : RejectionReason → ValidationFailure
plain_failure reason = record { reason = reason; leg_ids = none; count = none }

coverage_failures : Option CoverageReport → List ValidationFailure
unfolding verdict_failure
coverage_failures none = []
coverage_failures (some report) = map verdict_failure report.rejections

plan_failures : Option StakePlan → List ValidationFailure
unfolding plain_failure
plan_failures none = []
plan_failures (some plan) = plain_failure RejectionReason.negative_guaranteed_profit ∷ []

-- The reasons that a scan is no ARB.
unfoldable pub scan_failures : CandidateScan → ScanStatus → List ValidationFailure
unfolding coverage_failures plan_failures prune_failure
scan_failures scan arb = []
scan_failures scan no_arb = plan_failures scan.plan
scan_failures scan rejected = coverage_failures scan.coverage
scan_failures scan pruned = map prune_failure scan.verdicts

-- `plan?.isArb === true`
plan_is_arb : Option StakePlan → Bool
plan_is_arb none = false
plan_is_arb (some plan) = plan.is_arb

-- A status with its rejections.
abbrev pub Verdict : Type 0
Verdict = OpportunityStatus × List ValidationFailure

changed_failures : List RecheckChange → List ValidationFailure
changed_failures [] = []
changed_failures (c ∷ cs) =
    failure RejectionReason.price_changed_on_recheck (c.leg_id ∷ []) ∷ changed_failures cs

missing_provenance : List PricedSelection → List Text
unfolding attestable
missing_provenance [] = []
missing_provenance (l ∷ ls) =
    let rest = missing_provenance ls in if attestable l then rest else l.id ∷ rest

stale_failures : List LegValidation → List ValidationFailure
stale_failures [] = []
stale_failures (v ∷ vs) =
    let rest = stale_failures vs in
    if v.price_age_pass then rest else failure RejectionReason.stale_odds (v.leg_id ∷ []) ∷ rest

ran : RecheckStatus → OpportunityStatus
ran unchanged = OpportunityStatus.verified_arb
ran _ = OpportunityStatus.fresh_arb

-- The failures of a fresh candidate decide.
decide_failures : List ValidationFailure → RecheckStatus → Verdict
unfolding ran
decide_failures [] status = (ran status, [])
decide_failures (f ∷ fs) status = (OpportunityStatus.rejected, f ∷ fs)

decide_fresh :
    List PricedSelection → List LegValidation → CrossSourceConsistency → RecheckStatus → Verdict
unfolding decide_failures collect_failures stale_failures
decide_fresh legs validations cross status =
    if any (λ v. not v.price_age_pass) validations
    then (OpportunityStatus.stale, stale_failures validations)
    else decide_failures (collect_failures legs validations cross) status

decide_provenance :
    List PricedSelection → List LegValidation → CrossSourceConsistency → RecheckStatus → Verdict
unfolding decide_fresh missing_provenance attestable
decide_provenance legs validations cross status =
    if every attestable legs then decide_fresh legs validations cross status else (
      OpportunityStatus.theoretical_arb,
      failure RejectionReason.insufficient_provenance (missing_provenance legs) ∷ [],
    )

-- The decision for a scan that found an ARB.
decide_arb :
    List PricedSelection
    → List LegValidation
    → CrossSourceConsistency
    → RecheckResult
    → RecheckStatus
    → Verdict
unfolding decide_provenance changed_failures plain_failure
decide_arb legs validations cross recheck changed =
    (OpportunityStatus.invalidated, changed_failures recheck.changed)
decide_arb legs validations cross recheck not_run = decide_provenance legs validations cross not_run
decide_arb legs validations cross recheck unchanged =
    if recheck.covering
    then decide_provenance legs validations cross unchanged
    else (OpportunityStatus.invalidated, plain_failure RejectionReason.provider_unavailable ∷ [])

decide_scan :
    CandidateScan
    → ScanStatus
    → List PricedSelection
    → List LegValidation
    → CrossSourceConsistency
    → RecheckResult
    → Verdict
unfolding decide_arb scan_failures
decide_scan scan arb legs validations cross recheck =
    decide_arb legs validations cross recheck recheck.status
decide_scan scan status legs validations cross recheck =
    (OpportunityStatus.rejected, scan_failures scan status)

recheck_of : List PricedSelection → Option (List RecheckedPrice) → Ratio → RecheckResult
unfolding compare_rechecked_prices recheck_not_run
recheck_of legs none tolerance = recheck_not_run
recheck_of legs (some prices) tolerance = compare_rechecked_prices legs prices tolerance

abbrev pub is_verified : OpportunityStatus → Bool
is_verified OpportunityStatus.verified_arb = true
is_verified _ = false

unfoldable pub validate_candidate :
    CandidateScan
    → List PricedSelection
    → ValidationOptions
    → ℕ
    → Option (List RecheckedPrice)
    → ValidationReport
unfolding limits_of build_leg_validation evaluate_cross_source recheck_of decide_scan attestable
    plan_is_arb
validate_candidate scan legs options now prices =
    let limits = limits_of options in
    let validations = map (build_leg_validation limits now) legs in
    let cross = evaluate_cross_source legs limits.max_source_spread_ms in
    let recheck = recheck_of legs prices limits.tolerance in
    let verdict = decide_scan scan scan.status legs validations cross recheck in
    record {
      status = verdict.0;
      legs = validations;
      has_validation_input = every attestable legs;
      theoretical = plan_is_arb scan.plan;
      verified = is_verified verdict.0;
      freshness_pass = every (λ v. v.price_age_pass) validations;
      sources_pass = every (λ v. is_true v.source_pass) validations;
      event_confidence_pass = every (λ v. is_true v.event_confidence_pass) validations;
      settlement_confidence_pass = every (λ v. is_true v.settlement_confidence_pass) validations;
      cross_source = cross;
      recheck = recheck;
      rejections = verdict.1;
    }
