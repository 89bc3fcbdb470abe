-- ===== src/Worker/Detection.antt =====
-- runDetection of workers/odds-collector/src/detect.ts: the picks are scanned, and each ARB is validated
-- against its own prices and reported. A time is in milliseconds; `clock` is what `Date.now()`
-- returns. The store, the texts of an opportunity and its audit entry are left out.
pub mod Backed
use void.Base.{
  ℕ, ◌+◌, Bool, true, false, Option, none, some, List, [], ◌∷◌, map, if◌then◌else◌, leb, max,
  length, Result, ok, throws, ◌>>=◌,
}
use void.Base.Int.{ℤ, sub_ℕ}
use void.Base.Ratio.{Ratio, whole, mul, lt_ratio}
use void.Base.Rational.{Rational}
use void.Domain.Values.{OpportunityStatus, RejectionReason}
use void.Arbitrage.Candidate.{
  CandidateScan, LegValidation, PricedSelection, RecheckedPrice, RecheckStatus, ScanStatus,
  StructureType, ValidationFailure, ValidationOptions, ValidationReport, arb, limits_of, not_run,
  or_default,
}
use void.Arbitrage.Generate.{default_max_candidates}
use void.Arbitrage.Scan.{ScanOptions, scan_candidates}
use void.Arbitrage.Stakes.{OptimizationError, StakePlan}
use void.Arbitrage.Validation.{validate_candidate}
use void.Text.{Text}
use void.Worker.Detect.{best_price_per_generation_group}

pub record DetectionOptions : Type 0 where
  pub validation : ValidationOptions
  pub total_stake : Option Ratio
  pub now : Option ℕ
  pub max_candidates : Option ℕ

pub record OpportunityLeg : Type 0 where
  pub selection_id : Text
  pub odds_snapshot : Ratio
  pub stake : Option Ratio
  pub guaranteed_return : Ratio

-- The amounts of a plan are there together.
pub record Amounts : Type 0 where
  pub total_stake : Ratio
  pub min_return : Ratio
  pub guaranteed_profit : Rational
  pub roi : Rational

pub record Opportunity : Type 0 where
  pub event_id : Text
  pub status : OpportunityStatus
  pub rejection_reason : Option RejectionReason
  pub structure : StructureType
  pub amounts : Option Amounts
  pub detected_at : ℕ
  pub validated_at : Option ℕ
  pub expires_at : ℤ
  pub legs : List OpportunityLeg

pub record DetectionReport : Type 0 where
  pub priced : ℕ
  pub scans : ℕ
  pub capped : Bool
  pub arbs : ℕ
  pub opportunities : List Opportunity

abbrev opportunity_leg : PricedSelection → Ratio → OpportunityLeg
opportunity_leg leg stake = record {
  selection_id = leg.id;
  odds_snapshot = leg.odds;
  stake = if lt_ratio (whole 0) stake then some stake else none;
  guaranteed_return = mul stake leg.odds;
}

-- A leg without a stake stakes nothing.
unfoldable pub opportunity_legs : List PricedSelection → List Ratio → List OpportunityLeg
opportunity_legs [] stakes = []
opportunity_legs (l ∷ ls) [] = opportunity_leg l (whole 0) ∷ opportunity_legs ls []
opportunity_legs (l ∷ ls) (s ∷ ss) = opportunity_leg l s ∷ opportunity_legs ls ss

abbrev pub planned_legs : List PricedSelection → Option StakePlan → List OpportunityLeg
planned_legs legs none = []
planned_legs legs (some plan) = opportunity_legs legs plan.stakes

abbrev amounts_of : Option StakePlan → Option Amounts
amounts_of none = none
amounts_of (some plan) = some (record {
  total_stake = plan.total_stake;
  min_return = plan.min_return;
  guaranteed_profit = plan.guaranteed_profit;
  roi = plan.roi;
})

abbrev first_reason : List ValidationFailure → Option RejectionReason
first_reason [] = none
first_reason (f ∷ fs) = some f.reason

-- `oldestAgeMs ?? 0`: the largest of the ages that are known.
unfoldable oldest_age : List LegValidation → ℕ
oldest_age [] = 0
oldest_age (v ∷ vs) = max (or_default v.age_ms 0) (oldest_age vs)

abbrev validated : RecheckStatus → ℕ → Option ℕ
validated not_run now = none
validated _ now = some now

-- The recheck is against the prices of the legs themselves.
abbrev pub own_prices : List PricedSelection → List RecheckedPrice
own_prices = map λ l. record { leg_id = l.id; rechecked_odds = l.odds }

abbrev pub validation_of : CandidateScan → ValidationOptions → ℕ → ValidationReport
validation_of scan options now =
    validate_candidate scan scan.candidate.legs options now (some (own_prices scan.candidate.legs))

unfoldable pub to_opportunity : CandidateScan → ValidationOptions → ℕ → Opportunity
unfolding validate_candidate opportunity_legs oldest_age limits_of
to_opportunity scan options now =
    let report = validation_of scan options now in
    record {
      event_id = scan.candidate.event_id;
      status = report.status;
      rejection_reason = first_reason report.rejections;
      structure = scan.candidate.structure;
      amounts = amounts_of scan.plan;
      detected_at = now;
      validated_at = validated report.recheck.status now;
      expires_at = sub_ℕ (now + (limits_of options).max_age_ms) (oldest_age report.legs);
      legs = planned_legs scan.candidate.legs scan.plan;
    }

abbrev pub marked_arb : ScanStatus → Bool
marked_arb arb = true
marked_arb _ = false

unfoldable pub arbs_of : List CandidateScan → List CandidateScan
arbs_of [] = []
arbs_of (s ∷ ss) = let rest = arbs_of ss in if marked_arb s.status then s ∷ rest else rest

-- The stake of the options is not among those of the scan.
abbrev pub scan_options : DetectionOptions → ℕ → ScanOptions
scan_options options now = record {
  generator = record {
    event_id = none;
    min_legs = none;
    max_legs = none;
    max_candidates = some (or_default options.max_candidates default_max_candidates);
  };
  prune = record {
    allow_same_bookmaker = some false;
    min_event_confidence = options.validation.min_event_confidence;
    max_age_ms = options.validation.max_age_ms;
    now = some now;
  };
  total_stake = none;
  state_model = none;
}

abbrev pub now_of : DetectionOptions → ℕ → ℕ
now_of options clock = or_default options.now clock

abbrev pub detection_report :
    List PricedSelection → DetectionOptions → ℕ → List CandidateScan → DetectionReport
detection_report priced options now scans =
    let arbs = arbs_of scans in
    record {
      priced = length priced;
      scans = length scans;
      capped = leb (or_default options.max_candidates default_max_candidates) (length scans);
      arbs = length arbs;
      opportunities = map (λ s. to_opportunity s options.validation now) arbs;
    }

unfoldable pub run_detection :
    (Text → Text → Bool)
    → List PricedSelection
    → DetectionOptions
    → ℕ
    → Result OptimizationError DetectionReport
unfolding best_price_per_generation_group scan_candidates to_opportunity arbs_of
run_detection locale_le priced options clock =
    let now = now_of options clock in
    scan_candidates locale_le (best_price_per_generation_group priced) (scan_options options now)
      clock
    >>= λ scans. ok (detection_report priced options now scans)
