-- ===== src/Arbitrage/Candidate.antt =====
-- The data of packages/arbitrage/src/candidates.ts and validation.ts. An
-- ISO timestamp is the result of `Date.parse` on it; times are in milliseconds, and a number that may
-- be missing is an option.
use void.Base.{ℕ, Bool, Option, none, some, List}
use void.Base.Ratio.{Ratio}
use void.Domain.Freshness.{ScoreFreshness, FreshnessPolicy, default_freshness_policy}
use void.Domain.Stamp.{Stamp}
use void.Domain.Values.{RejectionReason, OpportunityStatus, Period}
use void.Settlement.Selection.{SettleableSelection}
use void.Arbitrage.Report.{CoverageReport}
use void.Arbitrage.Stakes.{StakePlan}
use void.Text.{Text}

pub data SourceStatus : Type 0 where
  ok degraded down unknown : SourceStatus

-- `settlementRuleVersion` and `provider`, which no code of the package reads, are left out.
pub record PricedSelection : Type 0 where
  pub id : Text
  pub event_id : Text
  pub selection : SettleableSelection
  pub odds : Ratio
  pub bookmaker : Text
  pub observed_at : Option ℕ
  pub suspended : Option Bool
  pub event_confidence : Option Ratio
  pub source_updated_at : Option Stamp
  pub source_status : Option SourceStatus
  pub settlement_confidence : Option Ratio

pub data StructureType : Type 0 where
  same_market_complement complementary_totals asian_line protected_handicap : StructureType
  team_total_match_total partition multi_leg_partition generic : StructureType

pub record Candidate : Type 0 where
  pub id : Text
  pub event_id : Text
  pub period : Period
  pub structure : StructureType
  pub legs : List PricedSelection

pub data PruneReason : Type 0 where
  candidate_size event_mismatch period_mismatch duplicate_selection invalid_odds suspended :
      PruneReason
  stale_odds same_bookmaker event_uncertain incompatible_market price_prefilter : PruneReason

pub record PruneVerdict : Type 0 where
  pub reason : PruneReason
  pub leg_ids : Option (List Text)

pub data ScanStatus : Type 0 where
  arb no_arb rejected pruned : ScanStatus

-- `pruning` is its verdicts: the candidate is pruned when there is one.
pub record CandidateScan : Type 0 where
  pub candidate : Candidate
  pub status : ScanStatus
  pub coverage : Option CoverageReport
  pub plan : Option StakePlan
  pub verdicts : List PruneVerdict

pub record ValidationOptions : Type 0 where
  pub freshness_policy : Option FreshnessPolicy
  pub max_age_ms : Option ℕ
  pub min_event_confidence : Option Ratio
  pub min_settlement_confidence : Option Ratio
  pub max_source_spread_ms : Option ℕ
  pub recheck_tolerance : Option Ratio

-- The options with their defaults.
pub record Limits : Type 0 where
  pub policy : FreshnessPolicy
  pub max_age_ms : ℕ
  pub min_event_confidence : Ratio
  pub min_settlement_confidence : Ratio
  pub max_source_spread_ms : ℕ
  pub tolerance : Ratio

abbrev pub or_default {ℓ} : {A : Type ℓ} → Option A → A → A
or_default none a = a
or_default (some b) a = b

abbrev pub ratio : ℕ → ℕ → Ratio
ratio n d = record { num = n; den = d }

unfoldable pub limits_of : ValidationOptions → Limits
limits_of o =
    let policy = or_default o.freshness_policy default_freshness_policy in
    record {
      policy = policy;
      max_age_ms = or_default o.max_age_ms policy.aging_ms;
      min_event_confidence = or_default o.min_event_confidence (ratio 8 10);
      min_settlement_confidence = or_default o.min_settlement_confidence (ratio 8 10);
      max_source_spread_ms = or_default o.max_source_spread_ms 60000;
      tolerance = or_default o.recheck_tolerance (ratio 1 1000);
    }

pub record LegValidation : Type 0 where
  pub leg_id : Text
  pub age_ms : Option ℕ
  pub freshness : Option ScoreFreshness
  pub price_age_pass : Bool
  pub source_pass : Option Bool
  pub event_confidence_pass : Option Bool
  pub settlement_confidence_pass : Option Bool

pub record ValidationFailure : Type 0 where
  pub reason : RejectionReason
  pub leg_ids : Option (List Text)
  pub count : Option ℕ

-- `evaluateble`, `minSource`, `maxSource` and `spreadMs` are there together.
pub record CrossSourceConsistency : Type 0 where
  pub evaluable : Bool
  pub extremes : Option (ℕ × ℕ)
  pub spread_ms : Option ℕ
  pub pass : Bool

pub data RecheckStatus : Type 0 where
  not_run unchanged changed : RecheckStatus

pub record RecheckedPrice : Type 0 where
  pub leg_id : Text
  pub rechecked_odds : Ratio

pub record RecheckChange : Type 0 where
  pub leg_id : Text
  pub prior_odds : Ratio
  pub current_odds : Ratio

pub record RecheckResult : Type 0 where
  pub status : RecheckStatus
  pub changed : List RecheckChange
  pub covering : Bool

-- The report; the three summaries of a confidence or source gate are `every` of the legs' results.
pub record ValidationReport : Type 0 where
  pub status : OpportunityStatus
  pub legs : List LegValidation
  pub has_validation_input : Bool
  pub theoretical : Bool
  pub verified : Bool
  pub freshness_pass : Bool
  pub sources_pass : Bool
  pub event_confidence_pass : Bool
  pub settlement_confidence_pass : Bool
  pub cross_source : CrossSourceConsistency
  pub recheck : RecheckResult
  pub rejections : List ValidationFailure
