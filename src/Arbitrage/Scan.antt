-- ===== src/Arbitrage/Scan.antt =====
-- scanCandidates of packages/arbitrage/src/candidates.ts: generate, prune, detect and optimize. A throw
-- of the optimizer ends the scan.
pub mod Profit
use void.Base.{
  ℕ, Bool, true, false, Option, none, some, List, [], ◌∷◌, map, if◌then◌else◌, length, ◌==◌, Result,
  ok, throws, ◌>>=◌,
}
use void.Base.Ratio.{Ratio, whole}
use void.Outcome.Model.{StateModelOptions}
use void.Arbitrage.Candidate.{
  Candidate, CandidateScan, PricedSelection, PruneVerdict, ScanStatus, arb, no_arb, pruned,
  or_default,
}
use void.Arbitrage.Coverage.{detect_false_arb}
use void.Arbitrage.Generate.{GeneratorOptions, generate_candidates}
use void.Arbitrage.Prune.{PruneOptions, prune_candidate}
use void.Arbitrage.Report.{ArbitrageLeg, CoverageReport, CoverageStatus, covered}
use void.Arbitrage.Stakes.{StakePlan, OptimizationError, optimize_stakes}
use void.Text.{Text}

pub record ScanOptions : Type 0 where
  pub generator : GeneratorOptions
  pub prune : PruneOptions
  pub total_stake : Option Ratio
  pub state_model : Option StateModelOptions

-- A priced selection is a leg.
abbrev pub legs_of : List PricedSelection → List ArbitrageLeg
legs_of = map λ l. record { id = l.id; selection = l.selection; odds = l.odds }

abbrev default_model : StateModelOptions
default_model = record { max_goals = none; max_corners = none; max_cards = none }

abbrev pub stake_total : ScanOptions → Ratio
stake_total options = or_default options.total_stake (whole 100)

abbrev pub model_of : ScanOptions → StateModelOptions
model_of options = or_default options.state_model default_model

abbrev scanned :
    Candidate
    → ScanStatus
    → Option CoverageReport
    → Option StakePlan
    → List PruneVerdict
    → CandidateScan
scanned c status coverage plan verdicts = record {
  candidate = c;
  status = status;
  coverage = coverage;
  plan = plan;
  verdicts = verdicts;
}

unfoldable pub scan_plan : Candidate → CoverageReport → StakePlan → CandidateScan
scan_plan c coverage plan =
    scanned c (if plan.is_arb then arb else no_arb) (some coverage) (some plan) []

unfoldable pub scan_coverage :
    Candidate
    → ScanOptions
    → CoverageReport
    → CoverageStatus
    → Result OptimizationError CandidateScan
unfolding optimize_stakes scan_plan
scan_coverage c options coverage covered =
    optimize_stakes coverage.states coverage.legs (stake_total options) >>= λ plan.
    ok (scan_plan c coverage plan)
scan_coverage c options coverage CoverageStatus.rejected =
    ok (scanned c ScanStatus.rejected (some coverage) none [])

unfoldable pub scan_unpruned : Candidate → ScanOptions → Result OptimizationError CandidateScan
unfolding scan_coverage detect_false_arb
scan_unpruned c options =
    let coverage = detect_false_arb (legs_of c.legs) (model_of options) in
    scan_coverage c options coverage coverage.status

unfoldable pub scan_verdicts :
    Candidate → ScanOptions → List PruneVerdict → Result OptimizationError CandidateScan
unfolding scan_unpruned
scan_verdicts c options [] = scan_unpruned c options
scan_verdicts c options (v ∷ vs) = ok (scanned c pruned none none (v ∷ vs))

unfoldable pub scan_one : Candidate → ScanOptions → ℕ → Result OptimizationError CandidateScan
unfolding scan_verdicts prune_candidate
scan_one c options clock = scan_verdicts c options (prune_candidate c options.prune clock)

unfoldable pub scan_all :
    List Candidate → ScanOptions → ℕ → Result OptimizationError (List CandidateScan)
unfolding scan_one
scan_all [] options clock = ok []
scan_all (c ∷ cs) options clock =
    scan_one c options clock >>= λ scan. scan_all cs options clock >>= λ scans. ok (scan ∷ scans)

-- `clock` is what `Date.now()` returns.
unfoldable pub scan_candidates :
    (Text → Text → Bool)
    → List PricedSelection
    → ScanOptions
    → ℕ
    → Result OptimizationError (List CandidateScan)
unfolding scan_all generate_candidates
scan_candidates locale_le priced options clock =
    scan_all (generate_candidates locale_le priced options.generator) options clock
