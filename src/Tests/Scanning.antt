-- ===== src/Tests/Scanning.antt =====
-- Scans and the stakes of candidates.
use void.Base.{
  ℕ, ◌≤◌, ◌<◌, ◌≡◌, refl, sym, subst, Bool, true, false, not, Option, none, some, List, [], ◌∷◌, In,
  here, Result, ok, throws, arith, length, get_elem?, max, All-In,
}
use void.Base.Ratio.{whole}
use void.Base.Int.{pos}
use void.Domain.Values.{MarketFamily, MarketType, Period, Outcome, SettlementResult}
use void.Outcome.Model.{OutcomeState}
use void.Arbitrage.Candidate.{CandidateScan, PricedSelection, ScanStatus, StructureType, arb, ratio}
use void.Arbitrage.Combos.{combinations}
use void.Arbitrage.Generate.{
  GeneratorOptions, combo_usable, make_candidate, best_price_per_selection,
}
use void.Arbitrage.Generate.Capped.{generated}
use void.Arbitrage.Prune.{PruneOptions, prune_candidate}
use void.Arbitrage.Scan.{ScanOptions, legs_of, scan_candidates}
use void.Arbitrage.Scan.Profit.{Profitable, scan_candidates-Profitable}
use void.Arbitrage.Stakes.{OptimizationError, StakePlan, optimize_stakes}
use void.Arbitrage.Stakes.Plan.{Guaranteed, optimize_stakes-Guaranteed}
use void.Arbitrage.Structure.{text_lt}
use void.Text.{Text, codes}

abbrev pub priced_over : PricedSelection
priced_over = record {
  id = codes "over";
  event_id = codes "e";
  selection = record {
    family = MarketFamily.match_total;
    market_type = MarketType.standard;
    period = Period.full_match;
    participant = none;
    line = some (codes "0.5");
    outcome = Outcome.over;
  };
  odds = ratio 22 10;
  bookmaker = codes "x";
  observed_at = none;
  suspended = none;
  event_confidence = none;
  source_updated_at = none;
  source_status = none;
  settlement_confidence = none;
}

abbrev pub priced_under : PricedSelection
priced_under = record priced_over {
  id = codes "under";
  selection = record (priced_over.selection) { outcome = Outcome.under };
  odds = ratio 21 10;
  bookmaker = codes "y";
}

abbrev pub priced : List PricedSelection
priced = priced_over ∷ priced_under ∷ []

abbrev pub code_le : Text → Text → Bool
code_le a b = not (text_lt b a)

abbrev pub options : ScanOptions
options = record {
  generator = record { event_id = none; min_legs = none; max_legs = none; max_candidates = none };
  prune = record {
    allow_same_bookmaker = none;
    min_event_confidence = none;
    max_age_ms = none;
    now = none;
  };
  total_stake = none;
  state_model = none;
}

abbrev result : Result OptimizationError (List CandidateScan)
result = scan_candidates code_le priced options 0

abbrev empty_scan : CandidateScan
empty_scan = record {
  candidate = record {
    id = [];
    event_id = [];
    period = Period.full_match;
    structure = StructureType.generic;
    legs = [];
  };
  status = ScanStatus.pruned;
  coverage = none;
  plan = none;
  verdicts = [];
}

abbrev scans_in : Result OptimizationError (List CandidateScan) → List CandidateScan
scans_in (ok scans) = scans
scans_in (throws e) = []

abbrev scans : List CandidateScan
scans = scans_in result

abbrev first_in : List CandidateScan → CandidateScan
first_in (scan ∷ rest) = scan
first_in [] = empty_scan

abbrev scan : CandidateScan
scan = first_in scans

scan_ran : (result ≡ ok scans) × (scan.status ≡ arb) × In scan scans
unfolding void.Arbitrage.Coverage.model_options void.Arbitrage.Coverage.indices_where
    void.Arbitrage.Coverage.group_metrics void.Arbitrage.Coverage.check_state
    void.Arbitrage.Coverage.check_states void.Arbitrage.Coverage.report_model
    void.Arbitrage.Coverage.report_duplicates void.Arbitrage.Coverage.detect_false_arb
    void.Arbitrage.Report.join_bar void.Arbitrage.Report.metric_key
    void.Arbitrage.Report.selection_key void.Arbitrage.Report.leg_id_or
    void.Arbitrage.Report.leg_ids_for void.Arbitrage.Report.empty_report
    void.Arbitrage.Report.push_group void.Arbitrage.Report.large_groups
    void.Arbitrage.Report.group_legs void.Arbitrage.Report.duplicate_legs
    void.Arbitrage.Report.push_rejection void.Domain.Names.family_name void.Domain.Names.type_name
    void.Domain.Names.period_name void.Domain.Names.participant_name void.Domain.Names.outcome_name
    void.Domain.Components.settlement_result_from_components
    void.Domain.Components.return_multiplier void.Base.Int.◌+ℤ◌ void.Base.Int.◌-ℤ◌
    void.Base.Int.scale void.Base.Rational.gcd_fuel void.Base.Rational.add_q
    void.Base.Rational.sub_q void.Base.Rational.mul_q void.Base.Rational.div_q
    void.Base.Rational.lt_q void.Base.Rational.from_ratio void.Settlement.Line.parse_canonical_line
    void.Settlement.Line.cents void.Settlement.Line.format_cents void.Settlement.Line.format_line
    void.Settlement.Line.line_kind void.Settlement.Line.split_asian_line
    void.Settlement.Settle.period_score void.Settlement.Settle.combined_state
    void.Settlement.Settle.single_state void.Settlement.Settle.compare_line
    void.Settlement.Settle.settle_total void.Settlement.Settle.handicap_component
    void.Settlement.Settle.settle_handicap void.Settlement.Settle.settle_result_market
    void.Settlement.Settle.settle_btts void.Settlement.Settle.parse_exact_score
    void.Settlement.Settle.settle_exact_score void.Settlement.Settle.settle_finished
    void.Settlement.Settle.settle_selection void.Text.is_digit void.Text.digits_value
    void.Text.show_fuel void.Text.show_nat void.Text.span_digits void.Outcome.Bounds.line_bound
    void.Outcome.Bounds.exact_bound void.Outcome.Bounds.binary_bound
    void.Outcome.Bounds.selection_bound void.Outcome.Bounds.boundary_max
    void.Outcome.Bounds.resolve_limit void.Outcome.Classes.settle_vector
    void.Outcome.Classes.vector_eq void.Outcome.Classes.has_key void.Outcome.Classes.set_new
    void.Outcome.Classes.collect void.Outcome.Classes.values void.Outcome.Classes.range_from
    void.Outcome.Classes.up_to void.Outcome.Classes.nested void.Outcome.Classes.full_states
    void.Outcome.Classes.half_states void.Outcome.Classes.filter_by void.Outcome.Classes.goal_states
    void.Outcome.Classes.build_goal_classes void.Outcome.Classes.count_states
    void.Outcome.Classes.build_count_classes void.Outcome.Model.sort_selections
    void.Outcome.Model.all_settled void.Outcome.Model.collect_states void.Outcome.Model.combinations
    void.Outcome.Model.model_combinations void.Outcome.Model.model_states
    void.Outcome.Model.build_state_model void.Outcome.Model.settlement_matrix
    void.Outcome.Model.payoff_matrix void.Arbitrage.Structure.text_lt
    void.Arbitrage.Structure.family_eq void.Arbitrage.Structure.period_eq
    void.Arbitrage.Structure.pair_key void.Arbitrage.Structure.families_compatible
    void.Arbitrage.Structure.is_standard_complement void.Arbitrage.Structure.distinct_from
    void.Arbitrage.Structure.classify_structure void.Arbitrage.Combos.run_from
    void.Arbitrage.Combos.advance void.Arbitrage.Combos.index_lists void.Arbitrage.Combos.binomial
    void.Arbitrage.Combos.pick void.Arbitrage.Combos.combinations
    void.Arbitrage.Generate.duplicate_from void.Arbitrage.Generate.pairwise_compatible
    void.Arbitrage.Generate.is_source_available void.Arbitrage.Generate.lookup
    void.Arbitrage.Generate.put void.Arbitrage.Generate.improve void.Arbitrage.Generate.best_prices
    void.Arbitrage.Generate.winners_of void.Arbitrage.Generate.best_price_per_selection
    void.Arbitrage.Generate.group_priced void.Arbitrage.Generate.combos_of
    void.Arbitrage.Generate.all_combos void.Arbitrage.Generate.join_with
    void.Arbitrage.Generate.insert_leg void.Arbitrage.Generate.sort_legs
    void.Arbitrage.Generate.candidate_of void.Arbitrage.Generate.make_candidate
    void.Arbitrage.Generate.accept void.Arbitrage.Generate.take_new
    void.Arbitrage.Generate.generate_candidates void.Arbitrage.Prune.odds_invalid
    void.Arbitrage.Prune.faults_found void.Arbitrage.Prune.leg_verdicts
    void.Arbitrage.Prune.group_ids void.Arbitrage.Prune.duplicate_verdicts
    void.Arbitrage.Prune.reuses_bookmaker void.Arbitrage.Prune.fails_prefilter
    void.Arbitrage.Prune.concat void.Arbitrage.Prune.prune_candidate void.Arbitrage.Scan.scan_plan
    void.Arbitrage.Scan.scan_coverage void.Arbitrage.Scan.scan_unpruned
    void.Arbitrage.Scan.scan_verdicts void.Arbitrage.Scan.scan_one void.Arbitrage.Scan.scan_all
    void.Arbitrage.Scan.scan_candidates void.Arbitrage.Simplex.fill void.Arbitrage.Simplex.build
    void.Arbitrage.Simplex.set_at void.Arbitrage.Simplex.count_from
    void.Arbitrage.Simplex.first_tableau void.Arbitrage.Simplex.eliminate
    void.Arbitrage.Simplex.pivot void.Arbitrage.Simplex.entering void.Arbitrage.Simplex.leaving
    void.Arbitrage.Simplex.iterate void.Arbitrage.Simplex.solution_of
    void.Arbitrage.Simplex.simplex_minimize void.Arbitrage.Stakes.reciprocal_sum
    void.Arbitrage.Stakes.multiplier_row void.Arbitrage.Stakes.build_multiplier_matrix
    void.Arbitrage.Stakes.solve_maximin void.Arbitrage.Stakes.return_from
    void.Arbitrage.Stakes.least_from void.Arbitrage.Stakes.least_of void.Arbitrage.Stakes.normalized
    void.Arbitrage.Stakes.plan_of void.Arbitrage.Stakes.optimize_stakes
    void.Arbitrage.Stakes.optimize_candidate void.Arbitrage.Stakes.classic_three_way_stakes
    void.Arbitrage.Stakes.classic_two_way_stakes
scan_ran = (refl, refl, here)

scan_candidates-Profitable_example :
    In scan.candidate (generated code_le priced options.generator)
    × ((plan : StakePlan) × (scan.plan ≡ some plan) × Profitable options scan.candidate plan)
scan_candidates-Profitable_example =
    scan_candidates-Profitable code_le priced options 0 scans scan scan_ran.0 scan_ran.2 scan_ran.1

abbrev state_of : SettlementResult → SettlementResult → OutcomeState
state_of a b = record {
  id = codes "s";
  representative = record { home_goals = 0; away_goals = 0 };
  first_half = none;
  corners = none;
  cards = none;
  vector = a ∷ b ∷ [];
}

abbrev two_states : List OutcomeState
two_states =
    state_of SettlementResult.full_win SettlementResult.full_loss
    ∷ state_of SettlementResult.full_loss SettlementResult.full_win
    ∷ []

abbrev planned : Result OptimizationError StakePlan
planned = optimize_stakes two_states (legs_of priced) (whole 100)

abbrev plan_in : Result OptimizationError StakePlan → StakePlan
plan_in (ok plan) = plan
plan_in (throws e) = record {
  stakes = [];
  total_stake = whole 0;
  state_returns = [];
  min_return = whole 0;
  guaranteed_profit = record { num = pos 0; den_pred = 0 };
  roi = record { num = pos 0; den_pred = 0 };
  is_arb = false;
  multiplier_matrix = [];
}

solved : (planned ≡ ok (plan_in planned)) × ((plan_in planned).is_arb ≡ true)
unfolding void.Arbitrage.Stakes.reciprocal_sum void.Arbitrage.Stakes.multiplier_row
    void.Arbitrage.Stakes.build_multiplier_matrix void.Arbitrage.Stakes.solve_maximin
    void.Arbitrage.Stakes.return_from void.Arbitrage.Stakes.least_from
    void.Arbitrage.Stakes.least_of void.Arbitrage.Stakes.normalized void.Arbitrage.Stakes.plan_of
    void.Arbitrage.Stakes.optimize_stakes void.Arbitrage.Stakes.optimize_candidate
    void.Arbitrage.Stakes.classic_three_way_stakes void.Arbitrage.Stakes.classic_two_way_stakes
    void.Arbitrage.Simplex.fill void.Arbitrage.Simplex.build void.Arbitrage.Simplex.set_at
    void.Arbitrage.Simplex.count_from void.Arbitrage.Simplex.first_tableau
    void.Arbitrage.Simplex.eliminate void.Arbitrage.Simplex.pivot void.Arbitrage.Simplex.entering
    void.Arbitrage.Simplex.leaving void.Arbitrage.Simplex.iterate void.Arbitrage.Simplex.solution_of
    void.Arbitrage.Simplex.simplex_minimize void.Domain.Components.settlement_result_from_components
    void.Domain.Components.return_multiplier void.Base.Int.◌+ℤ◌ void.Base.Int.◌-ℤ◌
    void.Base.Int.scale void.Base.Rational.gcd_fuel void.Base.Rational.add_q
    void.Base.Rational.sub_q void.Base.Rational.mul_q void.Base.Rational.div_q
    void.Base.Rational.lt_q void.Base.Rational.from_ratio
solved = (refl, refl)

optimize_stakes-Guaranteed_example :
    Guaranteed two_states (legs_of priced) (whole 100) (plan_in planned)
optimize_stakes-Guaranteed_example =
    optimize_stakes-Guaranteed two_states (legs_of priced) (whole 100) (plan_in planned)
      (omega arith, (omega arith, tt)) solved.0 solved.1
