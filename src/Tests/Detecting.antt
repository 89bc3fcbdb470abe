-- ===== src/Tests/Detecting.antt =====
-- The price selection and the detection of the worker.
use void.Base.{
  ◌≡◌, refl, false, Option, none, some, List, [], ◌∷◌, In, here, Result, ok, throws, arith, All-In,
}
use void.Base.Ratio.{IsProper, whole}
use void.Base.Int.{pos}
use void.Base.Rational.{zero_q}
use void.Domain.Values.{OpportunityStatus}
use void.Arbitrage.Candidate.{PricedSelection, SourceStatus, StructureType, down, ratio}
use void.Arbitrage.Generate.{leg_key, group_key}
use void.Arbitrage.Stakes.{OptimizationError}
use void.Arbitrage.Structure.{text_lt}
use void.Text.{Text, codes}
use void.Tests.Scanning.{priced_over, priced_under, code_le}
use void.Worker.Detect.{best_price_per_generation_group}
use void.Worker.Detect.Picks.{IsPick, best_price_per_generation_group-IsPick}
use void.Worker.Detection.{DetectionOptions, DetectionReport, Opportunity, now_of, run_detection}
use void.Worker.Detection.Backed.{Backed, run_detection-Backed}

-- A lower price, at a third bookmaker.
abbrev lower_over : PricedSelection
lower_over = record priced_over { id = codes "low"; odds = ratio 2 1; bookmaker = codes "z" }

abbrev offers : List PricedSelection
offers = lower_over ∷ priced_over ∷ priced_under ∷ []

offers-IsProper : (e : PricedSelection) → In e offers → IsProper e.odds
offers-IsProper e i =
    All-In (λ x. IsProper x.odds) i (omega arith, (omega arith, (omega arith, tt)))

best_price_per_generation_group-IsPick_example :
    ((p : PricedSelection) → In p (best_price_per_generation_group offers) → IsPick offers p)
    × ((e : PricedSelection)
        → In e offers
        → (p : PricedSelection) × In p (best_price_per_generation_group offers)
          × (group_key p ≡ group_key e)
          × (leg_key p ≡ leg_key e))
best_price_per_generation_group-IsPick_example =
    best_price_per_generation_group-IsPick offers offers-IsProper

offers_picked : best_price_per_generation_group offers ≡ priced_over ∷ priced_under ∷ []
unfolding void.Domain.Names.family_name void.Domain.Names.type_name void.Domain.Names.period_name
    void.Domain.Names.participant_name void.Domain.Names.outcome_name void.Arbitrage.Report.join_bar
    void.Arbitrage.Report.selection_key void.Arbitrage.Report.push_group
    void.Arbitrage.Generate.is_source_available void.Arbitrage.Generate.lookup
    void.Arbitrage.Generate.put void.Arbitrage.Generate.improve void.Arbitrage.Generate.best_prices
    void.Arbitrage.Generate.winners_of void.Arbitrage.Generate.best_price_per_selection
    void.Arbitrage.Generate.group_priced void.Worker.Detect.same_fields void.Worker.Detect.find
    void.Worker.Detect.tie_of void.Worker.Detect.pick_for void.Worker.Detect.picks_for
    void.Worker.Detect.picks_of_groups void.Worker.Detect.best_price_per_generation_group
offers_picked = refl

-- At one bookmaker both are best; a source that is down has the same price for the second.
abbrev under_at_x : PricedSelection
under_at_x = record priced_under { bookmaker = codes "x" }

abbrev under_down : PricedSelection
under_down = record priced_under { id = codes "down"; source_status = some down }

tie_to_down :
    best_price_per_generation_group (priced_over ∷ under_at_x ∷ under_down ∷ [])
    ≡ priced_over ∷ under_down ∷ []
unfolding void.Domain.Names.family_name void.Domain.Names.type_name void.Domain.Names.period_name
    void.Domain.Names.participant_name void.Domain.Names.outcome_name void.Arbitrage.Report.join_bar
    void.Arbitrage.Report.selection_key void.Arbitrage.Report.push_group
    void.Arbitrage.Generate.is_source_available void.Arbitrage.Generate.lookup
    void.Arbitrage.Generate.put void.Arbitrage.Generate.improve void.Arbitrage.Generate.best_prices
    void.Arbitrage.Generate.winners_of void.Arbitrage.Generate.best_price_per_selection
    void.Arbitrage.Generate.group_priced void.Worker.Detect.same_fields void.Worker.Detect.find
    void.Worker.Detect.tie_of void.Worker.Detect.pick_for void.Worker.Detect.picks_for
    void.Worker.Detect.picks_of_groups void.Worker.Detect.best_price_per_generation_group
tie_to_down = refl

abbrev detection_options : DetectionOptions
detection_options = record {
  validation = record {
    freshness_policy = none;
    max_age_ms = none;
    min_event_confidence = none;
    min_settlement_confidence = none;
    max_source_spread_ms = none;
    recheck_tolerance = none;
  };
  total_stake = some (whole 500);
  now = none;
  max_candidates = none;
}

abbrev detected : Result OptimizationError DetectionReport
detected = run_detection code_le offers detection_options 1000

abbrev no_report : DetectionReport
no_report = record { priced = 0; scans = 0; capped = false; arbs = 0; opportunities = [] }

abbrev report_in : Result OptimizationError DetectionReport → DetectionReport
report_in (ok r) = r
report_in (throws e) = no_report

abbrev no_opportunity : Opportunity
no_opportunity = record {
  event_id = [];
  status = OpportunityStatus.theoretical_arb;
  rejection_reason = none;
  structure = StructureType.generic;
  amounts = none;
  detected_at = 0;
  validated_at = none;
  expires_at = pos 0;
  legs = [];
}

abbrev first_in : List Opportunity → Opportunity
first_in (o ∷ rest) = o
first_in [] = no_opportunity

abbrev report : DetectionReport
report = report_in detected

abbrev opportunity : Opportunity
opportunity = first_in report.opportunities

detected_one : (detected ≡ ok report) × (report.arbs ≡ 1) × In opportunity report.opportunities
unfolding void.Arbitrage.Candidate.limits_of void.Arbitrage.Checks.attestable
    void.Arbitrage.Checks.build_leg_validation void.Arbitrage.Checks.change_of
    void.Arbitrage.Checks.changes void.Arbitrage.Checks.compare_rechecked_prices
    void.Arbitrage.Checks.cross_of void.Arbitrage.Checks.current_of
    void.Arbitrage.Checks.evaluate_cross_source void.Arbitrage.Checks.maximum
    void.Arbitrage.Checks.minimum void.Arbitrage.Checks.moved void.Arbitrage.Checks.not_evaluable
    void.Arbitrage.Checks.observed_age void.Arbitrage.Checks.price_age
    void.Arbitrage.Checks.recheck_not_run void.Arbitrage.Checks.relative_delta
    void.Arbitrage.Checks.stamps_of void.Arbitrage.Combos.advance void.Arbitrage.Combos.binomial
    void.Arbitrage.Combos.combinations void.Arbitrage.Combos.index_lists void.Arbitrage.Combos.pick
    void.Arbitrage.Combos.run_from void.Arbitrage.Coverage.check_state
    void.Arbitrage.Coverage.check_states void.Arbitrage.Coverage.detect_false_arb
    void.Arbitrage.Coverage.group_metrics void.Arbitrage.Coverage.indices_where
    void.Arbitrage.Coverage.model_options void.Arbitrage.Coverage.report_duplicates
    void.Arbitrage.Coverage.report_model void.Arbitrage.Generate.accept
    void.Arbitrage.Generate.all_combos void.Arbitrage.Generate.best_price_per_selection
    void.Arbitrage.Generate.best_prices void.Arbitrage.Generate.candidate_of
    void.Arbitrage.Generate.combos_of void.Arbitrage.Generate.duplicate_from
    void.Arbitrage.Generate.generate_candidates void.Arbitrage.Generate.group_priced
    void.Arbitrage.Generate.improve void.Arbitrage.Generate.insert_leg
    void.Arbitrage.Generate.is_source_available void.Arbitrage.Generate.join_with
    void.Arbitrage.Generate.lookup void.Arbitrage.Generate.make_candidate
    void.Arbitrage.Generate.pairwise_compatible void.Arbitrage.Generate.put
    void.Arbitrage.Generate.sort_legs void.Arbitrage.Generate.take_new
    void.Arbitrage.Generate.winners_of void.Arbitrage.Prune.concat
    void.Arbitrage.Prune.duplicate_verdicts void.Arbitrage.Prune.fails_prefilter
    void.Arbitrage.Prune.faults_found void.Arbitrage.Prune.group_ids
    void.Arbitrage.Prune.leg_verdicts void.Arbitrage.Prune.odds_invalid
    void.Arbitrage.Prune.prune_candidate void.Arbitrage.Prune.reuses_bookmaker
    void.Arbitrage.Report.duplicate_legs void.Arbitrage.Report.empty_report
    void.Arbitrage.Report.group_legs void.Arbitrage.Report.join_bar
    void.Arbitrage.Report.large_groups void.Arbitrage.Report.leg_id_or
    void.Arbitrage.Report.leg_ids_for void.Arbitrage.Report.metric_key
    void.Arbitrage.Report.push_group void.Arbitrage.Report.push_rejection
    void.Arbitrage.Report.selection_key void.Arbitrage.Scan.scan_all
    void.Arbitrage.Scan.scan_candidates void.Arbitrage.Scan.scan_coverage
    void.Arbitrage.Scan.scan_one void.Arbitrage.Scan.scan_plan void.Arbitrage.Scan.scan_unpruned
    void.Arbitrage.Scan.scan_verdicts void.Arbitrage.Simplex.build void.Arbitrage.Simplex.count_from
    void.Arbitrage.Simplex.eliminate void.Arbitrage.Simplex.entering void.Arbitrage.Simplex.fill
    void.Arbitrage.Simplex.first_tableau void.Arbitrage.Simplex.iterate
    void.Arbitrage.Simplex.leaving void.Arbitrage.Simplex.pivot void.Arbitrage.Simplex.set_at
    void.Arbitrage.Simplex.simplex_minimize void.Arbitrage.Simplex.solution_of
    void.Arbitrage.Stakes.build_multiplier_matrix void.Arbitrage.Stakes.classic_three_way_stakes
    void.Arbitrage.Stakes.classic_two_way_stakes void.Arbitrage.Stakes.least_from
    void.Arbitrage.Stakes.least_of void.Arbitrage.Stakes.multiplier_row
    void.Arbitrage.Stakes.normalized void.Arbitrage.Stakes.optimize_candidate
    void.Arbitrage.Stakes.optimize_stakes void.Arbitrage.Stakes.plan_of
    void.Arbitrage.Stakes.reciprocal_sum void.Arbitrage.Stakes.return_from
    void.Arbitrage.Stakes.solve_maximin void.Arbitrage.Structure.classify_structure
    void.Arbitrage.Structure.distinct_from void.Arbitrage.Structure.families_compatible
    void.Arbitrage.Structure.family_eq void.Arbitrage.Structure.is_standard_complement
    void.Arbitrage.Structure.pair_key void.Arbitrage.Structure.period_eq
    void.Arbitrage.Structure.text_lt void.Arbitrage.Validation.collect_failures
    void.Arbitrage.Validation.each_failure void.Arbitrage.Validation.leg_failures
    void.Arbitrage.Validation.map_prune_reason void.Arbitrage.Validation.scan_failures
    void.Arbitrage.Validation.validate_candidate void.Base.Int.scale void.Base.Int.◌+ℤ◌
    void.Base.Int.◌-ℤ◌ void.Base.Rational.add_q void.Base.Rational.div_q
    void.Base.Rational.from_ratio void.Base.Rational.gcd_fuel void.Base.Rational.lt_q
    void.Base.Rational.mul_q void.Base.Rational.sub_q void.Domain.Components.return_multiplier
    void.Domain.Components.settlement_result_from_components
    void.Domain.Freshness.classify_freshness void.Domain.Names.family_name
    void.Domain.Names.outcome_name void.Domain.Names.participant_name void.Domain.Names.period_name
    void.Domain.Names.type_name void.Outcome.Bounds.binary_bound void.Outcome.Bounds.boundary_max
    void.Outcome.Bounds.exact_bound void.Outcome.Bounds.line_bound void.Outcome.Bounds.resolve_limit
    void.Outcome.Bounds.selection_bound void.Outcome.Classes.build_count_classes
    void.Outcome.Classes.build_goal_classes void.Outcome.Classes.collect
    void.Outcome.Classes.count_states void.Outcome.Classes.filter_by
    void.Outcome.Classes.full_states void.Outcome.Classes.goal_states
    void.Outcome.Classes.half_states void.Outcome.Classes.has_key void.Outcome.Classes.nested
    void.Outcome.Classes.range_from void.Outcome.Classes.set_new void.Outcome.Classes.settle_vector
    void.Outcome.Classes.up_to void.Outcome.Classes.values void.Outcome.Classes.vector_eq
    void.Outcome.Model.all_settled void.Outcome.Model.build_state_model
    void.Outcome.Model.collect_states void.Outcome.Model.combinations
    void.Outcome.Model.model_combinations void.Outcome.Model.model_states
    void.Outcome.Model.payoff_matrix void.Outcome.Model.settlement_matrix
    void.Outcome.Model.sort_selections void.Settlement.Line.cents void.Settlement.Line.format_cents
    void.Settlement.Line.format_line void.Settlement.Line.line_kind
    void.Settlement.Line.parse_canonical_line void.Settlement.Line.split_asian_line
    void.Settlement.Settle.combined_state void.Settlement.Settle.compare_line
    void.Settlement.Settle.handicap_component void.Settlement.Settle.parse_exact_score
    void.Settlement.Settle.period_score void.Settlement.Settle.settle_btts
    void.Settlement.Settle.settle_exact_score void.Settlement.Settle.settle_finished
    void.Settlement.Settle.settle_handicap void.Settlement.Settle.settle_result_market
    void.Settlement.Settle.settle_selection void.Settlement.Settle.settle_total
    void.Settlement.Settle.single_state void.Text.digits_value void.Text.is_digit
    void.Text.show_fuel void.Text.show_nat void.Text.span_digits
    void.Worker.Detect.best_price_per_generation_group void.Worker.Detect.find
    void.Worker.Detect.pick_for void.Worker.Detect.picks_for void.Worker.Detect.picks_of_groups
    void.Worker.Detect.same_fields void.Worker.Detect.tie_of void.Worker.Detection.arbs_of
    void.Worker.Detection.opportunity_legs void.Worker.Detection.run_detection
    void.Worker.Detection.to_opportunity
detected_one = (refl, refl, here)

run_detection-Backed_example :
    Backed offers detection_options (now_of detection_options 1000) opportunity
run_detection-Backed_example =
    run_detection-Backed code_le offers detection_options 1000 report opportunity offers-IsProper
      detected_one.0 detected_one.2
