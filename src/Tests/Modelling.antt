-- ===== src/Tests/Modelling.antt =====
-- The state model, coverage and validation.
use void.Base.{
  ℕ, suc, ◌≡◌, ◌≢◌, refl, ap, sym, ◌∙◌, subst, Bool, true, false, ◌&&◌, Option, none, some, List,
  [], ◌∷◌, arith, In, here, there, any, every, map, get_elem?, length, ◌≤◌, ◌+◌,
}
use void.Base.Ratio.{Ratio, whole}
use void.Domain.Values.{SettlementResult, Period}
use void.Domain.Stamp.{parsed, unparsed}
use void.Outcome.Score.{match_state, score}
use void.Outcome.Classes.{
  GoalClass, CountClass, settle_vector, goal_states, filter_by, corner_tag, card_tag,
}
use void.Outcome.Classes.Grid.{class_of, count_of, In-full_states}
use void.Outcome.Model.{OutcomeState, StateModelOptions, build_state_model, sort_selections}
use void.Outcome.Model.Complete.{OnGrid}
use void.Outcome.Model.States.{state_match}
use void.Outcome.Model.Reduction.{
  known_of, Aligned, build_state_model_sound, build_state_model_complete,
  build_state_model-distinct, build_state_model-shares,
}
use void.Settlement.Selection.{SettleableSelection}
use void.Arbitrage.Coverage.{detect_false_arb, selections_of}
use void.Arbitrage.Report.{covered}
use void.Arbitrage.Coverage.Covered.{GridWon, limits_of, detect_false_arb-covered}
use void.Arbitrage.Coverage.Missed.{
  missed_legs, no_options, missed-covered, detect_false_arb-misses,
}
use void.Arbitrage.Validation.{is_verified, validate_candidate}
use void.Arbitrage.Checks.{is_there, attestable}
use void.Arbitrage.Stakes.{StakePlan}
use void.Base.Int.{pos}
use void.Arbitrage.Candidate.{
  Candidate, StructureType, PricedSelection, CandidateScan, ScanStatus, ValidationOptions,
  RecheckedPrice, SourceStatus, arb, ok,
}
use void.Arbitrage.Validation.Gates.{gates, is_empty, is_arb, same_price, fetched, in_time, trusted}
use void.Arbitrage.Validation.Verified.{
  is_ready, validate_candidate-verified, validate_candidate-explained,
}
use void.Arbitrage.Validation.Unparsed.{validate_candidate-unparsed}
use void.Text.{codes}

abbrev selections : List SettleableSelection
selections = selections_of missed_legs

abbrev goal : GoalClass
goal = class_of 3 1

abbrev no_corners : CountClass
no_corners = count_of corner_tag 0 0

abbrev no_cards : CountClass
no_cards = count_of card_tag 0 0

kept : known_of selections ≡ selections
unfolding sort_selections void.Settlement.Settle.settle_selection
    void.Settlement.Settle.settle_finished void.Settlement.Settle.period_score
    void.Settlement.Settle.settle_total void.Settlement.Settle.compare_line
    void.Settlement.Settle.settle_handicap void.Settlement.Settle.handicap_component
    void.Settlement.Settle.combined_state void.Settlement.Line.split_asian_line
    void.Settlement.Line.parse_canonical_line void.Text.is_digit void.Text.show_nat
    void.Text.span_digits void.Text.digits_value
    void.Domain.Components.settlement_result_from_components void.Base.Int.scale void.Base.Int.◌-ℤ◌
    void.Base.Int.◌+ℤ◌
kept = refl

two_left : selections ≢ []
two_left e = cc

some_kept : known_of selections ≢ []
some_kept e = two_left (sym kept ∙ e)

grid_of : OnGrid selections no_options goal no_corners no_cards
unfolding count_of filter_by goal_states void.Outcome.Bounds.boundary_max
    void.Outcome.Bounds.selection_bound void.Outcome.Bounds.resolve_limit
    void.Settlement.Line.parse_canonical_line void.Text.is_digit void.Text.span_digits
    void.Text.digits_value
grid_of = record {
  goal = In-full_states 3 3 1 (omega arith) (omega arith);
  corner = tt;
  card = tt;
  corner_there = refl;
  card_there = refl;
}

on_grid : OnGrid (known_of selections) no_options goal no_corners no_cards
on_grid = subst (λ ss. OnGrid ss no_options goal no_corners no_cards) (sym kept) grid_of

build_state_model_complete_example :
    (st : OutcomeState) × In st (build_state_model selections no_options).states
    × (map some st.vector
        ≡ settle_vector
            (known_of selections)
            (match_state goal.full goal.first no_corners.counts no_cards.counts))
build_state_model_complete_example =
    build_state_model_complete selections no_options goal no_corners no_cards some_kept on_grid

build_state_model-shares_example :
    Aligned selections
      (build_state_model selections no_options).selection_indices
      (known_of selections)
    × (length (known_of selections) + length (build_state_model selections no_options).unknown
        ≡ length selections)
build_state_model-shares_example = build_state_model-shares selections no_options

detect_false_arb-covered_example :
    ((detect_false_arb missed_legs no_options).exclusive ≡ true)
    × ((detect_false_arb missed_legs no_options).exhaustive ≡ true)
    × (known_of selections ≡ selections)
    × GridWon (limits_of missed_legs no_options) selections
detect_false_arb-covered_example = detect_false_arb-covered missed_legs no_options missed-covered

detect_false_arb-misses_example :
    ((detect_false_arb missed_legs no_options).status ≡ covered)
    × (settle_vector selections (match_state (score 4 2) none none none)
        ≡ some SettlementResult.full_loss ∷ some SettlementResult.full_loss ∷ [])
detect_false_arb-misses_example = detect_false_arb-misses 4 2 (omega arith) (omega arith)

abbrev certain : Ratio
certain = whole 1

abbrev first_leg : PricedSelection
first_leg = record {
  id = codes "a";
  event_id = codes "e";
  selection = void.Arbitrage.Coverage.Missed.away_under_leg.selection;
  bookmaker = codes "x";
  suspended = none;
  odds = whole 3;
  observed_at = some 9000;
  event_confidence = some certain;
  source_updated_at = some (parsed 9000);
  source_status = some ok;
  settlement_confidence = some certain;
}

abbrev second_leg : PricedSelection
second_leg = record first_leg { id = codes "b" }

abbrev bad_stamp : PricedSelection
bad_stamp = record second_leg { source_updated_at = some unparsed }

abbrev default_options : ValidationOptions
default_options = record {
  freshness_policy = none;
  max_age_ms = none;
  min_event_confidence = none;
  min_settlement_confidence = none;
  max_source_spread_ms = none;
  recheck_tolerance = none;
}

abbrev fetched_again : List RecheckedPrice
fetched_again =
    record { leg_id = codes "a"; rechecked_odds = whole 3 }
    ∷ record { leg_id = codes "b"; rechecked_odds = whole 3 }
    ∷ []

abbrev two_legs : List PricedSelection
two_legs = first_leg ∷ second_leg ∷ []

-- A candidate of two legs, both fetched a second ago.
abbrev two_leg_candidate : Candidate
two_leg_candidate = record {
  id = codes "e|FULL_MATCH|a+b";
  event_id = codes "e";
  period = Period.full_match;
  structure = StructureType.generic;
  legs = two_legs;
}

abbrev two_leg_plan : StakePlan
two_leg_plan = record {
  stakes = whole 50 ∷ whole 50 ∷ [];
  total_stake = whole 100;
  state_returns = whole 150 ∷ [];
  min_return = whole 150;
  guaranteed_profit = record { num = pos 50; den_pred = 0 };
  roi = record { num = pos 1; den_pred = 1 };
  is_arb = true;
  multiplier_matrix = (whole 3 ∷ whole 0 ∷ []) ∷ [];
}

abbrev arb_scan : CandidateScan
arb_scan = record {
  candidate = two_leg_candidate;
  status = arb;
  coverage = none;
  plan = some two_leg_plan;
  verdicts = [];
}

abbrev legs_with_bad_stamp : List PricedSelection
legs_with_bad_stamp = first_leg ∷ bad_stamp ∷ []

abbrev found :
    (st : OutcomeState) × In st (build_state_model selections no_options).states
    × (map some st.vector
        ≡ settle_vector
            (known_of selections)
            (match_state goal.full goal.first no_corners.counts no_cards.counts))
found = build_state_model_complete selections no_options goal no_corners no_cards some_kept on_grid

build_state_model_sound_example :
    map some found.0.vector ≡ settle_vector (known_of selections) (state_match found.0)
build_state_model_sound_example = build_state_model_sound selections no_options found.0 found.1

abbrev first_state : OutcomeState
first_state = record {
  id = codes "g:0-0|c:-|k:-";
  representative = score 0 0;
  first_half = none;
  corners = none;
  cards = none;
  vector = SettlementResult.full_win ∷ SettlementResult.full_win ∷ [];
}

is_first : get_elem? (build_state_model selections no_options).states 0 ≡ some first_state
unfolding build_state_model void.Outcome.Model.model_states sort_selections
    void.Settlement.Settle.settle_selection void.Settlement.Settle.settle_finished
    void.Settlement.Settle.period_score void.Settlement.Settle.settle_total
    void.Settlement.Settle.compare_line void.Settlement.Settle.settle_handicap
    void.Settlement.Settle.handicap_component void.Settlement.Settle.combined_state
    void.Settlement.Line.split_asian_line void.Settlement.Line.parse_canonical_line
    void.Text.is_digit void.Text.show_nat void.Text.span_digits void.Text.digits_value
    void.Domain.Components.settlement_result_from_components void.Base.Int.scale void.Base.Int.◌-ℤ◌
    void.Base.Int.◌+ℤ◌ goal_states filter_by void.Outcome.Bounds.boundary_max
    void.Outcome.Bounds.selection_bound void.Outcome.Bounds.resolve_limit
    void.Outcome.Classes.vector_eq void.Outcome.Classes.settle_vector
    void.Outcome.Classes.build_goal_classes void.Outcome.Classes.build_count_classes
    void.Outcome.Classes.set_new void.Outcome.Classes.has_key void.Outcome.Classes.collect
    void.Outcome.Classes.values void.Outcome.Classes.full_states
    void.Outcome.Model.model_combinations void.Outcome.Model.combinations
    void.Outcome.Model.collect_states void.Outcome.Model.all_settled
is_first = refl

build_state_model-distinct_example : ◌≡◌ {A = ℕ} 0 0
build_state_model-distinct_example =
    build_state_model-distinct selections no_options 0 0 first_state first_state is_first is_first
      refl

validate_candidate-verified_example :
    is_verified
      (validate_candidate arb_scan two_legs default_options 10000 (some fetched_again)).status
    ≡ gates arb_scan two_legs
        (void.Arbitrage.Candidate.limits_of default_options)
        10000
        (some fetched_again)
validate_candidate-verified_example =
    validate_candidate-verified arb_scan two_legs default_options 10000 (some fetched_again)

is_verified_run :
    (validate_candidate arb_scan two_legs default_options 10000 (some fetched_again)).verified
    ≡ true
unfolding validate_candidate void.Arbitrage.Candidate.limits_of
    void.Arbitrage.Checks.build_leg_validation void.Arbitrage.Checks.price_age
    void.Arbitrage.Checks.relative_delta void.Arbitrage.Checks.stamps_of
    void.Arbitrage.Checks.minimum void.Arbitrage.Checks.maximum
    void.Arbitrage.Checks.evaluate_cross_source void.Arbitrage.Checks.current_of
    void.Arbitrage.Checks.moved void.Arbitrage.Checks.changes
    void.Arbitrage.Checks.compare_rechecked_prices void.Arbitrage.Checks.attestable
    void.Arbitrage.Validation.leg_failures void.Arbitrage.Validation.each_failure
    void.Arbitrage.Validation.collect_failures void.Domain.Freshness.classify_freshness
is_verified_run = refl

validate_candidate-explained_example :
    is_empty (validate_candidate arb_scan two_legs default_options 60000 none).rejections
    ≡ is_ready (validate_candidate arb_scan two_legs default_options 60000 none).status
validate_candidate-explained_example =
    validate_candidate-explained arb_scan two_legs default_options 60000 none refl

validate_candidate-unparsed_example :
    let r =
      validate_candidate arb_scan legs_with_bad_stamp default_options 10000 (some fetched_again) in
    let limits = void.Arbitrage.Candidate.limits_of default_options in
    (r.cross_source.pass ≡ false)
    × (is_verified r.status ≡ (
        is_arb arb_scan.status
        && every (same_price limits.tolerance fetched_again) legs_with_bad_stamp
        && every (fetched fetched_again) legs_with_bad_stamp
        && every attestable legs_with_bad_stamp
        && every (in_time limits 10000) legs_with_bad_stamp
        && every (trusted limits) legs_with_bad_stamp))
validate_candidate-unparsed_example =
    validate_candidate-unparsed arb_scan legs_with_bad_stamp default_options 10000 fetched_again
      (there here) refl
