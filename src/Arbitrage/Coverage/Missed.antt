-- ===== src/Arbitrage/Coverage/Missed.antt =====
-- Scores that the limit of `resolveLimit` (state-model.ts) and `modelOptions` (coverage.ts) leave out.
use void.Base.{
  ℕ, suc, ◌+◌, ◌-◌, ◌≤◌, ◌≡◌, refl, ap, ◌∙◌, true, false, Option, none, some, List, [], ◌∷◌, arith,
}
use void.Base.Ratio.{whole}
use void.Domain.Values.{SettlementResult, MarketFamily, MarketType, Period, Participant, Outcome}
use void.Outcome.Score.{match_state, score}
use void.Outcome.Classes.{settle_vector}
use void.Outcome.Model.{StateModelOptions}
use void.Arbitrage.Coverage.{detect_false_arb, selections_of}
use void.Arbitrage.Report.{ArbitrageLeg, covered}
use void.Text.{codes}

-- Under 1.5 goals of the away team, and the away team with a handicap of 1.5.
abbrev pub away_under_leg : ArbitrageLeg
away_under_leg = record {
  id = codes "away-under";
  selection = record {
    family = MarketFamily.team_total;
    market_type = MarketType.standard;
    period = Period.full_match;
    participant = some Participant.away;
    line = some (codes "1.5");
    outcome = Outcome.under;
  };
  odds = whole 4;
}

abbrev pub away_handicap_leg : ArbitrageLeg
away_handicap_leg = record {
  id = codes "away-handicap";
  selection = record {
    family = MarketFamily.asian_handicap;
    market_type = MarketType.asian;
    period = Period.full_match;
    participant = some Participant.away;
    line = some (codes "1.5");
    outcome = Outcome.away;
  };
  odds = whole 4;
}

abbrev pub missed_legs : List ArbitrageLeg
missed_legs = away_under_leg ∷ away_handicap_leg ∷ []

abbrev pub no_options : StateModelOptions
no_options = record { max_goals = none; max_corners = none; max_cards = none }

pub missed-covered : (detect_false_arb missed_legs no_options).status ≡ covered
unfolding void.Arbitrage.Coverage.detect_false_arb void.Arbitrage.Coverage.indices_where
    void.Arbitrage.Report.metric_key void.Arbitrage.Report.selection_key
    void.Arbitrage.Report.leg_ids_for void.Arbitrage.Coverage.model_options
    void.Arbitrage.Report.empty_report void.Arbitrage.Report.push_group
    void.Arbitrage.Report.large_groups void.Arbitrage.Report.duplicate_legs
    void.Arbitrage.Report.push_rejection void.Arbitrage.Coverage.group_metrics
    void.Arbitrage.Coverage.check_state void.Arbitrage.Coverage.check_states
    void.Arbitrage.Coverage.report_model void.Arbitrage.Coverage.report_duplicates
    void.Domain.Names.family_name void.Domain.Components.settlement_result_from_components
    void.Base.Int.◌-ℤ◌ void.Base.Int.◌+ℤ◌ void.Base.Int.scale void.Settlement.Line.split_asian_line
    void.Settlement.Line.parse_canonical_line void.Settlement.Settle.settle_selection
    void.Settlement.Settle.settle_finished void.Settlement.Settle.period_score
    void.Settlement.Settle.settle_total void.Settlement.Settle.compare_line
    void.Settlement.Settle.settle_handicap void.Settlement.Settle.handicap_component
    void.Settlement.Settle.combined_state void.Text.is_digit void.Text.show_nat
    void.Text.span_digits void.Text.digits_value void.Outcome.Bounds.selection_bound
    void.Outcome.Classes.vector_eq void.Outcome.Classes.settle_vector
    void.Outcome.Bounds.boundary_max void.Outcome.Classes.build_goal_classes
    void.Outcome.Classes.filter_by void.Outcome.Model.sort_selections void.Outcome.Model.all_settled
    void.Outcome.Model.collect_states void.Outcome.Model.combinations
    void.Outcome.Model.model_combinations void.Outcome.Model.model_states
    void.Outcome.Model.build_state_model
missed-covered = refl

missed-lost :
    (h a : ℕ)
    → 2 ≤ a
    → a + 2 ≤ h
    → settle_vector (selections_of missed_legs) (match_state (score h a) none none none)
      ≡ some SettlementResult.full_loss ∷ some SettlementResult.full_loss ∷ []
unfolding settle_vector void.Settlement.Settle.settle_selection
    void.Settlement.Settle.settle_finished void.Settlement.Settle.period_score
    void.Settlement.Settle.settle_total void.Settlement.Settle.settle_handicap
    void.Settlement.Settle.handicap_component void.Settlement.Settle.compare_line
    void.Settlement.Settle.combined_state void.Domain.Components.settlement_result_from_components
    void.Settlement.Line.split_asian_line void.Settlement.Line.parse_canonical_line
    void.Text.is_digit void.Text.show_nat void.Text.span_digits void.Text.digits_value
    void.Base.Int.scale void.Base.Int.◌-ℤ◌ void.Base.Int.◌+ℤ◌
missed-lost h a l m = ground arith

-- The report on `missed_legs` is covered, and yet both legs lose in full at every score at which the
-- away team has two goals or more and the home team two more than it.
pub detect_false_arb-misses :
    (h a : ℕ)
    → 2 ≤ a
    → a + 2 ≤ h
    → ((detect_false_arb missed_legs no_options).status ≡ covered)
      × (settle_vector (selections_of missed_legs) (match_state (score h a) none none none)
          ≡ some SettlementResult.full_loss ∷ some SettlementResult.full_loss ∷ [])
detect_false_arb-misses h a l m = (missed-covered, missed-lost h a l m)
