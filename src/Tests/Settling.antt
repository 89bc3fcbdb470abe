-- ===== src/Tests/Settling.antt =====
-- Lines, settlement, payouts and the rule engine of packages/settlement/src.
use mathlib.Core.Option
use void.Base.{is_some, ◌≡◌, refl, true, false, none, some, [], ◌∷◌, In, here, there, ok, throws}
use void.Base.Int.{pos, negsuc, ◌+ℤ◌, ◌-ℤ◌, scale}
use void.Base.Ratio.{whole, ◌≈◌}
use void.Domain.Values.{
  SettlementResult, ComponentResult, MarketFamily, MarketType, Period, Participant, Outcome,
}
use void.Outcome.Score.{match_state, score}
use void.Settlement.Line.{
  Decimal, parse_canonical_line, format_cents, line_kind, quarter, split_asian_line, cents,
}
use void.Settlement.Line.Split.{parse_canonical_line-format_cents, read_back}
use void.Settlement.Settle.{
  settle_total, settle_handicap, settle_selection, settle_finished, period_score,
}
use void.Settlement.Selection.{
  SettleableSelection, MatchState, SettleAssessment, settled, quarter_split,
}
use void.Settlement.Settle.Total.{
  returned, result_of, mirror, over_by_distance, line_splits, settle_total-mirror,
  settle_total-quarter,
}
use void.Settlement.Settle.Handicap.{advantage, settle_handicap-quarter}
use void.Settlement.Settle.Selection.{settle_selection-returned}
use void.Settlement.Settle.Settled.{has, SameData, settles_alike}
use void.Settlement.Payout.{payout, component_payouts}
use void.Settlement.Payout.Sum.{total_of, component_payouts_sum}
use void.Settlement.Engine.{
  SettlementRule, Store, SettleVerdict, standard_rule, std, rule_for, register, new_engine,
  engine_settle, already_registered, is_active, verdict_of, no_rule, same_name,
}
use void.Settlement.Engine.Rules.{Latest, Named, Registers, rule_for-Latest, register-Registers}
use void.Settlement.Engine.Standard.{Seeded, store_or_empty, new_engine-Seeded, new_engine-throws}
use void.Domain.Stamp.{parsed}
use void.Text.{Text, codes, text_eq}

abbrev two_and_quarter : Decimal
two_and_quarter = record { numerator = pos 225; denominator = 100 }

parses : parse_canonical_line (codes "2.25") ≡ some two_and_quarter
unfolding parse_canonical_line void.Text.is_digit void.Text.span_digits void.Text.digits_value
parses = refl

is_quarter : line_kind two_and_quarter ≡ quarter
unfolding line_kind cents scale
is_quarter = refl

splits : split_asian_line (codes "2.25") ≡ some (codes "2" ∷ codes "2.5" ∷ [])
unfolding split_asian_line void.Text.show_nat ◌+ℤ◌ ◌-ℤ◌ void.Text.is_digit parse_canonical_line
splits = refl

splits_below_zero : split_asian_line (codes "-0.75") ≡ some (codes "-1" ∷ codes "-0.5" ∷ [])
unfolding split_asian_line void.Text.show_nat ◌+ℤ◌ ◌-ℤ◌ void.Text.is_digit parse_canonical_line
splits_below_zero = refl

settle_total-mirror_example :
    (result_of (settle_total (pos 2) (some (codes "2.25")) Outcome.under)
      ≡ Option.map mirror (result_of (settle_total (pos 2) (some (codes "2.25")) Outcome.over)))
    × (is_some (result_of (settle_total (pos 2) (some (codes "2.25")) Outcome.over))
        ≡ line_splits (some (codes "2.25")))
    × (is_some (result_of (settle_total (pos 2) (some (codes "2.25")) Outcome.under))
        ≡ line_splits (some (codes "2.25")))
settle_total-mirror_example = settle_total-mirror (pos 2) (some (codes "2.25"))

settle_total-quarter_example :
    result_of (settle_total (pos 2) (some (codes "2.25")) Outcome.over)
    ≡ some (over_by_distance (scale 100 (pos 2) -ℤ cents two_and_quarter))
settle_total-quarter_example =
    settle_total-quarter (pos 2) (codes "2.25") two_and_quarter parses is_quarter

settle_handicap-quarter_example :
    result_of (settle_handicap (negsuc 1) (some (codes "2.25")) Participant.home)
    ≡ some (over_by_distance (advantage Participant.home (negsuc 1) (cents two_and_quarter)))
settle_handicap-quarter_example =
    settle_handicap-quarter Participant.home (negsuc 1) (codes "2.25") two_and_quarter parses
      is_quarter

parse_canonical_line-format_cents_example :
    parse_canonical_line (format_cents (negsuc 74)) ≡ read_back (negsuc 74)
parse_canonical_line-format_cents_example = parse_canonical_line-format_cents (negsuc 74)

abbrev over_two_and_quarter : SettleableSelection
over_two_and_quarter = record {
  family = MarketFamily.asian_total;
  market_type = MarketType.asian;
  period = Period.full_match;
  participant = none;
  line = some (codes "2.25");
  outcome = Outcome.over;
}

abbrev one_all : MatchState
one_all = match_state (score 1 1) none none none

abbrev three_one : MatchState
three_one = match_state (score 3 1) none none none

settle_selection-returned_example : returned (settle_selection over_two_and_quarter one_all) ≡ true
settle_selection-returned_example = settle_selection-returned over_two_and_quarter one_all

same_data : SameData over_two_and_quarter one_all three_one MarketFamily.asian_total
unfolding period_score
same_data = record { status = refl; score = λ e. refl; corners = λ e. refl; cards = λ e. refl }

settles_alike_example :
    has (result_of (settle_selection over_two_and_quarter one_all))
    ≡ has (result_of (settle_selection over_two_and_quarter three_one))
settles_alike_example = settles_alike over_two_and_quarter one_all three_one same_data

abbrev half_lost : SettleAssessment
half_lost = record {
  state = record {
    result = SettlementResult.half_loss;
    components = some (ComponentResult.push ∷ ComponentResult.loss ∷ []);
  };
  notes = quarter_split (codes "2.25") (codes "2" ∷ codes "2.5" ∷ []) ∷ [];
}

loses_half : settle_selection over_two_and_quarter one_all ≡ ok (settled half_lost)
unfolding settle_selection settle_finished period_score settle_total split_asian_line
    parse_canonical_line void.Settlement.Settle.compare_line void.Settlement.Settle.combined_state
    void.Domain.Components.settlement_result_from_components void.Text.show_nat
    void.Text.span_digits void.Text.digits_value ◌+ℤ◌ ◌-ℤ◌ void.Text.is_digit scale
loses_half = refl

component_payouts_sum_example :
    total_of (component_payouts half_lost (whole 10) (whole 2))
    ≈ payout (whole 10) (whole 2) SettlementResult.half_loss
component_payouts_sum_example =
    component_payouts_sum over_two_and_quarter one_all (whole 10) (whole 2) half_lost loses_half

-- A standard rule that is no longer in force.
abbrev expired_rule : SettlementRule
expired_rule = record standard_rule { effective_to = some (parsed 1000) }

abbrev later_rule : SettlementRule
later_rule = record standard_rule { rule_version = codes "2"; effective_from = some (parsed 500) }

abbrev two_rules : Store
two_rules = expired_rule ∷ later_rule ∷ []

rule_for-Latest_example : Latest std 700 two_rules (rule_for std 700 two_rules)
rule_for-Latest_example = rule_for-Latest std 700 two_rules

finds_later : rule_for std 700 two_rules ≡ some later_rule
unfolding rule_for is_active void.Settlement.Engine.candidates void.Settlement.Engine.insert_rule
    void.Settlement.Engine.sort_rules
finds_later = refl

kept_apart : Named (expired_rule ∷ [])
kept_apart = (refl, tt)

register-Registers_example :
    Registers later_rule (expired_rule ∷ []) (register later_rule (expired_rule ∷ []))
register-Registers_example = register-Registers later_rule (expired_rule ∷ []) kept_apart

abbrev other_rule : SettlementRule
other_rule = record standard_rule { provider = codes "b" }

other_seeded : new_engine (some (other_rule ∷ [])) true 5 ≡ ok (other_rule ∷ standard_rule ∷ [])
unfolding new_engine void.Settlement.Engine.register rule_for is_active
    void.Settlement.Engine.candidates void.Settlement.Engine.insert_rule
    void.Settlement.Engine.sort_rules
other_seeded = refl

new_engine-Seeded_example :
    Seeded (store_or_empty (some (other_rule ∷ []))) 5 (other_rule ∷ standard_rule ∷ [])
new_engine-Seeded_example =
    new_engine-Seeded (some (other_rule ∷ [])) 5 (other_rule ∷ standard_rule ∷ []) other_seeded

none_active : (q : SettlementRule) → In q (expired_rule ∷ []) → is_active std 2000 q ≡ false
unfolding is_active
none_active q here = refl
none_active q (there i) = elim i [ ]

new_engine-throws_example :
    new_engine (some (expired_rule ∷ [])) true 2000 ≡ throws (already_registered std (codes "1"))
new_engine-throws_example =
    new_engine-throws (expired_rule ∷ []) 2000 expired_rule here refl none_active
