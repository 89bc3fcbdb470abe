-- ===== src/Domain/Values.antt =====
-- packages/domain/src/value-sets.ts. A value set of strings is a data type with a constructor for
-- each string; the equality of two strings of a set is a function into Bool.
use void.Text.{Text}
use void.Base.{Bool, true, false, ◌≡◌, arith}

pub data SettlementResult : Type 0 where
  full_win full_loss push half_win half_loss voided : SettlementResult

pub data ComponentResult : Type 0 where
  win loss push voided : ComponentResult

pub data OpportunityStatus : Type 0 where
  detected validating theoretical_arb fresh_arb verified_arb stale invalidated rejected :
      OpportunityStatus

pub data RejectionReason : Type 0 where
  unknown_settlement event_mismatch event_match_failed event_match_uncertain period_mismatch :
      RejectionReason
  non_exhaustive non_exclusive both_loss_state negative_guaranteed_profit stale_odds :
      RejectionReason
  invalid_odds invalid_odds_payload invalid_market unsupported_market no_state_model :
      RejectionReason
  incomplete_coverage stake_limit rounding_destroys_profit optimization_failed : RejectionReason
  provider_error provider_unavailable settlement_confidence_low : RejectionReason
  cross_source_timestamp_spread price_changed_on_recheck insufficient_provenance : RejectionReason

pub data MarketFamily : Type 0 where
  match_result double_chance match_total asian_total asian_handicap team_total : MarketFamily
  team_asian_total corners cards btts exact_score : MarketFamily

-- packages/domain/src/market.ts
pub data MarketType : Type 0 where
  one_x_two double_chance standard asian handicap btts exact_score : MarketType

pub data Period : Type 0 where
  full_match first_half second_half extra_time penalties : Period

pub data Participant : Type 0 where
  home away : Participant

pub data EventStatus : Type 0 where
  scheduled live finished postponed cancelled abandoned unknown : EventStatus

-- The outcome of a selection is any string: those of the value set, and all others, exact scores
-- such as "2-1" among them.
pub data Outcome : Type 0 where
  home draw away over under btts_yes btts_no home_or_draw away_or_draw home_or_away : Outcome
  other : Text → Outcome

abbrev pub component_eq : ComponentResult → ComponentResult → Bool
component_eq win win = true
component_eq loss loss = true
component_eq push push = true
component_eq voided voided = true
component_eq _ _ = false

abbrev pub result_eq : SettlementResult → SettlementResult → Bool
result_eq full_win full_win = true
result_eq full_loss full_loss = true
result_eq push push = true
result_eq half_win half_win = true
result_eq half_loss half_loss = true
result_eq voided voided = true
result_eq _ _ = false

pub result_eq-eq : (r s : SettlementResult) → result_eq r s ≡ true → r ≡ s
result_eq-eq r s h = ground arith

abbrev pub reason_eq : RejectionReason → RejectionReason → Bool
reason_eq RejectionReason.unknown_settlement RejectionReason.unknown_settlement = true
reason_eq RejectionReason.event_mismatch RejectionReason.event_mismatch = true
reason_eq RejectionReason.event_match_failed RejectionReason.event_match_failed = true
reason_eq RejectionReason.event_match_uncertain RejectionReason.event_match_uncertain = true
reason_eq RejectionReason.period_mismatch RejectionReason.period_mismatch = true
reason_eq RejectionReason.non_exhaustive RejectionReason.non_exhaustive = true
reason_eq RejectionReason.non_exclusive RejectionReason.non_exclusive = true
reason_eq RejectionReason.both_loss_state RejectionReason.both_loss_state = true
reason_eq RejectionReason.negative_guaranteed_profit RejectionReason.negative_guaranteed_profit =
    true
reason_eq RejectionReason.stale_odds RejectionReason.stale_odds = true
reason_eq RejectionReason.invalid_odds RejectionReason.invalid_odds = true
reason_eq RejectionReason.invalid_odds_payload RejectionReason.invalid_odds_payload = true
reason_eq RejectionReason.invalid_market RejectionReason.invalid_market = true
reason_eq RejectionReason.unsupported_market RejectionReason.unsupported_market = true
reason_eq RejectionReason.no_state_model RejectionReason.no_state_model = true
reason_eq RejectionReason.incomplete_coverage RejectionReason.incomplete_coverage = true
reason_eq RejectionReason.stake_limit RejectionReason.stake_limit = true
reason_eq RejectionReason.rounding_destroys_profit RejectionReason.rounding_destroys_profit = true
reason_eq RejectionReason.optimization_failed RejectionReason.optimization_failed = true
reason_eq RejectionReason.provider_error RejectionReason.provider_error = true
reason_eq RejectionReason.provider_unavailable RejectionReason.provider_unavailable = true
reason_eq RejectionReason.settlement_confidence_low RejectionReason.settlement_confidence_low = true
reason_eq RejectionReason.cross_source_timestamp_spread
      RejectionReason.cross_source_timestamp_spread =
    true
reason_eq RejectionReason.price_changed_on_recheck RejectionReason.price_changed_on_recheck = true
reason_eq RejectionReason.insufficient_provenance RejectionReason.insufficient_provenance = true
reason_eq _ _ = false
