-- ===== src/Domain/Names.antt =====
-- packages/domain/src/value-sets.ts and market.ts: the strings of the value sets.
use void.Domain.Values.{MarketFamily, MarketType, Period, Participant, Outcome}
use void.Text.{Text, codes}

unfoldable pub family_name : MarketFamily → Text
family_name MarketFamily.match_result = codes "MATCH_RESULT"
family_name MarketFamily.double_chance = codes "DOUBLE_CHANCE"
family_name MarketFamily.match_total = codes "MATCH_TOTAL"
family_name MarketFamily.asian_total = codes "ASIAN_TOTAL"
family_name MarketFamily.asian_handicap = codes "ASIAN_HANDICAP"
family_name MarketFamily.team_total = codes "TEAM_TOTAL"
family_name MarketFamily.team_asian_total = codes "TEAM_ASIAN_TOTAL"
family_name MarketFamily.corners = codes "CORNERS"
family_name MarketFamily.cards = codes "CARDS"
family_name MarketFamily.btts = codes "BTTS"
family_name MarketFamily.exact_score = codes "EXACT_SCORE"

unfoldable pub type_name : MarketType → Text
type_name MarketType.one_x_two = codes "1X2"
type_name MarketType.double_chance = codes "DOUBLE_CHANCE"
type_name MarketType.standard = codes "STANDARD"
type_name MarketType.asian = codes "ASIAN"
type_name MarketType.handicap = codes "HANDICAP"
type_name MarketType.btts = codes "BTTS"
type_name MarketType.exact_score = codes "EXACT_SCORE"

unfoldable pub period_name : Period → Text
period_name Period.full_match = codes "FULL_MATCH"
period_name Period.first_half = codes "FIRST_HALF"
period_name Period.second_half = codes "SECOND_HALF"
period_name Period.extra_time = codes "EXTRA_TIME"
period_name Period.penalties = codes "PENALTIES"

unfoldable pub participant_name : Participant → Text
participant_name Participant.home = codes "HOME"
participant_name Participant.away = codes "AWAY"

unfoldable pub outcome_name : Outcome → Text
outcome_name Outcome.home = codes "HOME"
outcome_name Outcome.draw = codes "DRAW"
outcome_name Outcome.away = codes "AWAY"
outcome_name Outcome.over = codes "OVER"
outcome_name Outcome.under = codes "UNDER"
outcome_name Outcome.btts_yes = codes "BTTS_YES"
outcome_name Outcome.btts_no = codes "BTTS_NO"
outcome_name Outcome.home_or_draw = codes "HOME_OR_DRAW"
outcome_name Outcome.away_or_draw = codes "AWAY_OR_DRAW"
outcome_name Outcome.home_or_away = codes "HOME_OR_AWAY"
outcome_name (Outcome.other t) = t
