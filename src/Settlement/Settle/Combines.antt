-- ===== src/Settlement/Settle/Combines.antt =====
-- Every settlement is a refusal, or the combination of one or two components.
use void.Base.{ℕ, Option, none, some, List, [], ◌∷◌, ok}
use void.Base.Int.{ℤ}
use void.Domain.Values.{ComponentResult, MarketFamily, Participant, EventStatus, Outcome}
use void.Settlement.Line.Split.{Splits, invalid, single, quarters, split_asian_line-Splits}
use void.Settlement.Settle.{
  settle_selection, settle_status, settle_finished, on_score, team_total, asian_handicap,
  settle_count, settle_result_market, settle_btts, settle_exact_score, exact_on, combined_state,
  settle_total, total_on, settle_handicap, handicap_on, period_score,
}
use void.Settlement.Selection.{
  Settles, unknown, SettleableSelection, MatchState, LineScore, Reason, Note,
}
use void.Text.{Text}

pub data Combines : Settles → Type 0 where
  refused : (r : Reason) → Combines (ok (unknown r))
  one : (c : ComponentResult) (notes : List Note) → Combines (combined_state (c ∷ []) notes)
  two : (c d : ComponentResult) (notes : List Note) → Combines (combined_state (c ∷ d ∷ []) notes)

total_on-Combines :
    (a : ℤ) (line : Text) (o : Outcome) {ls : Option (List Text)}
    → Splits line ls
    → Combines (total_on a line ls o)
unfolding total_on
total_on-Combines a line o (invalid e) = refused _
total_on-Combines a line Outcome.over (single d e) = one _ _
total_on-Combines a line Outcome.under (single d e) = one _ _
total_on-Combines a line _ (single d e) = refused _
total_on-Combines a line Outcome.over (quarters d e q) = two _ _ _
total_on-Combines a line Outcome.under (quarters d e q) = two _ _ _
total_on-Combines a line _ (quarters d e q) = refused _

settle_total-Combines :
    (a : ℤ) (line : Option Text) (o : Outcome) → Combines (settle_total a line o)
unfolding settle_total
settle_total-Combines a none o = refused _
settle_total-Combines a (some line) o = total_on-Combines a line o (split_asian_line-Splits line)

handicap_on-Combines :
    (m : ℤ) (line : Text) (side : Participant) {ls : Option (List Text)}
    → Splits line ls
    → Combines (handicap_on m line ls side)
unfolding handicap_on
handicap_on-Combines m line side (invalid e) = refused _
handicap_on-Combines m line side (single d e) = one _ _
handicap_on-Combines m line side (quarters d e q) = two _ _ _

settle_handicap-Combines :
    (m : ℤ) (line : Option Text) (side : Participant) → Combines (settle_handicap m line side)
unfolding settle_handicap
settle_handicap-Combines m none side = refused _
settle_handicap-Combines m (some line) side =
    handicap_on-Combines m line side (split_asian_line-Splits line)

settle_result_market-Combines : (m : ℤ) (o : Outcome) → Combines (settle_result_market m o)
unfolding settle_result_market
settle_result_market-Combines m Outcome.home = one _ _
settle_result_market-Combines m Outcome.draw = one _ _
settle_result_market-Combines m Outcome.away = one _ _
settle_result_market-Combines m Outcome.home_or_draw = one _ _
settle_result_market-Combines m Outcome.away_or_draw = one _ _
settle_result_market-Combines m Outcome.home_or_away = one _ _
settle_result_market-Combines m _ = refused _

settle_btts-Combines : (s : LineScore) (o : Outcome) → Combines (settle_btts s o)
unfolding settle_btts
settle_btts-Combines s Outcome.btts_yes = one _ _
settle_btts-Combines s Outcome.btts_no = one _ _
settle_btts-Combines s _ = refused _

exact_on-Combines : (s : LineScore) (o : Outcome) (e : Option (ℕ × ℕ)) → Combines (exact_on s o e)
unfolding exact_on
exact_on-Combines s o none = refused _
exact_on-Combines s o (some e) = one _ _

on_score-Combines :
    (r : Reason) (settle : LineScore → Settles) (score : Option LineScore)
    → ((score : LineScore) → Combines (settle score))
    → Combines (on_score r settle score)
on_score-Combines r settle none h = refused r
on_score-Combines r settle (some score) h = h score

module _ (s : SettleableSelection) where
  team_total-Combines :
      (p : Option Participant) (score : LineScore) → Combines (team_total s p score)
  unfolding team_total
  team_total-Combines none score = refused _
  team_total-Combines (some side) score = settle_total-Combines _ s.line s.outcome

  asian_handicap-Combines : (o : Outcome) (score : LineScore) → Combines (asian_handicap s o score)
  unfolding asian_handicap
  asian_handicap-Combines Outcome.home score = settle_handicap-Combines _ s.line _
  asian_handicap-Combines Outcome.away score = settle_handicap-Combines _ s.line _
  asian_handicap-Combines _ score = refused _

  settle_count-Combines :
      (r : Reason) (count : Option LineScore) → Combines (settle_count r s count)
  unfolding settle_count
  settle_count-Combines r none = refused r
  settle_count-Combines r (some count) = settle_total-Combines _ s.line s.outcome

  module _ (m : MatchState) where
    scored :
        (r : Reason) (settle : LineScore → Settles)
        → ((score : LineScore) → Combines (settle score))
        → Combines (on_score r settle (period_score m s.period))
    scored r settle = on_score-Combines r settle (period_score m s.period)

    settle_finished-Combines : (f : MarketFamily) → Combines (settle_finished s m f)
    unfolding settle_finished settle_exact_score
    settle_finished-Combines MarketFamily.match_total =
        scored _ _ λ score. settle_total-Combines _ s.line s.outcome
    settle_finished-Combines MarketFamily.asian_total =
        scored _ _ λ score. settle_total-Combines _ s.line s.outcome
    settle_finished-Combines MarketFamily.team_total =
        scored _ _ (team_total-Combines s.participant)
    settle_finished-Combines MarketFamily.team_asian_total =
        scored _ _ (team_total-Combines s.participant)
    settle_finished-Combines MarketFamily.asian_handicap =
        scored _ _ (asian_handicap-Combines s.outcome)
    settle_finished-Combines MarketFamily.corners = settle_count-Combines _ m.corners
    settle_finished-Combines MarketFamily.cards = settle_count-Combines _ m.cards
    settle_finished-Combines MarketFamily.match_result =
        scored _ _ λ score. settle_result_market-Combines _ s.outcome
    settle_finished-Combines MarketFamily.double_chance =
        scored _ _ λ score. settle_result_market-Combines _ s.outcome
    settle_finished-Combines MarketFamily.btts =
        scored _ _ λ score. settle_btts-Combines score s.outcome
    settle_finished-Combines MarketFamily.exact_score =
        scored _ _ λ score. exact_on-Combines score s.outcome _

    settle_status-Combines : (e : EventStatus) → Combines (settle_status s m e)
    unfolding settle_status
    settle_status-Combines EventStatus.finished = settle_finished-Combines s.family
    settle_status-Combines EventStatus.cancelled = one _ _
    settle_status-Combines EventStatus.abandoned = one _ _
    settle_status-Combines EventStatus.postponed = one _ _
    settle_status-Combines _ = refused _

    pub settle_selection-Combines : Combines (settle_selection s m)
    unfolding settle_selection
    settle_selection-Combines = settle_status-Combines m.status
