-- ===== src/Settlement/Settle/Selection.antt =====
-- `settleSelection` on every family and status.
use void.Base.{ℕ, ◌≡◌, refl, Option, none, some, arith, true}
use void.Base.Int.{ℤ}
use void.Domain.Values.{MarketFamily, Participant, EventStatus, Outcome}
use void.Domain.Components.{settlement_result_from_components}
use void.Settlement.Settle.{
  settle_selection, settle_status, settle_finished, on_score, with_score, team_total, side_score,
  asian_handicap, settle_count, settle_result_market, settle_btts, settle_exact_score, exact_on,
  combined_state, period_score,
}
use void.Settlement.Selection.{Settles, SettleableSelection, MatchState, LineScore, Reason}
use void.Settlement.Settle.Total.{returned, settle_total-returned}
use void.Settlement.Settle.Handicap.{settle_handicap-returned}

settle_result_market-returned : (m : ℤ) (o : Outcome) → returned (settle_result_market m o) ≡ true
unfolding settle_result_market combined_state settlement_result_from_components
settle_result_market-returned m o = ground arith

settle_btts-returned : (s : LineScore) (o : Outcome) → returned (settle_btts s o) ≡ true
unfolding settle_btts combined_state settlement_result_from_components
settle_btts-returned s o = ground arith

exact_on-returned :
    (s : LineScore) (o : Outcome) (e : Option (ℕ × ℕ)) → returned (exact_on s o e) ≡ true
unfolding exact_on combined_state settlement_result_from_components
exact_on-returned s o e = ground arith

on_score-returned :
    (r : Reason) (settle : LineScore → Settles) (score : Option LineScore)
    → ((score : LineScore) → returned (settle score) ≡ true)
    → returned (on_score r settle score) ≡ true
on_score-returned r settle none h = refl
on_score-returned r settle (some score) h = h score

module _ (s : SettleableSelection) (m : MatchState) where
  with_score-returned :
      (settle : LineScore → Settles)
      → ((score : LineScore) → returned (settle score) ≡ true)
      → returned (with_score s m settle) ≡ true
  with_score-returned settle h = on_score-returned _ settle (period_score m s.period) h

  team_total-returned :
      (p : Option Participant) (score : LineScore) → returned (team_total s p score) ≡ true
  unfolding team_total
  team_total-returned none score = refl
  team_total-returned (some side) score =
      settle_total-returned (side_score side score) s.line s.outcome

  asian_handicap-returned :
      (o : Outcome) (score : LineScore) → returned (asian_handicap s o score) ≡ true
  unfolding asian_handicap
  asian_handicap-returned Outcome.home score = settle_handicap-returned _ s.line _
  asian_handicap-returned Outcome.away score = settle_handicap-returned _ s.line _
  asian_handicap-returned _ score = refl

  settle_count-returned :
      (r : Reason) (count : Option LineScore) → returned (settle_count r s count) ≡ true
  unfolding settle_count
  settle_count-returned r none = refl
  settle_count-returned r (some count) = settle_total-returned _ s.line s.outcome

  settle_finished-returned : (f : MarketFamily) → returned (settle_finished s m f) ≡ true
  unfolding settle_finished settle_exact_score
  settle_finished-returned MarketFamily.match_total =
      with_score-returned _ λ score. settle_total-returned _ s.line s.outcome
  settle_finished-returned MarketFamily.asian_total =
      with_score-returned _ λ score. settle_total-returned _ s.line s.outcome
  settle_finished-returned MarketFamily.team_total =
      with_score-returned _ (team_total-returned s.participant)
  settle_finished-returned MarketFamily.team_asian_total =
      with_score-returned _ (team_total-returned s.participant)
  settle_finished-returned MarketFamily.asian_handicap =
      with_score-returned _ (asian_handicap-returned s.outcome)
  settle_finished-returned MarketFamily.corners = settle_count-returned _ m.corners
  settle_finished-returned MarketFamily.cards = settle_count-returned _ m.cards
  settle_finished-returned MarketFamily.match_result =
      with_score-returned _ λ score. settle_result_market-returned _ s.outcome
  settle_finished-returned MarketFamily.double_chance =
      with_score-returned _ λ score. settle_result_market-returned _ s.outcome
  settle_finished-returned MarketFamily.btts =
      with_score-returned _ λ score. settle_btts-returned score s.outcome
  settle_finished-returned MarketFamily.exact_score =
      with_score-returned _ λ score. exact_on-returned score s.outcome _

  settle_status-returned : (e : EventStatus) → returned (settle_status s m e) ≡ true
  unfolding settle_status combined_state settlement_result_from_components
  settle_status-returned EventStatus.finished = settle_finished-returned s.family
  settle_status-returned _ = refl

-- No selection and no match state makes the settlement throw: the components that it combines never
-- mix a win with a loss or a void with anything else.
pub settle_selection-returned :
    (s : SettleableSelection) (m : MatchState) → returned (settle_selection s m) ≡ true
unfolding settle_selection
settle_selection-returned s m = settle_status-returned s m m.status
