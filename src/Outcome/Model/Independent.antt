-- ===== src/Outcome/Model/Independent.antt =====
-- Goal markets read only the scores, corner and card markets only their own counts.
use void.Base.{◌≡◌, refl, Option, none, true}
use void.Domain.Values.{MarketFamily, Period}
use void.Outcome.Score.{FootballScore, MetricCounts, match_state, score}
use void.Outcome.Classes.{result_at}
use void.Outcome.Model.{is_goal, is_corners, is_cards}
use void.Settlement.Settle.{settle_selection, settle_finished, period_score}
use void.Settlement.Selection.{SettleableSelection}

module _ (s : SettleableSelection) (f : FootballScore) (h : Option FootballScore)
    (c k : Option MetricCounts) where
  period_score-goals :
      (p : Period)
      → period_score (match_state f h c k) p ≡ period_score (match_state f h none none) p
  unfolding period_score
  period_score-goals Period.full_match = refl
  period_score-goals _ = refl

  settle_finished-goals :
      (family : MarketFamily)
      → is_goal family ≡ true
      → settle_finished s (match_state f h c k) family
        ≡ settle_finished s (match_state f h none none) family
  unfolding settle_finished
  settle_finished-goals MarketFamily.corners e = cc
  settle_finished-goals MarketFamily.cards e = cc
  settle_finished-goals _ e = rw (period_score-goals s.period)

  pub result_at-goals :
      is_goal s.family ≡ true
      → result_at (match_state f h c k) s ≡ result_at (match_state f h none none) s
  unfolding settle_selection
  result_at-goals e = rw (settle_finished-goals s.family e)

  settle_finished-corners :
      (family : MarketFamily)
      → is_corners family ≡ true
      → settle_finished s (match_state f h c k) family
        ≡ settle_finished s (match_state (score 0 0) none c none) family
  unfolding settle_finished
  settle_finished-corners MarketFamily.corners e = refl
  settle_finished-corners _ e = cc

  settle_finished-cards :
      (family : MarketFamily)
      → is_cards family ≡ true
      → settle_finished s (match_state f h c k) family
        ≡ settle_finished s (match_state (score 0 0) none none k) family
  unfolding settle_finished
  settle_finished-cards MarketFamily.cards e = refl
  settle_finished-cards _ e = cc

  pub result_at-corners :
      is_corners s.family ≡ true
      → result_at (match_state f h c k) s ≡ result_at (match_state (score 0 0) none c none) s
  unfolding settle_selection
  result_at-corners e = rw (settle_finished-corners s.family e)

  pub result_at-cards :
      is_cards s.family ≡ true
      → result_at (match_state f h c k) s ≡ result_at (match_state (score 0 0) none none k) s
  unfolding settle_selection
  result_at-cards e = rw (settle_finished-cards s.family e)
