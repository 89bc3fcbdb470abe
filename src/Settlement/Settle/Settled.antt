-- ===== src/Settlement/Settle/Settled.antt =====
-- Whether a selection settles does not depend on the scores and counts, only on which are there.
use void.Base.{
  ℕ, ◌≡◌, refl, sym, ap, ◌∙◌, Option, none, some, List, arith, Bool, true, false, not, ◌&&◌, ok,
  throws,
}
use void.Base.Int.{ℤ}
use void.Domain.Values.{ComponentResult, MarketFamily, Participant, Outcome, EventStatus}
use void.Settlement.Settle.{
  settle_finished, settle_selection, settle_status, on_score, team_total, asian_handicap,
  settle_count, settle_result_market, settle_btts, settle_exact_score, exact_on, combined_state,
  settle_total, total_on, settle_handicap, handicap_on, period_score,
}
use void.Settlement.Selection.{
  Settles, settled, unknown, SettleableSelection, MatchState, LineScore, Reason, Note,
}
use void.Settlement.Settle.Total.{returned, result_of}
use void.Settlement.Settle.Selection.{settle_selection-returned}
use void.Text.{Text}

abbrev pub has {ℓ} : {A : Type ℓ} → Option A → Bool
has none = false
has (some a) = true

abbrev pub refuses : Settles → Bool
refuses (ok (unknown r)) = true
refuses (ok (settled a)) = false
refuses (throws e) = false

abbrev needs_corners : MarketFamily → Bool
needs_corners MarketFamily.corners = true
needs_corners _ = false

abbrev needs_cards : MarketFamily → Bool
needs_cards MarketFamily.cards = true
needs_cards _ = false

abbrev needs_score : MarketFamily → Bool
needs_score f = not (needs_corners f) && not (needs_cards f)

has-result_of : (s : Settles) → returned s ≡ true → has (result_of s) ≡ not (refuses s)
has-result_of s h = ground arith

combined_state-settles :
    (cs : List ComponentResult) (notes : List Note) → refuses (combined_state cs notes) ≡ false
unfolding combined_state
combined_state-settles cs notes = ground arith

alike :
    (cs ds : List ComponentResult) (notes notes' : List Note)
    → refuses (combined_state cs notes) ≡ refuses (combined_state ds notes')
alike cs ds notes notes' = combined_state-settles cs notes ∙ sym (combined_state-settles ds notes')

total_on-refuses :
    (a b : ℤ) (line : Text) (o : Outcome) (ls : Option (List Text))
    → refuses (total_on a line ls o) ≡ refuses (total_on b line ls o)
unfolding total_on
total_on-refuses a b line o none = refl
total_on-refuses a b line Outcome.over (some ls) = alike _ _ _ _
total_on-refuses a b line Outcome.under (some ls) = alike _ _ _ _
total_on-refuses a b line _ (some ls) = refl

settle_total-refuses :
    (a b : ℤ) (line : Option Text) (o : Outcome)
    → refuses (settle_total a line o) ≡ refuses (settle_total b line o)
unfolding settle_total
settle_total-refuses a b none o = refl
settle_total-refuses a b (some line) o = total_on-refuses a b line o _

handicap_on-refuses :
    (a b : ℤ) (line : Text) (side : Participant) (ls : Option (List Text))
    → refuses (handicap_on a line ls side) ≡ refuses (handicap_on b line ls side)
unfolding handicap_on
handicap_on-refuses a b line side none = refl
handicap_on-refuses a b line side (some ls) = alike _ _ _ _

settle_handicap-refuses :
    (a b : ℤ) (line : Option Text) (side : Participant)
    → refuses (settle_handicap a line side) ≡ refuses (settle_handicap b line side)
unfolding settle_handicap
settle_handicap-refuses a b none side = refl
settle_handicap-refuses a b (some line) side = handicap_on-refuses a b line side _

settle_result_market-refuses :
    (a b : ℤ) (o : Outcome)
    → refuses (settle_result_market a o) ≡ refuses (settle_result_market b o)
unfolding settle_result_market
settle_result_market-refuses a b Outcome.home = alike _ _ _ _
settle_result_market-refuses a b Outcome.draw = alike _ _ _ _
settle_result_market-refuses a b Outcome.away = alike _ _ _ _
settle_result_market-refuses a b Outcome.home_or_draw = alike _ _ _ _
settle_result_market-refuses a b Outcome.away_or_draw = alike _ _ _ _
settle_result_market-refuses a b Outcome.home_or_away = alike _ _ _ _
settle_result_market-refuses a b _ = refl

settle_btts-refuses :
    (a b : LineScore) (o : Outcome) → refuses (settle_btts a o) ≡ refuses (settle_btts b o)
unfolding settle_btts
settle_btts-refuses a b Outcome.btts_yes = alike _ _ _ _
settle_btts-refuses a b Outcome.btts_no = alike _ _ _ _
settle_btts-refuses a b _ = refl

exact_on-refuses :
    (a b : LineScore) (o : Outcome) (e : Option (ℕ × ℕ))
    → refuses (exact_on a o e) ≡ refuses (exact_on b o e)
unfolding exact_on
exact_on-refuses a b o none = refl
exact_on-refuses a b o (some e) = alike _ _ _ _

on_score-refuses :
    (r : Reason) (settle : LineScore → Settles) (a b : Option LineScore)
    → ((a b : LineScore) → refuses (settle a) ≡ refuses (settle b))
    → has a ≡ has b
    → refuses (on_score r settle a) ≡ refuses (on_score r settle b)
on_score-refuses r settle none none h e = refl
on_score-refuses r settle none (some b) h e = cc
on_score-refuses r settle (some a) none h e = cc
on_score-refuses r settle (some a) (some b) h e = h a b

module _ (s : SettleableSelection) where
  team_total-refuses :
      (p : Option Participant) (a b : LineScore)
      → refuses (team_total s p a) ≡ refuses (team_total s p b)
  unfolding team_total
  team_total-refuses none a b = refl
  team_total-refuses (some side) a b = settle_total-refuses _ _ s.line s.outcome

  asian_handicap-refuses :
      (o : Outcome) (a b : LineScore)
      → refuses (asian_handicap s o a) ≡ refuses (asian_handicap s o b)
  unfolding asian_handicap
  asian_handicap-refuses Outcome.home a b = settle_handicap-refuses _ _ s.line _
  asian_handicap-refuses Outcome.away a b = settle_handicap-refuses _ _ s.line _
  asian_handicap-refuses _ a b = refl

  settle_count-refuses :
      (r : Reason) (a b : Option LineScore)
      → has a ≡ has b
      → refuses (settle_count r s a) ≡ refuses (settle_count r s b)
  unfolding settle_count
  settle_count-refuses r none none e = refl
  settle_count-refuses r none (some b) e = cc
  settle_count-refuses r (some a) none e = cc
  settle_count-refuses r (some a) (some b) e = settle_total-refuses _ _ s.line s.outcome

  -- Two matches that give the same scores and counts to the selection, whatever their values.
  pub record SameData (m n : MatchState) (f : MarketFamily) : Type 0 where
    pub status : m.status ≡ n.status
    pub score : needs_score f ≡ true → has (period_score m s.period) ≡ has (period_score n s.period)
    pub corners : needs_corners f ≡ true → has m.corners ≡ has n.corners
    pub cards : needs_cards f ≡ true → has m.cards ≡ has n.cards

  module _ (m n : MatchState) where
    settle_finished-refuses :
        (f : MarketFamily)
        → SameData m n f
        → refuses (settle_finished s m f) ≡ refuses (settle_finished s n f)
    unfolding settle_finished settle_exact_score
    settle_finished-refuses MarketFamily.match_total d =
        on_score-refuses _ _ (period_score m s.period) (period_score n s.period)
          (λ a b. settle_total-refuses _ _ s.line s.outcome) (d.score refl)
    settle_finished-refuses MarketFamily.asian_total d =
        on_score-refuses _ _ (period_score m s.period) (period_score n s.period)
          (λ a b. settle_total-refuses _ _ s.line s.outcome) (d.score refl)
    settle_finished-refuses MarketFamily.team_total d =
        on_score-refuses _ _ (period_score m s.period) (period_score n s.period)
          (team_total-refuses s.participant) (d.score refl)
    settle_finished-refuses MarketFamily.team_asian_total d =
        on_score-refuses _ _ (period_score m s.period) (period_score n s.period)
          (team_total-refuses s.participant) (d.score refl)
    settle_finished-refuses MarketFamily.asian_handicap d =
        on_score-refuses _ _ (period_score m s.period) (period_score n s.period)
          (asian_handicap-refuses s.outcome) (d.score refl)
    settle_finished-refuses MarketFamily.corners d =
        settle_count-refuses _ m.corners n.corners (d.corners refl)
    settle_finished-refuses MarketFamily.cards d =
        settle_count-refuses _ m.cards n.cards (d.cards refl)
    settle_finished-refuses MarketFamily.match_result d =
        on_score-refuses _ _ (period_score m s.period) (period_score n s.period)
          (λ a b. settle_result_market-refuses _ _ s.outcome) (d.score refl)
    settle_finished-refuses MarketFamily.double_chance d =
        on_score-refuses _ _ (period_score m s.period) (period_score n s.period)
          (λ a b. settle_result_market-refuses _ _ s.outcome) (d.score refl)
    settle_finished-refuses MarketFamily.btts d =
        on_score-refuses _ _ (period_score m s.period) (period_score n s.period)
          (λ a b. settle_btts-refuses a b s.outcome) (d.score refl)
    settle_finished-refuses MarketFamily.exact_score d =
        on_score-refuses _ _ (period_score m s.period) (period_score n s.period)
          (λ a b. exact_on-refuses a b s.outcome _) (d.score refl)

    settle_status-refuses :
        (e : EventStatus)
        → SameData m n s.family
        → refuses (settle_status s m e) ≡ refuses (settle_status s n e)
    unfolding settle_status
    settle_status-refuses EventStatus.finished d = settle_finished-refuses s.family d
    settle_status-refuses _ d = refl

    settle_selection-refuses :
        SameData m n s.family → refuses (settle_selection s m) ≡ refuses (settle_selection s n)
    unfolding settle_selection
    settle_selection-refuses d =
        ap (λ e. refuses (settle_status s m e)) d.status ∙ settle_status-refuses n.status d

    -- For matches of the same status with the same data present, a selection settles in both or in
    -- neither.
    pub settles_alike :
        SameData m n s.family
        → has (result_of (settle_selection s m)) ≡ has (result_of (settle_selection s n))
    settles_alike d =
        rw
          (
            has-result_of _ (settle_selection-returned s m),
            has-result_of _ (settle_selection-returned s n),
          )
          (ap not (settle_selection-refuses d))
