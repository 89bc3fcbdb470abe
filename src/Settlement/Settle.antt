-- ===== src/Settlement/Settle.antt =====
-- packages/settlement/src/settle.ts: the settlement of a selection against a match state. Scores are
-- integers, since a derived second-half score is a difference.
pub mod Compare
pub mod Total
pub mod Combines
pub mod Settled
pub mod Selection
pub mod Handicap
use Prim.Native.Nat.{Ordering}
use void.Base.{
  ℕ, ◌+◌, Bool, true, false, ◌&&◌, ◌||◌, not, Option, none, some, List, [], ◌∷◌, map, ◌==◌,
  if◌then◌else◌, Result, ok, throws, ◌>>=◌,
}
use void.Base.Int.{ℤ, pos, ◌+ℤ◌, ◌-ℤ◌, scale, ltb_ℤ, eqb_ℤ}
use void.Domain.Values.{
  ComponentResult, SettlementResult, MarketFamily, MarketType, Period, Participant, EventStatus,
  Outcome,
}
use void.Domain.Components.{ComponentError, settlement_result_from_components}
use void.Settlement.Line.{Decimal, parse_canonical_line, split_asian_line}
use void.Text.{Text, digits_value, span_digits}
use void.Settlement.Selection.{
  LineScore, MatchState, Note, Reason, SettleAssessment, SettleCoreResult, SettleableSelection,
  SettlementState, Settles, actual_vs_line, handicap_line_required, invalid_line, margin_vs_line,
  missing_cards, missing_corners, missing_score, not_exact_score, not_finished, not_home_away,
  not_over_under, participant_required, quarter_split, settled, status_void, total_line_required,
  unknown, unsupported_btts, unsupported_result,
}

minus : LineScore → LineScore → LineScore
minus a b = record { home = a.home -ℤ b.home; away = a.away -ℤ b.away }

-- The second half, from the full time and the first half if it is not given.
derived_half : Option LineScore → Option LineScore → Option LineScore → Option LineScore
unfolding minus
derived_half (some second) first full = some second
derived_half none (some first) (some full) = some (minus full first)
derived_half none _ _ = none

unfoldable pub period_score : MatchState → Period → Option LineScore
unfolding derived_half
period_score m Period.full_match = m.full_time
period_score m Period.first_half = m.first_half
period_score m Period.second_half = derived_half m.second_half m.first_half m.full_time
period_score m Period.extra_time = m.extra_time
period_score m Period.penalties = m.penalties

unfoldable pub combined_state : List ComponentResult → List Note → Settles
combined_state components notes = settlement_result_from_components components >>= λ r. ok (
    settled (record { state = record { result = r; components = some components }; notes = notes }))

unfoldable pub single_state : ComponentResult → List Note → Settles
unfolding combined_state
single_state result notes = combined_state (result ∷ []) notes

-- The order of a count and the value of a component line. No count is above or equal to a line that
-- does not parse.
unfoldable pub compare_line : ℤ → Option Decimal → Ordering
compare_line actual none = Ordering.lt
compare_line actual (some d) =
    if ltb_ℤ d.numerator (scale d.denominator actual)
    then Ordering.gt
    else if eqb_ℤ (scale d.denominator actual) d.numerator
    then Ordering.eq
    else Ordering.lt

abbrev pub over_component : Ordering → ComponentResult
over_component Ordering.gt = ComponentResult.win
over_component Ordering.eq = ComponentResult.push
over_component Ordering.lt = ComponentResult.loss

abbrev pub under_component : Ordering → ComponentResult
under_component Ordering.lt = ComponentResult.win
under_component Ordering.eq = ComponentResult.push
under_component Ordering.gt = ComponentResult.loss

-- The note of a quarter line, or of a line that is its own component.
split_notes : Note → Text → List Text → List Note
split_notes single line (a ∷ b ∷ []) = quarter_split line (a ∷ b ∷ []) ∷ []
split_notes single line _ = single ∷ []

abbrev total_component : (Ordering → ComponentResult) → ℤ → Text → ComponentResult
total_component side actual component_line =
    side (compare_line actual (parse_canonical_line component_line))

settle_over_under : ℤ → Text → List Text → Outcome → Settles
unfolding combined_state split_notes
settle_over_under actual line lines Outcome.over =
    combined_state (map (total_component over_component actual) lines)
      (split_notes (actual_vs_line actual line) line lines)
settle_over_under actual line lines Outcome.under =
    combined_state (map (total_component under_component actual) lines)
      (split_notes (actual_vs_line actual line) line lines)
settle_over_under actual line lines outcome = ok (unknown (not_over_under outcome))

-- `settleTotal` once the line is given.
total_on : ℤ → Text → Option (List Text) → Outcome → Settles
unfolding settle_over_under
total_on actual line none outcome = ok (unknown (invalid_line line))
total_on actual line (some lines) outcome = settle_over_under actual line lines outcome

unfoldable pub settle_total : ℤ → Option Text → Outcome → Settles
unfolding total_on
settle_total actual none outcome = ok (unknown total_line_required)
settle_total actual (some line) outcome = total_on actual line (split_asian_line line) outcome

abbrev pub sign_component : ℤ → ℤ → ComponentResult
sign_component a b =
    if ltb_ℤ b a
    then ComponentResult.win
    else if ltb_ℤ a b
    then ComponentResult.loss
    else ComponentResult.push

-- The sign of `margin + value` or of `value - margin`; neither is positive or negative if the line
-- does not parse.
unfoldable pub handicap_component : Participant → ℤ → Option Decimal → ComponentResult
handicap_component side margin none = ComponentResult.push
handicap_component Participant.home margin (some d) =
    sign_component (scale d.denominator margin +ℤ d.numerator) (pos 0)
handicap_component Participant.away margin (some d) =
    sign_component (d.numerator -ℤ scale d.denominator margin) (pos 0)

handicap_on : ℤ → Text → Option (List Text) → Participant → Settles
unfolding combined_state split_notes
handicap_on margin line none side = ok (unknown (invalid_line line))
handicap_on margin line (some lines) side =
    combined_state (map (λ l. handicap_component side margin (parse_canonical_line l)) lines)
      (split_notes (margin_vs_line margin line) line lines)

unfoldable pub settle_handicap : ℤ → Option Text → Participant → Settles
unfolding handicap_on
settle_handicap margin none side = ok (unknown handicap_line_required)
settle_handicap margin (some line) side = handicap_on margin line (split_asian_line line) side

abbrev pub win_if : Bool → ComponentResult
win_if b = if b then ComponentResult.win else ComponentResult.loss

unfoldable pub settle_result_market : ℤ → Outcome → Settles
unfolding single_state
settle_result_market margin Outcome.home = single_state (win_if (ltb_ℤ (pos 0) margin)) []
settle_result_market margin Outcome.away = single_state (win_if (ltb_ℤ margin (pos 0))) []
settle_result_market margin Outcome.draw = single_state (win_if (eqb_ℤ margin (pos 0))) []
settle_result_market margin Outcome.home_or_draw =
    single_state (win_if (not (ltb_ℤ margin (pos 0)))) []
settle_result_market margin Outcome.away_or_draw =
    single_state (win_if (not (ltb_ℤ (pos 0) margin))) []
settle_result_market margin Outcome.home_or_away =
    single_state (win_if (not (eqb_ℤ margin (pos 0)))) []
settle_result_market margin outcome = ok (unknown (unsupported_result outcome))

abbrev both_scored : LineScore → Bool
both_scored s = ltb_ℤ (pos 0) s.home && ltb_ℤ (pos 0) s.away

unfoldable pub settle_btts : LineScore → Outcome → Settles
unfolding single_state
settle_btts score Outcome.btts_yes = single_state (win_if (both_scored score)) []
settle_btts score Outcome.btts_no = single_state (win_if (not (both_scored score))) []
settle_btts score outcome = ok (unknown (unsupported_btts outcome))

exact_away : ℕ → Text × Text → Option (ℕ × ℕ)
exact_away home (d ∷ ds, []) = some (home, digits_value 0 (d ∷ ds))
exact_away home _ = none

exact_home : Text × Text → Option (ℕ × ℕ)
unfolding exact_away
exact_home (d ∷ ds, c ∷ rest) =
    if c == b'-' then exact_away (digits_value 0 (d ∷ ds)) (span_digits rest) else none
exact_home _ = none

-- /^[0-9]+-[0-9]+$/ and the two numbers.
unfoldable pub parse_exact_score : Outcome → Option (ℕ × ℕ)
unfolding exact_home span_digits digits_value
parse_exact_score (Outcome.other t) = exact_home (span_digits t)
parse_exact_score _ = none

exact_on : LineScore → Outcome → Option (ℕ × ℕ) → Settles
unfolding single_state
exact_on score outcome none = ok (unknown (not_exact_score outcome))
exact_on score outcome (some (home, away)) =
    single_state (win_if (eqb_ℤ (pos home) score.home && eqb_ℤ (pos away) score.away)) []

unfoldable pub settle_exact_score : LineScore → Outcome → Settles
unfolding exact_on
settle_exact_score score outcome = exact_on score outcome (parse_exact_score outcome)

-- A market that needs the score of a period.
abbrev on_score : Reason → (LineScore → Settles) → Option LineScore → Settles
on_score missing settle none = ok (unknown missing)
on_score missing settle (some score) = settle score

abbrev with_score : SettleableSelection → MatchState → (LineScore → Settles) → Settles
with_score s m settle = on_score (missing_score s.period s.family) settle (period_score m s.period)

abbrev side_score : Participant → LineScore → ℤ
side_score Participant.home score = score.home
side_score Participant.away score = score.away

team_total : SettleableSelection → Option Participant → LineScore → Settles
team_total s none score = ok (unknown participant_required)
team_total s (some side) score = settle_total (side_score side score) s.line s.outcome

abbrev or_side : Option Participant → Participant → Participant
or_side none side = side
or_side (some p) side = p

asian_handicap : SettleableSelection → Outcome → LineScore → Settles
asian_handicap s Outcome.home score =
    settle_handicap (score.home -ℤ score.away) s.line (or_side s.participant Participant.home)
asian_handicap s Outcome.away score =
    settle_handicap (score.home -ℤ score.away) s.line (or_side s.participant Participant.away)
asian_handicap s outcome score = ok (unknown (not_home_away outcome))

settle_count : Reason → SettleableSelection → Option LineScore → Settles
settle_count reason s none = ok (unknown reason)
settle_count reason s (some count) = settle_total (count.home +ℤ count.away) s.line s.outcome

-- The switch over the family, for a finished event.
unfoldable pub settle_finished : SettleableSelection → MatchState → MarketFamily → Settles
unfolding team_total asian_handicap settle_count
settle_finished s m MarketFamily.match_total =
    with_score s m λ score. settle_total (score.home +ℤ score.away) s.line s.outcome
settle_finished s m MarketFamily.asian_total =
    with_score s m λ score. settle_total (score.home +ℤ score.away) s.line s.outcome
settle_finished s m MarketFamily.team_total = with_score s m (team_total s s.participant)
settle_finished s m MarketFamily.team_asian_total = with_score s m (team_total s s.participant)
settle_finished s m MarketFamily.asian_handicap = with_score s m (asian_handicap s s.outcome)
settle_finished s m MarketFamily.corners = settle_count missing_corners s m.corners
settle_finished s m MarketFamily.cards = settle_count missing_cards s m.cards
settle_finished s m MarketFamily.match_result =
    with_score s m λ score. settle_result_market (score.home -ℤ score.away) s.outcome
settle_finished s m MarketFamily.double_chance =
    with_score s m λ score. settle_result_market (score.home -ℤ score.away) s.outcome
settle_finished s m MarketFamily.btts = with_score s m λ score. settle_btts score s.outcome
settle_finished s m MarketFamily.exact_score =
    with_score s m λ score. settle_exact_score score s.outcome

settle_status : SettleableSelection → MatchState → EventStatus → Settles
unfolding combined_state
settle_status s m EventStatus.finished = settle_finished s m s.family
settle_status s m EventStatus.cancelled =
    combined_state (ComponentResult.voided ∷ []) (status_void EventStatus.cancelled ∷ [])
settle_status s m EventStatus.abandoned =
    combined_state (ComponentResult.voided ∷ []) (status_void EventStatus.abandoned ∷ [])
settle_status s m EventStatus.postponed =
    combined_state (ComponentResult.voided ∷ []) (status_void EventStatus.postponed ∷ [])
settle_status s m status = ok (unknown (not_finished status))

unfoldable pub settle_selection : SettleableSelection → MatchState → Settles
unfolding settle_status
settle_selection s m = settle_status s m m.status
