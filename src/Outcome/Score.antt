-- ===== src/Outcome/Score.antt =====
-- packages/outcome-engine/src/score.ts, and the match states of state-model.ts.
use void.Base.{ℕ, ◌+◌, Option, none, some}
use void.Base.Int.{ℤ, pos, ◌-ℤ◌}
use void.Domain.Values.{EventStatus}
use void.Settlement.Selection.{LineScore, MatchState}

pub record FootballScore : Type 0 where
  pub home_goals : ℕ
  pub away_goals : ℕ

pub record MetricCounts : Type 0 where
  pub home : ℕ
  pub away : ℕ

unfoldable pub match_total : FootballScore → ℕ
match_total s = s.home_goals + s.away_goals

unfoldable pub goal_margin : FootballScore → ℤ
goal_margin s = pos s.home_goals -ℤ pos s.away_goals

unfoldable pub metric_total : MetricCounts → ℕ
metric_total c = c.home + c.away

abbrev pub line_score : FootballScore → LineScore
line_score s = record { home = pos s.home_goals; away = pos s.away_goals }

abbrev pub line_counts : MetricCounts → LineScore
line_counts c = record { home = pos c.home; away = pos c.away }

abbrev pub score : ℕ → ℕ → FootballScore
score h a = record { home_goals = h; away_goals = a }

abbrev pub or_null {ℓ κ} : {A : Type ℓ} {B : Type κ} → (A → B) → Option A → Option B
or_null f none = none
or_null f (some a) = some (f a)

abbrev pub match_state :
    FootballScore → Option FootballScore → Option MetricCounts → Option MetricCounts → MatchState
match_state full first corners cards = record {
  status = EventStatus.finished;
  full_time = some (line_score full);
  first_half = or_null line_score first;
  second_half = none;
  extra_time = none;
  penalties = none;
  corners = or_null line_counts corners;
  cards = or_null line_counts cards;
}
