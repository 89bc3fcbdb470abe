-- ===== src/Outcome/Model.antt =====
-- buildStateModel, settlementMatrix and payoffMatrix of state-model.ts.
pub mod States
pub mod Independent
pub mod Kept
pub mod Known
pub mod Complete
pub mod Reduction
use void.Base.{
  ℕ, zero, suc, ◌+◌, Bool, true, false, ◌&&◌, not, Option, none, some, List, [], ◌∷◌, ◌++◌, map,
  if◌then◌else◌, ◌≡◌, Result, ok, throws, length, ◌==◌,
}
use void.Base.Ratio.{Ratio}
use void.Domain.Values.{MarketFamily, Period, SettlementResult}
use void.Domain.Components.{return_multiplier}
use void.Outcome.Score.{FootballScore, MetricCounts, match_state, score}
use void.Outcome.Classes.{
  Vector, ClassMap, GoalClass, CountClass, settle_vector, set_new, values, nested, filter_by,
  build_goal_classes, build_count_classes, Tag, corner_tag, card_tag, collect,
}
use void.Settlement.Settle.{settle_selection}
use void.Settlement.Selection.{SettleableSelection, MatchState, settled, unknown, Reason, Settles}
use void.Text.{Text}

pub record OutcomeState : Type 0 where
  pub id : Text
  pub representative : FootballScore
  pub first_half : Option FootballScore
  pub corners : Option MetricCounts
  pub cards : Option MetricCounts
  pub vector : List SettlementResult

-- The two kinds of reason that a selection is left out for.
pub data UnknownReason : Type 0 where
  no_state_model : Period → UnknownReason
  not_settled : Reason → UnknownReason

pub record StateModelUnknown : Type 0 where
  pub index : ℕ
  pub reason : UnknownReason

pub record StateModelOptions : Type 0 where
  pub max_goals : Option ℕ
  pub max_corners : Option ℕ
  pub max_cards : Option ℕ

pub record StateModelResult : Type 0 where
  pub states : List OutcomeState
  pub selection_indices : List ℕ
  pub unknown : List StateModelUnknown

-- The match at which each selection is tried: every score and count is there, and zero.
abbrev pub probe : MatchState
probe =
    match_state (score 0 0) (some (score 0 0)) (some (record { home = 0; away = 0 }))
      (some (record { home = 0; away = 0 }))

-- The three arrays that the first loop fills.
pub record Sorted : Type 0 where
  pub known : List SettleableSelection
  pub indices : List ℕ
  pub unknown : List StateModelUnknown

abbrev keep : ℕ → SettleableSelection → Sorted → Sorted
keep i s r = record r { known = s ∷ r.known; indices = i ∷ r.indices }

abbrev leave_out : ℕ → UnknownReason → Sorted → Sorted
leave_out i reason r = record r { unknown = record { index = i; reason = reason } ∷ r.unknown }

-- `settle_selection-returned` shows that the last case does not arise.
sort_settled : ℕ → SettleableSelection → Settles → Sorted → Sorted
sort_settled i s (ok (settled a)) rest = keep i s rest
sort_settled i s (ok (unknown reason)) rest = leave_out i (not_settled reason) rest
sort_settled i s (throws e) rest = rest

sort_one : ℕ → SettleableSelection → Period → Sorted → Sorted
unfolding sort_settled
sort_one i s Period.extra_time rest = leave_out i (no_state_model Period.extra_time) rest
sort_one i s Period.penalties rest = leave_out i (no_state_model Period.penalties) rest
sort_one i s _ rest = sort_settled i s (settle_selection s probe) rest

unfoldable pub sort_selections : ℕ → List SettleableSelection → Sorted
unfolding sort_one
sort_selections i [] = record { known = []; indices = []; unknown = [] }
sort_selections i (s ∷ ss) = sort_one i s s.period (sort_selections (suc i) ss)

abbrev pub is_corners : MarketFamily → Bool
is_corners MarketFamily.corners = true
is_corners _ = false

abbrev pub is_cards : MarketFamily → Bool
is_cards MarketFamily.cards = true
is_cards _ = false

abbrev pub is_goal : MarketFamily → Bool
is_goal f = not (is_corners f) && not (is_cards f)

-- A combination of a goal, a corner and a card class.
pub record Combination : Type 0 where
  pub goal : GoalClass
  pub corner : CountClass
  pub card : CountClass

abbrev pub combination_match : Combination → MatchState
combination_match c = match_state c.goal.full c.goal.first c.corner.counts c.card.counts

combination_state : Combination → List SettlementResult → OutcomeState
combination_state c vector = record {
  id = c.goal.id ++ b'|' ∷ c.corner.id ++ b'|' ∷ c.card.id;
  representative = c.goal.full;
  first_half = c.goal.first;
  corners = c.corner.counts;
  cards = c.card.counts;
  vector = vector;
}

-- The vector with no nulls, or nothing if some selection is unknown.
unfoldable pub all_settled : Vector → Option (List SettlementResult)
all_settled [] = some []
all_settled (none ∷ rs) = none
all_settled (some r ∷ rs) = elim (all_settled rs) [ none ↦ none | some v ↦ some (r ∷ v) ]

add_state :
    Combination → Option (List SettlementResult) → ClassMap OutcomeState → ClassMap OutcomeState
unfolding combination_state
add_state c none seen = seen
add_state c (some v) seen = set_new (map some v) (combination_state c v) seen

-- The loop over the combinations; `seen` holds the states that were pushed, with their keys.
unfoldable pub collect_states :
    List SettleableSelection → List Combination → ClassMap OutcomeState → ClassMap OutcomeState
unfolding add_state set_new settle_vector all_settled
collect_states known [] seen = seen
collect_states known (c ∷ cs) seen =
    collect_states known cs
      (add_state c (all_settled (settle_vector known (combination_match c))) seen)

abbrev pub combine : GoalClass → CountClass → CountClass → List Combination
combine g c k = record { goal = g; corner = c; card = k } ∷ []

abbrev pub combine_cards : List CountClass → GoalClass → CountClass → List Combination
combine_cards cards g c = nested cards (combine g c)

abbrev pub combine_rest : List CountClass → List CountClass → GoalClass → List Combination
combine_rest corners cards g = nested corners (combine_cards cards g)

unfoldable pub combinations : List GoalClass → List CountClass → List CountClass → List Combination
unfolding nested
combinations goals corners cards = nested goals (combine_rest corners cards)

abbrev pub family_filter :
    (MarketFamily → Bool) → List SettleableSelection → List SettleableSelection
family_filter p = filter_by λ s. p s.family

unfoldable pub model_combinations : List SettleableSelection → StateModelOptions → List Combination
unfolding combinations build_goal_classes build_count_classes filter_by
model_combinations known options =
    combinations (build_goal_classes (family_filter is_goal known) options.max_goals)
      (build_count_classes (family_filter is_corners known) corner_tag options.max_corners 20)
      (build_count_classes (family_filter is_cards known) card_tag options.max_cards 12)

unfoldable pub model_states : List SettleableSelection → StateModelOptions → List OutcomeState
unfolding collect_states values model_combinations
model_states [] options = []
model_states (s ∷ ss) options =
    values (collect_states (s ∷ ss) (model_combinations (s ∷ ss) options) [])

unfoldable pub build_state_model : List SettleableSelection → StateModelOptions → StateModelResult
unfolding sort_selections model_states
build_state_model selections options =
    let sorted = sort_selections 0 selections in
    record {
      states = model_states sorted.known options;
      selection_indices = sorted.indices;
      unknown = sorted.unknown;
    }

unfoldable pub settlement_matrix : List OutcomeState → List (List SettlementResult)
settlement_matrix states = map (λ s. s.vector) states

-- The exception of `payoffMatrix`, with the two lengths.
pub data LengthMismatch : Type 0 where
  length_mismatch : ℕ → ℕ → LengthMismatch

check_lengths : List OutcomeState → ℕ → Option LengthMismatch
check_lengths [] n = none
check_lengths (s ∷ ss) n =
    if length s.vector == n then check_lengths ss n else some (length_mismatch n (length s.vector))

-- A missing price would be NaN; after the check of the lengths there is none.
multipliers : List SettlementResult → List Ratio → List Ratio
multipliers [] odds = []
multipliers (r ∷ rs) [] = []
multipliers (r ∷ rs) (o ∷ os) = return_multiplier r o ∷ multipliers rs os

unfoldable pub payoff_matrix :
    List OutcomeState → List Ratio → Result LengthMismatch (List (List Ratio))
unfolding check_lengths multipliers
payoff_matrix states odds = elim (check_lengths states (length odds)) [
  | some e ↦ throws e
  | none ↦ ok (map (λ s. multipliers s.vector odds) states)
]
