-- ===== src/Outcome/Classes.antt =====
-- The settlement vectors and classes of state-model.ts. A class is keyed by its settlement
-- vector, where the source joins the vector into a string.
pub mod Fold
pub mod Grid
use void.Base.{
  ℕ, zero, suc, ◌+◌, ◌-◌, ◌/◌, ◌≡◌, Bool, true, false, ◌&&◌, ◌||◌, not, Option, none, some, List,
  [], ◌∷◌, ◌++◌, map, any, if◌then◌else◌, min, max,
}
use void.Base.Int.{pos_part, neg_part}
use void.Domain.Values.{MarketFamily, Period, SettlementResult, result_eq}
use void.Outcome.Score.{FootballScore, MetricCounts, match_state, score}
use void.Settlement.Line.{Decimal, parse_canonical_line}
use void.Settlement.Settle.{settle_selection, parse_exact_score}
use void.Settlement.Selection.{SettleableSelection, MatchState}
use void.Settlement.Settle.Total.{result_of}
use void.Text.{Text, codes, show_nat}
use void.Outcome.Bounds.{
  binary_bound, boundary_max, ceil_abs, exact_bound, line_bound, parse_line, resolve_limit,
  selection_bound,
}

abbrev pub is_half_period : Period → Bool
is_half_period Period.first_half = true
is_half_period Period.second_half = true
is_half_period _ = false

-- The result of a selection, or null where the engine cannot settle it.
abbrev pub result_at : MatchState → SettleableSelection → Option SettlementResult
result_at m s = result_of (settle_selection s m)

abbrev pub Vector : Type 0
Vector = List (Option SettlementResult)

unfoldable pub settle_vector : List SettleableSelection → MatchState → Vector
settle_vector ss m = map (result_at m) ss

abbrev pub null_eq : Option SettlementResult → Option SettlementResult → Bool
null_eq none none = true
null_eq (some r) (some s) = result_eq r s
null_eq _ _ = false

-- Equality of keys.
unfoldable pub vector_eq : Vector → Vector → Bool
vector_eq [] [] = true
vector_eq (r ∷ rs) (s ∷ ss) = null_eq r s && vector_eq rs ss
vector_eq _ _ = false

pub record GoalClass : Type 0 where
  pub id : Text
  pub full : FootballScore
  pub first : Option FootballScore

pub record CountClass : Type 0 where
  pub id : Text
  pub counts : Option MetricCounts

-- A Map from keys to classes, in the order of insertion; a key that is there keeps its class.
abbrev pub ClassMap {ℓ} : Type ℓ → Type ℓ
ClassMap C = List (Vector × C)

unfoldable pub has_key {ℓ} : {C : Type ℓ} → Vector → ClassMap C → Bool
has_key k [] = false
has_key k ((j, c) ∷ m) = vector_eq j k || has_key k m

unfoldable pub set_new {ℓ} : {C : Type ℓ} → Vector → C → ClassMap C → ClassMap C
unfolding has_key
set_new k c m = if has_key k m then m else m ++ (k, c) ∷ []

-- One round for each of the listed classes, which are keyed by `key`.
unfoldable pub collect {ℓ} : {C : Type ℓ} → (C → Vector) → List C → ClassMap C → ClassMap C
unfolding set_new
collect key [] m = m
collect key (c ∷ cs) m = collect key cs (set_new (key c) c m)

unfoldable pub values {ℓ} : {C : Type ℓ} → ClassMap C → List C
values [] = []
values ((k, c) ∷ m) = c ∷ values m

-- from, from + 1, ..., with `count` entries.
unfoldable pub range_from : ℕ → ℕ → List ℕ
range_from from zero = []
range_from from (suc count) = from ∷ range_from (suc from) count

-- The values of `for (let x = 0; x <= limit; x += 1)`.
unfoldable pub up_to : ℕ → List ℕ
unfolding range_from
up_to limit = range_from 0 (suc limit)

-- A nested loop, the inner one for each value of the outer one.
unfoldable pub nested {ℓ κ} : {A : Type ℓ} {B : Type κ} → List A → (A → List B) → List B
nested [] f = []
nested (a ∷ as') f = f a ++ nested as' f

pair_id : Text → ℕ → ℕ → Text
pair_id tag h a = tag ++ show_nat h ++ b'-' ∷ show_nat a

full_class : ℕ → ℕ → GoalClass
unfolding pair_id
full_class h a = record { id = pair_id (codes "g:") h a; full = score h a; first = none }

half_class : ℕ → ℕ → ℕ → ℕ → GoalClass
unfolding pair_id
half_class h a fh fa = record {
  id = pair_id (codes "g:") h a ++ b'/' ∷ show_nat fh ++ b'-' ∷ show_nat fa;
  full = score h a;
  first = some (score fh fa);
}

-- The goal states in the order of the loops, without and with first-half scores.
abbrev full_cell : ℕ → ℕ → List GoalClass
full_cell h a = full_class h a ∷ []

abbrev full_row : ℕ → ℕ → List GoalClass
full_row limit h = nested (up_to limit) (full_cell h)

unfoldable pub full_states : ℕ → List GoalClass
unfolding full_class up_to nested
full_states limit = nested (up_to limit) (full_row limit)

abbrev first_cell : ℕ → ℕ → ℕ → ℕ → List GoalClass
first_cell h a fh fa = half_class h a fh fa ∷ []

abbrev first_row : ℕ → ℕ → ℕ → ℕ → List GoalClass
first_row first_limit h a fh = nested (up_to (min a first_limit)) (first_cell h a fh)

abbrev half_cell : ℕ → ℕ → ℕ → List GoalClass
half_cell first_limit h a = nested (up_to (min h first_limit)) (first_row first_limit h a)

abbrev half_row : ℕ → ℕ → ℕ → List GoalClass
half_row limit first_limit h = nested (up_to limit) (half_cell first_limit h)

unfoldable pub half_states : ℕ → ℕ → List GoalClass
unfolding half_class up_to nested
half_states limit first_limit = nested (up_to limit) (half_row limit first_limit)

abbrev pub goal_key : List SettleableSelection → GoalClass → Vector
goal_key ss c = settle_vector ss (match_state c.full c.first none none)

unfoldable pub filter_by {ℓ} : {A : Type ℓ} → (A → Bool) → List A → List A
filter_by p [] = []
filter_by p (x ∷ xs) = let rest = filter_by p xs in if p x then x ∷ rest else rest

abbrev pub half_selections : List SettleableSelection → List SettleableSelection
half_selections = filter_by λ s. is_half_period s.period

abbrev default_goal_cap : ℕ
default_goal_cap = 12

-- The goal states that `buildGoalClasses` enumerates for a non-empty list of selections.
unfoldable pub goal_states :
    List SettleableSelection → Option ℕ → List SettleableSelection → List GoalClass
unfolding full_states half_states resolve_limit boundary_max
goal_states ss max_goals [] =
    full_states (resolve_limit max_goals (boundary_max ss) default_goal_cap)
goal_states ss max_goals (h ∷ hs) =
    half_states (resolve_limit max_goals (boundary_max ss) default_goal_cap)
      (resolve_limit max_goals (boundary_max (h ∷ hs)) default_goal_cap)

unfoldable pub build_goal_classes : List SettleableSelection → Option ℕ → List GoalClass
unfolding goal_states collect values filter_by
build_goal_classes [] max_goals = record { id = codes "g:-"; full = score 0 0; first = none } ∷ []
build_goal_classes (s ∷ ss) max_goals =
    values
      (collect (goal_key (s ∷ ss)) (goal_states (s ∷ ss) max_goals (half_selections (s ∷ ss))) [])

-- "c" counts corners, "k" counts cards.
pub data Tag : Type 0 where
  corner_tag card_tag : Tag

abbrev tag_text : Tag → Text
tag_text corner_tag = codes "c:"
tag_text card_tag = codes "k:"

abbrev pub count_match : Tag → Option MetricCounts → MatchState
count_match corner_tag counts = match_state (score 0 0) none counts none
count_match card_tag counts = match_state (score 0 0) none none counts

count_class : Tag → ℕ → ℕ → CountClass
unfolding pair_id
count_class tag h a = record {
  id = pair_id (tag_text tag) h a;
  counts = some (record { home = h; away = a });
}

abbrev count_cell : Tag → ℕ → ℕ → List CountClass
count_cell tag h a = count_class tag h a ∷ []

abbrev count_row : Tag → ℕ → ℕ → List CountClass
count_row tag limit h = nested (up_to limit) (count_cell tag h)

unfoldable pub count_states : Tag → ℕ → List CountClass
unfolding count_class up_to nested
count_states tag limit = nested (up_to limit) (count_row tag limit)

abbrev pub count_key : Tag → List SettleableSelection → CountClass → Vector
count_key tag ss c = settle_vector ss (count_match tag c.counts)

unfoldable pub build_count_classes : List SettleableSelection → Tag → Option ℕ → ℕ → List CountClass
unfolding count_states collect values resolve_limit boundary_max
build_count_classes [] tag limit cap = record { id = tag_text tag ++ b'-' ∷ []; counts = none } ∷ []
build_count_classes (s ∷ ss) tag limit cap = values (
    collect (count_key tag (s ∷ ss))
      (count_states tag (resolve_limit limit (boundary_max (s ∷ ss)) cap)) [])
