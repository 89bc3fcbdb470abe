-- ===== src/Outcome/Classes/Grid.antt =====
-- The members of the enumerations.
use void.Base.{ℕ, ◌≡◌, refl, none, some, List, In, All, All-In, here, ◌≤◌, min, true}
use void.Outcome.Score.{score}
use void.Outcome.Classes.{
  GoalClass, CountClass, full_class, half_class, count_class, full_row, full_cell, half_row,
  half_cell, first_row, first_cell, count_row, count_cell, full_states, half_states, count_states,
  up_to, Tag,
}
use void.Outcome.Classes.Fold.{In-nested, All-nested, In-up_to}
use void.Settlement.Settle.Settled.{has}

abbrev HasFirst : List GoalClass → Type 0
HasFirst = All λ g. has g.first ≡ true

first_row-HasFirst : (first_limit h a fh : ℕ) → HasFirst (first_row first_limit h a fh)
unfolding half_class
first_row-HasFirst first_limit h a fh =
    All-nested _ (up_to (min a first_limit)) (first_cell h a fh) λ fa. (refl, tt)

half_row-HasFirst : (limit first_limit h : ℕ) → HasFirst (half_row limit first_limit h)
half_row-HasFirst limit first_limit h = All-nested _ (up_to limit) (half_cell first_limit h) λ a.
    All-nested _ (up_to (min h first_limit)) (first_row first_limit h a)
      (first_row-HasFirst first_limit h a)

-- Every enumerated state with first-half scores has one.
pub half_states-has :
    (limit first_limit : ℕ) {g : GoalClass}
    → In g (half_states limit first_limit)
    → has g.first ≡ true
unfolding half_states
half_states-has limit first_limit i =
    All-In (λ (g : GoalClass). has g.first ≡ true) i
      (All-nested _ (up_to limit) (half_row limit first_limit)
        (half_row-HasFirst limit first_limit))

-- The class of a score without a first half.
unfoldable pub class_of : ℕ → ℕ → GoalClass
unfolding full_class
class_of h a = full_class h a

pub In-full_states : (limit h a : ℕ) → h ≤ limit → a ≤ limit → In (class_of h a) (full_states limit)
unfolding class_of full_states
In-full_states limit h a p q =
    In-nested (full_row limit) (In-up_to limit h p)
      (In-nested (full_cell h) (In-up_to limit a q) here)

pub class_of-full : (h a : ℕ) → (class_of h a).full ≡ score h a
unfolding class_of
class_of-full h a = refl

pub class_of-first : (h a : ℕ) → (class_of h a).first ≡ none
unfolding class_of
class_of-first h a = refl

-- The class of a pair of counts.
unfoldable pub count_of : Tag → ℕ → ℕ → CountClass
unfolding count_class
count_of tag h a = count_class tag h a

pub In-count_states :
    (tag : Tag) (limit h a : ℕ)
    → h ≤ limit
    → a ≤ limit
    → In (count_of tag h a) (count_states tag limit)
unfolding count_of count_states
In-count_states tag limit h a p q =
    In-nested (count_row tag limit) (In-up_to limit h p)
      (In-nested (count_cell tag h) (In-up_to limit a q) here)

pub count_of-counts :
    (tag : Tag) (h a : ℕ) → (count_of tag h a).counts ≡ some (record { home = h; away = a })
unfolding count_of
count_of-counts tag h a = refl
