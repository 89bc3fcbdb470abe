-- ===== src/Arbitrage/Generate.antt =====
-- Candidate generation of packages/arbitrage/src/candidates.ts: the best price of each selection, and
-- the candidates under a cap. `localeCompare` is a parameter; `Array.sort`, which is stable, is an
-- insertion sort.
pub mod Capped
pub mod Sorted
pub mod Grouped
pub mod Structured
pub mod Keyed
pub mod Fitting
pub mod Best
pub mod Each
use void.Base.{
  ℕ, zero, suc, ◌+◌, ◌-◌, Bool, true, false, ◌&&◌, ◌||◌, not, Option, none, some, List, [], ◌∷◌,
  ◌++◌, map, if◌then◌else◌, leb, length, any, every, min, max,
}
use void.Base.Ratio.{Ratio, lt_ratio}
use void.Domain.Names.{period_name}
use void.Settlement.Selection.{SettleableSelection}
use void.Arbitrage.Candidate.{Candidate, PricedSelection, SourceStatus, ok, degraded, or_default}
use void.Arbitrage.Combos.{combinations}
use void.Arbitrage.Report.{Groups, push_group, selection_key}
use void.Arbitrage.Structure.{families_compatible, classify_structure}
use void.Text.{Text, text_eq}

abbrev pub has_text : Text → List Text → Bool
has_text t = any (text_eq t)

abbrev pub leg_key : PricedSelection → Text
leg_key leg = selection_key leg.selection

unfoldable pub duplicate_from : List Text → List PricedSelection → Bool
unfolding selection_key
duplicate_from seen [] = false
duplicate_from seen (l ∷ ls) = has_text (leg_key l) seen || duplicate_from (leg_key l ∷ seen) ls

abbrev pub has_duplicate_selection : List PricedSelection → Bool
has_duplicate_selection legs = duplicate_from [] legs

abbrev pub selections_in : List PricedSelection → List SettleableSelection
selections_in = map λ l. l.selection

abbrev pub goes_with : PricedSelection → PricedSelection → Bool
goes_with a b = families_compatible a.selection.family b.selection.family

unfoldable pub pairwise_compatible : List PricedSelection → Bool
unfolding families_compatible
pairwise_compatible [] = true
pairwise_compatible (l ∷ ls) = every (goes_with l) ls && pairwise_compatible ls

unfoldable pub is_source_available : Option SourceStatus → Bool
is_source_available none = true
is_source_available (some ok) = true
is_source_available (some degraded) = true
is_source_available _ = false

-- A Map from strings, in the order of insertion.
abbrev pub TextMap {ℓ} : Type ℓ → Type ℓ
TextMap A = List (Text × A)

unfoldable pub lookup {ℓ} : {A : Type ℓ} → Text → TextMap A → Option A
lookup k [] = none
lookup k ((j, a) ∷ m) = if text_eq j k then some a else lookup k m

unfoldable pub put {ℓ} : {A : Type ℓ} → Text → A → TextMap A → TextMap A
put k a [] = (k, a) ∷ []
put k a ((j, b) ∷ m) = if text_eq j k then (j, a) ∷ m else (j, b) ∷ put k a m

-- The entry takes its place if there is none, or if it pays more.
abbrev pub better_than : PricedSelection → Option PricedSelection → Bool
better_than entry none = true
better_than entry (some best) = lt_ratio best.odds entry.odds

unfoldable pub improve : PricedSelection → TextMap PricedSelection → TextMap PricedSelection
unfolding lookup put selection_key
improve entry m =
    if better_than entry (lookup (leg_key entry) m) then put (leg_key entry) entry m else m

-- `bestAvailable` and `bestAny` after the loop.
unfoldable pub best_prices :
    List PricedSelection
    → TextMap PricedSelection
    → TextMap PricedSelection
    → TextMap PricedSelection × TextMap PricedSelection
unfolding improve is_source_available
best_prices [] available overall = (available, overall)
best_prices (e ∷ es) available overall =
    best_prices es (if is_source_available e.source_status then improve e available else available)
      (improve e overall)

unfoldable pub winners_of : TextMap PricedSelection → TextMap PricedSelection → List PricedSelection
unfolding lookup
winners_of available [] = []
winners_of available ((k, e) ∷ m) = or_default (lookup k available) e ∷ winners_of available m

unfoldable pub best_price_per_selection : List PricedSelection → List PricedSelection
unfolding best_prices winners_of
best_price_per_selection priced = let maps = best_prices priced [] [] in winners_of maps.0 maps.1

pub record GeneratorOptions : Type 0 where
  pub event_id : Option Text
  pub min_legs : Option ℕ
  pub max_legs : Option ℕ
  pub max_candidates : Option ℕ

abbrev pub default_max_candidates : ℕ
default_max_candidates = 20000

abbrev pub group_key : PricedSelection → Text
group_key e = e.event_id ++ b'|' ∷ period_name e.selection.period

abbrev other_event : Option Text → PricedSelection → Bool
other_event none e = false
other_event (some id) e = not (text_eq e.event_id id)

unfoldable pub group_priced :
    Option Text → List PricedSelection → Groups PricedSelection → Groups PricedSelection
unfolding push_group period_name
group_priced event [] gs = gs
group_priced event (e ∷ es) gs =
    group_priced event es (if other_event event e then gs else push_group (group_key e) e gs)

-- The sizes `size`, `size + 1`, …, as many as asked.
unfoldable pub combos_of : List PricedSelection → ℕ → ℕ → List (List PricedSelection)
unfolding combinations
combos_of group size zero = []
combos_of group size (suc n) = combinations group size ++ combos_of group (suc size) n

abbrev lower : ℕ → ℕ
lower min_legs = max min_legs 2

-- The combinations of all groups and sizes, in the order of the loops.
unfoldable pub all_combos : ℕ → ℕ → Groups PricedSelection → List (List PricedSelection)
unfolding combos_of
all_combos min_legs max_legs [] = []
all_combos min_legs max_legs ((k, group) ∷ gs) =
    let size = lower min_legs in
    combos_of group size (suc (min max_legs (length group)) - size)
    ++ all_combos min_legs max_legs gs

unfoldable pub join_with : Text → List Text → Text
join_with sep [] = []
join_with sep (t ∷ []) = t
join_with sep (t ∷ u ∷ ts) = t ++ sep ++ join_with sep (u ∷ ts)

module _ (locale_le : Text → Text → Bool) where
  unfoldable pub insert_leg : PricedSelection → List PricedSelection → List PricedSelection
  insert_leg l [] = l ∷ []
  insert_leg l (k ∷ ks) =
      let rest = insert_leg l ks in if locale_le l.id k.id then l ∷ k ∷ ks else k ∷ rest

  unfoldable pub sort_legs : List PricedSelection → List PricedSelection
  unfolding insert_leg
  sort_legs [] = []
  sort_legs (l ∷ ls) = insert_leg l (sort_legs ls)

  -- Of sorted legs; with no leg the code would fail, which does not arise.
  unfoldable pub candidate_of : List PricedSelection → Option Candidate
  unfolding join_with classify_structure period_name
  candidate_of [] = none
  candidate_of (l ∷ ls) =
      let legs = l ∷ ls in
      some (record {
        id =
            l.event_id
            ++ b'|' ∷ period_name l.selection.period
            ++ b'|' ∷ join_with (b'+' ∷ []) (map (λ k. k.id) legs);
        event_id = l.event_id;
        period = l.selection.period;
        structure = classify_structure (selections_in legs);
        legs = legs;
      })

  unfoldable pub make_candidate : List PricedSelection → Option Candidate
  unfolding candidate_of sort_legs
  make_candidate combo = candidate_of (sort_legs combo)

  -- What the loop does with a combination that is neither duplicate nor incompatible.
  abbrev pub combo_usable : List PricedSelection → Bool
  combo_usable combo = not (has_duplicate_selection combo) && pairwise_compatible combo

  unfoldable pub accept : List Text → List PricedSelection → Option Candidate
  unfolding duplicate_from pairwise_compatible make_candidate
  accept seen combo = elim (combo_usable combo) [
    | false ↦ none
    | true ↦ elim (make_candidate combo) [
      | none ↦ none
      | some c ↦ elim (has_text c.id seen) [ true ↦ none | false ↦ some c ]
    ]
  ]

  -- The candidates in their order; the loop ends as soon as the cap is reached.
  unfoldable pub take_new : ℕ → List Text → List (List PricedSelection) → List Candidate
  unfolding accept
  take_new limit seen [] = []
  take_new limit seen (combo ∷ rest) = elim (accept seen combo) [
    | none ↦ take_new limit seen rest
    | some c ↦ c ∷ elim (leb limit (suc (length seen))) [
      | true ↦ []
      | false ↦ take_new limit (c.id ∷ seen) rest
    ]
  ]

  unfoldable pub generate_candidates : List PricedSelection → GeneratorOptions → List Candidate
  unfolding take_new all_combos group_priced
  generate_candidates priced options =
      take_new (or_default options.max_candidates default_max_candidates) [] (
        all_combos (or_default options.min_legs 2) (or_default options.max_legs 3)
          (group_priced options.event_id priced []))
