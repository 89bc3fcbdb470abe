-- ===== src/Worker/Detect.antt =====
-- workers/odds-collector/src/detect.ts: the price selection of each event and period, before the scan.
pub mod Places
pub mod Picks
use void.Base.{
  ◌*◌, Bool, true, false, ◌&&◌, not, Option, none, some, List, [], ◌∷◌, ◌++◌, if◌then◌else◌, ◌==◌,
}
use void.Base.Ratio.{Ratio}
use void.Domain.Names.{family_name, type_name, period_name, participant_name, outcome_name}
use void.Settlement.Selection.{SettleableSelection}
use void.Arbitrage.Candidate.{PricedSelection, or_default}
use void.Arbitrage.Generate.{best_price_per_selection, group_priced, has_text, is_source_available}
use void.Arbitrage.Report.{Groups}
use void.Text.{Text, text_eq}

-- Two strings that may be missing: `(a ?? null) === (b ?? null)`.
abbrev pub same_or_null : Option Text → Option Text → Bool
same_or_null none none = true
same_or_null (some a) (some b) = text_eq a b
same_or_null _ _ = false

abbrev pub name_or_null {ℓ} : {A : Type ℓ} → (A → Text) → Option A → Option Text
name_or_null name none = none
name_or_null name (some a) = some (name a)

unfoldable pub same_fields : SettleableSelection → SettleableSelection → Bool
unfolding family_name type_name period_name participant_name outcome_name
same_fields a b =
    text_eq (family_name a.family) (family_name b.family)
    && text_eq (type_name a.market_type) (type_name b.market_type)
    && text_eq (period_name a.period) (period_name b.period)
    && same_or_null (name_or_null participant_name a.participant)
        (name_or_null participant_name b.participant)
    && same_or_null a.line b.line
    && text_eq (outcome_name a.outcome) (outcome_name b.outcome)

abbrev pub same_selection : PricedSelection → PricedSelection → Bool
same_selection a b = same_fields a.selection b.selection

abbrev pub same_odds : Ratio → Ratio → Bool
same_odds a b = a.num * b.den == b.num * a.den

-- Array.prototype.find.
unfoldable pub find {ℓ} : {A : Type ℓ} → (A → Bool) → List A → Option A
find p [] = none
find p (x ∷ xs) = if p x then some x else find p xs

abbrev pub tied : List Text → PricedSelection → PricedSelection → Bool
tied taken winner entry =
    same_odds entry.odds winner.odds
    && not (has_text entry.bookmaker taken)
    && same_selection entry winner

abbrev pub tied_available : List Text → PricedSelection → PricedSelection → Bool
tied_available taken winner entry =
    tied taken winner entry && is_source_available entry.source_status

abbrev or_else {ℓ} : {A : Type ℓ} → Option A → Option A → Option A
or_else (some a) o = some a
or_else none o = o

unfoldable pub tie_of : List PricedSelection → List Text → PricedSelection → Option PricedSelection
unfolding find same_fields
tie_of group taken winner =
    or_else (find (tied_available taken winner) group) (find (tied taken winner) group)

unfoldable pub pick_for : List PricedSelection → List Text → PricedSelection → PricedSelection
unfolding tie_of
pick_for group taken winner =
    if has_text winner.bookmaker taken
    then or_default (tie_of group taken winner) winner
    else winner

-- The picks for the winners of a group, with the bookmakers taken before.
unfoldable pub picks_for :
    List PricedSelection → List Text → List PricedSelection → List PricedSelection
unfolding pick_for
picks_for group taken [] = []
picks_for group taken (w ∷ ws) =
    let pick = pick_for group taken w in pick ∷ picks_for group (pick.bookmaker ∷ taken) ws

unfoldable pub picks_of_groups : Groups PricedSelection → List PricedSelection
unfolding picks_for best_price_per_selection
picks_of_groups [] = []
picks_of_groups ((k, group) ∷ gs) =
    picks_for group [] (best_price_per_selection group) ++ picks_of_groups gs

unfoldable pub best_price_per_generation_group : List PricedSelection → List PricedSelection
unfolding picks_of_groups group_priced
best_price_per_generation_group priced = picks_of_groups (group_priced none priced [])
