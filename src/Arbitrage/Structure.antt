-- ===== src/Arbitrage/Structure.antt =====
-- packages/arbitrage/src/candidates.ts: which market families go together, and the class of a structure.
-- Strings of a value set are compared as strings.
pub mod Pairs
use void.Base.{
  ℕ, Bool, true, false, ◌&&◌, ◌||◌, not, Option, none, some, List, [], ◌∷◌, ◌++◌, map,
  if◌then◌else◌, ltb, leb, ◌==◌, length, any, every,
}
use void.Base.Ratio.{Ratio}
use void.Domain.Names.{family_name, period_name, participant_name, outcome_name}
use void.Domain.Values.{MarketFamily, Outcome, Participant, Period}
use void.Settlement.Selection.{SettleableSelection}
use void.Arbitrage.Candidate.{
  PricedSelection, StructureType, same_market_complement, complementary_totals, asian_line,
  protected_handicap, team_total_match_total, partition, multi_leg_partition, generic,
}
use void.Arbitrage.Report.{or_dash}
use void.Text.{Text, text_eq}

-- The order `<` of strings, by code units.
unfoldable pub text_lt : Text → Text → Bool
text_lt [] [] = false
text_lt [] (d ∷ ds) = true
text_lt (c ∷ cs) [] = false
text_lt (c ∷ cs) (d ∷ ds) = ltb c d || c == d && text_lt cs ds

unfoldable pub family_eq : MarketFamily → MarketFamily → Bool
unfolding family_name
family_eq a b = text_eq (family_name a) (family_name b)

unfoldable pub period_eq : Period → Period → Bool
unfolding period_name
period_eq a b = text_eq (period_name a) (period_name b)

unfoldable pub pair_key : MarketFamily → MarketFamily → Text
unfolding text_lt family_name
pair_key a b =
    let x = family_name a in
    let y = family_name b in if text_lt x y then x ++ b'|' ∷ y else y ++ b'|' ∷ x

abbrev pub compatible_family_pairs : List (MarketFamily × MarketFamily)
compatible_family_pairs =
    (MarketFamily.match_total, MarketFamily.team_total)
    ∷ (MarketFamily.match_total, MarketFamily.asian_total)
    ∷ (MarketFamily.team_total, MarketFamily.asian_total)
    ∷ (MarketFamily.match_result, MarketFamily.double_chance)
    ∷ (MarketFamily.match_total, MarketFamily.btts)
    ∷ []

unfoldable pub families_compatible : MarketFamily → MarketFamily → Bool
unfolding family_eq pair_key
families_compatible a b =
    family_eq a b || any (λ p. text_eq (pair_key p.0 p.1) (pair_key a b)) compatible_family_pairs

opposite_outcome : Outcome → Outcome → Bool
opposite_outcome Outcome.over Outcome.under = true
opposite_outcome Outcome.under Outcome.over = true
opposite_outcome Outcome.btts_yes Outcome.btts_no = true
opposite_outcome Outcome.btts_no Outcome.btts_yes = true
opposite_outcome Outcome.home Outcome.away = true
opposite_outcome Outcome.away Outcome.home = true
opposite_outcome _ _ = false

complement_of : SettleableSelection → SettleableSelection → Bool
unfolding opposite_outcome family_eq period_eq participant_name
complement_of a b =
    family_eq a.family b.family
    && period_eq a.period b.period
    && text_eq (or_dash participant_name a.participant) (or_dash participant_name b.participant)
    && text_eq (or_dash (λ t. t) a.line) (or_dash (λ t. t) b.line)
    && opposite_outcome a.outcome b.outcome

unfoldable pub is_standard_complement : List SettleableSelection → Bool
unfolding complement_of
is_standard_complement (a ∷ b ∷ []) = complement_of a b
is_standard_complement _ = false

-- The values of a Set, in the order of insertion; `seen` holds those before.
unfoldable pub distinct_from {ℓ} : {A : Type ℓ} → (A → A → Bool) → List A → List A → List A
distinct_from eq seen [] = []
distinct_from eq seen (x ∷ xs) = elim (any (eq x) seen) [
  | true ↦ distinct_from eq seen xs
  | false ↦ x ∷ distinct_from eq (x ∷ seen) xs
]

abbrev pub distinct {ℓ} : {A : Type ℓ} → (A → A → Bool) → List A → List A
distinct eq xs = distinct_from eq [] xs

abbrev pub families_of : List SettleableSelection → List MarketFamily
families_of = map λ s. s.family

multi_leg : ℕ → StructureType
multi_leg n = if leb 3 n then multi_leg_partition else generic

-- One family, that of the first leg.
classify_family : List SettleableSelection → Option MarketFamily → StructureType
unfolding multi_leg is_standard_complement
classify_family legs (some MarketFamily.match_total) =
    if is_standard_complement legs then same_market_complement else complementary_totals
classify_family legs (some MarketFamily.asian_total) = asian_line
classify_family legs (some MarketFamily.asian_handicap) = protected_handicap
classify_family legs (some MarketFamily.match_result) = partition
classify_family legs (some MarketFamily.double_chance) = partition
classify_family legs _ = multi_leg (length legs)

abbrev first_family : List SettleableSelection → Option MarketFamily
first_family [] = none
first_family (s ∷ ss) = some s.family

unfoldable pub classify_structure : List SettleableSelection → StructureType
unfolding classify_family multi_leg family_eq distinct_from
classify_structure legs =
    let families = distinct family_eq (families_of legs) in
    let has : MarketFamily → Bool = λ f. any (family_eq f) families in
    if ltb 1 (length families)
    then if has MarketFamily.team_total && has MarketFamily.match_total
      then team_total_match_total
      else multi_leg (length legs)
    else classify_family legs (first_family legs)
