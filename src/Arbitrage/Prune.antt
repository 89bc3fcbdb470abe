-- ===== src/Arbitrage/Prune.antt =====
-- pruneCandidate of packages/arbitrage/src/candidates.ts. The human-readable `detail` of a verdict is
-- left out; the clock is an argument. A price without a denominator is a number that is not finite.
pub mod Clean
use void.Base.{
  ℕ, ◌+◌, ◌-◌, Bool, true, false, ◌&&◌, ◌||◌, not, Option, none, some, List, [], ◌∷◌, ◌++◌, map,
  if◌then◌else◌, leb, ltb, ◌==◌, length,
}
use void.Base.Ratio.{Ratio, whole, lt_ratio}
use void.Settlement.Selection.{SettleableSelection}
use void.Arbitrage.Candidate.{
  Candidate, PricedSelection, PruneReason, PruneVerdict, or_default, ratio, candidate_size,
  event_mismatch, period_mismatch, duplicate_selection, invalid_odds, suspended, stale_odds,
  same_bookmaker, event_uncertain, incompatible_market, price_prefilter,
}
use void.Arbitrage.Generate.{TextMap, leg_key, pairwise_compatible, selections_in}
use void.Arbitrage.Report.{Groups, push_group, selection_key}
use void.Arbitrage.Stakes.{reciprocal_sum}
use void.Arbitrage.Structure.{distinct, distinct_from, is_standard_complement, period_eq}
use void.Text.{Text, text_eq}

pub record PruneOptions : Type 0 where
  pub allow_same_bookmaker : Option Bool
  pub min_event_confidence : Option Ratio
  pub max_age_ms : Option ℕ
  pub now : Option ℕ

-- 1.0000001
abbrev pub min_decimal_odds : Ratio
min_decimal_odds = ratio 10000001 10000000

abbrev verdict_if : Bool → PruneReason → List Text → List PruneVerdict
verdict_if true reason ids = record { reason = reason; leg_ids = some ids } ∷ []
verdict_if false reason ids = []

abbrev pub ids_in : List PricedSelection → List Text
ids_in = map λ l. l.id

unfoldable pub odds_invalid : Ratio → Bool
odds_invalid odds = odds.den == 0 || not (lt_ratio min_decimal_odds odds)

abbrev is_suspended : Option Bool → Bool
is_suspended (some true) = true
is_suspended _ = false

abbrev uncertain : Option Ratio → Ratio → Bool
uncertain none least = false
uncertain (some confidence) least = lt_ratio confidence least

-- More than the allowed age, where both are known; a price of the future has no age.
abbrev too_old : Option ℕ → Option ℕ → ℕ → Bool
too_old (some max_age) (some observed) now = ltb max_age (now - observed)
too_old _ _ now = false

-- The conditions on a leg, in the order of the verdicts.
abbrev pub leg_faults : Candidate → PruneOptions → ℕ → PricedSelection → List (Bool × PruneReason)
leg_faults c options clock leg =
    (not (text_eq leg.event_id c.event_id), event_mismatch)
    ∷ (not (period_eq leg.selection.period c.period), period_mismatch)
    ∷ (odds_invalid leg.odds, invalid_odds)
    ∷ (is_suspended leg.suspended, suspended)
    ∷ (
      uncertain leg.event_confidence (or_default options.min_event_confidence (ratio 8 10)),
      event_uncertain,
    )
    ∷ (too_old options.max_age_ms leg.observed_at (or_default options.now clock), stale_odds)
    ∷ []

unfoldable pub faults_found : List (Bool × PruneReason) → List Text → List PruneVerdict
faults_found [] ids = []
faults_found (f ∷ fs) ids = verdict_if f.0 f.1 ids ++ faults_found fs ids

unfoldable pub leg_verdicts :
    Candidate → PruneOptions → ℕ → List PricedSelection → List PruneVerdict
unfolding faults_found odds_invalid period_eq
leg_verdicts c options clock [] = []
leg_verdicts c options clock (l ∷ ls) =
    faults_found (leg_faults c options clock l) (l.id ∷ []) ++ leg_verdicts c options clock ls

unfoldable pub group_ids : List PricedSelection → Groups Text → Groups Text
unfolding push_group selection_key
group_ids [] gs = gs
group_ids (l ∷ ls) gs = group_ids ls (push_group (leg_key l) l.id gs)

unfoldable pub duplicate_verdicts : Groups Text → List PruneVerdict
duplicate_verdicts [] = []
duplicate_verdicts ((k, ids) ∷ gs) =
    verdict_if (ltb 1 (length ids)) duplicate_selection ids ++ duplicate_verdicts gs

abbrev forbids : Option Bool → Bool
forbids (some false) = true
forbids _ = false

-- A bookmaker twice, where that is forbidden.
unfoldable pub reuses_bookmaker : PruneOptions → List PricedSelection → Bool
unfolding distinct_from
reuses_bookmaker options legs =
    forbids options.allow_same_bookmaker
    && leb 2 (length legs)
    && ltb (length (distinct text_eq (map (λ l. l.bookmaker) legs))) (length legs)

unfoldable pub fails_prefilter : List PricedSelection → Bool
unfolding is_standard_complement reciprocal_sum
fails_prefilter legs =
    is_standard_complement (selections_in legs)
    && not (lt_ratio (reciprocal_sum (map (λ l. l.odds) legs)) (whole 1))

-- The verdicts in their order: on the size, on each leg, on duplicates, on bookmakers, on markets and
-- on the price.
abbrev pub verdict_parts : Candidate → PruneOptions → ℕ → List (List PruneVerdict)
verdict_parts c options clock =
    let legs = c.legs in
    (if ltb (length legs) 2 then record { reason = candidate_size; leg_ids = none } ∷ [] else [])
    ∷ leg_verdicts c options clock legs
    ∷ duplicate_verdicts (group_ids legs [])
    ∷ verdict_if (reuses_bookmaker options legs) same_bookmaker (ids_in legs)
    ∷ verdict_if (not (pairwise_compatible legs)) incompatible_market (ids_in legs)
    ∷ verdict_if (fails_prefilter legs) price_prefilter (ids_in legs)
    ∷ []

unfoldable pub concat {ℓ} : {A : Type ℓ} → List (List A) → List A
concat [] = []
concat (xs ∷ xss) = xs ++ concat xss

unfoldable pub prune_candidate : Candidate → PruneOptions → ℕ → List PruneVerdict
unfolding concat leg_verdicts group_ids duplicate_verdicts reuses_bookmaker pairwise_compatible
    fails_prefilter
prune_candidate c options clock = concat (verdict_parts c options clock)

pub record PruneResult : Type 0 where
  pub candidate : Candidate
  pub verdicts : List PruneVerdict
  pub pruned : Bool

unfoldable pub prune_candidates : List Candidate → PruneOptions → ℕ → List PruneResult
unfolding prune_candidate
prune_candidates [] options clock = []
prune_candidates (c ∷ cs) options clock =
    let verdicts = prune_candidate c options clock in
    record { candidate = c; verdicts = verdicts; pruned = ltb 0 (length verdicts) }
    ∷ prune_candidates cs options clock
