-- ===== src/Arbitrage/Checks.antt =====
-- The checks of packages/arbitrage/src/validation.ts: a leg's age and confidences, the spread of the
-- source timestamps, and the recheck of the prices.
use void.Base.{
  ℕ, ◌+◌, ◌-◌, ◌*◌, Bool, true, false, ◌&&◌, not, Option, none, some, List, [], ◌∷◌, ◌++◌,
  if◌then◌else◌, ◌==◌, leb, ltb, min, max, length, every,
}
use void.Base.Ratio.{Ratio, lt_ratio}
use void.Domain.Freshness.{classify_freshness}
use void.Domain.Stamp.{Stamp, parsed, unparsed}
use void.Text.{Text, text_eq}
use void.Arbitrage.Candidate.{
  CrossSourceConsistency, LegValidation, Limits, PricedSelection, RecheckChange, RecheckResult,
  RecheckedPrice, SourceStatus, changed, degraded, not_run, ok, unchanged,
}

unfoldable pub observed_age : Option ℕ → ℕ → Option ℕ
observed_age none now = none
observed_age (some at) now = some (now - at)

-- Math.max(0, now - source) is the truncated difference.
unfoldable pub price_age : PricedSelection → ℕ → Option ℕ
unfolding observed_age
price_age leg now = elim leg.source_updated_at [
  | none ↦ observed_age leg.observed_at now
  | some s ↦ elim s [ parsed at ↦ some (now - at) | unparsed ↦ observed_age leg.observed_at now ]
]

-- |current - prior| / prior; with a prior of 0 the denominator is 0, and the comparison with a
-- tolerance is that of Infinity or NaN.
unfoldable pub relative_delta : Ratio → Ratio → Ratio
relative_delta prior current =
    let a = current.num * prior.den in
    let b = prior.num * current.den in
    record { num = (a - b) + (b - a); den = current.den * prior.num }

abbrev pub usable : SourceStatus → Bool
usable ok = true
usable degraded = true
usable _ = false

abbrev pub reaches : Ratio → Ratio → Bool
reaches floor confidence = not (lt_ratio confidence floor)

abbrev pub on_some {ℓ κ} : {A : Type ℓ} {B : Type κ} → (A → B) → Option A → Option B
on_some f none = none
on_some f (some a) = some (f a)

abbrev pub within : ℕ → Option ℕ → Bool
within limit none = false
within limit (some age) = leb age limit

unfoldable pub build_leg_validation : Limits → ℕ → PricedSelection → LegValidation
unfolding price_age classify_freshness
build_leg_validation limits now leg =
    let age = price_age leg now in
    record {
      leg_id = leg.id;
      age_ms = age;
      freshness = on_some (λ a. classify_freshness a limits.policy) age;
      price_age_pass = within limits.max_age_ms age;
      source_pass = on_some usable leg.source_status;
      event_confidence_pass = on_some (reaches limits.min_event_confidence) leg.event_confidence;
      settlement_confidence_pass =
          on_some (reaches limits.min_settlement_confidence) leg.settlement_confidence;
    }

abbrev pub parsed_stamp : Option Stamp → Option ℕ
parsed_stamp none = none
parsed_stamp (some unparsed) = none
parsed_stamp (some (parsed at)) = some at

-- The stamps of the legs that have one.
unfoldable pub stamps_of : List PricedSelection → List ℕ
stamps_of [] = []
stamps_of (l ∷ ls) =
    let rest = stamps_of ls in
    elim (parsed_stamp l.source_updated_at) [ none ↦ rest | some at ↦ at ∷ rest ]

unfoldable pub minimum : ℕ → List ℕ → ℕ
minimum a [] = a
minimum a (b ∷ bs) = minimum (min a b) bs

unfoldable pub maximum : ℕ → List ℕ → ℕ
maximum a [] = a
maximum a (b ∷ bs) = maximum (max a b) bs

unfoldable pub not_evaluable : CrossSourceConsistency
not_evaluable = record { evaluable = false; extremes = none; spread_ms = none; pass = false }

unfoldable pub cross_of : List ℕ → ℕ → ℕ → CrossSourceConsistency
unfolding not_evaluable minimum maximum
cross_of [] n limit = not_evaluable
cross_of (a ∷ as') n limit =
    let low = minimum a as' in
    let high = maximum a as' in
    if length (a ∷ as') == n
    then record {
      evaluable = true;
      extremes = some (low, high);
      spread_ms = some (high - low);
      pass = leb (high - low) limit;
    }
    else not_evaluable

unfoldable pub evaluate_cross_source : List PricedSelection → ℕ → CrossSourceConsistency
unfolding stamps_of cross_of
evaluate_cross_source legs limit = cross_of (stamps_of legs) (length legs) limit

-- The map from leg ids to prices: the last entry of an id counts.
unfoldable pub current_of : Text → List RecheckedPrice → Option Ratio
current_of id [] = none
current_of id (p ∷ ps) = elim (current_of id ps) [
  | some r ↦ some r
  | none ↦ if text_eq p.leg_id id then some p.rechecked_odds else none
]

unfoldable pub moved : Ratio → Ratio → Option Ratio → Bool
unfolding relative_delta
moved tolerance prior none = false
moved tolerance prior (some current) = lt_ratio tolerance (relative_delta prior current)

unfoldable pub change_of : PricedSelection → Option Ratio → List RecheckChange
change_of leg none = []
change_of leg (some current) =
    record { leg_id = leg.id; prior_odds = leg.odds; current_odds = current } ∷ []

unfoldable pub changes : Ratio → List RecheckedPrice → List PricedSelection → List RecheckChange
unfolding moved change_of current_of
changes tolerance prices [] = []
changes tolerance prices (l ∷ ls) =
    let rest = changes tolerance prices ls in
    let current = current_of l.id prices in
    if moved tolerance l.odds current then change_of l current ++ rest else rest

abbrev pub is_there {ℓ} : {A : Type ℓ} → Option A → Bool
is_there none = false
is_there (some a) = true

unfoldable pub compare_rechecked_prices :
    List PricedSelection → List RecheckedPrice → Ratio → RecheckResult
unfolding changes current_of
compare_rechecked_prices legs prices tolerance =
    let found = changes tolerance prices legs in
    record {
      status = if ltb 0 (length found) then changed else unchanged;
      changed = found;
      covering = every (λ l. is_there (current_of l.id prices)) legs;
    }

unfoldable pub recheck_not_run : RecheckResult
recheck_not_run = record { status = not_run; changed = []; covering = true }

unfoldable pub attestable : PricedSelection → Bool
attestable l =
    is_there l.source_updated_at
    && is_there l.event_confidence
    && is_there l.settlement_confidence
    && is_there l.source_status
