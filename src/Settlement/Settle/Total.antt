-- ===== src/Settlement/Settle/Total.antt =====
-- `settleTotal`: quarter lines, the two sides of a total, and why nothing is thrown.
use mathlib.Core.Option
use void.Base.{
  is_some, ◌≡◌, refl, ap, ◌∙◌, Option, none, some, List, [], ◌∷◌, arith, ok, throws, Bool, true,
  false, if◌then◌else◌,
}
use void.Base.Int.{ℤ, pos, ◌+ℤ◌, ◌-ℤ◌, scale, ltb_ℤ, eqb_ℤ, +ℤ_parts, -ℤ_parts, scale_parts}
use void.Domain.Values.{SettlementResult, Outcome}
use void.Domain.Components.{settlement_result_from_components}
use void.Settlement.Line.{
  Decimal, split_asian_line, parse_canonical_line, cents, format_cents, line_kind, quarter,
}
use void.Settlement.Line.Split.{
  Splits, invalid, single, quarters, split_asian_line-Splits, split_asian_line-quarter,
  line_kind-quarter, IsQuarter, parse_canonical_line-format_cents,
}
use void.Settlement.Settle.{settle_total, total_on, combined_state, compare_line}
use void.Settlement.Selection.{Settles, settled, unknown}
use void.Settlement.Settle.Compare.{
  compare_cents, compare_line-read_back, compare_quarter, compare_quarter_mono,
}
use void.Text.{Text}

-- The settlement result, if the selection settles.
abbrev pub result_of : Settles → Option SettlementResult
result_of (ok (settled a)) = some a.state.result
result_of (ok (unknown r)) = none
result_of (throws e) = none

-- Nothing is thrown.
abbrev pub returned : Settles → Bool
returned (ok r) = true
returned (throws e) = false

-- What a total bet on OVER pays when 100 · (actual - line) is the given distance.
abbrev pub over_by_distance : ℤ → SettlementResult
over_by_distance d =
    if ltb_ℤ (pos 25) d
    then SettlementResult.full_win
    else if eqb_ℤ d (pos 25)
    then SettlementResult.half_win
    else if eqb_ℤ (d +ℤ pos 25) (pos 0)
    then SettlementResult.half_loss
    else SettlementResult.full_loss

abbrev pub mirror : SettlementResult → SettlementResult
mirror SettlementResult.full_win = SettlementResult.full_loss
mirror SettlementResult.full_loss = SettlementResult.full_win
mirror SettlementResult.half_win = SettlementResult.half_loss
mirror SettlementResult.half_loss = SettlementResult.half_win
mirror SettlementResult.push = SettlementResult.push
mirror SettlementResult.voided = SettlementResult.voided

compare_quarter-reads :
    (a c : ℤ) → compare_line a (parse_canonical_line (format_cents c)) ≡ compare_cents a c
compare_quarter-reads a c = rw (parse_canonical_line-format_cents c) (compare_line-read_back a c)

total_on-mirror :
    (a : ℤ) (line : Text) {o : Option (List Text)}
    → Splits line o
    → result_of (total_on a line o Outcome.under)
      ≡ Option.map mirror (result_of (total_on a line o Outcome.over))
unfolding total_on combined_state settlement_result_from_components
total_on-mirror a line (invalid e) = refl
total_on-mirror a line (single d e) = ground arith
total_on-mirror a line (quarters d e q) = ground (
  arith,
  compare_quarter-reads a (cents d -ℤ pos 25),
  compare_quarter-reads a (cents d +ℤ pos 25),
  compare_quarter a (cents d) q,
  compare_quarter_mono a (cents d),
)

total_on-settles :
    (a : ℤ) (line : Text) {o : Option (List Text)}
    → Splits line o
    → is_some (result_of (total_on a line o Outcome.over)) ≡ is_some o
unfolding total_on combined_state settlement_result_from_components
total_on-settles a line (invalid e) = refl
total_on-settles a line (single d e) = ground arith
total_on-settles a line (quarters d e q) = ground (
  arith,
  compare_quarter-reads a (cents d -ℤ pos 25),
  compare_quarter-reads a (cents d +ℤ pos 25),
  compare_quarter a (cents d) q,
  compare_quarter_mono a (cents d),
)

-- There is a line, and it splits into its component lines.
abbrev pub line_splits : Option Text → Bool
line_splits none = false
line_splits (some line) = is_some (split_asian_line line)

-- OVER and UNDER on the same line settle in opposite ways, whatever the count and the line, and they
-- settle exactly if there is a line and it splits.
pub settle_total-mirror :
    (a : ℤ) (line : Option Text)
    → (result_of (settle_total a line Outcome.under)
        ≡ Option.map mirror (result_of (settle_total a line Outcome.over)))
      × (is_some (result_of (settle_total a line Outcome.over)) ≡ line_splits line)
      × (is_some (result_of (settle_total a line Outcome.under)) ≡ line_splits line)
unfolding settle_total
settle_total-mirror a none = (refl, refl, refl)
settle_total-mirror a (some line) =
    let parts = split_asian_line-Splits line in
    let opposite = total_on-mirror a line parts in
    let over = total_on-settles a line parts in
    (opposite, over, ap is_some opposite ∙ mirrored _ ∙ over)
  where
    mirrored : (r : Option SettlementResult) → is_some (Option.map mirror r) ≡ is_some r
    mirrored none = refl
    mirrored (some r) = refl

total_on-returned :
    (a : ℤ) (line : Text) (outcome : Outcome) {o : Option (List Text)}
    → Splits line o
    → returned (total_on a line o outcome) ≡ true
unfolding total_on combined_state settlement_result_from_components
total_on-returned a line outcome (invalid e) = refl
total_on-returned a line outcome (single d e) = ground arith
total_on-returned a line outcome (quarters d e q) = ground (
  arith,
  compare_quarter-reads a (cents d -ℤ pos 25),
  compare_quarter-reads a (cents d +ℤ pos 25),
  compare_quarter a (cents d) q,
  compare_quarter_mono a (cents d),
)

pub settle_total-returned :
    (a : ℤ) (line : Option Text) (outcome : Outcome) → returned (settle_total a line outcome) ≡ true
unfolding settle_total
settle_total-returned a none outcome = refl
settle_total-returned a (some line) outcome =
    total_on-returned a line outcome (split_asian_line-Splits line)

total_on-quarter :
    (a : ℤ) (line : Text) (c : ℤ)
    → IsQuarter c
    → result_of (
        total_on a line
          (some (format_cents (c -ℤ pos 25) ∷ format_cents (c +ℤ pos 25) ∷ []))
          Outcome.over)
      ≡ some (over_by_distance (scale 100 a -ℤ c))
unfolding total_on combined_state settlement_result_from_components compare_cents
total_on-quarter a line c q =
    rw (compare_quarter-reads a (c -ℤ pos 25), compare_quarter-reads a (c +ℤ pos 25))
      (ground (
        arith,
        +ℤ_parts c (pos 25),
        -ℤ_parts c (pos 25),
        scale_parts 100 a,
        -ℤ_parts (scale 100 a) c,
        +ℤ_parts (scale 100 a -ℤ c) (pos 25),
      ))

-- An OVER bet on a quarter line wins in full when the count is more than a quarter above the line,
-- wins half when it is a quarter above, loses half when it is a quarter below, and loses in full
-- otherwise.
pub settle_total-quarter :
    (a : ℤ) (line : Text) (d : Decimal)
    → parse_canonical_line line ≡ some d
    → line_kind d ≡ quarter
    → result_of (settle_total a (some line) Outcome.over)
      ≡ some (over_by_distance (scale 100 a -ℤ cents d))
unfolding settle_total
settle_total-quarter a line d e k =
    rw (split_asian_line-quarter line d e k)
      (total_on-quarter a line (cents d) (line_kind-quarter d k))
