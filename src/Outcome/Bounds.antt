-- ===== src/Outcome/Bounds.antt =====
-- The limits of the enumeration: boundaryMax and resolveLimit of
-- packages/outcome-engine/src/state-model.ts.
use void.Base.{ℕ, ◌+◌, ◌-◌, ◌/◌, Option, none, some, List, [], ◌∷◌, min, max}
use void.Base.Int.{pos_part, neg_part}
use void.Domain.Values.{MarketFamily}
use void.Settlement.Line.{Decimal, parse_canonical_line}
use void.Settlement.Settle.{parse_exact_score}
use void.Settlement.Selection.{SettleableSelection}
use void.Text.{Text}

-- Math.ceil(Math.abs(value))
abbrev pub ceil_abs : Decimal → ℕ
ceil_abs d = (pos_part d.numerator + neg_part d.numerator + d.denominator - 1) / d.denominator

unfoldable pub line_bound : Option Decimal → ℕ
line_bound none = 0
line_bound (some d) = ceil_abs d

abbrev pub parse_line : Option Text → Option Decimal
parse_line none = none
parse_line (some line) = parse_canonical_line line

unfoldable pub exact_bound : MarketFamily → Option (ℕ × ℕ) → ℕ
exact_bound MarketFamily.exact_score (some (home, away)) = max home away
exact_bound _ _ = 0

unfoldable pub binary_bound : MarketFamily → ℕ
binary_bound MarketFamily.btts = 1
binary_bound MarketFamily.match_result = 1
binary_bound MarketFamily.double_chance = 1
binary_bound _ = 0

-- What one round of the loop raises the maximum to.
unfoldable pub selection_bound : SettleableSelection → ℕ
unfolding line_bound exact_bound binary_bound
selection_bound s =
    max (max (line_bound (parse_line s.line)) (exact_bound s.family (parse_exact_score s.outcome)))
      (binary_bound s.family)

unfoldable pub boundary_max : List SettleableSelection → ℕ
boundary_max [] = 0
boundary_max (s ∷ ss) = max (selection_bound s) (boundary_max ss)

unfoldable pub resolve_limit : Option ℕ → ℕ → ℕ → ℕ
resolve_limit (some explicit) boundary cap = max explicit 0
resolve_limit none boundary cap = min (max (boundary + 1) 2) cap
