-- ===== src/Settlement/Line.antt =====
-- packages/settlement/src/line.ts. A line is a text; its value is an exact decimal, where the source
-- has the nearest double.
pub mod Split
use mathlib.Core.Option
use void.Base.{
  ℕ, zero, suc, ◌+◌, ◌-◌, ◌*◌, ◌/◌, ◌%◌, ◌^◌, ◌≡◌, Bool, true, false, ◌||◌, Option, none, some,
  List, [], ◌∷◌, ◌++◌, ◌==◌, if◌then◌else◌, length,
}
use void.Base.Int.{ℤ, pos, negsuc, sub_ℕ, pos_part, neg_part, ◌+ℤ◌, ◌-ℤ◌}
use void.Text.{Text, digits_value, span_digits, show_nat}

-- The value `numerator / denominator`; the denominator is a power of ten.
pub record Decimal : Type 0 where
  pub numerator : ℤ
  pub denominator : ℕ

abbrev pub signed : Bool → ℕ → ℤ
signed negative m = if negative then sub_ℕ 0 m else pos m

after_dot : Bool → Text → Text × Text → Option Decimal
after_dot negative int ([], tail) = none
after_dot negative int (d ∷ ds, c ∷ tail) = none
after_dot negative int (d ∷ ds, []) = some (record {
  numerator = signed negative (digits_value (digits_value 0 int) (d ∷ ds));
  denominator = 10 ^ length (d ∷ ds);
})

-- What may follow the integer digits `int` in the regular expression: nothing, or a dot and digits.
after_int : Bool → Text → Text → Option Decimal
unfolding after_dot
after_int negative int [] =
    some (record { numerator = signed negative (digits_value 0 int); denominator = 1 })
after_int negative int (c ∷ rest) =
    if c == b'.' then after_dot negative int (span_digits rest) else none

after_sign : Bool → Text × Text → Option Decimal
unfolding after_int
after_sign negative ([], rest) = none
after_sign negative (d ∷ ds, rest) = after_int negative (d ∷ ds) rest

-- /^-?[0-9]+(?:\.[0-9]+)?$/, and `Number(line)`.
unfoldable pub parse_canonical_line : Text → Option Decimal
unfolding after_sign span_digits digits_value
parse_canonical_line [] = none
parse_canonical_line (c ∷ cs) =
    if c == b'-' then after_sign true (span_digits cs) else after_sign false (span_digits (c ∷ cs))

round_cents : ℕ → ℤ → ℤ
round_cents den (pos m) = pos ((200 * m + den) / (2 * den))
round_cents den (negsuc m) = sub_ℕ 0 ((200 * suc m + den - 1) / (2 * den))

-- Math.round(value * 100), which rounds a half up.
unfoldable pub cents : Decimal → ℤ
unfolding round_cents
cents d = round_cents d.denominator d.numerator

-- The two digits after the dot of `toFixed(2)`, without a last zero.
fraction_digits : ℕ → Text
fraction_digits f =
    if f % 10 == 0 then (b'0' + f / 10) ∷ [] else (b'0' + f / 10) ∷ (b'0' + f % 10) ∷ []

format_magnitude : ℕ → Text
unfolding fraction_digits
format_magnitude m =
    if m % 100 == 0
    then show_nat (m / 100)
    else show_nat (m / 100) ++ b'.' ∷ fraction_digits (m % 100)

-- A number of hundredths: "2.5", "-1", "-0.75". Zero has no sign.
unfoldable pub format_cents : ℤ → Text
unfolding format_magnitude
format_cents (pos m) = format_magnitude m
format_cents (negsuc m) = b'-' ∷ format_magnitude (suc m)

unfoldable pub format_line : Decimal → Text
unfolding cents format_cents
format_line d = format_cents (cents d)

pub data LineKind : Type 0 where
  whole half quarter : LineKind

abbrev is_integer : Decimal → Bool
is_integer d = (pos_part d.numerator + neg_part d.numerator) % d.denominator == 0

-- ((cents % 100) + 100) % 100
abbrev pub fractional : ℤ → ℕ
fractional (pos m) = m % 100
fractional (negsuc m) = (100 - suc m % 100) % 100

unfoldable pub line_kind : Decimal → LineKind
unfolding cents
line_kind d =
    let f = fractional (cents d) in
    if is_integer d then whole else if f == 25 || f == 75 then quarter else half

-- A quarter line splits into the two lines a quarter below and above it.
split_by : Text → ℤ → LineKind → List Text
unfolding format_line
split_by line c quarter =
    format_line (record { numerator = c -ℤ pos 25; denominator = 100 })
    ∷ format_line (record { numerator = c +ℤ pos 25; denominator = 100 })
    ∷ []
split_by line c whole = line ∷ []
split_by line c half = line ∷ []

unfoldable pub split_asian_line : Text → Option (List Text)
unfolding split_by line_kind
split_asian_line line =
    Option.map (λ value. split_by line (cents value) (line_kind value)) (parse_canonical_line line)
