-- ===== src/Settlement/Line/Split.antt =====
-- Reading back the lines that a quarter line splits into.
use void.Base.{
  ℕ, suc, ◌+◌, ◌*◌, ◌/◌, ◌%◌, ◌≡◌, refl, Option, some, Bool, true, false, [], ◌∷◌, ◌++◌, arith,
  if◌then◌else◌, ◌==◌, inl, inr, ◌⊎◌, none, List, Option-cases, ◌<◌, ◌∙◌, ap, Bool-cases,
}
use void.Base.Int.{ℤ, pos, negsuc, ◌+ℤ◌, ◌-ℤ◌}
use void.Settlement.Line.{
  Decimal, parse_canonical_line, after_sign, after_int, signed, format_magnitude, after_dot,
  format_cents, fraction_digits, cents, fractional, line_kind, LineKind, whole, half, quarter,
  split_by, format_line, split_asian_line,
}
use void.Text.{Text, span_digits, digits_value, is_digit, show_nat}
use void.Text.Decimal.{
  show_nat-cons, show_nat-digits, digits_value-show_nat, span_digits-nil, span_digits-append,
  AreDigits,
}

abbrev fraction : Bool → ℕ → ℕ → Option Decimal
fraction negative den m = some (record { numerator = signed negative m; denominator = den })

-- The decimal that the printed form of `m` hundredths reads as.
abbrev pub magnitude : Bool → ℕ → Option Decimal
magnitude negative m =
    if m % 100 == 0
    then fraction negative 1 (m / 100)
    else if m % 100 % 10 == 0
    then fraction negative 10 (m / 10)
    else fraction negative 100 m

abbrev pub read_back : ℤ → Option Decimal
read_back (pos m) = magnitude false m
read_back (negsuc m) = magnitude true (suc m)

after_sign-int :
    (negative : Bool) (n : ℕ) (rest : Text)
    → after_sign negative (show_nat n, rest) ≡ after_int negative (show_nat n) rest
unfolding after_sign
after_sign-int negative n rest = let (c, cs, e) = show_nat-cons n in rw e

fraction_digits-digits : (f : ℕ) → f < 100 → AreDigits (fraction_digits f)
unfolding fraction_digits is_digit
fraction_digits-digits f h = ground arith

after_int-whole :
    (negative : Bool) (n : ℕ)
    → after_int negative (show_nat n) []
      ≡ some (record { numerator = signed negative n; denominator = 1 })
unfolding after_int
after_int-whole negative n = rw (digits_value-show_nat n)

dot-ne-digit : is_digit b'.' ≡ false
unfolding is_digit
dot-ne-digit = refl

fraction_digits-one : (f : ℕ) → (f % 10 == 0) ≡ true → fraction_digits f ≡ (b'0' + f / 10) ∷ []
unfolding fraction_digits
fraction_digits-one f e = rw e

fraction_digits-two :
    (f : ℕ) → (f % 10 == 0) ≡ false → fraction_digits f ≡ (b'0' + f / 10) ∷ (b'0' + f % 10) ∷ []
unfolding fraction_digits
fraction_digits-two f e = rw e

after_int-fraction :
    (negative : Bool) (n f : ℕ)
    → f < 100
    → after_int negative (show_nat n) (b'.' ∷ fraction_digits f) ≡ (
        if f % 10 == 0
        then fraction negative 10 (n * 10 + f / 10)
        else fraction negative 100 (n * 100 + f))
unfolding after_int after_dot digits_value
after_int-fraction negative n f h =
    rw (span_digits-nil _ (fraction_digits-digits f h)) (elim (Bool-cases (f % 10 == 0)) [
      | inl e ↦
          rw (fraction_digits-one f e, e)
            (ap (fraction negative 10) (rw (digits_value-show_nat n) (omega arith)))
      | inr e ↦
          rw (fraction_digits-two f e, e)
            (ap (fraction negative 100) (rw (digits_value-show_nat n) (omega arith)))
    ])

regroup :
    (negative : Bool) (m : ℕ)
    → (if m % 100 % 10 == 0
        then fraction negative 10 (m / 100 * 10 + m % 100 / 10)
        else fraction negative 100 (m / 100 * 100 + m % 100))
      ≡ (if m % 100 % 10 == 0 then fraction negative 10 (m / 10) else fraction negative 100 m)
regroup negative m = rw (tenths, hundredths)
  where
    tenths : m / 100 * 10 + m % 100 / 10 ≡ m / 10
    tenths = omega arith

    hundredths : m / 100 * 100 + m % 100 ≡ m
    hundredths = omega arith

after_sign-magnitude :
    (negative : Bool) (m : ℕ)
    → after_sign negative (span_digits (format_magnitude m)) ≡ magnitude negative m
unfolding format_magnitude
after_sign-magnitude negative m = elim (Bool-cases (m % 100 == 0)) [
  | inl e ↦
      rw (e, span_digits-nil _ (show_nat-digits (m / 100)), after_sign-int)
        (after_int-whole negative (m / 100))
  | inr e ↦
      rw (e, span_digits-append _ _ _ (show_nat-digits (m / 100)) dot-ne-digit, after_sign-int)
        (after_int-fraction negative (m / 100) (m % 100) (omega arith) ∙ regroup negative m)
]

format_magnitude-cons :
    (m : ℕ) → (c : ℕ) × (cs : Text) × (format_magnitude m ≡ c ∷ cs) × (is_digit c ≡ true)
unfolding format_magnitude
format_magnitude-cons m =
    let (c, cs, e) = show_nat-cons (m / 100) in
    let first : AreDigits (c ∷ cs) = rw e at (show_nat-digits (m / 100)) in
    elim (Bool-cases (m % 100 == 0)) [
      | inl h ↦ (c, cs, rw (h, e), first.0)
      | inr h ↦ (c, cs ++ b'.' ∷ fraction_digits (m % 100), rw (h, e), first.0)
    ]

digit-ne-minus : (c : ℕ) → is_digit c ≡ true → (c == b'-') ≡ false
unfolding is_digit
digit-ne-minus c h = ground arith

-- A text that begins with a digit is read without a sign.
parse_canonical_line-digit :
    (t : Text) (c : ℕ) (cs : Text)
    → t ≡ c ∷ cs
    → is_digit c ≡ true
    → parse_canonical_line t ≡ after_sign false (span_digits t)
unfolding parse_canonical_line
parse_canonical_line-digit t c cs e h = rw (e, digit-ne-minus c h)

-- The printed form of a number of hundredths reads back as that number.
pub parse_canonical_line-format_cents :
    (c : ℤ) → parse_canonical_line (format_cents c) ≡ read_back c
unfolding format_cents
parse_canonical_line-format_cents (pos m) =
    let (c, cs, e, h) = format_magnitude-cons m in
    parse_canonical_line-digit _ c cs e h ∙ after_sign-magnitude false m
parse_canonical_line-format_cents (negsuc m) =
    unfold parse_canonical_line in after_sign-magnitude true (suc m)

abbrev pub IsQuarter : ℤ → Type 0
IsQuarter c = (fractional c ≡ 25) ⊎ (fractional c ≡ 75)

pub line_kind-quarter : (d : Decimal) → line_kind d ≡ quarter → IsQuarter (cents d)
unfolding line_kind
line_kind-quarter d h = ground arith

cents-hundredths : (c : ℤ) → cents (record { numerator = c; denominator = 100 }) ≡ c
unfolding cents
cents-hundredths (pos m) = ap pos (omega arith)
cents-hundredths (negsuc m) = ground arith

-- What `split_asian_line` gives: nothing, the line itself, or the two lines around a quarter line.
pub data Splits (line : Text) : Option (List Text) → Type 0 where
  invalid : parse_canonical_line line ≡ none → Splits line none
  single : (d : Decimal) → parse_canonical_line line ≡ some d → Splits line (some (line ∷ []))
  quarters :
      (d : Decimal)
      → parse_canonical_line line ≡ some d
      → IsQuarter (cents d)
      → Splits line
          (some (format_cents (cents d -ℤ pos 25) ∷ format_cents (cents d +ℤ pos 25) ∷ []))

split_by-Splits :
    (line : Text) (d : Decimal) (k : LineKind)
    → parse_canonical_line line ≡ some d
    → line_kind d ≡ k
    → Splits line (some (split_by line (cents d) k))
unfolding split_by format_line
split_by-Splits line d quarter e h =
    rw (cents-hundredths (cents d -ℤ pos 25), cents-hundredths (cents d +ℤ pos 25))
      (quarters d e (line_kind-quarter d h))
split_by-Splits line d whole e h = single d e
split_by-Splits line d half e h = single d e

pub split_asian_line-Splits : (line : Text) → Splits line (split_asian_line line)
unfolding split_asian_line
split_asian_line-Splits line = elim (Option-cases (parse_canonical_line line)) [
  | inl e ↦ rw e (invalid e)
  | inr (d, e) ↦ rw e (split_by-Splits line d (line_kind d) e refl)
]

pub split_asian_line-quarter :
    (line : Text) (d : Decimal)
    → parse_canonical_line line ≡ some d
    → line_kind d ≡ quarter
    → split_asian_line line
      ≡ some (format_cents (cents d -ℤ pos 25) ∷ format_cents (cents d +ℤ pos 25) ∷ [])
unfolding split_asian_line split_by format_line
split_asian_line-quarter line d e k =
    rw (e, k, cents-hundredths (cents d -ℤ pos 25), cents-hundredths (cents d +ℤ pos 25))
