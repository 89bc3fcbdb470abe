-- ===== src/Text/Decimal.antt =====
-- Printing a number and reading it back.
use void.Base.{
  ℕ, zero, suc, ◌+◌, ◌-◌, ◌*◌, ◌/◌, ◌%◌, ◌<◌, ◌≡◌, refl, true, false, [], ◌∷◌, ◌++◌, arith, All,
  Bool-cases, inl, inr, ltb, All-append,
}
use void.Text.{Text, is_digit, digits_value, show_fuel, show_nat, span_digits}

abbrev pub AreDigits : Text → Type 0
AreDigits = All λ c. is_digit c ≡ true

pub digits_value-append :
    (acc : ℕ) (xs ys : Text) → digits_value acc (xs ++ ys) ≡ digits_value (digits_value acc xs) ys
unfolding digits_value
digits_value-append acc [] ys = refl
digits_value-append acc (x ∷ xs) ys = digits_value-append (acc * 10 + (x - b'0')) xs ys

is_digit-digit : (n : ℕ) → n < 10 → is_digit (b'0' + n) ≡ true
unfolding is_digit
is_digit-digit n h = ground arith

show_fuel-digits : (f n : ℕ) → n < f → AreDigits (show_fuel f n)
unfolding show_fuel
show_fuel-digits zero n h = tt
show_fuel-digits (suc f) n h = elim (Bool-cases (ltb n 10)) [
  | inl e ↦ rw e (is_digit-digit n (ground arith), tt)
  | inr e ↦ rw e (
      All-append _ _ _ (show_fuel-digits f (n / 10) (ground arith))
        (is_digit-digit (n % 10) (omega arith), tt))
]

show_fuel-value : (f n : ℕ) → n < f → digits_value 0 (show_fuel f n) ≡ n
unfolding show_fuel digits_value
show_fuel-value zero n h = elim h [ ]
show_fuel-value (suc f) n h = elim (Bool-cases (ltb n 10)) [
  | inl e ↦ rw e (omega arith)
  | inr e ↦ rw e (
      rw (digits_value-append 0 (show_fuel f (n / 10)) ((b'0' + n % 10) ∷ []))
        (omega (arith, show_fuel-value f (n / 10) (ground arith))))
]

show_fuel-cons : (f n : ℕ) → n < f → (c : ℕ) × (cs : Text) × (show_fuel f n ≡ c ∷ cs)
unfolding show_fuel
show_fuel-cons zero n h = elim h [ ]
show_fuel-cons (suc f) n h = elim (Bool-cases (ltb n 10)) [
  | inl e ↦ (b'0' + n, [], rw e)
  | inr e ↦
      let (c, cs, p) = show_fuel-cons f (n / 10) (ground arith) in
      (c, cs ++ (b'0' + n % 10) ∷ [], rw (e, p))
]

pub show_nat-digits : (n : ℕ) → AreDigits (show_nat n)
unfolding show_nat
show_nat-digits n = show_fuel-digits (suc n) n (omega arith)

-- Reading the printed digits gives the number back.
pub digits_value-show_nat : (n : ℕ) → digits_value 0 (show_nat n) ≡ n
unfolding show_nat
digits_value-show_nat n = show_fuel-value (suc n) n (omega arith)

-- A printed number has a first digit.
pub show_nat-cons : (n : ℕ) → (c : ℕ) × (cs : Text) × (show_nat n ≡ c ∷ cs)
unfolding show_nat
show_nat-cons n = show_fuel-cons (suc n) n (omega arith)

pub span_digits-nil : (xs : Text) → AreDigits xs → span_digits xs ≡ (xs, [])
unfolding span_digits
span_digits-nil [] h = refl
span_digits-nil (x ∷ xs) h = rw (span_digits-nil xs h.1, h.0)

pub span_digits-append :
    (xs : Text) (c : ℕ) (rest : Text)
    → AreDigits xs
    → is_digit c ≡ false
    → span_digits (xs ++ c ∷ rest) ≡ (xs, c ∷ rest)
unfolding span_digits
span_digits-append [] c rest h e = rw e
span_digits-append (x ∷ xs) c rest h e = rw (span_digits-append xs c rest h.1 e, h.0)
