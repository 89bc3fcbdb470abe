-- ===== src/Base/Rational.antt =====
-- Signed rationals in lowest terms, in place of the floating-point numbers of the solver. A denominator
-- is kept less one, so that none is zero; the quotient by zero, which the solver never takes, is zero.
use Prim.Native.Nat.{ℕ, zero, suc, ◌+◌, ◌-◌, ◌*◌, ◌/◌, ◌%◌}
use mathlib.Core.Bool.{Bool}
use void.Base.Int.{ℤ, pos, negsuc, pos_part, neg_part, sub_ℕ, scale, ◌+ℤ◌, ◌-ℤ◌, ltb_ℤ}
use void.Base.Ratio.{Ratio}

pub record Rational : Type 0 where
  pub num : ℤ
  pub den_pred : ℕ

-- The rounds of Euclid's algorithm; the second number falls in each.
unfoldable pub gcd_fuel : ℕ → ℕ → ℕ → ℕ
gcd_fuel zero a b = a
gcd_fuel (suc n) a zero = a
gcd_fuel (suc n) a (suc b) = gcd_fuel n (suc b) (a % suc b)

abbrev pub gcd : ℕ → ℕ → ℕ
gcd a b = gcd_fuel (suc b) a b

abbrev div_ℤ : ℤ → ℕ → ℤ
div_ℤ a g = sub_ℕ (pos_part a / g) (neg_part a / g)

abbrev pub rational : ℤ → ℕ → Rational
rational n zero = record { num = pos 0; den_pred = 0 }
rational n (suc d) =
    let g = gcd (pos_part n + neg_part n) (suc d) in
    record { num = div_ℤ n g; den_pred = suc d / g - 1 }

abbrev pub den_of : Rational → ℕ
den_of q = suc q.den_pred

abbrev pub zero_q : Rational
zero_q = record { num = pos 0; den_pred = 0 }

abbrev pub one_q : Rational
one_q = record { num = pos 1; den_pred = 0 }

abbrev pub neg_q : Rational → Rational
neg_q q = record { num = sub_ℕ (neg_part q.num) (pos_part q.num); den_pred = q.den_pred }

unfoldable pub add_q : Rational → Rational → Rational
unfolding gcd_fuel ◌+ℤ◌ scale
add_q a b = rational (scale (den_of b) a.num +ℤ scale (den_of a) b.num) (den_of a * den_of b)

unfoldable pub sub_q : Rational → Rational → Rational
unfolding gcd_fuel ◌-ℤ◌ scale
sub_q a b = rational (scale (den_of b) a.num -ℤ scale (den_of a) b.num) (den_of a * den_of b)

-- The product of a number and a signed one.
abbrev mul_ℤ : ℤ → ℤ → ℤ
mul_ℤ a b =
    sub_ℕ (pos_part a * pos_part b + neg_part a * neg_part b)
      (pos_part a * neg_part b + neg_part a * pos_part b)

unfoldable pub mul_q : Rational → Rational → Rational
unfolding gcd_fuel
mul_q a b = rational (mul_ℤ a.num b.num) (den_of a * den_of b)

-- 1 / b has the sign of b.
abbrev invert : ℤ → ℕ → Rational
invert (pos zero) d = zero_q
invert (pos (suc n)) d = record { num = pos (suc d); den_pred = n }
invert (negsuc n) d = record { num = negsuc d; den_pred = n }

abbrev inverse : Rational → Rational
inverse q = invert q.num q.den_pred

unfoldable pub div_q : Rational → Rational → Rational
unfolding mul_q
div_q a b = mul_q a (inverse b)

unfoldable pub lt_q : Rational → Rational → Bool
unfolding scale
lt_q a b = ltb_ℤ (scale (den_of b) a.num) (scale (den_of a) b.num)

abbrev pub abs_q : Rational → Rational
abs_q q = record { num = pos (pos_part q.num + neg_part q.num); den_pred = q.den_pred }

unfoldable pub from_ratio : Ratio → Rational
unfolding gcd_fuel
from_ratio r = rational (pos r.num) r.den

-- Math.max(0, q)
abbrev pub clip : Rational → Ratio
clip q = record { num = pos_part q.num; den = den_of q }
