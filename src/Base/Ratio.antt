-- ===== src/Base/Ratio.antt =====
-- Exact non-negative rationals `num / den`, in place of the program's floating-point amounts. They
-- are not reduced: two of them are the same amount when their cross products agree.
use Prim.Native.Nat.{ℕ, ◌+◌, ◌*◌, ◌≤◌, ◌<◌}
use native.Mathlib.Nat.{
  le_of_mul-le-mul_left, lt_of_mul-lt-mul_left, mul-le-mul_left, mul-lt-mul_of_pos_left, mul-pos,
}
use native.Mathlib.Omega.{arith}
use mathlib.Core.Path.{◌≡◌}
use mathlib.Core.Bool.{Bool}
use void.Base.Tests.{ltb}

pub record Ratio : Type 0 where
  pub num : ℕ
  pub den : ℕ

abbrev pub whole : ℕ → Ratio
whole n = record { num = n; den = 1 }

infix 4 ◌≈◌
abbrev pub add : Ratio → Ratio → Ratio
add a b = record { num = a.num * b.den + b.num * a.den; den = a.den * b.den }

abbrev pub mul : Ratio → Ratio → Ratio
mul a b = record { num = a.num * b.num; den = a.den * b.den }

abbrev pub div_nat : Ratio → ℕ → Ratio
div_nat a k = record { num = a.num; den = a.den * k }

-- The same amount.
abbrev pub ◌≈◌ : Ratio → Ratio → Type 0
a ≈ b = a.num * b.den ≡ b.num * a.den

abbrev pub lt_ratio : Ratio → Ratio → Bool
lt_ratio a b = ltb (a.num * b.den) (b.num * a.den)

-- A proper fraction has a denominator.
abbrev pub IsProper : Ratio → Type 0
IsProper a = 0 < a.den

abbrev pub AtMost : Ratio → Ratio → Type 0
AtMost a b = a.num * b.den ≤ b.num * a.den

abbrev pub Below : Ratio → Ratio → Type 0
Below a b = a.num * b.den < b.num * a.den

pub AtMost-trans : (a b c : Ratio) → IsProper b → AtMost a b → AtMost b c → AtMost a c
AtMost-trans a b c p h k =
    le_of_mul-le-mul_left {k = b.den}
      (omega (arith, mul-le-mul_left c.den h, mul-le-mul_left a.den k)) p

pub Below-AtMost : (a b c : Ratio) → IsProper b → IsProper c → Below a b → AtMost b c → Below a c
Below-AtMost a b c p q h k =
    lt_of_mul-lt-mul_left b.den (omega (arith, mul-lt-mul_of_pos_left h q, mul-le-mul_left a.den k))

pub add-IsProper : (a b : Ratio) → IsProper a → IsProper b → IsProper (add a b)
add-IsProper a b p q = mul-pos p q

pub mul-IsProper : (a b : Ratio) → IsProper a → IsProper b → IsProper (mul a b)
mul-IsProper a b p q = mul-pos p q

pub AtMost-Below : (a b c : Ratio) → IsProper a → AtMost a b → Below b c → Below a c
AtMost-Below a b c p h k =
    lt_of_mul-lt-mul_left b.den (omega (arith, mul-le-mul_left c.den h, mul-lt-mul_of_pos_left k p))
