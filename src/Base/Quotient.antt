-- ===== src/Base/Quotient.antt =====
-- `Math.ceil` of the quotient of two numbers.
use Prim.Native.Nat.{ℕ, ◌+◌, ◌-◌, ◌*◌, ◌/◌, ◌≤◌, ◌<◌}
use native.Mathlib.Nat.{div-add-mod, mod-lt}
use native.Mathlib.Omega.{arith}

abbrev pub ceil_div : ℕ → ℕ → ℕ
ceil_div a b = (a + b - 1) / b

pub ceil_div-enough : (a b : ℕ) → 0 < b → a ≤ ceil_div a b * b
ceil_div-enough a b p = omega (arith, div-add-mod (a + b - 1) b, mod-lt (a + b - 1) {m = b} p)
