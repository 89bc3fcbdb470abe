-- ===== src/Settlement/Settle/Compare.antt =====
-- Comparing a count or a margin with the lines that a quarter line splits into, in hundredths.
use Prim.Native.Nat.{Ordering}
use void.Base.{◌≡◌, arith, ◌≢◌, if◌then◌else◌}
use void.Base.Int.{ℤ, pos, negsuc, ◌+ℤ◌, ◌-ℤ◌, scale, ltb_ℤ, eqb_ℤ, +ℤ_parts, -ℤ_parts, scale_parts}
use void.Settlement.Line.Split.{read_back, IsQuarter}
use void.Settlement.Settle.{compare_line}

unfoldable pub compare_cents : ℤ → ℤ → Ordering
compare_cents a c =
    if ltb_ℤ c (scale 100 a)
    then Ordering.gt
    else if eqb_ℤ (scale 100 a) c
    then Ordering.eq
    else Ordering.lt

pub compare_line-read_back : (a c : ℤ) → compare_line a (read_back c) ≡ compare_cents a c
unfolding compare_line compare_cents scale
compare_line-read_back (pos a) (pos c) = ground arith
compare_line-read_back (pos a) (negsuc c) = ground arith
compare_line-read_back (negsuc a) (pos c) = ground arith
compare_line-read_back (negsuc a) (negsuc c) = ground arith

-- No count lies strictly between the two lines of a quarter line.
pub compare_quarter :
    (a c : ℤ)
    → IsQuarter c
    → compare_cents a (c -ℤ pos 25) ≡ Ordering.gt
    → compare_cents a (c +ℤ pos 25) ≢ Ordering.lt
unfolding compare_cents
compare_quarter a c q g l =
    ground (arith, +ℤ_parts c (pos 25), -ℤ_parts c (pos 25), scale_parts 100 a)

pub compare_quarter_mono :
    (a c : ℤ)
    → compare_cents a (c -ℤ pos 25) ≡ Ordering.lt
    → compare_cents a (c +ℤ pos 25) ≡ Ordering.lt
unfolding compare_cents
compare_quarter_mono a c l =
    ground (arith, +ℤ_parts c (pos 25), -ℤ_parts c (pos 25), scale_parts 100 a)
