-- ===== src/Settlement/Settle/Handicap.antt =====
-- `settleHandicap`: quarter lines, the two sides of a handicap, and why nothing is thrown.
use void.Base.{
  ℕ, suc, ◌+◌, ◌*◌, ◌%◌, ◌==◌, Bool-cases, inl, inr, ◌≡◌, refl, Option, none, some, List, [], ◌∷◌,
  arith, Bool, true, false,
}
use void.Base.Int.{
  ℤ, pos, negsuc, ◌+ℤ◌, ◌-ℤ◌, scale, +ℤ_parts, -ℤ_parts, scale_parts, pos_part, neg_part,
}
use void.Domain.Values.{Participant}
use void.Domain.Components.{settlement_result_from_components}
use void.Settlement.Line.{
  Decimal, parse_canonical_line, cents, format_cents, line_kind, quarter, signed,
}
use void.Settlement.Line.Split.{
  Splits, invalid, single, quarters, split_asian_line-Splits, split_asian_line-quarter,
  line_kind-quarter, IsQuarter, parse_canonical_line-format_cents, read_back, magnitude,
}
use void.Settlement.Settle.{
  settle_handicap, handicap_on, combined_state, handicap_component, sign_component,
}
use void.Settlement.Settle.Total.{returned, result_of, over_by_distance}
use void.Text.{Text}

-- 100 · (margin + line) for the home side, and 100 · (line - margin) for the away side.
abbrev pub advantage : Participant → ℤ → ℤ → ℤ
advantage Participant.home m c = scale 100 m +ℤ c
advantage Participant.away m c = c -ℤ scale 100 m

-- `n / k` and `c` hundredths are the same value.
abbrev SameValue : ℕ → ℤ → ℤ → Type 0
SameValue k n c = 100 * pos_part n + k * neg_part c ≡ 100 * neg_part n + k * pos_part c

over_one :
    (side : Participant) (m n c : ℤ)
    → SameValue 1 n c
    → handicap_component side m (some (record { numerator = n; denominator = 1 }))
      ≡ sign_component (advantage side m c) (pos 0)
unfolding handicap_component
over_one Participant.home m n c h =
    ground
      (arith, scale_parts 100 m, scale_parts 1 m, +ℤ_parts (scale 100 m) c, +ℤ_parts (scale 1 m) n)
over_one Participant.away m n c h =
    ground
      (arith, scale_parts 100 m, scale_parts 1 m, -ℤ_parts c (scale 100 m), -ℤ_parts n (scale 1 m))

over_ten :
    (side : Participant) (m n c : ℤ)
    → SameValue 10 n c
    → handicap_component side m (some (record { numerator = n; denominator = 10 }))
      ≡ sign_component (advantage side m c) (pos 0)
unfolding handicap_component
over_ten Participant.home m n c h =
    ground (
      arith,
      scale_parts 100 m,
      scale_parts 10 m,
      +ℤ_parts (scale 100 m) c,
      +ℤ_parts (scale 10 m) n,
    )
over_ten Participant.away m n c h =
    ground (
      arith,
      scale_parts 100 m,
      scale_parts 10 m,
      -ℤ_parts c (scale 100 m),
      -ℤ_parts n (scale 10 m),
    )

over_hundred :
    (side : Participant) (m n c : ℤ)
    → SameValue 100 n c
    → handicap_component side m (some (record { numerator = n; denominator = 100 }))
      ≡ sign_component (advantage side m c) (pos 0)
unfolding handicap_component
over_hundred Participant.home m n c h = ground (
  arith,
  scale_parts 100 m,
  scale_parts 100 m,
  +ℤ_parts (scale 100 m) c,
  +ℤ_parts (scale 100 m) n,
)
over_hundred Participant.away m n c h = ground (
  arith,
  scale_parts 100 m,
  scale_parts 100 m,
  -ℤ_parts c (scale 100 m),
  -ℤ_parts n (scale 100 m),
)

magnitude-advantage :
    (side : Participant) (m : ℤ) (negative : Bool) (n : ℕ) (c : ℤ)
    → c ≡ signed negative n
    → handicap_component side m (magnitude negative n) ≡ sign_component (advantage side m c) (pos 0)
magnitude-advantage side m negative n c e = elim (Bool-cases (n % 100 == 0)) [
  | inl h ↦ rw h (over_one side m _ c (rw e (ground arith)))
  | inr h ↦ rw h (elim (Bool-cases (n % 100 % 10 == 0)) [
    | inl h' ↦ rw h' (over_ten side m _ c (rw e (ground arith)))
    | inr h' ↦ rw h' (over_hundred side m _ c (rw e (ground arith)))
  ])
]

handicap_component-read_back :
    (side : Participant) (m c : ℤ)
    → handicap_component side m (read_back c) ≡ sign_component (advantage side m c) (pos 0)
handicap_component-read_back side m (pos c) = magnitude-advantage side m false c (pos c) refl
handicap_component-read_back side m (negsuc c) =
    magnitude-advantage side m true (suc c) (negsuc c) (ground arith)

reads :
    (side : Participant) (m c : ℤ)
    → handicap_component side m (parse_canonical_line (format_cents c))
      ≡ sign_component (advantage side m c) (pos 0)
reads side m c = rw (parse_canonical_line-format_cents c) (handicap_component-read_back side m c)

handicap_on-quarter :
    (side : Participant) (m : ℤ) (line : Text) (c : ℤ)
    → IsQuarter c
    → result_of (
        handicap_on m line
          (some (format_cents (c -ℤ pos 25) ∷ format_cents (c +ℤ pos 25) ∷ []))
          side)
      ≡ some (over_by_distance (advantage side m c))
unfolding handicap_on combined_state settlement_result_from_components
handicap_on-quarter Participant.home m line c q =
    rw (reads Participant.home m (c -ℤ pos 25), reads Participant.home m (c +ℤ pos 25))
      (ground (
        arith,
        +ℤ_parts c (pos 25),
        -ℤ_parts c (pos 25),
        scale_parts 100 m,
        +ℤ_parts (scale 100 m) c,
        +ℤ_parts (scale 100 m) (c -ℤ pos 25),
        +ℤ_parts (scale 100 m) (c +ℤ pos 25),
        +ℤ_parts (scale 100 m +ℤ c) (pos 25),
      ))
handicap_on-quarter Participant.away m line c q =
    rw (reads Participant.away m (c -ℤ pos 25), reads Participant.away m (c +ℤ pos 25))
      (ground (
        arith,
        +ℤ_parts c (pos 25),
        -ℤ_parts c (pos 25),
        scale_parts 100 m,
        -ℤ_parts c (scale 100 m),
        -ℤ_parts (c -ℤ pos 25) (scale 100 m),
        -ℤ_parts (c +ℤ pos 25) (scale 100 m),
        +ℤ_parts (c -ℤ scale 100 m) (pos 25),
      ))

-- A handicap bet on a quarter line wins in full when the side's margin with the line is more than a
-- quarter above zero, wins half when it is a quarter above, loses half when it is a quarter below,
-- and loses in full otherwise.
pub settle_handicap-quarter :
    (side : Participant) (m : ℤ) (line : Text) (d : Decimal)
    → parse_canonical_line line ≡ some d
    → line_kind d ≡ quarter
    → result_of (settle_handicap m (some line) side)
      ≡ some (over_by_distance (advantage side m (cents d)))
unfolding settle_handicap
settle_handicap-quarter side m line d e k =
    rw (split_asian_line-quarter line d e k)
      (handicap_on-quarter side m line (cents d) (line_kind-quarter d k))

handicap_on-quarter_returned :
    (m : ℤ) (line : Text) (side : Participant) (c : ℤ)
    → IsQuarter c
    → returned (
        handicap_on m line
          (some (format_cents (c -ℤ pos 25) ∷ format_cents (c +ℤ pos 25) ∷ []))
          side)
      ≡ true
unfolding handicap_on combined_state settlement_result_from_components
handicap_on-quarter_returned m line Participant.home c q =
    rw (reads Participant.home m (c -ℤ pos 25), reads Participant.home m (c +ℤ pos 25))
      (ground (
        arith,
        +ℤ_parts c (pos 25),
        -ℤ_parts c (pos 25),
        scale_parts 100 m,
        +ℤ_parts (scale 100 m) c,
        +ℤ_parts (scale 100 m) (c -ℤ pos 25),
        +ℤ_parts (scale 100 m) (c +ℤ pos 25),
      ))
handicap_on-quarter_returned m line Participant.away c q =
    rw (reads Participant.away m (c -ℤ pos 25), reads Participant.away m (c +ℤ pos 25))
      (ground (
        arith,
        +ℤ_parts c (pos 25),
        -ℤ_parts c (pos 25),
        scale_parts 100 m,
        -ℤ_parts c (scale 100 m),
        -ℤ_parts (c -ℤ pos 25) (scale 100 m),
        -ℤ_parts (c +ℤ pos 25) (scale 100 m),
      ))

handicap_on-returned :
    (m : ℤ) (line : Text) (side : Participant) {o : Option (List Text)}
    → Splits line o
    → returned (handicap_on m line o side) ≡ true
unfolding handicap_on combined_state settlement_result_from_components
handicap_on-returned m line side (invalid e) = refl
handicap_on-returned m line side (single d e) = ground arith
handicap_on-returned m line side (quarters d e q) =
    handicap_on-quarter_returned m line side (cents d) q

pub settle_handicap-returned :
    (m : ℤ) (line : Option Text) (side : Participant)
    → returned (settle_handicap m line side) ≡ true
unfolding settle_handicap
settle_handicap-returned m none side = refl
settle_handicap-returned m (some line) side =
    handicap_on-returned m line side (split_asian_line-Splits line)
