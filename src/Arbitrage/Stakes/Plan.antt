-- ===== src/Arbitrage/Stakes/Plan.antt =====
-- The stakes that `optimizeStakes` of optimizer.ts chooses, whatever the solver returns.
use void.Base.{
  ok-injective, ok-throws, ℕ, ◌*◌, ◌≤◌, ◌<◌, ◌≡◌, ◌>>=◌, refl, ap, ◌∙◌, subst, true, false, List,
  [], ◌∷◌, map, arith, All, All-In, In, Bool-cases, inl, inr, length, ◌==◌, ◌||◌, Option, none,
  some, Result, ok, throws, In-map,
}
use void.Base.Ratio.{
  Ratio, whole, add, mul, lt_ratio, IsProper, AtMost, Below, Below-AtMost, AtMost-Below,
  mul-IsProper,
}
use native.Mathlib.Nat.{le_of_mul-le-mul_left, mul-le-mul_left, mul-pos}
use void.Base.Rational.{Rational, clip}
use void.Domain.Components.{return_multiplier}
use void.Domain.Values.{SettlementResult}
use void.Outcome.Model.{OutcomeState}
use void.Arbitrage.Report.{ArbitrageLeg}
use void.Arbitrage.Simplex.{Row, build, SimplexStatus, entry_at}
use void.Arbitrage.Stakes.{
  StakePlan, OptimizationError, stake_eps, div_ratio, sum_ratios, multiplier_row,
  build_multiplier_matrix, clip_stakes, leg_count, solve_maximin, return_from, least_of, normalized,
  plan_of, clip_result, check_vectors, solve_stakes, optimize_stakes,
}
use void.Arbitrage.Stakes.Sums.{
  sum_from-Scaled, sum_from-IsProper, return_from-IsProper, least-AtMost,
}

-- The sum is the total, or the sum is below it where the fractions sum to next to nothing.
exact_total :
    (f t s : Ratio)
    → 0 < f.den * f.num
    → s.num * (f.den * (f.num * t.den)) ≡ f.num * (f.den * t.num) * s.den
    → s.num * t.den ≤ t.num * s.den
exact_total f t s p e = le_of_mul-le-mul_left {k = f.den * f.num} (omega (arith, e)) p

small_total :
    (f t s : Ratio)
    → 0 < f.den
    → f.num * 1000000000 ≤ f.den
    → s.num * (f.den * t.den) ≡ f.num * t.num * s.den
    → s.num * t.den ≤ t.num * s.den
small_total f t s p h e =
    le_of_mul-le-mul_left {k = f.den} (omega (arith, e, mul-le-mul_left (t.num * s.den) h)) p

map-map {ℓ κ λ'} :
    {A : Type ℓ} {B : Type κ} {C : Type λ'} (g : B → C) (f : A → B) (xs : List A)
    → map g (map f xs) ≡ map (λ x. g (f x)) xs
map-map g f [] = refl
map-map g f (x ∷ xs) = ap (◌∷◌ (g (f x))) (map-map g f xs)

abbrev stakes_of : List Ratio → Ratio → List Ratio
stakes_of fractions total = map (λ f. mul f total) (normalized fractions)

stakes_of-AtMost :
    (fractions : List Ratio) (total : Ratio)
    → All IsProper fractions
    → AtMost (sum_ratios (stakes_of fractions total)) total
unfolding normalized
stakes_of-AtMost fractions total ps =
    let f = sum_ratios fractions in
    let p = sum_from-IsProper fractions (whole 0) (omega arith) ps in
    elim (Bool-cases (lt_ratio stake_eps f)) [
      | inl e ↦
          let k : Ratio = record { num = f.den * total.num; den = f.num * total.den } in
          let scaled =
            sum_from-Scaled k (λ v. mul (div_ratio v f) total) (λ v. omega arith) fractions
              (whole 0) (whole 0) (omega arith) in
          let q : 0 < f.num = ground arith in
          rw (e, map-map (λ v. mul v total) (λ v. div_ratio v f) fractions)
            (exact_total f total _ (mul-pos p q) scaled)
      | inr e ↦
          let scaled =
            sum_from-Scaled total (λ v. mul v total) (λ v. omega arith) fractions (whole 0)
              (whole 0) (omega arith) in
          rw e (small_total f total _ p (ground arith) scaled)
    ]

All-map {ℓ κ} :
    {A B : Type ℓ} (P : A → Type κ) (Q : B → Type κ) (f : A → B)
    → ((a : A) → P a → Q (f a))
    → (xs : List A) → All P xs
    → All Q (map f xs)
All-map P Q f h [] ps = tt
All-map P Q f h (x ∷ xs) ps = (h x ps.0, All-map P Q f h xs ps.1)

normalized-IsProper : (fs : List Ratio) → All IsProper fs → All IsProper (normalized fs)
unfolding normalized
normalized-IsProper fs ps =
    let f = sum_ratios fs in
    elim (Bool-cases (lt_ratio stake_eps f)) [
      | inl e ↦
          let q : 0 < f.num = ground arith in
          rw e (All-map IsProper IsProper (λ v. div_ratio v f) (λ v p. mul-pos p q) fs ps)
      | inr e ↦ rw e ps
    ]

stakes_of-IsProper :
    (fs : List Ratio) (total : Ratio)
    → IsProper total
    → All IsProper fs
    → All IsProper (stakes_of fs total)
stakes_of-IsProper fs total p ps =
    All-map IsProper IsProper (λ f. mul f total) (λ f q. mul-IsProper f total q p) (normalized fs)
      (normalized-IsProper fs ps)

-- What an ARB of a matrix promises: each row returns more than the total.
plan_of-returns :
    (row : List Ratio) (rows : List (List Ratio)) (total : Ratio) (fs : List Ratio)
    → IsProper total
    → All IsProper fs
    → All (All IsProper) (row ∷ rows)
    → (plan_of (row ∷ rows) total fs).is_arb ≡ true
    → All (Below total) (plan_of (row ∷ rows) total fs).state_returns
unfolding plan_of
plan_of-returns row rows total fs p ps qs e =
    let stakes = stakes_of fs total in
    let value : List Ratio → Ratio = λ r. return_from (whole 0) r stakes in
    let good : All IsProper (map value (row ∷ rows)) =
      All-map (All IsProper) IsProper value
        (λ r q.
          return_from-IsProper r stakes (whole 0) (omega arith) q
            (stakes_of-IsProper fs total p ps))
        (row ∷ rows) qs in
    let low = least-AtMost (value row) (map value rows) good in
    let best = least_of (map value (row ∷ rows)) in
    let above : Below total best =
      AtMost-Below total (add total stake_eps) best p (omega arith) (ground arith) in
    each_above best low.0 above (map value (row ∷ rows)) good low.1
  where
    each_above :
        (best : Ratio)
        → IsProper best
        → Below total best
        → (rs : List Ratio) → All IsProper rs
        → All (AtMost best) rs
        → All (Below total) rs
    each_above best b h [] g l = tt
    each_above best b h (r ∷ rs) g l =
        (Below-AtMost total best r b g.0 h l.0, each_above best b h rs g.1 l.1)

clip-All-IsProper : (qs : List Rational) → All IsProper (map clip qs)
clip-All-IsProper [] = tt
clip-All-IsProper (q ∷ qs) = (omega arith, clip-All-IsProper qs)

clip_stakes-IsProper :
    (legs : ℕ) (solution : Row) (status : SimplexStatus) (fs : List Ratio)
    → clip_stakes legs solution status ≡ ok fs
    → All IsProper fs
unfolding clip_stakes
clip_stakes-IsProper legs solution SimplexStatus.optimal fs e =
    subst (All IsProper) (ok-injective e) (clip-All-IsProper (build (entry_at solution) 0 legs))
clip_stakes-IsProper legs solution SimplexStatus.infeasible fs e = cc
clip_stakes-IsProper legs solution SimplexStatus.unbounded fs e = cc

solve_maximin-IsProper :
    (matrix : List (List Ratio)) (fs : List Ratio) → solve_maximin matrix ≡ ok fs → All IsProper fs
unfolding solve_maximin clip_result
solve_maximin-IsProper matrix fs e = clip_stakes-IsProper (leg_count matrix) _ _ fs e

-- The odds are numbers that are finite.
abbrev pub AllFinite : List ArbitrageLeg → Type 0
AllFinite legs = All (λ l. IsProper l.odds) legs

return_multiplier-IsProper :
    (r : SettlementResult) (odds : Ratio) → IsProper odds → IsProper (return_multiplier r odds)
unfolding return_multiplier
return_multiplier-IsProper r odds p = ground arith

multiplier_row-IsProper :
    (rs : List SettlementResult) (legs : List ArbitrageLeg)
    → AllFinite legs
    → All IsProper (multiplier_row rs legs)
unfolding multiplier_row
multiplier_row-IsProper [] legs ps = tt
multiplier_row-IsProper (r ∷ rs) [] ps = tt
multiplier_row-IsProper (r ∷ rs) (l ∷ ls) ps =
    (return_multiplier-IsProper r l.odds ps.0, multiplier_row-IsProper rs ls ps.1)

matrix-IsProper :
    (states : List OutcomeState) (legs : List ArbitrageLeg)
    → AllFinite legs
    → All (All IsProper) (build_multiplier_matrix states legs)
unfolding build_multiplier_matrix
matrix-IsProper [] legs ps = tt
matrix-IsProper (s ∷ ss) legs ps =
    (multiplier_row-IsProper s.vector legs ps, matrix-IsProper ss legs ps)

-- What the stakes return when the legs settle to a vector.
abbrev pub return_of : List SettlementResult → List ArbitrageLeg → List Ratio → Ratio
return_of vector legs stakes = return_from (whole 0) (multiplier_row vector legs) stakes

-- The stakes cost at most the total, and each state returns more than it.
abbrev pub Guaranteed : List OutcomeState → List ArbitrageLeg → Ratio → StakePlan → Type 0
Guaranteed states legs total plan =
    AtMost (sum_ratios plan.stakes) total
    × ((st : OutcomeState) → In st states → Below total (return_of st.vector legs plan.stakes))

plan_of-Guaranteed :
    (s : OutcomeState) (ss : List OutcomeState) (legs : List ArbitrageLeg) (total : Ratio)
    (fs : List Ratio)
    → IsProper total
    → AllFinite legs
    → All IsProper fs
    → let plan = plan_of (build_multiplier_matrix (s ∷ ss) legs) total fs in
      plan.is_arb ≡ true → Guaranteed (s ∷ ss) legs total plan
unfolding plan_of build_multiplier_matrix
plan_of-Guaranteed s ss legs total fs p o ps e =
    let row : OutcomeState → List Ratio = λ st. multiplier_row st.vector legs in
    let value : List Ratio → Ratio = λ r. return_from (whole 0) r (stakes_of fs total) in
    (
      stakes_of-AtMost fs total ps,
      (λ st i.
          All-In (Below total) (In-map value (In-map row i)) (
            plan_of-returns (row s) (map row ss) total fs p ps (matrix-IsProper (s ∷ ss) legs o)
              e)),
    )

solved-Guaranteed :
    (s : OutcomeState) (ss : List OutcomeState) (legs : List ArbitrageLeg) (total : Ratio)
    (r : Result OptimizationError (List Ratio)) (plan : StakePlan)
    → solve_maximin (build_multiplier_matrix (s ∷ ss) legs) ≡ r
    → IsProper total
    → AllFinite legs
    → (r >>= λ fs. ok (plan_of (build_multiplier_matrix (s ∷ ss) legs) total fs)) ≡ ok plan
    → plan.is_arb ≡ true
    → Guaranteed (s ∷ ss) legs total plan
solved-Guaranteed s ss legs total (ok fs) plan e p o q a =
    let same = ok-injective q in
    subst (Guaranteed (s ∷ ss) legs total) same (
      plan_of-Guaranteed s ss legs total fs p o (solve_maximin-IsProper _ fs e)
        (ap (λ (x : StakePlan). x.is_arb) same ∙ a))
solved-Guaranteed s ss legs total (throws x) plan e p o q a = absurd (ok-throws q)

solve_stakes-Guaranteed :
    (states : List OutcomeState) (legs : List ArbitrageLeg) (total : Ratio)
    (c : Option OptimizationError) (plan : StakePlan)
    → (length states == 0) ≡ false
    → IsProper total
    → AllFinite legs
    → solve_stakes states legs total c ≡ ok plan
    → plan.is_arb ≡ true
    → Guaranteed states legs total plan
unfolding solve_stakes
solve_stakes-Guaranteed [] legs total c plan n p o e a = cc
solve_stakes-Guaranteed (s ∷ ss) legs total (some x) plan n p o e a = absurd (ok-throws e)
solve_stakes-Guaranteed (s ∷ ss) legs total none plan n p o e a =
    solved-Guaranteed s ss legs total _ plan refl p o e a

-- A plan that is an ARB, of legs with finite odds, costs at most the total stake, and its stakes
-- return more than the total stake in each of the states, whatever the solver found.
pub optimize_stakes-Guaranteed :
    (states : List OutcomeState) (legs : List ArbitrageLeg) (total : Ratio) (plan : StakePlan)
    → AllFinite legs
    → optimize_stakes states legs total ≡ ok plan
    → plan.is_arb ≡ true
    → Guaranteed states legs total plan
unfolding optimize_stakes
optimize_stakes-Guaranteed states legs total plan o e a =
    elim (Bool-cases (total.den == 0 || total.num == 0)) [
      | inl t ↦ absurd (ok-throws (rw t at e))
      | inr t ↦ elim (Bool-cases (length legs == 0 || length states == 0)) [
        | inl u ↦ absurd (ok-throws (rw (t, u) at e))
        | inr u ↦
            solve_stakes-Guaranteed states legs total (check_vectors states (length legs)) plan
              (ground arith) (ground arith) o (rw (t, u) at e) a
      ]
    ]
