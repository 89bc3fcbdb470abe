-- ===== src/Arbitrage/Stakes.antt =====
-- packages/arbitrage/src/optimizer.ts: the stakes of a covered candidate. Amounts are exact rationals
-- in place of floating point; one without a denominator is a number that is not finite.
pub mod Sums
pub mod Plan
use void.Base.{
  ℕ, zero, suc, ◌+◌, ◌*◌, Bool, true, false, ◌||◌, Option, none, some, List, [], ◌∷◌, ◌++◌, map,
  if◌then◌else◌, ◌==◌, length, get_elem?, Result, ok, throws, ◌>>=◌,
}
use void.Base.Int.{ℤ, pos}
use void.Base.Ratio.{Ratio, whole, add, mul, lt_ratio}
use void.Base.Rational.{Rational, zero_q, one_q, neg_q, from_ratio, sub_q, div_q, clip}
use void.Domain.Components.{return_multiplier}
use void.Domain.Values.{RejectionReason, SettlementResult}
use void.Outcome.Model.{OutcomeState}
use void.Arbitrage.Report.{ArbitrageLeg, CoverageReport, CoverageStatus, covered}
use void.Arbitrage.Simplex.{
  Row, SimplexStatus, SimplexResult, optimal, build, entry_at, fill, simplex_minimize,
}
use void.Text.{Text}

-- `status` is ARB when `is_arb`.
pub record StakePlan : Type 0 where
  pub stakes : List Ratio
  pub total_stake : Ratio
  pub state_returns : List Ratio
  pub min_return : Ratio
  pub guaranteed_profit : Rational
  pub roi : Rational
  pub is_arb : Bool
  pub multiplier_matrix : List (List Ratio)

-- The exceptions, all of them OPTIMIZATION_FAILED; the last has the reasons of the rejections.
pub data OptimizationError : Type 0 where
  bad_total empty_candidate : OptimizationError
  vector_length : Text → ℕ → ℕ → OptimizationError
  solver_returned : SimplexStatus → OptimizationError
  not_covered : List RejectionReason → OptimizationError

-- 1e-9
abbrev pub stake_eps : Ratio
stake_eps = record { num = 1; den = 1000000000 }

abbrev pub div_ratio : Ratio → Ratio → Ratio
div_ratio a b = record { num = a.num * b.den; den = a.den * b.num }

abbrev pub sum_from : Ratio → List Ratio → Ratio
sum_from acc [] = acc
sum_from acc (v ∷ vs) = sum_from (add acc v) vs

abbrev pub sum_ratios : List Ratio → Ratio
sum_ratios vs = sum_from (whole 0) vs

unfoldable pub reciprocal_sum : List Ratio → Ratio
reciprocal_sum odds = sum_ratios (map (λ o. div_ratio (whole 1) o) odds)

-- A settlement with no leg beside it would be NaN; `optimize_stakes` refuses such a state.
unfoldable pub multiplier_row : List SettlementResult → List ArbitrageLeg → List Ratio
multiplier_row [] legs = []
multiplier_row (r ∷ rs) [] = []
multiplier_row (r ∷ rs) (l ∷ ls) = return_multiplier r l.odds ∷ multiplier_row rs ls

unfoldable pub build_multiplier_matrix : List OutcomeState → List ArbitrageLeg → List (List Ratio)
unfolding multiplier_row
build_multiplier_matrix states legs = map (λ s. multiplier_row s.vector legs) states

unit_at : ℕ → ℕ → Rational
unit_at i j = if i == j then one_q else zero_q

-- The row of a state: z - return ≤ 0, with z as the difference of two variables, and its slack.
state_line : ℕ → ℕ → ℕ → List Ratio → Row
unfolding build unit_at from_ratio
state_line legs slacks i row =
    build (λ j. neg_q (entry_at (map from_ratio row) j)) 0 legs
    ++ one_q ∷ neg_q one_q ∷ build (unit_at i) 0 slacks

state_lines : ℕ → ℕ → ℕ → List (List Ratio) → List Row
unfolding state_line
state_lines legs slacks i [] = []
state_lines legs slacks i (r ∷ rs) = state_line legs slacks i r ∷ state_lines legs slacks (suc i) rs

-- The sum of the stakes is at most 1, and at least 1.
sum_line : ℕ → ℕ → ℕ → Rational → Row
unfolding fill build unit_at
sum_line legs slacks i sign = fill legs sign ++ zero_q ∷ zero_q ∷ build (unit_at i) 0 slacks

clip_stakes : ℕ → Row → SimplexStatus → Result OptimizationError (List Ratio)
unfolding build
clip_stakes legs solution optimal = ok (map clip (build (entry_at solution) 0 legs))
clip_stakes legs solution status = throws (solver_returned status)

clip_result : ℕ → SimplexResult → Result OptimizationError (List Ratio)
unfolding clip_stakes
clip_result legs r = clip_stakes legs r.solution r.status

abbrev leg_count : List (List Ratio) → ℕ
leg_count [] = 0
leg_count (r ∷ rs) = length r

unfoldable pub solve_maximin : List (List Ratio) → Result OptimizationError (List Ratio)
unfolding state_lines sum_line clip_result simplex_minimize fill build
solve_maximin matrix =
    let legs = leg_count matrix in
    let states = length matrix in
    let slacks = states + 2 in
    clip_result legs (
      simplex_minimize (fill legs zero_q ++ neg_q one_q ∷ one_q ∷ fill slacks zero_q)
        (state_lines legs slacks 0 matrix
          ++ sum_line legs slacks states one_q
            ∷ sum_line legs slacks (suc states) (neg_q one_q)
            ∷ [])
        (fill states zero_q ++ one_q ∷ neg_q one_q ∷ []))

-- Σ multiplier · stake, from `acc` on.
unfoldable pub return_from : Ratio → List Ratio → List Ratio → Ratio
return_from acc [] stakes = acc
return_from acc (m ∷ ms) [] = acc
return_from acc (m ∷ ms) (s ∷ ss) = return_from (add acc (mul m s)) ms ss

-- `Math.min` of the returns; the first is there.
unfoldable pub least_from : Ratio → List Ratio → Ratio
least_from best [] = best
least_from best (r ∷ rs) = least_from (if lt_ratio r best then r else best) rs

unfoldable pub least_of : List Ratio → Ratio
unfolding least_from
least_of [] = record { num = 1; den = 0 }
least_of (r ∷ rs) = least_from r rs

unfoldable pub normalized : List Ratio → List Ratio
normalized fractions =
    let fraction_sum = sum_ratios fractions in
    if lt_ratio stake_eps fraction_sum
    then map (λ v. div_ratio v fraction_sum) fractions
    else fractions

unfoldable pub plan_of : List (List Ratio) → Ratio → List Ratio → StakePlan
unfolding normalized return_from least_of from_ratio sub_q div_q
plan_of matrix total fractions =
    let stakes = map (λ f. mul f total) (normalized fractions) in
    let returns = map (λ row. return_from (whole 0) row stakes) matrix in
    let min_return = least_of returns in
    let profit = sub_q (from_ratio min_return) (from_ratio total) in
    record {
      stakes = stakes;
      total_stake = total;
      state_returns = returns;
      min_return = min_return;
      guaranteed_profit = profit;
      roi = div_q profit (from_ratio total);
      is_arb = lt_ratio (add total stake_eps) min_return;
      multiplier_matrix = matrix;
    }

-- The first state whose vector does not have a settlement for each leg.
check_vectors : List OutcomeState → ℕ → Option OptimizationError
check_vectors [] n = none
check_vectors (s ∷ ss) n =
    let rest = check_vectors ss n in
    if length s.vector == n then rest else some (vector_length s.id (length s.vector) n)

solve_stakes :
    List OutcomeState
    → List ArbitrageLeg
    → Ratio
    → Option OptimizationError
    → Result OptimizationError StakePlan
unfolding build_multiplier_matrix solve_maximin plan_of
solve_stakes states legs total (some e) = throws e
solve_stakes states legs total none =
    let matrix = build_multiplier_matrix states legs in
    solve_maximin matrix >>= λ fractions. ok (plan_of matrix total fractions)

unfoldable pub optimize_stakes :
    List OutcomeState → List ArbitrageLeg → Ratio → Result OptimizationError StakePlan
unfolding solve_stakes check_vectors
optimize_stakes states legs total =
    if total.den == 0 || total.num == 0
    then throws bad_total
    else if length legs == 0 || length states == 0
    then throws empty_candidate
    else solve_stakes states legs total (check_vectors states (length legs))

unfoldable pub optimize_candidate : CoverageReport → Ratio → Result OptimizationError StakePlan
unfolding optimize_stakes
optimize_candidate report total = elim report.status [
  | covered ↦ optimize_stakes report.states report.legs total
  | CoverageStatus.rejected ↦ throws (not_covered (map (λ v. v.reason) report.rejections))
]

-- Si = T · qi / Q
unfoldable pub classic_three_way_stakes : List Ratio → Ratio → List Ratio
classic_three_way_stakes odds total =
    let q = map (λ o. div_ratio (whole 1) o) odds in
    let total_q = sum_ratios q in map (λ v. div_ratio (mul total v) total_q) q

unfoldable pub classic_two_way_stakes : Ratio → Ratio → Ratio → Ratio × Ratio
classic_two_way_stakes first second total =
    let q1 = div_ratio (whole 1) first in
    let q2 = div_ratio (whole 1) second in
    let q = add q1 q2 in (div_ratio (mul total q1) q, div_ratio (mul total q2) q)
