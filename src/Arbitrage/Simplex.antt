-- ===== src/Arbitrage/Simplex.antt =====
-- packages/arbitrage/src/simplex.ts: the two-phase simplex, over exact rationals in place of floating
-- point. The tolerances and the cap on the iterations are the code's.
use void.Base.{
  ℕ, zero, suc, ◌+◌, Bool, true, false, ◌&&◌, ◌||◌, not, Option, none, some, List, [], ◌∷◌, ◌++◌,
  map, if◌then◌else◌, ltb, ◌==◌, length, get_elem?, any,
}
use void.Base.Int.{pos}
use void.Base.Rational.{Rational, zero_q, one_q, neg_q, add_q, sub_q, mul_q, div_q, lt_q, abs_q}

abbrev pub Row : Type 0
Row = List Rational

-- 1e-9 and 1e-7, the tolerances, and the cost of an artificial variable, 1e12.
abbrev pub eps : Rational
eps = record { num = pos 1; den_pred = 999999999 }

abbrev sum_eps : Rational
sum_eps = record { num = pos 1; den_pred = 9999999 }

abbrev artificial_cost : Rational
artificial_cost = record { num = pos 1000000000000; den_pred = 0 }

abbrev max_iterations : ℕ
max_iterations = 20000

pub data SimplexStatus : Type 0 where
  optimal infeasible unbounded : SimplexStatus

pub record SimplexResult : Type 0 where
  pub status : SimplexStatus
  pub solution : Row
  pub objective : Rational

-- The rows, each with its right-hand side last, and the basic variable of each row.
pub record Tableau : Type 0 where
  pub rows : List Row
  pub basis : List ℕ

unfoldable pub fill {ℓ} : {A : Type ℓ} → ℕ → A → List A
fill zero a = []
fill (suc n) a = a ∷ fill n a

abbrev pub value_or : Rational → Option Rational → Rational
value_or d none = d
value_or d (some q) = q

-- `row[column] ?? 0`
abbrev pub entry_at : Row → ℕ → Rational
entry_at row i = value_or zero_q (get_elem? row i)

abbrev nat_or : Option ℕ → ℕ
nat_or none = 0
nat_or (some n) = n

abbrev index_at : List ℕ → ℕ → ℕ
index_at is i = nat_or (get_elem? is i)

abbrev rhs_at : ℕ → Row → Rational
rhs_at rhs row = entry_at row rhs

-- Entries `i`, `i + 1`, … of a row of `n`.
unfoldable pub build : (ℕ → Rational) → ℕ → ℕ → Row
build f i zero = []
build f i (suc n) = f i ∷ build f (suc i) n

unfoldable pub set_at {ℓ} : {A : Type ℓ} → ℕ → A → List A → List A
set_at i a [] = []
set_at zero a (x ∷ xs) = a ∷ xs
set_at (suc i) a (x ∷ xs) = x ∷ set_at i a xs

-- A row of phase one: negated if its right-hand side is negative, with its artificial variable.
first_line : ℕ → ℕ → ℕ → Row → Rational → Row
unfolding build lt_q mul_q
first_line variables rows i source b =
    let flipped = if lt_q b zero_q then neg_q one_q else one_q in
    build (λ j. mul_q flipped (entry_at source j)) 0 variables
    ++ build (λ j. if j == i then one_q else zero_q) 0 rows
    ++ abs_q b ∷ []

first_lines : ℕ → ℕ → ℕ → List Row → Row → List Row
unfolding first_line
first_lines variables rows i [] bs = []
first_lines variables rows i (source ∷ sources) bs =
    first_line variables rows i source (entry_at bs i)
    ∷ first_lines variables rows (suc i) sources bs

unfoldable pub count_from : ℕ → ℕ → List ℕ
count_from i zero = []
count_from i (suc n) = i ∷ count_from (suc i) n

unfoldable pub first_tableau : ℕ → List Row → Row → Tableau
unfolding first_lines count_from
first_tableau variables a b = record {
  rows = first_lines variables (length a) 0 a b;
  basis = count_from variables (length a);
}

-- target - factor · pivot row, unless the factor is zero.
unfoldable pub eliminate : ℕ → Row → Row → Row
unfolding build lt_q sub_q mul_q
eliminate column pivot_row target =
    let factor = entry_at target column in
    if not (lt_q factor zero_q) && not (lt_q zero_q factor)
    then target
    else build (λ j. sub_q (entry_at target j) (mul_q factor (entry_at pivot_row j))) 0
        (length target)

eliminate_others : ℕ → ℕ → Row → ℕ → List Row → List Row
unfolding eliminate
eliminate_others leave column pivot_row i [] = []
eliminate_others leave column pivot_row i (r ∷ rs) =
    let rest = eliminate_others leave column pivot_row (suc i) rs in
    (if i == leave then pivot_row else eliminate column pivot_row r) ∷ rest

abbrev row_or : Option Row → Row
row_or none = []
row_or (some r) = r

unfoldable pub pivot : ℕ → ℕ → Tableau → Tableau
unfolding eliminate_others set_at div_q
pivot leave column t =
    let old = row_or (get_elem? t.rows leave) in
    let pivot_row = map (λ q. div_q q (entry_at old column)) old in
    record {
      rows = eliminate_others leave column pivot_row 0 t.rows;
      basis = set_at leave column t.basis;
    }

-- The reduced cost of a column.
reduced_cost : Row → ℕ → List ℕ → List Row → Rational → Rational
unfolding sub_q mul_q
reduced_cost cost column [] rows acc = acc
reduced_cost cost column (b ∷ bs) [] acc = acc
reduced_cost cost column (b ∷ bs) (r ∷ rs) acc =
    reduced_cost cost column bs rs (sub_q acc (mul_q (entry_at cost b) (entry_at r column)))

-- The first column, from `column` on, whose reduced cost is below -eps.
unfoldable pub entering : Row → Tableau → ℕ → ℕ → Option ℕ
unfolding reduced_cost lt_q
entering cost t column zero = none
entering cost t column (suc n) =
    elim (lt_q (reduced_cost cost column t.basis t.rows (entry_at cost column)) (neg_q eps)) [
      | true ↦ some column
      | false ↦ entering cost t (suc column) n
    ]

-- The row that leaves so far, with its ratio and its basic variable.
record Leaving : Type 0 where
  row : ℕ
  ratio : Rational
  basic : ℕ

better : Rational → ℕ → Option Leaving → Bool
unfolding lt_q sub_q
better ratio basic none = true
better ratio basic (some best) =
    lt_q ratio (sub_q best.ratio eps)
    || (not (lt_q eps (abs_q (sub_q ratio best.ratio))) && ltb basic best.basic)

choose_row : ℕ → ℕ → ℕ → Row → ℕ → Option Leaving → Option Leaving
unfolding better lt_q div_q
choose_row rhs column i row basic best =
    let coefficient = entry_at row column in
    let ratio = div_q (entry_at row rhs) coefficient in
    if lt_q eps coefficient && better ratio basic best
    then some (record { row = i; ratio = ratio; basic = basic })
    else best

choose_rows : ℕ → ℕ → ℕ → List Row → List ℕ → Option Leaving → Option Leaving
unfolding choose_row
choose_rows rhs column i [] bs best = best
choose_rows rhs column i (r ∷ rs) [] best = best
choose_rows rhs column i (r ∷ rs) (b ∷ bs) best =
    choose_rows rhs column (suc i) rs bs (choose_row rhs column i r b best)

abbrev leaving_row : Option Leaving → Option ℕ
leaving_row none = none
leaving_row (some l) = some l.row

unfoldable pub leaving : ℕ → ℕ → Tableau → Option ℕ
unfolding choose_rows
leaving rhs column t = leaving_row (choose_rows rhs column 0 t.rows t.basis none)

-- Whether the loop ended by itself or by its cap, it reports an optimum.
unfoldable pub iterate : ℕ → ℕ → Row → Tableau → SimplexStatus × Tableau
unfolding entering leaving pivot
iterate zero rhs cost t = (optimal, t)
iterate (suc n) rhs cost t = elim (entering cost t 0 rhs) [
  | none ↦ (optimal, t)
  | some column ↦ elim (leaving rhs column t) [
    | none ↦ (unbounded, t)
    | some row ↦ iterate n rhs cost (pivot row column t)
  ]
]

basic_cost : ℕ → Row → List ℕ → List Row → Rational → Rational
unfolding add_q mul_q
basic_cost rhs cost [] rows acc = acc
basic_cost rhs cost (b ∷ bs) [] acc = acc
basic_cost rhs cost (b ∷ bs) (r ∷ rs) acc =
    basic_cost rhs cost bs rs (add_q acc (mul_q (entry_at cost b) (entry_at r rhs)))

-- The first structural column that the row can take in.
replacement : List ℕ → Row → ℕ → ℕ → Option ℕ
unfolding lt_q
replacement basis row column zero = none
replacement basis row column (suc n) =
    elim (lt_q eps (abs_q (entry_at row column)) && not (any (λ b. b == column) basis)) [
      | true ↦ some column
      | false ↦ replacement basis row (suc column) n
    ]

abbrev pivot_on : ℕ → Tableau → Option ℕ → Tableau
pivot_on row t none = t
pivot_on row t (some column) = pivot row column t

-- Basic artificials leave where they can; one that is not zero shows that there is no solution.
drive_out : ℕ → ℕ → ℕ → ℕ → Tableau → Option Tableau
unfolding replacement pivot lt_q
drive_out variables rhs row zero t = some t
drive_out variables rhs row (suc n) t = elim (ltb (index_at t.basis row) variables) [
  | true ↦ drive_out variables rhs (suc row) n t
  | false ↦
      let old = row_or (get_elem? t.rows row) in
      elim (lt_q eps (abs_q (entry_at old rhs))) [
        | true ↦ none
        | false ↦
            drive_out variables rhs (suc row) n
              (pivot_on row t (replacement t.basis old 0 variables))
      ]
]

-- The value of a structural variable: the right-hand side of the last row where it is basic.
solution_at : ℕ → ℕ → List ℕ → List Row → Rational → Rational
solution_at rhs column [] rows acc = acc
solution_at rhs column (b ∷ bs) [] acc = acc
solution_at rhs column (b ∷ bs) (r ∷ rs) acc =
    solution_at rhs column bs rs (if b == column then entry_at r rhs else acc)

unfoldable pub solution_of : ℕ → ℕ → Tableau → Row
unfolding solution_at build
solution_of variables rhs t = build (λ j. solution_at rhs j t.basis t.rows zero_q) 0 variables

objective_value : Row → Row → Rational → Rational
unfolding add_q mul_q
objective_value [] xs acc = acc
objective_value (c ∷ cs) [] acc = acc
objective_value (c ∷ cs) (x ∷ xs) acc = objective_value cs xs (add_q acc (mul_q c x))

abbrev failed : SimplexStatus → ℕ → SimplexResult
failed status variables = record {
  status = status;
  solution = fill variables zero_q;
  objective = zero_q;
}

finish : Row → ℕ → ℕ → SimplexStatus × Tableau → SimplexResult
unfolding fill solution_of objective_value
finish c variables rhs (unbounded, t) = failed unbounded variables
finish c variables rhs (_, t) =
    let solution = solution_of variables rhs t in
    record { status = optimal; solution = solution; objective = objective_value c solution zero_q }

second_phase : Row → ℕ → ℕ → Option Tableau → SimplexResult
unfolding fill iterate finish
second_phase c rows rhs none = failed infeasible (length c)
second_phase c rows rhs (some t) =
    finish c (length c) rhs (iterate max_iterations rhs (c ++ fill rows artificial_cost) t)

after_first : Row → ℕ → ℕ → Row → SimplexStatus × Tableau → SimplexResult
unfolding fill basic_cost second_phase drive_out lt_q
after_first c rows rhs cost (unbounded, t) = failed infeasible (length c)
after_first c rows rhs cost (_, t) =
    elim (lt_q sum_eps (basic_cost rhs cost t.basis t.rows zero_q)) [
      | true ↦ failed infeasible (length c)
      | false ↦ second_phase c rows rhs (drive_out (length c) rhs 0 rows t)
    ]

unfoldable pub simplex_minimize : Row → List Row → Row → SimplexResult
unfolding fill iterate after_first first_tableau
simplex_minimize c [] b = record {
  status = optimal;
  solution = fill (length c) zero_q;
  objective = zero_q;
}
simplex_minimize c (r ∷ rs) b =
    let rows = length (r ∷ rs) in
    let rhs = length c + rows in
    let cost = fill (length c) zero_q ++ fill rows one_q in
    after_first c rows rhs cost
      (iterate max_iterations rhs cost (first_tableau (length c) (r ∷ rs) b))
