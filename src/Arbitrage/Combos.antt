-- ===== src/Arbitrage/Combos.antt =====
-- The generator `combinations` of packages/arbitrage/src/candidates.ts. A step looks for the last index
-- that is not at its limit, by recursion from the right; the loop has fuel.
pub mod Chosen
use void.Base.{
  ℕ, zero, suc, ◌+◌, ◌-◌, Bool, Option, none, some, List, [], ◌∷◌, ◌++◌, map, if◌then◌else◌, ltb,
  ◌==◌, length, get_elem?,
}

-- `start`, `start + 1`, …, as many as asked.
unfoldable pub run_from : ℕ → ℕ → List ℕ
run_from start zero = []
run_from start (suc n) = start ∷ run_from (suc start) n

-- The last index below its limit moves up by one, and those after it follow it.
unfoldable pub advance : ℕ → List ℕ → Option (List ℕ)
unfolding run_from
advance total [] = none
advance total (i ∷ is) = elim (advance total is) [
  | some js ↦ some (i ∷ js)
  | none ↦ if i == total - suc (length is) then none else some (run_from (suc i) (suc (length is)))
]

unfoldable pub index_lists : ℕ → ℕ → List ℕ → List (List ℕ)
unfolding advance
index_lists zero total is = []
index_lists (suc fuel) total is =
    is ∷ elim (advance total is) [ none ↦ [] | some js ↦ index_lists fuel total js ]

-- The number of ways to choose `k` of `n`.
unfoldable pub binomial : ℕ → ℕ → ℕ
binomial n zero = 1
binomial zero (suc k) = 0
binomial (suc n) (suc k) = binomial n k + binomial n (suc k)

-- An index that the items do not have would give `undefined`; no index is out of range.
abbrev pub cons_some {ℓ} : {A : Type ℓ} → Option A → List A → List A
cons_some none xs = xs
cons_some (some a) xs = a ∷ xs

unfoldable pub pick {ℓ} : {A : Type ℓ} → List A → List ℕ → List A
pick items [] = []
pick items (i ∷ is) = cons_some (get_elem? items i) (pick items is)

unfoldable pub combinations {ℓ} : {A : Type ℓ} → List A → ℕ → List (List A)
unfolding index_lists binomial pick run_from
combinations items size =
    if ltb (length items) size
    then []
    else map (pick items)
        (index_lists (binomial (length items) size) (length items) (run_from 0 size))
