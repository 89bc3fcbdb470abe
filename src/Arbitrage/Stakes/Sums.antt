-- ===== src/Arbitrage/Stakes/Sums.antt =====
-- Sums and least_of entries of lists of exact amounts.
use void.Base.{ℕ, ◌*◌, ◌≡◌, ap, List, [], ◌∷◌, map, arith, All, Bool-cases, inl, inr, if◌then◌else◌}
use void.Base.Ratio.{
  Ratio, add, mul, lt_ratio, IsProper, AtMost, AtMost-trans, add-IsProper, mul-IsProper,
}
use void.Arbitrage.Stakes.{sum_from, least_of, least_from, return_from}

-- `s` is `v` times `k`.
abbrev pub Scaled : Ratio → Ratio → Ratio → Type 0
Scaled k v s = s.num * (v.den * k.den) ≡ v.num * k.num * s.den

add-Scaled : (k a b s t : Ratio) → Scaled k a s → Scaled k b t → Scaled k (add a b) (add s t)
add-Scaled k a b s t h g =
    omega (arith, ap (λ (x : ℕ). x * (t.den * b.den)) h, ap (λ (x : ℕ). x * (s.den * a.den)) g)

module _ (k : Ratio) (f : Ratio → Ratio) (h : (v : Ratio) → Scaled k v (f v)) where
  pub sum_from-Scaled :
      (vs : List Ratio) (acc scaled : Ratio)
      → Scaled k acc scaled
      → Scaled k (sum_from acc vs) (sum_from scaled (map f vs))
  sum_from-Scaled [] acc scaled e = e
  sum_from-Scaled (v ∷ vs) acc scaled e =
      sum_from-Scaled vs (add acc v) (add scaled (f v)) (add-Scaled k acc v scaled (f v) e (h v))

pub sum_from-IsProper :
    (vs : List Ratio) (acc : Ratio) → IsProper acc → All IsProper vs → IsProper (sum_from acc vs)
sum_from-IsProper [] acc p ps = p
sum_from-IsProper (v ∷ vs) acc p ps =
    sum_from-IsProper vs (add acc v) (add-IsProper acc v p ps.0) ps.1

pub return_from-IsProper :
    (ms ss : List Ratio) (acc : Ratio)
    → IsProper acc
    → All IsProper ms
    → All IsProper ss
    → IsProper (return_from acc ms ss)
unfolding return_from
return_from-IsProper [] ss acc p ps qs = p
return_from-IsProper (m ∷ ms) [] acc p ps qs = p
return_from-IsProper (m ∷ ms) (s ∷ ss) acc p ps qs =
    return_from-IsProper ms ss (add acc (mul m s))
      (add-IsProper acc (mul m s) p (mul-IsProper m s ps.0 qs.0)) ps.1 qs.1

abbrev less : Ratio → Ratio → Ratio
less r best = if lt_ratio r best then r else best

less-AtMost : (r best : Ratio) → AtMost (less r best) best × AtMost (less r best) r
less-AtMost r best = elim (Bool-cases (lt_ratio r best)) [
  | inl e ↦ rw e (ground arith, ground arith)
  | inr e ↦ rw e (ground arith, ground arith)
]

less-IsProper : (r best : Ratio) → IsProper r → IsProper best → IsProper (less r best)
less-IsProper r best p q = elim (Bool-cases (lt_ratio r best)) [ inl e ↦ rw e p | inr e ↦ rw e q ]

least_from-AtMost :
    (rs : List Ratio) (best : Ratio)
    → IsProper best
    → All IsProper rs
    → IsProper (least_from best rs)
      × AtMost (least_from best rs) best
      × All (AtMost (least_from best rs)) rs
unfolding least_from
least_from-AtMost [] best p ps = (p, omega arith, tt)
least_from-AtMost (r ∷ rs) best p ps =
    let q = less-IsProper r best ps.0 p in
    let rest = least_from-AtMost rs (less r best) q ps.1 in
    let both = less-AtMost r best in
    let l = least_from (less r best) rs in
    (
      rest.0,
      AtMost-trans l (less r best) best q rest.1 both.0,
      (AtMost-trans l (less r best) r q rest.1 both.1, rest.2),
    )

-- The least_of of some proper amounts is proper and at most each of them.
pub least-AtMost :
    (r : Ratio) (rs : List Ratio)
    → All IsProper (r ∷ rs)
    → IsProper (least_of (r ∷ rs)) × All (AtMost (least_of (r ∷ rs))) (r ∷ rs)
unfolding least_of
least-AtMost r rs ps = let h = least_from-AtMost rs r ps.0 ps.1 in (h.0, (h.1, h.2))
