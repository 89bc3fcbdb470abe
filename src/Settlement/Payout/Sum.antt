-- ===== src/Settlement/Payout/Sum.antt =====
-- The payouts of the components add up to the payout of the result.
use native.Mathlib.Nat.{mul-pos, mul-lt-mul_of_pos_left}
use void.Base.{ℕ, ◌≡◌, refl, List, [], ◌∷◌, ok, throws, Result, ◌>>=◌, ◌<◌, arith, ◌*◌, some, none}
use void.Base.Ratio.{Ratio, whole, add, ◌≈◌}
use void.Domain.Values.{ComponentResult, SettlementResult}
use void.Domain.Components.{settlement_result_from_components, ComponentError}
use void.Settlement.Payout.{payout, component_payouts}
use void.Settlement.Settle.{settle_selection, combined_state}
use void.Settlement.Selection.{
  Settles, SettleAssessment, SettleableSelection, MatchState, settled, Note,
}
use void.Settlement.Settle.Combines.{Combines, refused, one, two, settle_selection-Combines}

abbrev pub total_of : List Ratio → Ratio
total_of [] = whole 0
total_of (r ∷ rs) = add r (total_of rs)

-- What it means for the components of an assessment to pay what its result pays.
abbrev PaysAlike : Ratio → Ratio → SettleAssessment → Type 0
PaysAlike stake odds a =
    total_of (component_payouts a stake odds) ≈ payout stake odds a.state.result

abbrev assessed : List ComponentResult → List Note → SettlementResult → SettleAssessment
assessed cs notes r = record { state = record { result = r; components = some cs }; notes = notes }

assessed_of :
    (cs : List ComponentResult) (notes : List Note) (a : SettleAssessment)
    (t : Result ComponentError SettlementResult)
    → (t >>= λ r. ok (settled (assessed cs notes r))) ≡ ok (settled a)
    → (r : SettlementResult) × (t ≡ ok r) × (a ≡ assessed cs notes r)
assessed_of cs notes a (ok r) e = (r, refl, ground arith)
assessed_of cs notes a (throws x) e = cc

one_pays :
    (stake odds : Ratio) (c : ComponentResult) (notes : List Note) (r : SettlementResult)
    → settlement_result_from_components (c ∷ []) ≡ ok r
    → PaysAlike stake odds (assessed (c ∷ []) notes r)
unfolding payout component_payouts settlement_result_from_components
one_pays stake odds ComponentResult.win notes r e = ground arith
one_pays stake odds ComponentResult.loss notes r e = ground arith
one_pays stake odds ComponentResult.push notes r e = ground arith
one_pays stake odds ComponentResult.voided notes r e = ground arith

ok-injective :
    {r s : SettlementResult}
    → ◌≡◌ {A = Result ComponentError SettlementResult} (ok r) (ok s)
    → r ≡ s
ok-injective e = cc

two_pay :
    (stake odds : Ratio) (c d : ComponentResult) (notes : List Note) (r : SettlementResult)
    → settlement_result_from_components (c ∷ d ∷ []) ≡ ok r
    → PaysAlike stake odds (assessed (c ∷ d ∷ []) notes r)
unfolding payout component_payouts settlement_result_from_components
two_pay stake odds ComponentResult.win ComponentResult.win notes r e =
    rw (← ok-injective e) (omega arith)
two_pay stake odds ComponentResult.win ComponentResult.loss notes r e = cc
two_pay stake odds ComponentResult.win ComponentResult.push notes r e =
    rw (← ok-injective e) (omega arith)
two_pay stake odds ComponentResult.win ComponentResult.voided notes r e = cc
two_pay stake odds ComponentResult.loss ComponentResult.win notes r e = cc
two_pay stake odds ComponentResult.loss ComponentResult.loss notes r e =
    rw (← ok-injective e) (omega arith)
two_pay stake odds ComponentResult.loss ComponentResult.push notes r e =
    rw (← ok-injective e) (omega arith)
two_pay stake odds ComponentResult.loss ComponentResult.voided notes r e = cc
two_pay stake odds ComponentResult.push ComponentResult.win notes r e =
    rw (← ok-injective e) (omega arith)
two_pay stake odds ComponentResult.push ComponentResult.loss notes r e =
    rw (← ok-injective e) (omega arith)
two_pay stake odds ComponentResult.push ComponentResult.push notes r e =
    rw (← ok-injective e) (omega arith)
two_pay stake odds ComponentResult.push ComponentResult.voided notes r e = cc
two_pay stake odds ComponentResult.voided ComponentResult.win notes r e = cc
two_pay stake odds ComponentResult.voided ComponentResult.loss notes r e = cc
two_pay stake odds ComponentResult.voided ComponentResult.push notes r e = cc
two_pay stake odds ComponentResult.voided ComponentResult.voided notes r e =
    rw (← ok-injective e) (omega arith)

Combines-PaysAlike :
    (stake odds : Ratio) (a : SettleAssessment) {s : Settles}
    → Combines s
    → s ≡ ok (settled a)
    → PaysAlike stake odds a
unfolding combined_state
Combines-PaysAlike stake odds a (refused r) e = cc
Combines-PaysAlike stake odds a (one c notes) e =
    let (r, h, same) = assessed_of (c ∷ []) notes a _ e in rw same (one_pays stake odds c notes r h)
Combines-PaysAlike stake odds a (two c d notes) e =
    let (r, h, same) = assessed_of (c ∷ d ∷ []) notes a _ e in
    rw same (two_pay stake odds c d notes r h)

-- The payouts of the components of any settled selection add up exactly to the payout of its result.
pub component_payouts_sum :
    (s : SettleableSelection) (m : MatchState) (stake odds : Ratio) (a : SettleAssessment)
    → settle_selection s m ≡ ok (settled a)
    → total_of (component_payouts a stake odds) ≈ payout stake odds a.state.result
component_payouts_sum s m stake odds a e =
    Combines-PaysAlike stake odds a (settle_selection-Combines s m) e

-- An assessment without components breaks the sum: for a half win it pays the full odds.
pub component_payouts_half_win :
    (stake odds : Ratio) (notes : List Note)
    → 0 < stake.num
    → 0 < stake.den
    → 0 < odds.den
    → odds.den < odds.num
    → let a : SettleAssessment = record {
      state = record { result = SettlementResult.half_win; components = none };
      notes = notes;
    } in
      ¬ (total_of (component_payouts a stake odds) ≈ payout stake odds SettlementResult.half_win)
unfolding payout component_payouts
component_payouts_half_win stake odds notes p q r h e =
    let k : ℕ = stake.num * stake.den * odds.den in
    let positive : 0 < k = mul-pos (mul-pos p q) r in
    let larger : k * odds.den < k * odds.num = mul-lt-mul_of_pos_left h positive in omega arith
