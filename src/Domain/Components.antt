-- ===== src/Domain/Components.antt =====
-- packages/domain/src/settlement.ts: component results and return multipliers.
use void.Base.{Bool, ◌&&◌, List, [], ◌∷◌, any, every, if◌then◌else◌, Result, ok, throws}
use void.Base.Ratio.{Ratio, whole, add, div_nat}
use void.Domain.Values.{ComponentResult, SettlementResult, component_eq}

-- The three exceptions of `settlementResultFromComponents`.
pub data ComponentError : Type 0 where
  no_components mixed_void mixed_win_loss : ComponentError

abbrev pub includes : ComponentResult → List ComponentResult → Bool
includes c = any (component_eq c)

abbrev pub all_are : ComponentResult → List ComponentResult → Bool
all_are c = every (component_eq c)

-- The branches after the check for an empty list.
from_nonempty : List ComponentResult → Result ComponentError SettlementResult
from_nonempty components =
    let has_win = includes ComponentResult.win components in
    let has_loss = includes ComponentResult.loss components in
    if includes ComponentResult.voided components
    then (if all_are ComponentResult.voided components
        then ok SettlementResult.voided
        else throws mixed_void)
    else if has_win && has_loss
    then throws mixed_win_loss
    else if has_win
    then ok (
        if all_are ComponentResult.win components
        then SettlementResult.full_win
        else SettlementResult.half_win)
    else if has_loss
    then ok (
        if all_are ComponentResult.loss components
        then SettlementResult.full_loss
        else SettlementResult.half_loss)
    else ok SettlementResult.push

unfoldable pub settlement_result_from_components :
    List ComponentResult → Result ComponentError SettlementResult
unfolding from_nonempty
settlement_result_from_components [] = throws no_components
settlement_result_from_components (c ∷ cs) = from_nonempty (c ∷ cs)

unfoldable pub return_multiplier : SettlementResult → Ratio → Ratio
return_multiplier SettlementResult.full_win odds = odds
return_multiplier SettlementResult.full_loss odds = whole 0
return_multiplier SettlementResult.half_win odds = div_nat (add odds (whole 1)) 2
return_multiplier SettlementResult.half_loss odds = div_nat (whole 1) 2
return_multiplier SettlementResult.push odds = whole 1
return_multiplier SettlementResult.voided odds = whole 1
