-- ===== src/Settlement/Payout.antt =====
-- packages/settlement/src/payout.ts, over exact ratios where the source has doubles.
pub mod Sum
use void.Base.{ℕ, Option, none, some, List, [], ◌∷◌, map, length}
use void.Base.Ratio.{Ratio, whole, add, mul, div_nat}
use void.Domain.Values.{ComponentResult, SettlementResult}
use void.Domain.Components.{return_multiplier}
use void.Settlement.Selection.{SettleAssessment}

unfoldable pub payout : Ratio → Ratio → SettlementResult → Ratio
unfolding return_multiplier
payout stake odds result = mul stake (return_multiplier result odds)

component_return : ComponentResult → Ratio → Ratio → Ratio
component_return ComponentResult.win stake odds = mul stake odds
component_return ComponentResult.push stake odds = stake
component_return ComponentResult.voided stake odds = stake
component_return ComponentResult.loss stake odds = whole 0

unfoldable pub result_to_component : SettlementResult → ComponentResult
result_to_component SettlementResult.full_win = ComponentResult.win
result_to_component SettlementResult.half_win = ComponentResult.win
result_to_component SettlementResult.full_loss = ComponentResult.loss
result_to_component SettlementResult.half_loss = ComponentResult.loss
result_to_component SettlementResult.push = ComponentResult.push
result_to_component SettlementResult.voided = ComponentResult.voided

components_or : Option (List ComponentResult) → List ComponentResult → List ComponentResult
components_or none cs = cs
components_or (some cs) cs' = cs

-- Each component carries an equal share of the stake.
unfoldable pub component_payouts : SettleAssessment → Ratio → Ratio → List Ratio
unfolding component_return components_or result_to_component
component_payouts a stake odds =
    let components = components_or a.state.components (result_to_component a.state.result ∷ []) in
    map (λ c. component_return c (div_nat stake (length components)) odds) components
