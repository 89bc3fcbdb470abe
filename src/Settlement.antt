-- ===== src/Settlement.antt =====
-- packages/settlement/src: lines, settlement of a selection, the rule engine and payouts.
pub mod Line
pub mod Selection
pub mod Settle
pub mod Payout
pub mod Engine
