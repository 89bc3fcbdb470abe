-- ===== src/Arbitrage.antt =====
-- packages/arbitrage/src: the false-arb detector and the validation of an opportunity.
pub mod Report
pub mod Coverage
pub mod Simplex
pub mod Stakes
pub mod Candidate
pub mod Structure
pub mod Combos
pub mod Generate
pub mod Prune
pub mod Scan
pub mod Checks
pub mod Validation
