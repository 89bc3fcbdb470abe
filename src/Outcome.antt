-- ===== src/Outcome.antt =====
-- packages/outcome-engine/src: the reduced state model of a candidate.
pub mod Score
pub mod Bounds
pub mod Classes
pub mod Model
