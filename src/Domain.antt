-- ===== src/Domain.antt =====
-- packages/domain/src: the value sets and the pure functions over them.
pub mod Values
pub mod Components
pub mod Names
pub mod Freshness
pub mod Stamp
