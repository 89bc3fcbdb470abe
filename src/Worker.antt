-- ===== src/Worker.antt =====
-- workers/odds-collector/src: retries, the rate limit of a provider, the health, and the detection.
pub mod Retry
pub mod Limiter
pub mod Health
pub mod Detect
pub mod Detection
