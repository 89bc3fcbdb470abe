-- ===== src/Domain/Freshness.antt =====
-- packages/domain/src/freshness.ts: the bands of a price's age.
use void.Base.{ℕ, ltb, if◌then◌else◌}

pub data ScoreFreshness : Type 0 where
  fresh aging stale : ScoreFreshness

pub record FreshnessPolicy : Type 0 where
  pub fresh_ms : ℕ
  pub aging_ms : ℕ

abbrev pub default_freshness_policy : FreshnessPolicy
default_freshness_policy = record { fresh_ms = 5000; aging_ms = 15000 }

unfoldable pub classify_freshness : ℕ → FreshnessPolicy → ScoreFreshness
classify_freshness age policy =
    if ltb age policy.fresh_ms then fresh else if ltb age policy.aging_ms then aging else stale
