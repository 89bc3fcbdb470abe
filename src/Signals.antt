-- ===== src/Signals.antt =====
-- packages/alerting/src/types.ts, and the constants and events of evaluate.ts. The prose of an event,
-- `title` and `message`, is left out.
use void.Base.{ℕ, Bool, Option, none, some, List, ◌++◌}
use void.Text.{Text, codes}

pub data HealthLevel : Type 0 where
  healthy degraded down : HealthLevel

pub data AlertSeverity : Type 0 where
  info warning critical : AlertSeverity

pub data AlertState : Type 0 where
  firing resolved : AlertState

pub data Scope : Type 0 where
  cycle source : Scope

pub record SignalStatus : Type 0 where
  pub status : HealthLevel
  pub at : ℕ

pub record SourceSignal : Type 0 where
  pub key : Text
  pub signal : SignalStatus

pub record HealthSnapshot : Type 0 where
  pub at : ℕ
  pub cycle : SignalStatus
  pub sources : List SourceSignal

pub record AlertEvent : Type 0 where
  pub id : Text
  pub code : Text
  pub scope : Scope
  pub source_key : Option Text
  pub severity : AlertSeverity
  pub state : AlertState
  pub status : HealthLevel
  pub previous_status : Option HealthLevel
  pub since : ℕ
  pub at : ℕ

pub record AlertPolicy : Type 0 where
  pub min_severity : AlertSeverity
  pub renotify_ms : ℕ
  pub hysteresis : ℕ

pub record RuleState : Type 0 where
  pub level : HealthLevel
  pub since_first_bad : Option ℕ
  pub bad_streak : ℕ
  pub active : Bool
  pub notified : Bool
  pub notified_severity : Option AlertSeverity
  pub notified_at : Option ℕ

-- AlertEvaluationState: the rules by their id.
abbrev pub Rules : Type 0
Rules = List (Text × RuleState)

pub record AlertEvaluation : Type 0 where
  pub events : List AlertEvent
  pub next : Rules

abbrev pub default_alert_policy : AlertPolicy
default_alert_policy = record { min_severity = warning; renotify_ms = 1800000; hysteresis = 1 }

abbrev pub severity_rank : AlertSeverity → ℕ
severity_rank info = 0
severity_rank warning = 1
severity_rank critical = 2

abbrev pub severity_for_level : HealthLevel → AlertSeverity
severity_for_level down = critical
severity_for_level _ = warning

pub record Observation : Type 0 where
  pub id : Text
  pub scope : Scope
  pub source_key : Option Text
  pub level : HealthLevel
  pub at : ℕ

abbrev pub level_name : HealthLevel → Text
level_name healthy = codes "HEALTHY"
level_name degraded = codes "DEGRADED"
level_name down = codes "DOWN"

unfoldable pub code_for : Scope → HealthLevel → Text
code_for cycle level = codes "WORKER_" ++ level_name level
code_for source level = codes "SOURCE_" ++ level_name level

unfoldable pub firing_event : Observation → ℕ → ℕ → Option HealthLevel → AlertEvent
unfolding code_for
firing_event o now since previous = record {
  id = o.id;
  code = code_for o.scope o.level;
  scope = o.scope;
  source_key = o.source_key;
  severity = severity_for_level o.level;
  state = firing;
  status = o.level;
  previous_status = previous;
  since = since;
  at = now;
}

-- `a ?? b`
abbrev pub or_value : Option ℕ → ℕ → ℕ
or_value none b = b
or_value (some a) b = a

unfoldable pub resolved_event : RuleState → Observation → ℕ → AlertEvent
unfolding code_for
resolved_event prior o now = record {
  id = o.id;
  code = code_for o.scope prior.level;
  scope = o.scope;
  source_key = o.source_key;
  severity = severity_for_level prior.level;
  state = resolved;
  status = healthy;
  previous_status = some prior.level;
  since = or_value prior.since_first_bad now;
  at = now;
}
