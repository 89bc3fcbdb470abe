-- ===== src/Alerting.antt =====
-- advanceRule and evaluateHealthAlerts of packages/alerting/src/evaluate.ts.
pub mod Rule
pub mod Incident
pub mod Events
pub mod Evaluation
pub mod Runs
use void.Base.{
  ℕ, suc, ◌+◌, ◌-◌, Bool, true, false, ◌&&◌, ◌||◌, not, Option, none, some, List, [], ◌∷◌, ◌++◌,
  map, if◌then◌else◌, leb, ltb, max,
}
use void.Text.{Text, codes, text_eq}
use void.Signals.{
  AlertEvaluation, AlertEvent, AlertPolicy, AlertSeverity, AlertState, HealthLevel, HealthSnapshot,
  Observation, RuleState, Rules, Scope, SignalStatus, SourceSignal, code_for, critical, cycle,
  default_alert_policy, degraded, down, firing, firing_event, healthy, info, level_name, or_value,
  resolved, resolved_event, severity_for_level, severity_rank, source, warning,
}

abbrev pub is_bad : HealthLevel → Bool
is_bad healthy = false
is_bad _ = true

abbrev prior_streak : Option RuleState → ℕ
prior_streak none = 0
prior_streak (some p) = p.bad_streak

abbrev prior_since : Option RuleState → ℕ → ℕ
prior_since none at = at
prior_since (some p) at = or_value p.since_first_bad at

-- The streak after an observation, and the time of its first bad observation.
unfoldable pub streak_after : HealthLevel → Option RuleState → ℕ
streak_after level prior = if is_bad level then suc (prior_streak prior) else 0

unfoldable pub since_after : Observation → Option RuleState → Option ℕ
since_after o prior = if is_bad o.level then some (prior_since prior o.at) else none

unfoldable pub should_fire : HealthLevel → ℕ → AlertPolicy → Bool
should_fire level streak policy = is_bad level && leb (max 1 policy.hysteresis) streak

-- The state of a rule that does not fire.
abbrev pub quiet : HealthLevel → Option ℕ → ℕ → RuleState
quiet level since streak = record {
  level = level;
  since_first_bad = since;
  bad_streak = streak;
  active = false;
  notified = false;
  notified_severity = none;
  notified_at = none;
}

quiet_events : Observation → Option RuleState → ℕ → List AlertEvent
unfolding resolved_event
quiet_events o none now = []
quiet_events o (some p) now = if p.active && p.notified then resolved_event p o now ∷ [] else []

-- Loud enough for the floor.
abbrev pub at_floor : HealthLevel → AlertPolicy → Bool
at_floor level policy =
    leb (severity_rank policy.min_severity) (severity_rank (severity_for_level level))

-- The state of a rule that fires, with what was notified last.
abbrev pub alert : HealthLevel → Option ℕ → ℕ → Bool → Option AlertSeverity → Option ℕ → RuleState
alert level since streak notified severity at = record {
  level = level;
  since_first_bad = since;
  bad_streak = streak;
  active = true;
  notified = notified;
  notified_severity = severity;
  notified_at = at;
}

abbrev prior_level : Option RuleState → Option HealthLevel
prior_level none = none
prior_level (some p) = some p.level

-- An event is pushed, and the state says so.
notify : Observation → Option RuleState → ℕ → RuleState × List AlertEvent
unfolding firing_event streak_after since_after
notify o prior now =
    let since = since_after o prior in
    (
      alert o.level since (streak_after o.level prior) true (some (severity_for_level o.level))
          (some now),
      firing_event o now (or_value since o.at) (prior_level prior) ∷ [],
    )

-- The condition has just become unhealthy.
rising : Observation → Option RuleState → AlertPolicy → ℕ → RuleState × List AlertEvent
unfolding notify streak_after since_after
rising o prior policy now =
    if at_floor o.level policy
    then notify o prior now
    else (alert o.level (since_after o prior) (streak_after o.level prior) false none none, [])

unfoldable pub escalated : HealthLevel → RuleState → Bool
escalated level p = p.notified && elim p.notified_severity [
  | none ↦ false
  | some s ↦ ltb (severity_rank s) (severity_rank (severity_for_level level))
]

-- With a positive `renotify_ms`, `now` before `notified_at` is not due, as in the program.
unfoldable pub due : RuleState → AlertPolicy → ℕ → Bool
due p policy now =
    not p.notified
    || (ltb 0 policy.renotify_ms
        && elim p.notified_at [ none ↦ false | some at ↦ leb policy.renotify_ms (now - at) ])

-- The condition was unhealthy already.
standing : Observation → RuleState → AlertPolicy → ℕ → RuleState × List AlertEvent
unfolding notify escalated due streak_after since_after
standing o p policy now =
    if at_floor o.level policy && (escalated o.level p || due p policy now)
    then notify o (some p) now
    else (
      alert o.level (since_after o (some p)) (streak_after o.level (some p)) p.notified
          p.notified_severity p.notified_at,
      [],
    )

active_rule : Observation → Option RuleState → AlertPolicy → ℕ → RuleState × List AlertEvent
unfolding rising standing
active_rule o none policy now = rising o none policy now
active_rule o (some p) policy now =
    if p.active then standing o p policy now else rising o (some p) policy now

-- The next state of a rule and the events that are pushed.
unfoldable pub advance_rule :
    Observation → Option RuleState → AlertPolicy → ℕ → RuleState × List AlertEvent
unfolding should_fire streak_after since_after quiet_events active_rule
advance_rule o prior policy now =
    if should_fire o.level (streak_after o.level prior) policy
    then active_rule o prior policy now
    else (
      quiet o.level (since_after o prior) (streak_after o.level prior),
      quiet_events o prior now,
    )

unfoldable pub get_rule : Text → Rules → Option RuleState
get_rule id [] = none
get_rule id ((j, r) ∷ rs) = let rest = get_rule id rs in if text_eq j id then some r else rest

unfoldable pub set_rule : Text → RuleState → Rules → Rules
set_rule id r [] = (id, r) ∷ []
set_rule id r ((j, q) ∷ rs) =
    let rest = set_rule id r rs in if text_eq j id then (j, r) ∷ rs else (j, q) ∷ rest

unfoldable pub observations_of : HealthSnapshot → List Observation
observations_of s =
    record {
      id = codes "cycle";
      scope = cycle;
      source_key = none;
      level = s.cycle.status;
      at = s.cycle.at;
    }
    ∷ map
        (λ x. record {
          id = codes "source:" ++ x.key;
          scope = source;
          source_key = some x.key;
          level = x.signal.status;
          at = x.signal.at;
        })
        s.sources

-- The loop over the observations, which fills `rules` and pushes events.
unfoldable pub observe_all :
    List Observation → Rules → AlertPolicy → ℕ → Rules → List AlertEvent → AlertEvaluation
unfolding advance_rule get_rule set_rule
observe_all [] previous policy now rules events = record { events = events; next = rules }
observe_all (o ∷ os) previous policy now rules events =
    let step = advance_rule o (get_rule o.id previous) policy now in
    observe_all os previous policy now (set_rule o.id step.0 rules) (events ++ step.1)

-- The rest of a text after a prefix.
strip_prefix : Text → Text → Option Text
strip_prefix [] t = some t
strip_prefix (c ∷ cs) [] = none
strip_prefix (c ∷ cs) (d ∷ ds) =
    let rest = strip_prefix cs ds in if text_eq (c ∷ []) (d ∷ []) then rest else none

-- The observation that stands for a condition that is no longer reported.
gone : Text → ℕ → Observation
unfolding strip_prefix
gone id at = record {
  id = id;
  scope = if text_eq id (codes "cycle") then cycle else source;
  source_key = strip_prefix (codes "source:") id;
  level = healthy;
  at = at;
}

unfoldable pub was_seen : Text → List Observation → Bool
was_seen id [] = false
was_seen id (o ∷ os) = text_eq o.id id || was_seen id os

-- The loop over the rules of the previous run.
unfoldable pub resolve_gone : List Observation → ℕ → Rules → List AlertEvent
unfolding was_seen resolved_event gone
resolve_gone os now [] = []
resolve_gone os now ((id, p) ∷ rs) =
    let rest = resolve_gone os now rs in
    if was_seen id os || not p.notified then rest else resolved_event p (gone id now) now ∷ rest

unfoldable pub evaluate_health_alerts : HealthSnapshot → Rules → AlertPolicy → AlertEvaluation
unfolding observations_of observe_all resolve_gone
evaluate_health_alerts snapshot previous policy =
    let os = observations_of snapshot in
    let seen = observe_all os previous policy snapshot.at [] [] in
    record seen { events = seen.events ++ resolve_gone os snapshot.at previous }
