-- ===== src/Tests/Watching.antt =====
-- The alerts.
use void.Base.{
  ℕ, ◌+◌, All, map, ◌≡◌, refl, false, none, List, [], ◌∷◌, length, leb, max, if◌then◌else◌,
}
use void.Alerting.{advance_rule, observations_of, was_seen, get_rule, evaluate_health_alerts}
use void.Signals.{
  firing, resolved, HealthLevel, AlertPolicy, Observation, cycle, critical, warning, healthy,
  degraded, down, default_alert_policy, HealthSnapshot,
}
use void.Alerting.Rule.{WellFormed, advance_rule-WellFormed, open_after, was_open}
use void.Alerting.Incident.{state_severity, Round, run_rule, run_rule-open, run_rule-once}
use void.Text.{Text, codes}
use void.Alerting.Events.{events_of}
use void.Alerting.Evaluation.{Apart}
use void.Alerting.Runs.{RulesFormed, evaluate_all, evaluate_all-open}

abbrev seen : HealthLevel → ℕ → Observation
seen level at = record {
  id = codes "cycle";
  scope = cycle;
  source_key = none;
  level = level;
  at = at;
}

abbrev rounds : List Round
rounds = (seen down 10, 11) ∷ (seen down 20, 21) ∷ (seen down 30, 31) ∷ []

abbrev mixed : List Round
mixed = (seen down 10, 11) ∷ (seen healthy 20, 21) ∷ (seen degraded 30, 31) ∷ []

-- Two bad observations are needed, and there is no re-notification.
abbrev patient : AlertPolicy
patient = record { min_severity = warning; renotify_ms = 0; hysteresis = 2 }

abbrev severe : AlertPolicy
severe = record { min_severity = critical; renotify_ms = 0; hysteresis = 1 }

advance_rule-WellFormed_example :
    WellFormed (advance_rule (seen down 10) none default_alert_policy 11).0
advance_rule-WellFormed_example =
    advance_rule-WellFormed (seen down 10) default_alert_policy 11 none tt

run_rule-open_example :
    was_open (run_rule default_alert_policy mixed none).0
    ≡ open_after false (run_rule default_alert_policy mixed none).1
run_rule-open_example = run_rule-open default_alert_policy mixed

run_rule-once_example : length (run_rule patient rounds none).1 ≡ (if leb (max 1 2) 3 then 1 else 0)
run_rule-once_example = run_rule-once patient down refl refl refl rounds (refl, (refl, (refl, tt)))

abbrev one_source : Text → HealthLevel → ℕ → HealthSnapshot
one_source key level at = record {
  at = at + 10;
  cycle = record { status = healthy; at = at };
  sources = record { key = key; signal = record { status = level; at = at } } ∷ [];
}

-- A source that is down, and then no longer reported.
abbrev snapshots : List HealthSnapshot
snapshots = one_source (codes "b") down 100 ∷ one_source (codes "a") healthy 200 ∷ []

ids-Apart : All (λ s. Apart (observations_of s)) snapshots
unfolding observations_of was_seen
ids-Apart = ((refl, (refl, tt)), ((refl, (refl, tt)), tt))

evaluate_all-open_example :
    let result = evaluate_all default_alert_policy snapshots [] in
    (was_open (get_rule (codes "source:b") result.0)
      ≡ open_after false (events_of (codes "source:b") result.1))
    × RulesFormed result.0
evaluate_all-open_example =
    evaluate_all-open default_alert_policy snapshots (codes "source:b") ids-Apart

-- It has been reported and resolved.
lost_source :
    map state_severity (evaluate_all default_alert_policy snapshots []).1
    ≡ (firing, critical) ∷ (resolved, critical) ∷ []
unfolding evaluate_all evaluate_health_alerts observations_of was_seen get_rule
lost_source = refl
