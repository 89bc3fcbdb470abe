-- ===== src/Alerting/Rule.antt =====
-- One condition of evaluate.ts: the invariant of its state, and what a step may push.
use void.Base.{
  is_some, ℕ, ◌≡◌, refl, Bool, true, false, Option, none, some, List, [], ◌∷◌, ltb, arith, inl, inr,
  Bool-cases,
}
use void.Alerting.{
  is_bad, advance_rule, active_rule, standing, rising, notify, quiet_events, should_fire,
  streak_after, since_after, quiet,
}
use void.Signals.{
  AlertEvent, AlertPolicy, RuleState, Observation, firing, resolved, firing_event, resolved_event,
}

-- The fields of a state agree: there is a streak with a first time exactly while the level is bad, an
-- active rule is bad, and what was notified is there exactly while the rule is notified.
pub record WellFormed (r : RuleState) : Type 0 where
  pub streak : ltb 0 r.bad_streak ≡ is_bad r.level
  pub since : is_some r.since_first_bad ≡ is_bad r.level
  pub bad : r.active ≡ true → is_bad r.level ≡ true
  pub opened : r.notified ≡ true → r.active ≡ true
  pub severity : is_some r.notified_severity ≡ r.notified
  pub time : is_some r.notified_at ≡ r.notified

-- A rule that was not observed yet is well formed.
abbrev pub PriorFormed : Option RuleState → Type 0
PriorFormed none = Unit
PriorFormed (some p) = WellFormed p

module _ (o : Observation) (policy : AlertPolicy) (now : ℕ) where
  standing-WellFormed :
      (p : RuleState)
      → WellFormed p
      → is_bad o.level ≡ true
      → WellFormed (standing o p policy now).0
  unfolding standing notify streak_after since_after
  standing-WellFormed p w b = record {
    streak = ground arith;
    since = ground arith;
    bad = ground arith;
    opened = ground arith;
    severity = ground (arith, w.severity);
    time = ground (arith, w.time);
  }

  rising-WellFormed :
      (prior : Option RuleState) → is_bad o.level ≡ true → WellFormed (rising o prior policy now).0
  unfolding rising notify streak_after since_after
  rising-WellFormed prior b = record {
    streak = ground arith;
    since = ground arith;
    bad = ground arith;
    opened = ground arith;
    severity = ground arith;
    time = ground arith;
  }

  active_rule-WellFormed :
      (prior : Option RuleState)
      → PriorFormed prior
      → is_bad o.level ≡ true
      → WellFormed (active_rule o prior policy now).0
  unfolding active_rule
  active_rule-WellFormed none w b = rising-WellFormed none b
  active_rule-WellFormed (some p) w b = elim (Bool-cases p.active) [
    | inl e ↦ rw e (standing-WellFormed p w b)
    | inr e ↦ rw e (rising-WellFormed (some p) b)
  ]

  quiet-WellFormed :
      (prior : Option RuleState)
      → WellFormed (quiet o.level (since_after o prior) (streak_after o.level prior))
  unfolding since_after streak_after
  quiet-WellFormed prior = record {
    streak = ground arith;
    since = ground arith;
    bad = ground arith;
    opened = ground arith;
    severity = refl;
    time = refl;
  }

  should_fire-bad : (n : ℕ) → should_fire o.level n policy ≡ true → is_bad o.level ≡ true
  unfolding should_fire
  should_fire-bad n e = ground arith

  -- From no state, or from one whose fields agree, a step leaves a state whose fields agree.
  pub advance_rule-WellFormed :
      (prior : Option RuleState)
      → PriorFormed prior
      → WellFormed (advance_rule o prior policy now).0
  unfolding advance_rule
  advance_rule-WellFormed prior w =
      elim (Bool-cases (should_fire o.level (streak_after o.level prior) policy)) [
        | inl e ↦ rw e (active_rule-WellFormed prior w (should_fire-bad _ e))
        | inr e ↦ rw e (quiet-WellFormed prior)
      ]

-- Whether an incident is open after some events, when it was open before them or not: the last event
-- decides.
abbrev pub open_after : Bool → List AlertEvent → Bool
open_after was [] = was
open_after was (e ∷ es) = open_after (elim e.state [ firing ↦ true | resolved ↦ false ]) es

abbrev pub was_open : Option RuleState → Bool
was_open none = false
was_open (some p) = p.notified

module _ (o : Observation) (policy : AlertPolicy) (now : ℕ) where
  rising-open :
      (prior : Option RuleState)
      → was_open prior ≡ false
      → (rising o prior policy now).0.notified
        ≡ open_after (was_open prior) (rising o prior policy now).1
  unfolding rising notify firing_event
  rising-open prior e = ground (arith, e)

  standing-open :
      (p : RuleState)
      → (standing o p policy now).0.notified ≡ open_after p.notified (standing o p policy now).1
  unfolding standing notify firing_event
  standing-open p = ground arith

  quiet-open :
      (prior : Option RuleState)
      → PriorFormed prior
      → false ≡ open_after (was_open prior) (quiet_events o prior now)
  unfolding quiet_events resolved_event
  quiet-open none w = refl
  quiet-open (some p) w = ground (arith, w.opened)

  active_rule-open :
      (prior : Option RuleState)
      → PriorFormed prior
      → (active_rule o prior policy now).0.notified
        ≡ open_after (was_open prior) (active_rule o prior policy now).1
  unfolding active_rule
  active_rule-open none w = rising-open none refl
  active_rule-open (some p) w = elim (Bool-cases p.active) [
    | inl e ↦ rw e (standing-open p)
    | inr e ↦ rw e (rising-open (some p) (ground (arith, w.opened)))
  ]

  -- The state is notified after a step exactly if an incident is open after the events of the step.
  pub advance_rule-open :
      (prior : Option RuleState)
      → PriorFormed prior
      → (advance_rule o prior policy now).0.notified
        ≡ open_after (was_open prior) (advance_rule o prior policy now).1
  unfolding advance_rule
  advance_rule-open prior w =
      elim (Bool-cases (should_fire o.level (streak_after o.level prior) policy)) [
        | inl e ↦ rw e (active_rule-open prior w)
        | inr e ↦ rw e (quiet-open prior w)
      ]
