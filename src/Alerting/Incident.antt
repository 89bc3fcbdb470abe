-- ===== src/Alerting/Incident.antt =====
-- A condition of evaluate.ts over a sequence of evaluations: when it notifies and when it resolves.
use void.Base.{
  ℕ, suc, ◌+◌, ◌≤◌, ◌≡◌, subst, refl, ap, ◌∙◌, sym, Bool, true, false, ◌&&◌, ◌||◌, Option, none,
  some, List, [], ◌∷◌, ◌++◌, ltb, leb, max, arith, if◌then◌else◌, length, map, inl, inr, Bool-cases,
  All, length-append,
}
use void.Alerting.{
  is_bad, advance_rule, active_rule, standing, rising, notify, quiet_events, escalated, due,
  should_fire, streak_after, since_after, at_floor, prior_streak, quiet,
}
use void.Signals.{
  HealthLevel, AlertEvent, AlertState, AlertPolicy, AlertSeverity, RuleState, Observation, firing,
  resolved, healthy, degraded, down, critical, warning, firing_event, resolved_event, severity_rank,
  severity_for_level,
}
use void.Alerting.Rule.{
  PriorFormed, open_after, was_open, advance_rule-WellFormed, advance_rule-open,
}

-- An observation, and the time of the evaluation that makes it.
abbrev pub Round : Type 0
Round = Observation × ℕ

-- The rounds of one condition: the state that the last one leaves, and the events of them all.
unfoldable pub run_rule :
    AlertPolicy → List Round → Option RuleState → Option RuleState × List AlertEvent
run_rule policy [] prior = (prior, [])
run_rule policy ((o, now) ∷ rounds) prior =
    let step = advance_rule o prior policy now in
    let rest = run_rule policy rounds (some step.0) in (rest.0, step.1 ++ rest.1)

open_after-append :
    (b : Bool) (es fs : List AlertEvent) → open_after b (es ++ fs) ≡ open_after (open_after b es) fs
open_after-append b [] fs = refl
open_after-append b (e ∷ es) fs = open_after-append _ es fs

run_rule-open_from :
    (policy : AlertPolicy) (rounds : List Round) (prior : Option RuleState)
    → PriorFormed prior
    → let run = run_rule policy rounds prior in was_open run.0 ≡ open_after (was_open prior) run.1
unfolding run_rule
run_rule-open_from policy [] prior w = refl
run_rule-open_from policy ((o, now) ∷ rounds) prior w =
    let step = advance_rule o prior policy now in
    let rest = run_rule policy rounds (some step.0) in
    run_rule-open_from policy rounds (some step.0) (advance_rule-WellFormed o policy now prior w)
    ∙ ap (λ b. open_after b rest.1) (advance_rule-open o policy now prior w)
    ∙ sym (open_after-append (was_open prior) step.1 rest.1)

-- After any rounds of a new condition, its state is notified exactly if the last event that was
-- pushed is a firing one.
pub run_rule-open :
    (policy : AlertPolicy) (rounds : List Round)
    → let run = run_rule policy rounds none in was_open run.0 ≡ open_after false run.1
run_rule-open policy rounds = run_rule-open_from policy rounds none tt

abbrev was_active : Option RuleState → Bool
was_active none = false
was_active (some p) = p.active

abbrev was_severity : Option RuleState → Option AlertSeverity
was_severity none = none
was_severity (some p) = p.notified_severity

if-true {ℓ} : {A : Type ℓ} {b : Bool} (x y : A) → b ≡ true → (if b then x else y) ≡ x
if-true x y e = rw e refl

if-false {ℓ} : {A : Type ℓ} {b : Bool} (x y : A) → b ≡ false → (if b then x else y) ≡ y
if-false x y e = rw e refl

ltb_irrefl : (n : ℕ) → ltb n n ≡ false
ltb_irrefl n = ground arith

module _ (policy : AlertPolicy) (level : HealthLevel) (once : policy.renotify_ms ≡ 0)
    (bad : is_bad level ≡ true) (loud : at_floor level policy ≡ true) where
  -- Rounds that see the level.
  abbrev Sees : Round → Type 0
  Sees r = r.0.level ≡ level

  -- The streak has reached the hysteresis.
  reached : ℕ → Bool
  reached n = leb (max 1 policy.hysteresis) n

  reached-suc : (n : ℕ) → reached n ≡ true → reached (suc n) ≡ true
  unfolding reached
  reached-suc n e = ground arith

  -- What is known of the state after `n` rounds that all see the level.
  record Steady (n : ℕ) (prior : Option RuleState) : Type 0 where
    streak : prior_streak prior ≡ n
    active : was_active prior ≡ reached n
    notified : was_open prior ≡ reached n
    severity : reached n ≡ true → was_severity prior ≡ some (severity_for_level level)

  -- The number of events that the round after `n` rounds pushes.
  abbrev pushed : ℕ → ℕ
  pushed n = if reached n then 0 else if reached (suc n) then 1 else 0

  not_reached : (n : ℕ) → reached (suc n) ≡ false → reached n ≡ false
  not_reached n e = elim (Bool-cases (reached n)) [
    | inl t ↦ absurd (ground (arith, reached-suc n t, e))
    | inr t ↦ t
  ]

  module _ (o : Observation) (now n : ℕ) (s : o.level ≡ level) where
    -- A round that ends in the state and pushes as many events as it should.
    abbrev Good : RuleState × List AlertEvent → Type 0
    Good step = Steady (suc n) (some step.0) × (length step.1 ≡ pushed n)

    fires :
        (prior : Option RuleState)
        → Steady n prior
        → should_fire o.level (streak_after o.level prior) policy ≡ reached (suc n)
    unfolding should_fire streak_after reached
    fires prior h = rw (s, bad, h.streak) refl

    quiet_events-none :
        (prior : Option RuleState)
        → was_active prior ≡ false
        → length (quiet_events o prior now) ≡ 0
    unfolding quiet_events
    quiet_events-none none e = refl
    quiet_events-none (some p) e = rw e refl

    quiet-Good :
        (prior : Option RuleState)
        → Steady n prior
        → reached (suc n) ≡ false
        → Good (
          quiet o.level (since_after o prior) (streak_after o.level prior),
          quiet_events o prior now,
        )
    unfolding quiet_events streak_after
    quiet-Good prior h e =
        let d = not_reached n e in
        (
          record {
            streak = rw (s, bad, h.streak) refl;
            active = sym e;
            notified = sym e;
            severity = λ x. ground (arith, x, e);
          },
          quiet_events-none prior (h.active ∙ d) ∙ rw (d, e) refl,
        )

    notify-Good :
        (prior : Option RuleState)
        → Steady n prior
        → reached n ≡ false
        → reached (suc n) ≡ true
        → Good (rising o prior policy now)
    unfolding rising notify streak_after
    notify-Good prior h d e =
        rw (s, loud)
          (
            record {
              streak = rw (bad, h.streak) refl;
              active = sym e;
              notified = sym e;
              severity = λ x. refl;
            },
            rw (d, e) refl,
          )

    escalated-never :
        (l : HealthLevel) (p : RuleState)
        → l ≡ level
        → p.notified_severity ≡ some (severity_for_level level)
        → escalated l p ≡ false
    unfolding escalated
    escalated-never l p q e =
        ground (arith, q, e, ltb_irrefl (severity_rank (severity_for_level level)))

    due-never : (p : RuleState) → p.notified ≡ true → due p policy now ≡ false
    unfolding due
    due-never p e = rw (e, once) refl

    not_again :
        (p : RuleState)
        → Steady n (some p)
        → reached n ≡ true
        → (at_floor o.level policy && (escalated o.level p || due p policy now)) ≡ false
    not_again p h e =
        rw (escalated-never o.level p s (h.severity e), due-never p (h.notified ∙ e)) (ground arith)

    standing-Good :
        (p : RuleState) → Steady n (some p) → reached n ≡ true → Good (standing o p policy now)
    unfolding standing streak_after
    standing-Good p h e = rw (not_again p h e) (
      record {
        streak = rw (s, bad, h.streak) refl;
        active = sym (reached-suc n e);
        notified = h.notified ∙ e ∙ sym (reached-suc n e);
        severity = λ x. h.severity e;
      },
      rw e refl,
    )

    active_rule-Good :
        (prior : Option RuleState)
        → Steady n prior
        → reached (suc n) ≡ true
        → Good (active_rule o prior policy now)
    unfolding active_rule
    active_rule-Good none h e = notify-Good none h (sym h.active) e
    active_rule-Good (some p) h e = elim (Bool-cases (reached n)) [
      | inl t ↦ subst Good (sym (if-true _ _ (h.active ∙ t))) (standing-Good p h t)
      | inr t ↦ subst Good (sym (if-false _ _ (h.active ∙ t))) (notify-Good (some p) h t e)
    ]

    step-Good : (prior : Option RuleState) → Steady n prior → Good (advance_rule o prior policy now)
    unfolding advance_rule active_rule
    step-Good prior h = elim (Bool-cases (reached (suc n))) [
      | inr e ↦ subst Good (sym (if-false _ _ (fires prior h ∙ e))) (quiet-Good prior h e)
      | inl e ↦ subst Good (sym (if-true _ _ (fires prior h ∙ e))) (active_rule-Good prior h e)
    ]

  -- The number of firing events in `k` rounds after `n`.
  abbrev total : ℕ → ℕ → ℕ
  total n k = if reached n then 0 else if reached (n + k) then 1 else 0

  total-suc : (n k : ℕ) → pushed n + total (suc n) k ≡ total n (suc k)
  unfolding reached
  total-suc n k = ground arith

  total-zero : (n : ℕ) → 0 ≡ total n 0
  unfolding reached
  total-zero n = ground arith

  run_rule-Steady :
      (rounds : List Round) (n : ℕ) (prior : Option RuleState)
      → All Sees rounds
      → Steady n prior
      → length (run_rule policy rounds prior).1 ≡ total n (length rounds)
  unfolding run_rule
  run_rule-Steady [] n prior a h = total-zero n
  run_rule-Steady ((o, now) ∷ rounds) n prior a h =
      let good = step-Good o now n a.0 prior h in
      length-append (advance_rule o prior policy now).1 _
      ∙ rw
          (
            good.1,
            run_rule-Steady rounds (suc n) (some (advance_rule o prior policy now).0) a.1 good.0,
          )
          (total-suc n (length rounds))

  new-Steady : Steady 0 none
  unfolding reached
  new-Steady = record {
    streak = refl;
    active = ground arith;
    notified = ground arith;
    severity = λ e. ground (arith, e);
  }

  -- Without re-notification, rounds of a new condition that all see one bad level that reaches the
  -- floor push one event in all if they are as many as the hysteresis, and at least one, and else none.
  pub run_rule-once :
      (rounds : List Round)
      → All Sees rounds
      → length (run_rule policy rounds none).1
        ≡ (if leb (max 1 policy.hysteresis) (length rounds) then 1 else 0)
  unfolding reached
  run_rule-once rounds a = run_rule-Steady rounds 0 none a new-Steady ∙ ground arith

abbrev pub state_severity : AlertEvent → AlertState × AlertSeverity
state_severity e = (e.state, e.severity)

-- With a floor of critical and no hysteresis, a new condition that is seen down, then degraded, then
-- healthy pushes a critical firing event and a resolved event of severity warning, below the floor.
pub run_rule-resolves_below :
    (policy : AlertPolicy) (a b c : Observation) (t u v : ℕ)
    → policy.min_severity ≡ critical
    → policy.hysteresis ≤ 1
    → a.level ≡ down
    → b.level ≡ degraded
    → c.level ≡ healthy
    → map state_severity (run_rule policy ((a, t) ∷ (b, u) ∷ (c, v) ∷ []) none).1
      ≡ (firing, critical) ∷ (resolved, warning) ∷ []
unfolding run_rule advance_rule should_fire streak_after active_rule rising standing notify
    quiet_events firing_event resolved_event escalated due
run_rule-resolves_below policy a b c t u v m h d e f = rw (d, e, f, m) (ground (arith, h))
