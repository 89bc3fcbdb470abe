-- ===== src/Alerting/Evaluation.antt =====
-- One evaluation of all conditions: what evaluateHealthAlerts carries forward for each of them.
use void.Base.{
  ℕ, ◌≡◌, ◌≢◌, subst, refl, ap, ◌∙◌, sym, true, false, ◌||◌, not, none, some, List, [], ◌∷◌, ◌++◌,
  arith, inl, inr, Bool-cases,
}
use void.Signals.{
  AlertEvent, AlertPolicy, RuleState, Rules, Observation, HealthSnapshot, AlertEvaluation,
  resolved_event,
}
use void.Alerting.{
  advance_rule, get_rule, set_rule, observe_all, resolve_gone, was_seen, gone, observations_of,
  evaluate_health_alerts,
}
use void.Alerting.Rule.{PriorFormed, open_after, was_open, advance_rule-open}
use void.Text.{Text, text_eq}
use void.Alerting.Events.{
  events_of, events_of-append, events_of-own, events_of-other, advance_rule-OfId, get_rule-set_rule,
  get_rule-set_other, or_false_left, or_false_right, or_true_right, append_nil,
}
use void.Text.Equality.{text_eq-eq, text_eq_refl}

-- The ids of the observations are apart.
abbrev pub Apart : List Observation → Type 0
Apart [] = Unit
Apart (o ∷ os) = (was_seen o.id os ≡ false) × Apart os

module _ (previous : Rules) (policy : AlertPolicy) (now : ℕ) (id : Text) where
  abbrev after : List Observation → Rules → List AlertEvent → AlertEvaluation
  after os rules events = observe_all os previous policy now rules events

  abbrev step_of : Observation → RuleState × List AlertEvent
  step_of o = advance_rule o (get_rule o.id previous) policy now

  observe-unseen :
      (os : List Observation) (rules : Rules) (events : List AlertEvent)
      → was_seen id os ≡ false
      → (get_rule id (after os rules events).next ≡ get_rule id rules)
        × (events_of id (after os rules events).events ≡ events_of id events)
  unfolding observe_all was_seen
  observe-unseen [] rules events n = (refl, refl)
  observe-unseen (o ∷ os) rules events n =
      let other : text_eq o.id id ≡ false = or_false_left (text_eq o.id id) (was_seen id os) n in
      let step = step_of o in
      let rest =
        observe-unseen os (set_rule o.id step.0 rules) (events ++ step.1)
          (or_false_right (text_eq o.id id) (was_seen id os) n) in
      (
        rest.0 ∙ get_rule-set_other id o.id step.0 rules other,
        rest.1
            ∙ events_of-append id events step.1
            ∙ ap (λ es. events_of id events ++ es)
                (events_of-other id o.id step.1
                  (advance_rule-OfId o policy now (get_rule o.id previous)) other)
            ∙ append_nil (events_of id events),
      )

  -- After an evaluation the rule is notified exactly if an incident is open after its events.
  abbrev Carried : AlertEvaluation → Type 0
  Carried e =
      was_open (get_rule id e.next)
      ≡ open_after (was_open (get_rule id previous)) (events_of id e.events)

  observe-here :
      (o : Observation) (os : List Observation) (rules : Rules) (events : List AlertEvent)
      → PriorFormed (get_rule id previous)
      → o.id ≡ id
      → was_seen id os ≡ false
      → events_of id events ≡ []
      → Carried (after (o ∷ os) rules events)
  unfolding observe_all
  observe-here o os rules events w same n none_yet =
      let step = step_of o in
      let own : text_eq o.id id ≡ true = rw same (text_eq_refl id) in
      let rest = observe-unseen os (set_rule o.id step.0 rules) (events ++ step.1) n in
      let mine : events_of id (events ++ step.1) ≡ step.1 =
        events_of-append id events step.1
        ∙ ap (λ es. es ++ events_of id step.1) none_yet
        ∙ events_of-own id o.id step.1 (advance_rule-OfId o policy now (get_rule o.id previous))
            own in
      let prior : get_rule o.id previous ≡ get_rule id previous =
        ap (λ k. get_rule k previous) same in
      let kept : get_rule id (set_rule o.id step.0 rules) ≡ some step.0 =
        ap (λ k. get_rule k (set_rule o.id step.0 rules)) (sym same)
        ∙ get_rule-set_rule o.id step.0 rules in
      ap was_open (rest.0 ∙ kept)
      ∙ advance_rule-open o policy now (get_rule o.id previous) (subst PriorFormed (sym prior) w)
      ∙ ap (λ p. open_after (was_open p) step.1) prior
      ∙ ap (open_after (was_open (get_rule id previous))) (sym (rest.1 ∙ mine))

  observe-seen :
      (os : List Observation) (rules : Rules) (events : List AlertEvent)
      → PriorFormed (get_rule id previous)
      → Apart os
      → was_seen id os ≡ true
      → events_of id events ≡ []
      → Carried (after os rules events)
  unfolding was_seen observe_all
  observe-seen [] rules events w a s e = absurd (ground arith)
  observe-seen (o ∷ os) rules events w a s e = elim (Bool-cases (text_eq o.id id)) [
    | inl t ↦
        let same = text_eq-eq o.id id t in
        observe-here o os rules events w same (ap (λ k. was_seen k os) (sym same) ∙ a.0) e
    | inr t ↦
        let step = step_of o in
        observe-seen os (set_rule o.id step.0 rules) (events ++ step.1) w a.1
          (or_true_right (text_eq o.id id) (was_seen id os) s t)
          (events_of-append id events step.1
            ∙ ap (λ es. es ++ events_of id step.1) e
            ∙ events_of-other id o.id step.1
                (advance_rule-OfId o policy now (get_rule o.id previous)) t)
  ]

-- The ids of the rules are apart.
abbrev pub KeysApart : Rules → Type 0
KeysApart [] = Unit
KeysApart ((j, r) ∷ rs) = (get_rule j rs ≡ none) × KeysApart rs

some-none : {p : RuleState} → some p ≢ none
some-none e = cc

module _ (os : List Observation) (now : ℕ) (id : Text) where
  resolve_gone-seen :
      (rs : Rules) → was_seen id os ≡ true → events_of id (resolve_gone os now rs) ≡ []
  unfolding resolve_gone resolved_event gone
  resolve_gone-seen [] s = refl
  resolve_gone-seen ((j, p) ∷ rs) s = elim (Bool-cases (was_seen j os || not p.notified)) [
    | inl t ↦ rw t (resolve_gone-seen rs s)
    | inr t ↦
        rw (t, seen_other j (or_false_left (was_seen j os) (not p.notified) t) s)
          (resolve_gone-seen rs s)
  ]
    where
      seen_other : (j : Text) → was_seen j os ≡ false → was_seen id os ≡ true → text_eq j id ≡ false
      seen_other j n s = elim (Bool-cases (text_eq j id)) [
        | inl t ↦
            let e : was_seen j os ≡ true = ap (λ k. was_seen k os) (text_eq-eq j id t) ∙ s in
            absurd (ground (arith, e, n))
        | inr t ↦ t
      ]

  resolve_gone-absent :
      (rs : Rules) → get_rule id rs ≡ none → events_of id (resolve_gone os now rs) ≡ []
  unfolding resolve_gone resolved_event gone get_rule
  resolve_gone-absent [] n = refl
  resolve_gone-absent ((j, p) ∷ rs) n = elim (Bool-cases (text_eq j id)) [
    | inl t ↦ absurd (some-none (rw t at n))
    | inr t ↦
        let rest = resolve_gone-absent rs (rw t at n) in
        elim (Bool-cases (was_seen j os || not p.notified)) [
          | inl u ↦ rw u rest
          | inr u ↦ rw (u, t) rest
        ]
  ]

  resolve_gone-unseen :
      (rs : Rules)
      → was_seen id os ≡ false
      → KeysApart rs
      → false ≡ open_after (was_open (get_rule id rs)) (events_of id (resolve_gone os now rs))
  unfolding resolve_gone resolved_event gone get_rule
  resolve_gone-unseen [] n a = refl
  resolve_gone-unseen ((j, p) ∷ rs) n a = elim (Bool-cases (text_eq j id)) [
    | inl t ↦
        let same = text_eq-eq j id t in
        let m : was_seen j os ≡ false = ap (λ k. was_seen k os) same ∙ n in
        let rest = resolve_gone-absent rs (ap (λ k. get_rule k rs) (sym same) ∙ a.0) in
        elim (Bool-cases p.notified) [
          | inl e ↦ rw (t, m, e, t, rest) refl
          | inr e ↦ rw (t, m, e, rest) refl
        ]
    | inr t ↦ elim (Bool-cases (was_seen j os || not p.notified)) [
      | inl u ↦ rw (t, u) (resolve_gone-unseen rs n a.1)
      | inr u ↦ rw (t, u, t) (resolve_gone-unseen rs n a.1)
    ]
  ]

-- After an evaluation of conditions with distinct ids, from rules that have each id once, a condition
-- whose carried rule is well formed has a notified rule exactly if an incident is open after the
-- condition's events: a condition that is no longer reported has been resolved if it was notified.
pub evaluate_health_alerts-open :
    (snapshot : HealthSnapshot) (previous : Rules) (policy : AlertPolicy) (id : Text)
    → Apart (observations_of snapshot)
    → KeysApart previous
    → PriorFormed (get_rule id previous)
    → let result = evaluate_health_alerts snapshot previous policy in
      was_open (get_rule id result.next)
      ≡ open_after (was_open (get_rule id previous)) (events_of id result.events)
unfolding evaluate_health_alerts
evaluate_health_alerts-open snapshot previous policy id a k w =
    let os = observations_of snapshot in
    let seen = observe_all os previous policy snapshot.at [] [] in
    let split = events_of-append id seen.events (resolve_gone os snapshot.at previous) in
    let prior = was_open (get_rule id previous) in
    elim (Bool-cases (was_seen id os)) [
      | inl s ↦
          observe-seen previous policy snapshot.at id os [] [] w a s refl
          ∙ ap (open_after prior) (
              sym (
                split
                ∙ ap (λ es. events_of id seen.events ++ es)
                    (resolve_gone-seen os snapshot.at id previous s)
                ∙ append_nil (events_of id seen.events)))
      | inr s ↦
          let none_here = observe-unseen previous policy snapshot.at id os [] [] s in
          ap was_open none_here.0
          ∙ resolve_gone-unseen os snapshot.at id previous s k
          ∙ ap (open_after prior) (
              sym (
                split
                ∙ ap (λ es. es ++ events_of id (resolve_gone os snapshot.at previous)) none_here.1))
    ]
