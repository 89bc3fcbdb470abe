-- ===== src/Alerting/Runs.antt =====
-- Evaluations of evaluate.ts, each with the rules that the one before returned.
use void.Base.{
  ℕ, Bool, ◌≡◌, inl, inr, refl, ap, ◌∙◌, sym, subst, false, none, List, [], ◌∷◌, ◌++◌, All,
  Bool-cases,
}
use void.Signals.{AlertEvent, AlertPolicy, RuleState, Rules, Observation, HealthSnapshot}
use void.Alerting.{
  advance_rule, get_rule, set_rule, observe_all, observations_of, evaluate_health_alerts,
}
use void.Alerting.Rule.{PriorFormed, WellFormed, open_after, was_open, advance_rule-WellFormed}
use void.Alerting.Evaluation.{Apart, KeysApart, evaluate_health_alerts-open}
use void.Alerting.Events.{events_of, events_of-append, get_rule-set_rule, get_rule-set_other}
use void.Text.{Text, text_eq}
use void.Text.Equality.{text_eq-eq, text_eq_sym}

-- The rules have each key once, and are well formed.
abbrev pub RulesFormed : Rules → Type 0
RulesFormed rules = KeysApart rules × ((id : Text) → PriorFormed (get_rule id rules))

set_rule-none :
    (j id : Text) (r : RuleState) (rules : Rules)
    → text_eq id j ≡ false
    → get_rule j rules ≡ none
    → get_rule j (set_rule id r rules) ≡ none
set_rule-none j id r rules n h = get_rule-set_other j id r rules n ∙ h

set_rule-KeysApart :
    (id : Text) (r : RuleState) (rules : Rules) → KeysApart rules → KeysApart (set_rule id r rules)
unfolding set_rule get_rule
set_rule-KeysApart id r [] h = (refl, tt)
set_rule-KeysApart id r ((j, q) ∷ rs) h = elim (Bool-cases (text_eq j id)) [
  | inl t ↦ rw t h
  | inr t ↦
      rw t (set_rule-none j id r rs (text_eq_sym id j ∙ t) h.0, set_rule-KeysApart id r rs h.1)
]

set_rule-RulesFormed :
    (id : Text) (r : RuleState) (rules : Rules)
    → WellFormed r
    → RulesFormed rules
    → RulesFormed (set_rule id r rules)
set_rule-RulesFormed id r rules w h = (
  set_rule-KeysApart id r rules h.0,
  λ k. elim (Bool-cases (text_eq id k)) [
    | inl t ↦
        subst (λ x. PriorFormed (get_rule x (set_rule id r rules))) (text_eq-eq id k t)
          (subst PriorFormed (sym (get_rule-set_rule id r rules)) w)
    | inr t ↦ subst PriorFormed (sym (get_rule-set_other k id r rules t)) (h.1 k)
  ],
)

module _ (previous : Rules) (policy : AlertPolicy) (now : ℕ)
    (formed : (id : Text) → PriorFormed (get_rule id previous)) where
  observe_all-RulesFormed :
      (os : List Observation) (rules : Rules) (events : List AlertEvent)
      → RulesFormed rules
      → RulesFormed (observe_all os previous policy now rules events).next
  unfolding observe_all
  observe_all-RulesFormed [] rules events h = h
  observe_all-RulesFormed (o ∷ os) rules events h =
      let step = advance_rule o (get_rule o.id previous) policy now in
      observe_all-RulesFormed os (set_rule o.id step.0 rules) (events ++ step.1) (
        set_rule-RulesFormed o.id step.0 rules
          (advance_rule-WellFormed o policy now (get_rule o.id previous) (formed o.id)) h)

no_rules : RulesFormed []
unfolding get_rule
no_rules = (tt, λ id. tt)

evaluate_health_alerts-RulesFormed :
    (snapshot : HealthSnapshot) (previous : Rules) (policy : AlertPolicy)
    → RulesFormed previous
    → RulesFormed (evaluate_health_alerts snapshot previous policy).next
unfolding evaluate_health_alerts
evaluate_health_alerts-RulesFormed snapshot previous policy h =
    observe_all-RulesFormed previous policy snapshot.at h.1 (observations_of snapshot) [] []
      no_rules

-- The rules after some evaluations, and all the events.
unfoldable pub evaluate_all : AlertPolicy → List HealthSnapshot → Rules → Rules × List AlertEvent
evaluate_all policy [] rules = (rules, [])
evaluate_all policy (s ∷ ss) rules =
    let result = evaluate_health_alerts s rules policy in
    let rest = evaluate_all policy ss result.next in (rest.0, result.events ++ rest.1)

open_after-append :
    (was : Bool) (es fs : List AlertEvent)
    → open_after was (es ++ fs) ≡ open_after (open_after was es) fs
open_after-append was [] fs = refl
open_after-append was (e ∷ es) fs = open_after-append _ es fs

evaluate_from-open :
    (policy : AlertPolicy) (snapshots : List HealthSnapshot) (rules : Rules) (id : Text)
    → All (λ s. Apart (observations_of s)) snapshots
    → RulesFormed rules
    → let result = evaluate_all policy snapshots rules in
      was_open (get_rule id result.0)
      ≡ open_after (was_open (get_rule id rules)) (events_of id result.1)
unfolding evaluate_all
evaluate_from-open policy [] rules id a h = refl
evaluate_from-open policy (s ∷ ss) rules id a h =
    let result = evaluate_health_alerts s rules policy in
    let rest = evaluate_all policy ss result.next in
    let one = evaluate_health_alerts-open s rules policy id a.0 h.0 (h.1 id) in
    evaluate_from-open policy ss result.next id a.1
      (evaluate_health_alerts-RulesFormed s rules policy h)
    ∙ ap (λ was. open_after was (events_of id rest.1)) one
    ∙ sym (
        ap (open_after (was_open (get_rule id rules))) (events_of-append id result.events rest.1)
        ∙ open_after-append (was_open (get_rule id rules)) (events_of id result.events)
            (events_of id rest.1))

evaluate_from-RulesFormed :
    (policy : AlertPolicy) (snapshots : List HealthSnapshot) (rules : Rules)
    → RulesFormed rules
    → RulesFormed (evaluate_all policy snapshots rules).0
unfolding evaluate_all
evaluate_from-RulesFormed policy [] rules h = h
evaluate_from-RulesFormed policy (s ∷ ss) rules h =
    evaluate_from-RulesFormed policy ss (evaluate_health_alerts s rules policy).next
      (evaluate_health_alerts-RulesFormed s rules policy h)

-- From no rules, and after any evaluations in each of which the conditions have distinct ids, a
-- condition's rule is notified exactly if the last of all the events of the condition is a firing one;
-- and the rules that are carried have each id once, and fields that agree.
pub evaluate_all-open :
    (policy : AlertPolicy) (snapshots : List HealthSnapshot) (id : Text)
    → All (λ s. Apart (observations_of s)) snapshots
    → let result = evaluate_all policy snapshots [] in
      (was_open (get_rule id result.0) ≡ open_after false (events_of id result.1))
      × RulesFormed result.0
unfolding get_rule
evaluate_all-open policy snapshots id a = (
  evaluate_from-open policy snapshots [] id a no_rules,
  evaluate_from-RulesFormed policy snapshots [] no_rules,
)
