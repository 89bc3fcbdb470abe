-- ===== src/Alerting/Events.antt =====
-- The events of one condition among those of an evaluation, and the carried rules by their ids.
use void.Base.{
  ℕ, ◌≡◌, refl, ap, Bool, true, false, ◌&&◌, ◌||◌, Option, none, some, List, [], ◌∷◌, ◌++◌, arith,
  inl, inr, Bool-cases, All, if◌then◌else◌,
}
use void.Signals.{
  AlertEvent, AlertPolicy, RuleState, Rules, Observation, firing_event, resolved_event,
}
use void.Alerting.{
  advance_rule, active_rule, rising, standing, notify, quiet_events, get_rule, set_rule,
  should_fire, streak_after, at_floor, escalated, due,
}
use void.Text.{Text, text_eq}
use void.Text.Equality.{text_eq-eq, text_eq_refl}

-- The events of a condition.
abbrev pub events_of : Text → List AlertEvent → List AlertEvent
events_of id [] = []
events_of id (e ∷ es) = if text_eq e.id id then e ∷ events_of id es else events_of id es

pub events_of-append :
    (id : Text) (es fs : List AlertEvent)
    → events_of id (es ++ fs) ≡ events_of id es ++ events_of id fs
events_of-append id [] fs = refl
events_of-append id (e ∷ es) fs = elim (Bool-cases (text_eq e.id id)) [
  | inl t ↦ rw (t, events_of-append id es fs) refl
  | inr t ↦ rw (t, events_of-append id es fs) refl
]

abbrev pub OfId : Text → List AlertEvent → Type 0
OfId id = All λ e. e.id ≡ id

pub events_of-own :
    (id k : Text) (es : List AlertEvent) → OfId k es → text_eq k id ≡ true → events_of id es ≡ es
events_of-own id k [] h t = refl
events_of-own id k (e ∷ es) h t = rw (h.0, t, events_of-own id k es h.1 t) refl

pub events_of-other :
    (id k : Text) (es : List AlertEvent) → OfId k es → text_eq k id ≡ false → events_of id es ≡ []
events_of-other id k [] h t = refl
events_of-other id k (e ∷ es) h t = rw (h.0, t, events_of-other id k es h.1 t) refl

pub or_false_left : (a b : Bool) → (a || b) ≡ false → a ≡ false
or_false_left a b e = ground arith

pub or_false_right : (a b : Bool) → (a || b) ≡ false → b ≡ false
or_false_right a b e = ground arith

pub or_true_right : (a b : Bool) → (a || b) ≡ true → a ≡ false → b ≡ true
or_true_right a b e f = ground arith

pub append_nil : (es : List AlertEvent) → es ++ [] ≡ es
append_nil [] = refl
append_nil (e ∷ es) = ap (λ fs. e ∷ fs) (append_nil es)

module _ (o : Observation) (policy : AlertPolicy) (now : ℕ) where
  notify-OfId : (prior : Option RuleState) → OfId o.id (notify o prior now).1
  unfolding notify firing_event
  notify-OfId prior = (refl, tt)

  rising-OfId : (prior : Option RuleState) → OfId o.id (rising o prior policy now).1
  unfolding rising
  rising-OfId prior = elim (Bool-cases (at_floor o.level policy)) [
    | inl t ↦ rw t (notify-OfId prior)
    | inr t ↦ rw t tt
  ]

  standing-OfId : (p : RuleState) → OfId o.id (standing o p policy now).1
  unfolding standing
  standing-OfId p =
      elim (Bool-cases (at_floor o.level policy && (escalated o.level p || due p policy now))) [
        | inl t ↦ rw t (notify-OfId (some p))
        | inr t ↦ rw t tt
      ]

  active_rule-OfId : (prior : Option RuleState) → OfId o.id (active_rule o prior policy now).1
  unfolding active_rule
  active_rule-OfId none = rising-OfId none
  active_rule-OfId (some p) = elim (Bool-cases p.active) [
    | inl t ↦ rw t (standing-OfId p)
    | inr t ↦ rw t (rising-OfId (some p))
  ]

  quiet_events-OfId : (prior : Option RuleState) → OfId o.id (quiet_events o prior now)
  unfolding quiet_events resolved_event
  quiet_events-OfId none = tt
  quiet_events-OfId (some p) = elim (Bool-cases (p.active && p.notified)) [
    | inl t ↦ rw t (refl, tt)
    | inr t ↦ rw t tt
  ]

  pub advance_rule-OfId : (prior : Option RuleState) → OfId o.id (advance_rule o prior policy now).1
  unfolding advance_rule
  advance_rule-OfId prior =
      elim (Bool-cases (should_fire o.level (streak_after o.level prior) policy)) [
        | inl t ↦ rw t (active_rule-OfId prior)
        | inr t ↦ rw t (quiet_events-OfId prior)
      ]

pub get_rule-set_rule :
    (id : Text) (r : RuleState) (rs : Rules) → get_rule id (set_rule id r rs) ≡ some r
unfolding get_rule set_rule
get_rule-set_rule id r [] = rw (text_eq_refl id) refl
get_rule-set_rule id r ((j, q) ∷ rs) = elim (Bool-cases (text_eq j id)) [
  | inl t ↦ rw (t, t) refl
  | inr t ↦ rw (t, t) (get_rule-set_rule id r rs)
]

pub get_rule-set_other :
    (id k : Text) (r : RuleState) (rs : Rules)
    → text_eq k id ≡ false
    → get_rule id (set_rule k r rs) ≡ get_rule id rs
unfolding get_rule set_rule
get_rule-set_other id k r [] n = rw n refl
get_rule-set_other id k r ((j, q) ∷ rs) n = elim (Bool-cases (text_eq j k)) [
  | inl t ↦ let m : text_eq j id ≡ false = rw (text_eq-eq j k t) n in rw (t, m) refl
  | inr t ↦ rw (t, get_rule-set_other id k r rs n) refl
]
