-- ===== src/Settlement/Engine/Rules.antt =====
-- The rule that `ruleFor` finds, and the names that `register` keeps apart.
use void.Base.{
  ℕ, ◌≤◌, ◌≡◌, refl, ◌∙◌, sym, Bool, true, false, ◌||◌, Option, none, some, List, [], ◌∷◌, ◌++◌,
  leb, any, arith, inl, inr, Bool-cases, In, here, there, Result, ok, throws,
}
use void.Settlement.Engine.{
  SettlementRule, Store, AlreadyRegistered, same_name, register, is_active, candidates, from_of,
  insert_rule, sort_rules, first_rule, rule_for,
}
use void.Text.Equality.{text_eq_sym}
use void.Text.{Text}

-- What is found: an active registered rule with the latest start, or nothing where none is active.
abbrev pub Latest : Text → ℕ → Store → Option SettlementRule → Type 0
Latest provider at rules none = (r : SettlementRule) → In r rules → is_active provider at r ≡ false
Latest provider at rules (some q) =
    In q rules
    × (is_active provider at q ≡ true)
    × ((r : SettlementRule) → In r rules → is_active provider at r ≡ true → from_of r ≤ from_of q)

candidates-In :
    (provider : Text) (at : ℕ) (rules : Store) {r : SettlementRule}
    → In r rules
    → is_active provider at r ≡ true
    → In r (candidates provider at rules)
unfolding candidates
candidates-In provider at [] i e = elim i [ ]
candidates-In provider at (r ∷ rs) here e = rw e here
candidates-In provider at (r ∷ rs) (there i) e = elim (Bool-cases (is_active provider at r)) [
  | inl t ↦ rw t (there (candidates-In provider at rs i e))
  | inr t ↦ rw t (candidates-In provider at rs i e)
]

In-candidates :
    (provider : Text) (at : ℕ) (rules : Store) {r : SettlementRule}
    → In r (candidates provider at rules)
    → In r rules × (is_active provider at r ≡ true)
unfolding candidates
In-candidates provider at [] i = elim i [ ]
In-candidates provider at (q ∷ qs) {r} i = elim (Bool-cases (is_active provider at q)) [
  | inl t ↦ In-cons t (λ j. In-candidates provider at qs j) (rw t at i)
  | inr t ↦ let j = In-candidates provider at qs (rw t at i) in (there j.0, j.1)
]
  where
    In-cons :
        {q : SettlementRule} {qs rest : Store} {r : SettlementRule}
        → is_active provider at q ≡ true
        → (In r rest → In r qs × (is_active provider at r ≡ true))
        → In r (q ∷ rest)
        → In r (q ∷ qs) × (is_active provider at r ≡ true)
    In-cons t f here = (here, t)
    In-cons t f (there j) = let k = f j in (there k.0, k.1)

-- The first rule of a list starts no earlier than any of its rules.
abbrev Headed : Store → Type 0
Headed [] = Unit
Headed (q ∷ qs) = (r : SettlementRule) → In r (q ∷ qs) → from_of r ≤ from_of q

In-insert_rule :
    (r : SettlementRule) (rs : Store) {x : SettlementRule} → In x (insert_rule r rs) → In x (r ∷ rs)
unfolding insert_rule
In-insert_rule r [] i = i
In-insert_rule r (q ∷ qs) i = elim (Bool-cases (leb (from_of q) (from_of r))) [
  | inl t ↦ rw t at i
  | inr t ↦ swap (λ j. In-insert_rule r qs j) (rw t at i)
]
  where
    swap :
        {q : SettlementRule} {qs rest : Store} {x : SettlementRule}
        → (In x rest → In x (r ∷ qs))
        → In x (q ∷ rest)
        → In x (r ∷ q ∷ qs)
    swap f here = there here
    swap {q} {qs} f (there j) = after (f j)
      where
        after : {x : SettlementRule} → In x (r ∷ qs) → In x (r ∷ q ∷ qs)
        after here = here
        after (there k) = there (there k)

insert_rule-In :
    (r : SettlementRule) (rs : Store) {x : SettlementRule} → In x (r ∷ rs) → In x (insert_rule r rs)
unfolding insert_rule
insert_rule-In r [] i = i
insert_rule-In r (q ∷ qs) i = elim (Bool-cases (leb (from_of q) (from_of r))) [
  | inl t ↦ rw t i
  | inr t ↦ rw t (skip (λ j. insert_rule-In r qs j) i)
]
  where
    skip :
        {q : SettlementRule} {qs rest : Store} {x : SettlementRule}
        → (In x (r ∷ qs) → In x rest)
        → In x (r ∷ q ∷ qs)
        → In x (q ∷ rest)
    skip f here = there (f here)
    skip f (there here) = here
    skip f (there (there j)) = there (f (there j))

insert_rule-Headed : (r : SettlementRule) (rs : Store) → Headed rs → Headed (insert_rule r rs)
unfolding insert_rule
insert_rule-Headed r [] h = one
  where
    one : (x : SettlementRule) → In x (r ∷ []) → from_of x ≤ from_of r
    one x here = ground arith
    one x (there i) = elim i [ ]
insert_rule-Headed r (q ∷ qs) h = elim (Bool-cases (leb (from_of q) (from_of r))) [
  | inl t ↦ rw t (put_first t h)
  | inr t ↦ rw t (put_after t h)
]
  where
    put_first :
        {q : SettlementRule} {qs : Store}
        → leb (from_of q) (from_of r) ≡ true
        → Headed (q ∷ qs)
        → (x : SettlementRule) → In x (r ∷ q ∷ qs)
        → from_of x ≤ from_of r
    put_first t h x here = ground arith
    put_first t h x (there i) = ground (arith, h x i)

    put_after :
        {q : SettlementRule} {qs : Store}
        → leb (from_of q) (from_of r) ≡ false
        → Headed (q ∷ qs)
        → (x : SettlementRule) → In x (q ∷ insert_rule r qs)
        → from_of x ≤ from_of q
    put_after t h x here = ground arith
    put_after {q} {qs} t h x (there i) = old (In-insert_rule r qs i)
      where
        old : {x : SettlementRule} → In x (r ∷ qs) → from_of x ≤ from_of q
        old here = ground arith
        old {x} (there j) = h x (there j)

sort_rules-Headed : (rs : Store) → Headed (sort_rules rs)
unfolding sort_rules
sort_rules-Headed [] = tt
sort_rules-Headed (r ∷ rs) = insert_rule-Headed r (sort_rules rs) (sort_rules-Headed rs)

sort_rules-In : (rs : Store) {x : SettlementRule} → In x rs → In x (sort_rules rs)
unfolding sort_rules
sort_rules-In [] i = i
sort_rules-In (r ∷ rs) here = insert_rule-In r (sort_rules rs) here
sort_rules-In (r ∷ rs) (there i) = insert_rule-In r (sort_rules rs) (there (sort_rules-In rs i))

In-sort_rules : (rs : Store) {x : SettlementRule} → In x (sort_rules rs) → In x rs
unfolding sort_rules
In-sort_rules [] i = i
In-sort_rules (r ∷ rs) i = after (λ j. In-sort_rules rs j) (In-insert_rule r (sort_rules rs) i)
  where
    after :
        {x : SettlementRule}
        → (In x (sort_rules rs) → In x rs)
        → In x (r ∷ sort_rules rs)
        → In x (r ∷ rs)
    after f here = here
    after f (there j) = there (f j)

first_rule-Latest :
    (provider : Text) (at : ℕ) (rules sorted : Store)
    → Headed sorted
    → ((x : SettlementRule) → In x sorted → In x rules × (is_active provider at x ≡ true))
    → ((x : SettlementRule) → In x rules → is_active provider at x ≡ true → In x sorted)
    → Latest provider at rules (first_rule sorted)
first_rule-Latest provider at rules [] h f g = λ r i. elim (Bool-cases (is_active provider at r)) [
  | inl t ↦ absurd (elim (g r i t) [ ])
  | inr t ↦ t
]
first_rule-Latest provider at rules (q ∷ qs) h f g =
    ((f q here).0, (f q here).1, λ r i e. h r (g r i e))

-- `ruleFor` finds a registered rule of the provider that is active at the time and starts no earlier
-- than any other such rule, and finds nothing only if there is none.
pub rule_for-Latest :
    (provider : Text) (at : ℕ) (rules : Store)
    → Latest provider at rules (rule_for provider at rules)
unfolding rule_for
rule_for-Latest provider at rules =
    first_rule-Latest provider at rules (sort_rules (candidates provider at rules))
      (sort_rules-Headed (candidates provider at rules))
      (λ x i. In-candidates provider at rules (In-sort_rules (candidates provider at rules) i))
      (λ x i e. sort_rules-In (candidates provider at rules) (candidates-In provider at rules i e))

-- No two rules have one provider and version.
abbrev pub Named : Store → Type 0
Named [] = Unit
Named (r ∷ rs) = (any (λ q. same_name q r) rs ≡ false) × Named rs

-- What `register` does: the rule is added and the names stay apart, or its name was there.
abbrev pub Registers : SettlementRule → Store → Result AlreadyRegistered Store → Type 0
Registers rule rules (ok after) = (after ≡ rules ++ rule ∷ []) × Named after
Registers rule rules (throws e) = (r : SettlementRule) × In r rules × (same_name r rule ≡ true)

any-In :
    (rule : SettlementRule) (rules : Store)
    → any (λ r. same_name r rule) rules ≡ true
    → (r : SettlementRule) × In r rules × (same_name r rule ≡ true)
any-In rule [] e = absurd (ground arith)
any-In rule (r ∷ rs) e = elim (Bool-cases (same_name r rule)) [
  | inl t ↦ (r, here, t)
  | inr t ↦ let rest = any-In rule rs (ground (arith, e, t)) in (rest.0, there rest.1, rest.2)
]

same_name_sym : (a b : SettlementRule) → same_name a b ≡ same_name b a
same_name_sym a b =
    rw (text_eq_sym a.provider b.provider, text_eq_sym a.rule_version b.rule_version) refl

or_false_left : (a b : Bool) → (a || b) ≡ false → a ≡ false
or_false_left a b e = ground arith

or_false_right : (a b : Bool) → (a || b) ≡ false → b ≡ false
or_false_right a b e = ground arith

any-snoc {ℓ} :
    {A : Type ℓ} (p : A → Bool) (x : A) (xs : List A)
    → any p xs ≡ false
    → p x ≡ false
    → any p (xs ++ x ∷ []) ≡ false
any-snoc p x [] a b = rw b refl
any-snoc p x (y ∷ ys) a b =
    rw (or_false_left (p y) (any p ys) a) (any-snoc p x ys (or_false_right (p y) (any p ys) a) b)

Named-append :
    (rule : SettlementRule) (rules : Store)
    → Named rules
    → any (λ r. same_name r rule) rules ≡ false
    → Named (rules ++ rule ∷ [])
Named-append rule [] n e = (refl, tt)
Named-append rule (r ∷ rs) n e = (
  any-snoc (λ q. same_name q r) rule rs n.0
      (sym (same_name_sym r rule) ∙ or_false_left (same_name r rule) _ e),
  Named-append rule rs n.1 (or_false_right (same_name r rule) _ e),
)

-- With the names of the rules apart, `register` adds the rule at the end and keeps them apart, or
-- throws because there is a rule with its name.
pub register-Registers :
    (rule : SettlementRule) (rules : Store)
    → Named rules
    → Registers rule rules (register rule rules)
unfolding register
register-Registers rule rules n = elim (Bool-cases (any (λ r. same_name r rule) rules)) [
  | inl t ↦ rw t (any-In rule rules t)
  | inr t ↦ rw t (refl, Named-append rule rules n t)
]
