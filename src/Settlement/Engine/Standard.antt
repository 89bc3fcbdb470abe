-- ===== src/Settlement/Engine/Standard.antt =====
-- The engine with the standard rule.
use void.Base.{
  ℕ, ◌≡◌, ◌≢◌, refl, ap, ◌∙◌, sym, subst, Bool, true, false, ◌||◌, Option, none, some, [], ◌∷◌,
  ◌++◌, any, arith, In, here, there, Result, ok, throws, ◌>>=◌, Bool-cases, Option-cases, inl, inr,
  ok-injective, ok-throws,
}
use void.Settlement.Engine.{
  SettlementRule, Store, already_registered, same_name, register, is_active, rule_for, std,
  standard_rule, new_engine, insert_rule, sort_rules, candidates, engine_settle, settle_by,
  verdict_of, no_rule, by_rule, not_by_rule, is_none, first_rule, AlreadyRegistered, SettleVerdict,
}
use void.Settlement.Engine.Rules.{Latest, rule_for-Latest}
use void.Settlement.Settle.{settle_selection}
use void.Domain.Components.{ComponentError}
use void.Settlement.Selection.{SettleableSelection, MatchState, SettleCoreResult, settled, unknown}
use void.Text.{Text, codes, text_eq}

none-Latest :
    (provider : Text) (at : ℕ) (rules : Store) (o : Option SettlementRule)
    → Latest provider at rules o
    → ((r : SettlementRule) → In r rules → is_active provider at r ≡ false)
    → is_none o ≡ true
none-Latest provider at rules none h f = refl
none-Latest provider at rules (some q) h f = absurd (ground (arith, f q h.0, h.1))

abbrev pub store_or_empty : Option Store → Store
store_or_empty none = []
store_or_empty (some rules) = rules

-- A verdict in the name of the standard rule.
abbrev pub by_standard : SettleCoreResult → SettleVerdict
by_standard (settled assessment) =
    by_rule
      (record {
        provider = codes "std";
        rule_version = codes "1";
        source_reference = some (codes "ARBITRAGE_ENGINE_SPEC §9–§16");
      })
      assessment
by_standard (unknown reason) =
    not_by_rule
      (record { provider = codes "std"; rule_version = codes "1"; source_reference = none }) reason

-- What an engine with the standard rule, made at a time from a store, settles: as the store for other
-- providers; for `std` at that time by some rule; where the store has no active rule of `std`, as
-- `settleSelection` at every time at which it has none; where it has one, the store is as it was.
pub record Seeded (before : Store) (now : ℕ) (engine : Store) : Type 0 where
  pub others :
      (provider : Text) (s : SettleableSelection) (m : MatchState) (at : ℕ)
      → text_eq std provider ≡ false
      → engine_settle provider s m at engine ≡ engine_settle provider s m at before
  pub served :
      (s : SettleableSelection) (m : MatchState)
      → engine_settle std s m now engine ≢ ok (no_rule std)
  pub filled :
      (s : SettleableSelection) (m : MatchState) (at : ℕ)
      → ((q : SettlementRule) → In q before → is_active std now q ≡ false)
      → ((q : SettlementRule) → In q before → is_active std at q ≡ false)
      → engine_settle std s m at engine ≡ (settle_selection s m >>= λ core. ok (by_standard core))
  pub kept : (q : SettlementRule) → In q before → is_active std now q ≡ true → engine ≡ before

candidates-snoc :
    (provider : Text) (at : ℕ) (r : SettlementRule) (rules : Store)
    → candidates provider at (rules ++ r ∷ [])
      ≡ candidates provider at rules ++ candidates provider at (r ∷ [])
unfolding candidates
candidates-snoc provider at r [] = refl
candidates-snoc provider at r (q ∷ qs) = elim (Bool-cases (is_active provider at q)) [
  | inl t ↦ rw t (ap (λ rs. q ∷ rs) (candidates-snoc provider at r qs))
  | inr t ↦ rw t (candidates-snoc provider at r qs)
]

append_nil : (rules : Store) → rules ++ [] ≡ rules
append_nil [] = refl
append_nil (r ∷ rs) = ap (λ qs. r ∷ qs) (append_nil rs)

none_active :
    (provider : Text) (at : ℕ) (rules : Store)
    → ((q : SettlementRule) → In q rules → is_active provider at q ≡ false)
    → candidates provider at rules ≡ []
unfolding candidates
none_active provider at [] f = refl
none_active provider at (q ∷ qs) f =
    rw (f q here) (none_active provider at qs (λ r i. f r (there i)))

verdict-rule :
    (rule : SettlementRule) (r : Result ComponentError SettleCoreResult) (provider : Text)
    → (r >>= λ core. ok (verdict_of rule core)) ≢ ok (no_rule provider)
unfolding verdict_of
verdict-rule rule (throws x) provider = λ e. cc
verdict-rule rule (ok (settled x)) provider = λ e. cc
verdict-rule rule (ok (unknown x)) provider = λ e. cc

verdict-standard :
    (r : Result ComponentError SettleCoreResult)
    → (r >>= λ core. ok (verdict_of standard_rule core)) ≡ (r >>= λ core. ok (by_standard core))
unfolding verdict_of
verdict-standard (throws x) = refl
verdict-standard (ok (settled x)) = refl
verdict-standard (ok (unknown x)) = refl

standard-candidate : (at : ℕ) → candidates std at (standard_rule ∷ []) ≡ standard_rule ∷ []
unfolding candidates is_active
standard-candidate at = refl

other-candidate :
    (provider : Text) (at : ℕ)
    → text_eq std provider ≡ false
    → candidates provider at (standard_rule ∷ []) ≡ []
unfolding candidates is_active
other-candidate provider at n = rw n refl

standard-found : first_rule (sort_rules (standard_rule ∷ [])) ≡ some standard_rule
unfolding sort_rules insert_rule
standard-found = refl

-- The store has an active rule of `std`, and stays.
kept-Seeded :
    (rules : Store) (now : ℕ) (q : SettlementRule)
    → rule_for std now rules ≡ some q
    → Seeded rules now rules
unfolding engine_settle settle_by
kept-Seeded rules now q e =
    let found : Latest std now rules (some q) =
      subst (Latest std now rules) e (rule_for-Latest std now rules) in
    record {
      others = λ p s m at n. refl;
      served = λ s m. rw e (verdict-rule q (q.settle s m) std);
      filled = λ s m at f g. absurd (ground (arith, f q found.0, found.1));
      kept = λ r i a. refl;
    }

-- With no other active rule the added one is found.
added_rule :
    (rules : Store) (at : ℕ)
    → ((q : SettlementRule) → In q rules → is_active std at q ≡ false)
    → rule_for std at (rules ++ standard_rule ∷ []) ≡ some standard_rule
unfolding rule_for
added_rule rules at idle =
    ap (λ rs. first_rule (sort_rules rs))
      (candidates-snoc std at standard_rule rules
        ∙ ap (λ rs. rs ++ candidates std at (standard_rule ∷ [])) (none_active std at rules idle)
        ∙ standard-candidate at)
    ∙ standard-found

-- The store has none, and the standard rule is added.
added-Seeded :
    (rules : Store) (now : ℕ)
    → rule_for std now rules ≡ none
    → Seeded rules now (rules ++ standard_rule ∷ [])
unfolding engine_settle settle_by rule_for
added-Seeded rules now e =
    let idle : (q : SettlementRule) → In q rules → is_active std now q ≡ false =
      subst (Latest std now rules) e (rule_for-Latest std now rules) in
    let found = added_rule rules now idle in
    record {
      others = λ p s m at n.
          ap (λ rs. settle_by p (first_rule (sort_rules rs)) s m)
            (candidates-snoc p at standard_rule rules
              ∙ ap (λ rs. candidates p at rules ++ rs) (other-candidate p at n)
              ∙ append_nil (candidates p at rules));
      served = λ s m.
          subst (λ o. settle_by std o s m ≢ ok (no_rule std)) (sym found)
            (verdict-rule standard_rule (settle_selection s m) std);
      filled = λ s m at f g.
          ap (λ o. settle_by std o s m) (added_rule rules at g)
          ∙ verdict-standard (settle_selection s m);
      kept = λ q i a. absurd (ground (arith, idle q i, a));
    }

register-added :
    (rules engine : Store)
    → register standard_rule rules ≡ ok engine
    → engine ≡ rules ++ standard_rule ∷ []
unfolding register
register-added rules engine e = elim (Bool-cases (any (λ r. same_name r standard_rule) rules)) [
  | inl t ↦ absurd (ok-throws (rw t at e))
  | inr t ↦ sym (ok-injective (rw t at e))
]

from_store-Seeded :
    (rules : Store) (now : ℕ) (engine : Store)
    → new_engine (some rules) true now ≡ ok engine
    → Seeded rules now engine
unfolding new_engine
from_store-Seeded rules now engine e = elim (Option-cases (rule_for std now rules)) [
  | inl n ↦
      subst (Seeded rules now) (sym (register-added rules engine (rw n at e)))
        (added-Seeded rules now n)
  | inr (q, f) ↦
      let same : ◌≡◌ {A = Result AlreadyRegistered Store} (ok rules) (ok engine) = rw f at e in
      subst (Seeded rules now) (ok-injective same) (kept-Seeded rules now q f)
]

-- No store is as an empty one.
empty_store :
    (now : ℕ) (engine : Store)
    → new_engine none true now ≡ ok engine
    → new_engine (some []) true now ≡ ok engine
unfolding new_engine rule_for candidates sort_rules
empty_store now engine e = e

-- An engine that was made with the standard rule, from a store or from none, settles for every other
-- provider as the store does, at every time. For `std` it has a rule at the time of its making. If
-- the store had no rule of `std` active then, the engine settles for `std` as `settleSelection`, in the
-- name of the standard rule, at every time at which the store has none; else it is the store.
pub new_engine-Seeded :
    (store : Option Store) (now : ℕ) (engine : Store)
    → new_engine store true now ≡ ok engine
    → Seeded (store_or_empty store) now engine
new_engine-Seeded none now engine e = from_store-Seeded [] now engine (empty_store now engine e)
new_engine-Seeded (some rules) now engine e = from_store-Seeded rules now engine e

In-any :
    (rule : SettlementRule) (rules : Store) {r : SettlementRule}
    → In r rules
    → same_name r rule ≡ true
    → any (λ q. same_name q rule) rules ≡ true
In-any rule [] i e = elim i [ ]
In-any rule (r ∷ rs) here e = rw e refl
In-any rule (q ∷ qs) (there i) e = or_true_right (same_name q rule) _ (In-any rule qs i e)
  where
    or_true_right : (a b : Bool) → b ≡ true → (a || b) ≡ true
    or_true_right a b e = ground arith

-- With a store that has a rule named as the standard one, and no rule of `std` that is active now, the
-- constructor of the engine throws.
pub new_engine-throws :
    (rules : Store) (now : ℕ) (r : SettlementRule)
    → In r rules
    → same_name r standard_rule ≡ true
    → ((q : SettlementRule) → In q rules → is_active std now q ≡ false)
    → new_engine (some rules) true now ≡ throws (already_registered std (codes "1"))
unfolding new_engine register
new_engine-throws rules now r i e f =
    rw
      (
        none-Latest std now rules (rule_for std now rules) (rule_for-Latest std now rules) f,
        In-any standard_rule rules i e,
      )
      refl
