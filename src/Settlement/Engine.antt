-- ===== src/Settlement/Engine.antt =====
-- packages/settlement/src/engine.ts: the versioned rules and the engine.
pub mod Rules
pub mod Standard
use void.Base.{
  ℕ, suc, ◌+◌, Bool, true, false, ◌&&◌, not, Option, none, some, List, [], ◌∷◌, ◌++◌, map,
  if◌then◌else◌, leb, ltb, any, Result, ok, throws, ◌>>=◌,
}
use void.Domain.Components.{ComponentError}
use void.Domain.Stamp.{Stamp, parsed, unparsed}
use void.Settlement.Settle.{settle_selection}
use void.Settlement.Selection.{
  SettleableSelection, MatchState, Settles, SettleCoreResult, SettleAssessment, Reason, settled,
  unknown,
}
use void.Text.{Text, codes, text_eq}

pub record SettlementRule : Type 0 where
  pub provider : Text
  pub rule_version : Text
  pub effective_from : Option Stamp
  pub effective_to : Option Stamp
  pub source_reference : Option Text
  pub settle : SettleableSelection → MatchState → Settles

-- The rule that a verdict names.
pub record RuleName : Type 0 where
  pub provider : Text
  pub rule_version : Text
  pub source_reference : Option Text

pub data SettleVerdict : Type 0 where
  by_rule : RuleName → SettleAssessment → SettleVerdict
  no_rule : Text → SettleVerdict
  not_by_rule : RuleName → Reason → SettleVerdict

-- The exception of `register`: the provider and the version.
pub data AlreadyRegistered : Type 0 where
  already_registered : Text → Text → AlreadyRegistered

-- The state of a SettlementRuleStore.
abbrev pub Store : Type 0
Store = List SettlementRule

abbrev pub same_name : SettlementRule → SettlementRule → Bool
same_name a b = text_eq a.provider b.provider && text_eq a.rule_version b.rule_version

unfoldable pub register : SettlementRule → Store → Result AlreadyRegistered Store
register rule rules =
    if any (λ r. same_name r rule) rules
    then throws (already_registered rule.provider rule.rule_version)
    else ok (rules ++ rule ∷ [])

-- `at >= from`, with -Infinity for a missing bound; nothing is compared with NaN.
abbrev pub has_started : Option Stamp → ℕ → Bool
has_started none at = true
has_started (some unparsed) at = false
has_started (some (parsed from)) at = leb from at

abbrev pub not_ended : Option Stamp → ℕ → Bool
not_ended none at = true
not_ended (some unparsed) at = false
not_ended (some (parsed to)) at = ltb at to

unfoldable pub is_active : Text → ℕ → SettlementRule → Bool
is_active provider at rule =
    text_eq rule.provider provider
    && has_started rule.effective_from at
    && not_ended rule.effective_to at

-- The sort key.
abbrev pub from_of : SettlementRule → ℕ
from_of rule = elim rule.effective_from [
  | none ↦ 0
  | some s ↦ elim s [ parsed from ↦ from | unparsed ↦ 0 ]
]

unfoldable pub candidates : Text → ℕ → Store → Store
unfolding is_active
candidates provider at [] = []
candidates provider at (r ∷ rs) =
    let rest = candidates provider at rs in if is_active provider at r then r ∷ rest else rest

-- The stable sort by descending key, by insertion.
unfoldable pub insert_rule : SettlementRule → Store → Store
insert_rule r [] = r ∷ []
insert_rule r (q ∷ qs) =
    let rest = insert_rule r qs in if leb (from_of q) (from_of r) then r ∷ q ∷ qs else q ∷ rest

unfoldable pub sort_rules : Store → Store
unfolding insert_rule
sort_rules [] = []
sort_rules (r ∷ rs) = insert_rule r (sort_rules rs)

abbrev pub first_rule : Store → Option SettlementRule
first_rule [] = none
first_rule (r ∷ rs) = some r

unfoldable pub rule_for : Text → ℕ → Store → Option SettlementRule
unfolding candidates sort_rules
rule_for provider at rules = first_rule (sort_rules (candidates provider at rules))

unfoldable pub providers : Store → List Text
providers [] = []
providers (r ∷ rs) = r.provider ∷ without r.provider (providers rs)
  where
    without : Text → List Text → List Text
    without t [] = []
    without t (u ∷ us) = let rest = without t us in if text_eq t u then rest else u ∷ rest

abbrev pub std : Text
std = codes "std"

abbrev pub standard_rule : SettlementRule
standard_rule = record {
  provider = std;
  rule_version = codes "1";
  effective_from = none;
  effective_to = none;
  source_reference = some (codes "ARBITRAGE_ENGINE_SPEC §9–§16");
  settle = settle_selection;
}

abbrev is_none {ℓ} : {A : Type ℓ} → Option A → Bool
is_none none = true
is_none (some a) = false

seed_store : Option Store → ℕ → Result AlreadyRegistered Store
unfolding register rule_for
seed_store none now = register standard_rule []
seed_store (some rules) now =
    if is_none (rule_for std now rules) then register standard_rule rules else ok rules

-- The constructor of SettlementEngine: the store it is given, the option `seedStandard`, the clock.
unfoldable pub new_engine : Option Store → Bool → ℕ → Result AlreadyRegistered Store
unfolding seed_store
new_engine none false now = ok []
new_engine (some rules) false now = ok rules
new_engine store true now = seed_store store now

unfoldable pub verdict_of : SettlementRule → SettleCoreResult → SettleVerdict
verdict_of rule (unknown reason) =
    not_by_rule
      (record {
        provider = rule.provider;
        rule_version = rule.rule_version;
        source_reference = none;
      })
      reason
verdict_of rule (settled assessment) =
    by_rule
      (record {
        provider = rule.provider;
        rule_version = rule.rule_version;
        source_reference = rule.source_reference;
      })
      assessment

settle_by :
    Text
    → Option SettlementRule
    → SettleableSelection
    → MatchState
    → Result ComponentError SettleVerdict
unfolding verdict_of
settle_by provider none s m = ok (no_rule provider)
settle_by provider (some rule) s m = rule.settle s m >>= λ core. ok (verdict_of rule core)

-- SettlementEngine.settle
unfoldable pub engine_settle :
    Text → SettleableSelection → MatchState → ℕ → Store → Result ComponentError SettleVerdict
unfolding settle_by rule_for
engine_settle provider s m at rules = settle_by provider (rule_for provider at rules) s m
