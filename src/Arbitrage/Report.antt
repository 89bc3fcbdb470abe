-- ===== src/Arbitrage/Report.antt =====
-- The report of packages/arbitrage/src/coverage.ts, its keys, and the lists that it collects. The
-- human-readable `detail` of a verdict is left out.
use void.Base.{
  ℕ, ◌+◌, Bool, true, false, Option, none, some, List, [], ◌∷◌, ◌++◌, map, if◌then◌else◌, leb,
  length, get_elem?,
}
use void.Base.Ratio.{Ratio}
use void.Domain.Names.{family_name, type_name, period_name, participant_name, outcome_name}
use void.Domain.Values.{RejectionReason, SettlementResult, reason_eq}
use void.Outcome.Model.{OutcomeState, StateModelUnknown}
use void.Outcome.Score.{FootballScore}
use void.Settlement.Selection.{SettleableSelection}
use void.Text.{Text, codes, text_eq, show_nat}

pub record ArbitrageLeg : Type 0 where
  pub id : Text
  pub selection : SettleableSelection
  pub odds : Ratio

pub data OverlapKind : Type 0 where
  same_metric cross_metric : OverlapKind

pub record StateOverlap : Type 0 where
  pub kind : OverlapKind
  pub state_id : Text
  pub metric_key : Text
  pub leg_ids : List Text

pub record StateGap : Type 0 where
  pub state_id : Text
  pub representative : FootballScore
  pub first_half : Option FootballScore
  pub settlements : List SettlementResult
  pub leg_ids : List Text

-- The state that a rejection shows, if it shows one.
pub record RejectionEvidence : Type 0 where
  pub state : Option OutcomeState
  pub leg_ids : Option (List Text)
  pub metric_key : Option Text
  pub count : Option ℕ
  pub unknown : Option (List StateModelUnknown)

pub record FalseArbVerdict : Type 0 where
  pub reason : RejectionReason
  pub evidence : RejectionEvidence

pub data CoverageStatus : Type 0 where
  covered rejected : CoverageStatus

pub record CoverageReport : Type 0 where
  pub status : CoverageStatus
  pub legs : List ArbitrageLeg
  pub states : List OutcomeState
  pub selection_indices : List ℕ
  pub unknown : List StateModelUnknown
  pub overlaps : List StateOverlap
  pub gaps : List StateGap
  pub rejections : List FalseArbVerdict
  pub exclusive : Bool
  pub exhaustive : Bool

abbrev pub is_winning : SettlementResult → Bool
is_winning SettlementResult.full_win = true
is_winning SettlementResult.half_win = true
is_winning _ = false

abbrev pub is_full_loss : SettlementResult → Bool
is_full_loss SettlementResult.full_loss = true
is_full_loss _ = false

-- The parts with "|" between them.
unfoldable pub join_bar : List Text → Text
join_bar [] = []
join_bar (t ∷ []) = t
join_bar (t ∷ u ∷ ts) = t ++ b'|' ∷ join_bar (u ∷ ts)

abbrev pub or_dash {ℓ} : {A : Type ℓ} → (A → Text) → Option A → Text
or_dash name none = codes "-"
or_dash name (some a) = name a

unfoldable pub metric_key : SettleableSelection → Text
unfolding join_bar
metric_key s =
    join_bar
      (family_name s.family ∷ period_name s.period ∷ or_dash participant_name s.participant ∷ [])

unfoldable pub selection_key : SettleableSelection → Text
unfolding join_bar
selection_key s = join_bar (
    family_name s.family
    ∷ type_name s.market_type
    ∷ period_name s.period
    ∷ or_dash participant_name s.participant
    ∷ or_dash (λ t. t) s.line
    ∷ outcome_name s.outcome
    ∷ [])

unfoldable pub leg_id_or : ℕ → Option ArbitrageLeg → Text
leg_id_or index none = b'#' ∷ show_nat index
leg_id_or index (some leg) = leg.id

unfoldable pub leg_ids_for : List ArbitrageLeg → List ℕ → List Text
unfolding leg_id_or
leg_ids_for legs indices = map (λ i. leg_id_or i (get_elem? legs i)) indices

abbrev pub or_else {ℓ} : {A : Type ℓ} → Option A → A → A
or_else none a = a
or_else (some a) b = a

unfoldable pub empty_report : List ArbitrageLeg → CoverageReport
empty_report legs = record {
  status = rejected;
  legs = legs;
  states = [];
  selection_indices = [];
  unknown = [];
  overlaps = [];
  gaps = [];
  rejections = [];
  exclusive = true;
  exhaustive = true;
}

-- A Map from keys to arrays, in the order of insertion.
abbrev pub Groups {ℓ} : Type ℓ → Type ℓ
Groups A = List (Text × List A)

unfoldable pub push_group {ℓ} : {A : Type ℓ} → Text → A → Groups A → Groups A
push_group k a [] = (k, a ∷ []) ∷ []
push_group k a ((j, as') ∷ gs) =
    if text_eq j k then (j, as' ++ a ∷ []) ∷ gs else (j, as') ∷ push_group k a gs

unfoldable pub large_groups {ℓ} : {A : Type ℓ} → Groups A → Groups A
large_groups [] = []
large_groups ((k, as') ∷ gs) =
    let rest = large_groups gs in if leb 2 (length as') then (k, as') ∷ rest else rest

unfoldable pub group_legs : List ArbitrageLeg → Groups Text → Groups Text
group_legs [] gs = gs
group_legs (l ∷ ls) gs = group_legs ls (push_group (selection_key l.selection) l.id gs)

unfoldable pub duplicate_legs : List ArbitrageLeg → Groups Text
unfolding group_legs push_group large_groups selection_key
duplicate_legs legs = large_groups (group_legs legs [])

abbrev pub with_count : FalseArbVerdict → ℕ → FalseArbVerdict
with_count v n = record v { evidence = record (v.evidence) { count = some n } }

-- The first verdict with a reason counts the later ones.
unfoldable pub push_rejection : List FalseArbVerdict → FalseArbVerdict → List FalseArbVerdict
push_rejection [] v = with_count v 1 ∷ []
push_rejection (w ∷ ws) v =
    if reason_eq w.reason v.reason
    then with_count w (or_else w.evidence.count 1 + 1) ∷ ws
    else w ∷ push_rejection ws v
