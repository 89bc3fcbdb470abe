-- ===== src/Arbitrage/Coverage.antt =====
-- detectFalseArb and modelOptions of packages/arbitrage/src/coverage.ts.
pub mod Covered
pub mod Missed
pub mod Sound
use void.Base.{
  ℕ, zero, suc, ◌+◌, Bool, true, false, ◌&&◌, ◌||◌, not, Option, none, some, List, [], ◌∷◌, ◌++◌,
  map, if◌then◌else◌, ◌==◌, leb, ltb, length, get_elem?, min, max, any,
}
use void.Base.Ratio.{Ratio}
use void.Domain.Names.{family_name, type_name, period_name, participant_name, outcome_name}
use void.Domain.Values.{RejectionReason, SettlementResult, Participant, reason_eq}
use void.Outcome.Bounds.{boundary_max}
use void.Outcome.Model.{
  OutcomeState, StateModelOptions, StateModelUnknown, StateModelResult, build_state_model,
}
use void.Outcome.Score.{FootballScore, MetricCounts}
use void.Settlement.Selection.{SettleableSelection}
use void.Text.{Text, codes, text_eq, show_nat}
use void.Arbitrage.Report.{
  ArbitrageLeg, CoverageReport, CoverageStatus, FalseArbVerdict, Groups, OverlapKind,
  RejectionEvidence, StateGap, StateOverlap, covered, cross_metric, duplicate_legs, empty_report,
  group_legs, is_full_loss, is_winning, join_bar, large_groups, leg_id_or, leg_ids_for, metric_key,
  or_dash, or_else, push_group, push_rejection, rejected, same_metric, selection_key, with_count,
}

-- The limits that coverage asks of the state model.
unfoldable pub model_options : List SettleableSelection → StateModelOptions → StateModelOptions
unfolding boundary_max
model_options selections options =
    let required = boundary_max selections + 1 in
    record {
      max_goals = some (or_else options.max_goals (min (max required 2) 40));
      max_corners = some (or_else options.max_corners (min (max (required + 10) 2) 60));
      max_cards = some (or_else options.max_cards (min (max required 2) 40));
    }

-- The indices, counted from `i`, at which a test holds.
unfoldable pub indices_where : (SettlementResult → Bool) → ℕ → List SettlementResult → List ℕ
indices_where p i [] = []
indices_where p i (r ∷ rs) = let rest = indices_where p (suc i) rs in if p r then i ∷ rest else rest

-- What the loop over the states fills.
pub record Findings : Type 0 where
  pub overlaps : List StateOverlap
  pub gaps : List StateGap
  pub rejections : List FalseArbVerdict

abbrev evidence_of : OutcomeState → Option (List Text) → Option Text → RejectionEvidence
evidence_of st ids key = record {
  state = some st;
  leg_ids = ids;
  metric_key = key;
  count = none;
  unknown = none;
}

index_key : List ArbitrageLeg → ℕ → Option ArbitrageLeg → Text
index_key legs i none = []
index_key legs i (some leg) = metric_key leg.selection

unfoldable pub group_metrics : List ArbitrageLeg → List ℕ → Groups ℕ → Groups ℕ
unfolding index_key push_group
group_metrics legs [] gs = gs
group_metrics legs (i ∷ is) gs =
    group_metrics legs is (push_group (index_key legs i (get_elem? legs i)) i gs)

overlap_same : List ArbitrageLeg → OutcomeState → Text × List ℕ → Findings → Findings
overlap_same legs st (key, group) f =
    let ids = leg_ids_for legs group in
    record f {
      overlaps =
          f.overlaps
          ++ record { kind = same_metric; state_id = st.id; metric_key = key; leg_ids = ids } ∷ [];
      rejections = push_rejection f.rejections (record {
        reason = RejectionReason.non_exclusive;
        evidence = evidence_of st (some ids) (some key);
      });
    }

each_overlap : List ArbitrageLeg → OutcomeState → Groups ℕ → Findings → Findings
unfolding overlap_same
each_overlap legs st [] f = f
each_overlap legs st (g ∷ gs) f =
    each_overlap legs st gs (if leb 2 (length g.1) then overlap_same legs st g f else f)

join_plus : List Text → Text
join_plus [] = []
join_plus (t ∷ []) = t
join_plus (t ∷ u ∷ ts) = t ++ codes " + " ++ join_plus (u ∷ ts)

overlap_cross : List ArbitrageLeg → OutcomeState → List ℕ → Groups ℕ → Findings → Findings
unfolding join_plus
overlap_cross legs st winning gs f =
    if leb 2 (length gs)
    then record f {
      overlaps =
          f.overlaps
          ++ record {
            kind = cross_metric;
            state_id = st.id;
            metric_key = join_plus (map (λ g. g.0) gs);
            leg_ids = leg_ids_for legs winning;
          }
            ∷ [];
    }
    else f

-- Two winners or more.
check_overlaps : List ArbitrageLeg → OutcomeState → List ℕ → Findings → Findings
unfolding each_overlap overlap_cross group_metrics
check_overlaps legs st winning f =
    let gs = group_metrics legs winning [] in
    if leb 2 (length winning)
    then overlap_cross legs st winning gs (each_overlap legs st gs f)
    else f

all_indices : ℕ → List SettlementResult → List ℕ
all_indices i [] = []
all_indices i (r ∷ rs) = i ∷ all_indices (suc i) rs

-- No winner.
check_gap : List ArbitrageLeg → OutcomeState → List ℕ → Findings → Findings
unfolding all_indices
check_gap legs st losing f =
    let ids = leg_ids_for legs (all_indices 0 st.vector) in
    let all_lost = length losing == length legs && leb 2 (length legs) in
    record f {
      gaps =
          f.gaps
          ++ record {
            state_id = st.id;
            representative = st.representative;
            first_half = st.first_half;
            settlements = st.vector;
            leg_ids = ids;
          }
            ∷ [];
      rejections = push_rejection f.rejections (record {
        reason =
            if all_lost then RejectionReason.both_loss_state else RejectionReason.non_exhaustive;
        evidence = evidence_of st (some ids) none;
      });
    }

unfoldable pub check_state : List ArbitrageLeg → OutcomeState → Findings → Findings
unfolding check_overlaps check_gap
check_state legs st f =
    let winning = indices_where is_winning 0 st.vector in
    let losing = indices_where is_full_loss 0 st.vector in
    let seen = check_overlaps legs st winning f in
    if length winning == 0 then check_gap legs st losing seen else seen

unfoldable pub check_states : List ArbitrageLeg → List OutcomeState → Findings → Findings
unfolding check_state
check_states legs [] f = f
check_states legs (st ∷ sts) f = check_states legs sts (check_state legs st f)

abbrev is_same_metric : StateOverlap → Bool
is_same_metric o = elim o.kind [ same_metric ↦ true | cross_metric ↦ false ]

-- The report once every leg settles.
report_of : List ArbitrageLeg → StateModelResult → Findings → CoverageReport
report_of legs model f = record {
  status = if length f.rejections == 0 then covered else rejected;
  legs = legs;
  states = model.states;
  selection_indices = model.selection_indices;
  unknown = model.unknown;
  overlaps = f.overlaps;
  gaps = f.gaps;
  rejections = f.rejections;
  exclusive = not (any is_same_metric f.overlaps);
  exhaustive = length f.gaps == 0;
}

abbrev indices_of : List StateModelUnknown → List ℕ
indices_of = map λ u. u.index

unknown_report : List ArbitrageLeg → StateModelResult → CoverageReport
unknown_report legs model = record (empty_report legs) {
  states = model.states;
  selection_indices = model.selection_indices;
  unknown = model.unknown;
  rejections =
      record {
        reason = RejectionReason.unknown_settlement;
        evidence = record {
          state = none;
          leg_ids = some (leg_ids_for legs (indices_of model.unknown));
          metric_key = none;
          count = none;
          unknown = some model.unknown;
        };
      }
      ∷ [];
  exhaustive = false;
  exclusive = false;
}

abbrev plain_evidence : Option (List Text) → RejectionEvidence
plain_evidence ids = record {
  state = none;
  leg_ids = ids;
  metric_key = none;
  count = none;
  unknown = none;
}

abbrev pub no_findings : Findings
no_findings = record { overlaps = []; gaps = []; rejections = [] }

unfoldable pub report_model : List ArbitrageLeg → StateModelResult → CoverageReport
unfolding unknown_report report_of check_states empty_report
report_model legs model =
    if length model.unknown == 0
    then report_of legs model (check_states legs model.states no_findings)
    else unknown_report legs model

abbrev pub selections_of : List ArbitrageLeg → List SettleableSelection
selections_of = map λ l. l.selection

unfoldable pub report_duplicates :
    List ArbitrageLeg → StateModelOptions → Groups Text → CoverageReport
unfolding report_model build_state_model model_options empty_report
report_duplicates legs options [] =
    let selections = selections_of legs in
    report_model legs (build_state_model selections (model_options selections options))
report_duplicates legs options (d ∷ ds) = record (empty_report legs) {
  rejections =
      map
        (λ g. record {
          reason = RejectionReason.invalid_market;
          evidence = plain_evidence (some g.1);
        })
        (d ∷ ds);
}

unfoldable pub detect_false_arb : List ArbitrageLeg → StateModelOptions → CoverageReport
unfolding report_duplicates duplicate_legs
detect_false_arb [] options = record (empty_report []) {
  rejections =
      record { reason = RejectionReason.invalid_market; evidence = plain_evidence none } ∷ [];
}
detect_false_arb (l ∷ ls) options = report_duplicates (l ∷ ls) options (duplicate_legs (l ∷ ls))
