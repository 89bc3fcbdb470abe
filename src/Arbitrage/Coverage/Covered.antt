-- ===== src/Arbitrage/Coverage/Covered.antt =====
-- What a covered verdict of `detectFalseArb` promises of the scores.
use void.Base.{
  subst, ◌≡◌, ◌≢◌, refl, ap, ◌∙◌, sym, Bool, true, false, Option, none, some, List, [], ◌∷◌, map,
  arith, any, In, Bool-cases, inl, inr, length, ◌==◌,
}
use void.Domain.Values.{SettlementResult}
use void.Outcome.Score.{match_state}
use void.Outcome.Classes.{GoalClass, CountClass, settle_vector}
use void.Outcome.Model.{OutcomeState, StateModelOptions, StateModelResult, build_state_model}
use void.Outcome.Model.Complete.{OnGrid}
use void.Outcome.Model.Reduction.{known_of, build_state_model_complete}
use void.Settlement.Selection.{SettleableSelection}
use void.Outcome.Model.Kept.{sort_selections-KeepsAll}
use void.Arbitrage.Coverage.{
  detect_false_arb, report_duplicates, report_model, report_of, unknown_report, selections_of,
  model_options,
}
use void.Arbitrage.Report.{ArbitrageLeg, duplicate_legs, covered, is_winning, Groups, empty_report}
use void.Arbitrage.Coverage.Sound.{AllWon, Promise, report_model-covered, rejected-covered}
use void.Text.{Text}

abbrev pub is_win : Option SettlementResult → Bool
is_win none = false
is_win (some r) = is_winning r

any-some : (rs : List SettlementResult) → any is_win (map some rs) ≡ any is_winning rs
any-some [] = refl
any-some (r ∷ rs) = rw (any-some rs) refl

report_duplicates-covered :
    (legs : List ArbitrageLeg) (options : StateModelOptions) (ds : Groups Text)
    → (report_duplicates legs options ds).status ≡ covered
    → let selections = selections_of legs in
      Promise
        (build_state_model selections (model_options selections options))
        (report_duplicates legs options ds)
unfolding report_duplicates empty_report
report_duplicates-covered legs options [] e = report_model-covered legs _ e
report_duplicates-covered legs options (d ∷ ds) e = absurd (rejected-covered e)

-- The limits that the state model of a report has.
abbrev pub limits_of : List ArbitrageLeg → StateModelOptions → StateModelOptions
limits_of legs options = model_options (selections_of legs) options

detect_false_arb-Promise :
    (legs : List ArbitrageLeg) (options : StateModelOptions)
    → (detect_false_arb legs options).status ≡ covered
    → (legs ≢ [])
      × Promise
          (build_state_model (selections_of legs) (limits_of legs options))
          (detect_false_arb legs options)
unfolding detect_false_arb empty_report
detect_false_arb-Promise [] options e = absurd (rejected-covered e)
detect_false_arb-Promise (l ∷ ls) options e =
    (λ q. cc, report_duplicates-covered (l ∷ ls) options (duplicate_legs (l ∷ ls)) e)

selections-none : (legs : List ArbitrageLeg) → selections_of legs ≡ [] → legs ≡ []
selections-none [] e = refl
selections-none (l ∷ ls) e = absurd (ground arith)

known_of-all :
    (ss : List SettleableSelection) (options : StateModelOptions)
    → (build_state_model ss options).unknown ≡ []
    → known_of ss ≡ ss
unfolding build_state_model
known_of-all ss options e = sort_selections-KeepsAll 0 ss e

-- The scores that the model enumerates for some selections settle one of them to a win or a half win.
abbrev pub GridWon : StateModelOptions → List SettleableSelection → Type 0
GridWon options ss =
    (g : GoalClass) (c k : CountClass)
    → OnGrid ss options g c k
    → any is_win (settle_vector ss (match_state g.full g.first c.counts k.counts)) ≡ true

known-GridWon :
    (ss : List SettleableSelection) (options : StateModelOptions)
    → known_of ss ≢ []
    → AllWon (build_state_model ss options).states
    → GridWon options (known_of ss)
known-GridWon ss options n won g c k o =
    let found = build_state_model_complete ss options g c k n o in
    ap (any is_win) (sym found.2) ∙ any-some found.0.vector ∙ won found.0 found.1

-- A covered report has no unknown leg, is exclusive and exhaustive, and every score with counts that
-- its state model enumerates settles some leg to a win or a half win.
pub detect_false_arb-covered :
    (legs : List ArbitrageLeg) (options : StateModelOptions)
    → (detect_false_arb legs options).status ≡ covered
    → let ss = selections_of legs in
      let r = detect_false_arb legs options in
      (r.exclusive ≡ true)
      × (r.exhaustive ≡ true)
      × (known_of ss ≡ ss)
      × GridWon (limits_of legs options) ss
detect_false_arb-covered legs options e =
    let p = detect_false_arb-Promise legs options e in
    let all = known_of-all (selections_of legs) (limits_of legs options) p.1.settled in
    let kept =
      λ (q : known_of (selections_of legs) ≡ []). p.0 (selections-none legs (sym all ∙ q)) in
    let won = known-GridWon (selections_of legs) (limits_of legs options) kept p.1.won in
    (p.1.is_exclusive, p.1.is_exhaustive, all, subst (GridWon (limits_of legs options)) all won)

report_model-states :
    (legs : List ArbitrageLeg) (model : StateModelResult)
    → ((report_model legs model).states ≡ model.states) × ((report_model legs model).legs ≡ legs)
unfolding report_model report_of unknown_report empty_report
report_model-states legs model = elim (Bool-cases (length model.unknown == 0)) [
  | inl t ↦ rw t (refl, refl)
  | inr t ↦ rw t (refl, refl)
]

report_duplicates-states :
    (legs : List ArbitrageLeg) (options : StateModelOptions) (ds : Groups Text)
    → (report_duplicates legs options ds).status ≡ covered
    → ((report_duplicates legs options ds).states
        ≡ (build_state_model (selections_of legs) (limits_of legs options)).states)
      × ((report_duplicates legs options ds).legs ≡ legs)
unfolding report_duplicates empty_report
report_duplicates-states legs options [] e = report_model-states legs _
report_duplicates-states legs options (d ∷ ds) e = absurd (rejected-covered e)

-- A covered report has the states of the model and the legs.
pub detect_false_arb-states :
    (legs : List ArbitrageLeg) (options : StateModelOptions)
    → (detect_false_arb legs options).status ≡ covered
    → ((detect_false_arb legs options).states
        ≡ (build_state_model (selections_of legs) (limits_of legs options)).states)
      × ((detect_false_arb legs options).legs ≡ legs)
unfolding detect_false_arb empty_report
detect_false_arb-states [] options e = absurd (rejected-covered e)
detect_false_arb-states (l ∷ ls) options e =
    report_duplicates-states (l ∷ ls) options (duplicate_legs (l ∷ ls)) e

-- Each score that is enumerated for a covered candidate is settled as one of the states of its report.
pub detect_false_arb-represented :
    (legs : List ArbitrageLeg) (options : StateModelOptions) (g : GoalClass) (c k : CountClass)
    → (detect_false_arb legs options).status ≡ covered
    → OnGrid (selections_of legs) (limits_of legs options) g c k
    → (st : OutcomeState) × In st (detect_false_arb legs options).states
      × (map some st.vector
          ≡ settle_vector (selections_of legs) (match_state g.full g.first c.counts k.counts))
detect_false_arb-represented legs options g c k e o =
    let p = detect_false_arb-Promise legs options e in
    let all = known_of-all (selections_of legs) (limits_of legs options) p.1.settled in
    let ss = selections_of legs in
    let found =
      build_state_model_complete ss (limits_of legs options) g c k
        (λ q. p.0 (selections-none legs (sym all ∙ q)))
        (subst (λ x. OnGrid x (limits_of legs options) g c k) (sym all) o) in
    (
      found.0,
      subst (In found.0) (sym (detect_false_arb-states legs options e).0) found.1,
      subst
          (λ x.
            map some found.0.vector
            ≡ settle_vector x (match_state g.full g.first c.counts k.counts))
          all found.2,
    )
