-- ===== src/Arbitrage/Scan/Profit.antt =====
-- The ARB scans of candidates.ts.
use void.Base.{
  ok-injective, ok-throws, bind_ok, ℕ, ◌≡◌, ◌≢◌, refl, ap, ◌∙◌, sym, subst, Bool, true, some, List,
  [], ◌∷◌, map, In, here, there, In-cons, Result, ok, throws, ◌>>=◌, Bool-cases, inl, inr,
}
use void.Base.Ratio.{AtMost, Below}
use void.Domain.Values.{SettlementResult}
use void.Outcome.Classes.{GoalClass, CountClass, settle_vector}
use void.Outcome.Model.Complete.{OnGrid}
use void.Outcome.Score.{match_state}
use void.Arbitrage.Candidate.{
  Candidate, CandidateScan, PricedSelection, PruneVerdict, ScanStatus, arb, no_arb, pruned,
}
use void.Arbitrage.Coverage.{detect_false_arb, selections_of}
use void.Arbitrage.Coverage.Covered.{
  limits_of, detect_false_arb-represented, detect_false_arb-states,
}
use void.Arbitrage.Generate.Capped.{generated}
use void.Arbitrage.Prune.{prune_candidate}
use void.Arbitrage.Prune.Clean.{prune_candidate-AllFinite}
use void.Arbitrage.Report.{CoverageReport, CoverageStatus, covered}
use void.Arbitrage.Scan.{
  ScanOptions, legs_of, stake_total, model_of, scan_plan, scan_coverage, scan_unpruned,
  scan_verdicts, scan_one, scan_all, scan_candidates,
}
use void.Arbitrage.Stakes.{StakePlan, OptimizationError, optimize_stakes, sum_ratios}
use void.Arbitrage.Stakes.Plan.{AllFinite, Guaranteed, optimize_stakes-Guaranteed, return_of}
use void.Text.{Text}

no_arb-arb : no_arb ≢ arb
no_arb-arb e = cc

rejected-arb : ScanStatus.rejected ≢ arb
rejected-arb e = cc

pruned-arb : pruned ≢ arb
pruned-arb e = cc

-- The stakes of a plan on a candidate cost at most the total, and at each score that the state model
-- enumerates the legs settle, and the stakes return more than the total.
pub record Profitable (options : ScanOptions) (c : Candidate) (plan : StakePlan) : Type 0 where
  pub affordable : AtMost (sum_ratios plan.stakes) (stake_total options)
  pub profit :
      (g : GoalClass) (n k : CountClass)
      → OnGrid
          (selections_of (legs_of c.legs))
          (limits_of (legs_of c.legs) (model_of options))
          g
          n
          k
      → (v : List SettlementResult) × (settle_vector
            (selections_of (legs_of c.legs))
            (match_state g.full g.first n.counts k.counts)
          ≡ map some v)
        × Below (stake_total options) (return_of v (legs_of c.legs) plan.stakes)

-- A scan that is an ARB has such a plan.
abbrev Earned : ScanOptions → Candidate → CandidateScan → Type 0
Earned options c scan =
    (scan.candidate ≡ c)
    × (scan.status ≡ arb → (plan : StakePlan) × (scan.plan ≡ some plan) × Profitable options c plan)

scan_plan-arb :
    (c : Candidate) (r : CoverageReport) (plan : StakePlan)
    → (scan_plan c r plan).status ≡ arb
    → plan.is_arb ≡ true
unfolding scan_plan
scan_plan-arb c r plan e = elim (Bool-cases plan.is_arb) [
  | inl t ↦ t
  | inr t ↦ let x : no_arb ≡ arb = rw t at e in absurd (no_arb-arb x)
]

scan_plan-Earned :
    (options : ScanOptions) (c : Candidate) (plan : StakePlan)
    → let r = detect_false_arb (legs_of c.legs) (model_of options) in
      r.status ≡ covered
      → AllFinite (legs_of c.legs)
      → optimize_stakes r.states r.legs (stake_total options) ≡ ok plan
      → Earned options c (scan_plan c r plan)
unfolding scan_plan
scan_plan-Earned options c plan s f e = (
  refl,
  λ a.
      let legs = legs_of c.legs in
      let r = detect_false_arb legs (model_of options) in
      let same = (detect_false_arb-states legs (model_of options) s).1 in
      let safe : Guaranteed r.states legs (stake_total options) plan =
        optimize_stakes-Guaranteed r.states legs (stake_total options) plan f
          (subst (λ ls. optimize_stakes r.states ls (stake_total options) ≡ ok plan) same e)
          (scan_plan-arb c r plan a) in
      (
        plan,
        refl,
        record {
          affordable = safe.0;
          profit = λ g n k o.
              let (st, i, q) = detect_false_arb-represented legs (model_of options) g n k s o in
              (st.vector, sym q, safe.1 st i);
        },
      ),
)

-- What the scan of an unpruned candidate returns.
bound-Earned :
    (options : ScanOptions) (c : Candidate) (x : Result OptimizationError StakePlan)
    (scan : CandidateScan)
    → let r = detect_false_arb (legs_of c.legs) (model_of options) in
      r.status ≡ covered
      → AllFinite (legs_of c.legs)
      → optimize_stakes r.states r.legs (stake_total options) ≡ x
      → (x >>= λ plan. ok (scan_plan c r plan)) ≡ ok scan
      → Earned options c scan
bound-Earned options c (ok plan) scan s f e q =
    subst (Earned options c) (ok-injective q) (scan_plan-Earned options c plan s f e)
bound-Earned options c (throws x) scan s f e q = absurd (ok-throws q)

scan_coverage-Earned :
    (options : ScanOptions) (c : Candidate) (s : CoverageStatus) (scan : CandidateScan)
    → let r = detect_false_arb (legs_of c.legs) (model_of options) in
      r.status ≡ s
      → AllFinite (legs_of c.legs)
      → scan_coverage c options r s ≡ ok scan
      → Earned options c scan
unfolding scan_coverage
scan_coverage-Earned options c covered scan t f e = bound-Earned options c _ scan t f refl e
scan_coverage-Earned options c CoverageStatus.rejected scan t f e =
    subst (Earned options c) (ok-injective e) (refl, λ a. absurd (rejected-arb a))

scan_verdicts-Earned :
    (options : ScanOptions) (c : Candidate) (vs : List PruneVerdict) (scan : CandidateScan)
    → (vs ≡ [] → AllFinite (legs_of c.legs))
    → scan_verdicts c options vs ≡ ok scan
    → Earned options c scan
unfolding scan_verdicts scan_unpruned
scan_verdicts-Earned options c [] scan f e = scan_coverage-Earned options c _ scan refl (f refl) e
scan_verdicts-Earned options c (v ∷ vs) scan f e =
    subst (Earned options c) (ok-injective e) (refl, λ a. absurd (pruned-arb a))

scan_one-Earned :
    (options : ScanOptions) (c : Candidate) (clock : ℕ) (scan : CandidateScan)
    → scan_one c options clock ≡ ok scan
    → Earned options c scan
unfolding scan_one
scan_one-Earned options c clock scan e =
    scan_verdicts-Earned options c (prune_candidate c options.prune clock) scan
      (prune_candidate-AllFinite c options.prune clock) e

-- Each scan is that of one candidate.
scan_all-In :
    (cs : List Candidate) (options : ScanOptions) (clock : ℕ) (scans : List CandidateScan)
    (scan : CandidateScan)
    → scan_all cs options clock ≡ ok scans
    → In scan scans
    → (c : Candidate) × In c cs × (scan_one c options clock ≡ ok scan)
unfolding scan_all
scan_all-In [] options clock scans scan e i = elim (subst (In scan) (sym (ok-injective e)) i) [ ]
scan_all-In (c ∷ cs) options clock scans scan e i =
    let (one, f, g) = bind_ok (scan_one c options clock) _ scans e in
    let (rest, h, k) = bind_ok (scan_all cs options clock) _ scans g in
    elim (In-cons (subst (In scan) (sym (ok-injective k)) i)) [
      | inl q ↦ (c, here, f ∙ ap ok (sym q))
      | inr j ↦ let (d, m, z) = scan_all-In cs options clock rest scan h j in (d, there m, z)
    ]

-- An ARB of a scan is of a generated candidate, and its plan's stakes cost at most the total stake
-- and return more than it at each score that the state model enumerates.
pub scan_candidates-Profitable :
    (locale_le : Text → Text → Bool) (priced : List PricedSelection) (options : ScanOptions)
    (clock : ℕ) (scans : List CandidateScan) (scan : CandidateScan)
    → scan_candidates locale_le priced options clock ≡ ok scans
    → In scan scans
    → scan.status ≡ arb
    → In scan.candidate (generated locale_le priced options.generator)
      × ((plan : StakePlan) × (scan.plan ≡ some plan) × Profitable options scan.candidate plan)
unfolding scan_candidates
scan_candidates-Profitable locale_le priced options clock scans scan e i a =
    let (c, j, f) =
      scan_all-In (generated locale_le priced options.generator) options clock scans scan e i in
    let (same, earned) = scan_one-Earned options c clock scan f in
    subst
      (λ x.
        In x (generated locale_le priced options.generator)
        × ((plan : StakePlan) × (scan.plan ≡ some plan) × Profitable options x plan))
      (sym same) (j, earned a)
