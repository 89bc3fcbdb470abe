-- ===== src/Worker/Detection/Backed.antt =====
-- What stands behind an opportunity of runDetection of detect.ts.
use void.Base.{
  ok-injective, bind_ok, ℕ, ◌≡◌, inl, inr, refl, ap, ◌∙◌, sym, subst, Bool, true, List, [], ◌∷◌, ok,
  In, here, there, In-cons, In-map_inv, Bool-cases,
}
use void.Base.Ratio.{IsProper}
use void.Arbitrage.Candidate.{CandidateScan, PricedSelection, ScanStatus, arb}
use void.Arbitrage.Generate.Structured.{generate_candidates-Structured}
use void.Arbitrage.Scan.{scan_candidates}
use void.Arbitrage.Scan.Profit.{Profitable, scan_candidates-Profitable}
use void.Arbitrage.Stakes.{StakePlan}
use void.Text.{Text}
use void.Worker.Detect.{best_price_per_generation_group}
use void.Worker.Detect.Picks.{IsPick, best_price_per_generation_group-IsPick}
use void.Worker.Detection.{
  DetectionOptions, DetectionReport, Opportunity, arbs_of, marked_arb, now_of, opportunity_legs,
  planned_legs, detection_report, run_detection, scan_options, to_opportunity, validation_of,
}

marked_arb-arb : (s : ScanStatus) → marked_arb s ≡ true → s ≡ arb
marked_arb-arb arb e = refl
marked_arb-arb ScanStatus.no_arb e = absurd cc
marked_arb-arb ScanStatus.rejected e = absurd cc
marked_arb-arb ScanStatus.pruned e = absurd cc

arbs_of-In :
    (scans : List CandidateScan) (s : CandidateScan)
    → In s (arbs_of scans)
    → In s scans × (s.status ≡ arb)
unfolding arbs_of
arbs_of-In [] s i = elim i [ ]
arbs_of-In (t ∷ scans) s i = elim (Bool-cases (marked_arb t.status)) [
  | inr f ↦
      let j : In s (arbs_of scans) = rw f at i in
      let rest = arbs_of-In scans s j in (there rest.0, rest.1)
  | inl a ↦
      let j : In s (t ∷ arbs_of scans) = rw a at i in
      elim (In-cons j) [
        | inl q ↦ (
          subst (λ x. In x (t ∷ scans)) (sym q) here,
          ap (λ (x : CandidateScan). x.status) q ∙ marked_arb-arb t.status a,
        )
        | inr k ↦ let rest = arbs_of-In scans s k in (there rest.0, rest.1)
      ]
]

-- An opportunity reports the legs and the stakes of a profitable plan for a candidate of picked prices.
pub record Backed (priced : List PricedSelection) (options : DetectionOptions) (now : ℕ)
    (o : Opportunity) : Type 0 where
  pub scan : CandidateScan
  pub plan : StakePlan
  pub profitable : Profitable (scan_options options now) scan.candidate plan
  pub picked : (l : PricedSelection) → In l scan.candidate.legs → IsPick priced l
  pub one_event : (l : PricedSelection) → In l scan.candidate.legs → l.event_id ≡ o.event_id
  pub legs : o.legs ≡ opportunity_legs scan.candidate.legs plan.stakes
  pub status : o.status ≡ (validation_of scan options.validation now).status

module _ (locale_le : Text → Text → Bool) (priced : List PricedSelection)
    (options : DetectionOptions) (clock : ℕ) where
  abbrev now : ℕ
  now = now_of options clock

  abbrev picks : List PricedSelection
  picks = best_price_per_generation_group priced

  scan-Backed :
      (scans : List CandidateScan) (s : CandidateScan)
      → ((e : PricedSelection) → In e priced → IsProper e.odds)
      → scan_candidates locale_le picks (scan_options options now) clock ≡ ok scans
      → In s scans
      → s.status ≡ arb
      → Backed priced options now (to_opportunity s options.validation now)
  unfolding to_opportunity
  scan-Backed scans s proper e i a =
      let (made, (plan, has, profit)) =
        scan_candidates-Profitable locale_le picks (scan_options options now) clock scans s e i a in
      let structured =
        generate_candidates-Structured locale_le picks ((scan_options options now).generator)
          s.candidate made in
      record {
        scan = s;
        plan = plan;
        profitable = profit;
        picked = λ l j.
            (best_price_per_generation_group-IsPick priced proper).0 l
              (structured.from_priced l j).0;
        one_event = structured.one_event;
        legs = ap (planned_legs s.candidate.legs) has;
        status = refl;
      }

  -- Where all odds are numbers, each opportunity that runDetection returns is backed: it is of one event
  -- and has the legs and the stakes of a plan for a candidate of picked prices. Each picked price is
  -- a priced entry and at least as high as every one of its event, period and selection from an
  -- available source. The stakes cost at most 100 and return more than that at every score that the
  -- state model enumerates. The status is that of validateCandidate.
  pub run_detection-Backed :
      (report : DetectionReport) (o : Opportunity)
      → ((e : PricedSelection) → In e priced → IsProper e.odds)
      → run_detection locale_le priced options clock ≡ ok report
      → In o report.opportunities
      → Backed priced options now o
  unfolding run_detection
  run_detection-Backed report o proper e i =
      let (scans, f, g) =
        bind_ok (scan_candidates locale_le picks (scan_options options now) clock) _ report e in
      let listed : In o (detection_report priced options now scans).opportunities =
        subst (λ (x : DetectionReport). In o x.opportunities) (sym (ok-injective g)) i in
      let (s, j, q) =
        In-map_inv (λ s. to_opportunity s options.validation now) (arbs_of scans) listed in
      let (k, a) = arbs_of-In scans s j in
      subst (Backed priced options now) (sym q) (scan-Backed scans s proper f k a)
