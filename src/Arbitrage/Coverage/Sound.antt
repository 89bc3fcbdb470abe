-- ===== src/Arbitrage/Coverage/Sound.antt =====
-- What a covered report shows of the states of its model.
use void.Base.{
  ℕ, suc, ◌≡◌, ◌≢◌, ◌⊎◌, refl, ◌∙◌, sym, Bool, true, false, ◌||◌, List, [], ◌∷◌, ◌++◌, arith, In,
  here, there, length, Bool-cases, inl, inr, if◌then◌else◌, ◌==◌, any, leb,
}
use void.Domain.Values.{SettlementResult}
use void.Outcome.Model.{OutcomeState, StateModelResult}
use void.Arbitrage.Coverage.{
  Findings, indices_where, check_state, check_states, check_gap, check_overlaps, each_overlap,
  overlap_same, overlap_cross, is_same_metric, report_model, report_of, no_findings, unknown_report,
  group_metrics,
}
use void.Arbitrage.Report.{
  ArbitrageLeg, FalseArbVerdict, CoverageReport, covered, rejected, is_winning, push_rejection,
  Groups, is_full_loss, empty_report, StateOverlap,
}
use void.Text.{Text}

abbrev pub has_winner : List SettlementResult → Bool
has_winner = any is_winning

-- No rejection yet, and then no same-metric overlap and no gap.
abbrev Clean : Findings → Type 0
Clean f = f.rejections ≡ []

push_rejection-ne : (ws : List FalseArbVerdict) (v : FalseArbVerdict) → push_rejection ws v ≢ []
unfolding push_rejection
push_rejection-ne [] v e = cc
push_rejection-ne (w ∷ ws) v e = ground arith

indices_where-none :
    (p : SettlementResult → Bool) (i : ℕ) (rs : List SettlementResult)
    → indices_where p i rs ≢ []
    → any p rs ≡ true
unfolding indices_where
indices_where-none p i [] n = absurd (n refl)
indices_where-none p i (r ∷ rs) n = elim (Bool-cases (p r)) [
  | inl e ↦ rw e refl
  | inr e ↦ rw e (indices_where-none p (suc i) rs (λ z. n (rw (e, z))))
]

-- What is kept from state to state: findings with no rejection have no gap and no same-metric overlap.
abbrev Honest : Findings → Type 0
Honest f = f.rejections ≡ [] → (f.gaps ≡ []) × (any is_same_metric f.overlaps ≡ false)

any-append :
    (xs ys : List StateOverlap)
    → any is_same_metric (xs ++ ys) ≡ (any is_same_metric xs || any is_same_metric ys)
any-append [] ys = refl
any-append (x ∷ xs) ys = ground (arith, any-append xs ys)

length-nonempty : (xs : List ℕ) → (length xs == 0) ≡ false → xs ≢ []
length-nonempty [] t e = cc
length-nonempty (x ∷ xs) t e = cc

module _ (legs : List ArbitrageLeg) (st : OutcomeState) where
  abbrev groups : List ℕ → Groups ℕ
  groups winning = group_metrics legs winning []

  overlap_same-ne : (g : Text × List ℕ) (f : Findings) → (overlap_same legs st g f).rejections ≢ []
  unfolding overlap_same
  overlap_same-ne (key, group) f = push_rejection-ne _ _

  each_overlap-Honest :
      (gs : Groups ℕ) (f : Findings) → Honest f → Honest (each_overlap legs st gs f)
  unfolding each_overlap
  each_overlap-Honest [] f h = h
  each_overlap-Honest (g ∷ gs) f h =
      each_overlap-Honest gs (if leb 2 (length g.1) then overlap_same legs st g f else f)
        (elim (Bool-cases (leb 2 (length g.1))) [
          | inl e ↦ rw e (λ z. absurd (overlap_same-ne g f z))
          | inr e ↦ rw e h
        ])

  -- Rejections are never taken back.
  each_overlap-keeps :
      (gs : Groups ℕ) (f : Findings)
      → (each_overlap legs st gs f).rejections ≡ []
      → f.rejections ≡ []
  unfolding each_overlap
  each_overlap-keeps [] f e = e
  each_overlap-keeps (g ∷ gs) f e =
      let k =
        each_overlap-keeps gs (if leb 2 (length g.1) then overlap_same legs st g f else f) e in
      elim (Bool-cases (leb 2 (length g.1))) [
        | inl t ↦ absurd (overlap_same-ne g f (rw t at k))
        | inr t ↦ rw t at k
      ]

  overlap_cross-Honest :
      (winning : List ℕ) (gs : Groups ℕ) (f : Findings)
      → Honest f
      → Honest (overlap_cross legs st winning gs f)
  unfolding overlap_cross
  overlap_cross-Honest winning gs f h = elim (Bool-cases (leb 2 (length gs))) [
    | inl t ↦ rw t (λ z. ((h z).0, any-append f.overlaps _ ∙ ground (arith, h z)))
    | inr t ↦ rw t h
  ]

  overlap_cross-rejections :
      (winning : List ℕ) (gs : Groups ℕ) (f : Findings)
      → (overlap_cross legs st winning gs f).rejections ≡ f.rejections
  unfolding overlap_cross
  overlap_cross-rejections winning gs f = elim (Bool-cases (leb 2 (length gs))) [
    | inl t ↦ rw t refl
    | inr t ↦ rw t refl
  ]

  -- The two steps for two winners or more.
  abbrev both : List ℕ → Findings → Findings
  both winning f =
      overlap_cross legs st winning (groups winning) (each_overlap legs st (groups winning) f)

  check_overlaps-cases :
      (winning : List ℕ) (f : Findings)
      → (check_overlaps legs st winning f ≡ both winning f) ⊎ (check_overlaps legs st winning f ≡ f)
  unfolding check_overlaps
  check_overlaps-cases winning f = elim (Bool-cases (leb 2 (length winning))) [
    | inl t ↦ inl (rw t refl)
    | inr t ↦ inr (rw t refl)
  ]

  check_overlaps-Honest :
      (winning : List ℕ) (f : Findings) → Honest f → Honest (check_overlaps legs st winning f)
  check_overlaps-Honest winning f h = elim (check_overlaps-cases winning f) [
    | inl t ↦ rw t (
        overlap_cross-Honest winning (groups winning) (each_overlap legs st (groups winning) f)
          (each_overlap-Honest (groups winning) f h))
    | inr t ↦ rw t h
  ]

  check_overlaps-keeps :
      (winning : List ℕ) (f : Findings)
      → (check_overlaps legs st winning f).rejections ≡ []
      → f.rejections ≡ []
  check_overlaps-keeps winning f e = elim (check_overlaps-cases winning f) [
    | inl t ↦ each_overlap-keeps (groups winning) f (
        sym (
          overlap_cross-rejections winning (groups winning)
            (each_overlap legs st (groups winning) f))
        ∙ (rw t at e))
    | inr t ↦ rw t at e
  ]

  check_gap-ne : (losing : List ℕ) (f : Findings) → (check_gap legs st losing f).rejections ≢ []
  unfolding check_gap
  check_gap-ne losing f = push_rejection-ne f.rejections _

  check_state-lem :
      (f : Findings)
      → Honest f
      → Honest (check_state legs st f)
        × ((check_state legs st f).rejections ≡ []
            → (f.rejections ≡ []) × (has_winner st.vector ≡ true))
  unfolding check_state
  check_state-lem f h =
      let winning = indices_where is_winning 0 st.vector in
      let losing = indices_where is_full_loss 0 st.vector in
      let after = check_overlaps legs st winning f in
      let seen = check_overlaps-Honest winning f h in
      elim (Bool-cases (length winning == 0)) [
        | inl t ↦ rw t (
          (λ z. absurd (check_gap-ne losing after z)),
          (λ z. absurd (check_gap-ne losing after z)),
        )
        | inr t ↦ rw t (
          seen,
          (λ z. (
            check_overlaps-keeps winning f z,
            indices_where-none is_winning 0 st.vector (length-nonempty winning t),
          )),
        )
      ]

-- Every state of a list has a winner.
abbrev pub AllWon : List OutcomeState → Type 0
AllWon sts = (st : OutcomeState) → In st sts → has_winner st.vector ≡ true

AllWon-cons :
    (st : OutcomeState) (sts : List OutcomeState)
    → has_winner st.vector ≡ true
    → AllWon sts
    → AllWon (st ∷ sts)
AllWon-cons st sts w h u here = w
AllWon-cons st sts w h u (there i) = h u i

check_states-lem :
    (legs : List ArbitrageLeg) (sts : List OutcomeState) (f : Findings)
    → Honest f
    → Honest (check_states legs sts f)
      × ((check_states legs sts f).rejections ≡ [] → (f.rejections ≡ []) × AllWon sts)
unfolding check_states
check_states-lem legs [] f h = (h, λ e. (e, λ st i. elim i [ ]))
check_states-lem legs (st ∷ sts) f h =
    let one = check_state-lem legs st f h in
    let rest = check_states-lem legs sts (check_state legs st f) one.0 in
    (rest.0, λ e. let r = rest.1 e in let s = one.1 r.0 in (s.0, AllWon-cons st sts s.1 r.1))

none-length {ℓ} : {A : Type ℓ} (xs : List A) → (length xs == 0) ≡ true → xs ≡ []
none-length [] e = refl
none-length (x ∷ xs) e = ground arith

pub rejected-covered : rejected ≢ covered
rejected-covered e = cc

-- What a report promises when it is covered.
pub record Promise (model : StateModelResult) (r : CoverageReport) : Type 0 where
  pub settled : model.unknown ≡ []
  pub no_gaps : r.gaps ≡ []
  pub is_exclusive : r.exclusive ≡ true
  pub is_exhaustive : r.exhaustive ≡ true
  pub won : AllWon model.states

status-covered :
    (rs : List FalseArbVerdict) → (if length rs == 0 then covered else rejected) ≡ covered → rs ≡ []
status-covered [] e = refl
status-covered (r ∷ rs) e = ground arith

report_of-covered :
    (legs : List ArbitrageLeg) (model : StateModelResult)
    → model.unknown ≡ []
    → (report_of legs model (check_states legs model.states no_findings)).status ≡ covered
    → Promise model (report_of legs model (check_states legs model.states no_findings))
unfolding report_of
report_of-covered legs model u e =
    let all = check_states-lem legs model.states no_findings (λ z. (refl, refl)) in
    let none_left = status-covered (check_states legs model.states no_findings).rejections e in
    let clean = all.0 none_left in
    record {
      settled = u;
      no_gaps = clean.0;
      is_exclusive = rw (clean.1) refl;
      is_exhaustive = rw (clean.0) refl;
      won = (all.1 none_left).1;
    }

pub report_model-covered :
    (legs : List ArbitrageLeg) (model : StateModelResult)
    → (report_model legs model).status ≡ covered
    → Promise model (report_model legs model)
unfolding report_model unknown_report empty_report
report_model-covered legs model e = elim (Bool-cases (length model.unknown == 0)) [
  | inl t ↦ rw t (report_of-covered legs model (none-length model.unknown t) (rw t at e))
  | inr t ↦ absurd (rejected-covered (rw t at e))
]
