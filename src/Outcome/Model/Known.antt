-- ===== src/Outcome/Model/Known.antt =====
-- The selections that `buildStateModel` keeps settle at every score and count.
use void.Base.{
  ℕ, suc, ◌≡◌, refl, ap, ◌∙◌, sym, Bool, true, false, ◌&&◌, Option, none, some, List, [], ◌∷◌,
  arith, inl, inr, All, Option-cases, ok, throws,
}
use void.Domain.Values.{SettlementResult, Period}
use void.Outcome.Score.{FootballScore, MetricCounts, match_state, line_counts, or_null}
use void.Outcome.Classes.{result_at, settle_vector, is_half_period}
use void.Outcome.Model.{
  Sorted, sort_selections, sort_one, sort_settled, probe, is_goal, is_corners, is_cards,
  all_settled,
}
use void.Settlement.Settle.{settle_selection, period_score}
use void.Settlement.Selection.{Settles, settled, unknown, SettleableSelection, MatchState}
use void.Settlement.Settle.Total.{result_of}
use void.Settlement.Settle.Settled.{has, SameData, settles_alike}

-- Extra time and penalties are no part of the model.
abbrev is_modelled : Period → Bool
is_modelled Period.extra_time = false
is_modelled Period.penalties = false
is_modelled _ = true

pub record IsKnown (s : SettleableSelection) : Type 0 where
  pub modelled : is_modelled s.period ≡ true
  pub settles : has (result_at probe s) ≡ true

sort_settled-All :
    (i : ℕ) (s : SettleableSelection) (r : Settles) (rest : Sorted)
    → settle_selection s probe ≡ r
    → is_modelled s.period ≡ true
    → All IsKnown rest.known
    → All IsKnown (sort_settled i s r rest).known
unfolding sort_settled
sort_settled-All i s (ok (settled a)) rest e m h =
    (record { modelled = m; settles = ap (λ x. has (result_of x)) e }, h)
sort_settled-All i s (ok (unknown r)) rest e m h = h
sort_settled-All i s (throws x) rest e m h = h

sort_one-All :
    (i : ℕ) (s : SettleableSelection) (p : Period) (rest : Sorted)
    → s.period ≡ p
    → All IsKnown rest.known
    → All IsKnown (sort_one i s p rest).known
unfolding sort_one
sort_one-All i s Period.extra_time rest e h = h
sort_one-All i s Period.penalties rest e h = h
sort_one-All i s Period.full_match rest e h =
    sort_settled-All i s (settle_selection s probe) rest refl (ap is_modelled e) h
sort_one-All i s Period.first_half rest e h =
    sort_settled-All i s (settle_selection s probe) rest refl (ap is_modelled e) h
sort_one-All i s Period.second_half rest e h =
    sort_settled-All i s (settle_selection s probe) rest refl (ap is_modelled e) h

pub sort_selections-All :
    (i : ℕ) (ss : List SettleableSelection) → All IsKnown (sort_selections i ss).known
unfolding sort_selections
sort_selections-All i [] = tt
sort_selections-All i (s ∷ ss) =
    sort_one-All i s s.period (sort_selections (suc i) ss) refl (sort_selections-All (suc i) ss)

period_score-has :
    (f : FootballScore) (c k : Option MetricCounts) (p : Period) (h : Option FootballScore)
    → is_modelled p ≡ true
    → (is_half_period p ≡ true → has h ≡ true)
    → has (period_score probe p) ≡ has (period_score (match_state f h c k) p)
unfolding period_score
period_score-has f c k Period.full_match h m e = refl
period_score-has f c k Period.first_half none m e = sym (e refl)
period_score-has f c k Period.first_half (some x) m e = refl
period_score-has f c k Period.second_half none m e = sym (e refl)
period_score-has f c k Period.second_half (some x) m e = refl
period_score-has f c k Period.extra_time h m e = cc
period_score-has f c k Period.penalties h m e = cc

or_null-has {ℓ κ} : {A : Type ℓ} {B : Type κ} (g : A → B) (o : Option A) → has (or_null g o) ≡ has o
or_null-has g none = refl
or_null-has g (some a) = refl

module _ (s : SettleableSelection) (f : FootballScore) (h : Option FootballScore)
    (c k : Option MetricCounts) where
  -- The scores and counts that the selection reads are there.
  pub record IsFed : Type 0 where
    pub half : (is_goal s.family && is_half_period s.period) ≡ true → has h ≡ true
    pub corners : is_corners s.family ≡ true → has c ≡ true
    pub cards : is_cards s.family ≡ true → has k ≡ true

  pub IsKnown-has : IsKnown s → IsFed → has (result_at (match_state f h c k) s) ≡ true
  IsKnown-has known fed = sym (settles_alike s probe (match_state f h c k) same) ∙ known.settles
    where
      same : SameData s probe (match_state f h c k) s.family
      same = record {
        status = refl;
        score =
            λ g. period_score-has f c k s.period h known.modelled (λ p. fed.half (ground arith));
        corners = λ g. sym (or_null-has line_counts c ∙ fed.corners g);
        cards = λ g. sym (or_null-has line_counts k ∙ fed.cards g);
      }

pub all_settled-All :
    (m : MatchState) (ss : List SettleableSelection)
    → All (λ s. has (result_at m s) ≡ true) ss
    → (v : List SettlementResult) × (all_settled (settle_vector ss m) ≡ some v)
unfolding all_settled settle_vector
all_settled-All m [] h = ([], refl)
all_settled-All m (s ∷ ss) h =
    let (v, e) = all_settled-All m ss h.1 in
    elim (Option-cases (result_at m s)) [
      | inl n ↦ absurd (ground (arith, h.0))
      | inr (r, p) ↦ (r ∷ v, rw (p, e))
    ]
