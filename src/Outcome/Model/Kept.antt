-- ===== src/Outcome/Model/Kept.antt =====
-- The first loop of `buildStateModel` when it leaves no selection out.
use void.Base.{ℕ, suc, ◌≡◌, refl, ap, List, [], ◌∷◌, arith, ok, throws}
use void.Domain.Values.{Period}
use void.Outcome.Model.{Sorted, sort_selections, sort_one, sort_settled, probe}
use void.Settlement.Settle.{settle_selection}
use void.Settlement.Selection.{Settles, settled, unknown, SettleableSelection}
use void.Settlement.Settle.Selection.{settle_selection-returned}

-- Nothing is left out: then everything is kept.
abbrev KeepsAll : List SettleableSelection → Sorted → Type 0
KeepsAll ss r = r.unknown ≡ [] → r.known ≡ ss

sort_settled-KeepsAll :
    (i : ℕ) (s : SettleableSelection) (ss : List SettleableSelection) (x : Settles) (r : Sorted)
    → settle_selection s probe ≡ x
    → KeepsAll ss r
    → KeepsAll (s ∷ ss) (sort_settled i s x r)
unfolding sort_settled
sort_settled-KeepsAll i s ss (ok (settled a)) r q h = λ e. ap (λ t. s ∷ t) (h e)
sort_settled-KeepsAll i s ss (ok (unknown reason)) r q h = λ e. cc
sort_settled-KeepsAll i s ss (throws x) r q h =
    absurd (ground (arith, settle_selection-returned s probe))

sort_one-KeepsAll :
    (i : ℕ) (s : SettleableSelection) (ss : List SettleableSelection) (p : Period) (r : Sorted)
    → KeepsAll ss r
    → KeepsAll (s ∷ ss) (sort_one i s p r)
unfolding sort_one
sort_one-KeepsAll i s ss Period.extra_time r h = λ e. cc
sort_one-KeepsAll i s ss Period.penalties r h = λ e. cc
sort_one-KeepsAll i s ss _ r h = sort_settled-KeepsAll i s ss (settle_selection s probe) r refl h

pub sort_selections-KeepsAll :
    (i : ℕ) (ss : List SettleableSelection)
    → (sort_selections i ss).unknown ≡ []
    → (sort_selections i ss).known ≡ ss
unfolding sort_selections
sort_selections-KeepsAll i [] = λ e. refl
sort_selections-KeepsAll i (s ∷ ss) =
    sort_one-KeepsAll i s ss s.period (sort_selections (suc i) ss)
      (sort_selections-KeepsAll (suc i) ss)
