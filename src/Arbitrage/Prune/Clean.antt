-- ===== src/Arbitrage/Prune/Clean.antt =====
-- The candidates that pruneCandidate of candidates.ts lets through, and the reasons for the others.
use void.Base.{
  ℕ, ◌+◌, ◌≤◌, ◌≡◌, ◌⊎◌, inl, inr, refl, ap, ◌∙◌, subst, Bool, true, false, not, List, [], ◌∷◌,
  ◌++◌, arith, length, length-append, if◌then◌else◌, ltb, every, In, here, there, All, All-In,
  Bool-cases,
}
use void.Base.Ratio.{Ratio, IsProper}
use void.Domain.Names.{period_name}
use void.Arbitrage.Candidate.{
  Candidate, PricedSelection, PruneReason, PruneVerdict, candidate_size, event_mismatch,
  period_mismatch, duplicate_selection, incompatible_market, same_bookmaker, price_prefilter,
}
use void.Arbitrage.Generate.{GeneratorOptions, leg_key, goes_with, pairwise_compatible}
use void.Arbitrage.Generate.Capped.{generated}
use void.Arbitrage.Generate.Structured.{Structured, occurrences, generate_candidates-Structured}
use void.Arbitrage.Prune.{
  PruneOptions, verdict_if, leg_faults, faults_found, leg_verdicts, group_ids, duplicate_verdicts,
  reuses_bookmaker, fails_prefilter, prune_candidate, odds_invalid, ids_in, verdict_parts, concat,
}
use void.Arbitrage.Report.{Groups, push_group}
use void.Arbitrage.Stakes.Plan.{AllFinite}
use void.Arbitrage.Scan.{legs_of}
use void.Arbitrage.Structure.{period_eq}
use void.Text.{Text, text_eq}
use void.Text.Equality.{text_eq-eq, text_eq_refl}

-- Reasons about how a candidate is put together.
abbrev pub is_structural : PruneReason → Bool
is_structural candidate_size = true
is_structural event_mismatch = true
is_structural period_mismatch = true
is_structural duplicate_selection = true
is_structural incompatible_market = true
is_structural _ = false

abbrev Sound : List PruneVerdict → Type 0
Sound vs = All (λ v. is_structural v.reason ≡ false) vs

Sound-append : (vs ws : List PruneVerdict) → Sound vs → Sound ws → Sound (vs ++ ws)
Sound-append [] ws p q = q
Sound-append (v ∷ vs) ws p q = (p.0, Sound-append vs ws p.1 q)

verdict_if-Sound :
    (b : Bool) (r : PruneReason) (ids : List Text)
    → (b ≡ false) ⊎ (is_structural r ≡ false)
    → Sound (verdict_if b r ids)
verdict_if-Sound false r ids h = tt
verdict_if-Sound true r ids (inl e) = absurd (ground arith)
verdict_if-Sound true r ids (inr e) = (e, tt)

faults_found-Sound :
    (fs : List (Bool × PruneReason)) (ids : List Text)
    → All (λ f. (f.0 ≡ false) ⊎ (is_structural f.1 ≡ false)) fs
    → Sound (faults_found fs ids)
unfolding faults_found
faults_found-Sound [] ids h = tt
faults_found-Sound (f ∷ fs) ids h =
    Sound-append (verdict_if f.0 f.1 ids) (faults_found fs ids) (verdict_if-Sound f.0 f.1 ids h.0)
      (faults_found-Sound fs ids h.1)

period_eq_refl : (l : PricedSelection) → period_eq l.selection.period l.selection.period ≡ true
unfolding period_eq
period_eq_refl l = text_eq_refl (period_name l.selection.period)

leg_verdicts-Sound :
    (c : Candidate) (o : PruneOptions) (clock : ℕ) (ls : List PricedSelection)
    → ((l : PricedSelection) → In l ls → l.event_id ≡ c.event_id)
    → ((l : PricedSelection) → In l ls → l.selection.period ≡ c.period)
    → Sound (leg_verdicts c o clock ls)
unfolding leg_verdicts
leg_verdicts-Sound c o clock [] e p = tt
leg_verdicts-Sound c o clock (l ∷ ls) e p =
    Sound-append (faults_found (leg_faults c o clock l) (l.id ∷ [])) (leg_verdicts c o clock ls)
      (faults_found-Sound (leg_faults c o clock l) (l.id ∷ []) (
        inl (
            ap not (subst (λ x. text_eq l.event_id x ≡ true) (e l here) (text_eq_refl l.event_id))),
        (
          inl (
              ap not
                (subst (λ x. period_eq l.selection.period x ≡ true) (p l here) (period_eq_refl l))),
          (inr refl, (inr refl, (inr refl, (inr refl, tt)))),
        ),
      ))
      (leg_verdicts-Sound c o clock ls (λ a i. e a (there i)) (λ a i. p a (there i)))

-- The ids that groups hold under a key.
total_ids : Text → Groups Text → ℕ
total_ids k [] = 0
total_ids k ((j, ids) ∷ gs) =
    let rest = total_ids k gs in if text_eq j k then length ids + rest else rest

total_ids-push_group :
    (k j : Text) (a : Text) (gs : Groups Text)
    → total_ids k (push_group j a gs) ≡ total_ids k gs + (if text_eq j k then 1 else 0)
unfolding total_ids push_group
total_ids-push_group k j a [] = ground arith
total_ids-push_group k j a ((i, ids) ∷ gs) = elim (Bool-cases (text_eq i j)) [
  | inl e ↦ rw (e, text_eq-eq i j e) (ground (arith, length-append ids (a ∷ [])))
  | inr e ↦ rw e (ground (arith, total_ids-push_group k j a gs))
]

total_ids-group_ids :
    (k : Text) (ls : List PricedSelection) (gs : Groups Text)
    → total_ids k (group_ids ls gs) ≡ total_ids k gs + occurrences k ls
unfolding group_ids occurrences
total_ids-group_ids k [] gs = omega arith
total_ids-group_ids k (l ∷ ls) gs =
    total_ids-group_ids k ls (push_group (leg_key l) l.id gs)
    ∙ ground (arith, total_ids-push_group k (leg_key l) l.id gs)

total_ids_none : (k : Text) → total_ids k [] ≡ 0
unfolding total_ids
total_ids_none k = refl

duplicate_verdicts-Sound :
    (gs : Groups Text) → ((k : Text) → total_ids k gs ≤ 1) → Sound (duplicate_verdicts gs)
unfolding duplicate_verdicts total_ids
duplicate_verdicts-Sound [] h = tt
duplicate_verdicts-Sound ((k, ids) ∷ gs) h =
    Sound-append (verdict_if (ltb 1 (length ids)) duplicate_selection ids) (duplicate_verdicts gs)
      (verdict_if-Sound (ltb 1 (length ids)) duplicate_selection ids
        (inl (ground (arith, h k, text_eq_refl k))))
      (duplicate_verdicts-Sound gs (λ j. ground (arith, h j)))

every-intro {ℓ} :
    {A : Type ℓ} (p : A → Bool) (xs : List A) → ((a : A) → In a xs → p a ≡ true) → every p xs ≡ true
every-intro p [] h = refl
every-intro p (x ∷ xs) h = ground (arith, h x here, every-intro p xs (λ a i. h a (there i)))

pairwise_compatible-intro :
    (ls : List PricedSelection)
    → ((a b : PricedSelection) → In a ls → In b ls → goes_with a b ≡ true)
    → pairwise_compatible ls ≡ true
unfolding pairwise_compatible
pairwise_compatible-intro [] h = refl
pairwise_compatible-intro (l ∷ ls) h = ground (
  arith,
  every-intro (goes_with l) ls (λ a i. h l a here (there i)),
  pairwise_compatible-intro ls (λ a b i j. h a b (there i) (there j)),
)

Sound-concat : (vss : List (List PruneVerdict)) → All Sound vss → Sound (concat vss)
unfolding concat
Sound-concat [] h = tt
Sound-concat (vs ∷ vss) h = Sound-append vs (concat vss) h.0 (Sound-concat vss h.1)

short_enough : (ls : List PricedSelection) → 2 ≤ length ls → ltb (length ls) 2 ≡ false
short_enough ls h = ground arith

prune_candidate-Sound :
    (priced : List PricedSelection) (g : GeneratorOptions) (c : Candidate) (o : PruneOptions)
    (clock : ℕ)
    → Structured priced g c
    → Sound (prune_candidate c o clock)
unfolding prune_candidate
prune_candidate-Sound priced g c o clock s =
    let books : Sound (verdict_if (reuses_bookmaker o c.legs) same_bookmaker (ids_in c.legs)) =
      verdict_if-Sound (reuses_bookmaker o c.legs) same_bookmaker (ids_in c.legs) (inr refl) in
    let markets : Sound
        (verdict_if (not (pairwise_compatible c.legs)) incompatible_market (ids_in c.legs)) =
      verdict_if-Sound (not (pairwise_compatible c.legs)) incompatible_market (ids_in c.legs)
        (inl (ap not (pairwise_compatible-intro c.legs s.compatible))) in
    let price : Sound (verdict_if (fails_prefilter c.legs) price_prefilter (ids_in c.legs)) =
      verdict_if-Sound (fails_prefilter c.legs) price_prefilter (ids_in c.legs) (inr refl) in
    let twice : Sound (duplicate_verdicts (group_ids c.legs [])) =
      duplicate_verdicts-Sound (group_ids c.legs [])
        (λ k. omega (arith, s.once k, total_ids-group_ids k c.legs [], total_ids_none k)) in
    Sound-concat (verdict_parts c o clock) (
      rw (short_enough c.legs (omega (arith, s.least))) tt,
      (
        leg_verdicts-Sound c o clock c.legs s.one_event s.one_period,
        (twice, (books, (markets, (price, tt)))),
      ),
    )

-- No verdict on a generated candidate is about its size, its events, its periods, a duplicate selection
-- or incompatible markets.
pub prune_candidate-generated :
    (locale_le : Text → Text → Bool) (priced : List PricedSelection) (g : GeneratorOptions)
    (c : Candidate) (o : PruneOptions) (clock : ℕ) (v : PruneVerdict)
    → In c (generated locale_le priced g)
    → In v (prune_candidate c o clock)
    → is_structural v.reason ≡ false
prune_candidate-generated locale_le priced g c o clock v i j =
    All-In (λ w. is_structural w.reason ≡ false) j
      (prune_candidate-Sound priced g c o clock
        (generate_candidates-Structured locale_le priced g c i))

append-none {ℓ} : {A : Type ℓ} (xs ys : List A) → xs ++ ys ≡ [] → (xs ≡ []) × (ys ≡ [])
append-none [] ys e = (refl, e)
append-none (x ∷ xs) ys e = cc

concat-none {ℓ} : {A : Type ℓ} (xss : List (List A)) → concat xss ≡ [] → All (λ xs. xs ≡ []) xss
unfolding concat
concat-none [] e = tt
concat-none (xs ∷ xss) e =
    let split = append-none xs (concat xss) e in (split.0, concat-none xss split.1)

verdict_if-none :
    (b : Bool) (r : PruneReason) (ids : List Text) → verdict_if b r ids ≡ [] → b ≡ false
verdict_if-none false r ids e = refl
verdict_if-none true r ids e = cc

faults_found-none :
    (fs : List (Bool × PruneReason)) (ids : List Text)
    → faults_found fs ids ≡ []
    → All (λ f. f.0 ≡ false) fs
unfolding faults_found
faults_found-none [] ids e = tt
faults_found-none (f ∷ fs) ids e =
    let split = append-none (verdict_if f.0 f.1 ids) (faults_found fs ids) e in
    (verdict_if-none f.0 f.1 ids split.0, faults_found-none fs ids split.1)

odds_invalid-IsProper : (r : Ratio) → odds_invalid r ≡ false → IsProper r
unfolding odds_invalid
odds_invalid-IsProper r e = ground arith

-- Legs that no verdict is about have odds that are numbers above one.
leg_verdicts-none :
    (c : Candidate) (o : PruneOptions) (clock : ℕ) (ls : List PricedSelection)
    → leg_verdicts c o clock ls ≡ []
    → AllFinite (legs_of ls)
unfolding leg_verdicts
leg_verdicts-none c o clock [] e = tt
leg_verdicts-none c o clock (l ∷ ls) e =
    let split = append-none (faults_found (leg_faults c o clock l) (l.id ∷ [])) _ e in
    let faults = faults_found-none (leg_faults c o clock l) (l.id ∷ []) split.0 in
    (odds_invalid-IsProper l.odds faults.1.1.0, leg_verdicts-none c o clock ls split.1)

-- A candidate with no verdict has odds that are finite.
pub prune_candidate-AllFinite :
    (c : Candidate) (o : PruneOptions) (clock : ℕ)
    → prune_candidate c o clock ≡ []
    → AllFinite (legs_of c.legs)
unfolding prune_candidate
prune_candidate-AllFinite c o clock e =
    leg_verdicts-none c o clock c.legs (concat-none (verdict_parts c o clock) e).1.0
