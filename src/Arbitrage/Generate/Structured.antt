-- ===== src/Arbitrage/Generate/Structured.antt =====
-- The legs of the candidates that candidates.ts generates.
use void.Base.{
  ℕ, suc, ◌≤◌, ◌≡◌, inl, inr, refl, ap, ◌∙◌, sym, subst, Bool, true, false, some, List, [], ◌∷◌,
  arith, length, if◌then◌else◌, leb, every-In, max, In, here, there, In-cons, Bool-cases,
  Option-cases,
}
use void.Arbitrage.Candidate.{Candidate, PricedSelection, or_default}
use void.Arbitrage.Generate.{
  GeneratorOptions, combo_usable, make_candidate, candidate_of, sort_legs, insert_leg, other_event,
  goes_with, pairwise_compatible, duplicate_from, has_text, leg_key, accept, take_new,
  generate_candidates,
}
use void.Arbitrage.Generate.Capped.{accept-some, some-same, generated, combos}
use void.Arbitrage.Structure.Pairs.{
  families_compatible_sym, families_compatible_refl, split_group_key,
}
use void.Text.{Text, text_eq}
use void.Text.Equality.{text_eq-eq, text_eq_refl}
use void.Arbitrage.Generate.Sorted.{sort_legs-In, sort_legs-length}
use void.Arbitrage.Generate.Grouped.{Combined, group_priced-Grouped, all_combos-Combined}

-- How many legs have a key.
unfoldable pub occurrences : Text → List PricedSelection → ℕ
occurrences k [] = 0
occurrences k (l ∷ ls) =
    let rest = occurrences k ls in if text_eq (leg_key l) k then suc rest else rest

-- What the legs of a candidate have in common.
pub record Structured (priced : List PricedSelection) (options : GeneratorOptions) (c : Candidate)
    : Type 0 where
  pub least : max (or_default options.min_legs 2) 2 ≤ length c.legs
  pub most : length c.legs ≤ or_default options.max_legs 3
  pub from_priced :
      (l : PricedSelection) → In l c.legs → In l priced × (other_event options.event_id l ≡ false)
  pub one_event : (l : PricedSelection) → In l c.legs → l.event_id ≡ c.event_id
  pub one_period : (l : PricedSelection) → In l c.legs → l.selection.period ≡ c.period
  pub compatible : (a b : PricedSelection) → In a c.legs → In b c.legs → goes_with a b ≡ true
  pub once : (k : Text) → occurrences k c.legs ≤ 1

-- Legs that go with each other.
pub pairwise_compatible-In :
    (ls : List PricedSelection) {a b : PricedSelection}
    → pairwise_compatible ls ≡ true
    → In a ls
    → In b ls
    → goes_with a b ≡ true
unfolding pairwise_compatible
pairwise_compatible-In [] e i j = elim i [ ]
pairwise_compatible-In (l ∷ ls) e here here = families_compatible_refl l.selection.family
pairwise_compatible-In (l ∷ ls) e here (there j) = every-In (goes_with l) ls (ground arith) j
pairwise_compatible-In (l ∷ ls) {a} e (there i) here =
    families_compatible_sym a.selection.family l.selection.family
    ∙ every-In (goes_with l) ls (ground arith) i
pairwise_compatible-In (l ∷ ls) e (there i) (there j) = pairwise_compatible-In ls (ground arith) i j

module _ (locale_le : Text → Text → Bool) where
  take_new-made :
      (limit : ℕ) (seen : List Text) (list : List (List PricedSelection)) (c : Candidate)
      → In c (take_new locale_le limit seen list)
      → (combo : List PricedSelection) × In combo list
        × (combo_usable locale_le combo ≡ true)
        × (make_candidate locale_le combo ≡ some c)
  unfolding take_new
  take_new-made limit seen [] c i = elim i [ ]
  take_new-made limit seen (x ∷ rest) c i = elim (Option-cases (accept locale_le seen x)) [
    | inl e ↦
        let (combo, j, u, m) = take_new-made limit seen rest c (rw (take_new, e) at i) in
        (combo, there j, u, m)
    | inr (d, e) ↦
        let ok = accept-some locale_le seen x d e in
        elim (Bool-cases (leb limit (suc (length seen)))) [
          | inl k ↦ elim (In-cons (rw (take_new, e, k) at i)) [
            | inl h ↦ (x, here, ok.is_usable, ok.made ∙ ap some (sym h))
            | inr j ↦ elim j [ ]
          ]
          | inr k ↦ elim (In-cons (rw (take_new, e, k) at i)) [
            | inl h ↦ (x, here, ok.is_usable, ok.made ∙ ap some (sym h))
            | inr j ↦
                let (combo, j', u, m) = take_new-made limit (d.id ∷ seen) rest c j in
                (combo, there j', u, m)
          ]
        ]
  ]

  insert_leg-occurrences :
      (k : Text) (l : PricedSelection) (ls : List PricedSelection)
      → occurrences k (insert_leg locale_le l ls) ≡ occurrences k (l ∷ ls)
  unfolding insert_leg occurrences
  insert_leg-occurrences k l [] = refl
  insert_leg-occurrences k l (m ∷ ms) = elim (Bool-cases (locale_le l.id m.id)) [
    | inl e ↦ rw e refl
    | inr e ↦
        rw (e, insert_leg-occurrences k l ms)
          (swap (text_eq (leg_key m) k) (text_eq (leg_key l) k) _)
  ]
    where
      swap :
          (b c : Bool) (n : ℕ)
          → (if b then suc (if c then suc n else n) else (if c then suc n else n))
            ≡ (if c then suc (if b then suc n else n) else (if b then suc n else n))
      swap b c n = ground arith

  sort_legs-occurrences :
      (k : Text) (ls : List PricedSelection)
      → occurrences k (sort_legs locale_le ls) ≡ occurrences k ls
  unfolding sort_legs occurrences
  sort_legs-occurrences k [] = refl
  sort_legs-occurrences k (l ∷ ls) =
      insert_leg-occurrences k l (sort_legs locale_le ls)
      ∙ rw (occurrences, sort_legs-occurrences k ls) refl

  has_text-other :
      (k t : Text) (seen : List Text)
      → has_text t seen ≡ false
      → has_text k seen ≡ true
      → text_eq t k ≡ false
  has_text-other k t seen e f = elim (Bool-cases (text_eq t k)) [
    | inr x ↦ x
    | inl x ↦
        let same : has_text k seen ≡ false =
          subst (λ y. has_text y seen ≡ false) (text_eq-eq t k x) e in
        absurd (ground arith)
  ]

  -- Without a duplicate no key occurs twice, and none that was seen occurs.
  duplicate_from-once :
      (k : Text) (seen : List Text) (ls : List PricedSelection)
      → duplicate_from seen ls ≡ false
      → (has_text k seen ≡ true → occurrences k ls ≡ 0) × (occurrences k ls ≤ 1)
  unfolding duplicate_from occurrences
  duplicate_from-once k seen [] e = ((λ f. refl), omega arith)
  duplicate_from-once k seen (l ∷ ls) e =
      let rest = duplicate_from-once k (leg_key l ∷ seen) ls (ground arith) in
      elim (Bool-cases (text_eq (leg_key l) k)) [
        | inl t ↦
            let again : text_eq k (leg_key l) ≡ true =
              subst (λ y. text_eq k y ≡ true) (sym (text_eq-eq (leg_key l) k t)) (text_eq_refl k) in
            let none_left : occurrences k ls ≡ 0 = rest.0 (ground arith) in
            (
              (λ f.
                  let other = has_text-other k (leg_key l) seen (ground arith) f in
                  absurd (ground arith)),
              ground arith,
            )
        | inr t ↦ ((λ f. ground (arith, rest.0 (ground arith))), ground (arith, rest.1))
      ]

  -- The event and the period are those of the first leg.
  Headed : List PricedSelection → Candidate → Type 0
  Headed [] c = ⊥
  Headed (l ∷ ls) c =
      (c.legs ≡ l ∷ ls) × (c.event_id ≡ l.event_id) × (c.period ≡ l.selection.period)

  candidate_of-Headed :
      (ls : List PricedSelection) (c : Candidate) → candidate_of locale_le ls ≡ some c → Headed ls c
  unfolding candidate_of Headed
  candidate_of-Headed [] c e = ground arith
  candidate_of-Headed (l ∷ ls) c e = subst (Headed (l ∷ ls)) (some-same e) (refl, refl, refl)

  made-Structured :
      (priced : List PricedSelection) (options : GeneratorOptions) (combo : List PricedSelection)
      (c : Candidate)
      → Combined options.event_id
          (λ e. In e priced × (other_event options.event_id e ≡ false))
          (max (or_default options.min_legs 2) 2)
          (or_default options.max_legs 3)
          combo
      → combo_usable locale_le combo ≡ true
      → (legs : List PricedSelection) → legs ≡ sort_legs locale_le combo
      → Headed legs c
      → Structured priced options c
  unfolding Headed
  made-Structured priced options combo c h u [] s x = elim x [ ]
  made-Structured priced options combo c h u (l ∷ ls) s (e, ev, pe) =
      let all : c.legs ≡ sort_legs locale_le combo = e ∙ s in
      let back : (a : PricedSelection) → In a c.legs → In a combo =
        λ a i. sort_legs-In locale_le combo (subst (In a) all i) in
      let size : length c.legs ≡ length combo = ap length all ∙ sort_legs-length locale_le combo in
      let first : In l combo = back l (subst (In l) (sym e) here) in
      let split : (a : PricedSelection)
          → In a c.legs
          → (a.event_id ≡ l.event_id) × (a.selection.period ≡ l.selection.period) =
        λ a i.
          split_group_key a.event_id l.event_id a.selection.period l.selection.period
            ((h.legs a (back a i)).1 ∙ sym (h.legs l first).1) in
      record {
        least = omega (arith, size, h.least);
        most = omega (arith, size, h.most);
        from_priced = λ a i. (h.legs a (back a i)).0;
        one_event = λ a i. (split a i).0 ∙ sym ev;
        one_period = λ a i. (split a i).1 ∙ sym pe;
        compatible = λ a b i j. pairwise_compatible-In combo (ground arith) (back a i) (back b j);
        once = λ k.
            subst (λ x. occurrences k x ≤ 1) (sym all)
              (subst (λ n. n ≤ 1) (sym (sort_legs-occurrences k combo))
                (duplicate_from-once k [] combo (ground arith)).1);
      }

  -- A generated candidate has a number of legs within the bounds, all of them priced selections of one
  -- event, the requested one if any, and of one period; any two of its legs go together, and no
  -- selection occurs twice.
  pub generate_candidates-Structured :
      (priced : List PricedSelection) (options : GeneratorOptions) (c : Candidate)
      → In c (generated locale_le priced options)
      → Structured priced options c
  unfolding generate_candidates make_candidate
  generate_candidates-Structured priced options c i =
      let (combo, j, u, m) = take_new-made _ [] (combos priced options) c i in
      let taken = λ (e : PricedSelection). In e priced × (other_event options.event_id e ≡ false) in
      made-Structured priced options combo c
        (all_combos-Combined options.event_id taken _ _ _ combo
          (group_priced-Grouped options.event_id taken priced [] (λ e x t. (x, t)) tt) j)
        u (sort_legs locale_le combo) refl (candidate_of-Headed (sort_legs locale_le combo) c m)
