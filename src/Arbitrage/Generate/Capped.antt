-- ===== src/Arbitrage/Generate/Capped.antt =====
-- The cap on the candidates that candidates.ts generates, and their ids.
use void.Base.{
  ℕ, zero, suc, ◌+◌, ◌≤◌, ◌<◌, ◌≡◌, ◌≢◌, inl, inr, refl, subst, ap, ◌∙◌, sym, Bool, true, false,
  none, some, List, [], ◌∷◌, arith, length, get_elem?, leb, max, In, here, there, Bool-cases,
  Option-cases, In-cons,
}
use void.Arbitrage.Candidate.{Candidate, PricedSelection, or_default}
use void.Arbitrage.Generate.{
  GeneratorOptions, accept, combo_usable, make_candidate, take_new, generate_candidates, has_text,
  default_max_candidates, all_combos, group_priced,
}
use void.Text.{Text, text_eq}
use void.Text.Equality.{text_eq-eq, text_eq_refl}

pub some-same {ℓ} : {A : Type ℓ} {a b : A} → some a ≡ some b → a ≡ b
some-same e = cc

pub none-some {ℓ} : {A : Type ℓ} {a : A} → none ≢ some a
none-some e = cc

not_new : (t u : Text) (seen : List Text) → has_text t (u ∷ seen) ≡ false → t ≢ u
not_new t u seen n e =
    let same : text_eq t u ≡ true = subst (λ x. text_eq t x ≡ true) e (text_eq_refl t) in
    absurd (ground arith)

-- The cap, and the combinations that a run tries.
abbrev pub cap_of : GeneratorOptions → ℕ
cap_of options = or_default options.max_candidates default_max_candidates

abbrev pub combos : List PricedSelection → GeneratorOptions → List (List PricedSelection)
combos priced options =
    all_combos (or_default options.min_legs 2) (or_default options.max_legs 3)
      (group_priced options.event_id priced [])

module _ (locale_le : Text → Text → Bool) where
  pub record Accepted (seen : List Text) (combo : List PricedSelection) (c : Candidate)
      : Type 0 where
    pub is_usable : combo_usable locale_le combo ≡ true
    pub made : make_candidate locale_le combo ≡ some c
    pub fresh : has_text c.id seen ≡ false

  pub accept-some :
      (seen : List Text) (combo : List PricedSelection) (c : Candidate)
      → accept locale_le seen combo ≡ some c
      → Accepted seen combo c
  unfolding accept
  accept-some seen combo c e = elim (Bool-cases (combo_usable locale_le combo)) [
    | inr u ↦ absurd (ground arith)
    | inl u ↦ elim (Option-cases (make_candidate locale_le combo)) [
      | inl m ↦ absurd (ground arith)
      | inr (d, m) ↦ elim (Bool-cases (has_text d.id seen)) [
        | inl f ↦ absurd (ground arith)
        | inr f ↦
            let same : d ≡ c = ground arith in
            record {
              is_usable = u;
              made = m ∙ ap some same;
              fresh = subst (λ x. has_text x.id seen ≡ false) same f;
            }
      ]
    ]
  ]

  -- The ids are new to `seen` and to each other.
  Fresh : List Text → List Candidate → Type 0
  Fresh seen [] = Unit
  Fresh seen (c ∷ cs) = (has_text c.id seen ≡ false) × Fresh (c.id ∷ seen) cs

  -- What the loop guarantees, with `n` candidates before it: no more than the cap unless it was reached
  -- before, and new ids.
  record Collected (limit : ℕ) (seen : List Text) (cs : List Candidate) : Type 0 where
    capped : length cs + length seen ≤ max limit (suc (length seen))
    ids : Fresh seen cs

  take_new-Collected :
      (limit : ℕ) (seen : List Text) (combos : List (List PricedSelection))
      → Collected limit seen (take_new locale_le limit seen combos)
  unfolding take_new Fresh
  take_new-Collected limit seen [] = record { capped = omega arith; ids = tt }
  take_new-Collected limit seen (combo ∷ rest) = elim (Option-cases (accept locale_le seen combo)) [
    | inl e ↦ rw (take_new, e) (take_new-Collected limit seen rest)
    | inr (c, e) ↦
        let new = (accept-some seen combo c e).fresh in
        elim (Bool-cases (leb limit (suc (length seen)))) [
          | inl l ↦ rw (take_new, e, l) (record { capped = omega arith; ids = (new, tt) })
          | inr l ↦
              let later = take_new-Collected limit (c.id ∷ seen) rest in
              rw (take_new, e, l)
                (record { capped = ground (arith, later.capped); ids = (new, later.ids) })
        ]
  ]

  Fresh-get :
      (seen : List Text) (cs : List Candidate) (i : ℕ) (c : Candidate)
      → Fresh seen cs
      → get_elem? cs i ≡ some c
      → has_text c.id seen ≡ false
  unfolding Fresh
  Fresh-get seen [] i c f e = cc
  Fresh-get seen (d ∷ ds) zero c f e = subst (λ x. has_text x.id seen ≡ false) (some-same e) f.0
  Fresh-get seen (d ∷ ds) (suc i) c f e = ground (arith, Fresh-get (d.id ∷ seen) ds i c f.1 e)

  Fresh-injective :
      (seen : List Text) (cs : List Candidate) (i j : ℕ) (c d : Candidate)
      → Fresh seen cs
      → get_elem? cs i ≡ some c
      → get_elem? cs j ≡ some d
      → c.id ≡ d.id
      → i ≡ j
  unfolding Fresh
  Fresh-injective seen [] i j c d f p q e = cc
  Fresh-injective seen (b ∷ bs) zero zero c d f p q e = refl
  Fresh-injective seen (b ∷ bs) zero (suc j) c d f p q e = absurd (
      not_new d.id b.id seen (Fresh-get (b.id ∷ seen) bs j d f.1 q)
        (sym e ∙ ap (λ (x : Candidate). x.id) (sym (some-same p))))
  Fresh-injective seen (b ∷ bs) (suc i) zero c d f p q e = absurd (
      not_new c.id b.id seen (Fresh-get (b.id ∷ seen) bs i c f.1 p)
        (e ∙ ap (λ (x : Candidate). x.id) (sym (some-same q))))
  Fresh-injective seen (b ∷ bs) (suc i) (suc j) c d f p q e =
      ap suc (Fresh-injective (b.id ∷ seen) bs i j c d f.1 p q e)

  -- The candidates of a run.
  abbrev pub generated : List PricedSelection → GeneratorOptions → List Candidate
  generated priced options = generate_candidates locale_le priced options

  -- At most as many candidates as the cap are generated, or one where the cap is zero, and no two of
  -- them have the same id.
  pub generate_candidates-capped :
      (priced : List PricedSelection) (options : GeneratorOptions)
      → (length (generated priced options) ≤ max (cap_of options) 1)
        × ((i j : ℕ) (c d : Candidate)
            → get_elem? (generated priced options) i ≡ some c
            → get_elem? (generated priced options) j ≡ some d
            → c.id ≡ d.id
            → i ≡ j)
  unfolding generate_candidates
  generate_candidates-capped priced options =
      let h = take_new-Collected (cap_of options) [] (combos priced options) in
      (
        omega (arith, h.capped),
        (λ i j c d. Fresh-injective [] (generated priced options) i j c d h.ids),
      )

  accept-usable :
      (seen : List Text) (combo : List PricedSelection) (c : Candidate)
      → combo_usable locale_le combo ≡ true
      → make_candidate locale_le combo ≡ some c
      → has_text c.id seen ≡ false
      → accept locale_le seen combo ≡ some c
  unfolding accept
  accept-usable seen combo c u m n = rw (accept, u, m, n) refl

  -- Below the cap no combination is left out.
  take_new-all :
      (limit : ℕ) (seen : List Text) (list : List (List PricedSelection))
      (combo : List PricedSelection) (c : Candidate)
      → length (take_new locale_le limit seen list) + length seen < limit
      → In combo list
      → combo_usable locale_le combo ≡ true
      → make_candidate locale_le combo ≡ some c
      → has_text c.id seen ≡ false
      → (d : Candidate) × In d (take_new locale_le limit seen list) × (c.id ≡ d.id)
  unfolding take_new
  take_new-all limit seen [] combo c l i u m n = elim i [ ]
  take_new-all limit seen (x ∷ rest) combo c l i u m n =
      elim (Option-cases (accept locale_le seen x)) [
        | inl e ↦ elim (In-cons i) [
          | inl h ↦ absurd (
              none-some (
                sym e
                ∙ subst (λ y. accept locale_le seen y ≡ some c) h
                    (accept-usable seen combo c u m n)))
          | inr j ↦
              rw (take_new, e)
                (take_new-all limit seen rest combo c (rw (take_new, e) at l) j u m n)
        ]
        | inr (d, e) ↦ elim (Bool-cases (leb limit (suc (length seen)))) [
          | inl k ↦
              let short : 1 + length seen < limit = rw (take_new, e, k) at l in
              absurd (ground arith)
          | inr k ↦
              let more : suc (length (take_new locale_le limit (d.id ∷ seen) rest)) + length seen
                  < limit =
                rw (take_new, e, k) at l in
              rw (take_new, e, k)
                (elim (In-cons i) [
                  | inl h ↦ (
                    d,
                    here,
                    ap (λ (y : Candidate). y.id)
                        (some-same (
                          sym (
                            subst (λ y. accept locale_le seen y ≡ some c) h
                              (accept-usable seen combo c u m n))
                          ∙ e)),
                  )
                  | inr j ↦ elim (Bool-cases (text_eq c.id d.id)) [
                    | inl t ↦ (d, here, text_eq-eq c.id d.id t)
                    | inr t ↦
                        let new : has_text c.id (d.id ∷ seen) ≡ false = ground arith in
                        let (b, j', q) =
                          take_new-all limit (d.id ∷ seen) rest combo c (omega (arith, more)) j u m
                            new in
                        (b, there j', q)
                  ]
                ])
        ]
      ]

  -- Where fewer candidates than the cap are generated, each combo_usable combination of a group has its
  -- candidate, up to the id.
  pub generate_candidates_complete :
      (priced : List PricedSelection) (options : GeneratorOptions) (combo : List PricedSelection)
      (c : Candidate)
      → length (generated priced options) < cap_of options
      → In combo (combos priced options)
      → combo_usable locale_le combo ≡ true
      → make_candidate locale_le combo ≡ some c
      → (d : Candidate) × In d (generated priced options) × (c.id ≡ d.id)
  unfolding generate_candidates
  generate_candidates_complete priced options combo c l i u m =
      take_new-all (cap_of options) [] (combos priced options) combo c (omega arith) i u m refl
