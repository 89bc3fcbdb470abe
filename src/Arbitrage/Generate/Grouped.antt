-- ===== src/Arbitrage/Generate/Grouped.antt =====
-- The groups of priced selections of candidates.ts, and their combinations.
use void.Base.{
  ℕ, zero, suc, ◌+◌, ◌-◌, ◌≤◌, ◌<◌, ◌≡◌, inl, inr, refl, sym, subst, false, Option, List, [], ◌∷◌,
  arith, length, max, min, In, here, there, In-append, In-cons, All, Bool-cases,
}
use void.Arbitrage.Candidate.{PricedSelection}
use void.Arbitrage.Combos.{combinations}
use void.Arbitrage.Combos.Chosen.{sublists-In, combinations-sublists}
use void.Arbitrage.Generate.{all_combos, combos_of, group_priced, group_key, other_event}
use void.Arbitrage.Report.{Groups, push_group}
use void.Text.{Text, text_eq}
use void.Text.Equality.{text_eq-eq}

-- All legs of a group are of one key, and have what each priced entry has that is taken.
module _ (event : Option Text) (P : PricedSelection → Type 0) where
  abbrev pub Grouped : Text × List PricedSelection → Type 0
  Grouped g = (e : PricedSelection) → In e g.1 → P e × (group_key e ≡ g.0)

  push_group-Grouped :
      (e : PricedSelection) (gs : Groups PricedSelection)
      → P e
      → All Grouped gs
      → All Grouped (push_group (group_key e) e gs)
  unfolding push_group
  push_group-Grouped e [] p h = (
    (λ a i. elim (In-cons i) [
      | inl q ↦ subst (λ x. P x × (group_key x ≡ group_key e)) (sym q) (p, refl)
      | inr j ↦ elim j [ ]
    ]),
    tt,
  )
  push_group-Grouped e ((k, g) ∷ gs) p h = elim (Bool-cases (text_eq k (group_key e))) [
    | inl t ↦ rw t (
      (λ a i. elim (In-append g i) [
        | inl j ↦ h.0 a j
        | inr j ↦ elim (In-cons j) [
          | inl q ↦
              subst (λ x. P x × (group_key x ≡ k)) (sym q) (p, sym (text_eq-eq k (group_key e) t))
          | inr z ↦ elim z [ ]
        ]
      ]),
      h.1,
    )
    | inr t ↦ rw t (h.0, push_group-Grouped e gs p h.1)
  ]

  pub group_priced-Grouped :
      (es : List PricedSelection) (gs : Groups PricedSelection)
      → ((e : PricedSelection) → In e es → other_event event e ≡ false → P e)
      → All Grouped gs
      → All Grouped (group_priced event es gs)
  unfolding group_priced
  group_priced-Grouped [] gs p h = h
  group_priced-Grouped (e ∷ es) gs p h =
      group_priced-Grouped es _ (λ a i. p a (there i))
        (elim (Bool-cases (other_event event e)) [
          | inl t ↦ rw t h
          | inr t ↦ rw t (push_group-Grouped e gs (p e here t) h)
        ])

  -- A combination: its size, and its legs.
  pub record Combined (low high : ℕ) (combo : List PricedSelection) : Type 0 where
    pub least : low ≤ length combo
    pub most : length combo ≤ high
    pub key : Text
    pub legs : (e : PricedSelection) → In e combo → P e × (group_key e ≡ key)

  combos_of-Combined :
      (key : Text) (group : List PricedSelection) (low size n : ℕ) (combo : List PricedSelection)
      → Grouped (key, group)
      → low ≤ size
      → In combo (combos_of group size n)
      → Combined low (size + n - 1) combo
  unfolding combos_of
  combos_of-Combined key group low size zero combo h l i = elim i [ ]
  combos_of-Combined key group low size (suc n) combo h l i =
      elim (In-append (combinations group size) i) [
        | inl j ↦
            let (same, entries) =
              sublists-In group size combo
                (subst (In combo) (combinations-sublists group size) j) in
            record {
              least = omega (arith, same);
              most = omega (arith, same);
              key = key;
              legs = λ e m. h e (entries e m);
            }
        | inr j ↦
            let rest = combos_of-Combined key group low (suc size) n combo h (omega arith) j in
            record {
              least = rest.least;
              most = omega (arith, rest.most);
              key = rest.key;
              legs = rest.legs;
            }
      ]

  combos_of-some :
      (group : List PricedSelection) (size n : ℕ) (combo : List PricedSelection)
      → In combo (combos_of group size n)
      → 0 < n
  unfolding combos_of
  combos_of-some group size zero combo i = elim i [ ]
  combos_of-some group size (suc n) combo i = omega arith

  pub all_combos-Combined :
      (min_legs max_legs : ℕ) (gs : Groups PricedSelection) (combo : List PricedSelection)
      → All Grouped gs
      → In combo (all_combos min_legs max_legs gs)
      → Combined (max min_legs 2) max_legs combo
  unfolding all_combos
  all_combos-Combined min_legs max_legs [] combo h i = elim i [ ]
  all_combos-Combined min_legs max_legs ((key, group) ∷ gs) combo h i =
      let size = max min_legs 2 in
      let n = suc (min max_legs (length group)) - size in
      elim (In-append (combos_of group size n) i) [
        | inr j ↦ all_combos-Combined min_legs max_legs gs combo h.1 j
        | inl j ↦
            let some_size = combos_of-some group size n combo j in
            let c = combos_of-Combined key group size size n combo h.0 (omega arith) j in
            record {
              least = c.least;
              most = omega (arith, c.most, some_size);
              key = c.key;
              legs = c.legs;
            }
      ]
