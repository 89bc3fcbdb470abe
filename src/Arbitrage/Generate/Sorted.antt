-- ===== src/Arbitrage/Generate/Sorted.antt =====
-- The sorted legs of a candidate of candidates.ts.
use void.Base.{
  suc, ◌≡◌, ◌⊎◌, inl, inr, refl, sym, subst, Bool, List, [], ◌∷◌, arith, length, In, here, there,
  In-cons, Bool-cases,
}
use void.Arbitrage.Candidate.{PricedSelection}
use void.Arbitrage.Generate.{sort_legs, insert_leg}
use void.Text.{Text}

-- Sorting keeps the legs.
module _ (locale_le : Text → Text → Bool) where
  pub insert_leg-In :
      (l : PricedSelection) (ks : List PricedSelection) {a : PricedSelection}
      → In a (insert_leg locale_le l ks)
      → (a ≡ l) ⊎ In a ks
  unfolding insert_leg
  insert_leg-In l [] i = In-cons i
  insert_leg-In l (k ∷ ks) {a} i = elim (Bool-cases (locale_le l.id k.id)) [
    | inl e ↦ In-cons (rw e at i)
    | inr e ↦ elim (In-cons (rw e at i)) [
      | inl h ↦ inr (subst (λ x. In x (k ∷ ks)) (sym h) here)
      | inr j ↦ elim (insert_leg-In l ks j) [ inl h ↦ inl h | inr h ↦ inr (there h) ]
    ]
  ]

  insert_leg-length :
      (l : PricedSelection) (ks : List PricedSelection)
      → length (insert_leg locale_le l ks) ≡ suc (length ks)
  unfolding insert_leg
  insert_leg-length l [] = refl
  insert_leg-length l (k ∷ ks) = ground (arith, insert_leg-length l ks)

  pub sort_legs-In :
      (ls : List PricedSelection) {a : PricedSelection} → In a (sort_legs locale_le ls) → In a ls
  unfolding sort_legs
  sort_legs-In [] i = i
  sort_legs-In (l ∷ ls) {a} i = elim (insert_leg-In l (sort_legs locale_le ls) i) [
    | inl h ↦ subst (λ x. In x (l ∷ ls)) (sym h) here
    | inr j ↦ there (sort_legs-In ls j)
  ]

  pub sort_legs-length : (ls : List PricedSelection) → length (sort_legs locale_le ls) ≡ length ls
  unfolding sort_legs
  sort_legs-length [] = refl
  sort_legs-length (l ∷ ls) =
      omega (arith, insert_leg-length l (sort_legs locale_le ls), sort_legs-length ls)
