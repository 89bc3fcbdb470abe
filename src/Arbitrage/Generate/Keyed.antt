-- ===== src/Arbitrage/Generate/Keyed.antt =====
-- Maps from strings of candidates.ts, with each key once.
use void.Base.{
  ◌≡◌, inl, inr, refl, ap, ◌∙◌, sym, subst, true, false, none, some, [], ◌∷◌, arith, if◌then◌else◌,
  In, In-cons, Bool-cases,
}
use void.Arbitrage.Generate.{TextMap, lookup, put}
use void.Arbitrage.Generate.Capped.{none-some}
use void.Text.{Text, text_eq}
use void.Text.Equality.{text_eq-eq, text_eq_refl}

module _ {ℓ} {A : Type ℓ} where
  pub lookup-put :
      (k j : Text) (a : A) (m : TextMap A)
      → lookup k (put j a m) ≡ (if text_eq j k then some a else lookup k m)
  unfolding lookup put
  lookup-put k j a [] = refl
  lookup-put k j a ((i, b) ∷ m) = elim (Bool-cases (text_eq i j)) [
    | inl e ↦ rw (e, text_eq-eq i j e) (ground arith)
    | inr e ↦ elim (Bool-cases (text_eq i k)) [
      | inr f ↦ rw (e, f) (lookup-put k j a m)
      | inl f ↦ let other : text_eq j k ≡ false = other_key i j k e f in rw (e, f, other) refl
    ]
  ]
    where
      other_key : (i j k : Text) → text_eq i j ≡ false → text_eq i k ≡ true → text_eq j k ≡ false
      other_key i j k e f = elim (Bool-cases (text_eq j k)) [
        | inr t ↦ t
        | inl t ↦
            let same : text_eq i j ≡ true =
              subst (λ x. text_eq i x ≡ true) (text_eq-eq i k f ∙ sym (text_eq-eq j k t))
                (text_eq_refl i) in
            absurd (ground arith)
      ]

  -- Each key stands once.
  unfoldable pub KeysApart : TextMap A → Type ℓ
  KeysApart [] = Unit
  KeysApart ((k, a) ∷ m) = (lookup k m ≡ none) × KeysApart m

  pub put-KeysApart : (j : Text) (a : A) (m : TextMap A) → KeysApart m → KeysApart (put j a m)
  unfolding put KeysApart lookup
  put-KeysApart j a [] h = (refl, tt)
  put-KeysApart j a ((i, b) ∷ m) h = elim (Bool-cases (text_eq i j)) [
    | inl e ↦ rw e h
    | inr e ↦
        rw e (lookup-put i j a m ∙ ground (arith, h.0, text_eq_swap i j), put-KeysApart j a m h.1)
  ]
    where
      text_eq_swap : (i j : Text) → text_eq j i ≡ text_eq i j
      text_eq_swap i j = void.Text.Equality.text_eq_sym j i

  pub lookup-In :
      (k : Text) (a : A) (m : TextMap A) → KeysApart m → In (k, a) m → lookup k m ≡ some a
  unfolding KeysApart lookup
  lookup-In k a [] h i = elim i [ ]
  lookup-In k a ((j, b) ∷ m) h i = elim (In-cons i) [
    | inl q ↦
        let same : text_eq j k ≡ true =
          subst (λ x. text_eq j x ≡ true) (sym (ap (λ (x : Text × A). x.0) q)) (text_eq_refl j) in
        rw same (ap some (sym (ap (λ (x : Text × A). x.1) q)))
    | inr n ↦ elim (Bool-cases (text_eq j k)) [
      | inl e ↦ absurd (
          none-some
            (sym (subst (λ x. lookup x m ≡ none) (text_eq-eq j k e) h.0) ∙ lookup-In k a m h.1 n))
      | inr e ↦ rw e (lookup-In k a m h.1 n)
    ]
  ]
