-- ===== src/Arbitrage/Generate/Each.antt =====
-- Each selection has its winner in bestPricePerSelection of candidates.ts.
use void.Base.{
  ◌≡◌, inl, inr, sym, subst, refl, Option, none, some, List, [], ◌∷◌, In, here, there, In-cons,
  Bool-cases, Option-cases,
}
use void.Base.Ratio.{IsProper}
use void.Arbitrage.Candidate.{PricedSelection, or_default}
use void.Arbitrage.Generate.{
  TextMap, leg_key, lookup, best_prices, winners_of, best_price_per_selection,
}
use void.Arbitrage.Generate.Best.{
  tried, tried_available, tried-In, best_prices-Best, no_entry, nothing,
}
use void.Arbitrage.Generate.Capped.{some-same}
use void.Arbitrage.Generate.Fitting.{Fits}
use void.Text.{Text, text_eq}
use void.Text.Equality.{text_eq-eq}

pub lookup-found {ℓ} :
    {A : Type ℓ} (k : Text) (a : A) (m : TextMap A) → lookup k m ≡ some a → In (k, a) m
unfolding lookup
lookup-found k a [] e = absurd cc
lookup-found k a ((j, b) ∷ m) e = elim (Bool-cases (text_eq j k)) [
  | inl t ↦
      let q : some b ≡ some a = rw t at e in
      subst (λ x. In x ((j, b) ∷ m)) (rw (text_eq-eq j k t, some-same q) refl) here
  | inr t ↦ let q : lookup k m ≡ some a = rw t at e in there (lookup-found k a m q)
]

winners_of-found :
    (m n : TextMap PricedSelection) (k : Text) (e : PricedSelection)
    → In (k, e) n
    → In (or_default (lookup k m) e) (winners_of m n)
unfolding winners_of
winners_of-found m [] k e i = elim i [ ]
winners_of-found m ((j, d) ∷ n) k e i = elim (In-cons i) [
  | inl q ↦
      subst
        (λ (x : Text × PricedSelection).
          In (or_default (lookup x.0 m) x.1) (winners_of m ((j, d) ∷ n)))
        (sym q) here
  | inr l ↦ there (winners_of-found m n k e l)
]

-- The key of what the maps hold under a key.
Fits-key :
    (ok all : List PricedSelection) (k : Text) (o : Option PricedSelection) (b : PricedSelection)
    → Fits ok k o
    → Fits all k (some b)
    → leg_key (or_default o b) ≡ k
unfolding Fits
Fits-key ok all k none b h g = g.1
Fits-key ok all k (some c) b h g = h.1

pub best_price_per_selection-each :
    (priced : List PricedSelection) (e : PricedSelection)
    → ((f : PricedSelection) → In f priced → IsProper f.odds)
    → In e priced
    → (w : PricedSelection) × In w (best_price_per_selection priced) × (leg_key w ≡ leg_key e)
unfolding best_price_per_selection Fits
best_price_per_selection-each priced e p i =
    let maps = best_prices priced [] [] in
    let (h, g) = best_prices-Best priced [] [] [] [] p no_entry no_entry nothing nothing in
    let k = leg_key e in
    elim (Option-cases (lookup k maps.1)) [
      | inl n ↦
          let none_fits : Fits (tried priced []) k none =
            subst (Fits (tried priced []) k) n (g.1 k) in
          absurd (none_fits e ((tried-In priced [] e).0 (inl i)) refl)
      | inr (b, s) ↦ (
        or_default (lookup k maps.0) b,
        winners_of-found maps.0 maps.1 k b (lookup-found k b maps.1 s),
        Fits-key (tried_available priced []) (tried priced []) k (lookup k maps.0) b (h.1 k)
            (subst (Fits (tried priced []) k) s (g.1 k)),
      )
    ]
