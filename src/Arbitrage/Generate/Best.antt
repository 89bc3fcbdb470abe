-- ===== src/Arbitrage/Generate/Best.antt =====
-- The winners of bestPricePerSelection of candidates.ts.
use void.Base.{
  ◌≡◌, ◌≢◌, ◌⊎◌, inl, inr, ap, ◌∙◌, sym, subst, Bool, true, false, Option, none, some, List, [],
  ◌∷◌, if◌then◌else◌, In, here, there, In-cons, Bool-cases,
}
use void.Base.Ratio.{IsProper, AtMost}
use void.Arbitrage.Candidate.{PricedSelection, or_default}
use void.Arbitrage.Generate.{
  TextMap, leg_key, lookup, improve, best_prices, winners_of, best_price_per_selection,
  is_source_available,
}
use void.Text.{Text}
use void.Arbitrage.Generate.Keyed.{KeysApart, lookup-In}
use void.Arbitrage.Generate.Fitting.{Fits, Best, improve-Best}

-- The entries that the loop has tried, and those of them whose source is available.
pub tried : List PricedSelection → List PricedSelection → List PricedSelection
tried [] done = done
tried (e ∷ es) done = tried es (e ∷ done)

abbrev available : PricedSelection → Bool
available e = is_source_available e.source_status

with_available : PricedSelection → List PricedSelection → List PricedSelection
with_available e done = if available e then e ∷ done else done

pub tried_available : List PricedSelection → List PricedSelection → List PricedSelection
unfolding with_available
tried_available [] done = done
tried_available (e ∷ es) done = tried_available es (with_available e done)

IsProper-cons :
    (e : PricedSelection) (done : List PricedSelection)
    → IsProper e.odds
    → ((f : PricedSelection) → In f done → IsProper f.odds)
    → (f : PricedSelection) → In f (e ∷ done)
    → IsProper f.odds
IsProper-cons e done p q f i = elim (In-cons i) [
  | inl h ↦ subst (λ x. IsProper x.odds) (sym h) p
  | inr j ↦ q f j
]

true-false : true ≢ false
true-false e = cc

with_available-In :
    (e d : PricedSelection) (done : List PricedSelection)
    → (((e ≡ d) × (available e ≡ true)) ⊎ In e done → In e (with_available d done))
      × (In e (with_available d done) → ((e ≡ d) × (available e ≡ true)) ⊎ In e done)
unfolding with_available
with_available-In e d done = elim (Bool-cases (available d)) [
  | inl t ↦ rw t (
    (λ x. elim x [ inl y ↦ subst (λ z. In z (d ∷ done)) (sym y.0) here | inr j ↦ there j ]),
    (λ i. elim (In-cons i) [
      | inl q ↦ inl (q, subst (λ z. available z ≡ true) (sym q) t)
      | inr j ↦ inr j
    ]),
  )
  | inr t ↦ rw t (
    (λ x. elim x [ inl y ↦ absurd (true-false (sym y.1 ∙ ap available y.0 ∙ t)) | inr j ↦ j ]),
    (λ i. inr i),
  )
]

with_available-Best :
    (e : PricedSelection) (ok : List PricedSelection) (m : TextMap PricedSelection)
    → ((f : PricedSelection) → In f (e ∷ ok) → IsProper f.odds)
    → Best ok m
    → Best (with_available e ok) (if available e then improve e m else m)
unfolding with_available
with_available-Best e ok m p h = elim (Bool-cases (available e)) [
  | inl t ↦ rw t (improve-Best e ok m p h)
  | inr t ↦ rw t h
]

pub best_prices-Best :
    (es done ok : List PricedSelection) (m n : TextMap PricedSelection)
    → ((e : PricedSelection) → In e es → IsProper e.odds)
    → ((e : PricedSelection) → In e done → IsProper e.odds)
    → ((e : PricedSelection) → In e ok → IsProper e.odds)
    → Best ok m
    → Best done n
    → let maps = best_prices es m n in
      Best (tried_available es ok) maps.0 × Best (tried es done) maps.1
unfolding best_prices tried tried_available with_available
best_prices-Best [] done ok m n p q r h g = (h, g)
best_prices-Best (e ∷ es) done ok m n p q r h g =
    let more : (f : PricedSelection) → In f (e ∷ done) → IsProper f.odds =
      λ f i. IsProper-cons e done (p e here) q f i in
    let overall = improve-Best e done n more g in
    best_prices-Best es (e ∷ done) (with_available e ok) (if available e then improve e m else m)
      (improve e n) (λ f i. p f (there i)) more
      (λ f i. elim ((with_available-In f e ok).1 i) [
        | inl x ↦ subst (λ y. IsProper y.odds) (sym x.0) (p e here)
        | inr j ↦ r f j
      ])
      (with_available-Best e ok m (IsProper-cons e ok (p e here) r) h) overall

pub tried-In :
    (es done : List PricedSelection) (e : PricedSelection)
    → (In e es ⊎ In e done → In e (tried es done)) × (In e (tried es done) → In e es ⊎ In e done)
unfolding tried
tried-In [] done e = ((λ x. elim x [ inl i ↦ elim i [ ] | inr j ↦ j ]), λ i. inr i)
tried-In (d ∷ es) done e =
    let rest = tried-In es (d ∷ done) e in
    (
      (λ x. rest.0 (elim x [
        | inr j ↦ inr (there j)
        | inl i ↦ elim (In-cons i) [
          | inl q ↦ inr (subst (λ y. In y (d ∷ done)) (sym q) here)
          | inr j ↦ inl j
        ]
      ])),
      (λ i. elim (rest.1 i) [
        | inl j ↦ inl (there j)
        | inr j ↦ elim (In-cons j) [
          | inl q ↦ inl (subst (λ y. In y (d ∷ es)) (sym q) here)
          | inr k ↦ inr k
        ]
      ]),
    )

tried_available-In :
    (es done : List PricedSelection) (e : PricedSelection)
    → ((In e es × (available e ≡ true)) ⊎ In e done → In e (tried_available es done))
      × (In e (tried_available es done) → (In e es × (available e ≡ true)) ⊎ In e done)
unfolding tried_available
tried_available-In [] done e = ((λ x. elim x [ inl i ↦ elim i.0 [ ] | inr j ↦ j ]), λ i. inr i)
tried_available-In (d ∷ es) done e =
    let rest = tried_available-In es (with_available d done) e in
    let one = with_available-In e d done in
    (
      (λ x. rest.0 (elim x [
        | inr j ↦ inr (one.0 (inr j))
        | inl i ↦ elim (In-cons i.0) [ inl q ↦ inr (one.0 (inl (q, i.1))) | inr j ↦ inl (j, i.1) ]
      ])),
      (λ i. elim (rest.1 i) [
        | inl j ↦ inl (there j.0, j.1)
        | inr j ↦ elim (one.1 j) [
          | inl q ↦ inl (subst (λ y. In y (d ∷ es)) (sym q.0) here, q.1)
          | inr k ↦ inr k
        ]
      ]),
    )

-- A winner pays at least as much as any entry of its selection that is from an available source; and
-- if it is not itself from one, no entry of its selection is, and it pays at least as much as any.
pub record IsBest (priced : List PricedSelection) (w : PricedSelection) : Type 0 where
  pub from_priced : In w priced
  pub beats_available :
      (e : PricedSelection)
      → In e priced
      → leg_key e ≡ leg_key w
      → is_source_available e.source_status ≡ true
      → AtMost e.odds w.odds
  pub last_resort :
      is_source_available w.source_status ≡ false
      → (e : PricedSelection) → In e priced
      → leg_key e ≡ leg_key w
      → (is_source_available e.source_status ≡ false) × AtMost e.odds w.odds

pub no_entry : (e : PricedSelection) → In e [] → IsProper e.odds
no_entry e x = elim x [ ]

pub nothing : Best [] []
unfolding KeysApart Fits lookup
nothing = (tt, λ k e x. elim x [ ])

module _ (priced : List PricedSelection) where
  abbrev all : List PricedSelection
  all = tried priced []

  abbrev ok : List PricedSelection
  ok = tried_available priced []

  ok-available : (e : PricedSelection) → In e ok → In e priced × (available e ≡ true)
  ok-available e i = elim ((tried_available-In priced [] e).1 i) [ inl x ↦ x | inr j ↦ elim j [ ] ]

  all-priced : (e : PricedSelection) → In e all → In e priced
  all-priced e i = elim ((tried-In priced [] e).1 i) [ inl x ↦ x | inr j ↦ elim j [ ] ]

  winner-IsBest :
      (k : Text) (o : Option PricedSelection) (e : PricedSelection)
      → Fits ok k o
      → Fits all k (some e)
      → IsBest priced (or_default o e)
  unfolding Fits
  winner-IsBest k (some b) e h g =
      let own = ok-available b h.0 in
      record {
        from_priced = own.0;
        beats_available =
            λ f i q a. h.2 f ((tried_available-In priced [] f).0 (inl (i, a))) (q ∙ h.1);
        last_resort = λ t. absurd (true-false (sym own.1 ∙ t));
      }
  winner-IsBest k none e h g = record {
    from_priced = all-priced e g.0;
    beats_available =
        λ f i q a. absurd (h f ((tried_available-In priced [] f).0 (inl (i, a))) (q ∙ g.1));
    last_resort = λ t f i q. (
      elim (Bool-cases (available f)) [
        | inl a ↦ absurd (h f ((tried_available-In priced [] f).0 (inl (i, a))) (q ∙ g.1))
        | inr a ↦ a
      ],
      g.2 f ((tried-In priced [] f).0 (inl i)) (q ∙ g.1),
    );
  }

  winners_of-In :
      (m n : TextMap PricedSelection) (w : PricedSelection)
      → In w (winners_of m n)
      → (k : Text) × (e : PricedSelection) × In (k, e) n × (w ≡ or_default (lookup k m) e)
  unfolding winners_of
  winners_of-In m [] w i = elim i [ ]
  winners_of-In m ((k, e) ∷ n) w i = elim (In-cons i) [
    | inl q ↦ (k, e, here, q)
    | inr j ↦ let (k', e', i', q) = winners_of-In m n w j in (k', e', there i', q)
  ]

  -- Each winner of bestPricePerSelection is the best price of its selection, where all the odds are
  -- numbers: it is one of the entries, it pays at least as much as each entry of the selection from an
  -- available source, and where it is not from one, no entry of the selection is, and it pays at
  -- least as much as each.
  pub best_price_per_selection-IsBest :
      (w : PricedSelection)
      → ((e : PricedSelection) → In e priced → IsProper e.odds)
      → In w (best_price_per_selection priced)
      → IsBest priced w
  unfolding best_price_per_selection
  best_price_per_selection-IsBest w p i =
      let maps = best_prices priced [] [] in
      let (h, g) = best_prices-Best priced [] [] [] [] p no_entry no_entry nothing nothing in
      let (k, e, j, q) = winners_of-In maps.0 maps.1 w i in
      subst (IsBest priced) (sym q) (
        winner-IsBest k (lookup k maps.0) e (h.1 k)
          (subst (Fits all k) (lookup-In k e maps.1 g.0 j) (g.1 k)))
