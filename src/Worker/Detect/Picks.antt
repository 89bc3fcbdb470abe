-- ===== src/Worker/Detect/Picks.antt =====
-- The picks of detect.ts: at ties a bookmaker that is not taken yet, at the best price.
use void.Base.{
  ◌≡◌, inl, inr, refl, ap, ◌∙◌, sym, subst, true, false, Bool, Option, none, some, List, [], ◌∷◌,
  ◌&&◌, arith, In, here, there, In-cons, In-append, In-append_left, In-append_right, All-In,
  Bool-cases, Option-cases,
}
use void.Base.Ratio.{IsProper, AtMost, AtMost-trans, ◌≈◌}
use void.Domain.Names.{family_name, type_name, period_name, participant_name, outcome_name}
use void.Settlement.Selection.{SettleableSelection}
use void.Arbitrage.Candidate.{PricedSelection}
use void.Arbitrage.Generate.{
  leg_key, group_key, has_text, best_price_per_selection, group_priced, is_source_available, lookup,
}
use void.Arbitrage.Generate.Best.{IsBest, best_price_per_selection-IsBest}
use void.Arbitrage.Generate.Each.{lookup-found, best_price_per_selection-each}
use void.Arbitrage.Generate.Capped.{some-same}
use void.Arbitrage.Generate.Grouped.{group_priced-Grouped}
use void.Arbitrage.Generate.Keyed.{KeysApart, lookup-In}
use void.Arbitrage.Report.{Groups, or_dash, selection_key}
use void.Text.{Text}
use void.Text.Equality.{text_eq-eq}
use void.Worker.Detect.{
  find, same_fields, same_or_null, name_or_null, same_selection, same_odds, tied, tied_available,
  tie_of, pick_for, picks_for, picks_of_groups, best_price_per_generation_group,
}
use void.Worker.Detect.Places.{Placed, group_priced-KeysApart, group_priced-Placed}

find-some {ℓ} :
    {A : Type ℓ} (p : A → Bool) (xs : List A) (a : A) → find p xs ≡ some a → In a xs × (p a ≡ true)
unfolding find
find-some p [] a e = absurd cc
find-some p (x ∷ xs) a e = elim (Bool-cases (p x)) [
  | inl t ↦
      let q : some x ≡ some a = rw t at e in
      let same : x ≡ a = cc in
      (subst (λ y. In y (x ∷ xs)) same here, subst (λ y. p y ≡ true) same t)
  | inr t ↦
      let q : find p xs ≡ some a = rw t at e in
      let rest = find-some p xs a q in (there rest.0, rest.1)
]

same_or_null-eq {ℓ} :
    {A : Type ℓ} (name : A → Text) (a b : Option A)
    → same_or_null (name_or_null name a) (name_or_null name b) ≡ true
    → or_dash name a ≡ or_dash name b
same_or_null-eq name none none e = refl
same_or_null-eq name none (some b) e = absurd cc
same_or_null-eq name (some a) none e = absurd cc
same_or_null-eq name (some a) (some b) e = text_eq-eq (name a) (name b) e

line-eq : (a b : Option Text) → same_or_null a b ≡ true → or_dash (λ t. t) a ≡ or_dash (λ t. t) b
line-eq none none e = refl
line-eq none (some b) e = absurd cc
line-eq (some a) none e = absurd cc
line-eq (some a) (some b) e = text_eq-eq a b e

both : (a b : Bool) → (a && b) ≡ true → (a ≡ true) × (b ≡ true)
both true true e = (refl, refl)
both true false e = absurd cc
both false b e = absurd cc

key_eq :
    (a b : SettleableSelection)
    → family_name a.family ≡ family_name b.family
    → type_name a.market_type ≡ type_name b.market_type
    → period_name a.period ≡ period_name b.period
    → or_dash participant_name a.participant ≡ or_dash participant_name b.participant
    → or_dash (λ t. t) a.line ≡ or_dash (λ t. t) b.line
    → outcome_name a.outcome ≡ outcome_name b.outcome
    → selection_key a ≡ selection_key b
unfolding selection_key
key_eq a b p q r s t u = rw (p, q, r, s, t, u) refl

-- Selections that agree in their fields have one key.
same_fields-key :
    (a b : SettleableSelection) → same_fields a b ≡ true → selection_key a ≡ selection_key b
unfolding same_fields
same_fields-key a b e =
    let (e₅, outcome) = both _ _ e in
    let (e₄, line) = both _ _ e₅ in
    let (e₃, side) = both _ _ e₄ in
    let (e₂, period) = both _ _ e₃ in
    let (family, type) = both _ _ e₂ in
    key_eq a b (text_eq-eq _ _ family) (text_eq-eq _ _ type) (text_eq-eq _ _ period)
      (same_or_null-eq participant_name a.participant b.participant side)
      (line-eq a.line b.line line) (text_eq-eq _ _ outcome)

-- An entry of a group that pays what a winner does, for its selection.
pub record Ties (group : List PricedSelection) (winner pick : PricedSelection) : Type 0 where
  pub member : In pick group
  pub pays : pick.odds ≈ winner.odds
  pub key : leg_key pick ≡ leg_key winner

tied-Ties :
    (group : List PricedSelection) (taken : List Text) (w e : PricedSelection)
    → In e group
    → tied taken w e ≡ true
    → Ties group w e
tied-Ties group taken w e i t =
    let (odds_and_new, same) = both _ (same_selection e w) t in
    let odds = (both (same_odds e.odds w.odds) _ odds_and_new).0 in
    record {
      member = i;
      pays = ground (arith, odds);
      key = same_fields-key e.selection w.selection same;
    }

tie_of-Ties :
    (group : List PricedSelection) (taken : List Text) (w e : PricedSelection)
    → tie_of group taken w ≡ some e
    → Ties group w e
unfolding tie_of
tie_of-Ties group taken w e q = elim (Option-cases (find (tied_available taken w) group)) [
  | inl n ↦
      let r : find (tied taken w) group ≡ some e = rw n at q in
      let (i, t) = find-some (tied taken w) group e r in tied-Ties group taken w e i t
  | inr (a, s) ↦
      let r : some a ≡ some e = rw s at q in
      let same : a ≡ e = cc in
      let (i, t) = find-some (tied_available taken w) group a s in
      subst (Ties group w) same (tied-Ties group taken w a i (both _ _ t).0)
]

pick_for-Ties :
    (group : List PricedSelection) (taken : List Text) (w : PricedSelection)
    → In w group
    → Ties group w (pick_for group taken w)
unfolding pick_for
pick_for-Ties group taken w i =
    let own : Ties group w w = record { member = i; pays = refl; key = refl } in
    elim (Bool-cases (has_text w.bookmaker taken)) [
      | inr t ↦ rw t own
      | inl t ↦ elim (Option-cases (tie_of group taken w)) [
        | inl n ↦ rw (t, n) own
        | inr (e, q) ↦ rw (t, q) (tie_of-Ties group taken w e q)
      ]
    ]

-- Each pick ties with a winner, and each winner has its pick, in the order of the winners.
picks_for-Ties :
    (group : List PricedSelection) (taken : List Text) (ws : List PricedSelection)
    (p : PricedSelection)
    → ((w : PricedSelection) → In w ws → In w group)
    → In p (picks_for group taken ws)
    → (w : PricedSelection) × In w ws × Ties group w p
unfolding picks_for
picks_for-Ties group taken [] p h i = elim i [ ]
picks_for-Ties group taken (w ∷ ws) p h i = elim (In-cons i) [
  | inl q ↦ (w, here, subst (Ties group w) (sym q) (pick_for-Ties group taken w (h w here)))
  | inr j ↦
      let (v, k, t) =
        picks_for-Ties group ((pick_for group taken w).bookmaker ∷ taken) ws p
          (λ x y. h x (there y)) j in
      (v, there k, t)
]

picks_for-each :
    (group ws : List PricedSelection) (taken : List Text) (w : PricedSelection)
    → ((v : PricedSelection) → In v ws → In v group)
    → In w ws
    → (p : PricedSelection) × In p (picks_for group taken ws) × (leg_key p ≡ leg_key w)
unfolding picks_for
picks_for-each group [] taken w h i = elim i [ ]
picks_for-each group (v ∷ ws) taken w h i = elim (In-cons i) [
  | inl q ↦ (
    pick_for group taken v,
    here,
    (pick_for-Ties group taken v (h v here)).key ∙ ap leg_key (sym q),
  )
  | inr j ↦
      let (p, k, e) =
        picks_for-each group ws ((pick_for group taken v).bookmaker ∷ taken) w
          (λ x y. h x (there y)) j in
      (p, there k, e)
]

picks_of_groups-each :
    (gs : Groups PricedSelection) (k : Text) (g : List PricedSelection) (p : PricedSelection)
    → In (k, g) gs
    → In p (picks_for g [] (best_price_per_selection g))
    → In p (picks_of_groups gs)
unfolding picks_of_groups
picks_of_groups-each [] k g p m i = elim m [ ]
picks_of_groups-each ((j, h) ∷ gs) k g p m i = elim (In-cons m) [
  | inl q ↦ In-append_left (picks_of_groups gs) (
      subst
        (λ (x : Text × List PricedSelection).
          In p (picks_for x.1 [] (best_price_per_selection x.1)))
        q i)
  | inr n ↦
      In-append_right (picks_for h [] (best_price_per_selection h))
        (picks_of_groups-each gs k g p n i)
]

picks_of_groups-In :
    (gs : Groups PricedSelection) (p : PricedSelection)
    → In p (picks_of_groups gs)
    → (k : Text) × (g : List PricedSelection) × In (k, g) gs
      × In p (picks_for g [] (best_price_per_selection g))
unfolding picks_of_groups
picks_of_groups-In [] p i = elim i [ ]
picks_of_groups-In ((k, g) ∷ gs) p i =
    elim (In-append (picks_for g [] (best_price_per_selection g)) i) [
      | inl j ↦ (k, g, here, j)
      | inr j ↦ let (k', g', m, n) = picks_of_groups-In gs p j in (k', g', there m, n)
    ]

-- A priced entry that pays at least as much as each priced entry of its event, period and selection
-- from an available source.
pub record IsPick (priced : List PricedSelection) (p : PricedSelection) : Type 0 where
  pub from_priced : In p priced
  pub beats_available :
      (e : PricedSelection)
      → In e priced
      → group_key e ≡ group_key p
      → leg_key e ≡ leg_key p
      → is_source_available e.source_status ≡ true
      → AtMost e.odds p.odds

Ties-IsPick :
    (priced : List PricedSelection) (k : Text) (g : List PricedSelection) (w p : PricedSelection)
    → ((e : PricedSelection) → In e priced → IsProper e.odds)
    → ((e : PricedSelection) → In e g → In e priced × (group_key e ≡ k))
    → ((e : PricedSelection) → In e priced → group_key e ≡ k → In e g)
    → In w g
    → IsBest g w
    → Ties g w p
    → IsPick priced p
Ties-IsPick priced k g w p proper inside outside i best t = record {
  from_priced = (inside p t.member).0;
  beats_available = λ e j q r a.
      AtMost-trans e.odds w.odds p.odds (proper w (inside w i).0)
        (best.beats_available e (outside e j (q ∙ (inside p t.member).1)) (r ∙ t.key) a)
        (omega (arith, t.pays));
}

-- The group of a key holds every priced entry of the key.
group_priced-In :
    (priced : List PricedSelection) (k : Text) (g : List PricedSelection)
    → In (k, g) (group_priced none priced [])
    → (e : PricedSelection) → In e priced
    → group_key e ≡ k
    → In e g
unfolding Placed KeysApart
group_priced-In priced k g m e i q =
    let gs = group_priced none priced [] in
    let (h, f, j) = group_priced-Placed priced [] e i in
    let own : lookup k gs ≡ some g = lookup-In k g gs (group_priced-KeysApart priced [] tt) m in
    let same : some h ≡ some g = sym f ∙ ap (λ x. lookup x gs) q ∙ own in
    subst (In e) (some-same same) j

module _ (priced : List PricedSelection)
    (proper : (e : PricedSelection) → In e priced → IsProper e.odds) where
  abbrev groups : Groups PricedSelection
  groups = group_priced none priced []

  -- A group has the priced entries of its key, and no others.
  inside :
      (k : Text) (g : List PricedSelection)
      → In (k, g) groups
      → (e : PricedSelection) → In e g
      → In e priced × (group_key e ≡ k)
  inside k g m = All-In _ m (group_priced-Grouped none (λ e. In e priced) priced [] (λ e j o. j) tt)

  best :
      (k : Text) (g : List PricedSelection) (w : PricedSelection)
      → In (k, g) groups
      → In w (best_price_per_selection g)
      → IsBest g w
  best k g w m j = best_price_per_selection-IsBest g w (λ e l. proper e (inside k g m e l).0) j

  picked : (p : PricedSelection) → In p (best_price_per_generation_group priced) → IsPick priced p
  unfolding best_price_per_generation_group
  picked p i =
      let (k, g, m, n) = picks_of_groups-In groups p i in
      let (w, j, t) =
        picks_for-Ties g [] (best_price_per_selection g) p (λ v l. (best k g v m l).from_priced)
          n in
      Ties-IsPick priced k g w p proper (inside k g m) (group_priced-In priced k g m)
        (best k g w m j).from_priced (best k g w m j) t

  each_picked :
      (e : PricedSelection)
      → In e priced
      → (p : PricedSelection) × In p (best_price_per_generation_group priced)
        × (group_key p ≡ group_key e)
        × (leg_key p ≡ leg_key e)
  unfolding best_price_per_generation_group Placed
  each_picked e i =
      let (g, f, j) = group_priced-Placed priced [] e i in
      let m = lookup-found (group_key e) g groups f in
      let (w, l, q) =
        best_price_per_selection-each g e (λ x y. proper x (inside (group_key e) g m x y).0) j in
      let h : (v : PricedSelection) → In v (best_price_per_selection g) → In v g =
        λ v y. (best (group_key e) g v m y).from_priced in
      let (p, n, r) = picks_for-each g (best_price_per_selection g) [] w h l in
      let (v, x, t) = picks_for-Ties g [] (best_price_per_selection g) p h n in
      (
        p,
        picks_of_groups-each groups (group_key e) g p m n,
        (inside (group_key e) g m p t.member).1,
        r ∙ q,
      )

  -- Where all odds are numbers, each entry that is taken for the scan is one of the priced ones and pays
  -- at least as much as every priced entry of its event, period and selection that is from an
  -- available source, also where a tie is resolved toward another bookmaker; and each priced entry
  -- has one taken of its event, period and selection.
  pub best_price_per_generation_group-IsPick :
      ((p : PricedSelection) → In p (best_price_per_generation_group priced) → IsPick priced p)
      × ((e : PricedSelection)
          → In e priced
          → (p : PricedSelection) × In p (best_price_per_generation_group priced)
            × (group_key p ≡ group_key e)
            × (leg_key p ≡ leg_key e))
  best_price_per_generation_group-IsPick = (picked, each_picked)
