-- ===== src/Worker/Detect/Places.antt =====
-- The groups by event and period of detect.ts hold each priced entry in the one group of its key.
use void.Base.{
  ◌≡◌, inl, inr, refl, ap, sym, subst, Option, none, some, List, [], ◌∷◌, ◌++◌, In, here, In-cons,
  In-append_left, In-append_right, Bool-cases,
}
use void.Arbitrage.Candidate.{PricedSelection, or_default}
use void.Arbitrage.Generate.{lookup, put, group_key, group_priced}
use void.Arbitrage.Generate.Keyed.{KeysApart, lookup-put, put-KeysApart}
use void.Arbitrage.Report.{Groups, push_group}
use void.Text.{Text, text_eq}
use void.Text.Equality.{text_eq-eq, text_eq_refl}

-- A push to a group is an update of the map.
push_found {ℓ} :
    {A : Type ℓ} (k : Text) (a : A) (gs : Groups A) (o : Option (List A))
    → lookup k gs ≡ o
    → push_group k a gs ≡ put k (or_default o [] ++ a ∷ []) gs
unfolding push_group put lookup
push_found k a [] o e = ap (λ x. (k, or_default x [] ++ a ∷ []) ∷ []) e
push_found k a ((j, g) ∷ gs) o e = elim (Bool-cases (text_eq j k)) [
  | inl t ↦ let r : some g ≡ o = rw t at e in rw t (ap (λ x. (j, or_default x [] ++ a ∷ []) ∷ gs) r)
  | inr t ↦
      let r : lookup k gs ≡ o = rw t at e in rw t (ap (λ m. (j, g) ∷ m) (push_found k a gs o r))
]

push_group-put {ℓ} :
    {A : Type ℓ} (k : Text) (a : A) (gs : Groups A)
    → push_group k a gs ≡ put k (or_default (lookup k gs) [] ++ a ∷ []) gs
push_group-put k a gs = push_found k a gs (lookup k gs) refl

-- The entry stands in the group of its key.
unfoldable pub Placed : PricedSelection → Groups PricedSelection → Type 0
Placed e gs = (g : List PricedSelection) × (lookup (group_key e) gs ≡ some g) × In e g

push_group-Placed_own :
    (e : PricedSelection) (gs : Groups PricedSelection) → Placed e (push_group (group_key e) e gs)
unfolding Placed
push_group-Placed_own e gs =
    let g = or_default (lookup (group_key e) gs) [] ++ e ∷ [] in
    (
      g,
      rw
          (
            push_group-put (group_key e) e gs,
            lookup-put (group_key e) (group_key e) g gs,
            text_eq_refl (group_key e),
          )
          refl,
      In-append_right (or_default (lookup (group_key e) gs) []) here,
    )

push_group-Placed :
    (d e : PricedSelection) (gs : Groups PricedSelection)
    → Placed e gs
    → Placed e (push_group (group_key d) d gs)
unfolding Placed
push_group-Placed d e gs (g, q, i) =
    let h = or_default (lookup (group_key d) gs) [] ++ d ∷ [] in
    elim (Bool-cases (text_eq (group_key d) (group_key e))) [
      | inl t ↦
          let same = text_eq-eq (group_key d) (group_key e) t in
          (
            h,
            rw (push_group-put (group_key d) d gs, lookup-put (group_key e) (group_key d) h gs, t)
                refl,
            rw (same, q) (In-append_left (d ∷ []) i),
          )
      | inr t ↦ (
        g,
        rw (push_group-put (group_key d) d gs, lookup-put (group_key e) (group_key d) h gs, t) q,
        i,
      )
    ]

pub group_priced-KeysApart :
    (es : List PricedSelection) (gs : Groups PricedSelection)
    → KeysApart gs
    → KeysApart (group_priced none es gs)
unfolding group_priced
group_priced-KeysApart [] gs h = h
group_priced-KeysApart (e ∷ es) gs h = group_priced-KeysApart es _ (
    subst KeysApart (sym (push_group-put (group_key e) e gs))
      (put-KeysApart (group_key e) (or_default (lookup (group_key e) gs) [] ++ e ∷ []) gs h))

group_priced-kept :
    (es : List PricedSelection) (gs : Groups PricedSelection) (e : PricedSelection)
    → Placed e gs
    → Placed e (group_priced none es gs)
unfolding group_priced
group_priced-kept [] gs e h = h
group_priced-kept (d ∷ es) gs e h = group_priced-kept es _ e (push_group-Placed d e gs h)

pub group_priced-Placed :
    (es : List PricedSelection) (gs : Groups PricedSelection) (e : PricedSelection)
    → In e es
    → Placed e (group_priced none es gs)
unfolding group_priced
group_priced-Placed [] gs e i = elim i [ ]
group_priced-Placed (d ∷ es) gs e i = elim (In-cons i) [
  | inl q ↦
      group_priced-kept es _ e
        (subst (λ x. Placed e (push_group (group_key x) x gs)) q (push_group-Placed_own e gs))
  | inr j ↦ group_priced-Placed es _ e j
]
