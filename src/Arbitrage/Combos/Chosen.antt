-- ===== src/Arbitrage/Combos/Chosen.antt =====
-- The combinations of candidates.ts and the sublists of a list.
use void.Base.{
  ℕ, zero, suc, ◌+◌, ◌-◌, ◌≤◌, ◌<◌, ◌≡◌, ◌≢◌, Option-cases, refl, ap, ◌∙◌, sym, Bool, true, false,
  none, some, List, [], ◌∷◌, ◌++◌, map, arith, length, length-append, length-map, get_elem?,
  if◌then◌else◌, ltb, ◌==◌, Bool-cases, inl, inr, In, here, there, In-append, In-cons, In-map_inv,
  subst,
}
use void.Arbitrage.Combos.{run_from, advance, index_lists, binomial, pick, combinations, cons_some}

-- The lists of `k` indices among the `m` from `s` on, those with the first index before the others.
subsets : ℕ → ℕ → ℕ → List (List ℕ)
subsets s m zero = [] ∷ []
subsets s zero (suc k) = []
subsets s (suc m) (suc k) = map (◌∷◌ s) (subsets (suc s) m k) ++ subsets (suc s) m (suc k)

-- The sublists of `k` entries, those with the first entry before the others.
pub sublists {ℓ} : {A : Type ℓ} → List A → ℕ → List (List A)
sublists xs zero = [] ∷ []
sublists [] (suc k) = []
sublists (x ∷ xs) (suc k) = map (◌∷◌ x) (sublists xs k) ++ sublists xs (suc k)

-- Each list of indices is the next one of the list before it, and the last has none.
abbrev Leads : ℕ → List ℕ → List (List ℕ) → Type 0
Leads n is [] = advance n is ≡ none
Leads n is (js ∷ rest) = (advance n is ≡ some js) × Leads n js rest

none-some {ℓ} : {A : Type ℓ} {a : A} → none ≢ some a
none-some e = cc

some-injective {ℓ} : {A : Type ℓ} {a b : A} → some a ≡ some b → a ≡ b
some-injective e = cc

-- A list of lists that starts at `is` and is all that follows it.
abbrev Walk : ℕ → List ℕ → List (List ℕ) → Type 0
Walk n is ls = (rest : List (List ℕ)) × (ls ≡ is ∷ rest) × Leads n is rest

length-run_from : (s k : ℕ) → length (run_from s k) ≡ k
unfolding run_from
length-run_from s zero = refl
length-run_from s (suc k) = ap suc (length-run_from (suc s) k)

index_lists-Leads :
    (n : ℕ) (is : List ℕ) (rest : List (List ℕ))
    → Leads n is rest
    → index_lists (suc (length rest)) n is ≡ is ∷ rest
unfolding index_lists
index_lists-Leads n is [] e = rw e refl
index_lists-Leads n is (js ∷ rest) (e, h) = rw e (ap (◌∷◌ is) (index_lists-Leads n js rest h))

advance-inner :
    (n i : ℕ) (is js : List ℕ) → advance n is ≡ some js → advance n (i ∷ is) ≡ some (i ∷ js)
unfolding advance
advance-inner n i is js e = rw e refl

advance-length : (n : ℕ) (is js : List ℕ) → advance n is ≡ some js → length js ≡ length is
unfolding advance
advance-length n [] js e = cc
advance-length n (i ∷ is) js e = elim (Option-cases (advance n is)) [
  | inl t ↦ elim (Bool-cases (i == n - suc (length is))) [
    | inl u ↦ absurd (none-some (rw (t, u) at e))
    | inr u ↦
        ap length (sym (some-injective (rw (t, u) at e)))
        ∙ length-run_from (suc i) (suc (length is))
  ]
  | inr (ks, t) ↦ ap length (sym (some-injective (rw t at e))) ∙ ap suc (advance-length n is ks t)
]

-- What follows the lists with the first index `s`.
module _ (n s k : ℕ) (after : List (List ℕ))
    (h : (last : List ℕ) → length last ≡ k → advance n last ≡ none → Leads n (s ∷ last) after) where
  Leads-cons :
      (is : List ℕ) (rest : List (List ℕ))
      → length is ≡ k
      → Leads n is rest
      → Leads n (s ∷ is) (map (◌∷◌ s) rest ++ after)
  Leads-cons is [] l e = h is l e
  Leads-cons is (js ∷ rest) l (e, g) =
      (advance-inner n s is js e, Leads-cons js rest (advance-length n is js e ∙ l) g)

subsets-none : (s m k : ℕ) → m < k → subsets s m k ≡ []
unfolding subsets
subsets-none s m zero l = absurd (ground arith)
subsets-none s zero (suc k) l = refl
subsets-none s (suc m) (suc k) l =
    rw (subsets-none (suc s) m k (omega arith), subsets-none (suc s) m (suc k) (omega arith)) refl

last_moves :
    (n s k : ℕ) (last : List ℕ) (b : Bool)
    → length last ≡ k
    → advance n last ≡ none
    → (s == n - suc k) ≡ b
    → advance n (s ∷ last) ≡ (if b then none else some (run_from (suc s) (suc k)))
unfolding advance
last_moves n s k last b l e t = rw (e, l, t) refl

subsets-Walk : (n s m k : ℕ) → n ≡ s + m → k ≤ m → Walk n (run_from s k) (subsets s m k)
unfolding run_from advance subsets
subsets-Walk n s m zero e l = ([], refl, refl)
subsets-Walk n s zero (suc k) e l = absurd (ground arith)
subsets-Walk n s (suc m) (suc k) e l =
    let (rest, same, leads) = subsets-Walk n (suc s) m k (omega arith) (omega arith) in
    elim (Bool-cases (ltb k m)) [
      | inl t ↦
          let (rest', same', leads') =
            subsets-Walk n (suc s) m (suc k) (omega arith) (ground arith) in
          (
            map (◌∷◌ s) rest ++ run_from (suc s) (suc k) ∷ rest',
            rw (same, same') refl,
            Leads-cons n s k (run_from (suc s) (suc k) ∷ rest')
                (λ last q f. (last_moves n s k last false q f (ground arith), leads'))
                (run_from (suc s) k) rest (length-run_from (suc s) k) leads,
          )
      | inr t ↦ (
        map (◌∷◌ s) rest ++ [],
        rw (same, subsets-none (suc s) m (suc k) (ground arith)) refl,
        Leads-cons n s k [] (λ last q f. last_moves n s k last true q f (ground arith))
            (run_from (suc s) k) rest (length-run_from (suc s) k) leads,
      )
    ]

length-subsets : (s m k : ℕ) → length (subsets s m k) ≡ binomial m k
unfolding binomial subsets
length-subsets s m zero = refl
length-subsets s zero (suc k) = refl
length-subsets s (suc m) (suc k) =
    length-append (map (◌∷◌ s) (subsets (suc s) m k)) (subsets (suc s) m (suc k))
    ∙ omega (
      arith,
      length-map (◌∷◌ s) (subsets (suc s) m k),
      length-subsets (suc s) m k,
      length-subsets (suc s) m (suc k),
    )

index_lists-subsets :
    (n k : ℕ) → k ≤ n → index_lists (binomial n k) n (run_from 0 k) ≡ subsets 0 n k
index_lists-subsets n k l =
    let (rest, same, leads) = subsets-Walk n 0 n k (omega arith) l in
    ap (λ f. index_lists f n (run_from 0 k)) (sym (length-subsets 0 n k) ∙ ap length same)
    ∙ index_lists-Leads n (run_from 0 k) rest leads
    ∙ sym same

drop {ℓ} : {A : Type ℓ} → ℕ → List A → List A
drop zero xs = xs
drop (suc n) [] = []
drop (suc n) (x ∷ xs) = drop n xs

drop-head {ℓ} :
    {A : Type ℓ} (s : ℕ) (items : List A) (x : A) (xs : List A)
    → drop s items ≡ x ∷ xs
    → (get_elem? items s ≡ some x) × (drop (suc s) items ≡ xs)
unfolding drop
drop-head zero [] x xs e = cc
drop-head zero (y ∷ ys) x xs e = (cc, cc)
drop-head (suc s) [] x xs e = cc
drop-head (suc s) (y ∷ ys) x xs e = drop-head s ys x xs e

map-append {ℓ κ} :
    {A : Type ℓ} {B : Type κ} (f : A → B) (xs ys : List A) → map f (xs ++ ys) ≡ map f xs ++ map f ys
map-append f [] ys = refl
map-append f (x ∷ xs) ys = ap (◌∷◌ (f x)) (map-append f xs ys)

module _ {ℓ} {A : Type ℓ} (items : List A) where
  pick-cons :
      (s : ℕ) (x : A) (ls : List (List ℕ))
      → get_elem? items s ≡ some x
      → map (pick items) (map (◌∷◌ s) ls) ≡ map (◌∷◌ x) (map (pick items) ls)
  unfolding pick
  pick-cons s x [] e = refl
  pick-cons s x (is ∷ ls) e =
      ap (λ o. cons_some o (pick items is) ∷ map (pick items) (map (◌∷◌ s) ls)) e
      ∙ ap (◌∷◌ (x ∷ pick items is)) (pick-cons s x ls e)

  pick-subsets :
      (xs : List A) (s k : ℕ)
      → drop s items ≡ xs
      → map (pick items) (subsets s (length xs) k) ≡ sublists xs k
  unfolding pick subsets sublists
  pick-subsets xs s zero e = refl
  pick-subsets [] s (suc k) e = refl
  pick-subsets (x ∷ xs) s (suc k) e =
      let (head, tail) = drop-head s items x xs e in
      map-append (pick items) (map (◌∷◌ s) (subsets (suc s) (length xs) k))
        (subsets (suc s) (length xs) (suc k))
      ∙ rw
          (
            pick-cons s x (subsets (suc s) (length xs) k) head,
            pick-subsets xs (suc s) k tail,
            pick-subsets xs (suc s) (suc k) tail,
          )
          refl

sublists-none {ℓ} : {A : Type ℓ} (xs : List A) (k : ℕ) → length xs < k → sublists xs k ≡ []
unfolding sublists
sublists-none xs zero l = absurd (ground arith)
sublists-none [] (suc k) l = refl
sublists-none (x ∷ xs) (suc k) l =
    rw (sublists-none xs k (omega arith), sublists-none xs (suc k) (omega arith)) refl

-- The loop yields the sublists of the size, each once and in the order of the list, and its fuel, the
-- binomial coefficient, is enough.
pub combinations-sublists {ℓ} :
    {A : Type ℓ} (items : List A) (size : ℕ) → combinations items size ≡ sublists items size
unfolding combinations drop
combinations-sublists items size = elim (Bool-cases (ltb (length items) size)) [
  | inl t ↦ rw t (sym (sublists-none items size (ground arith)))
  | inr t ↦
      rw (t, index_lists-subsets (length items) size (ground arith))
        (pick-subsets items items 0 size refl)
]

-- A sublist has the size, and its entries.
pub sublists-In {ℓ} :
    {A : Type ℓ} (xs : List A) (k : ℕ) (ys : List A)
    → In ys (sublists xs k)
    → (length ys ≡ k) × ((a : A) → In a ys → In a xs)
unfolding sublists
sublists-In xs zero ys i = elim (In-cons i) [
  | inl e ↦ (ap length e, λ a j. elim (subst (In a) e j) [ ])
  | inr j ↦ elim j [ ]
]
sublists-In [] (suc k) ys i = elim i [ ]
sublists-In (x ∷ xs) (suc k) ys i = elim (In-append (map (◌∷◌ x) (sublists xs k)) i) [
  | inr j ↦ let (size, entries) = sublists-In xs (suc k) ys j in (size, λ a m. there (entries a m))
  | inl j ↦
      let (zs, m, e) = In-map_inv (◌∷◌ x) (sublists xs k) j in
      let (size, entries) = sublists-In xs k zs m in
      (
        ap length e ∙ ap suc size,
        (λ a n. elim (In-cons (subst (In a) e n)) [
          | inl h ↦ subst (λ y. In y (x ∷ xs)) (sym h) here
          | inr h ↦ there (entries a h)
        ]),
      )
]
