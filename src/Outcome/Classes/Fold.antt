-- ===== src/Outcome/Classes/Fold.antt =====
-- What `collect` and `set_new` keep: every key that is offered, once, with the first class offered.
use void.Base.{
  ℕ, zero, suc, ◌+◌, ◌≤◌, ◌<◌, ◌==◌, ==_iff, sym, All, All-In, All-append, ◌≡◌, refl, Bool, true,
  false, ◌||◌, Option, none, some, List, [], ◌∷◌, ◌++◌, arith, inl, inr, Bool-cases, In, here,
  there, In-append_left, In-append_right,
}
use void.Domain.Values.{SettlementResult, result_eq-eq}
use void.Outcome.Classes.{
  Vector, ClassMap, vector_eq, null_eq, has_key, set_new, collect, values, nested, filter_by,
  range_from, up_to,
}

pub vector_eq-eq : (u v : Vector) → vector_eq u v ≡ true → u ≡ v
unfolding vector_eq
vector_eq-eq [] [] h = refl
vector_eq-eq [] (v ∷ vs) h = cc
vector_eq-eq (u ∷ us) [] h = cc
vector_eq-eq (none ∷ us) (none ∷ vs) h = ground (arith, vector_eq-eq us vs)
vector_eq-eq (none ∷ us) (some s ∷ vs) h = cc
vector_eq-eq (some r ∷ us) (none ∷ vs) h = cc
vector_eq-eq (some r ∷ us) (some s ∷ vs) h = ground (arith, vector_eq-eq us vs, result_eq-eq r s)

null_eq_refl : (r : Option SettlementResult) → null_eq r r ≡ true
null_eq_refl r = ground arith

pub vector_eq_refl : (u : Vector) → vector_eq u u ≡ true
unfolding vector_eq
vector_eq_refl [] = refl
vector_eq_refl (r ∷ rs) = rw (null_eq_refl r) (vector_eq_refl rs)

vector_eq_sym : (u v : Vector) → vector_eq u v ≡ true → vector_eq v u ≡ true
vector_eq_sym u v h = rw (vector_eq-eq u v h) (vector_eq_refl v)

module _ {ℓ} {C : Type ℓ} where
  -- An entry with the key.
  abbrev pub Holds : Vector → ClassMap C → Type ℓ
  Holds k m = (c : C) × In (k, c) m

  pub has_key-Holds : (k : Vector) (m : ClassMap C) → has_key k m ≡ true → Holds k m
  unfolding has_key
  has_key-Holds k [] h = cc
  has_key-Holds k ((j, c) ∷ m) h = elim (Bool-cases (vector_eq j k)) [
    | inl e ↦ (c, rw (vector_eq-eq j k e) here)
    | inr e ↦ let (c', i) = has_key-Holds k m (ground arith) in (c', there i)
  ]

  pub set_new-Holds : (k : Vector) (c : C) (m : ClassMap C) → Holds k (set_new k c m)
  unfolding set_new
  set_new-Holds k c m = elim (Bool-cases (has_key k m)) [
    | inl e ↦ rw e (has_key-Holds k m e)
    | inr e ↦ rw e (c, In-append_right m here)
  ]

  pub set_new-grows :
      (k : Vector) (c : C) (m : ClassMap C) {e : Vector × C} → In e m → In e (set_new k c m)
  unfolding set_new
  set_new-grows k c m i = elim (Bool-cases (has_key k m)) [
    | inl e ↦ rw e i
    | inr e ↦ rw e (In-append_left _ i)
  ]

  -- Every entry keeps a property that the new entry has.
  pub set_new-All {κ} :
      (P : Vector × C → Type κ) (k : Vector) (c : C) (m : ClassMap C)
      → All P m
      → P (k, c)
      → All P (set_new k c m)
  unfolding set_new
  set_new-All P k c m old new = elim (Bool-cases (has_key k m)) [
    | inl e ↦ rw e old
    | inr e ↦ rw e (All-append P m _ old (new, tt))
  ]

  -- No key comes twice.
  abbrev pub Distinct : ClassMap C → Type 0
  Distinct [] = Unit
  Distinct ((k, c) ∷ m) = (has_key k m ≡ false) × Distinct m

  has_key-append :
      (j k : Vector) (c : C) (m : ClassMap C)
      → has_key j (m ++ (k, c) ∷ []) ≡ (has_key j m || vector_eq k j)
  unfolding has_key
  has_key-append j k c [] = ground arith
  has_key-append j k c ((i, d) ∷ m) = ground (arith, has_key-append j k c m)

  Distinct-append :
      (k : Vector) (c : C) (m : ClassMap C)
      → has_key k m ≡ false
      → Distinct m
      → Distinct (m ++ (k, c) ∷ [])
  unfolding has_key
  Distinct-append k c [] h d = (refl, tt)
  Distinct-append k c ((j, b) ∷ m) h d = (
    ground (arith, has_key-append j k c m, vector_eq_sym k j),
    Distinct-append k c m (ground arith) d.1,
  )

  pub set_new-Distinct :
      (k : Vector) (c : C) (m : ClassMap C) → Distinct m → Distinct (set_new k c m)
  unfolding set_new
  set_new-Distinct k c m d = elim (Bool-cases (has_key k m)) [
    | inl e ↦ rw e d
    | inr e ↦ rw e (Distinct-append k c m e d)
  ]

  module _ (key : C → Vector) where
    pub collect-grows :
        (cs : List C) (m : ClassMap C) {e : Vector × C} → In e m → In e (collect key cs m)
    unfolding collect
    collect-grows [] m i = i
    collect-grows (c ∷ cs) m i = collect-grows cs (set_new (key c) c m) (set_new-grows _ _ m i)

    -- Each listed class has an entry with its key.
    pub collect-Holds :
        (cs : List C) (m : ClassMap C) {c : C} → In c cs → Holds (key c) (collect key cs m)
    unfolding collect
    collect-Holds [] m i = elim i [ ]
    collect-Holds (c ∷ cs) m here =
        let (d, i) = set_new-Holds (key c) c m in (d, collect-grows cs _ i)
    collect-Holds (c ∷ cs) m (there i) = collect-Holds cs (set_new (key c) c m) i

    -- Each entry is a listed class under its own key.
    pub collect-keyed :
        (cs : List C) (m : ClassMap C)
        → All (λ e. e.0 ≡ key e.1) m
        → All (λ e. e.0 ≡ key e.1) (collect key cs m)
    unfolding collect
    collect-keyed [] m h = h
    collect-keyed (c ∷ cs) m h = collect-keyed cs _ (set_new-All _ (key c) c m h refl)

  pub In-values : {k : Vector} {c : C} (m : ClassMap C) → In (k, c) m → In c (values m)
  unfolding values
  In-values [] i = elim i [ ]
  In-values ((k, c) ∷ m) here = here
  In-values ((k, c) ∷ m) (there i) = there (In-values m i)

  -- Each class that is offered is represented by a class with the same key.
  pub represented :
      (key : C → Vector) (cs : List C) {c : C}
      → In c cs
      → (d : C) × In d (values (collect key cs [])) × (key d ≡ key c)
  represented key cs {c} i =
      let (d, j) = collect-Holds key cs [] i in
      (d, In-values _ j, sym (All-In _ j (collect-keyed key cs [] tt)))

  pub In-nested {κ} :
      {A : Type κ} (f : A → List C) {a : A} {as' : List A} {c : C}
      → In a as'
      → In c (f a)
      → In c (nested as' f)
  unfolding nested
  In-nested f {as' = []} i j = elim i [ ]
  In-nested f {as' = a ∷ as'} here j = In-append_left _ j
  In-nested f {as' = a ∷ as'} (there i) j = In-append_right (f a) (In-nested f i j)

  -- What holds in every round holds of the whole loop.
  pub All-nested {κ ν} :
      {A : Type κ} (P : C → Type ν) (as' : List A) (f : A → List C)
      → ((a : A) → All P (f a))
      → All P (nested as' f)
  unfolding nested
  All-nested P [] f h = tt
  All-nested P (a ∷ as') f h = All-append P (f a) _ (h a) (All-nested P as' f h)

module _ {ℓ} {A : Type ℓ} (p : A → Bool) where
  pub In-filter_by : (xs : List A) {x : A} → In x xs → p x ≡ true → In x (filter_by p xs)
  unfolding filter_by
  In-filter_by [] i e = elim i [ ]
  In-filter_by (x ∷ xs) here e = rw e here
  In-filter_by (x ∷ xs) (there i) e = elim (Bool-cases (p x)) [
    | inl h ↦ rw h (there (In-filter_by xs i e))
    | inr h ↦ rw h (In-filter_by xs i e)
  ]

-- The counts from `from` on.
In-range_from : (from count n : ℕ) → from ≤ n → n < from + count → In n (range_from from count)
unfolding range_from
In-range_from from zero n h k = absurd (omega arith)
In-range_from from (suc count) n h k = elim (Bool-cases (from == n)) [
  | inl e ↦ rw (← (==_iff from n).0 e) here
  | inr e ↦ there (In-range_from (suc from) count n (ground arith) (omega arith))
]

pub In-up_to : (limit n : ℕ) → n ≤ limit → In n (up_to limit)
unfolding up_to
In-up_to limit n h = In-range_from 0 (suc limit) n (omega arith) (omega arith)
