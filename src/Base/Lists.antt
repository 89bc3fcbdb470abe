-- ===== src/Base/Lists.antt =====
-- Lists measured by native numbers, under the library's names, and predicates by recursion.
use Prim.Native.Nat.{ℕ, zero, suc, ◌+◌}
use mathlib.Core.Path.{◌≡◌, refl, ap, ap₂}
use mathlib.Core.Logic.{◌⊎◌, inl, inr}
use mathlib.Core.Bool.{Bool, true, false, ◌&&◌, ◌||◌}
use mathlib.Core.List.{List, [], ◌∷◌, ◌++◌, map}
use mathlib.Core.Option.{Option, none, some}
use native.Mathlib.Omega.{arith}

module _ {ℓ} {A : Type ℓ} where
  abbrev pub length : List A → ℕ
  length [] = 0
  length (x ∷ xs) = suc (length xs)

  abbrev pub get_elem? : List A → ℕ → Option A
  get_elem? [] i = none
  get_elem? (x ∷ xs) zero = some x
  get_elem? (x ∷ xs) (suc i) = get_elem? xs i

  -- Array.prototype.every, some and filter.
  abbrev pub every : (A → Bool) → List A → Bool
  every p [] = true
  every p (x ∷ xs) = p x && every p xs

  abbrev pub any : (A → Bool) → List A → Bool
  any p [] = false
  any p (x ∷ xs) = p x || any p xs

  -- A value in a list, with its place.
  pub data In (a : A) : List A → Type ℓ where
    here : {xs : List A} → In a (a ∷ xs)
    there : {x : A} {xs : List A} → In a xs → In a (x ∷ xs)

  abbrev pub All {κ} : (A → Type κ) → List A → Type κ
  All P [] = Unit
  All P (x ∷ xs) = P x × All P xs

  pub All-In {κ} : (P : A → Type κ) {a : A} {xs : List A} → In a xs → All P xs → P a
  All-In P here h = h.0
  All-In P (there m) h = All-In P m h.1

  pub All-append {κ} : (P : A → Type κ) (xs ys : List A) → All P xs → All P ys → All P (xs ++ ys)
  All-append P [] ys _ q = q
  All-append P (x ∷ xs) ys (p, ps) q = (p, All-append P xs ys ps q)

  pub In-append_left : {a : A} {xs : List A} (ys : List A) → In a xs → In a (xs ++ ys)
  In-append_left ys here = here
  In-append_left ys (there m) = there (In-append_left ys m)

  pub In-append_right : {a : A} (xs : List A) {ys : List A} → In a ys → In a (xs ++ ys)
  In-append_right [] m = m
  In-append_right (x ∷ xs) m = there (In-append_right xs m)

  pub In-append : {a : A} (xs : List A) {ys : List A} → In a (xs ++ ys) → In a xs ⊎ In a ys
  In-append [] i = inr i
  In-append (x ∷ xs) here = inl here
  In-append (x ∷ xs) (there i) = elim (In-append xs i) [ inl j ↦ inl (there j) | inr j ↦ inr j ]

  pub length-append : (xs ys : List A) → length (xs ++ ys) ≡ length xs + length ys
  length-append [] ys = omega arith
  length-append (x ∷ xs) ys = omega (arith, length-append xs ys)

  pub every-In : (p : A → Bool) (xs : List A) {a : A} → every p xs ≡ true → In a xs → p a ≡ true
  every-In p [] h m = elim m [ ]
  every-In p (x ∷ xs) h here = ground arith
  every-In p (x ∷ xs) h (there m) = every-In p xs (ground arith) m

module _ {ℓ} {A : Type ℓ} where
  cons-head : {x y : A} {xs ys : List A} → x ∷ xs ≡ y ∷ ys → x ≡ y
  cons-head e = cc

  cons-tail : {x y : A} {xs ys : List A} → x ∷ xs ≡ y ∷ ys → xs ≡ ys
  cons-tail e = cc

module _ {ℓ} {A : Type ℓ} where
  pub length-map {κ} : {B : Type κ} (f : A → B) (xs : List A) → length (map f xs) ≡ length xs
  length-map f [] = refl
  length-map f (x ∷ xs) = ap suc (length-map f xs)

  pub In-map {κ} : {B : Type κ} (f : A → B) {a : A} {xs : List A} → In a xs → In (f a) (map f xs)
  In-map f here = here
  In-map f (there m) = there (In-map f m)

  pub map-ext {κ} :
      {B : Type κ} (f g : A → B) (xs : List A)
      → ((x : A) → In x xs → f x ≡ g x)
      → map f xs ≡ map g xs
  map-ext f g [] h = refl
  map-ext f g (x ∷ xs) h = ap₂ ◌∷◌ (h x here) (map-ext f g xs (λ y i. h y (there i)))

  -- Equal images have equal entries.
  pub map-eq-In {κ} :
      {B : Type κ} (f g : A → B) (xs : List A) {x : A} → map f xs ≡ map g xs → In x xs → f x ≡ g x
  map-eq-In f g [] e i = elim i [ ]
  map-eq-In f g (x ∷ xs) e here = cons-head e
  map-eq-In f g (x ∷ xs) e (there i) = map-eq-In f g xs (cons-tail e) i

  -- What a list made by a function holds.
  pub In-map_inv {κ} :
      {B : Type κ} (f : A → B) (xs : List A) {b : B}
      → In b (map f xs)
      → (a : A) × In a xs × (b ≡ f a)
  In-map_inv f [] i = elim i [ ]
  In-map_inv f (x ∷ xs) here = (x, here, refl)
  In-map_inv f (x ∷ xs) (there i) = let (a, j, e) = In-map_inv f xs i in (a, there j, e)

  pub In-cons : {a x : A} {xs : List A} → In a (x ∷ xs) → (a ≡ x) ⊎ In a xs
  In-cons here = inl refl
  In-cons (there i) = inr i
