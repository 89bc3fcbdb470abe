-- ===== src/Arbitrage/Structure/Pairs.antt =====
-- Compatible families of candidates.ts and the key of a group.
use void.Base.{
  ℕ, ◌≡◌, inl, inr, refl, ap, ◌∙◌, sym, Bool, true, false, ◌&&◌, [], ◌∷◌, ◌++◌, arith,
  if◌then◌else◌, Bool-cases, ◌==◌,
}
use void.Domain.Names.{family_name, period_name}
use void.Domain.Values.{MarketFamily, Period}
use void.Arbitrage.Structure.{text_lt, family_eq, pair_key, families_compatible}
use void.Text.{Text, text_eq}
use void.Text.Equality.{text_eq_refl, text_eq_sym}

text_lt_asym : (a b : Text) → text_lt a b ≡ true → text_lt b a ≡ false
unfolding text_lt
text_lt_asym [] [] e = ground arith
text_lt_asym [] (d ∷ ds) e = refl
text_lt_asym (c ∷ cs) [] e = ground arith
text_lt_asym (c ∷ cs) (d ∷ ds) e = ground (arith, text_lt_asym cs ds)

text_lt_total : (a b : Text) → text_lt a b ≡ false → text_lt b a ≡ false → a ≡ b
unfolding text_lt
text_lt_total [] [] e f = refl
text_lt_total [] (d ∷ ds) e f = absurd (ground arith)
text_lt_total (c ∷ cs) [] e f = absurd (ground arith)
text_lt_total (c ∷ cs) (d ∷ ds) e f =
    let first : c ≡ d = ground arith in
    let rest : cs ≡ ds = text_lt_total cs ds (ground arith) (ground arith) in rw (first, rest) refl

pair_key_sym : (a b : MarketFamily) → pair_key a b ≡ pair_key b a
unfolding pair_key
pair_key_sym a b =
    let x = family_name a in
    let y = family_name b in
    elim (Bool-cases (text_lt x y)) [
      | inl e ↦ rw (e, text_lt_asym x y e) refl
      | inr e ↦ elim (Bool-cases (text_lt y x)) [
        | inl f ↦ rw (e, f) refl
        | inr f ↦ rw (e, f, text_lt_total x y e f) refl
      ]
    ]

-- The order of two families does not matter.
pub families_compatible_sym :
    (a b : MarketFamily) → families_compatible a b ≡ families_compatible b a
unfolding families_compatible family_eq
families_compatible_sym a b =
    rw (text_eq_sym (family_name a) (family_name b), pair_key_sym a b) refl

pub families_compatible_refl : (a : MarketFamily) → families_compatible a a ≡ true
unfolding families_compatible family_eq
families_compatible_refl a = rw (text_eq_refl (family_name a)) refl

-- No bar in a text.
plain : Text → Bool
plain [] = true
plain (c ∷ cs) = (if c == b'|' then false else true) && plain cs

plain-bar : (before after : Text) → plain (before ++ b'|' ∷ after) ≡ false
unfolding plain
plain-bar [] after = refl
plain-bar (c ∷ before) after = ground (arith, plain-bar before after)

bar_cons : {c d : ℕ} {cs ds : Text} → ◌≡◌ {A = Text} (c ∷ cs) (d ∷ ds) → (c ≡ d) × (cs ≡ ds)
bar_cons e = (cc, cc)

-- A key splits at its last bar.
split_key :
    (e f p q : Text)
    → plain p ≡ true
    → plain q ≡ true
    → e ++ b'|' ∷ p ≡ f ++ b'|' ∷ q
    → (e ≡ f) × (p ≡ q)
split_key [] [] p q x y h = (refl, (bar_cons h).1)
split_key [] (c ∷ f) p q x y h = absurd (ground (arith, ap plain (bar_cons h).1, plain-bar f q))
split_key (c ∷ e) [] p q x y h = absurd (ground (arith, ap plain (bar_cons h).1, plain-bar e p))
split_key (c ∷ e) (d ∷ f) p q x y h =
    let (first, rest) = bar_cons h in
    let (same, parts) = split_key e f p q x y rest in (rw (first, same) refl, parts)

period_name-plain : (p : Period) → plain (period_name p) ≡ true
unfolding plain period_name
period_name-plain Period.full_match = refl
period_name-plain Period.first_half = refl
period_name-plain Period.second_half = refl
period_name-plain Period.extra_time = refl
period_name-plain Period.penalties = refl

-- A period from its name.
period_of : Text → Period
period_of t =
    if text_eq t (period_name Period.full_match)
    then Period.full_match
    else if text_eq t (period_name Period.first_half)
    then Period.first_half
    else if text_eq t (period_name Period.second_half)
    then Period.second_half
    else if text_eq t (period_name Period.extra_time)
    then Period.extra_time
    else Period.penalties

period_of-name : (p : Period) → period_of (period_name p) ≡ p
unfolding period_of period_name
period_of-name Period.full_match = refl
period_of-name Period.first_half = refl
period_of-name Period.second_half = refl
period_of-name Period.extra_time = refl
period_of-name Period.penalties = refl

-- The key of a group gives its event and its period.
pub split_group_key :
    (e f : Text) (p q : Period)
    → e ++ b'|' ∷ period_name p ≡ f ++ b'|' ∷ period_name q
    → (e ≡ f) × (p ≡ q)
split_group_key e f p q h =
    let (event, name) =
      split_key e f (period_name p) (period_name q) (period_name-plain p) (period_name-plain q) h in
    (event, sym (period_of-name p) ∙ ap period_of name ∙ period_of-name q)
