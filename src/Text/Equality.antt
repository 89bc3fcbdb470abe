-- ===== src/Text/Equality.antt =====
-- Equality of strings, as a test and as a path.
use void.Base.{◌≡◌, refl, true, [], ◌∷◌, arith}
use void.Text.{Text, text_eq}

pub text_eq-eq : (a b : Text) → text_eq a b ≡ true → a ≡ b
text_eq-eq [] [] e = refl
text_eq-eq [] (d ∷ ds) e = absurd (ground arith)
text_eq-eq (c ∷ cs) [] e = absurd (ground arith)
text_eq-eq (c ∷ cs) (d ∷ ds) e =
    let rest : cs ≡ ds = text_eq-eq cs ds (ground arith) in
    let first : c ≡ d = ground arith in rw (rest, first) refl

pub text_eq_refl : (a : Text) → text_eq a a ≡ true
text_eq_refl [] = refl
text_eq_refl (c ∷ cs) = ground (arith, text_eq_refl cs)

pub text_eq_sym : (a b : Text) → text_eq a b ≡ text_eq b a
text_eq_sym [] [] = refl
text_eq_sym [] (d ∷ ds) = refl
text_eq_sym (c ∷ cs) [] = refl
text_eq_sym (c ∷ cs) (d ∷ ds) = ground (arith, text_eq_sym cs ds)
