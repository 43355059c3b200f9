-- ===== src/Text/Order.antt =====
-- Equality and order of texts.
use awiki_cli.Base.{◌≡◌, refl, ◌↔◌, true, [], ◌∷◌, arith, less, equal, flip}
use awiki_cli.Text.{Text, same, lex}

pub eq_of_same : (s t : Text) → same s t ≡ true → s ≡ t
unfolding same
eq_of_same [] [] h = refl
eq_of_same (x ∷ xs) (y ∷ ys) h = ground (arith, eq_of_same xs ys)
eq_of_same _ _ h = ground arith

pub same_refl : (s : Text) → same s s ≡ true
unfolding same
same_refl [] = refl
same_refl (x ∷ xs) = ground (arith, same_refl xs)

-- The test decides equality.
pub same_iff : (s t : Text) → (same s t ≡ true) ↔ (s ≡ t)
same_iff s t = (eq_of_same s t, λ e. ground (arith, e, same_refl s))

pub lex-flip : (s t : Text) → lex t s ≡ flip (lex s t)
unfolding lex
lex-flip [] [] = refl
lex-flip [] (y ∷ ys) = refl
lex-flip (x ∷ xs) [] = refl
lex-flip (x ∷ xs) (y ∷ ys) = ground (arith, lex-flip xs ys)

pub eq_of_lex : (s t : Text) → lex s t ≡ equal → s ≡ t
unfolding lex
eq_of_lex [] [] h = refl
eq_of_lex (x ∷ xs) (y ∷ ys) h = ground (arith, eq_of_lex xs ys)
eq_of_lex _ _ h = ground arith

pub lex_refl : (s : Text) → lex s s ≡ equal
unfolding lex
lex_refl [] = refl
lex_refl (x ∷ xs) = ground (arith, lex_refl xs)

pub lex_trans : (s t u : Text) → lex s t ≡ less → lex t u ≡ less → lex s u ≡ less
unfolding lex
lex_trans [] (y ∷ ys) (z ∷ zs) h k = refl
lex_trans (x ∷ xs) (y ∷ ys) (z ∷ zs) h k = ground (arith, lex_trans xs ys zs)
lex_trans _ _ _ h k = ground arith
