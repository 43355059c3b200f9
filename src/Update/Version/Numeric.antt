-- ===== src/Update/Version/Numeric.antt =====
-- compareNumericIdentifiers agrees with the numbers that the identifiers stand for.
use awiki_cli.Base.{
  ℕ, ◌+◌, ◌-◌, ◌*◌, ◌≤◌, ◌<◌, ◌≡◌, refl, true, [], ◌∷◌, arith, ap, ◌∙◌, ◌==◌, length, all, sign,
  Bool-cases, inl, inr,
}
use awiki_cli.Text.{Text, lex}
use awiki_cli.Text.Number.{is_digit, value_from, value}
use awiki_cli.Update.Version.{
  trim_zeros, or_zero, compare_trimmed, compare_numeric_identifiers, is_numeric_identifier,
}

-- A smaller prefix gives the smaller number, whatever digits follow.
value_from-lt :
    (a b : ℕ) (s t : Text)
    → all is_digit s ≡ true
    → all is_digit t ≡ true
    → length s ≡ length t
    → a < b
    → value_from a s < value_from b t
unfolding value_from
value_from-lt a b [] [] hs ht e h = h
value_from-lt a b (c ∷ s) (d ∷ t) hs ht e h =
    value_from-lt (a * 10 + (c - b'0')) (b * 10 + (d - b'0')) s t (ground arith) (ground arith)
      (omega arith) (ground arith)
value_from-lt a b [] (d ∷ t) hs ht e h = absurd (omega arith)
value_from-lt a b (c ∷ s) [] hs ht e h = absurd (omega arith)

-- A number of fewer digits is the smaller one, unless the longer begins with 0.
value_from-shorter :
    (b : ℕ) (s t : Text)
    → all is_digit s ≡ true
    → all is_digit t ≡ true
    → length s ≤ length t
    → 0 < b
    → value_from 0 s < value_from b t
unfolding value_from
value_from-shorter b [] [] hs ht e h = h
value_from-shorter b (c ∷ s) [] hs ht e h = absurd (omega arith)
value_from-shorter b s (d ∷ t) hs ht e h =
    ground (arith, value_from-lt 0 b s (d ∷ t), value_from-shorter (b * 10 + (d - b'0')) s t)

-- At equal length the order of the texts is that of the numbers.
value_from-lex :
    (a : ℕ) (s t : Text)
    → all is_digit s ≡ true
    → all is_digit t ≡ true
    → length s ≡ length t
    → lex s t ≡ sign (value_from a s) (value_from a t)
unfolding value_from lex
value_from-lex a [] [] hs ht e = ground arith
value_from-lex a (c ∷ s) (d ∷ t) hs ht e = ground (
  arith,
  value_from-lt (a * 10 + (c - b'0')) (a * 10 + (d - b'0')) s t,
  value_from-lt (a * 10 + (d - b'0')) (a * 10 + (c - b'0')) t s,
  value_from-lex (a * 10 + (c - b'0')) s t,
)
value_from-lex a [] (d ∷ t) hs ht e = absurd (omega arith)
value_from-lex a (c ∷ s) [] hs ht e = absurd (omega arith)

digits-trim_zeros : (s : Text) → all is_digit s ≡ true → all is_digit (trim_zeros s) ≡ true
unfolding trim_zeros
digits-trim_zeros [] h = refl
digits-trim_zeros (c ∷ s) h = ground (arith, digits-trim_zeros s)

value-trim_zeros : (s : Text) → value_from 0 (trim_zeros s) ≡ value_from 0 s
unfolding trim_zeros value_from
value-trim_zeros [] = refl
value-trim_zeros (c ∷ s) = ground (arith, value-trim_zeros s)

-- The first digit is not 0, or the number is the single digit 0.
data Canonical : Text → Type 0 where
  zero_digit : Canonical (b'0' ∷ [])
  positive : {c : ℕ} {s : Text} → b'0' < c → Canonical (c ∷ s)

trim_zeros-Canonical : (s : Text) → all is_digit s ≡ true → Canonical (or_zero (trim_zeros s))
unfolding trim_zeros
trim_zeros-Canonical [] h = zero_digit
trim_zeros-Canonical (c ∷ s) h = elim (Bool-cases (c == b'0')) [
  | inl e ↦ rw e (trim_zeros-Canonical s (ground arith))
  | inr e ↦ rw e (positive (ground arith))
]

digits-or_zero : (s : Text) → all is_digit s ≡ true → all is_digit (or_zero s) ≡ true
digits-or_zero [] h = refl
digits-or_zero (c ∷ s) h = h

value-or_zero : (s : Text) → value (or_zero s) ≡ value s
unfolding value value_from
value-or_zero [] = refl
value-or_zero (c ∷ s) = refl

-- A canonical number of fewer digits is smaller.
value-lt :
    (s t : Text)
    → all is_digit s ≡ true
    → all is_digit t ≡ true
    → Canonical t
    → 0 < length s
    → length s < length t
    → value s < value t
unfolding value value_from
value-lt s (c ∷ []) hs ht zero_digit p e = absurd (omega arith)
value-lt s [] hs ht c p e = elim c [ ]
value-lt s (c ∷ t) hs ht (positive h) p e =
    value_from-shorter (0 * 10 + (c - b'0')) s t hs (ground arith) (omega arith) (omega arith)

Canonical-length : {s : Text} → Canonical s → 0 < length s
Canonical-length zero_digit = omega arith
Canonical-length (positive h) = omega arith

value-or_trimmed : (s : Text) → value (or_zero (trim_zeros s)) ≡ value s
value-or_trimmed s = value-or_zero (trim_zeros s) ∙ (unfold value in value-trim_zeros s)

compare_trimmed_lem :
    (s t : Text)
    → all is_digit s ≡ true
    → all is_digit t ≡ true
    → Canonical s
    → Canonical t
    → compare_trimmed s t ≡ sign (value s) (value t)
unfolding compare_trimmed value
compare_trimmed_lem s t hs ht cs ct = ground (
  arith,
  Canonical-length cs,
  Canonical-length ct,
  value-lt s t hs ht ct,
  value-lt t s ht hs cs,
  value_from-lex 0 s t hs ht,
)

-- On two texts of digits the comparison is that of the numbers they stand for, of any size.
pub compare_numeric_identifiers_lem :
    (s t : Text)
    → all is_digit s ≡ true
    → all is_digit t ≡ true
    → compare_numeric_identifiers s t ≡ sign (value s) (value t)
unfolding compare_numeric_identifiers
compare_numeric_identifiers_lem s t hs ht =
    let cs = digits-or_zero (trim_zeros s) (digits-trim_zeros s hs) in
    let ct = digits-or_zero (trim_zeros t) (digits-trim_zeros t ht) in
    compare_trimmed_lem _ _ cs ct (trim_zeros-Canonical s hs) (trim_zeros-Canonical t ht)
    ∙ ap (λ n. sign n (value (or_zero (trim_zeros t)))) (value-or_trimmed s)
    ∙ ap (λ n. sign (value s) n) (value-or_trimmed t)

pub numeric-digits : (s : Text) → is_numeric_identifier s ≡ true → all is_digit s ≡ true
unfolding is_numeric_identifier
numeric-digits [] h = refl
numeric-digits (c ∷ s) h = h
