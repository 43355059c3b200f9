-- ===== src/Update/Version/Order.antt =====
-- compareVersions is a comparison: swapping its arguments flips its result, and on well-formed
-- versions it is a strict total order.
use awiki_cli.Base.{
  ◌≡◌, refl, true, false, List, [], ◌∷◌, arith, ap, Option, none, some, less, greater, sign, flip,
}
use mathlib.Core.Option
use awiki_cli.Base.Options.{◌>>=◌}
use awiki_cli.Text.{Text, same, lex, split}
use awiki_cli.Text.Order.{same_iff, lex-flip, eq_of_lex}
use awiki_cli.Text.Number.{value}
use awiki_cli.Update.Version.{
  SemVersion, is_numeric_identifier, compare_identifier, compare_identifiers, compare_prerelease,
  compare_tags, compare_parsed, compare_versions, parse_sem_version,
}
use awiki_cli.Update.Version.Numeric.{compare_numeric_identifiers_lem, numeric-digits}

-- The three-way comparison of numeric identifiers.
pub numeric_lem :
    (l r : Text)
    → is_numeric_identifier l ≡ true
    → is_numeric_identifier r ≡ true
    → compare_identifier l r ≡ sign (value l) (value r)
unfolding compare_identifier
numeric_lem l r hl hr =
    ground (arith, compare_numeric_identifiers_lem l r (numeric-digits l hl) (numeric-digits r hr))

-- Two other identifiers that differ are compared as texts.
pub alpha_lem :
    (l r : Text)
    → is_numeric_identifier l ≡ false
    → is_numeric_identifier r ≡ false
    → same l r ≡ false
    → compare_identifier l r ≡ lex l r
unfolding compare_identifier
alpha_lem l r hl hr d = ground (arith, eq_of_lex l r, same_iff l r)

pub mixed_lem :
    (l r : Text)
    → is_numeric_identifier l ≡ true
    → is_numeric_identifier r ≡ false
    → (compare_identifier l r ≡ less) × (compare_identifier r l ≡ greater)
unfolding compare_identifier
mixed_lem l r hl hr = ground arith

pub same_comm : (l r : Text) → same l r ≡ same r l
same_comm l r = ground (arith, same_iff l r, same_iff r l)

pub compare_identifier-flip :
    (l r : Text) → same l r ≡ false → compare_identifier r l ≡ flip (compare_identifier l r)
compare_identifier-flip l r d = ground (
  arith,
  numeric_lem l r,
  numeric_lem r l,
  alpha_lem l r,
  alpha_lem r l,
  mixed_lem l r,
  mixed_lem r l,
  lex-flip l r,
  same_comm l r,
)

pub compare_identifiers-flip :
    (ls rs : List Text) → compare_identifiers rs ls ≡ flip (compare_identifiers ls rs)
unfolding compare_identifiers
compare_identifiers-flip [] [] = refl
compare_identifiers-flip [] (r ∷ rs) = refl
compare_identifiers-flip (l ∷ ls) [] = refl
compare_identifiers-flip (l ∷ ls) (r ∷ rs) =
    ground (arith, compare_identifier-flip l r, compare_identifiers-flip ls rs, same_comm l r)

compare_tags-flip : (a b : Text) → compare_tags b a ≡ flip (compare_tags a b)
unfolding compare_tags compare_prerelease
compare_tags-flip [] [] = refl
compare_tags-flip [] (d ∷ t) = refl
compare_tags-flip (c ∷ s) [] = refl
compare_tags-flip (c ∷ s) (d ∷ t) = ground (
  arith,
  same_comm (c ∷ s) (d ∷ t),
  compare_identifiers-flip (split b'.' (c ∷ s)) (split b'.' (d ∷ t)),
)

pub compare_parsed-flip : (a b : SemVersion) → compare_parsed b a ≡ flip (compare_parsed a b)
unfolding compare_parsed
compare_parsed-flip a b = ground (arith, compare_tags-flip a.pre b.pre)

flip_parsed :
    (m n : Option SemVersion)
    → (n >>= λ r. m >>= λ l. some (compare_parsed r l))
      ≡ Option.map flip (m >>= λ l. n >>= λ r. some (compare_parsed l r))
flip_parsed none none = refl
flip_parsed none (some b) = refl
flip_parsed (some a) none = refl
flip_parsed (some a) (some b) = ap some (compare_parsed-flip a b)

-- Swapping the two versions flips the answer, and changes nothing of whether there is one.
pub compare_versions-flip :
    (a b : Text) → compare_versions b a ≡ Option.map flip (compare_versions a b)
unfolding compare_versions
compare_versions-flip a b = flip_parsed (parse_sem_version a) (parse_sem_version b)
