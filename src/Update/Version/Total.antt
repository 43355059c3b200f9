-- ===== src/Update/Version/Total.antt =====
-- On versions whose numeric identifiers have no leading zero, as semantic versioning demands, the
-- comparison is a strict total order.
use awiki_cli.Base.{
  ◌≡◌, refl, Bool, true, false, List, [], ◌∷◌, arith, ap, sym, ◌∙◌, all, if◌then◌else◌, less, equal,
  ◌↔◌, Bool-cases, inl, inr,
}
use awiki_cli.Text.{Text, same, split, join}
use awiki_cli.Text.Order.{same_iff, eq_of_same, eq_of_lex, lex_trans, same_refl}
use awiki_cli.Text.Split.{join-split}
use awiki_cli.Update.Version.{
  SemVersion, is_numeric_identifier, trim_zeros, or_zero, compare_trimmed,
  compare_numeric_identifiers, compare_identifier, compare_identifiers, compare_prerelease,
  compare_tags, compare_parsed,
}
use awiki_cli.Update.Version.Order.{
  numeric_lem, alpha_lem, mixed_lem, compare_identifier-flip, compare_identifiers-flip,
}

-- A numeric identifier has no leading zero.
unfoldable pub is_plain : Text → Bool
is_plain s = if is_numeric_identifier s then same (or_zero (trim_zeros s)) s else true

-- Each identifier of the pre-release tag is plain.
abbrev pub IsWellFormed : SemVersion → Type 0
IsWellFormed v = all is_plain (split b'.' v.pre) ≡ true

eq_of_compare_trimmed : (a b : Text) → compare_trimmed a b ≡ equal → a ≡ b
unfolding compare_trimmed
eq_of_compare_trimmed a b h = ground (arith, eq_of_lex a b)

eq_of_numeric :
    (l r : Text)
    → is_numeric_identifier l ≡ true
    → is_numeric_identifier r ≡ true
    → is_plain l ≡ true
    → is_plain r ≡ true
    → compare_numeric_identifiers l r ≡ equal
    → l ≡ r
unfolding compare_numeric_identifiers is_plain
eq_of_numeric l r hl hr pl pr h = ground (
  arith,
  eq_of_compare_trimmed (or_zero (trim_zeros l)) (or_zero (trim_zeros r)),
  eq_of_same (or_zero (trim_zeros l)) l,
  eq_of_same (or_zero (trim_zeros r)) r,
)

eq_of_compare_identifier :
    (l r : Text) → is_plain l ≡ true → is_plain r ≡ true → compare_identifier l r ≡ equal → l ≡ r
unfolding compare_identifier
eq_of_compare_identifier l r pl pr h = ground (arith, eq_of_numeric l r)

eq_of_compare_identifiers :
    (ls rs : List Text)
    → all is_plain ls ≡ true
    → all is_plain rs ≡ true
    → compare_identifiers ls rs ≡ equal
    → ls ≡ rs
unfolding compare_identifiers
eq_of_compare_identifiers [] [] pl pr h = refl
eq_of_compare_identifiers [] (r ∷ rs) pl pr h = ground arith
eq_of_compare_identifiers (l ∷ ls) [] pl pr h = ground arith
eq_of_compare_identifiers (l ∷ ls) (r ∷ rs) pl pr h =
    ground (arith, same_iff l r, eq_of_compare_identifiers ls rs, eq_of_compare_identifier l r)

compare_identifiers_refl : (ls : List Text) → compare_identifiers ls ls ≡ equal
unfolding compare_identifiers
compare_identifiers_refl [] = refl
compare_identifiers_refl (l ∷ ls) = ground (arith, same_refl l, compare_identifiers_refl ls)

compare_identifier_trans :
    (l m n : Text)
    → same l m ≡ false
    → same m n ≡ false
    → same l n ≡ false
    → compare_identifier l m ≡ less
    → compare_identifier m n ≡ less
    → compare_identifier l n ≡ less
compare_identifier_trans l m n d e f h k = ground (
  arith,
  numeric_lem l m,
  numeric_lem m n,
  numeric_lem l n,
  alpha_lem l m,
  alpha_lem m n,
  alpha_lem l n,
  mixed_lem l m,
  mixed_lem m n,
  mixed_lem l n,
  mixed_lem m l,
  mixed_lem n m,
  mixed_lem n l,
  lex_trans l m n,
)

compare_identifiers_trans :
    (ls ms ns : List Text)
    → compare_identifiers ls ms ≡ less
    → compare_identifiers ms ns ≡ less
    → all is_plain ls ≡ true
    → all is_plain ms ≡ true
    → all is_plain ns ≡ true
    → compare_identifiers ls ns ≡ less
unfolding compare_identifiers
compare_identifiers_trans [] (m ∷ ms) (n ∷ ns) h k pl pm pn = refl
compare_identifiers_trans (l ∷ ls) (m ∷ ms) (n ∷ ns) h k pl pm pn = ground (
  arith,
  eq_of_same l m,
  eq_of_same m n,
  eq_of_same l n,
  same_refl l,
  compare_identifier-flip l m,
  compare_identifier_trans l m n,
  compare_identifiers_trans ls ms ns,
)
compare_identifiers_trans _ _ _ h k pl pm pn = ground arith

split_injective : (s t : Text) → split b'.' s ≡ split b'.' t → s ≡ t
split_injective s t e = sym (join-split b'.' s) ∙ ap (join b'.') e ∙ join-split b'.' t

eq_of_compare_tags :
    (s t : Text)
    → all is_plain (split b'.' s) ≡ true
    → all is_plain (split b'.' t) ≡ true
    → compare_tags s t ≡ equal
    → s ≡ t
unfolding compare_tags compare_prerelease
eq_of_compare_tags [] [] hs ht h = refl
eq_of_compare_tags (c ∷ s) (d ∷ t) hs ht h = elim (Bool-cases (same (c ∷ s) (d ∷ t))) [
  | inl e ↦ eq_of_same _ _ e
  | inr e ↦ split_injective _ _ (eq_of_compare_identifiers _ _ hs ht (ground (arith, e, h)))
]
eq_of_compare_tags [] (d ∷ t) hs ht h = ground arith
eq_of_compare_tags (c ∷ s) [] hs ht h = ground arith

compare_tags_trans :
    (s t u : Text)
    → all is_plain (split b'.' s) ≡ true
    → all is_plain (split b'.' t) ≡ true
    → all is_plain (split b'.' u) ≡ true
    → compare_tags s t ≡ less
    → compare_tags t u ≡ less
    → compare_tags s u ≡ less
unfolding compare_tags compare_prerelease
compare_tags_trans (c ∷ s) (d ∷ t) (e ∷ u) hs ht hu h k = ground (
  arith,
  same_iff (c ∷ s) (d ∷ t),
  same_iff (d ∷ t) (e ∷ u),
  same_iff (c ∷ s) (e ∷ u),
  compare_identifiers-flip (split b'.' (c ∷ s)) (split b'.' (d ∷ t)),
  compare_identifiers_trans (split b'.' (c ∷ s)) (split b'.' (d ∷ t)) (split b'.' (e ∷ u)),
)
compare_tags_trans (c ∷ s) (d ∷ t) [] hs ht hu h k = refl
compare_tags_trans _ _ _ hs ht hu h k = ground arith

compare_tags_refl : (s : Text) → compare_tags s s ≡ equal
unfolding compare_tags
compare_tags_refl [] = refl
compare_tags_refl (c ∷ s) = ground (arith, same_refl (c ∷ s))

-- Two well-formed versions compare as equal exactly when they are the same version.
pub compare_parsed-equal_iff :
    (v w : SemVersion) → IsWellFormed v → IsWellFormed w → (compare_parsed v w ≡ equal) ↔ (v ≡ w)
unfolding compare_parsed
compare_parsed-equal_iff v w hv hw =
    ground (arith, eq_of_compare_tags v.pre w.pre hv hw, compare_tags_refl v.pre)

-- Of three well-formed versions, if the first is older than the second and the second older than
-- the third, then the first is older than the third.
pub compare_parsed_trans :
    (u v w : SemVersion)
    → IsWellFormed u
    → IsWellFormed v
    → IsWellFormed w
    → compare_parsed u v ≡ less
    → compare_parsed v w ≡ less
    → compare_parsed u w ≡ less
unfolding compare_parsed
compare_parsed_trans u v w hu hv hw h k =
    ground (arith, compare_tags_trans u.pre v.pre w.pre hu hv hw)
