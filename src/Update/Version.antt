-- ===== src/Update/Version.antt =====
-- internal/update/update.go: semVersion, parseSemVersion and compareVersions with the helpers below
-- them. A comparison gives a `Sign` where Go gives 1, 0 or -1.
pub mod Numeric
pub mod Order
pub mod Total
use awiki_cli.Base.{
  ℕ, Bool, true, false, ◌&&◌, not, List, [], ◌∷◌, Option, none, some, ◌==◌, ltb, if◌then◌else◌,
  length, all, Sign, less, equal, greater, is_greater,
}
use awiki_cli.Base.Options.{◌>>=◌}
use awiki_cli.Base.Int.{ℤ, pos, negsuc}
use awiki_cli.Text.{Text, text, same, lex, trim_space, split, cut, is_empty}
use awiki_cli.Text.Number.{is_digit, atoi}

-- The components are never negative: `parsePart` refuses a negative number.
pub record SemVersion : Type 0 where
  pub major : ℕ
  pub minor : ℕ
  pub patch : ℕ
  pub pre : Text

-- `parsePart`; an empty part is 0
unfoldable pub parse_part : Text → Option ℕ
unfolding atoi
parse_part [] = some 0
parse_part (c ∷ s) = elim (atoi (c ∷ s)) [
  | none ↦ none
  | some n ↦ elim n [ pos k ↦ some k | negsuc k ↦ none ]
]

-- One `v` or `V` in front is dropped.
unfoldable pub drop_v : Text → Text
drop_v [] = []
drop_v (c ∷ s) = if c == b'v' then s else if c == b'V' then s else c ∷ s

-- The version core, cut at the dots.
unfoldable pub parse_core : List Text → Text → Option SemVersion
unfolding parse_part
parse_core (a ∷ []) pre = do
  major ← parse_part a
  some (record { major = major; minor = 0; patch = 0; pre = pre })
parse_core (a ∷ b ∷ []) pre = do
  major ← parse_part a
  minor ← parse_part b
  some (record { major = major; minor = minor; patch = 0; pre = pre })
parse_core (a ∷ b ∷ c ∷ []) pre = do
  major ← parse_part a
  minor ← parse_part b
  patch ← parse_part c
  some (record { major = major; minor = minor; patch = patch; pre = pre })
parse_core _ pre = none

-- The pre-release tag is all that follows the first dash.
unfoldable pub parse_tagged : Text → Option SemVersion
unfolding parse_core
parse_tagged s = elim (cut b'-' s) [
  | none ↦ parse_core (split b'.' s) []
  | some (core, pre) ↦ parse_core (split b'.' core) pre
]

unfoldable pub parse_sem_version : Text → Option SemVersion
unfolding parse_tagged drop_v trim_space cut split
parse_sem_version raw =
    let s = trim_space raw in if is_empty s then none else parse_tagged (drop_v s)

unfoldable pub is_numeric_identifier : Text → Bool
is_numeric_identifier [] = false
is_numeric_identifier (c ∷ s) = all is_digit (c ∷ s)

-- strings.TrimLeft(s, "0")
unfoldable pub trim_zeros : Text → Text
trim_zeros [] = []
trim_zeros (c ∷ s) = if c == b'0' then trim_zeros s else c ∷ s

abbrev pub or_zero : Text → Text
or_zero [] = b'0' ∷ []
or_zero (c ∷ s) = c ∷ s

-- On digits a length in bytes is the length in code points.
unfoldable pub compare_trimmed : Text → Text → Sign
unfolding lex
compare_trimmed a b =
    if not (length a == length b)
    then (if ltb (length b) (length a) then greater else less)
    else lex a b

unfoldable pub compare_numeric_identifiers : Text → Text → Sign
unfolding compare_trimmed trim_zeros
compare_numeric_identifiers a b = compare_trimmed (or_zero (trim_zeros a)) (or_zero (trim_zeros b))

-- The `switch` in the loop, on two identifiers that differ.
unfoldable pub compare_identifier : Text → Text → Sign
compare_identifier l r =
    if is_numeric_identifier l
    then (if is_numeric_identifier r then compare_numeric_identifiers l r else less)
    else if is_numeric_identifier r
    then greater
    else if is_greater (lex l r)
    then greater
    else less

-- The loop; the first pair that differs decides.
unfoldable pub compare_identifiers : List Text → List Text → Sign
compare_identifiers [] [] = equal
compare_identifiers [] (r ∷ rs) = less
compare_identifiers (l ∷ ls) [] = greater
compare_identifiers (l ∷ ls) (r ∷ rs) =
    let rest = compare_identifiers ls rs in if same l r then rest else compare_identifier l r

unfoldable pub compare_prerelease : Text → Text → Sign
compare_prerelease a b = compare_identifiers (split b'.' a) (split b'.' b)

-- The tags: no tag is a stable release, which is newer than any pre-release.
unfoldable pub compare_tags : Text → Text → Sign
compare_tags [] [] = equal
compare_tags [] (c ∷ s) = greater
compare_tags (c ∷ s) [] = less
compare_tags (c ∷ s) (d ∷ t) =
    if same (c ∷ s) (d ∷ t) then equal else compare_prerelease (c ∷ s) (d ∷ t)

abbrev pub compare_field : ℕ → ℕ → Sign
compare_field a b = if ltb b a then greater else less

unfoldable pub compare_parsed : SemVersion → SemVersion → Sign
compare_parsed a b =
    if not (a.major == b.major)
    then compare_field a.major b.major
    else if not (a.minor == b.minor)
    then compare_field a.minor b.minor
    else if not (a.patch == b.patch)
    then compare_field a.patch b.patch
    else compare_tags a.pre b.pre

-- `none` is the second result `false`: a side could not be parsed.
unfoldable pub compare_versions : Text → Text → Option Sign
compare_versions a b = do
  left ← parse_sem_version a
  right ← parse_sem_version b
  some (compare_parsed left right)
