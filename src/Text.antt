-- ===== src/Text.antt =====
-- Go strings as lists of code points, and the functions of package strings that the program uses.
-- Go compares strings by their UTF-8 bytes, which is the order of their code points.
pub mod Order
pub mod Trim
pub mod Split
pub mod Number
pub mod Lower
use Prim.Native.Char.{code}
use Prim.Native.String.{String}
use awiki_cli.Base.{
  ◌+◌, ltb, ℕ, zero, suc, ◌+◌, ◌-◌, ◌≡◌, refl, Bool, true, false, ◌&&◌, ◌||◌, not, List, [], ◌∷◌,
  ◌++◌, reverse, Option, none, some, ◌==◌, leb, ltb, if◌then◌else◌, Sign, less, equal, greater,
  sign,
}

abbrev pub Text : Type 0
Text = List ℕ

-- A literal.
abbrev pub text : String → Text
text String.[] = []
text (String.◌∷◌ c s) = code c ∷ text s

-- `a == b` on strings.
unfoldable pub same : Text → Text → Bool
same [] [] = true
same (x ∷ xs) (y ∷ ys) = x == y && same xs ys
same _ _ = false

-- `a < b`, `a > b` on strings.
unfoldable pub lex : Text → Text → Sign
lex [] [] = equal
lex [] (y ∷ ys) = less
lex (x ∷ xs) [] = greater
lex (x ∷ xs) (y ∷ ys) = elim (sign x y) [ less ↦ less | equal ↦ lex xs ys | greater ↦ greater ]

-- unicode.IsSpace
unfoldable pub is_space : ℕ → Bool
is_space c =
    leb 9 c && leb c 13
    || c == 32
    || c == 0x85
    || c == 0xA0
    || c == 0x1680
    || leb 0x2000 c && leb c 0x200A
    || c == 0x2028
    || c == 0x2029
    || c == 0x202F
    || c == 0x205F
    || c == 0x3000

unfoldable pub trim_left : Text → Text
trim_left [] = []
trim_left (c ∷ s) = if is_space c then trim_left s else c ∷ s

-- Without the spaces at the end.
unfoldable pub trim_right : Text → Text
trim_right [] = []
trim_right (c ∷ s) = elim (trim_right s) [
  | [] ↦ if is_space c then [] else c ∷ []
  | d ∷ r ↦ c ∷ d ∷ r
]

-- strings.TrimSpace
unfoldable pub trim_space : Text → Text
unfolding trim_left trim_right is_space
trim_space s = trim_right (trim_left s)

-- The test `s == ""`.
abbrev pub is_empty : Text → Bool
is_empty [] = true
is_empty (_ ∷ _) = false

-- strings.TrimSpace(s) == ""
unfoldable pub is_blank : Text → Bool
unfolding trim_space
is_blank s = is_empty (trim_space s)

-- strings.HasPrefix
unfoldable pub has_prefix : Text → Text → Bool
has_prefix s [] = true
has_prefix [] (p ∷ ps) = false
has_prefix (c ∷ s) (p ∷ ps) = c == p && has_prefix s ps

-- strings.Contains
unfoldable pub contains : Text → Text → Bool
unfolding has_prefix
contains [] sub = has_prefix [] sub
contains (c ∷ s) sub = has_prefix (c ∷ s) sub || contains s sub

-- strings.Split at one code point
unfoldable pub split : ℕ → Text → List Text
split sep [] = [] ∷ []
split sep (c ∷ s) = elim (split sep s) [
  | [] ↦ []
  | part ∷ parts ↦ if c == sep then [] ∷ part ∷ parts else (c ∷ part) ∷ parts
]

-- strings.Join with one code point between
unfoldable pub join : ℕ → List Text → Text
join sep [] = []
join sep (part ∷ []) = part
join sep (part ∷ next ∷ rest) = part ++ (sep ∷ join sep (next ∷ rest))

-- The text before and after the first occurrence, as `strings.IndexByte` and two slices give them.
unfoldable pub cut : ℕ → Text → Option (Text × Text)
cut sep [] = none
cut sep (c ∷ s) =
    let rest = cut sep s in
    if c == sep
    then some ([], s)
    else elim rest [ none ↦ none | some (before, after) ↦ some (c ∷ before, after) ]

-- unicode.ToLower; `wide` gives it beyond ASCII.
abbrev pub lower : (ℕ → ℕ) → ℕ → ℕ
lower wide c = if leb b'A' c && leb c b'Z' then c + 32 else if ltb c 128 then c else wide c

-- strings.ToLower
unfoldable pub to_lower : (ℕ → ℕ) → Text → Text
to_lower wide [] = []
to_lower wide (c ∷ s) = lower wide c ∷ to_lower wide s
