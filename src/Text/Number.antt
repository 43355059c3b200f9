-- ===== src/Text/Number.antt =====
-- strconv.Atoi on a 64-bit int.
use awiki_cli.Base.{
  ℕ, ◌+◌, ◌-◌, ◌*◌, Bool, true, false, ◌&&◌, [], ◌∷◌, Option, none, some, ◌==◌, leb, if◌then◌else◌,
  all,
}
use awiki_cli.Base.Int.{ℤ, pos, neg}
use awiki_cli.Text.{Text}

abbrev pub is_digit : ℕ → Bool
is_digit c = leb b'0' c && leb c b'9'

-- The digits after those that `acc` holds.
unfoldable pub value_from : ℕ → Text → ℕ
value_from acc [] = acc
value_from acc (c ∷ s) = value_from (acc * 10 + (c - b'0')) s

-- The number that a text of digits stands for.
unfoldable pub value : Text → ℕ
unfolding value_from
value s = value_from 0 s

-- A number of digits, none for the empty text and for a text with another character.
unfoldable pub decimal : Text → Option ℕ
unfolding value
decimal [] = none
decimal (c ∷ s) = if all is_digit (c ∷ s) then some (value (c ∷ s)) else none

abbrev pub max_int : ℕ
max_int = 9223372036854775807

-- The range check behind the sign.
abbrev pub in_range : ℕ → ℕ → ℤ → Option ℤ
in_range bound n i = if leb n bound then some i else none

unfoldable pub signed : Bool → Option ℕ → Option ℤ
signed negative none = none
signed true (some n) = in_range (max_int + 1) n (neg n)
signed false (some n) = in_range max_int n (pos n)

unfoldable pub atoi : Text → Option ℤ
unfolding decimal signed
atoi [] = none
atoi (c ∷ s) =
    if c == b'-'
    then signed true (decimal s)
    else if c == b'+'
    then signed false (decimal s)
    else signed false (decimal (c ∷ s))
