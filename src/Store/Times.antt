-- ===== src/Store/Times.antt =====
-- The times of a merged record: which of two it takes.
use awiki_cli.Base.{
  ℕ, ◌≡◌, refl, ◌≢◌, true, false, arith, Option, none, some, Sign, less, equal, greater, flip,
  sign-flip, Option-cases, inl, inr,
}
use awiki_cli.Text.{Text, lex, trim_space, is_blank}
use awiki_cli.Text.Order.{lex-flip, lex_refl}
use awiki_cli.Store.{
  default_string, compare_instants, compare_time_strings, earlier_time_string, later_time_string,
}

module _ (parse : Text → Option ℕ) where
  compare_instants-flip :
      (a b : Option ℕ) (s : Sign) → compare_instants b a (flip s) ≡ flip (compare_instants a b s)
  unfolding compare_instants
  compare_instants-flip none none s = refl
  compare_instants-flip none (some b) s = refl
  compare_instants-flip (some a) none s = refl
  compare_instants-flip (some a) (some b) s = sign-flip a b

  compare_flip :
      (a b : Text) → compare_time_strings parse b a ≡ flip (compare_time_strings parse a b)
  unfolding compare_time_strings
  compare_flip a b = ground (
    arith,
    lex-flip (trim_space a) (trim_space b),
    compare_instants-flip (parse (trim_space a)) (parse (trim_space b))
        (lex (trim_space a) (trim_space b)),
  )

  compare_refl : (a : Text) → compare_time_strings parse a a ≡ equal
  unfolding compare_time_strings compare_instants
  compare_refl a = elim (Option-cases (parse (trim_space a))) [
    | inl e ↦ ground (arith, lex_refl (trim_space a))
    | inr (n, e) ↦ ground (arith, lex_refl (trim_space a))
  ]

  compare_blank : (a b : Text) → is_blank a ≡ true → compare_time_strings parse a b ≢ greater
  unfolding compare_time_strings is_blank
  compare_blank a b h e = ground arith

  -- The later of two times comes before neither of them.
  pub later_time_string_lem :
      (a b : Text)
      → (compare_time_strings parse (later_time_string parse a b) a ≢ less)
        × (compare_time_strings parse (later_time_string parse a b) b ≢ less)
  unfolding later_time_string default_string
  later_time_string_lem a b = (
    ground (arith, compare_flip a b, compare_refl a, compare_refl b, compare_blank a b),
    ground (arith, compare_flip a b, compare_refl a, compare_refl b, compare_blank a b),
  )

  -- When one side has a time and the other has none, the later of the two is the one there is, and
  -- the earlier of the two is none: a merged record loses a first time that only one side has.
  pub earlier_time_string-lost :
      (a b : Text)
      → is_blank a ≡ false
      → is_blank b ≡ true
      → (later_time_string parse a b ≡ a) × (earlier_time_string parse a b ≡ b)
  unfolding later_time_string earlier_time_string compare_time_strings default_string is_blank
  earlier_time_string-lost a b ha hb = ground arith
