-- ===== src/Text/Lower.antt =====
-- Lower case, given what unicode.ToLower does beyond ASCII.
use awiki_cli.Base.{ℕ, ◌≤◌, ◌≡◌, refl, [], ◌∷◌, arith, ◌∙◌}
use awiki_cli.Text.{Text, is_space, lower, to_lower, trim_space}
use awiki_cli.Text.Trim.{HeadOk, LastOk, trim_space-HeadOk, trim_space-LastOk, trim_space_of_ends}

-- The documented behaviour of unicode.ToLower on the code points from 128 up: a lower case letter
-- stays, and white space is neither made nor lost.
pub record IsCase (wide : ℕ → ℕ) : Type 0 where
  pub wide_idem : (c : ℕ) → 128 ≤ c → lower wide (wide c) ≡ wide c
  pub wide_space : (c : ℕ) → 128 ≤ c → is_space (wide c) ≡ is_space c

module _ {wide : ℕ → ℕ} (case : IsCase wide) where
  lower_idem : (c : ℕ) → lower wide (lower wide c) ≡ lower wide c
  lower_idem c = ground (arith, case.wide_idem c)

  space-lower : (c : ℕ) → is_space (lower wide c) ≡ is_space c
  unfolding is_space
  space-lower c = ground (arith, case.wide_space c)

  pub to_lower_idem : (s : Text) → to_lower wide (to_lower wide s) ≡ to_lower wide s
  unfolding to_lower
  to_lower_idem [] = refl
  to_lower_idem (c ∷ s) = ground (arith, lower_idem c, to_lower_idem s)

  to_lower-HeadOk : (s : Text) → HeadOk s → HeadOk (to_lower wide s)
  unfolding to_lower
  to_lower-HeadOk [] h = tt
  to_lower-HeadOk (c ∷ s) h = space-lower c ∙ h

  to_lower-LastOk : (s : Text) → LastOk s → LastOk (to_lower wide s)
  unfolding to_lower
  to_lower-LastOk [] h = tt
  to_lower-LastOk (c ∷ []) h = space-lower c ∙ h
  to_lower-LastOk (c ∷ d ∷ s) h = to_lower-LastOk (d ∷ s) h

  -- The lower case of a trimmed text is trimmed.
  pub trim-lower :
      (s : Text) → trim_space (to_lower wide (trim_space s)) ≡ to_lower wide (trim_space s)
  trim-lower s =
      trim_space_of_ends _ (to_lower-HeadOk _ (trim_space-HeadOk s))
        (to_lower-LastOk _ (trim_space-LastOk s))
