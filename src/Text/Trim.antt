-- ===== src/Text/Trim.antt =====
-- What trimming leaves.
use awiki_cli.Base.{
  ℕ, ◌≡◌, refl, false, [], ◌∷◌, arith, ap, Bool-cases, if◌then◌else◌, inl, inr, ◌∙◌,
}
use awiki_cli.Text.{Text, is_space, trim_left, trim_right, trim_space}

-- No space at the front.
abbrev pub HeadOk : Text → Type 0
HeadOk [] = Unit
HeadOk (c ∷ s) = is_space c ≡ false

-- No space at the end.
abbrev pub LastOk : Text → Type 0
LastOk [] = Unit
LastOk (c ∷ []) = is_space c ≡ false
LastOk (c ∷ d ∷ s) = LastOk (d ∷ s)

trim_left-HeadOk : (s : Text) → HeadOk (trim_left s)
unfolding trim_left
trim_left-HeadOk [] = tt
trim_left-HeadOk (c ∷ s) = elim (Bool-cases (is_space c)) [
  | inl e ↦ rw e (trim_left-HeadOk s)
  | inr e ↦ rw e e
]

trim_left_of_HeadOk : (s : Text) → HeadOk s → trim_left s ≡ s
unfolding trim_left
trim_left_of_HeadOk [] h = refl
trim_left_of_HeadOk (c ∷ s) h = ground arith

-- The trimmed text, from the trimmed tail.
unfoldable pub snoc_trim : ℕ → Text → Text
snoc_trim c [] = if is_space c then [] else c ∷ []
snoc_trim c (d ∷ r) = c ∷ d ∷ r

pub trim_right_cons : (c : ℕ) (s : Text) → trim_right (c ∷ s) ≡ snoc_trim c (trim_right s)
unfolding trim_right snoc_trim
trim_right_cons c s = ground arith

snoc_trim-LastOk : (c : ℕ) (s : Text) → LastOk s → LastOk (snoc_trim c s)
unfolding snoc_trim
snoc_trim-LastOk c [] h = elim (Bool-cases (is_space c)) [ inl e ↦ rw e tt | inr e ↦ rw e e ]
snoc_trim-LastOk c (d ∷ r) h = h

snoc_trim-HeadOk : (c : ℕ) (s : Text) → is_space c ≡ false → HeadOk (snoc_trim c s)
unfolding snoc_trim
snoc_trim-HeadOk c [] h = rw h h
snoc_trim-HeadOk c (d ∷ r) h = h

trim_right-LastOk : (s : Text) → LastOk (trim_right s)
trim_right-LastOk [] = unfold trim_right in tt
trim_right-LastOk (c ∷ s) = rw trim_right_cons (snoc_trim-LastOk c _ (trim_right-LastOk s))

trim_right_of_LastOk : (s : Text) → LastOk s → trim_right s ≡ s
unfolding trim_right
trim_right_of_LastOk [] h = refl
trim_right_of_LastOk (c ∷ []) h = ground arith
trim_right_of_LastOk (c ∷ d ∷ s) h = ground (arith, trim_right_of_LastOk (d ∷ s) h)

trim_right-HeadOk : (s : Text) → HeadOk s → HeadOk (trim_right s)
trim_right-HeadOk [] h = unfold trim_right in tt
trim_right-HeadOk (c ∷ s) h = rw trim_right_cons (snoc_trim-HeadOk c _ h)

pub trim_space-HeadOk : (s : Text) → HeadOk (trim_space s)
unfolding trim_space
trim_space-HeadOk s = trim_right-HeadOk (trim_left s) (trim_left-HeadOk s)

pub trim_space-LastOk : (s : Text) → LastOk (trim_space s)
unfolding trim_space
trim_space-LastOk s = trim_right-LastOk (trim_left s)

pub trim_space_of_ends : (s : Text) → HeadOk s → LastOk s → trim_space s ≡ s
unfolding trim_space
trim_space_of_ends s h l = ap trim_right (trim_left_of_HeadOk s h) ∙ trim_right_of_LastOk s l

-- Trimming a second time changes nothing.
pub trim_space_idem : (s : Text) → trim_space (trim_space s) ≡ trim_space s
trim_space_idem s = trim_space_of_ends (trim_space s) (trim_space-HeadOk s) (trim_space-LastOk s)
