-- ===== src/Identity/Names.antt =====
-- internal/identity/layout.go and internal/identity/store.go: the names of identities and of their
-- directories. `wide` is unicode.ToLower beyond ASCII, `stamp` the present time in seconds, `itoa`
-- what fmt.Sprintf prints for %d.
pub mod Fresh
use awiki_cli.Base.{
  ℕ, zero, suc, ◌+◌, Bool, true, false, not, ◌&&◌, ◌||◌, List, [], ◌∷◌, ◌++◌, Option, none, some,
  if◌then◌else◌, ◌==◌, leb, reverse, Result, ok, err,
}
use awiki_cli.Text.{Text, text, same, trim_space, is_empty, to_lower}
use awiki_cli.Text.Number.{is_digit}
use awiki_cli.Store.{is_in}

-- [A-Za-z0-9._-]
unfoldable pub is_safe : ℕ → Bool
is_safe c =
    leb b'A' c && leb c b'Z'
    || leb b'a' c && leb c b'z'
    || is_digit c
    || c == b'.'
    || c == b'_'
    || c == b'-'

-- safePathComponent.ReplaceAllString(raw, "_"), `inside` a run of unsafe characters.
unfoldable pub replace_unsafe : Bool → Text → Text
replace_unsafe inside [] = []
replace_unsafe inside (c ∷ s) =
    let safe = replace_unsafe false s in
    let unsafe = replace_unsafe true s in
    if is_safe c then c ∷ safe else if inside then unsafe else b'_' ∷ unsafe

-- The characters of the cutset "._-".
unfoldable pub is_mark : ℕ → Bool
is_mark c = c == b'.' || (c == b'_' || c == b'-')

unfoldable pub trim_marks_left : Text → Text
trim_marks_left [] = []
trim_marks_left (c ∷ s) = if is_mark c then trim_marks_left s else c ∷ s

-- strings.Trim(s, "._-")
unfoldable pub trim_marks : Text → Text
trim_marks s = reverse (trim_marks_left (reverse (trim_marks_left s)))

unfoldable pub sanitize_component : Text → Text
sanitize_component raw = trim_marks (replace_unsafe false raw)

pub data NameError : Type 0 where
  unique_id_required : NameError

unfoldable pub preferred_dir_name : Text → Result NameError Text
preferred_dir_name unique_id =
    let sanitized = sanitize_component unique_id in
    if is_empty sanitized then err unique_id_required else ok sanitized

unfoldable pub sanitize_identity_name : (ℕ → ℕ) → Text → Text
sanitize_identity_name wide raw = sanitize_component (to_lower wide (trim_space raw))

module _ (itoa : ℕ → Text) where
  -- fmt.Sprintf("%s-%d", base, idx)
  abbrev pub numbered : Text → ℕ → Text
  numbered base idx = base ++ (b'-' ∷ itoa idx)

  -- The loop over the numbers from `idx` on, `rounds` of them.
  unfoldable pub first_unused : ℕ → ℕ → Text → (Text → Bool) → Option Text
  first_unused zero idx base used = none
  first_unused (suc rounds) idx base used =
      let rest = first_unused rounds (suc idx) base used in
      if used (numbered base idx) then rest else some (numbered base idx)

  -- The name of a new identity when none is asked for: the numbers 2 to 999 are tried.
  unfoldable pub unused_name : ℕ → List Text → Text → Text
  unused_name stamp used base =
      let b = if is_empty base then text "identity" else base in
      if not (is_in b used)
      then b
      else elim (first_unused 998 2 b (λ c. is_in c used)) [ some c ↦ c | none ↦ numbered b stamp ]

  module _ (wide : ℕ → ℕ) where
    unfoldable pub choose_named_identity : ℕ → Text → List Text → Text → Text
    choose_named_identity stamp requested existing fallback =
        let sanitized = sanitize_identity_name wide requested in
        if not (is_empty sanitized)
        then sanitized
        else unused_name stamp existing (sanitize_identity_name wide fallback)

    unfoldable pub choose_default_identity_name : ℕ → Text → List Text → Text → Text
    choose_default_identity_name stamp requested existing fallback =
        let sanitized = sanitize_identity_name wide requested in
        if not (is_empty sanitized) then sanitized else elim existing [
          | [] ↦ text "default"
          | x ∷ xs ↦ unused_name stamp (x ∷ xs) (sanitize_identity_name wide fallback)
        ]

  -- The loop of uniqueBackupDir, as far as the fuel goes.
  unfoldable pub backup_dir_from : ℕ → ℕ → Text → (Text → Bool) → Text → Option Text
  backup_dir_from zero idx base file_exists candidate = none
  backup_dir_from (suc fuel) idx base file_exists candidate =
      let rest = backup_dir_from fuel (suc idx) base file_exists (numbered base idx) in
      if file_exists candidate then rest else some candidate

  unfoldable pub unique_backup_dir : ℕ → (Text → Bool) → Text → Option Text
  unique_backup_dir fuel file_exists base = backup_dir_from fuel 2 base file_exists base
