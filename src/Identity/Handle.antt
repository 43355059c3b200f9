-- ===== src/Identity/Handle.antt =====
-- internal/identity/handle_input.go: handles as they are typed and as they are stored. `wide` is
-- unicode.ToLower beyond ASCII, `unescape` is url.PathUnescape.
pub mod Laws
pub mod Trip
use awiki_cli.Base.{
  ℕ, ◌+◌, Bool, true, false, not, ◌&&◌, ◌||◌, List, [], ◌∷◌, ◌++◌, Option, none, some,
  if◌then◌else◌, ◌==◌, Result, ok, err,
}
use awiki_cli.Text.{Text, text, trim_space, has_prefix, cut, is_empty, is_blank, to_lower}
use awiki_cli.Identity.Did.{handle_path_prefix_from_did}

pub record NormalizedHandle : Type 0 where
  pub local_part : Text
  pub full_handle : Text
  pub effective_domain : Text
  pub explicit_domain : Bool

pub data HandleError : Type 0 where
  handle_required : HandleError
  did_not_supported : HandleError
  invalid_handle : HandleError
  did_domain_required : HandleError

-- strings.TrimPrefix
unfoldable pub trim_prefix : Text → Text → Text
trim_prefix s [] = s
trim_prefix [] (p ∷ ps) = []
trim_prefix (c ∷ s) (p ∷ ps) = if c == p && has_prefix s ps then trim_prefix s ps else (c ∷ s)

-- strings.TrimSuffix(s, ".")
unfoldable pub trim_dot : Text → Text
trim_dot [] = []
trim_dot (c ∷ []) = if c == b'.' then [] else c ∷ []
trim_dot (c ∷ d ∷ s) = c ∷ trim_dot (d ∷ s)

module _ (wide : ℕ → ℕ) where
  unfoldable pub normalize_handle_domain : Text → Text
  normalize_handle_domain domain = trim_dot (trim_space (to_lower wide domain))

  -- A handle with a domain of its own.
  unfoldable pub full_input : Text → Text → Result HandleError NormalizedHandle
  full_input before after =
      let local_part = trim_space before in
      let domain = normalize_handle_domain after in
      if is_empty local_part || is_empty domain
      then err invalid_handle
      else ok (record {
        local_part = local_part;
        full_handle = local_part ++ (b'.' ∷ domain);
        effective_domain = domain;
        explicit_domain = true;
      })

  unfoldable pub bare_input : Text → Text → Result HandleError NormalizedHandle
  bare_input handle did_domain =
      let domain = normalize_handle_domain did_domain in
      if is_empty domain
      then err did_domain_required
      else ok (record {
        local_part = handle;
        full_handle = handle ++ (b'.' ∷ domain);
        effective_domain = domain;
        explicit_domain = false;
      })

  unfoldable pub normalize_handle_input : Text → Text → Result HandleError NormalizedHandle
  normalize_handle_input raw did_domain =
      let lower = to_lower wide (trim_space raw) in
      let handle = trim_prefix lower (text "wba://") in
      if is_blank raw
      then err handle_required
      else if has_prefix lower (text "did:")
      then err did_not_supported
      else if is_empty handle
      then err handle_required
      else elim (cut b'.' handle) [
        | some (before, after) ↦ full_input before after
        | none ↦ bare_input handle did_domain
      ]

  unfoldable pub complete_bare_handle : Text → Text → Text
  complete_bare_handle target did_domain =
      let trimmed = trim_space target in
      if is_empty trimmed
      then []
      else if has_prefix (to_lower wide trimmed) (text "did:")
      then trimmed
      else elim (normalize_handle_input trimmed did_domain) [
        | err e ↦ trimmed
        | ok n ↦ if n.explicit_domain then trimmed else n.full_handle
      ]

  module _ (unescape : Text → Option Text) where
    unfoldable pub derive_full_handle_from_did : Text → Text → Text
    derive_full_handle_from_did handle did =
        let local_part = trim_space (to_lower wide handle) in
        if is_empty local_part then [] else elim (handle_path_prefix_from_did unescape did) [
          | err e ↦ []
          | ok (domain, path) ↦
              if is_empty (normalize_handle_domain domain)
              then []
              else local_part ++ (b'.' ∷ normalize_handle_domain domain)
        ]

    unfoldable pub normalize_stored_full_handle : Text → Text → Option NormalizedHandle
    normalize_stored_full_handle full_handle did =
        let trimmed = trim_space full_handle in
        if is_empty trimmed then none else elim (normalize_handle_input trimmed []) [
          | ok n ↦ some n
          | err e ↦ elim (handle_path_prefix_from_did unescape did) [
            | err d ↦ none
            | ok (domain, path) ↦ elim (normalize_handle_input trimmed domain) [
              | ok n ↦ some n
              | err d ↦ none
            ]
          ]
        ]

    -- The local part of a handle that is stored.
    unfoldable pub stored_local_part : Text → Text
    stored_local_part handle =
        let local_part = trim_prefix (trim_space (to_lower wide handle)) (text "wba://") in
        elim (cut b'.' local_part) [ none ↦ local_part | some (before, after) ↦ before ]

    unfoldable pub stored_handle_fields : Text → Text → Text → Text × Text
    stored_handle_fields handle full_handle did =
        let local_part = stored_local_part handle in
        elim (normalize_stored_full_handle full_handle did) [
          | some n ↦ (if is_empty local_part then n.local_part else local_part, n.full_handle)
          | none ↦
              if is_empty local_part
              then ([], [])
              else (local_part, derive_full_handle_from_did local_part did)
        ]
