-- ===== src/Identity/Tests.antt =====
-- Runs on concrete handles, names and indexes of internal/identity.
use awiki_cli.Base.{ℕ, ◌≡◌, refl, true, false, List, [], ◌∷◌, ◌++◌, arith, Option, some, ok}
use awiki_cli.Text.{
  Text, text, same, trim_space, trim_left, trim_right, is_space, is_blank, has_prefix, split, cut,
  to_lower,
}
use awiki_cli.Text.Split.{Free-of_all}
use awiki_cli.Store.{is_in}
use awiki_cli.Identity.Did.{
  behind_last, did_suffix, is_k1_did, is_e1_did, without_last, did_path, parse_did_path, is_user,
  handle_path, handle_path_prefix_from_did,
}
use awiki_cli.Identity.Handle.{
  NormalizedHandle, trim_prefix, trim_dot, normalize_handle_domain, full_input, bare_input,
  normalize_handle_input, complete_bare_handle, derive_full_handle_from_did,
  normalize_stored_full_handle, stored_local_part, stored_handle_fields,
}
use awiki_cli.Identity.Handle.Laws.{IsHandle, normalize_handle_input-IsHandle}
use awiki_cli.Identity.Handle.Trip.{IsNormal, full, link, normal, normalize_handle_input-back}
use awiki_cli.Identity.Names.{
  is_safe, replace_unsafe, is_mark, trim_marks_left, trim_marks, sanitize_component,
  sanitize_identity_name, first_unused, unused_name, choose_named_identity,
  choose_default_identity_name, backup_dir_from, unique_backup_dir,
}
use awiki_cli.Identity.Names.Fresh.{
  IsPrinting, choose_named_identity-fresh, unique_backup_dir-fresh,
}

-- No letters beyond ASCII, and no escapes.
abbrev plain : ℕ → ℕ
plain c = c

abbrev unescaped : Text → Option Text
unescaped t = some t

abbrev alice : NormalizedHandle
alice = record {
  local_part = text "alice";
  full_handle = text "alice.example.com";
  effective_domain = text "example.com";
  explicit_domain = true;
}

typed : normalize_handle_input plain (text " WBA://Alice.Example.com. ") [] ≡ ok alice
unfolding trim_space trim_left trim_right is_space is_blank has_prefix cut to_lower trim_prefix
    trim_dot normalize_handle_domain full_input normalize_handle_input
typed = refl

-- A space behind the scheme stays in the local part of a bare handle.
spaced :
    normalize_handle_input plain (text "wba:// alice") (text "example.com")
    ≡ ok (record {
      local_part = text " alice";
      full_handle = text " alice.example.com";
      effective_domain = text "example.com";
      explicit_domain = false;
    })
unfolding trim_space trim_left trim_right is_space is_blank has_prefix cut to_lower trim_prefix
    trim_dot normalize_handle_domain bare_input normalize_handle_input
spaced = refl

completed :
    complete_bare_handle plain (text "alice") (text "example.com") ≡ text "alice.example.com"
unfolding trim_space trim_left trim_right is_space is_blank has_prefix cut to_lower trim_prefix
    trim_dot normalize_handle_domain bare_input normalize_handle_input complete_bare_handle
completed = refl

stored :
    stored_handle_fields plain unescaped (text "Alice") [] (text "did:wba:example.com:alice:e1_x")
    ≡ (text "alice", text "alice.example.com")
unfolding trim_space trim_left trim_right is_space is_blank has_prefix split cut to_lower
    trim_prefix trim_dot normalize_handle_domain without_last did_path parse_did_path is_user
    handle_path handle_path_prefix_from_did derive_full_handle_from_did normalize_stored_full_handle
    stored_local_part stored_handle_fields
stored = refl

suffixed : (is_e1_did (text "did:wba:a:e1_x") ≡ true) × (is_k1_did (text "did:wba:a:") ≡ false)
unfolding trim_space trim_left trim_right is_space has_prefix behind_last did_suffix is_e1_did
    is_k1_did
suffixed = (refl, refl)

normalize_handle_input-IsHandle_example : IsHandle alice
unfolding trim_space trim_left trim_right is_space is_blank has_prefix cut to_lower trim_prefix
    trim_dot normalize_handle_domain full_input normalize_handle_input
normalize_handle_input-IsHandle_example =
    normalize_handle_input-IsHandle plain (text "Alice.Example.com") [] alice refl

alice-IsNormal : IsNormal plain (text "alice") (text "example.com")
unfolding trim_space trim_left trim_right is_space has_prefix to_lower trim_dot
alice-IsNormal = record {
  local_lower = refl;
  local_trim = refl;
  local_free = Free-of_all b'.' (text "alice") refl;
  local_some = refl;
  no_did = refl;
  no_wba = refl;
  domain_lower = refl;
  domain_trim = refl;
  domain_dot = refl;
  domain_some = refl;
}

normalize_handle_input-back_example :
    (normalize_handle_input plain (text "alice") (text "Example.com")
      ≡ ok (normal alice-IsNormal false))
    × (normalize_handle_input plain (full alice-IsNormal) [] ≡ ok (normal alice-IsNormal true))
    × (normalize_handle_input plain (link alice-IsNormal) [] ≡ ok (normal alice-IsNormal true))
unfolding trim_space trim_left trim_right is_space to_lower trim_dot normalize_handle_domain
normalize_handle_input-back_example =
    normalize_handle_input-back alice-IsNormal (text "Example.com") [] refl

-- Numbers printed as one character.
abbrev one_char : ℕ → Text
one_char n = n ∷ []

one_char-IsPrinting : IsPrinting one_char
one_char-IsPrinting m n e = ground arith

second_name :
    choose_named_identity one_char plain 7 [] (text "bob" ∷ []) (text "Bob!")
    ≡ text "bob-" ++ (2 ∷ [])
unfolding same trim_space trim_left trim_right is_space to_lower is_in is_safe replace_unsafe
    is_mark trim_marks_left trim_marks sanitize_component sanitize_identity_name first_unused
    unused_name choose_named_identity
second_name = refl

choose_named_identity-fresh_example :
    (is_in
        (choose_named_identity one_char plain 7 [] (text "bob" ∷ []) (text "bob"))
        (text "bob" ∷ [])
      ≡ false)
    × (is_in
          (choose_default_identity_name one_char plain 7 [] (text "bob" ∷ []) (text "bob"))
          (text "bob" ∷ [])
        ≡ false)
unfolding trim_space trim_left trim_right to_lower replace_unsafe trim_marks_left trim_marks
    sanitize_component sanitize_identity_name
choose_named_identity-fresh_example =
    choose_named_identity-fresh one_char one_char-IsPrinting plain 7 [] (text "bob" ∷ [])
      (text "bob") refl (omega arith)

abbrev backups : List Text
backups = text "b" ∷ ((text "b-" ++ (2 ∷ [])) ∷ [])

third :
    unique_backup_dir one_char 4 (λ c. is_in c backups) (text "b") ≡ some (text "b-" ++ (3 ∷ []))
unfolding same is_in backup_dir_from unique_backup_dir
third = refl

unique_backup_dir-fresh_example :
    (c : Text) × (unique_backup_dir one_char 4 (λ d. is_in d backups) (text "b") ≡ some c)
    × (is_in c backups ≡ false)
unique_backup_dir-fresh_example =
    unique_backup_dir-fresh one_char one_char-IsPrinting (λ c. is_in c backups) backups (text "b")
      (λ c e. e)
