-- ===== src/Identity/Index/Tests.antt =====
-- Runs on an index with one identity, for internal/identity/store.go.
use awiki_cli.Base.{ℕ, ◌≡◌, refl, false, [], Option, some, ok, err, ok_or}
use awiki_cli.Text.{
  Text, text, same, trim_space, trim_left, trim_right, is_space, is_blank, has_prefix, split, cut,
  to_lower,
}
use awiki_cli.Identity.Did.{
  without_last, did_path, parse_did_path, is_user, handle_path, handle_path_prefix_from_did,
}
use awiki_cli.Identity.Handle.{
  trim_prefix, trim_dot, normalize_handle_domain, full_input, bare_input, normalize_handle_input,
  derive_full_handle_from_did, normalize_stored_full_handle, stored_local_part,
  stored_handle_fields,
}
use awiki_cli.Identity.Names.{
  is_safe, replace_unsafe, is_mark, trim_marks_left, trim_marks, sanitize_component,
  preferred_dir_name,
}
use awiki_cli.Identity.Index.{
  IndexFile, missing, identity_conflict, lookup, is_key, without_name, put, default_name,
  named_entries, normalize_index_payload, load_index_from, save_index_to, resolve_entry_name,
  SaveInput, uses_dir, is_taken, put_saved, save, Profile, is_claimed, relinked, replacement,
  replace_identity,
}
use awiki_cli.Identity.Index.Laws.{IsSoundFile, save-IsSoundFile}
use awiki_cli.Identity.Index.Replace.{replace_identity-IsSoundFile, IsSoundFile-missing}

-- No letters beyond ASCII, and no escapes.
abbrev plain : ℕ → ℕ
plain c = c

abbrev unescaped : Text → Option Text
unescaped t = some t

abbrev input : Text → Text → SaveInput
input name did = record {
  identity_name = name;
  did = did;
  unique_id = text "e1_x";
  user_id = text "u1";
  display_name = [];
  handle = text "alice";
  full_handle = [];
  replace_existing = false;
}

abbrev first_did : Text
first_did = text "did:wba:a.org:alice:e1_x"

abbrev second_did : Text
second_did = text "did:wba:a.org:alice:e1_y"

abbrev profile : Profile
profile = record {
  user_id = text "u1";
  display_name = text "Alice";
  handle = text "alice";
  full_handle = text "alice.a.org";
  created_at = text "2025";
}

-- The index with one identity.
abbrev one : IndexFile
one = ok_or missing (save plain unescaped (text "2025") (input (text "work") first_did) missing)

-- The identity with its DID replaced.
abbrev replaced : IndexFile
replaced = ok_or missing (
    replace_identity plain unescaped (text "2026") profile (text "work")
      (input (text "work") second_did) one)

saves : save plain unescaped (text "2025") (input (text "work") first_did) missing ≡ ok one
unfolding same trim_space trim_left trim_right is_space is_blank has_prefix split cut to_lower
    without_last did_path parse_did_path is_user handle_path handle_path_prefix_from_did trim_prefix
    trim_dot normalize_handle_domain full_input bare_input normalize_handle_input
    derive_full_handle_from_did normalize_stored_full_handle stored_local_part stored_handle_fields
    is_safe replace_unsafe is_mark trim_marks_left trim_marks sanitize_component preferred_dir_name
    lookup uses_dir is_taken load_index_from save
saves = refl

replaces :
    replace_identity plain unescaped
      (text "2026")
      profile
      (text "work")
      (input (text "work") second_did)
      one
    ≡ ok replaced
unfolding same trim_space trim_left trim_right is_space is_blank has_prefix split cut to_lower
    without_last did_path parse_did_path is_user handle_path handle_path_prefix_from_did trim_prefix
    trim_dot normalize_handle_domain full_input bare_input normalize_handle_input
    derive_full_handle_from_did normalize_stored_full_handle stored_local_part stored_handle_fields
    is_safe replace_unsafe is_mark trim_marks_left trim_marks sanitize_component preferred_dir_name
    lookup is_key without_name put default_name named_entries normalize_index_payload uses_dir
    is_taken put_saved save_index_to load_index_from save resolve_entry_name is_claimed relinked
    replacement replace_identity
replaces = refl

-- Another name cannot use the directory for another DID.
conflict :
    save plain unescaped (text "2025") (input (text "home") second_did) one ≡ err identity_conflict
unfolding same trim_space trim_left trim_right is_space is_blank has_prefix split cut to_lower
    without_last did_path parse_did_path is_user handle_path handle_path_prefix_from_did trim_prefix
    trim_dot normalize_handle_domain full_input bare_input normalize_handle_input
    derive_full_handle_from_did normalize_stored_full_handle stored_local_part stored_handle_fields
    is_safe replace_unsafe is_mark trim_marks_left trim_marks sanitize_component preferred_dir_name
    lookup is_key without_name put default_name named_entries normalize_index_payload uses_dir
    is_taken put_saved save_index_to load_index_from save
conflict = refl

save-IsSoundFile_example : IsSoundFile one
save-IsSoundFile_example =
    save-IsSoundFile plain unescaped (text "2025") (input (text "work") first_did) missing one
      IsSoundFile-missing saves

replace_identity-IsSoundFile_example : IsSoundFile replaced
replace_identity-IsSoundFile_example =
    replace_identity-IsSoundFile plain unescaped (text "2026") profile (text "work")
      (input (text "work") second_did) one replaced
      (save-IsSoundFile plain unescaped (text "2025") (input (text "work") first_did) missing one
        IsSoundFile-missing saves)
      replaces
