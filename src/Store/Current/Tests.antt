-- ===== src/Store/Current/Tests.antt =====
-- Runs of normalizeRecoveredCurrentHandles of internal/store/recover_merge.go on two contacts.
use awiki_cli.Base.{
  ◌≡◌, refl, sym, Bool, true, false, [], ◌∷◌, arith, none, some, ok, err, ok_or, any,
}
use awiki_cli.Text.{Text, text, same, lex, trim_space, trim_left, trim_right, is_space}
use awiki_cli.Text.Order.{eq_of_same}
use awiki_cli.Store.Contact.{ContactRecord}
use awiki_cli.Store.Binding.{ContactHandleBindingRecord}
use awiki_cli.Store.Book.{Book}
use awiki_cli.Store.Book.Counts.{count}
use awiki_cli.Store.Book.Keys.{is_now}
use awiki_cli.Store.Current.{
  is_later, last_seen, mark_current, move_handle, normalize_current_handle,
  normalize_recovered_current_handles, unique_violation,
}
use awiki_cli.Store.Current.Settled.{
  IsKeyed, IsSettled, normalize_recovered_current_handles-IsSettled,
}
use awiki_cli.Store.Current.Visits.{normalize_current_handle-err_iff}

abbrev me : Text
me = text "did:me"

abbrev bob : Text
bob = text "bob"

abbrev contact : Text → ContactRecord
contact did = record {
  owner_did = me;
  did = did;
  name = [];
  handle = bob;
  nick_name = [];
  bio = [];
  profile_md = [];
  tags = [];
  relationship = [];
  source_type = [];
  source_name = [];
  source_group_id = [];
  connected_at = [];
  recommended_reason = [];
  followed = none;
  messaged = some true;
  note = [];
  first_seen_at = [];
  last_seen_at = [];
  metadata = [];
  credential_name = [];
}

abbrev binding : Text → Text → Bool → ContactHandleBindingRecord
binding did seen now = record {
  owner_did = me;
  handle = bob;
  did = did;
  is_current = now;
  first_seen_at = seen;
  last_seen_at = seen;
  source_type = [];
  source_group_id = [];
  metadata = [];
  credential_name = [];
}

abbrev old : ContactHandleBindingRecord
old = binding (text "did:a") (text "2024") true

abbrev later : ContactHandleBindingRecord
later = binding (text "did:b") (text "2025") false

-- Two contacts have the handle, as a recovery leaves them.
abbrev book : Book
book = record {
  contacts = contact (text "did:a") ∷ (contact (text "did:b") ∷ []);
  bindings = old ∷ (later ∷ []);
}

-- The same rows, the later one in front.
abbrev turned : Book
turned = record book { bindings = later ∷ (old ∷ []) }

abbrev settled : Book
settled = ok_or book (normalize_recovered_current_handles me (bob ∷ []) book)

differ : (d : Text) → same (text "did:a") d ≡ true → same (text "did:b") d ≡ false
unfolding same lex
differ d e = rw (sym (eq_of_same (text "did:a") d e)) refl

book-IsKeyed : IsKeyed book
book-IsKeyed = record {
  bindings_ok = record {
    one_key = λ o h d. unfold count in ground (arith, differ d);
    one_now = λ o h. unfold count in ground arith;
  };
  one_did = λ o d. unfold count in ground (arith, differ d);
}

turned-IsKeyed : IsKeyed turned
turned-IsKeyed = record {
  bindings_ok = record {
    one_key = λ o h d. unfold count in ground (arith, differ d);
    one_now = λ o h. unfold count in ground arith;
  };
  one_did = λ o d. unfold count in ground (arith, differ d);
}

normalize_recovered_current_handles-IsSettled_example : IsKeyed settled × IsSettled me bob settled
unfolding same lex trim_space trim_left trim_right is_space is_later last_seen mark_current
    move_handle normalize_current_handle normalize_recovered_current_handles
normalize_recovered_current_handles-IsSettled_example =
    normalize_recovered_current_handles-IsSettled me refl (bob ∷ []) bob book settled refl
      book-IsKeyed refl refl

normalize_current_handle-err_iff_example :
    (any (is_now me bob) (old ∷ []) ≡ true
      → normalize_current_handle me bob turned ≡ err unique_violation)
    × (any (is_now me bob) (old ∷ []) ≡ false
        → (c : Book) × (normalize_current_handle me bob turned ≡ ok c))
unfolding same lex trim_space trim_left trim_right is_space is_later last_seen
normalize_current_handle-err_iff_example =
    normalize_current_handle-err_iff me bob turned later later [] (old ∷ []) refl turned-IsKeyed
      refl refl refl

refused : normalize_current_handle me bob turned ≡ err unique_violation
unfolding same lex trim_space trim_left trim_right is_space is_later last_seen mark_current
    normalize_current_handle
refused = refl
