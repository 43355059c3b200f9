-- ===== src/Store/Book/Tests.antt =====
-- Runs of UpsertContact of internal/store/dao.go on two contacts.
use awiki_cli.Base.{◌≡◌, ◌≤◌, refl, true, false, [], arith, none, some, ok, ok_or}
use awiki_cli.Text.{Text, text, same, lex, trim_space, trim_left, trim_right, is_space, is_blank}
use awiki_cli.Store.{default_string, bool_from_ptr}
use awiki_cli.Store.Contact.{ContactRecord}
use awiki_cli.Store.Book.{
  Book, coalesce, coalesce_flag, find_contact, find_handle, clear_handle, refreshed, refresh,
  new_contact, release, put_contact, demote, rebound, bind, upsert_contact_handle_binding,
  binding_of, upsert_contact, get_contact_by_did, get_current_contact_by_handle,
}
use awiki_cli.Store.Book.Counts.{count}
use awiki_cli.Store.Book.Keys.{is_at}
use awiki_cli.Store.Book.Laws.{IsConsistent, upsert_contact-IsConsistent, upsert_contact-current}

abbrev contact : Text → Text → ContactRecord
contact did handle = record {
  owner_did = text "did:me";
  did = did;
  name = [];
  handle = handle;
  nick_name = [];
  bio = [];
  profile_md = [];
  tags = [];
  relationship = [];
  source_type = [];
  source_name = [];
  source_group_id = [];
  connected_at = [];
  recommended_reason = [];
  followed = none;
  messaged = some true;
  note = [];
  first_seen_at = [];
  last_seen_at = [];
  metadata = [];
  credential_name = [];
}

abbrev now : Text
now = text "2025"

abbrev empty : Book
empty = record { contacts = []; bindings = [] }

abbrev after : ContactRecord → Book → Book
after r b = ok_or b (upsert_contact now r b)

-- The book in which one contact has the handle.
abbrev one : Book
one = after (contact (text "did:a") (text "bob")) empty

empty-IsConsistent : IsConsistent empty
empty-IsConsistent = record {
  contacts_ok = record {
    one_did = λ o d. unfold count in omega arith;
    one_holder = λ o h. unfold count in omega arith;
  };
  bindings_ok = record {
    one_key = λ o h d. unfold count in omega arith;
    one_now = λ o h. unfold count in omega arith;
  };
  bound = λ o h d e. absurd (unfold count in omega arith);
}

succeeds :
    (r : ContactRecord) (b : Book)
    → is_blank r.did ≡ false
    → upsert_contact now r b ≡ ok (after r b)
unfolding upsert_contact
succeeds r b e = rw e refl

one-IsConsistent : IsConsistent one
unfolding is_blank trim_space trim_left trim_right is_space
one-IsConsistent =
    upsert_contact-IsConsistent now (contact (text "did:a") (text "bob")) empty one
      empty-IsConsistent (succeeds (contact (text "did:a") (text "bob")) empty refl)

-- The handle goes to another contact.
moved :
    get_current_contact_by_handle
      (text "did:me")
      (text "bob")
      (after (contact (text "did:b") (text " bob ")) one)
    ≡ some (record (contact (text "did:b") (text "bob")) {
      followed = some false;
      first_seen_at = now;
      last_seen_at = now;
    })
unfolding same lex trim_space trim_left trim_right is_space is_blank default_string bool_from_ptr
    coalesce coalesce_flag find_contact find_handle clear_handle refreshed refresh new_contact
    release put_contact demote rebound bind upsert_contact_handle_binding binding_of upsert_contact
    get_current_contact_by_handle
moved = refl

released :
    get_contact_by_did
      (text "did:me")
      (text "did:a")
      (after (contact (text "did:b") (text "bob")) one)
    ≡ some (record (contact (text "did:a") []) {
      followed = some false;
      first_seen_at = now;
      last_seen_at = now;
    })
unfolding same lex trim_space trim_left trim_right is_space is_blank default_string bool_from_ptr
    coalesce coalesce_flag find_contact find_handle clear_handle refreshed refresh new_contact
    release put_contact demote rebound bind upsert_contact_handle_binding binding_of upsert_contact
    get_contact_by_did
released = refl

upsert_contact-IsConsistent_example : IsConsistent (after (contact (text "did:b") (text "bob")) one)
unfolding is_blank trim_space trim_left trim_right is_space
upsert_contact-IsConsistent_example =
    upsert_contact-IsConsistent now (contact (text "did:b") (text "bob")) one
      (after (contact (text "did:b") (text "bob")) one) one-IsConsistent
      (succeeds (contact (text "did:b") (text "bob")) one refl)

upsert_contact-current_example :
    (c : Book) × (upsert_contact now (contact (text "did:b") (text "bob")) one ≡ ok c)
    × (x : ContactRecord) × (get_current_contact_by_handle (text "did:me") (text "bob") c ≡ some x)
    × (x.did ≡ text "did:b")
    × 1
      ≤ count
          (is_at (trim_space (text "did:me")) (trim_space (text "bob")) (trim_space (text "did:b")))
          c.bindings
unfolding is_blank trim_space trim_left trim_right is_space
upsert_contact-current_example =
    upsert_contact-current now (contact (text "did:b") (text "bob")) one one-IsConsistent refl refl
