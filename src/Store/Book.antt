-- ===== src/Store/Book.antt =====
-- internal/store/dao.go: the contacts of an owner and the bindings of handles to DIDs. A NULL column
-- reads as the empty string. A failed statement rolls its transaction back, so only runs without one
-- are modelled; a query with no ORDER BY gives the rows in the order of the table.
mod Tests
pub mod Counts
pub mod Keys
pub mod Current
pub mod Holders
pub mod Agree
pub mod Laws
use awiki_cli.Base.{
  ℕ, ◌≡◌, Bool, true, false, not, ◌&&◌, ◌||◌, List, [], ◌∷◌, ◌++◌, Option, none, some,
  if◌then◌else◌, Result, ok, err, is_less,
}
use awiki_cli.Text.{Text, same, lex, trim_space, is_empty, is_blank}
use awiki_cli.Store.{default_string, bool_from_ptr}
use awiki_cli.Store.Contact.{ContactRecord}
use awiki_cli.Store.Binding.{ContactHandleBindingRecord}

pub record Book : Type 0 where
  pub contacts : List ContactRecord
  pub bindings : List ContactHandleBindingRecord

pub data BookError : Type 0 where
  did_required : BookError

-- COALESCE(?, column), where the parameter is `normalizeOptionalString(value)`.
unfoldable pub coalesce : Text → Text → Text
coalesce value column = if is_blank value then column else trim_space value

-- COALESCE(?, column) on flags, where the parameter is `normalizeOptionalBool(value)`.
unfoldable pub coalesce_flag : Option Bool → Option Bool → Option Bool
coalesce_flag none column = column
coalesce_flag (some b) column = some b

abbrev pub is_contact : Text → Text → ContactRecord → Bool
is_contact owner did x = same x.owner_did owner && same x.did did

-- A handle that is NULL is equal to none.
abbrev pub has_handle : Text → Text → ContactRecord → Bool
has_handle owner handle x =
    same x.owner_did owner && (not (is_empty x.handle) && same x.handle handle)

-- SELECT … FROM contacts WHERE owner_did = ? AND did = ?
unfoldable pub find_contact : Text → Text → List ContactRecord → Option ContactRecord
find_contact owner did [] = none
find_contact owner did (x ∷ xs) =
    if is_contact owner did x then some x else find_contact owner did xs

-- SELECT … FROM contacts WHERE owner_did = ? AND handle = ?
unfoldable pub find_handle : Text → Text → List ContactRecord → Option ContactRecord
find_handle owner handle [] = none
find_handle owner handle (x ∷ xs) =
    if has_handle owner handle x then some x else find_handle owner handle xs

-- UPDATE contacts SET handle = NULL, last_seen_at = ? WHERE owner_did = ? AND did = ?
unfoldable pub clear_handle : Text → Text → Text → List ContactRecord → List ContactRecord
clear_handle now owner did [] = []
clear_handle now owner did (x ∷ xs) =
    (if is_contact owner did x then record x { handle = []; last_seen_at = now } else x)
    ∷ clear_handle now owner did xs

-- The row that the UPDATE of a known contact leaves.
unfoldable pub refreshed : Text → ContactRecord → ContactRecord → ContactRecord
refreshed now r x = record x {
  name = coalesce r.name x.name;
  handle = coalesce r.handle x.handle;
  nick_name = coalesce r.nick_name x.nick_name;
  bio = coalesce r.bio x.bio;
  profile_md = coalesce r.profile_md x.profile_md;
  tags = coalesce r.tags x.tags;
  relationship = coalesce r.relationship x.relationship;
  source_type = coalesce r.source_type x.source_type;
  source_name = coalesce r.source_name x.source_name;
  source_group_id = coalesce r.source_group_id x.source_group_id;
  connected_at = coalesce r.connected_at x.connected_at;
  recommended_reason = coalesce r.recommended_reason x.recommended_reason;
  followed = coalesce_flag r.followed x.followed;
  messaged = coalesce_flag r.messaged x.messaged;
  note = coalesce r.note x.note;
  first_seen_at = coalesce r.first_seen_at x.first_seen_at;
  last_seen_at = now;
  metadata = coalesce r.metadata x.metadata;
}

unfoldable pub refresh : Text → Text → ContactRecord → List ContactRecord → List ContactRecord
refresh now owner r [] = []
refresh now owner r (x ∷ xs) =
    (if is_contact owner r.did x then refreshed now r x else x) ∷ refresh now owner r xs

-- The row that the INSERT of a new contact makes.
unfoldable pub new_contact : Text → Text → ContactRecord → ContactRecord
new_contact now owner r = record {
  owner_did = owner;
  did = r.did;
  name = trim_space r.name;
  handle = trim_space r.handle;
  nick_name = trim_space r.nick_name;
  bio = trim_space r.bio;
  profile_md = trim_space r.profile_md;
  tags = trim_space r.tags;
  relationship = trim_space r.relationship;
  source_type = trim_space r.source_type;
  source_name = trim_space r.source_name;
  source_group_id = trim_space r.source_group_id;
  connected_at = trim_space r.connected_at;
  recommended_reason = trim_space r.recommended_reason;
  followed = some (bool_from_ptr r.followed);
  messaged = some (bool_from_ptr r.messaged);
  note = trim_space r.note;
  first_seen_at = default_string r.first_seen_at now;
  last_seen_at = default_string r.last_seen_at now;
  metadata = trim_space r.metadata;
  credential_name = [];
}

-- The contact that had the handle loses it to another one.
abbrev pub release_from :
    Text → Text → ContactRecord → Option ContactRecord → List ContactRecord → List ContactRecord
release_from now owner r none xs = xs
release_from now owner r (some holder) xs =
    if same holder.did r.did then xs else clear_handle now owner holder.did xs

unfoldable pub release : Text → Text → ContactRecord → List ContactRecord → List ContactRecord
release now owner r xs =
    let handle = trim_space r.handle in
    if is_empty handle then xs else release_from now owner r (find_handle owner handle xs) xs

abbrev pub is_some : Option ContactRecord → Bool
is_some none = false
is_some (some x) = true

-- The statements of `UpsertContact` on the table of contacts.
unfoldable pub put_contact : Text → Text → ContactRecord → List ContactRecord → List ContactRecord
put_contact now owner r xs =
    let known = is_some (find_contact owner r.did xs) in
    let rows = release now owner r xs in
    if known then refresh now owner r rows else rows ++ (new_contact now owner r ∷ [])

abbrev pub is_bound : Text → Text → ContactHandleBindingRecord → Bool
is_bound owner handle x = same x.owner_did owner && same x.handle handle

-- UPDATE contact_handle_bindings SET is_current = 0, … WHERE owner_did = ? AND handle = ? AND did <> ?
unfoldable pub demote :
    Text → Text → Text → Text → List ContactHandleBindingRecord → List ContactHandleBindingRecord
demote at owner handle did [] = []
demote at owner handle did (x ∷ xs) =
    (if is_bound owner handle x && not (same x.did did)
      then record x {
        is_current = false;
        last_seen_at = if is_less (lex x.last_seen_at at) then at else x.last_seen_at;
      }
      else x)
    ∷ demote at owner handle did xs

-- The row that ON CONFLICT DO UPDATE leaves; first_seen_at is never NULL.
unfoldable pub rebound :
    ContactHandleBindingRecord → ContactHandleBindingRecord → ContactHandleBindingRecord
rebound r x = record x {
  is_current = r.is_current;
  last_seen_at = r.last_seen_at;
  source_type = coalesce r.source_type x.source_type;
  source_group_id = coalesce r.source_group_id x.source_group_id;
  metadata = coalesce r.metadata x.metadata;
  credential_name = trim_space r.credential_name;
}

-- INSERT … ON CONFLICT(owner_did, handle, did)
unfoldable pub bind :
    ContactHandleBindingRecord → List ContactHandleBindingRecord → List ContactHandleBindingRecord
bind r [] =
    record r {
      source_type = trim_space r.source_type;
      source_group_id = trim_space r.source_group_id;
      metadata = trim_space r.metadata;
      credential_name = trim_space r.credential_name;
    }
    ∷ []
bind r (x ∷ xs) =
    if is_bound r.owner_did r.handle x && same x.did r.did then rebound r x ∷ xs else x ∷ bind r xs

unfoldable pub upsert_contact_handle_binding :
    Text
    → ContactHandleBindingRecord
    → List ContactHandleBindingRecord
    → List ContactHandleBindingRecord
upsert_contact_handle_binding now r xs =
    let handle = trim_space r.handle in
    let did = trim_space r.did in
    let owner = trim_space r.owner_did in
    let first = default_string r.first_seen_at now in
    let last = default_string r.last_seen_at first in
    if is_empty handle || is_empty did
    then xs
    else bind
        (record r {
          owner_did = owner;
          handle = handle;
          did = did;
          first_seen_at = first;
          last_seen_at = last;
        })
        (if r.is_current then demote last owner handle did xs else xs)

-- The binding that `UpsertContact` makes of a contact with a handle.
unfoldable pub binding_of : Text → Text → ContactRecord → ContactHandleBindingRecord
binding_of now owner r = record {
  owner_did = owner;
  handle = trim_space r.handle;
  did = trim_space r.did;
  is_current = true;
  first_seen_at = default_string r.first_seen_at now;
  last_seen_at = default_string r.last_seen_at now;
  source_type = r.source_type;
  source_group_id = r.source_group_id;
  metadata = r.metadata;
  credential_name = r.credential_name;
}

-- `now` is nowUTC.
unfoldable pub upsert_contact : Text → ContactRecord → Book → Result BookError Book
upsert_contact now r b =
    let owner = trim_space r.owner_did in
    if is_blank r.did
    then err did_required
    else ok (record {
      contacts = put_contact now owner r b.contacts;
      bindings =
          if is_empty (trim_space r.handle)
          then b.bindings
          else upsert_contact_handle_binding now (binding_of now owner r) b.bindings;
    })

unfoldable pub get_contact_by_did : Text → Text → Book → Option ContactRecord
get_contact_by_did owner did b = find_contact (trim_space owner) (trim_space did) b.contacts

unfoldable pub get_current_contact_by_handle : Text → Text → Book → Option ContactRecord
get_current_contact_by_handle owner handle b =
    find_handle (trim_space owner) (trim_space handle) b.contacts
