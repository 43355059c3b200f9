-- ===== src/Store/Contact.antt =====
-- The contacts of internal/store/recover_merge.go. A row is what stringFromAny and its like read of
-- its columns; a column that is NULL reads as the empty string.
use awiki_cli.Base.{
  ℕ, ◌≡◌, ◌≢◌, less, refl, Bool, true, false, ◌||◌, List, [], ◌∷◌, Option, none, some,
}
use awiki_cli.Text.{Text, trim_space, is_blank}
use awiki_cli.Store.{
  choose_later_non_empty, later_time_string, earlier_time_string, bool_from_ptr,
  compare_time_strings,
}
use awiki_cli.Store.Times.{earlier_time_string-lost, later_time_string_lem}
use awiki_cli.Store.Table.{Table, merged}
use awiki_cli.Store.Table.Laws.{IsLawful, contains}

pub record ContactRecord : Type 0 where
  pub owner_did : Text
  pub did : Text
  pub name : Text
  pub handle : Text
  pub nick_name : Text
  pub bio : Text
  pub profile_md : Text
  pub tags : Text
  pub relationship : Text
  pub source_type : Text
  pub source_name : Text
  pub source_group_id : Text
  pub connected_at : Text
  pub recommended_reason : Text
  pub followed : Option Bool
  pub messaged : Option Bool
  pub note : Text
  pub first_seen_at : Text
  pub last_seen_at : Text
  pub metadata : Text
  pub credential_name : Text

unfoldable pub normalize_recovered_contact_row : Text → Text → ContactRecord → ContactRecord
normalize_recovered_contact_row new_owner credential row = record {
  owner_did = new_owner;
  did = row.did;
  name = row.name;
  handle = row.handle;
  nick_name = row.nick_name;
  bio = row.bio;
  profile_md = row.profile_md;
  tags = row.tags;
  relationship = row.relationship;
  source_type = row.source_type;
  source_name = row.source_name;
  source_group_id = row.source_group_id;
  connected_at = row.connected_at;
  recommended_reason = row.recommended_reason;
  followed = row.followed;
  messaged = row.messaged;
  note = row.note;
  first_seen_at = row.first_seen_at;
  last_seen_at = row.last_seen_at;
  metadata = row.metadata;
  credential_name = credential;
}

unfoldable pub merge_recovered_contact :
    (Text → Option ℕ) → ContactRecord → ContactRecord → ContactRecord
merge_recovered_contact parse existing incoming = record {
  owner_did = incoming.owner_did;
  did = incoming.did;
  name = choose_later_non_empty existing.name incoming.name;
  handle = choose_later_non_empty existing.handle incoming.handle;
  nick_name = choose_later_non_empty existing.nick_name incoming.nick_name;
  bio = choose_later_non_empty existing.bio incoming.bio;
  profile_md = choose_later_non_empty existing.profile_md incoming.profile_md;
  tags = choose_later_non_empty existing.tags incoming.tags;
  relationship = choose_later_non_empty existing.relationship incoming.relationship;
  source_type = choose_later_non_empty existing.source_type incoming.source_type;
  source_name = choose_later_non_empty existing.source_name incoming.source_name;
  source_group_id = choose_later_non_empty existing.source_group_id incoming.source_group_id;
  connected_at = later_time_string parse existing.connected_at incoming.connected_at;
  recommended_reason =
      choose_later_non_empty existing.recommended_reason incoming.recommended_reason;
  followed = some (bool_from_ptr existing.followed || bool_from_ptr incoming.followed);
  messaged = some (bool_from_ptr existing.messaged || bool_from_ptr incoming.messaged);
  note = choose_later_non_empty existing.note incoming.note;
  first_seen_at = earlier_time_string parse existing.first_seen_at incoming.first_seen_at;
  last_seen_at = later_time_string parse existing.last_seen_at incoming.last_seen_at;
  metadata = choose_later_non_empty existing.metadata incoming.metadata;
  credential_name = choose_later_non_empty existing.credential_name incoming.credential_name;
}

-- The row that upsertRecoveredContact writes, read again; the table has no credential name.
unfoldable pub upsert_recovered_contact : ContactRecord → ContactRecord
upsert_recovered_contact r = record {
  owner_did = trim_space r.owner_did;
  did = r.did;
  name = trim_space r.name;
  handle = trim_space r.handle;
  nick_name = trim_space r.nick_name;
  bio = trim_space r.bio;
  profile_md = trim_space r.profile_md;
  tags = trim_space r.tags;
  relationship = trim_space r.relationship;
  source_type = trim_space r.source_type;
  source_name = trim_space r.source_name;
  source_group_id = trim_space r.source_group_id;
  connected_at = trim_space r.connected_at;
  recommended_reason = trim_space r.recommended_reason;
  followed = some (bool_from_ptr r.followed);
  messaged = some (bool_from_ptr r.messaged);
  note = trim_space r.note;
  first_seen_at = trim_space r.first_seen_at;
  last_seen_at = trim_space r.last_seen_at;
  metadata = trim_space r.metadata;
  credential_name = [];
}

module _ (parse : Text → Option ℕ) (order : List ContactRecord → List ContactRecord) where
  -- The table of mergeRecoveredContacts, less the handles that it collects for a later step.
  unfoldable pub contacts : Text → Text → Table ContactRecord
  contacts new_owner credential = record {
    owner = ContactRecord.owner_did;
    key = λ r. r.did ∷ [];
    order = order;
    normalize = normalize_recovered_contact_row new_owner credential;
    merge = merge_recovered_contact parse;
    stored = upsert_recovered_contact;
  }

  contacts-owner :
      (w credential : Text)
      → trim_space w ≡ w
      → (o : Option ContactRecord) (r : ContactRecord)
      → let table = contacts w credential in
        table.owner (table.stored (merged table o (table.normalize r))) ≡ w
  unfolding contacts normalize_recovered_contact_row merge_recovered_contact
      upsert_recovered_contact
  contacts-owner w credential e none r = e
  contacts-owner w credential e (some x) r = e

  contacts-key :
      (w credential : Text) (o : Option ContactRecord) (r : ContactRecord)
      → let table = contacts w credential in
        table.key (table.stored (merged table o (table.normalize r))) ≡ table.key r
  unfolding contacts normalize_recovered_contact_row merge_recovered_contact
      upsert_recovered_contact
  contacts-key w credential none r = refl
  contacts-key w credential (some x) r = refl

  -- A merged row is the new owner's and keeps its key.
  pub contacts-IsLawful :
      (w credential : Text)
      → trim_space w ≡ w
      → ((o : Text) (k : List Text) (rs : List ContactRecord)
          → contains (contacts w credential) o k rs ≡ true
          → contains (contacts w credential) o k (order rs) ≡ true)
      → IsLawful (contacts w credential) w
  unfolding contacts
  contacts-IsLawful w credential e kept = record {
    owner_of = contacts-owner w credential e;
    key_of = contacts-key w credential;
    kept = kept;
  }

-- When only the row that there was has a time of first being seen, the merged contact has the blank
-- time of the incoming row: the time is lost.
pub merge_recovered_contact-lost :
    (parse : Text → Option ℕ) (existing incoming : ContactRecord)
    → is_blank existing.first_seen_at ≡ false
    → is_blank incoming.first_seen_at ≡ true
    → (merge_recovered_contact parse existing incoming).first_seen_at ≡ incoming.first_seen_at
unfolding merge_recovered_contact
merge_recovered_contact-lost parse existing incoming he hi =
    (earlier_time_string-lost parse existing.first_seen_at incoming.first_seen_at he hi).1

-- A contact's marks `followed` and `messaged` are set in the merge when one copy has them set, and
-- the merged contact was last seen at no earlier time than either copy.
pub merge_recovered_contact_lem :
    (parse : Text → Option ℕ) (x y : ContactRecord)
    → let m = merge_recovered_contact parse x y in
      (bool_from_ptr m.followed ≡ (bool_from_ptr x.followed || bool_from_ptr y.followed))
      × (bool_from_ptr m.messaged ≡ (bool_from_ptr x.messaged || bool_from_ptr y.messaged))
      × (compare_time_strings parse m.last_seen_at x.last_seen_at ≢ less)
      × (compare_time_strings parse m.last_seen_at y.last_seen_at ≢ less)
unfolding merge_recovered_contact bool_from_ptr
merge_recovered_contact_lem parse x y =
    let seen = later_time_string_lem parse x.last_seen_at y.last_seen_at in
    (refl, refl, seen.0, seen.1)
