-- ===== src/Store/Group.antt =====
-- The groups of internal/store/recover_merge.go. A row is what stringFromAny and its like read of
-- its columns; a column that is NULL reads as the empty string.
use awiki_cli.Base.{ℕ, ◌≡◌, refl, Bool, true, List, [], ◌∷◌, Option, none, some}
use awiki_cli.Base.Int.{ℤ}
use awiki_cli.Text.{Text, text, trim_space}
use awiki_cli.Store.{
  default_string, choose_later_non_empty, max_int64_ptr, later_time_string, earlier_time_string,
  remap_recovered_self_did,
}
use awiki_cli.Store.Table.{Table, merged}
use awiki_cli.Store.Table.Laws.{IsLawful, contains}

pub record GroupRecord : Type 0 where
  pub owner_did : Text
  pub group_id : Text
  pub group_did : Text
  pub name : Text
  pub group_mode : Text
  pub slug : Text
  pub description : Text
  pub goal : Text
  pub rules : Text
  pub message_prompt : Text
  pub doc_url : Text
  pub group_owner_did : Text
  pub group_owner_handle : Text
  pub my_role : Text
  pub membership_status : Text
  pub join_enabled : Option Bool
  pub join_code : Text
  pub join_code_expires_at : Text
  pub member_count : Option ℤ
  pub last_synced_seq : Option ℤ
  pub last_read_seq : Option ℤ
  pub last_message_at : Text
  pub remote_created_at : Text
  pub remote_updated_at : Text
  pub stored_at : Text
  pub metadata : Text
  pub credential_name : Text

unfoldable pub normalize_recovered_group_row : List Text → Text → Text → GroupRecord → GroupRecord
normalize_recovered_group_row old_owners new_owner credential row = record {
  owner_did = new_owner;
  group_id = row.group_id;
  group_did = row.group_did;
  name = row.name;
  group_mode = row.group_mode;
  slug = row.slug;
  description = row.description;
  goal = row.goal;
  rules = row.rules;
  message_prompt = row.message_prompt;
  doc_url = row.doc_url;
  group_owner_did = remap_recovered_self_did row.group_owner_did old_owners new_owner;
  group_owner_handle = row.group_owner_handle;
  my_role = row.my_role;
  membership_status = row.membership_status;
  join_enabled = row.join_enabled;
  join_code = row.join_code;
  join_code_expires_at = row.join_code_expires_at;
  member_count = row.member_count;
  last_synced_seq = row.last_synced_seq;
  last_read_seq = row.last_read_seq;
  last_message_at = row.last_message_at;
  remote_created_at = row.remote_created_at;
  remote_updated_at = row.remote_updated_at;
  stored_at = row.stored_at;
  metadata = row.metadata;
  credential_name = credential;
}

unfoldable pub merge_recovered_group : (Text → Option ℕ) → GroupRecord → GroupRecord → GroupRecord
merge_recovered_group parse existing incoming = record {
  owner_did = incoming.owner_did;
  group_id = incoming.group_id;
  group_did = choose_later_non_empty existing.group_did incoming.group_did;
  name = choose_later_non_empty existing.name incoming.name;
  group_mode = choose_later_non_empty existing.group_mode incoming.group_mode;
  slug = choose_later_non_empty existing.slug incoming.slug;
  description = choose_later_non_empty existing.description incoming.description;
  goal = choose_later_non_empty existing.goal incoming.goal;
  rules = choose_later_non_empty existing.rules incoming.rules;
  message_prompt = choose_later_non_empty existing.message_prompt incoming.message_prompt;
  doc_url = choose_later_non_empty existing.doc_url incoming.doc_url;
  group_owner_did = choose_later_non_empty existing.group_owner_did incoming.group_owner_did;
  group_owner_handle =
      choose_later_non_empty existing.group_owner_handle incoming.group_owner_handle;
  my_role = choose_later_non_empty existing.my_role incoming.my_role;
  membership_status = choose_later_non_empty existing.membership_status incoming.membership_status;
  join_enabled = elim incoming.join_enabled [ none ↦ existing.join_enabled | some v ↦ some v ];
  join_code = choose_later_non_empty existing.join_code incoming.join_code;
  join_code_expires_at =
      later_time_string parse existing.join_code_expires_at incoming.join_code_expires_at;
  member_count = max_int64_ptr existing.member_count incoming.member_count;
  last_synced_seq = max_int64_ptr existing.last_synced_seq incoming.last_synced_seq;
  last_read_seq = max_int64_ptr existing.last_read_seq incoming.last_read_seq;
  last_message_at = later_time_string parse existing.last_message_at incoming.last_message_at;
  remote_created_at =
      earlier_time_string parse existing.remote_created_at incoming.remote_created_at;
  remote_updated_at = later_time_string parse existing.remote_updated_at incoming.remote_updated_at;
  stored_at = later_time_string parse existing.stored_at incoming.stored_at;
  metadata = choose_later_non_empty existing.metadata incoming.metadata;
  credential_name = choose_later_non_empty existing.credential_name incoming.credential_name;
}

-- The row that upsertRecoveredGroup writes, read again; `now` is nowUTC.
unfoldable pub upsert_recovered_group : Text → GroupRecord → GroupRecord
upsert_recovered_group now r = record {
  owner_did = trim_space r.owner_did;
  group_id = r.group_id;
  group_did = trim_space r.group_did;
  name = trim_space r.name;
  group_mode = default_string r.group_mode (text "general");
  slug = trim_space r.slug;
  description = trim_space r.description;
  goal = trim_space r.goal;
  rules = trim_space r.rules;
  message_prompt = trim_space r.message_prompt;
  doc_url = trim_space r.doc_url;
  group_owner_did = trim_space r.group_owner_did;
  group_owner_handle = trim_space r.group_owner_handle;
  my_role = trim_space r.my_role;
  membership_status = default_string r.membership_status (text "active");
  join_enabled = r.join_enabled;
  join_code = trim_space r.join_code;
  join_code_expires_at = trim_space r.join_code_expires_at;
  member_count = r.member_count;
  last_synced_seq = r.last_synced_seq;
  last_read_seq = r.last_read_seq;
  last_message_at = trim_space r.last_message_at;
  remote_created_at = trim_space r.remote_created_at;
  remote_updated_at = trim_space r.remote_updated_at;
  stored_at = default_string r.stored_at now;
  metadata = trim_space r.metadata;
  credential_name = trim_space r.credential_name;
}

module _ (parse : Text → Option ℕ) (now : Text) (order : List GroupRecord → List GroupRecord) where
  -- The table of mergeRecoveredGroups.
  unfoldable pub groups : List Text → Text → Text → Table GroupRecord
  groups old_owners new_owner credential = record {
    owner = GroupRecord.owner_did;
    key = λ r. r.group_id ∷ [];
    order = order;
    normalize = normalize_recovered_group_row old_owners new_owner credential;
    merge = merge_recovered_group parse;
    stored = upsert_recovered_group now;
  }

  groups-owner :
      (olds : List Text) (w credential : Text)
      → trim_space w ≡ w
      → (o : Option GroupRecord) (r : GroupRecord)
      → let table = groups olds w credential in
        table.owner (table.stored (merged table o (table.normalize r))) ≡ w
  unfolding groups normalize_recovered_group_row merge_recovered_group upsert_recovered_group
  groups-owner olds w credential e none r = e
  groups-owner olds w credential e (some x) r = e

  groups-key :
      (olds : List Text) (w credential : Text) (o : Option GroupRecord) (r : GroupRecord)
      → let table = groups olds w credential in
        table.key (table.stored (merged table o (table.normalize r))) ≡ table.key r
  unfolding groups normalize_recovered_group_row merge_recovered_group upsert_recovered_group
  groups-key olds w credential none r = refl
  groups-key olds w credential (some x) r = refl

  -- A merged row is the new owner's and keeps its key.
  pub groups-IsLawful :
      (olds : List Text) (w credential : Text)
      → trim_space w ≡ w
      → ((o : Text) (k : List Text) (rs : List GroupRecord)
          → contains (groups olds w credential) o k rs ≡ true
          → contains (groups olds w credential) o k (order rs) ≡ true)
      → IsLawful (groups olds w credential) w
  unfolding groups
  groups-IsLawful olds w credential e kept = record {
    owner_of = groups-owner olds w credential e;
    key_of = groups-key olds w credential;
    kept = kept;
  }
