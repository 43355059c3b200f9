-- ===== src/Store/Member.antt =====
-- The group members of internal/store/recover_merge.go. A row is what stringFromAny and its like read of
-- its columns; a column that is NULL reads as the empty string.
use awiki_cli.Base.{ℕ, ◌≡◌, refl, true, List, [], ◌∷◌, Option, none, some}
use awiki_cli.Base.Int.{ℤ}
use awiki_cli.Text.{Text, text, trim_space}
use awiki_cli.Store.{
  default_string, choose_later_non_empty, max_int64_ptr, later_time_string, earlier_time_string,
  remap_recovered_self_did,
}
use awiki_cli.Store.Table.{Table, merged}
use awiki_cli.Store.Table.Laws.{IsLawful, contains}

pub record GroupMemberRecord : Type 0 where
  pub owner_did : Text
  pub group_id : Text
  pub user_id : Text
  pub member_did : Text
  pub member_handle : Text
  pub profile_url : Text
  pub role : Text
  pub status : Text
  pub joined_at : Text
  pub sent_message_count : Option ℤ
  pub last_synced_at : Text
  pub metadata : Text
  pub credential_name : Text

unfoldable pub normalize_recovered_group_member_row :
    List Text → Text → Text → GroupMemberRecord → GroupMemberRecord
normalize_recovered_group_member_row old_owners new_owner credential row = record {
  owner_did = new_owner;
  group_id = row.group_id;
  user_id = row.user_id;
  member_did = remap_recovered_self_did row.member_did old_owners new_owner;
  member_handle = row.member_handle;
  profile_url = row.profile_url;
  role = row.role;
  status = row.status;
  joined_at = row.joined_at;
  sent_message_count = row.sent_message_count;
  last_synced_at = row.last_synced_at;
  metadata = row.metadata;
  credential_name = credential;
}

unfoldable pub merge_recovered_group_member :
    (Text → Option ℕ) → GroupMemberRecord → GroupMemberRecord → GroupMemberRecord
merge_recovered_group_member parse existing incoming = record {
  owner_did = incoming.owner_did;
  group_id = incoming.group_id;
  user_id = incoming.user_id;
  member_did = choose_later_non_empty existing.member_did incoming.member_did;
  member_handle = choose_later_non_empty existing.member_handle incoming.member_handle;
  profile_url = choose_later_non_empty existing.profile_url incoming.profile_url;
  role = choose_later_non_empty existing.role incoming.role;
  status = choose_later_non_empty existing.status incoming.status;
  joined_at = earlier_time_string parse existing.joined_at incoming.joined_at;
  sent_message_count = max_int64_ptr existing.sent_message_count incoming.sent_message_count;
  last_synced_at = later_time_string parse existing.last_synced_at incoming.last_synced_at;
  metadata = choose_later_non_empty existing.metadata incoming.metadata;
  credential_name = choose_later_non_empty existing.credential_name incoming.credential_name;
}

-- The row that upsertRecoveredGroupMember writes, read again; `now` is nowUTC.
unfoldable pub upsert_recovered_group_member : Text → GroupMemberRecord → GroupMemberRecord
upsert_recovered_group_member now r = record {
  owner_did = trim_space r.owner_did;
  group_id = r.group_id;
  user_id = r.user_id;
  member_did = trim_space r.member_did;
  member_handle = trim_space r.member_handle;
  profile_url = trim_space r.profile_url;
  role = trim_space r.role;
  status = default_string r.status (text "active");
  joined_at = trim_space r.joined_at;
  sent_message_count = r.sent_message_count;
  last_synced_at = default_string r.last_synced_at now;
  metadata = trim_space r.metadata;
  credential_name = trim_space r.credential_name;
}

module _ (parse : Text → Option ℕ) (now : Text)
    (order : List GroupMemberRecord → List GroupMemberRecord) where
  -- The table of mergeRecoveredGroupMembers.
  unfoldable pub group_members : List Text → Text → Text → Table GroupMemberRecord
  group_members old_owners new_owner credential = record {
    owner = GroupMemberRecord.owner_did;
    key = λ r. r.group_id ∷ r.user_id ∷ [];
    order = order;
    normalize = normalize_recovered_group_member_row old_owners new_owner credential;
    merge = merge_recovered_group_member parse;
    stored = upsert_recovered_group_member now;
  }

  group_members-owner :
      (olds : List Text) (w credential : Text)
      → trim_space w ≡ w
      → (o : Option GroupMemberRecord) (r : GroupMemberRecord)
      → let table = group_members olds w credential in
        table.owner (table.stored (merged table o (table.normalize r))) ≡ w
  unfolding group_members normalize_recovered_group_member_row merge_recovered_group_member
      upsert_recovered_group_member
  group_members-owner olds w credential e none r = e
  group_members-owner olds w credential e (some x) r = e

  group_members-key :
      (olds : List Text) (w credential : Text) (o : Option GroupMemberRecord)
      (r : GroupMemberRecord)
      → let table = group_members olds w credential in
        table.key (table.stored (merged table o (table.normalize r))) ≡ table.key r
  unfolding group_members normalize_recovered_group_member_row merge_recovered_group_member
      upsert_recovered_group_member
  group_members-key olds w credential none r = refl
  group_members-key olds w credential (some x) r = refl

  -- A merged row is the new owner's and keeps its key.
  pub group_members-IsLawful :
      (olds : List Text) (w credential : Text)
      → trim_space w ≡ w
      → ((o : Text) (k : List Text) (rs : List GroupMemberRecord)
          → contains (group_members olds w credential) o k rs ≡ true
          → contains (group_members olds w credential) o k (order rs) ≡ true)
      → IsLawful (group_members olds w credential) w
  unfolding group_members
  group_members-IsLawful olds w credential e kept = record {
    owner_of = group_members-owner olds w credential e;
    key_of = group_members-key olds w credential;
    kept = kept;
  }
