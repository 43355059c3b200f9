-- ===== src/Store/Message.antt =====
-- The messages of internal/store/recover_merge.go. A row is what stringFromAny and its like read of
-- its columns; a column that is NULL reads as the empty string.
pub mod Laws
use awiki_cli.Base.{
  ℕ, ◌≡◌, refl, Bool, true, false, not, ◌||◌, List, [], ◌∷◌, arith, Option, none, some,
  if◌then◌else◌, sym, ap, ◌∙◌,
}
use awiki_cli.Base.Int.{ℤ}
use awiki_cli.Text.{Text, text, same, trim_space, is_empty, is_blank, trim_left, trim_right}
use awiki_cli.Text.Order.{same_refl}
use awiki_cli.Store.{
  default_string, choose_later_non_empty, first_non_empty, max_int64_ptr, later_time_string,
  make_thread_id, remap_recovered_self_did, is_in, first_recovered_peer_did,
}
use awiki_cli.Store.Threads.{make_thread_id_comm}
use awiki_cli.Store.Table.{Table, merged}
use awiki_cli.Store.Table.Laws.{IsLawful, contains}

pub record MessageRecord : Type 0 where
  pub msg_id : Text
  pub owner_did : Text
  pub thread_id : Text
  pub direction : ℤ
  pub sender_did : Text
  pub receiver_did : Text
  pub group_id : Text
  pub group_did : Text
  pub content_type : Text
  pub content : Text
  pub title : Text
  pub server_seq : Option ℤ
  pub sent_at : Text
  pub stored_at : Text
  pub is_e2ee : Bool
  pub is_read : Bool
  pub sender_name : Text
  pub metadata : Text
  pub credential_name : Text

-- The thread of a recovered message.
unfoldable pub recovered_thread_id : Text → Text → Text → Text → Text → Text
recovered_thread_id new_owner sender receiver group_id group_did =
    let group_key = first_non_empty (group_id ∷ group_did ∷ []) in
    if not (is_empty group_key)
    then make_thread_id new_owner [] group_key
    else make_thread_id new_owner (first_recovered_peer_did sender receiver new_owner) []

unfoldable pub normalize_recovered_message_row :
    List Text → Text → Text → MessageRecord → MessageRecord
normalize_recovered_message_row old_owners new_owner credential row =
    let sender = remap_recovered_self_did row.sender_did old_owners new_owner in
    let receiver = remap_recovered_self_did row.receiver_did old_owners new_owner in
    record {
      msg_id = row.msg_id;
      owner_did = new_owner;
      thread_id = recovered_thread_id new_owner sender receiver row.group_id row.group_did;
      direction = row.direction;
      sender_did = sender;
      receiver_did = receiver;
      group_id = row.group_id;
      group_did = row.group_did;
      content_type = row.content_type;
      content = row.content;
      title = row.title;
      server_seq = row.server_seq;
      sent_at = row.sent_at;
      stored_at = row.stored_at;
      is_e2ee = row.is_e2ee;
      is_read = row.is_read;
      sender_name = row.sender_name;
      metadata = row.metadata;
      credential_name = credential;
    }

unfoldable pub merge_recovered_message :
    (Text → Option ℕ) → MessageRecord → MessageRecord → MessageRecord
merge_recovered_message parse existing incoming = record {
  msg_id = incoming.msg_id;
  owner_did = incoming.owner_did;
  thread_id = default_string incoming.thread_id existing.thread_id;
  direction = incoming.direction;
  sender_did = choose_later_non_empty existing.sender_did incoming.sender_did;
  receiver_did = choose_later_non_empty existing.receiver_did incoming.receiver_did;
  group_id = choose_later_non_empty existing.group_id incoming.group_id;
  group_did = choose_later_non_empty existing.group_did incoming.group_did;
  content_type = choose_later_non_empty existing.content_type incoming.content_type;
  content = choose_later_non_empty existing.content incoming.content;
  title = choose_later_non_empty existing.title incoming.title;
  server_seq = max_int64_ptr existing.server_seq incoming.server_seq;
  sent_at = later_time_string parse existing.sent_at incoming.sent_at;
  stored_at = later_time_string parse existing.stored_at incoming.stored_at;
  is_e2ee = existing.is_e2ee || incoming.is_e2ee;
  is_read = existing.is_read || incoming.is_read;
  sender_name = choose_later_non_empty existing.sender_name incoming.sender_name;
  metadata = choose_later_non_empty existing.metadata incoming.metadata;
  credential_name = choose_later_non_empty existing.credential_name incoming.credential_name;
}

-- The row that upsertRecoveredMessage writes, read again; `now` is nowUTC.
unfoldable pub upsert_recovered_message : Text → MessageRecord → MessageRecord
upsert_recovered_message now r = record {
  msg_id = r.msg_id;
  owner_did = trim_space r.owner_did;
  thread_id = r.thread_id;
  direction = r.direction;
  sender_did = trim_space r.sender_did;
  receiver_did = trim_space r.receiver_did;
  group_id = trim_space r.group_id;
  group_did = trim_space r.group_did;
  content_type = default_string r.content_type (text "text");
  content = r.content;
  title = trim_space r.title;
  server_seq = r.server_seq;
  sent_at = trim_space r.sent_at;
  stored_at = default_string r.stored_at now;
  is_e2ee = r.is_e2ee;
  is_read = r.is_read;
  sender_name = trim_space r.sender_name;
  metadata = trim_space r.metadata;
  credential_name = trim_space r.credential_name;
}

module _ (parse : Text → Option ℕ) (now : Text)
    (order : List MessageRecord → List MessageRecord) where
  -- The table of messages, for mergeRecoveredMessages.
  unfoldable pub messages : List Text → Text → Text → Table MessageRecord
  messages old_owners new_owner credential = record {
    owner = MessageRecord.owner_did;
    key = λ r. r.msg_id ∷ [];
    order = order;
    normalize = normalize_recovered_message_row old_owners new_owner credential;
    merge = merge_recovered_message parse;
    stored = upsert_recovered_message now;
  }

  messages-owner :
      (olds : List Text) (w credential : Text)
      → trim_space w ≡ w
      → (o : Option MessageRecord) (r : MessageRecord)
      → let table = messages olds w credential in
        table.owner (table.stored (merged table o (table.normalize r))) ≡ w
  unfolding messages normalize_recovered_message_row merge_recovered_message
      upsert_recovered_message
  messages-owner olds w credential e none r = e
  messages-owner olds w credential e (some x) r = e

  messages-key :
      (olds : List Text) (w credential : Text) (o : Option MessageRecord) (r : MessageRecord)
      → let table = messages olds w credential in
        table.key (table.stored (merged table o (table.normalize r))) ≡ table.key r
  unfolding messages normalize_recovered_message_row merge_recovered_message
      upsert_recovered_message
  messages-key olds w credential none r = refl
  messages-key olds w credential (some x) r = refl

  -- The messages of a merge are the new owner's, each with its own identifier.
  pub messages-IsLawful :
      (olds : List Text) (w credential : Text)
      → trim_space w ≡ w
      → ((o : Text) (k : List Text) (rs : List MessageRecord)
          → contains (messages olds w credential) o k rs ≡ true
          → contains (messages olds w credential) o k (order rs) ≡ true)
      → IsLawful (messages olds w credential) w
  unfolding messages
  messages-IsLawful olds w credential e kept = record {
    owner_of = messages-owner olds w credential e;
    key_of = messages-key olds w credential;
    kept = kept;
  }
