-- ===== src/Store/Inbox/Tests.antt =====
-- Runs of StoreMessage and StoreMessagesBatch of internal/store/dao.go on one message.
use awiki_cli.Base.{◌≡◌, refl, true, false, [], ◌∷◌, some, ok, err}
use awiki_cli.Base.Int.{pos}
use awiki_cli.Text.{Text, text, same, trim_space, trim_left, trim_right, is_space, is_blank}
use awiki_cli.Store.{default_string}
use awiki_cli.Store.Message.{MessageRecord}
use awiki_cli.Store.Inbox.{
  msg_id_required, is_wire, is_stale, or_else, or_else_seq, message_record_args, updated_message,
  store_row, store_message, store_messages_batch, find_message, find_credential_message,
  get_message_by_id,
}
use awiki_cli.Store.Inbox.Laws.{Keeps, store_messages_batch-Keeps, store_messages_batch-KeepsText}
use awiki_cli.Store.Inbox.Twice.{store_message_twice}

abbrev message : Text → Text → MessageRecord
message type content = record {
  msg_id = text "m1";
  owner_did = text "did:me";
  thread_id = text "dm";
  direction = pos 0;
  sender_did = text "did:peer";
  receiver_did = text "did:me";
  group_id = [];
  group_did = [];
  content_type = type;
  content = content;
  title = [];
  server_seq = some (pos 4);
  sent_at = text "2024";
  stored_at = text "2025";
  is_e2ee = true;
  is_read = false;
  sender_name = [];
  metadata = [];
  credential_name = text "default";
}

abbrev plain : MessageRecord
plain = message (text "text") (text "hi")

abbrev cipher : MessageRecord
cipher = message (text "application/anp-direct-cipher+json") (text "{}")

-- The cipher text comes again behind the plain one, and the plain one behind the cipher text.
kept :
    get_message_by_id
      (text "m1")
      (text "did:me")
      []
      (store_messages_batch [] (cipher ∷ []) (plain ∷ []))
    ≡ some plain
unfolding same trim_space trim_left trim_right is_space is_blank default_string is_wire is_stale
    or_else or_else_seq message_record_args updated_message store_row store_messages_batch
    find_message get_message_by_id
kept = refl

decrypted :
    get_message_by_id
      (text "m1")
      []
      (text "default")
      (store_messages_batch [] (plain ∷ []) (cipher ∷ []))
    ≡ some plain
unfolding same trim_space trim_left trim_right is_space is_blank default_string is_wire is_stale
    or_else or_else_seq message_record_args updated_message store_row store_messages_batch
    find_credential_message get_message_by_id
decrypted = refl

unnamed : store_message [] (record plain { msg_id = [] }) [] ≡ err msg_id_required
unfolding store_message is_blank trim_space trim_left trim_right
unnamed = refl

store_messages_batch-Keeps_example :
    (y : MessageRecord) × (find_message
        (text "m1")
        (text "did:me")
        (store_messages_batch [] (cipher ∷ []) (plain ∷ []))
      ≡ some y)
    × Keeps plain y
unfolding find_message same
store_messages_batch-Keeps_example =
    store_messages_batch-Keeps [] (text "m1") (text "did:me") (cipher ∷ []) plain (plain ∷ []) refl

store_messages_batch-KeepsText_example :
    (y : MessageRecord) × (find_message
        (text "m1")
        (text "did:me")
        (store_messages_batch [] (cipher ∷ []) (plain ∷ []))
      ≡ some y)
    × (y.content_type ≡ text "text")
    × (y.content ≡ text "hi")
    × (y.metadata ≡ [])
unfolding find_message same is_wire message_record_args default_string is_blank trim_space trim_left
    trim_right is_space
store_messages_batch-KeepsText_example =
    store_messages_batch-KeepsText [] (text "m1") (text "did:me") (cipher ∷ []) plain (plain ∷ [])
      (refl, tt) refl refl

store_message_twice_example : store_message (text "2026") plain (plain ∷ []) ≡ ok (plain ∷ [])
unfolding same trim_space trim_left trim_right is_space is_blank default_string message_record_args
    store_row store_message
store_message_twice_example =
    store_message_twice (text "2025") (text "2026") plain [] (plain ∷ []) refl
