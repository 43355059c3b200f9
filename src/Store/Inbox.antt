-- ===== src/Store/Inbox.antt =====
-- internal/store/dao.go: the messages of an owner, as StoreMessage and StoreMessagesBatch write them. A
-- NULL column reads as the empty string, and a stored content type is never NULL. A failed statement
-- rolls its transaction back, so only runs without one are modelled.
mod Tests
pub mod Laws
pub mod Twice
use awiki_cli.Base.{
  ◌≡◌, Bool, true, false, not, ◌&&◌, ◌||◌, List, [], ◌∷◌, Option, none, some, if◌then◌else◌, Result,
  ok, err,
}
use awiki_cli.Base.Int.{ℤ}
use awiki_cli.Text.{Text, text, same, trim_space, is_empty, is_blank}
use awiki_cli.Store.{default_string}
use awiki_cli.Store.Message.{MessageRecord}

pub data MessageError : Type 0 where
  msg_id_required : MessageError
  thread_id_required : MessageError

-- The content types of a message that is not decrypted.
unfoldable pub is_wire : Text → Bool
is_wire t =
    same t (text "application/anp-direct-init+json")
    || same t (text "application/anp-direct-cipher+json")

-- COALESCE(excluded.column, messages.column)
unfoldable pub or_else : Text → Text → Text
or_else value column = if is_empty value then column else value

unfoldable pub or_else_seq : Option ℤ → Option ℤ → Option ℤ
or_else_seq none column = column
or_else_seq (some n) column = some n

-- The row of the INSERT; `now` is nowUTC.
unfoldable pub message_record_args : Text → MessageRecord → MessageRecord
message_record_args now r = record r {
  owner_did = trim_space r.owner_did;
  sender_did = trim_space r.sender_did;
  receiver_did = trim_space r.receiver_did;
  group_id = trim_space r.group_id;
  group_did = trim_space r.group_did;
  content_type = default_string r.content_type (text "text");
  title = trim_space r.title;
  sent_at = trim_space r.sent_at;
  stored_at = default_string r.stored_at now;
  sender_name = trim_space r.sender_name;
  metadata = trim_space r.metadata;
  credential_name = trim_space r.credential_name;
}

-- The test of the three CASE expressions: a message that is not decrypted comes for one that is.
unfoldable pub is_stale : MessageRecord → MessageRecord → Bool
is_stale excluded x = is_wire excluded.content_type && not (is_wire x.content_type)

-- The row that DO UPDATE SET leaves of `x`.
unfoldable pub updated_message : MessageRecord → MessageRecord → MessageRecord
updated_message excluded x =
    let stale = is_stale excluded x in
    record {
      msg_id = x.msg_id;
      owner_did = x.owner_did;
      thread_id = excluded.thread_id;
      direction = excluded.direction;
      sender_did = excluded.sender_did;
      receiver_did = excluded.receiver_did;
      group_id = excluded.group_id;
      group_did = excluded.group_did;
      content_type = if stale then x.content_type else excluded.content_type;
      content = if stale then x.content else excluded.content;
      title = excluded.title;
      server_seq = or_else_seq excluded.server_seq x.server_seq;
      sent_at = or_else excluded.sent_at x.sent_at;
      stored_at = x.stored_at;
      is_e2ee = excluded.is_e2ee || x.is_e2ee;
      is_read = excluded.is_read || x.is_read;
      sender_name = or_else excluded.sender_name x.sender_name;
      metadata = if stale then x.metadata else or_else excluded.metadata x.metadata;
      credential_name = excluded.credential_name;
    }

abbrev pub is_message : Text → Text → MessageRecord → Bool
is_message id owner x = same x.msg_id id && same x.owner_did owner

-- INSERT … ON CONFLICT(msg_id, owner_did) DO UPDATE
unfoldable pub store_row : MessageRecord → List MessageRecord → List MessageRecord
store_row r [] = r ∷ []
store_row r (x ∷ xs) =
    if is_message r.msg_id r.owner_did x then updated_message r x ∷ xs else x ∷ store_row r xs

unfoldable pub store_message :
    Text → MessageRecord → List MessageRecord → Result MessageError (List MessageRecord)
store_message now r xs =
    if is_blank r.msg_id
    then err msg_id_required
    else if is_blank r.thread_id
    then err thread_id_required
    else ok (store_row (message_record_args now r) xs)

-- The loop of StoreMessagesBatch, all of it at one time.
unfoldable pub store_messages_batch :
    Text → List MessageRecord → List MessageRecord → List MessageRecord
store_messages_batch now [] xs = xs
store_messages_batch now (r ∷ rs) xs =
    store_messages_batch now rs (store_row (message_record_args now r) xs)

-- SELECT * FROM messages WHERE msg_id = ? AND owner_did = ?
unfoldable pub find_message : Text → Text → List MessageRecord → Option MessageRecord
find_message id owner [] = none
find_message id owner (x ∷ xs) = if is_message id owner x then some x else find_message id owner xs

-- SELECT * FROM messages WHERE msg_id = ? AND credential_name = ?
unfoldable pub find_credential_message : Text → Text → List MessageRecord → Option MessageRecord
find_credential_message id credential [] = none
find_credential_message id credential (x ∷ xs) =
    if same x.msg_id id && same x.credential_name credential
    then some x
    else find_credential_message id credential xs

unfoldable pub get_message_by_id : Text → Text → Text → List MessageRecord → Option MessageRecord
get_message_by_id id owner credential xs =
    if not (is_blank owner)
    then find_message id (trim_space owner) xs
    else find_credential_message id (trim_space credential) xs
