-- ===== src/Store/Outbox.antt =====
-- internal/store/dao.go, and clearRecoveredOwnerE2EEData of recover_merge.go: the messages that wait to be sent encrypted, with the statements on them. A NULL
-- column reads as the empty string. A query with ORDER BY updated_at DESC is given the order of the
-- rows by `newest`.
mod Tests
pub mod Laws
use awiki_cli.Base.{
  zero, suc, Bool, true, false, not, ◌&&◌, ◌||◌, List, [], ◌∷◌, ◌++◌, Option, none, some,
  if◌then◌else◌, Result, ok, err, any,
}
use awiki_cli.Base.Int.{ℤ, pos, negsuc}
use awiki_cli.Text.{Text, text, same, trim_space, is_blank, is_empty}
use awiki_cli.Store.{default_string}
use awiki_cli.Store.Book.{coalesce}

pub record E2eeOutboxRecord : Type 0 where
  pub outbox_id : Text
  pub owner_did : Text
  pub peer_did : Text
  pub session_id : Text
  pub original_type : Text
  pub plaintext : Text
  pub local_status : Text
  pub attempt_count : ℤ
  pub sent_msg_id : Text
  pub sent_server_seq : Option ℤ
  pub last_error_code : Text
  pub retry_hint : Text
  pub failed_msg_id : Text
  pub failed_server_seq : Option ℤ
  pub metadata : Text
  pub last_attempt_at : Text
  pub created_at : Text
  pub updated_at : Text
  pub credential_name : Text

pub data OutboxError : Type 0 where
  outbox_id_exists : OutboxError

-- n + 1
unfoldable pub succ : ℤ → ℤ
succ (pos n) = pos (suc n)
succ (negsuc zero) = pos 0
succ (negsuc (suc n)) = negsuc n

unfoldable pub coalesce_seq : Option ℤ → Option ℤ → Option ℤ
coalesce_seq none column = column
coalesce_seq (some n) column = some n

abbrev pub Rows : Type 0
Rows = List E2eeOutboxRecord

abbrev pub is_owned : Text → Text → E2eeOutboxRecord → Bool
is_owned id owner x = same x.outbox_id id && same x.owner_did owner

abbrev pub is_credential : Text → Text → E2eeOutboxRecord → Bool
is_credential id credential x = same x.outbox_id id && same x.credential_name credential

-- UPDATE e2ee_outbox SET … WHERE …
unfoldable pub update_where :
    (E2eeOutboxRecord → Bool) → (E2eeOutboxRecord → E2eeOutboxRecord) → Rows → Rows
update_where p f [] = []
update_where p f (x ∷ xs) = (if p x then f x else x) ∷ update_where p f xs

-- The row of the INSERT; `id` is generateID and `now` is nowUTC.
unfoldable pub queued : Text → Text → E2eeOutboxRecord → E2eeOutboxRecord
queued id now r = record r {
  outbox_id = default_string r.outbox_id id;
  owner_did = trim_space r.owner_did;
  session_id = trim_space r.session_id;
  original_type = default_string r.original_type (text "text");
  local_status = default_string r.local_status (text "queued");
  sent_msg_id = trim_space r.sent_msg_id;
  last_error_code = trim_space r.last_error_code;
  retry_hint = trim_space r.retry_hint;
  failed_msg_id = trim_space r.failed_msg_id;
  metadata = trim_space r.metadata;
  last_attempt_at = trim_space r.last_attempt_at;
  created_at = default_string r.created_at now;
  updated_at = default_string r.updated_at now;
  credential_name = trim_space r.credential_name;
}

-- The identifier is the primary key.
unfoldable pub queue_e2ee_outbox :
    Text → Text → E2eeOutboxRecord → Rows → Result OutboxError (Text × Rows)
queue_e2ee_outbox id now r xs =
    let row = queued id now r in
    if any (λ x. same x.outbox_id row.outbox_id) xs
    then err outbox_id_exists
    else ok (row.outbox_id, xs ++ (row ∷ []))

unfoldable pub sent_row : Text → Text → Text → Option ℤ → Text → E2eeOutboxRecord → E2eeOutboxRecord
sent_row now session msg seq metadata x = record x {
  session_id = coalesce session x.session_id;
  local_status = text "sent";
  attempt_count = succ x.attempt_count;
  sent_msg_id = coalesce msg x.sent_msg_id;
  sent_server_seq = coalesce_seq seq x.sent_server_seq;
  metadata = coalesce metadata x.metadata;
  last_attempt_at = now;
  updated_at = now;
  last_error_code = [];
  retry_hint = [];
  failed_msg_id = [];
  failed_server_seq = none;
}

unfoldable pub mark_e2ee_outbox_sent :
    Text → Text → Text → Text → Text → Option ℤ → Text → Rows → Rows
mark_e2ee_outbox_sent now id owner session msg seq metadata =
    update_where (is_owned id (trim_space owner)) (sent_row now session msg seq metadata)

unfoldable pub failed_row :
    Text → Text → Text → Text → Option ℤ → Text → E2eeOutboxRecord → E2eeOutboxRecord
failed_row now code hint msg seq metadata x = record x {
  local_status = text "failed";
  last_error_code = code;
  retry_hint = coalesce hint x.retry_hint;
  failed_msg_id = coalesce msg x.failed_msg_id;
  failed_server_seq = coalesce_seq seq x.failed_server_seq;
  metadata = coalesce metadata x.metadata;
  updated_at = now;
}

unfoldable pub mark_e2ee_outbox_failed :
    Text → Text → Text → Text → Text → Text → Option ℤ → Text → Rows → Rows
mark_e2ee_outbox_failed now id owner code hint msg seq metadata =
    update_where (is_owned id (trim_space owner)) (failed_row now code hint msg seq metadata)

-- The rows of the owner, or of the credential where no owner is given.
unfoldable pub is_selected : Text → Text → Text → E2eeOutboxRecord → Bool
is_selected id owner credential x =
    if not (is_blank owner)
    then is_owned id (trim_space owner) x
    else is_credential id (trim_space credential) x

unfoldable pub update_e2ee_outbox_status : Text → Text → Text → Text → Text → Rows → Rows
update_e2ee_outbox_status now id owner credential status =
    update_where (is_selected id owner credential)
      (λ x. record x { local_status = status; updated_at = now })

unfoldable pub failure_row : Text → Text → Text → Text → E2eeOutboxRecord → E2eeOutboxRecord
failure_row now code hint metadata x = record x {
  local_status = text "failed";
  last_error_code = code;
  retry_hint = coalesce hint x.retry_hint;
  metadata = coalesce metadata x.metadata;
  updated_at = now;
}

unfoldable pub set_e2ee_outbox_failure_by_id :
    Text → Text → Text → Text → Text → Text → Text → Rows → Rows
set_e2ee_outbox_failure_by_id now id owner credential code hint metadata =
    update_where (is_selected id owner credential) (failure_row now code hint metadata)

-- SELECT … WHERE …, one row.
unfoldable pub first_where : (E2eeOutboxRecord → Bool) → Rows → Option E2eeOutboxRecord
first_where p [] = none
first_where p (x ∷ xs) = if p x then some x else first_where p xs

unfoldable pub get_e2ee_outbox : Text → Text → Text → Rows → Option E2eeOutboxRecord
get_e2ee_outbox id owner credential = first_where (is_selected id owner credential)

unfoldable pub all_where : (E2eeOutboxRecord → Bool) → Rows → Rows
all_where p [] = []
all_where p (x ∷ xs) = if p x then x ∷ all_where p xs else all_where p xs

-- The condition of the four queries of ListE2EEOutbox.
unfoldable pub is_listed : Text → Text → Text → E2eeOutboxRecord → Bool
is_listed owner credential status x =
    (if not (is_blank owner)
      then same x.owner_did (trim_space owner)
      else same x.credential_name (trim_space credential))
    && (is_blank status || same x.local_status status)

unfoldable pub list_e2ee_outbox : (Rows → Rows) → Text → Text → Text → Rows → Rows
list_e2ee_outbox newest owner credential status xs =
    newest (all_where (is_listed owner credential status) xs)

-- DELETE FROM e2ee_outbox WHERE …
unfoldable pub delete_where : (E2eeOutboxRecord → Bool) → Rows → Rows
delete_where p [] = []
delete_where p (x ∷ xs) = if p x then delete_where p xs else x ∷ delete_where p xs

-- The part of ClearOwnerE2EEData on the outbox.
unfoldable pub clear_owner_e2ee_data : Text → Rows → Rows
clear_owner_e2ee_data owner xs =
    if is_empty (trim_space owner)
    then xs
    else delete_where (λ x. same x.owner_did (trim_space owner)) xs

-- The part of clearRecoveredOwnerE2EEData on the outbox.
unfoldable pub clear_recovered_owner_e2ee_data : List Text → Rows → Rows
clear_recovered_owner_e2ee_data owners = delete_where (λ x. any (same x.owner_did) owners)
