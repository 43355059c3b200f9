-- ===== src/Store/Tests.antt =====
-- Runs of the recovery merge on small tables.
use awiki_cli.Base.{ℕ, ◌≡◌, refl, Bool, true, false, List, [], ◌∷◌, length, Option, none, some}
use awiki_cli.Base.Int.{pos}
use awiki_cli.Text.{Text, text, same, lex, trim_space, trim_left, trim_right, is_space, is_blank}
use awiki_cli.Store.{
  default_string, choose_later_non_empty, first_non_empty, at_least, max_int64_ptr, bool_from_ptr,
  compare_instants, compare_time_strings, earlier_time_string, later_time_string, make_thread_id,
  is_in, remap_recovered_self_did, first_recovered_peer_did, normalize_recover_owner_dids,
}
use awiki_cli.Store.Owners.{is_distinct, is_wanted, normalize_recover_owner_dids_lem}
use awiki_cli.Store.Table.{
  Table, same_keys, rows_of, find, upsert, delete_rows_for_owners, count_rows_for_owners, absorb,
  absorb_all, absorb_owners, absorbed_count, merge_recovered,
}
use awiki_cli.Store.Table.Laws.{
  contains, bystanders, IsLawful, merge_recovered-contains, merge_recovered-bystanders,
}
use awiki_cli.Store.Message.{
  MessageRecord, recovered_thread_id, normalize_recovered_message_row, merge_recovered_message,
  upsert_recovered_message, messages, messages-IsLawful,
}
use awiki_cli.Store.Message.Laws.{covers, merge_recovered_message_lem}
use awiki_cli.Store.Contact.{ContactRecord, merge_recovered_contact, merge_recovered_contact-lost}

-- No time can be parsed: times are compared as texts.
abbrev no_times : Text → Option ℕ
no_times s = none

abbrev message : Text → Text → Bool → MessageRecord
message id owner read = record {
  msg_id = id;
  owner_did = owner;
  thread_id = text "dm";
  direction = pos 1;
  sender_did = owner;
  receiver_did = text "did:peer";
  group_id = [];
  group_did = [];
  content_type = text "text";
  content = text "hi";
  title = [];
  server_seq = some (pos 4);
  sent_at = text "2024";
  stored_at = text "2025";
  is_e2ee = false;
  is_read = read;
  sender_name = [];
  metadata = [];
  credential_name = text "default";
}

abbrev olds : List Text
olds = text "did:old" ∷ []

abbrev table : Table MessageRecord
unfolding messages
table = messages no_times (text "now") (λ rs. rs) olds (text "did:new") (text "default")

abbrev rows : List MessageRecord
rows =
    message (text "m1") (text "did:old") true
    ∷ message (text "m1") (text "did:new") false
    ∷ message (text "m2") (text "did:other") false
    ∷ []

-- Everything that a run of the merge goes through.
merging : Unit {0}
unfolding same lex trim_space trim_left trim_right is_space is_blank default_string
    choose_later_non_empty first_non_empty at_least max_int64_ptr compare_instants
    compare_time_strings earlier_time_string later_time_string make_thread_id is_in
    remap_recovered_self_did first_recovered_peer_did same_keys rows_of find upsert
    delete_rows_for_owners count_rows_for_owners absorb absorb_all absorb_owners absorbed_count
    merge_recovered contains bystanders recovered_thread_id normalize_recovered_message_row
    merge_recovered_message upsert_recovered_message messages bool_from_ptr
merging = tt

merged_rows : length (merge_recovered table (text "did:new") olds rows).1 ≡ 2
unfolding merging
merged_rows = refl

lawful : IsLawful table (text "did:new")
unfolding merging
lawful =
    messages-IsLawful no_times (text "now") (λ rs. rs) olds (text "did:new") (text "default") refl
      (λ o k rs h. h)

merge_recovered-contains_example :
    contains table
      (text "did:new")
      (text "m1" ∷ [])
      (merge_recovered table (text "did:new") olds rows).1
    ≡ true
unfolding merging
merge_recovered-contains_example =
    merge_recovered-contains table (text "did:new") lawful (text "did:old") (text "m1" ∷ []) olds
      rows refl refl refl

merge_recovered-bystanders_example :
    bystanders table (text "did:new") olds (merge_recovered table (text "did:new") olds rows).1
    ≡ bystanders table (text "did:new") olds rows
merge_recovered-bystanders_example =
    merge_recovered-bystanders table (text "did:new") lawful olds rows

normalize_recover_owner_dids_lem_example :
    (is_distinct []
        (normalize_recover_owner_dids (text " did:old" ∷ text "did:old" ∷ []) (text "did:new"))
      ≡ true)
    × (is_in
          (text "did:old")
          (normalize_recover_owner_dids (text " did:old" ∷ text "did:old" ∷ []) (text "did:new"))
        ≡ is_wanted
            (trim_space (text "did:new"))
            (text " did:old" ∷ text "did:old" ∷ [])
            (text "did:old"))
normalize_recover_owner_dids_lem_example =
    normalize_recover_owner_dids_lem (text "did:new") (text " did:old" ∷ text "did:old" ∷ [])
      (text "did:old")

merge_recovered_message_lem_example :
    let m =
      merge_recovered_message no_times
        (message (text "m1") (text "did:new") false)
        (message (text "m1") (text "did:new") true) in
    (m.is_read ≡ true)
    × (m.is_e2ee ≡ false)
    × (is_blank m.content ≡ true → (is_blank (text "hi") ≡ true) × (is_blank (text "hi") ≡ true))
    × (covers m.server_seq (some (pos 4)) ≡ true)
    × (covers m.server_seq (some (pos 4)) ≡ true)
merge_recovered_message_lem_example =
    merge_recovered_message_lem no_times (message (text "m1") (text "did:new") false)
      (message (text "m1") (text "did:new") true)

abbrev contact : Text → ContactRecord
contact first_seen = record {
  owner_did = text "did:new";
  did = text "did:peer";
  name = [];
  handle = [];
  nick_name = [];
  bio = [];
  profile_md = [];
  tags = [];
  relationship = [];
  source_type = [];
  source_name = [];
  source_group_id = [];
  connected_at = [];
  recommended_reason = [];
  followed = some true;
  messaged = none;
  note = [];
  first_seen_at = first_seen;
  last_seen_at = text "2025";
  metadata = [];
  credential_name = [];
}

merge_recovered_contact-lost_example :
    (merge_recovered_contact no_times (contact (text "2024")) (contact [])).first_seen_at ≡ []
unfolding merging
merge_recovered_contact-lost_example =
    merge_recovered_contact-lost no_times (contact (text "2024")) (contact []) refl refl
