-- ===== src/Store/Outbox/Tests.antt =====
-- Runs of the statements on the outbox of internal/store/dao.go on one message.
use awiki_cli.Base.{◌≡◌, refl, List, [], ◌∷◌, none, some, ok, err}
use awiki_cli.Base.Int.{pos}
use awiki_cli.Text.{text, same, trim_space, trim_left, trim_right, is_space, is_blank}
use awiki_cli.Store.{default_string}
use awiki_cli.Store.Book.{coalesce}
use awiki_cli.Store.Outbox.{
  E2eeOutboxRecord, outbox_id_exists, succ, coalesce_seq, update_where, queued, queue_e2ee_outbox,
  sent_row, mark_e2ee_outbox_sent, failed_row, mark_e2ee_outbox_failed, is_selected,
  update_e2ee_outbox_status, failure_row, set_e2ee_outbox_failure_by_id, first_where,
  get_e2ee_outbox, all_where, is_listed, list_e2ee_outbox,
}
use awiki_cli.Store.Outbox.Laws.{
  Statement, sent, failed, status, failure, queue, clear, recover, run, run_all, sends, advance,
  Stays, run_all-Stays,
}

abbrev waiting : E2eeOutboxRecord
waiting = record {
  outbox_id = text "o1";
  owner_did = text "did:me";
  peer_did = text "did:peer";
  session_id = [];
  original_type = text "text";
  plaintext = text "hi";
  local_status = text "queued";
  attempt_count = pos 0;
  sent_msg_id = [];
  sent_server_seq = none;
  last_error_code = [];
  retry_hint = [];
  failed_msg_id = [];
  failed_server_seq = none;
  metadata = [];
  last_attempt_at = [];
  created_at = text "2025";
  updated_at = text "2025";
  credential_name = text "default";
}

-- A queued message has its defaults, and its identifier is taken.
queueing :
    queue_e2ee_outbox
      (text "o1")
      (text "2025")
      (record waiting {
        outbox_id = [];
        original_type = [];
        local_status = [];
        created_at = [];
        updated_at = [];
      })
      []
    ≡ ok (text "o1", waiting ∷ [])
unfolding queue_e2ee_outbox queued default_string is_blank trim_space trim_left trim_right is_space
queueing = refl

taken : queue_e2ee_outbox [] [] waiting (waiting ∷ []) ≡ err outbox_id_exists
unfolding queue_e2ee_outbox queued default_string is_blank trim_space trim_left trim_right is_space
    same
taken = refl

-- A failure, a success and a change of status.
abbrev history : List Statement
history =
    failed (text "1") (text "o1") (text "did:me") (text "timeout") (text "retry") [] none []
    ∷ (sent (text "2") (text "o1") (text "did:me") (text "s1") (text "m1") (some (pos 7)) []
        ∷ (status (text "3") (text "o1") [] (text "default") (text "archived") ∷ []))

archived :
    list_e2ee_outbox
      (λ xs. xs)
      (text "did:me")
      []
      (text "archived")
      (run_all history (waiting ∷ []))
    ≡ record waiting {
      session_id = text "s1";
      local_status = text "archived";
      attempt_count = pos 1;
      sent_msg_id = text "m1";
      sent_server_seq = some (pos 7);
      last_attempt_at = text "2";
      updated_at = text "3";
    }
      ∷ []
unfolding same trim_space trim_left trim_right is_space is_blank coalesce coalesce_seq succ
    update_where sent_row mark_e2ee_outbox_sent failed_row mark_e2ee_outbox_failed is_selected
    update_e2ee_outbox_status all_where is_listed list_e2ee_outbox run run_all
archived = refl

refused :
    get_e2ee_outbox
      (text "o1")
      []
      (text "default")
      (run (failure (text "1") (text "o1") [] (text "default") (text "gone") [] []) (waiting ∷ []))
    ≡ some (record waiting {
      local_status = text "failed";
      last_error_code = text "gone";
      updated_at = text "1";
    })
unfolding same trim_space trim_left trim_right is_space is_blank coalesce update_where failure_row
    set_e2ee_outbox_failure_by_id first_where is_selected get_e2ee_outbox run
refused = refl

-- The history, another message, and the loss of the data of others.
abbrev longer : List Statement
longer =
    queue (text "0") (text "o2") (record waiting { outbox_id = [] })
    ∷ clear (text "did:other")
    ∷ recover (text "did:old" ∷ [])
    ∷ history

run_all-Stays_example :
    Stays
      (text "o1")
      (text "did:me")
      (advance (sends (text "o1") (text "did:me") longer) (pos 0))
      waiting
      (run_all longer (waiting ∷ []))
unfolding same first_where trim_space trim_left trim_right is_space
run_all-Stays_example =
    run_all-Stays (text "o1") (text "did:me") longer waiting (waiting ∷ []) refl refl
