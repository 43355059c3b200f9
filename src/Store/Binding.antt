-- ===== src/Store/Binding.antt =====
-- The handle bindings of internal/store/recover_merge.go. A row is what stringFromAny and its like read of
-- its columns; a column that is NULL reads as the empty string.
use awiki_cli.Base.{ℕ, ◌≡◌, refl, Bool, true, false, List, [], ◌∷◌, Option, none, some}
use awiki_cli.Text.{Text, trim_space}
use awiki_cli.Store.{choose_later_non_empty, later_time_string, earlier_time_string}
use awiki_cli.Store.Table.{Table, merged}
use awiki_cli.Store.Table.Laws.{IsLawful, contains}

pub record ContactHandleBindingRecord : Type 0 where
  pub owner_did : Text
  pub handle : Text
  pub did : Text
  pub is_current : Bool
  pub first_seen_at : Text
  pub last_seen_at : Text
  pub source_type : Text
  pub source_group_id : Text
  pub metadata : Text
  pub credential_name : Text

unfoldable pub normalize_recovered_contact_handle_binding_row :
    Text → Text → ContactHandleBindingRecord → ContactHandleBindingRecord
normalize_recovered_contact_handle_binding_row new_owner credential row = record {
  owner_did = new_owner;
  handle = row.handle;
  did = row.did;
  is_current = false;
  first_seen_at = row.first_seen_at;
  last_seen_at = row.last_seen_at;
  source_type = row.source_type;
  source_group_id = row.source_group_id;
  metadata = row.metadata;
  credential_name = credential;
}

unfoldable pub merge_recovered_contact_handle_binding :
    (Text → Option ℕ)
    → ContactHandleBindingRecord
    → ContactHandleBindingRecord
    → ContactHandleBindingRecord
merge_recovered_contact_handle_binding parse existing incoming = record {
  owner_did = incoming.owner_did;
  handle = incoming.handle;
  did = incoming.did;
  is_current = false;
  first_seen_at = earlier_time_string parse existing.first_seen_at incoming.first_seen_at;
  last_seen_at = later_time_string parse existing.last_seen_at incoming.last_seen_at;
  source_type = choose_later_non_empty existing.source_type incoming.source_type;
  source_group_id = choose_later_non_empty existing.source_group_id incoming.source_group_id;
  metadata = choose_later_non_empty existing.metadata incoming.metadata;
  credential_name = choose_later_non_empty existing.credential_name incoming.credential_name;
}

-- The row that upsertRecoveredContactHandleBinding writes, read again.
unfoldable pub upsert_recovered_contact_handle_binding :
    ContactHandleBindingRecord → ContactHandleBindingRecord
upsert_recovered_contact_handle_binding r = record {
  owner_did = trim_space r.owner_did;
  handle = r.handle;
  did = r.did;
  is_current = r.is_current;
  first_seen_at = r.first_seen_at;
  last_seen_at = r.last_seen_at;
  source_type = trim_space r.source_type;
  source_group_id = trim_space r.source_group_id;
  metadata = trim_space r.metadata;
  credential_name = trim_space r.credential_name;
}

module _ (parse : Text → Option ℕ)
    (order : List ContactHandleBindingRecord → List ContactHandleBindingRecord) where
  -- The table of mergeRecoveredContactHandleBindings, less the handles that it collects for a later step.
  unfoldable pub contact_handle_bindings : Text → Text → Table ContactHandleBindingRecord
  contact_handle_bindings new_owner credential = record {
    owner = ContactHandleBindingRecord.owner_did;
    key = λ r. r.handle ∷ r.did ∷ [];
    order = order;
    normalize = normalize_recovered_contact_handle_binding_row new_owner credential;
    merge = merge_recovered_contact_handle_binding parse;
    stored = upsert_recovered_contact_handle_binding;
  }

  contact_handle_bindings-owner :
      (w credential : Text)
      → trim_space w ≡ w
      → (o : Option ContactHandleBindingRecord) (r : ContactHandleBindingRecord)
      → let table = contact_handle_bindings w credential in
        table.owner (table.stored (merged table o (table.normalize r))) ≡ w
  unfolding contact_handle_bindings normalize_recovered_contact_handle_binding_row
      merge_recovered_contact_handle_binding upsert_recovered_contact_handle_binding
  contact_handle_bindings-owner w credential e none r = e
  contact_handle_bindings-owner w credential e (some x) r = e

  contact_handle_bindings-key :
      (w credential : Text) (o : Option ContactHandleBindingRecord) (r : ContactHandleBindingRecord)
      → let table = contact_handle_bindings w credential in
        table.key (table.stored (merged table o (table.normalize r))) ≡ table.key r
  unfolding contact_handle_bindings normalize_recovered_contact_handle_binding_row
      merge_recovered_contact_handle_binding upsert_recovered_contact_handle_binding
  contact_handle_bindings-key w credential none r = refl
  contact_handle_bindings-key w credential (some x) r = refl

  -- A merged row is the new owner's and keeps its key.
  pub contact_handle_bindings-IsLawful :
      (w credential : Text)
      → trim_space w ≡ w
      → ((o : Text) (k : List Text) (rs : List ContactHandleBindingRecord)
          → contains (contact_handle_bindings w credential) o k rs ≡ true
          → contains (contact_handle_bindings w credential) o k (order rs) ≡ true)
      → IsLawful (contact_handle_bindings w credential) w
  unfolding contact_handle_bindings
  contact_handle_bindings-IsLawful w credential e kept = record {
    owner_of = contact_handle_bindings-owner w credential e;
    key_of = contact_handle_bindings-key w credential;
    kept = kept;
  }
