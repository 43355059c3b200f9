-- ===== src/Identity/Index.antt =====
-- internal/identity/layout.go and internal/identity/store.go: the index of the identities, a map by name.
-- An association list stands for the map. The files of an identity's directory are not modelled, nor is
-- a failure to write them; `created_at` and `Profile` are what Load reads of them. `unescape` is
-- url.PathUnescape, `wide` unicode.ToLower beyond ASCII.
mod Tests
pub mod Laws
pub mod Replace
use awiki_cli.Base.{
  ℕ, ◌≡◌, Bool, true, false, not, ◌&&◌, ◌||◌, List, [], ◌∷◌, ◌++◌, Option, none, some,
  if◌then◌else◌, Result, ok, err, ◌>>=◌, ◌==◌,
}
use awiki_cli.Text.{Text, text, same, trim_space, is_empty, is_blank}
use awiki_cli.Identity.Handle.{stored_handle_fields}
use awiki_cli.Identity.Names.{preferred_dir_name}

pub record IndexEntry : Type 0 where
  pub credential_name : Text
  pub dir_name : Text
  pub did : Text
  pub unique_id : Text
  pub user_id : Text
  pub name : Text
  pub handle : Text
  pub full_handle : Text
  pub created_at : Text
  pub is_default : Bool

pub record IndexPayload : Type 0 where
  pub schema_version : ℕ
  pub default_credential_name : Text
  pub credentials : List (Text × IndexEntry)

pub data IndexError : Type 0 where
  invalid_input : IndexError
  identity_conflict : IndexError
  identity_not_found : IndexError
  no_default_identity : IndexError
  unsupported_schema : IndexError
  malformed_index : IndexError

abbrev pub index_schema_version : ℕ
index_schema_version = 3

-- `entry, ok := index.Credentials[name]`
unfoldable pub lookup : Text → List (Text × IndexEntry) → Option IndexEntry
lookup name [] = none
lookup name (x ∷ xs) = if same x.0 name then some x.1 else lookup name xs

unfoldable pub is_key : Text → List (Text × IndexEntry) → Bool
is_key name [] = false
is_key name (x ∷ xs) = same x.0 name || is_key name xs

unfoldable pub without_name : Text → List (Text × IndexEntry) → List (Text × IndexEntry)
without_name name [] = []
without_name name (x ∷ xs) =
    if same x.0 name then without_name name xs else x ∷ without_name name xs

-- index.Credentials[name] = entry
unfoldable pub put : Text → IndexEntry → List (Text × IndexEntry) → List (Text × IndexEntry)
put name entry xs = (name, entry) ∷ without_name name xs

abbrev pub default_index : IndexPayload
default_index = record {
  schema_version = index_schema_version;
  default_credential_name = [];
  credentials = [];
}

-- The name of the default identity that an index without one has.
unfoldable pub default_name : Text → List (Text × IndexEntry) → Text
default_name name xs = if is_empty name && is_key (text "default") xs then text "default" else name

unfoldable pub named_entries : Text → List (Text × IndexEntry) → List (Text × IndexEntry)
named_entries default [] = []
named_entries default (x ∷ xs) =
    (x.0, record x.1 { credential_name = x.0; is_default = same default x.0 })
    ∷ named_entries default xs

unfoldable pub normalize_index_payload : IndexPayload → IndexPayload
normalize_index_payload p =
    let default = default_name p.default_credential_name p.credentials in
    record {
      schema_version = if p.schema_version == 0 then index_schema_version else p.schema_version;
      default_credential_name = default;
      credentials = named_entries default p.credentials;
    }

-- The index file.
pub data IndexFile : Type 0 where
  missing : IndexFile
  malformed : IndexFile
  payload : IndexPayload → IndexFile

unfoldable pub load_index_from : IndexFile → Result IndexError IndexPayload
load_index_from missing = ok default_index
load_index_from malformed = err malformed_index
load_index_from (payload p) =
    if not (p.schema_version == 0) && (not (p.schema_version == 2) && not (p.schema_version == 3))
    then err unsupported_schema
    else ok (normalize_index_payload p)

unfoldable pub save_index_to : IndexPayload → IndexFile
save_index_to p = payload (normalize_index_payload p)

unfoldable pub resolve_entry_name : Text → IndexPayload → Option (Text × IndexEntry)
resolve_entry_name requested p = elim (lookup requested p.credentials) [
  | some entry ↦ some (requested, entry)
  | none ↦
      if (is_empty requested || same requested (text "default"))
        && not (is_empty p.default_credential_name)
      then elim (lookup p.default_credential_name p.credentials) [
        | some entry ↦ some (p.default_credential_name, entry)
        | none ↦ none
      ]
      else none
]

-- The fields of SaveInput that the index takes.
pub record SaveInput : Type 0 where
  pub identity_name : Text
  pub did : Text
  pub unique_id : Text
  pub user_id : Text
  pub display_name : Text
  pub handle : Text
  pub full_handle : Text
  pub replace_existing : Bool

-- An identity of another name uses the directory for another DID.
unfoldable pub uses_dir : Text → Text → Text → List (Text × IndexEntry) → Bool
uses_dir name dir did [] = false
uses_dir name dir did (x ∷ xs) =
    not (same x.0 name) && (same x.1.dir_name dir && not (same x.1.did did))
    || uses_dir name dir did xs

-- The name is that of an identity with another DID, which is not to be replaced.
unfoldable pub is_taken : Text → Bool → Option IndexEntry → Bool
is_taken did replace none = false
is_taken did replace (some existing) = not (same existing.did did) && not replace

abbrev pub saved_entry : Text → Text → Text × Text → SaveInput → IndexPayload → IndexEntry
saved_entry created_at dir handles input p = record {
  credential_name = input.identity_name;
  dir_name = dir;
  did = input.did;
  unique_id = input.unique_id;
  user_id = input.user_id;
  name = input.display_name;
  handle = handles.0;
  full_handle = handles.1;
  created_at = created_at;
  is_default =
      same p.default_credential_name input.identity_name || is_empty p.default_credential_name;
}

-- The index with the entry of an identity that is saved.
unfoldable pub put_saved : Text → Text → Text × Text → SaveInput → IndexPayload → IndexPayload
put_saved created_at dir handles input p = record p {
  default_credential_name =
      if is_empty p.default_credential_name then input.identity_name else p.default_credential_name;
  credentials = put input.identity_name (saved_entry created_at dir handles input p) p.credentials;
}

module _ (wide : ℕ → ℕ) (unescape : Text → Option Text) where
  -- Manager.save on the index: the file that it leaves, or its error.
  unfoldable pub save : Text → SaveInput → IndexFile → Result IndexError IndexFile
  save created_at input file =
      let handles = stored_handle_fields wide unescape input.handle input.full_handle input.did in
      if is_blank input.identity_name
      then err invalid_input
      else if is_blank input.did || is_blank input.unique_id
      then err invalid_input
      else elim (load_index_from file) [
        | err e ↦ err e
        | ok p ↦
            if is_taken input.did input.replace_existing (lookup input.identity_name p.credentials)
            then err identity_conflict
            else elim (preferred_dir_name input.unique_id) [
              | err e ↦ err invalid_input
              | ok dir ↦
                  if uses_dir input.identity_name dir input.did p.credentials
                  then err identity_conflict
                  else ok (save_index_to (put_saved created_at dir handles input p))
            ]
      ]

-- What Load reads of the identity that is replaced.
pub record Profile : Type 0 where
  pub user_id : Text
  pub display_name : Text
  pub handle : Text
  pub full_handle : Text
  pub created_at : Text

-- The directory or the DID of the identity that is replaced.
abbrev pub is_linked : IndexEntry → IndexEntry → Bool
is_linked entry x = same x.dir_name entry.dir_name || same x.did entry.did

-- An identity that is not linked has the new DID or the new directory.
unfoldable pub is_claimed : IndexEntry → Text → Text → List (Text × IndexEntry) → Bool
is_claimed entry dir did [] = false
is_claimed entry dir did (x ∷ xs) =
    not (is_linked entry x.1) && (same x.1.did did || same x.1.dir_name dir)
    || is_claimed entry dir did xs

-- The linked identities changed; the save that follows sets their names and flags.
unfoldable pub relinked :
    IndexEntry → (IndexEntry → IndexEntry) → List (Text × IndexEntry) → List (Text × IndexEntry)
relinked entry change [] = []
relinked entry change (x ∷ xs) =
    (x.0, if is_linked entry x.1 then change x.1 else x.1) ∷ relinked entry change xs

module _ (wide : ℕ → ℕ) (unescape : Text → Option Text) where
  unfoldable pub replacement : Text → Text → Profile → SaveInput → IndexEntry → IndexEntry
  replacement now dir current input x =
      let handle = if is_blank input.handle then current.handle else input.handle in
      let full = if is_blank input.full_handle then current.full_handle else input.full_handle in
      let handles = stored_handle_fields wide unescape handle full input.did in
      record x {
        dir_name = dir;
        did = input.did;
        unique_id = input.unique_id;
        user_id = if is_blank input.user_id then current.user_id else input.user_id;
        name = if is_blank input.display_name then current.display_name else input.display_name;
        handle = handles.0;
        full_handle = handles.1;
        created_at = if is_empty current.created_at then now else current.created_at;
      }

  -- Manager.ReplaceIdentity on the index; `now` is the present time.
  unfoldable pub replace_identity :
      Text → Profile → Text → SaveInput → IndexFile → Result IndexError IndexFile
  replace_identity now current name input file =
      if is_blank name
      then err invalid_input
      else if is_blank input.did || is_blank input.unique_id
      then err invalid_input
      else elim (load_index_from file) [
        | err e ↦ err e
        | ok p ↦ elim (resolve_entry_name name p) [
          | none ↦ err identity_not_found
          | some (resolved, entry) ↦ elim (preferred_dir_name input.unique_id) [
            | err e ↦ err invalid_input
            | ok dir ↦
                if is_claimed entry dir input.did p.credentials
                then err identity_conflict
                else ok (
                    save_index_to (record p {
                      credentials =
                          relinked entry (replacement now dir current input) p.credentials;
                    }))
          ]
        ]
      ]

unfoldable pub set_default : Text → IndexFile → Result IndexError IndexFile
set_default name file = do
  p ← load_index_from file
  if is_key name p.credentials
      then ok (save_index_to (record p { default_credential_name = name }))
      else err identity_not_found

abbrev pub found : Option IndexEntry → Result IndexError IndexEntry
found none = err no_default_identity
found (some entry) = ok entry

-- The entry of Manager.Current.
unfoldable pub current_entry : IndexFile → Result IndexError IndexEntry
current_entry file = do
  p ← load_index_from file
  let default = default_name p.default_credential_name p.credentials
  if is_empty default then err no_default_identity else found (lookup default p.credentials)
