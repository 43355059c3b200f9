-- ===== src/Store/Current.antt =====
-- internal/store/recover_merge.go: normalizeRecoveredCurrentHandles, the choice of the current contact
-- of each handle that a recovery has touched. The list of bindings is in the order in which the UPDATE
-- visits the rows. SQLite tests a unique index at each row that an UPDATE changes, not at the end of the
-- statement; with the error the code rolls the whole merge back. A NULL handle reads as the empty string,
-- and the schema has no NULL in last_seen_at.
mod Tests
pub mod Laws
pub mod Settled
pub mod Visits
use awiki_cli.Base.{
  Bool, true, false, not, ◌&&◌, ◌||◌, List, [], ◌∷◌, ◌++◌, Option, none, some, if◌then◌else◌, any,
  is_less, Sign, less, equal, greater, Result, ok, err, ◌>>=◌,
}
use awiki_cli.Text.{Text, same, lex, trim_space}
use awiki_cli.Store.Contact.{ContactRecord}
use awiki_cli.Store.Binding.{ContactHandleBindingRecord}
use awiki_cli.Store.Book.{Book, is_bound, has_handle}

pub data CurrentError : Type 0 where
  unique_violation : CurrentError

-- The first row stands before the second in ORDER BY last_seen_at DESC, did DESC.
unfoldable pub is_later : ContactHandleBindingRecord → ContactHandleBindingRecord → Bool
is_later x y = elim (lex x.last_seen_at y.last_seen_at) [
  | greater ↦ true
  | less ↦ false
  | equal ↦ is_less (lex y.did x.did)
]

abbrev pub later_of :
    ContactHandleBindingRecord → Option ContactHandleBindingRecord → ContactHandleBindingRecord
later_of x none = x
later_of x (some y) = if is_later y x then y else x

-- SELECT did … ORDER BY … DESC, its first row.
unfoldable pub last_seen :
    Text → Text → List ContactHandleBindingRecord → Option ContactHandleBindingRecord
last_seen owner handle [] = none
last_seen owner handle (x ∷ xs) =
    let rest = last_seen owner handle xs in
    if is_bound owner handle x then some (later_of x rest) else rest

abbrev pub is_now : Text → Text → ContactHandleBindingRecord → Bool
is_now owner handle x = is_bound owner handle x && x.is_current

-- A row of the handle, current exactly when it is that of the DID.
abbrev pub marked : Text → Text → Text → ContactHandleBindingRecord → ContactHandleBindingRecord
marked owner handle did x =
    if is_bound owner handle x then record x { is_current = same x.did did } else x

-- UPDATE contact_handle_bindings SET is_current = …; `done` are the rows that were visited.
unfoldable pub mark_current :
    Text
    → Text
    → Text
    → List ContactHandleBindingRecord
    → List ContactHandleBindingRecord
    → Result CurrentError (List ContactHandleBindingRecord)
mark_current owner handle did done [] = ok done
mark_current owner handle did done (x ∷ xs) =
    let rest = mark_current owner handle did (done ++ (marked owner handle did x ∷ [])) xs in
    if is_bound owner handle x
      && (same x.did did && (any (is_now owner handle) done || any (is_now owner handle) xs))
    then err unique_violation
    else rest

-- UPDATE contacts SET handle = …
unfoldable pub move_handle : Text → Text → Text → List ContactRecord → List ContactRecord
move_handle owner handle did [] = []
move_handle owner handle did (x ∷ xs) =
    (if same x.owner_did owner && (same x.did did || has_handle owner handle x)
      then record x { handle = if same x.did did then handle else [] }
      else x)
    ∷ move_handle owner handle did xs

abbrev pub moved_to :
    Text → Text → Book → Option ContactHandleBindingRecord → Result CurrentError Book
moved_to owner handle b none = ok b
moved_to owner handle b (some row) = do
  bindings ← mark_current owner handle row.did [] b.bindings
  ok (record { contacts = move_handle owner handle row.did b.contacts; bindings = bindings })

unfoldable pub normalize_current_handle : Text → Text → Book → Result CurrentError Book
normalize_current_handle owner handle b =
    moved_to (trim_space owner) handle b (last_seen owner handle b.bindings)

-- The handles are in the order in which the map is iterated.
unfoldable pub normalize_recovered_current_handles :
    Text → List Text → Book → Result CurrentError Book
normalize_recovered_current_handles owner [] b = ok b
normalize_recovered_current_handles owner (h ∷ hs) b = do
  c ← normalize_current_handle owner h b
  normalize_recovered_current_handles owner hs c
