-- ===== src/Store.antt =====
-- internal/store/recover_merge.go: what the records of a handle's old identities become when the
-- handle is recovered under a new one. This file has the helpers on strings and times; a time is
-- what `parse`, for time.Parse, makes of a string: the number of nanoseconds since a fixed instant.
mod Tests
pub mod Times
pub mod Threads
pub mod Owners
pub mod Table
pub mod Message
pub mod Member
pub mod Binding
pub mod Contact
pub mod Group
pub mod Book
pub mod Inbox
pub mod Outbox
pub mod Current
use awiki_cli.Base.{
  ℕ, Bool, true, false, not, ◌&&◌, ◌||◌, List, [], ◌∷◌, ◌++◌, Option, none, some, if◌then◌else◌,
  leb, Sign, less, equal, greater, sign,
}
use awiki_cli.Base.Int.{ℤ, pos, negsuc}
use awiki_cli.Text.{Text, text, same, lex, trim_space, is_empty, is_blank}

unfoldable pub default_string : Text → Text → Text
default_string value fallback = if is_blank value then fallback else value

unfoldable pub choose_later_non_empty : Text → Text → Text
choose_later_non_empty existing incoming = if not (is_blank incoming) then incoming else existing

unfoldable pub first_non_empty : List Text → Text
first_non_empty [] = []
first_non_empty (v ∷ vs) = if not (is_blank v) then v else first_non_empty vs

unfoldable pub at_least : ℤ → ℤ → Bool
at_least (pos m) (pos n) = leb n m
at_least (pos m) (negsuc n) = true
at_least (negsuc m) (pos n) = false
at_least (negsuc m) (negsuc n) = leb m n

unfoldable pub max_int64_ptr : Option ℤ → Option ℤ → Option ℤ
max_int64_ptr none right = right
max_int64_ptr (some l) none = some l
max_int64_ptr (some l) (some r) = if at_least l r then some l else some r

unfoldable pub bool_from_ptr : Option Bool → Bool
bool_from_ptr none = false
bool_from_ptr (some b) = b

-- Both of two parsed times, or the order of the strings.
unfoldable pub compare_instants : Option ℕ → Option ℕ → Sign → Sign
compare_instants (some l) (some r) otherwise = sign l r
compare_instants _ _ otherwise = otherwise

module _ (parse : Text → Option ℕ) where
  unfoldable pub compare_time_strings : Text → Text → Sign
  compare_time_strings left right =
      let l = trim_space left in
      let r = trim_space right in
      if is_empty l && is_empty r
      then equal
      else if is_empty l
      then less
      else if is_empty r
      then greater
      else compare_instants (parse l) (parse r) (lex l r)

  unfoldable pub earlier_time_string : Text → Text → Text
  earlier_time_string existing incoming = elim (compare_time_strings existing incoming) [
    | greater ↦ incoming
    | less ↦ default_string existing incoming
    | equal ↦ default_string existing incoming
  ]

  unfoldable pub later_time_string : Text → Text → Text
  later_time_string existing incoming = elim (compare_time_strings existing incoming) [
    | less ↦ incoming
    | greater ↦ default_string existing incoming
    | equal ↦ default_string existing incoming
  ]

-- MakeThreadID; the two ends of a direct thread stand in the order of their names.
unfoldable pub make_thread_id : Text → Text → Text → Text
make_thread_id me peer group =
    let a = trim_space me in
    let b = trim_space peer in
    let g = trim_space group in
    if not (is_empty g)
    then text "group:" ++ g
    else if not (is_empty b)
    then elim (lex b a) [
      | less ↦ text "dm:" ++ (b ++ (b':' ∷ a))
      | equal ↦ text "dm:" ++ (a ++ (b':' ∷ b))
      | greater ↦ text "dm:" ++ (a ++ (b':' ∷ b))
    ]
    else text "dm:" ++ (a ++ text ":unknown")

-- A membership test of the map that holds a set of names.
unfoldable pub is_in : Text → List Text → Bool
is_in v [] = false
is_in v (x ∷ xs) = same x v || is_in v xs

unfoldable pub remap_recovered_self_did : Text → List Text → Text → Text
remap_recovered_self_did value old_owners new_owner =
    let v = trim_space value in if is_in v old_owners then new_owner else v

unfoldable pub first_recovered_peer_did : Text → Text → Text → Text
first_recovered_peer_did sender receiver owner =
    if not (is_blank sender) && not (same sender owner)
    then sender
    else if not (is_blank receiver) && not (same receiver owner)
    then receiver
    else first_non_empty (sender ∷ receiver ∷ [])

-- The loop of `normalizeRecoverOwnerDIDs`, `seen` the owners taken so far.
unfoldable pub owners_from : List Text → Text → List Text → List Text
owners_from seen new_owner [] = []
owners_from seen new_owner (o ∷ os) =
    let owner = trim_space o in
    let skipped = owners_from seen new_owner os in
    let taken = owners_from (owner ∷ seen) new_owner os in
    if is_empty owner || same owner new_owner
    then skipped
    else if is_in owner seen
    then skipped
    else owner ∷ taken

unfoldable pub normalize_recover_owner_dids : List Text → Text → List Text
normalize_recover_owner_dids olds new_owner = owners_from [] (trim_space new_owner) olds
