-- ===== src/Store/Table.antt =====
-- The merge of one table of internal/store/recover_merge.go: the loops of mergeRecoveredMessages
-- and its like, with the SQL statements they issue, on the rows of the table. A failed statement
-- rolls the transaction back, so only runs without a failure are modelled.
pub mod Laws
use awiki_cli.Base.{
  ℕ, ◌≡◌, Bool, true, false, not, ◌&&◌, ◌||◌, List, [], ◌∷◌, ◌++◌, ◌+◌, length, Option, none, some,
  if◌then◌else◌,
}
use awiki_cli.Text.{Text, same, trim_space}
use awiki_cli.Store.{is_in}

-- A record type with its owner, the columns that make its key within the owner, and the steps of
-- the merge: `order` is the SELECT's ORDER BY, `normalize` makes a row of an old owner the new
-- owner's, `merge` joins it to the row there is, `stored` is the row as the upsert writes it.
pub record Table {ℓ} (R : Type ℓ) : Type ℓ where
  pub owner : R → Text
  pub key : R → List Text
  pub order : List R → List R
  pub normalize : R → R
  pub merge : R → R → R
  pub stored : R → R

unfoldable pub same_keys : List Text → List Text → Bool
same_keys [] [] = true
same_keys (x ∷ xs) (y ∷ ys) = same x y && same_keys xs ys
same_keys _ _ = false

module _ {ℓ} {R : Type ℓ} (table : Table R) where
  -- Whether a row is the owner's and has the key.
  abbrev pub is_at : Text → List Text → R → Bool
  is_at o k r = same (table.owner r) o && same_keys (table.key r) k

  -- SELECT * FROM table WHERE owner_did = o
  unfoldable pub rows_of : Text → List R → List R
  rows_of o [] = []
  rows_of o (r ∷ rs) = if same (table.owner r) o then r ∷ rows_of o rs else rows_of o rs

  unfoldable pub find : Text → List Text → List R → Option R
  find o k [] = none
  find o k (r ∷ rs) = if is_at o k r then some r else find o k rs

  -- INSERT … ON CONFLICT (owner, key) DO UPDATE
  unfoldable pub upsert : R → List R → List R
  upsert r [] = r ∷ []
  upsert r (x ∷ xs) = if is_at (table.owner r) (table.key r) x then r ∷ xs else x ∷ upsert r xs

  unfoldable pub delete_rows_for_owners : List Text → List R → List R
  delete_rows_for_owners owners [] = []
  delete_rows_for_owners owners (r ∷ rs) =
      if is_in (table.owner r) owners
      then delete_rows_for_owners owners rs
      else r ∷ delete_rows_for_owners owners rs

  unfoldable pub count_rows_for_owners : List Text → List R → ℕ
  count_rows_for_owners owners [] = 0
  count_rows_for_owners owners (r ∷ rs) =
      if is_in (table.owner r) owners
      then 1 + count_rows_for_owners owners rs
      else count_rows_for_owners owners rs

  -- The row there is for the new owner, merged with a normalised one.
  abbrev pub merged : Option R → R → R
  merged none r = r
  merged (some existing) r = table.merge existing r

  unfoldable pub absorb : Text → R → List R → List R
  absorb new_owner row rs =
      let r = table.normalize row in
      upsert (table.stored (merged (find new_owner (table.key r) rs) r)) rs

  unfoldable pub absorb_all : Text → List R → List R → List R
  absorb_all new_owner [] rs = rs
  absorb_all new_owner (row ∷ rows) rs = absorb_all new_owner rows (absorb new_owner row rs)

  unfoldable pub absorb_owners : Text → List Text → List R → List R
  absorb_owners new_owner [] rs = rs
  absorb_owners new_owner (o ∷ os) rs =
      absorb_owners new_owner os (absorb_all new_owner (table.order (rows_of o rs)) rs)

  -- The number of rows the loop has read.
  unfoldable pub absorbed_count : Text → List Text → List R → ℕ
  absorbed_count new_owner [] rs = 0
  absorbed_count new_owner (o ∷ os) rs =
      length (table.order (rows_of o rs))
      + absorbed_count new_owner os (absorb_all new_owner (table.order (rows_of o rs)) rs)

  unfoldable pub merge_recovered : Text → List Text → List R → ℕ × List R
  merge_recovered new_owner owners rs = (
    absorbed_count new_owner owners rs,
    delete_rows_for_owners owners (absorb_owners new_owner owners rs),
  )
