-- ===== src/Store/Table/Laws.antt =====
-- What the merge of a table keeps.
use awiki_cli.Base.{
  ◌≡◌, refl, Bool, true, false, ◌||◌, List, [], ◌∷◌, arith, Option, if◌then◌else◌, Bool-cases, inl,
  inr, ◌⊎◌, ◌∙◌, sym,
}
use awiki_cli.Text.{Text, same}
use awiki_cli.Text.Order.{eq_of_same, same_refl}
use awiki_cli.Store.{is_in}
use awiki_cli.Store.Table.{
  Table, same_keys, is_at, rows_of, upsert, delete_rows_for_owners, absorb, absorb_all,
  absorb_owners, merge_recovered, merged,
}

eq_of_same_keys : (k l : List Text) → same_keys k l ≡ true → k ≡ l
unfolding same_keys
eq_of_same_keys [] [] e = refl
eq_of_same_keys [] (y ∷ l) e = ground arith
eq_of_same_keys (x ∷ k) [] e = ground arith
eq_of_same_keys (x ∷ k) (y ∷ l) e = ground (arith, eq_of_same x y, eq_of_same_keys k l)

same_keys_refl : (k : List Text) → same_keys k k ≡ true
unfolding same_keys
same_keys_refl [] = refl
same_keys_refl (x ∷ k) = ground (arith, same_refl x, same_keys_refl k)

in_head : (o p : Text) (os : List Text) → is_in o (p ∷ os) ≡ true → (p ≡ o) ⊎ (is_in o os ≡ true)
unfolding is_in
in_head o p os h = elim (Bool-cases (same p o)) [
  | inl e ↦ inl (eq_of_same p o e)
  | inr e ↦ inr (ground arith)
]

-- A row of the owner with the key stands in the table.
unfoldable pub contains {ℓ} : {R : Type ℓ} → Table R → Text → List Text → List R → Bool
contains table o k [] = false
contains table o k (r ∷ rs) = is_at table o k r || contains table o k rs

-- The rows that belong neither to the new owner nor to an old one.
unfoldable pub bystanders {ℓ} : {R : Type ℓ} → Table R → Text → List Text → List R → List R
bystanders table new_owner owners [] = []
bystanders table new_owner owners (r ∷ rs) =
    if is_in (table.owner r) owners || same (table.owner r) new_owner
    then bystanders table new_owner owners rs
    else r ∷ bystanders table new_owner owners rs

-- What the merge relies on: an absorbed row is the new owner's and keeps its key, and the ORDER BY
-- drops no row.
pub record IsLawful {ℓ} {R : Type ℓ} (table : Table R) (new_owner : Text) : Type ℓ where
  pub owner_of :
      (o : Option R) (r : R)
      → table.owner (table.stored (merged table o (table.normalize r))) ≡ new_owner
  pub key_of :
      (o : Option R) (r : R)
      → table.key (table.stored (merged table o (table.normalize r))) ≡ table.key r
  pub kept :
      (o : Text) (k : List Text) (rs : List R)
      → contains table o k rs ≡ true
      → contains table o k (table.order rs) ≡ true

module _ {ℓ} {R : Type ℓ} (table : Table R) where
  contains-upsert :
      (o : Text) (k : List Text) (r : R) (rs : List R)
      → contains table o k rs ≡ true
      → contains table o k (upsert table r rs) ≡ true
  unfolding upsert contains
  contains-upsert o k r [] h = ground arith
  contains-upsert o k r (x ∷ rs) h = ground (
    arith,
    contains-upsert o k r rs,
    eq_of_same (table.owner x) (table.owner r),
    eq_of_same_keys (table.key x) (table.key r),
  )

  contains-upsert_at :
      (o : Text) (k : List Text) (r : R) (rs : List R)
      → table.owner r ≡ o
      → table.key r ≡ k
      → contains table o k (upsert table r rs) ≡ true
  unfolding upsert contains
  contains-upsert_at o k r [] eo ek = ground (arith, same_refl o, same_keys_refl k)
  contains-upsert_at o k r (x ∷ rs) eo ek =
      ground (arith, same_refl o, same_keys_refl k, contains-upsert_at o k r rs eo ek)

  contains-rows_of :
      (o : Text) (k : List Text) (rs : List R)
      → contains table o k rs ≡ true
      → contains table o k (rows_of table o rs) ≡ true
  unfolding rows_of contains
  contains-rows_of o k [] h = h
  contains-rows_of o k (r ∷ rs) h = ground (arith, contains-rows_of o k rs)

  contains-delete :
      (o : Text) (k : List Text) (owners : List Text) (rs : List R)
      → is_in o owners ≡ false
      → contains table o k rs ≡ true
      → contains table o k (delete_rows_for_owners table owners rs) ≡ true
  unfolding delete_rows_for_owners contains
  contains-delete o k owners [] n h = h
  contains-delete o k owners (r ∷ rs) n h =
      ground (arith, contains-delete o k owners rs n, eq_of_same (table.owner r) o)

  bystanders-upsert :
      (w : Text) (owners : List Text) (r : R) (rs : List R)
      → table.owner r ≡ w
      → bystanders table w owners (upsert table r rs) ≡ bystanders table w owners rs
  unfolding upsert bystanders
  bystanders-upsert w owners r [] e = ground (arith, same_refl w)
  bystanders-upsert w owners r (x ∷ rs) e = ground (
    arith,
    same_refl w,
    eq_of_same (table.owner x) (table.owner r),
    bystanders-upsert w owners r rs e,
  )

  bystanders-delete :
      (w : Text) (owners : List Text) (rs : List R)
      → bystanders table w owners (delete_rows_for_owners table owners rs)
        ≡ bystanders table w owners rs
  unfolding delete_rows_for_owners bystanders
  bystanders-delete w owners [] = refl
  bystanders-delete w owners (r ∷ rs) = ground (arith, bystanders-delete w owners rs)

module _ {ℓ} {R : Type ℓ} (table : Table R) where
  delete-cleared :
      (o : Text) (k : List Text) (os : List Text) (rs : List R)
      → is_in o os ≡ true
      → contains table o k (delete_rows_for_owners table os rs) ≡ false
  unfolding delete_rows_for_owners contains
  delete-cleared o k os [] h = refl
  delete-cleared o k os (r ∷ rs) h =
      ground (arith, eq_of_same (table.owner r) o, delete-cleared o k os rs h)

  -- No row of an old owner is left when the merge is done.
  pub merge_recovered-cleared :
      (w o : Text) (k : List Text) (os : List Text) (rs : List R)
      → is_in o os ≡ true
      → contains table o k (merge_recovered table w os rs).1 ≡ false
  unfolding merge_recovered
  merge_recovered-cleared w o k os rs h = delete-cleared o k os _ h

module _ {ℓ} {R : Type ℓ} (table : Table R) (w : Text) (lawful : IsLawful table w) where
  contains-absorb :
      (o : Text) (k : List Text) (row : R) (rs : List R)
      → contains table o k rs ≡ true
      → contains table o k (absorb table w row rs) ≡ true
  unfolding absorb
  contains-absorb o k row rs h = contains-upsert table o k _ rs h

  contains-absorb_self :
      (row : R) (rs : List R) → contains table w (table.key row) (absorb table w row rs) ≡ true
  unfolding absorb
  contains-absorb_self row rs =
      contains-upsert_at table w (table.key row) _ rs (lawful.owner_of _ row) (lawful.key_of _ row)

  contains-absorb_all :
      (o : Text) (k : List Text) (rows rs : List R)
      → contains table o k rs ≡ true
      → contains table o k (absorb_all table w rows rs) ≡ true
  unfolding absorb_all
  contains-absorb_all o k [] rs h = h
  contains-absorb_all o k (row ∷ rows) rs h =
      contains-absorb_all o k rows _ (contains-absorb o k row rs h)

  contains_head :
      (o : Text) (k : List Text) (row : R) (rows : List R)
      → contains table o k (row ∷ rows) ≡ true
      → (table.key row ≡ k) ⊎ (contains table o k rows ≡ true)
  unfolding contains
  contains_head o k row rows h = elim (Bool-cases (is_at table o k row)) [
    | inl e ↦ inl (eq_of_same_keys (table.key row) k (ground arith))
    | inr e ↦ inr (ground arith)
  ]

  absorbed_all :
      (o : Text) (k : List Text) (rows rs : List R)
      → contains table o k rows ≡ true
      → contains table w k (absorb_all table w rows rs) ≡ true
  unfolding absorb_all
  absorbed_all o k [] rs h = unfold contains in cc
  absorbed_all o k (row ∷ rows) rs h = elim (contains_head o k row rows h) [
    | inl e ↦ contains-absorb_all w k rows _ (rw (sym e) (contains-absorb_self row rs))
    | inr e ↦ absorbed_all o k rows _ e
  ]

  contains-absorb_owners :
      (o : Text) (k : List Text) (os : List Text) (rs : List R)
      → contains table o k rs ≡ true
      → contains table o k (absorb_owners table w os rs) ≡ true
  unfolding absorb_owners
  contains-absorb_owners o k [] rs h = h
  contains-absorb_owners o k (p ∷ os) rs h =
      contains-absorb_owners o k os _ (contains-absorb_all o k _ rs h)

  absorbed_owners :
      (o : Text) (k : List Text) (os : List Text) (rs : List R)
      → is_in o os ≡ true
      → contains table o k rs ≡ true
      → contains table w k (absorb_owners table w os rs) ≡ true
  unfolding absorb_owners
  absorbed_owners o k [] rs i h = unfold is_in in cc
  absorbed_owners o k (p ∷ os) rs i h = elim (in_head o p os i) [
    | inl e ↦
        contains-absorb_owners w k os _
          (absorbed_all o k _ rs (rw e (lawful.kept o k _ (contains-rows_of table o k rs h))))
    | inr e ↦ absorbed_owners o k os _ e (contains-absorb_all o k _ rs h)
  ]

  -- Where the new owner is none of the old ones, a row of an old owner stands under the new owner,
  -- with its key, when the merge of a lawful table is done.
  pub merge_recovered-contains :
      (o : Text) (k : List Text) (os : List Text) (rs : List R)
      → is_in o os ≡ true
      → is_in w os ≡ false
      → contains table o k rs ≡ true
      → contains table w k (merge_recovered table w os rs).1 ≡ true
  unfolding merge_recovered
  merge_recovered-contains o k os rs i n h =
      contains-delete table w k os _ n (absorbed_owners o k os rs i h)

  bystanders-absorb_all :
      (os : List Text) (rows rs : List R)
      → bystanders table w os (absorb_all table w rows rs) ≡ bystanders table w os rs
  unfolding absorb_all absorb
  bystanders-absorb_all os [] rs = refl
  bystanders-absorb_all os (row ∷ rows) rs =
      bystanders-absorb_all os rows _ ∙ bystanders-upsert table w os _ rs (lawful.owner_of _ row)

  bystanders-absorb_owners :
      (os ps : List Text) (rs : List R)
      → bystanders table w os (absorb_owners table w ps rs) ≡ bystanders table w os rs
  unfolding absorb_owners
  bystanders-absorb_owners os [] rs = refl
  bystanders-absorb_owners os (p ∷ ps) rs =
      bystanders-absorb_owners os ps _ ∙ bystanders-absorb_all os _ rs

  -- The merge of a lawful table leaves the rows of all others as they were, in their order.
  pub merge_recovered-bystanders :
      (os : List Text) (rs : List R)
      → bystanders table w os (merge_recovered table w os rs).1 ≡ bystanders table w os rs
  unfolding merge_recovered
  merge_recovered-bystanders os rs =
      bystanders-delete table w os _ ∙ bystanders-absorb_owners os os rs
