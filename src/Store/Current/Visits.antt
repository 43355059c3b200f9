-- ===== src/Store/Current/Visits.antt =====
-- internal/store/recover_merge.go: the order of the rows in the update of the current bindings.
use awiki_cli.Base.{
  ◌≡◌, refl, sym, ◌≤◌, Bool, true, false, ◌||◌, List, [], ◌∷◌, ◌++◌, some, any, arith, ok, err,
}
use awiki_cli.Text.{Text, trim_space}
use awiki_cli.Store.Binding.{ContactHandleBindingRecord}
use awiki_cli.Store.Book.{Book}
use awiki_cli.Store.Book.Counts.{count, count-append}
use awiki_cli.Store.Book.Keys.{is_key, is_now}
use awiki_cli.Store.Current.{
  unique_violation, last_seen, marked, mark_current, move_handle, normalize_current_handle,
}
use awiki_cli.Store.Current.Settled.{IsKeyed}

abbrev Rows : Type 0
Rows = List ContactHandleBindingRecord

module _ (owner handle did : Text) where
  any_append :
      (p : ContactHandleBindingRecord → Bool) (xs ys : Rows)
      → any p (xs ++ ys) ≡ any p xs || any p ys
  any_append p [] ys = refl
  any_append p (x ∷ xs) ys = ground (arith, any_append p xs ys)

  mark_current-fails :
      (done front back : Rows) (x : ContactHandleBindingRecord)
      → is_key owner handle did x ≡ true
      → any (is_now owner handle) back ≡ true
      → mark_current owner handle did done (front ++ (x ∷ back)) ≡ err unique_violation
  unfolding mark_current
  mark_current-fails done [] back x e f = ground arith
  mark_current-fails done (y ∷ front) back x e f = ground (
    arith,
    mark_current-fails (done ++ (marked owner handle did y ∷ [])) front back x e f,
    any_append (is_now owner handle) front (x ∷ back),
  )

  -- Rows without one of the DID are never refused.
  mark_current-goes :
      (done xs : Rows)
      → count (is_key owner handle did) xs ≡ 0
      → (out : Rows) × (mark_current owner handle did done xs ≡ ok out)
  unfolding mark_current count
  mark_current-goes done [] e = (done, refl)
  mark_current-goes done (y ∷ xs) e =
      let rest = mark_current-goes (done ++ (marked owner handle did y ∷ [])) xs (ground arith) in
      (rest.0, ground (arith, rest.1))

  any_now-marked :
      (done : Rows) (y : ContactHandleBindingRecord)
      → any (is_now owner handle) done ≡ false
      → is_key owner handle did y ≡ false
      → any (is_now owner handle) (done ++ (marked owner handle did y ∷ [])) ≡ false
  any_now-marked done y e f =
      ground (arith, any_append (is_now owner handle) done (marked owner handle did y ∷ []))

  later_is_other :
      (y : ContactHandleBindingRecord) (front back : Rows) (x : ContactHandleBindingRecord)
      → is_key owner handle did x ≡ true
      → count (is_key owner handle did) (y ∷ (front ++ (x ∷ back))) ≤ 1
      → is_key owner handle did y ≡ false
  unfolding count
  later_is_other y front back x e n =
      ground (arith, count-append (is_key owner handle did) front (x ∷ back))

  mark_current-succeeds :
      (done front back : Rows) (x : ContactHandleBindingRecord)
      → is_key owner handle did x ≡ true
      → count (is_key owner handle did) (front ++ (x ∷ back)) ≤ 1
      → any (is_now owner handle) done ≡ false
      → any (is_now owner handle) back ≡ false
      → (out : Rows) × (mark_current owner handle did done (front ++ (x ∷ back)) ≡ ok out)
  unfolding mark_current count
  mark_current-succeeds done [] back x e n f g =
      let rest = mark_current-goes (done ++ (marked owner handle did x ∷ [])) back (ground arith) in
      (rest.0, ground (arith, rest.1))
  mark_current-succeeds done (y ∷ front) back x e n f g =
      let other = later_is_other y front back x e n in
      let rest =
        mark_current-succeeds (done ++ (marked owner handle did y ∷ [])) front back x e
          (ground arith) (any_now-marked done y f other) g in
      (rest.0, ground (arith, rest.1, other))

module _ (owner h : Text) (b : Book) (row x : ContactHandleBindingRecord) (front back : Rows) where
  -- The binding that becomes current stands in the table with `front` before it and `back` behind it, in
  -- the order in which the UPDATE visits the rows. For a trimmed owner, and with the keys of the tables,
  -- the choice of the current contact of the handle violates the unique index of the current bindings
  -- exactly when a binding of the handle in `back` is current; else it succeeds.
  pub normalize_current_handle-err_iff :
      trim_space owner ≡ owner
      → IsKeyed b
      → last_seen owner h b.bindings ≡ some row
      → b.bindings ≡ front ++ (x ∷ back)
      → is_key owner h row.did x ≡ true
      → (any (is_now owner h) back ≡ true
          → normalize_current_handle owner h b ≡ err unique_violation)
        × (any (is_now owner h) back ≡ false
            → (c : Book) × (normalize_current_handle owner h b ≡ ok c))
  unfolding normalize_current_handle
  normalize_current_handle-err_iff plain k e s u = (
    λ f. rw (plain, e, s, mark_current-fails owner h row.did [] front back x u f) refl,
    λ f.
        let run =
          mark_current-succeeds owner h row.did [] front back x u
            (rw (sym s) (k.bindings_ok.one_key owner h row.did)) refl f in
        (
          record { contacts = move_handle owner h row.did b.contacts; bindings = run.0 },
          rw (plain, e, s, run.1) refl,
        ),
  )
