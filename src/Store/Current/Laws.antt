-- ===== src/Store/Current/Laws.antt =====
-- internal/store/recover_merge.go: what the choice of the current contacts keeps, and when it fails.
use awiki_cli.Base.{
  ◌≡◌, refl, sym, ap, ◌∙◌, ◌≤◌, true, false, ◌&&◌, ◌||◌, List, [], ◌∷◌, ◌++◌, append_assoc,
  append-nil, any, arith, map, Bool-cases, inl, inr, ok, ok_or, err-ne-ok,
}
use awiki_cli.Text.{Text, same}
use awiki_cli.Text.Order.{eq_of_same}
use awiki_cli.Store.Contact.{ContactRecord}
use awiki_cli.Store.Binding.{ContactHandleBindingRecord}
use awiki_cli.Store.Book.{is_bound, has_handle, is_contact}
use awiki_cli.Store.Book.Counts.{count, count_cover}
use awiki_cli.Store.Book.Keys.{is_key, is_now}
use awiki_cli.Store.Book.Current.{AreBindings}
use awiki_cli.Store.Book.Holders.{has_other}
use awiki_cli.Store.Current.{marked, mark_current, move_handle}

abbrev Rows : Type 0
Rows = List ContactHandleBindingRecord

module _ (owner handle did : Text) where
  -- An update that goes well marks all rows.
  pub mark_current-ok :
      (done xs out : Rows)
      → mark_current owner handle did done xs ≡ ok out
      → done ++ map (marked owner handle did) xs ≡ out
  unfolding mark_current
  mark_current-ok done [] out e = append-nil done ∙ ap (ok_or done) e
  mark_current-ok done (x ∷ xs) out e =
      elim (Bool-cases (
        is_bound owner handle x
        && (same x.did did && (any (is_now owner handle) done || any (is_now owner handle) xs)))) [
          | inl f ↦ absurd (err-ne-ok (rw f at e))
          | inr f ↦
              sym (
                append_assoc done (marked owner handle did x ∷ [])
                  (map (marked owner handle did) xs))
              ∙ mark_current-ok (done ++ (marked owner handle did x ∷ [])) xs out (rw f at e)
        ]

  count_key-marked :
      (o h d : Text) (xs : Rows)
      → count (is_key o h d) (map (marked owner handle did) xs) ≡ count (is_key o h d) xs
  unfolding count
  count_key-marked o h d [] = refl
  count_key-marked o h d (x ∷ xs) = ground (arith, count_key-marked o h d xs)

  -- Of the handle, only the rows of the DID are current.
  pub count_now-marked :
      (xs : Rows)
      → count (is_now owner handle) (map (marked owner handle did) xs)
        ≡ count (is_key owner handle did) xs
  unfolding count
  count_now-marked [] = refl
  count_now-marked (x ∷ xs) = ground (arith, count_now-marked xs)

  pub count_now-other :
      (o h : Text) (xs : Rows)
      → same owner o && same handle h ≡ false
      → count (is_now o h) (map (marked owner handle did) xs) ≡ count (is_now o h) xs
  unfolding count
  count_now-other o h [] e = refl
  count_now-other o h (x ∷ xs) e =
      ground
        (arith, eq_of_same x.owner_did owner, eq_of_same x.handle handle, count_now-other o h xs e)

  pub AreBindings-marked :
      (xs : Rows) → AreBindings xs → AreBindings (map (marked owner handle did) xs)
  AreBindings-marked xs k = record {
    one_key = λ o h d. rw (count_key-marked o h d xs) (k.one_key o h d);
    one_now = λ o h. elim (Bool-cases (same owner o && same handle h)) [
      | inr e ↦ rw (count_now-other o h xs e) (k.one_now o h)
      | inl e ↦
          rw
            (
              sym (eq_of_same owner o (ground arith)),
              sym (eq_of_same handle h (ground arith)),
              count_now-marked xs,
            )
            (k.one_key owner handle did)
    ];
  }

  pub count_contact-moved :
      (o d : Text) (xs : List ContactRecord)
      → count (is_contact o d) (move_handle owner handle did xs) ≡ count (is_contact o d) xs
  unfolding move_handle count
  count_contact-moved o d [] = refl
  count_contact-moved o d (x ∷ xs) = ground (arith, count_contact-moved o d xs)

  pub count_handle-moved :
      (o h : Text) (xs : List ContactRecord)
      → same owner o && same handle h ≡ false
      → count (has_handle o h) (move_handle owner handle did xs) ≤ count (has_handle o h) xs
  unfolding move_handle count
  count_handle-moved o h [] e = omega arith
  count_handle-moved o h (x ∷ xs) e =
      ground (arith, eq_of_same x.owner_did owner, count_handle-moved o h xs e)

  count_other-moved :
      (xs : List ContactRecord)
      → count (has_other owner handle did) (move_handle owner handle did xs) ≡ 0
  unfolding move_handle count
  count_other-moved [] = refl
  count_other-moved (x ∷ xs) = ground (arith, count_other-moved xs)

  is_contact_of :
      (x : ContactRecord)
      → has_handle owner handle x ≡ true
      → has_other owner handle did x ≡ false
      → is_contact owner did x ≡ true
  is_contact_of x e f = ground arith

  pub one_holder_moved :
      (xs : List ContactRecord)
      → ((o d : Text) → count (is_contact o d) xs ≤ 1)
      → count (has_handle owner handle) (move_handle owner handle did xs) ≤ 1
  one_holder_moved xs k = omega (
    arith,
    count_cover (has_handle owner handle) (has_other owner handle did) (is_contact owner did)
        is_contact_of (move_handle owner handle did xs),
    count_other-moved xs,
    count_contact-moved owner did xs,
    k owner did,
  )
