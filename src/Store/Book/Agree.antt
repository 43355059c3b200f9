-- ===== src/Store/Book/Agree.antt =====
-- How the statements of UpsertContact of internal/store/dao.go keep the contacts and the bindings in
-- step: which contacts have which handle.
use awiki_cli.Base.{
  ◌≡◌, refl, ◌∙◌, ◌≤◌, Bool, true, false, not, ◌&&◌, List, [], ◌∷◌, arith, Bool-cases, inl, inr,
  some,
}
use awiki_cli.Text.{Text, same, trim_space, is_blank}
use awiki_cli.Text.Order.{eq_of_same, same_refl}
use awiki_cli.Store.Contact.{ContactRecord}
use awiki_cli.Store.Book.{
  is_contact, has_handle, clear_handle, find_handle, find_contact, refresh, refreshed, coalesce,
  release, put_contact, new_contact, is_some,
}
use awiki_cli.Store.Book.Counts.{count, count-append, count_none, count_one}
use awiki_cli.Store.Book.Holders.{
  AreContacts, has_other, count_other-release, release-cases, count_contact-release,
  count_other-refresh, count_contact-some,
}

-- The contact of the DID, with the handle.
abbrev pub is_holder : Text → Text → Text → ContactRecord → Bool
is_holder o h d x = has_handle o h x && same x.did d

count_holder-clear :
    (now owner did o h d : Text) (xs : List ContactRecord)
    → count (is_holder o h d) (clear_handle now owner did xs) ≤ count (is_holder o h d) xs
unfolding clear_handle count
count_holder-clear now owner did o h d [] = omega arith
count_holder-clear now owner did o h d (x ∷ xs) =
    ground (arith, count_holder-clear now owner did o h d xs)

-- The upsert gives the owner's contact this handle.
abbrev pub gives : Text → ContactRecord → Text → Text → Bool
gives owner r o h = same owner o && (not (is_blank r.handle) && same (trim_space r.handle) h)

module _ (now owner : Text) (r : ContactRecord) where
  count_holder-release :
      (o h d : Text) (xs : List ContactRecord)
      → count (is_holder o h d) (release now owner r xs) ≤ count (is_holder o h d) xs
  count_holder-release o h d xs = elim (release-cases now owner r xs) [
    | inl e ↦ rw e (omega arith)
    | inr (c, e) ↦ rw e (count_holder-clear now owner c o h d xs)
  ]

  count_holder-refresh :
      (o h d : Text) (xs : List ContactRecord)
      → gives owner r o h ≡ false
      → count (is_holder o h d) (refresh now owner r xs) ≤ count (is_holder o h d) xs
  unfolding refresh refreshed coalesce count is_blank
  count_holder-refresh o h d [] e = omega arith
  count_holder-refresh o h d (x ∷ xs) e =
      ground (arith, eq_of_same x.owner_did owner, count_holder-refresh o h d xs e)

  is_holder_new :
      (o h d : Text) → gives owner r o h ≡ false → is_holder o h d (new_contact now owner r) ≡ false
  unfolding new_contact is_blank
  is_holder_new o h d e = ground arith

  -- No contact comes to have a handle but the one that is given.
  pub count_holder-put :
      (o h d : Text) (xs : List ContactRecord)
      → gives owner r o h ≡ false
      → count (is_holder o h d) (put_contact now owner r xs) ≤ count (is_holder o h d) xs
  unfolding put_contact
  count_holder-put o h d xs e = elim (Bool-cases (is_some (find_contact owner r.did xs))) [
    | inl f ↦ rw f (
        omega (
          arith,
          count_holder-refresh o h d (release now owner r xs) e,
          count_holder-release o h d xs,
        ))
    | inr f ↦ rw f (
        omega (
          arith,
          count-append (is_holder o h d) (release now owner r xs) (new_contact now owner r ∷ []),
          count_none (is_holder o h d) (new_contact now owner r) (is_holder_new o h d e),
          count_holder-release o h d xs,
        ))
  ]

  has_other_new : (h : Text) → has_other owner h r.did (new_contact now owner r) ≡ false
  unfolding new_contact
  has_other_new h = ground (arith, same_refl r.did)

  -- Nobody else has the handle that the contact is given.
  pub count_other-put :
      (xs : List ContactRecord)
      → AreContacts xs
      → is_blank r.handle ≡ false
      → count (has_other owner (trim_space r.handle) r.did) (put_contact now owner r xs) ≡ 0
  unfolding put_contact is_blank
  count_other-put xs k e = elim (Bool-cases (is_some (find_contact owner r.did xs))) [
    | inl f ↦ rw f (
        count_other-refresh now owner r _ (release now owner r xs)
        ∙ count_other-release now owner r xs k e)
    | inr f ↦ rw f (
        omega (
          arith,
          count-append (has_other owner (trim_space r.handle) r.did) (release now owner r xs)
              (new_contact now owner r ∷ []),
          count_none (has_other owner (trim_space r.handle) r.did) (new_contact now owner r)
              (has_other_new (trim_space r.handle)),
          count_other-release now owner r xs k e,
        ))
  ]

  count_given-refresh :
      (xs : List ContactRecord)
      → is_blank r.handle ≡ false
      → 1 ≤ count (is_contact owner r.did) xs
      → 1 ≤ count (is_holder owner (trim_space r.handle) r.did) (refresh now owner r xs)
  unfolding refresh refreshed coalesce count is_blank
  count_given-refresh [] e f = omega arith
  count_given-refresh (x ∷ xs) e f =
      ground (arith, same_refl (trim_space r.handle), count_given-refresh xs e)

  is_holder_given :
      is_blank r.handle ≡ false
      → is_holder owner (trim_space r.handle) r.did (new_contact now owner r) ≡ true
  unfolding new_contact is_blank
  is_holder_given e =
      ground (arith, same_refl owner, same_refl (trim_space r.handle), same_refl r.did)

  -- The contact has the handle that it is given.
  pub count_given-put :
      (xs : List ContactRecord)
      → is_blank r.handle ≡ false
      → 1 ≤ count (is_holder owner (trim_space r.handle) r.did) (put_contact now owner r xs)
  unfolding put_contact
  count_given-put xs e = elim (Bool-cases (is_some (find_contact owner r.did xs))) [
    | inl f ↦ rw f (
        count_given-refresh _ e (
          rw (count_contact-release now owner r owner r.did xs)
            (count_contact-some owner r.did xs f)))
    | inr f ↦ rw f (
        omega (
          arith,
          count-append (is_holder owner (trim_space r.handle) r.did) (release now owner r xs)
              (new_contact now owner r ∷ []),
          count_one (is_holder owner (trim_space r.handle) r.did) (new_contact now owner r)
              (is_holder_given e),
        ))
  ]

-- The contact that a handle is looked up by is the one that has it, where no other one does.
pub find_handle_holder :
    (o h d : Text) (xs : List ContactRecord)
    → count (has_other o h d) xs ≡ 0
    → 1 ≤ count (is_holder o h d) xs
    → (x : ContactRecord) × (find_handle o h xs ≡ some x) × (x.did ≡ d)
unfolding find_handle count
find_handle_holder o h d [] e f = absurd (omega arith)
find_handle_holder o h d (x ∷ xs) e f = elim (Bool-cases (has_handle o h x)) [
  | inl g ↦ (x, rw g refl, eq_of_same x.did d (ground arith))
  | inr g ↦ rw g (find_handle_holder o h d xs (ground arith) (ground arith))
]
