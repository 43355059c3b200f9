-- ===== src/Store/Book/Laws.antt =====
-- What UpsertContact of internal/store/dao.go keeps of the contacts and the bindings, and what it gives.
use awiki_cli.Base.{
  ◌≡◌, refl, sym, ◌∙◌, ap, ◌≤◌, Bool, true, false, ◌&&◌, ◌||◌, List, if◌then◌else◌, arith,
  Bool-cases, inl, inr, some, ok, ok_or,
}
use awiki_cli.Text.{Text, same, trim_space, is_empty, is_blank}
use awiki_cli.Text.Order.{eq_of_same, same_refl}
use awiki_cli.Text.Trim.{trim_space_idem}
use awiki_cli.Store.Contact.{ContactRecord}
use awiki_cli.Store.Binding.{ContactHandleBindingRecord}
use awiki_cli.Store.Book.{
  Book, put_contact, upsert_contact, upsert_contact_handle_binding, binding_of,
  get_current_contact_by_handle, demote, bind,
}
use awiki_cli.Store.Book.Counts.{count, count_less}
use awiki_cli.Store.Book.Keys.{is_at, count_at-demote, count_at-bind, count_at-bind_self}
use awiki_cli.Store.Book.Current.{AreBindings, AreBindings-upsert}
use awiki_cli.Store.Book.Holders.{AreContacts, AreContacts-put, has_other}
use awiki_cli.Store.Book.Agree.{
  is_holder, gives, count_holder-put, count_other-put, count_given-put, find_handle_holder,
}

-- The keys of the two tables, and a current binding for every handle that a contact has.
pub record IsConsistent (b : Book) : Type 0 where
  pub contacts_ok : AreContacts b.contacts
  pub bindings_ok : AreBindings b.bindings
  pub bound :
      (o h d : Text)
      → 1 ≤ count (is_holder o h d) b.contacts
      → 1 ≤ count (is_at o h (trim_space d)) b.bindings

count_at_put :
    (at : Text) (r : ContactHandleBindingRecord) (c : Bool) (o h d : Text)
    (bs : List ContactHandleBindingRecord)
    → same r.owner_did o && same r.handle h ≡ false
    → count (is_at o h d) (bind r (if c then demote at r.owner_did r.handle r.did bs else bs))
      ≡ count (is_at o h d) bs
count_at_put at r true o h d bs e =
    count_at-bind r o h d _ (ground arith)
    ∙ count_at-demote at r.owner_did r.handle r.did o h d bs
        (ground (arith, eq_of_same o r.owner_did, eq_of_same h r.handle, same_refl o, same_refl h))
count_at_put at r false o h d bs e = count_at-bind r o h d bs (ground arith)

count_at-upsert :
    (now : Text) (r : ContactHandleBindingRecord) (o h d : Text)
    (bs : List ContactHandleBindingRecord)
    → same (trim_space r.owner_did) o && same (trim_space r.handle) h ≡ false
    → count (is_at o h d) (upsert_contact_handle_binding now r bs) ≡ count (is_at o h d) bs
unfolding upsert_contact_handle_binding
count_at-upsert now r o h d bs e =
    elim (Bool-cases (is_empty (trim_space r.handle) || is_empty (trim_space r.did))) [
      | inl f ↦ rw f refl
      | inr f ↦ rw f (count_at_put _ _ r.is_current o h d bs e)
    ]

count_at-upserted :
    (now : Text) (r : ContactHandleBindingRecord) (bs : List ContactHandleBindingRecord)
    → r.is_current ≡ true
    → is_empty (trim_space r.handle) ≡ false
    → is_empty (trim_space r.did) ≡ false
    → 1
      ≤ count
          (is_at (trim_space r.owner_did) (trim_space r.handle) (trim_space r.did))
          (upsert_contact_handle_binding now r bs)
unfolding upsert_contact_handle_binding
count_at-upserted now r bs c e f = rw (e, f) (count_at-bind_self _ _ c)

module _ (now : Text) (r : ContactRecord) where
  -- The two tables when `UpsertContact` is done.
  abbrev contacts_of : Book → List ContactRecord
  contacts_of b = put_contact now (trim_space r.owner_did) r b.contacts

  abbrev bindings_of : Book → List ContactHandleBindingRecord
  bindings_of b =
      if is_empty (trim_space r.handle)
      then b.bindings
      else upsert_contact_handle_binding now (binding_of now (trim_space r.owner_did) r) b.bindings

  AreBindings-of : (b : Book) → AreBindings b.bindings → AreBindings (bindings_of b)
  AreBindings-of b k = elim (Bool-cases (is_empty (trim_space r.handle))) [
    | inl e ↦ rw e k
    | inr e ↦ rw e (AreBindings-upsert now _ b.bindings k)
  ]

  -- The bindings that are not about the handle that is given keep their place.
  count_at-bindings :
      (o h d : Text) (b : Book)
      → gives (trim_space r.owner_did) r o h ≡ false
      → count (is_at o h d) (bindings_of b) ≡ count (is_at o h d) b.bindings
  unfolding binding_of is_blank
  count_at-bindings o h d b e = elim (Bool-cases (is_empty (trim_space r.handle))) [
    | inl f ↦ rw f refl
    | inr f ↦ rw f (
        count_at-upsert now _ o h d b.bindings
          (rw (trim_space_idem r.owner_did, trim_space_idem r.handle) (ground arith)))
  ]

  count_at-given :
      (b : Book)
      → is_blank r.handle ≡ false
      → is_blank r.did ≡ false
      → 1
        ≤ count
            (is_at (trim_space r.owner_did) (trim_space r.handle) (trim_space r.did))
            (bindings_of b)
  unfolding binding_of is_blank
  count_at-given b e f = rw e (
      rw (trim_space_idem r.owner_did, trim_space_idem r.handle, trim_space_idem r.did) at
        (count_at-upserted now (binding_of now (trim_space r.owner_did) r) b.bindings refl
          (rw (trim_space_idem r.handle) e) (rw (trim_space_idem r.did) f)))

  is_other_of_holder :
      (o h d : Text) (x : ContactRecord)
      → same r.did d ≡ false
      → is_holder o h d x ≡ true
      → has_other o h r.did x ≡ true
  is_other_of_holder o h d x n e = ground (arith, eq_of_same x.did r.did)

  none_other :
      (b : Book)
      → IsConsistent b
      → is_blank r.handle ≡ false
      → (o h : Text) → trim_space r.owner_did ≡ o
      → trim_space r.handle ≡ h
      → count (has_other o h r.did) (contacts_of b) ≡ 0
  none_other b k g o h p q =
      rw (sym p, sym q) (count_other-put now (trim_space r.owner_did) r b.contacts k.contacts_ok g)

  bound_given :
      (b : Book)
      → IsConsistent b
      → is_blank r.did ≡ false
      → is_blank r.handle ≡ false
      → (o h d : Text) → trim_space r.owner_did ≡ o
      → trim_space r.handle ≡ h
      → 1 ≤ count (is_holder o h d) (contacts_of b)
      → 1 ≤ count (is_at o h (trim_space d)) (bindings_of b)
  bound_given b k f g o h d p q e = elim (Bool-cases (same r.did d)) [
    | inl s ↦ rw (sym p, sym q, sym (eq_of_same r.did d s)) (count_at-given b g f)
    | inr s ↦ absurd (
        omega (
          arith,
          none_other b k g o h p q,
          count_less (is_holder o h d) (has_other o h r.did)
              (λ (x : ContactRecord). is_other_of_holder o h d x s) (contacts_of b),
          e,
        ))
  ]

  bound_kept :
      (b : Book)
      → IsConsistent b
      → is_blank r.did ≡ false
      → (o h d : Text) → 1 ≤ count (is_holder o h d) (contacts_of b)
      → 1 ≤ count (is_at o h (trim_space d)) (bindings_of b)
  bound_kept b k f o h d e = elim (Bool-cases (gives (trim_space r.owner_did) r o h)) [
    | inr g ↦ rw (count_at-bindings o h (trim_space d) b g) (
        k.bound o h d
          (omega (arith, e, count_holder-put now (trim_space r.owner_did) r o h d b.contacts g)))
    | inl g ↦ elim (Bool-cases (is_blank r.handle)) [
      | inl given ↦ absurd (ground arith)
      | inr given ↦
          bound_given b k f given o h d (eq_of_same (trim_space r.owner_did) o (ground arith))
            (eq_of_same (trim_space r.handle) h (ground arith)) e
    ]
  ]

upsert_contact_value :
    (now : Text) (r : ContactRecord) (b : Book)
    → is_blank r.did ≡ false
    → upsert_contact now r b
      ≡ ok (record { contacts = contacts_of now r b; bindings = bindings_of now r b })
unfolding upsert_contact
upsert_contact_value now r b e = rw e refl

IsConsistent-of :
    (now : Text) (r : ContactRecord) (b : Book)
    → IsConsistent b
    → is_blank r.did ≡ false
    → IsConsistent (record { contacts = contacts_of now r b; bindings = bindings_of now r b })
IsConsistent-of now r b k e = record {
  contacts_ok = AreContacts-put now (trim_space r.owner_did) r b.contacts k.contacts_ok;
  bindings_ok = AreBindings-of now r b k.bindings_ok;
  bound = bound_kept now r b k e;
}

-- An upsert that succeeds keeps these of a book: no two contacts of an owner have a DID or a handle in
-- common, no two bindings of an owner a handle and a DID, no handle has two current bindings, and the
-- handle of a contact has a current binding to it.
pub upsert_contact-IsConsistent :
    (now : Text) (r : ContactRecord) (b c : Book)
    → IsConsistent b
    → upsert_contact now r b ≡ ok c
    → IsConsistent c
upsert_contact-IsConsistent now r b c k h = elim (Bool-cases (is_blank r.did)) [
  | inl e ↦ absurd (unfold upsert_contact in ground (arith, h, e))
  | inr e ↦ rw (ap (ok_or b) (sym h ∙ upsert_contact_value now r b e)) (IsConsistent-of now r b k e)
]

-- In such a book a contact with a DID and a handle is upserted, and the handle is then that of a
-- contact with the DID, which is looked up by it, and has a current binding to the DID.
pub upsert_contact-current :
    (now : Text) (r : ContactRecord) (b : Book)
    → IsConsistent b
    → is_blank r.did ≡ false
    → is_blank r.handle ≡ false
    → (c : Book) × (upsert_contact now r b ≡ ok c)
      × (x : ContactRecord) × (get_current_contact_by_handle r.owner_did r.handle c ≡ some x)
      × (x.did ≡ r.did)
      × 1
        ≤ count (is_at (trim_space r.owner_did) (trim_space r.handle) (trim_space r.did)) c.bindings
unfolding get_current_contact_by_handle
upsert_contact-current now r b k e f =
    let (x, g, d) =
      find_handle_holder (trim_space r.owner_did) (trim_space r.handle) r.did (contacts_of now r b)
        (count_other-put now (trim_space r.owner_did) r b.contacts k.contacts_ok f)
        (count_given-put now (trim_space r.owner_did) r b.contacts f) in
    (_, upsert_contact_value now r b e, x, g, d, count_at-given now r b f e)
