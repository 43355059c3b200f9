-- ===== src/Store/Book/Holders.antt =====
-- What the statements of internal/store/dao.go keep of the keys of contacts.
use awiki_cli.Base.{
  ◌≡◌, refl, sym, ◌∙◌, ◌≤◌, Bool, true, false, not, ◌&&◌, List, [], ◌∷◌, ◌++◌, arith, Bool-cases,
  inl, inr, none, some, Option-cases, ◌⊎◌,
}
use awiki_cli.Text.{Text, same, trim_space, is_empty, is_blank}
use awiki_cli.Text.Order.{eq_of_same, same_refl}
use awiki_cli.Store.Contact.{ContactRecord}
use awiki_cli.Store.Book.{
  is_contact, has_handle, clear_handle, find_handle, find_contact, refresh, refreshed, coalesce,
  release, put_contact, new_contact, is_some,
}
use awiki_cli.Store.Book.Counts.{
  count, count-append, count_cover, count_less, count_one, count_none,
}

-- No two contacts of the owner have the DID in common, and no two have a handle in common.
pub record AreContacts (xs : List ContactRecord) : Type 0 where
  pub one_did : (o d : Text) → count (is_contact o d) xs ≤ 1
  pub one_holder : (o h : Text) → count (has_handle o h) xs ≤ 1

-- A contact other than that of the DID that has the handle.
abbrev pub has_other : Text → Text → Text → ContactRecord → Bool
has_other o h d x = has_handle o h x && not (same x.did d)

module _ (now owner did : Text) where
  count_contact-clear :
      (o d : Text) (xs : List ContactRecord)
      → count (is_contact o d) (clear_handle now owner did xs) ≡ count (is_contact o d) xs
  unfolding clear_handle count
  count_contact-clear o d [] = refl
  count_contact-clear o d (x ∷ xs) = ground (arith, count_contact-clear o d xs)

  count_handle-clear :
      (o h : Text) (xs : List ContactRecord)
      → count (has_handle o h) (clear_handle now owner did xs) ≤ count (has_handle o h) xs
  unfolding clear_handle count
  count_handle-clear o h [] = omega arith
  count_handle-clear o h (x ∷ xs) = ground (arith, count_handle-clear o h xs)

  -- Of the contacts with the handle those of the DID are gone.
  count_handle-cleared :
      (h : Text) (xs : List ContactRecord)
      → count (has_handle owner h) (clear_handle now owner did xs)
        ≤ count (has_other owner h did) xs
  unfolding clear_handle count
  count_handle-cleared h [] = omega arith
  count_handle-cleared h (x ∷ xs) = ground (arith, count_handle-cleared h xs)

module _ (now owner : Text) (r : ContactRecord) where
  count_contact-refresh :
      (o d : Text) (xs : List ContactRecord)
      → count (is_contact o d) (refresh now owner r xs) ≡ count (is_contact o d) xs
  unfolding refresh refreshed count
  count_contact-refresh o d [] = refl
  count_contact-refresh o d (x ∷ xs) = ground (arith, count_contact-refresh o d xs)

  pub count_other-refresh :
      (h : Text) (xs : List ContactRecord)
      → count (has_other owner h r.did) (refresh now owner r xs)
        ≡ count (has_other owner h r.did) xs
  unfolding refresh refreshed count
  count_other-refresh h [] = refl
  count_other-refresh h (x ∷ xs) = ground (arith, count_other-refresh h xs)

  -- Any handle but the one that the contact is given has as many holders or fewer.
  count_handle-refresh :
      (o h : Text) (xs : List ContactRecord)
      → same owner o && (not (is_blank r.handle) && same (trim_space r.handle) h) ≡ false
      → count (has_handle o h) (refresh now owner r xs) ≤ count (has_handle o h) xs
  unfolding refresh refreshed coalesce count is_blank
  count_handle-refresh o h [] e = omega arith
  count_handle-refresh o h (x ∷ xs) e =
      ground (arith, eq_of_same x.owner_did owner, count_handle-refresh o h xs e)

pub count_contact-some :
    (o d : Text) (xs : List ContactRecord)
    → is_some (find_contact o d xs) ≡ true
    → 1 ≤ count (is_contact o d) xs
unfolding find_contact count
count_contact-some o d [] e = ground arith
count_contact-some o d (x ∷ xs) e = ground (arith, count_contact-some o d xs)

has_handle_of_other :
    (o h d : Text) (x : ContactRecord) → has_other o h d x ≡ true → has_handle o h x ≡ true
has_handle_of_other o h d x e = ground arith

-- The holder that the query finds is the only one.
count_other-found :
    (o h d : Text) (x : ContactRecord) (xs : List ContactRecord)
    → find_handle o h xs ≡ some x
    → same x.did d ≡ true
    → count (has_handle o h) xs ≤ 1
    → count (has_other o h d) xs ≡ 0
unfolding find_handle count
count_other-found o h d x [] e f k = refl
count_other-found o h d x (y ∷ xs) e f k = ground (
  arith,
  count_other-found o h d x xs,
  count_less (has_other o h d) (has_handle o h)
      (λ (z : ContactRecord) (p : has_other o h d z ≡ true). has_handle_of_other o h d z p) xs,
)

count_handle-none :
    (o h : Text) (xs : List ContactRecord)
    → find_handle o h xs ≡ none
    → count (has_handle o h) xs ≡ 0
unfolding find_handle count
count_handle-none o h [] e = refl
count_handle-none o h (x ∷ xs) e = ground (arith, count_handle-none o h xs)

count_contact-none :
    (o d : Text) (xs : List ContactRecord)
    → is_some (find_contact o d xs) ≡ false
    → count (is_contact o d) xs ≡ 0
unfolding find_contact count
count_contact-none o d [] e = refl
count_contact-none o d (x ∷ xs) e = ground (arith, count_contact-none o d xs)

-- Once the handle is released, none but a contact of the DID has it.
pub count_other-release :
    (now o : Text) (r : ContactRecord) (xs : List ContactRecord)
    → AreContacts xs
    → is_empty (trim_space r.handle) ≡ false
    → count (has_other o (trim_space r.handle) r.did) (release now o r xs) ≡ 0
unfolding release
count_other-release now o r xs k e = elim (Option-cases (find_handle o (trim_space r.handle) xs)) [
  | inl f ↦
      rw (e, f)
        (omega (
          arith,
          count_handle-none o (trim_space r.handle) xs f,
          count_less (has_other o (trim_space r.handle) r.did) (has_handle o (trim_space r.handle))
              (has_handle_of_other o (trim_space r.handle) r.did) xs,
        ))
  | inr (x, f) ↦ elim (Bool-cases (same x.did r.did)) [
    | inl g ↦ rw (e, f, g) (count_other-found o _ r.did x xs f g (k.one_holder o _))
    | inr g ↦
        rw (e, f, g)
          (omega (
            arith,
            count_handle-cleared now o x.did (trim_space r.handle) xs,
            count_other-found o (trim_space r.handle) x.did x xs f (same_refl x.did)
                (k.one_holder o (trim_space r.handle)),
            count_less (has_other o (trim_space r.handle) r.did)
                (has_handle o (trim_space r.handle))
                (has_handle_of_other o (trim_space r.handle) r.did) (clear_handle now o x.did xs),
          ))
  ]
]

pub release-cases :
    (now o : Text) (r : ContactRecord) (xs : List ContactRecord)
    → (release now o r xs ≡ xs) ⊎ ((d : Text) × (release now o r xs ≡ clear_handle now o d xs))
unfolding release
release-cases now o r xs = elim (Bool-cases (is_empty (trim_space r.handle))) [
  | inl e ↦ inl (rw e refl)
  | inr e ↦ elim (Option-cases (find_handle o (trim_space r.handle) xs)) [
    | inl f ↦ inl (rw (e, f) refl)
    | inr (x, f) ↦ elim (Bool-cases (same x.did r.did)) [
      | inl g ↦ inl (rw (e, f, g) refl)
      | inr g ↦ inr (x.did, rw (e, f, g) refl)
    ]
  ]
]

pub count_contact-release :
    (now o : Text) (r : ContactRecord) (p d : Text) (xs : List ContactRecord)
    → count (is_contact p d) (release now o r xs) ≡ count (is_contact p d) xs
count_contact-release now o r p d xs = elim (release-cases now o r xs) [
  | inl e ↦ rw e refl
  | inr (c, e) ↦ rw e (count_contact-clear now o c p d xs)
]

count_handle-release :
    (now o : Text) (r : ContactRecord) (p h : Text) (xs : List ContactRecord)
    → count (has_handle p h) (release now o r xs) ≤ count (has_handle p h) xs
count_handle-release now o r p h xs = elim (release-cases now o r xs) [
  | inl e ↦ rw e (omega arith)
  | inr (c, e) ↦ rw e (count_handle-clear now o c p h xs)
]

AreContacts-release :
    (now o : Text) (r : ContactRecord) (xs : List ContactRecord)
    → AreContacts xs
    → AreContacts (release now o r xs)
AreContacts-release now o r xs k = record {
  one_did = λ p d. rw (count_contact-release now o r p d xs) (k.one_did p d);
  one_holder = λ p h. omega (arith, count_handle-release now o r p h xs, k.one_holder p h);
}

is_contact_of_holder :
    (o h d : Text) (x : ContactRecord)
    → has_handle o h x ≡ true
    → has_other o h d x ≡ false
    → is_contact o d x ≡ true
is_contact_of_holder o h d x e f = ground arith

-- The contact is given a handle that no other contact has.
AreContacts-refresh :
    (now o : Text) (r : ContactRecord) (xs : List ContactRecord)
    → (is_empty (trim_space r.handle) ≡ false
        → count (has_other o (trim_space r.handle) r.did) xs ≡ 0)
    → AreContacts xs
    → AreContacts (refresh now o r xs)
AreContacts-refresh now o r xs f k = record {
  one_did = λ p d. rw (count_contact-refresh now o r p d xs) (k.one_did p d);
  one_holder = λ p h.
      elim (Bool-cases (same o p && (not (is_blank r.handle) && same (trim_space r.handle) h))) [
        | inr e ↦ omega (arith, count_handle-refresh now o r p h xs e, k.one_holder p h)
        | inl e ↦
            let a = eq_of_same o p (ground arith) in
            let b = eq_of_same (trim_space r.handle) h (unfold is_blank in ground arith) in
            rw (sym a, sym b)
              (omega (
                arith,
                count_cover (has_handle o (trim_space r.handle))
                    (has_other o (trim_space r.handle) r.did) (is_contact o r.did)
                    (is_contact_of_holder o (trim_space r.handle) r.did) (refresh now o r xs),
                count_contact-refresh now o r o r.did xs,
                k.one_did o r.did,
                count_other-refresh now o r (trim_space r.handle) xs,
                f (unfold is_blank in ground arith),
              ))
      ];
}

has_handle_new :
    (now o : Text) (r : ContactRecord) (p h : Text)
    → has_handle p h (new_contact now o r)
      ≡ (same o p && (not (is_blank r.handle) && same (trim_space r.handle) h))
unfolding new_contact is_blank
has_handle_new now o r p h = refl

no_contact :
    (o p c d : Text) (xs : List ContactRecord)
    → o ≡ p
    → c ≡ d
    → count (is_contact o c) xs ≡ 0
    → count (is_contact p d) xs ≡ 0
no_contact o p c d xs a b n = rw (sym a, sym b) n

no_holder :
    (o p h k d : Text) (xs : List ContactRecord)
    → o ≡ p
    → h ≡ k
    → count (is_contact o d) xs ≡ 0
    → count (has_other o h d) xs ≡ 0
    → count (has_handle p k) xs ≡ 0
no_holder o p h k d xs a b n f =
    rw (sym a, sym b)
      (omega (
        arith,
        count_cover (has_handle o h) (has_other o h d) (is_contact o d) (is_contact_of_holder o h d)
            xs,
        n,
        f,
      ))

-- A new contact is given a handle that no other contact has.
AreContacts-snoc :
    (now o : Text) (r : ContactRecord) (xs : List ContactRecord)
    → count (is_contact o r.did) xs ≡ 0
    → (is_empty (trim_space r.handle) ≡ false
        → count (has_other o (trim_space r.handle) r.did) xs ≡ 0)
    → AreContacts xs
    → AreContacts (xs ++ (new_contact now o r ∷ []))
unfolding new_contact
AreContacts-snoc now o r xs n f k = record {
  one_did = λ p d. elim (Bool-cases (is_contact p d (new_contact now o r))) [
    | inr e ↦ omega (
      arith,
      count-append (is_contact p d) xs (new_contact now o r ∷ []),
      count_none (is_contact p d) (new_contact now o r) e,
      k.one_did p d,
    )
    | inl e ↦
        let a = eq_of_same o p (unfold new_contact in ground arith) in
        let b = eq_of_same r.did d (unfold new_contact in ground arith) in
        omega (
          arith,
          count-append (is_contact p d) xs (new_contact now o r ∷ []),
          count_one (is_contact p d) (new_contact now o r) e,
          no_contact o p r.did d xs a b n,
        )
  ];
  one_holder = λ p h. elim (Bool-cases (has_handle p h (new_contact now o r))) [
    | inr e ↦ omega (
      arith,
      count-append (has_handle p h) xs (new_contact now o r ∷ []),
      count_none (has_handle p h) (new_contact now o r) e,
      k.one_holder p h,
    )
    | inl e ↦
        let g = sym (has_handle_new now o r p h) ∙ e in
        let a = eq_of_same o p (ground arith) in
        let b = eq_of_same (trim_space r.handle) h (ground arith) in
        omega (
          arith,
          count-append (has_handle p h) xs (new_contact now o r ∷ []),
          count_one (has_handle p h) (new_contact now o r) e,
          no_holder o p (trim_space r.handle) h r.did xs a b n
              (f (unfold is_blank in ground arith)),
        )
  ];
}

pub AreContacts-put :
    (now o : Text) (r : ContactRecord) (xs : List ContactRecord)
    → AreContacts xs
    → AreContacts (put_contact now o r xs)
unfolding put_contact
AreContacts-put now o r xs k = elim (Bool-cases (is_some (find_contact o r.did xs))) [
  | inl e ↦ rw e (
      AreContacts-refresh now o r _ (count_other-release now o r xs k)
        (AreContacts-release now o r xs k))
  | inr e ↦ rw e (
      AreContacts-snoc now o r _
        (count_contact-release now o r o r.did xs ∙ count_contact-none o r.did xs e)
        (count_other-release now o r xs k) (AreContacts-release now o r xs k))
]
