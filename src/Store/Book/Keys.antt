-- ===== src/Store/Book/Keys.antt =====
-- What the statements of internal/store/dao.go do to the bindings of handles, by numbers of rows.
use awiki_cli.Base.{
  ◌≡◌, refl, sym, ◌≤◌, Bool, Bool-cases, inl, inr, true, false, not, ◌&&◌, List, [], ◌∷◌, arith,
}
use awiki_cli.Text.{Text, same}
use awiki_cli.Text.Order.{eq_of_same, same_refl}
use awiki_cli.Store.Binding.{ContactHandleBindingRecord}
use awiki_cli.Store.Book.{is_bound, demote, bind, rebound}
use awiki_cli.Store.Book.Counts.{count}

abbrev pub is_key : Text → Text → Text → ContactHandleBindingRecord → Bool
is_key o h d x = is_bound o h x && same x.did d

abbrev pub is_now : Text → Text → ContactHandleBindingRecord → Bool
is_now o h x = is_bound o h x && x.is_current

-- A current binding of the handle to another DID.
abbrev pub is_rival : Text → Text → Text → ContactHandleBindingRecord → Bool
is_rival o h d x = is_now o h x && not (same x.did d)

abbrev pub is_at : Text → Text → Text → ContactHandleBindingRecord → Bool
is_at o h d x = is_now o h x && same x.did d

module _ (at owner handle did : Text) where
  pub count_key-demote :
      (o h d : Text) (xs : List ContactHandleBindingRecord)
      → count (is_key o h d) (demote at owner handle did xs) ≡ count (is_key o h d) xs
  unfolding demote count
  count_key-demote o h d [] = refl
  count_key-demote o h d (x ∷ xs) = ground (arith, count_key-demote o h d xs)

  pub count_now-demote :
      (o h : Text) (xs : List ContactHandleBindingRecord)
      → count (is_now o h) (demote at owner handle did xs) ≤ count (is_now o h) xs
  unfolding demote count
  count_now-demote o h [] = omega arith
  count_now-demote o h (x ∷ xs) = ground (arith, count_now-demote o h xs)

  pub count_rival-demote :
      (xs : List ContactHandleBindingRecord)
      → count (is_rival owner handle did) (demote at owner handle did xs) ≡ 0
  unfolding demote count
  count_rival-demote [] = refl
  count_rival-demote (x ∷ xs) = ground (arith, count_rival-demote xs)

  -- The current bindings of a DID to a handle are left where the handle or the owner is another
  -- one, or the DID is the one that is kept.
  pub count_at-demote :
      (o h d : Text) (xs : List ContactHandleBindingRecord)
      → same o owner && (same h handle && not (same d did)) ≡ false
      → count (is_at o h d) (demote at owner handle did xs) ≡ count (is_at o h d) xs
  unfolding demote count
  count_at-demote o h d [] e = refl
  count_at-demote o h d (x ∷ xs) e = ground (
    arith,
    eq_of_same x.owner_did o,
    eq_of_same x.handle h,
    eq_of_same x.did d,
    count_at-demote o h d xs e,
  )

module _ (r : ContactHandleBindingRecord) where
  count_key-bind_self :
      (xs : List ContactHandleBindingRecord)
      → count (is_key r.owner_did r.handle r.did) xs ≤ 1
      → count (is_key r.owner_did r.handle r.did) (bind r xs) ≤ 1
  unfolding bind rebound count
  count_key-bind_self [] e = ground arith
  count_key-bind_self (x ∷ xs) e = ground (arith, count_key-bind_self xs)

  -- What the binding is not about is left as it is.
  count_key-bind_other :
      (o h d : Text) (xs : List ContactHandleBindingRecord)
      → is_key o h d r ≡ false
      → count (is_key o h d) (bind r xs) ≡ count (is_key o h d) xs
  unfolding bind rebound count
  count_key-bind_other o h d [] e = ground arith
  count_key-bind_other o h d (x ∷ xs) e = ground (
    arith,
    eq_of_same x.owner_did r.owner_did,
    eq_of_same x.handle r.handle,
    eq_of_same x.did r.did,
    count_key-bind_other o h d xs e,
  )

  pub count_key-bind :
      (o h d : Text) (xs : List ContactHandleBindingRecord)
      → count (is_key o h d) xs ≤ 1
      → count (is_key o h d) (bind r xs) ≤ 1
  count_key-bind o h d xs e = elim (Bool-cases (is_key o h d r)) [
    | inr f ↦ rw (count_key-bind_other o h d xs f) e
    | inl f ↦
        let q = eq_of_same r.owner_did o (ground arith) in
        let s = eq_of_same r.handle h (ground arith) in
        let t = eq_of_same r.did d (ground arith) in
        rw (sym q, sym s, sym t) (count_key-bind_self xs (rw (q, s, t) e))
  ]

  pub count_at-bind :
      (o h d : Text) (xs : List ContactHandleBindingRecord)
      → is_key o h d r ≡ false
      → count (is_at o h d) (bind r xs) ≡ count (is_at o h d) xs
  unfolding bind rebound count
  count_at-bind o h d [] e = ground arith
  count_at-bind o h d (x ∷ xs) e = ground (
    arith,
    eq_of_same x.owner_did r.owner_did,
    eq_of_same x.handle r.handle,
    eq_of_same x.did r.did,
    count_at-bind o h d xs e,
  )

  -- The binding that is made is current when it is meant to be.
  pub count_at-bind_self :
      (xs : List ContactHandleBindingRecord)
      → r.is_current ≡ true
      → 1 ≤ count (is_at r.owner_did r.handle r.did) (bind r xs)
  unfolding bind rebound count
  count_at-bind_self [] e =
      ground (arith, same_refl r.owner_did, same_refl r.handle, same_refl r.did)
  count_at-bind_self (x ∷ xs) e = ground (arith, count_at-bind_self xs e)

  pub count_now-bind :
      (o h : Text) (xs : List ContactHandleBindingRecord)
      → is_now o h r ≡ false
      → count (is_now o h) (bind r xs) ≤ count (is_now o h) xs
  unfolding bind rebound count
  count_now-bind o h [] e = ground arith
  count_now-bind o h (x ∷ xs) e = ground (
    arith,
    eq_of_same x.owner_did r.owner_did,
    eq_of_same x.handle r.handle,
    count_now-bind o h xs e,
  )

  pub count_rival-bind :
      (xs : List ContactHandleBindingRecord)
      → count (is_rival r.owner_did r.handle r.did) (bind r xs)
        ≡ count (is_rival r.owner_did r.handle r.did) xs
  unfolding bind rebound count
  count_rival-bind [] = ground (arith, same_refl r.did)
  count_rival-bind (x ∷ xs) = ground (arith, count_rival-bind xs)
