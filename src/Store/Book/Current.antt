-- ===== src/Store/Book/Current.antt =====
-- What the statements of internal/store/dao.go keep of the keys of contact_handle_bindings.
use awiki_cli.Base.{
  ◌≡◌, refl, sym, ◌≤◌, Bool, true, false, ◌||◌, List, if◌then◌else◌, arith, Bool-cases, inl, inr,
}
use awiki_cli.Text.{Text, trim_space, is_empty}
use awiki_cli.Text.Order.{eq_of_same}
use awiki_cli.Store.Binding.{ContactHandleBindingRecord}
use awiki_cli.Store.Book.{demote, bind, upsert_contact_handle_binding}
use awiki_cli.Store.Book.Counts.{count, count_cover}
use awiki_cli.Store.Book.Keys.{
  is_key, is_now, is_rival, count_key-demote, count_now-demote, count_rival-demote, count_key-bind,
  count_now-bind, count_rival-bind,
}

-- No two bindings of the owner have the handle and the DID in common, and of those with the handle
-- one at most is current: the primary key and the unique index of the table.
pub record AreBindings (bs : List ContactHandleBindingRecord) : Type 0 where
  pub one_key : (o h d : Text) → count (is_key o h d) bs ≤ 1
  pub one_now : (o h : Text) → count (is_now o h) bs ≤ 1

AreBindings-demote :
    (at o h d : Text) (bs : List ContactHandleBindingRecord)
    → AreBindings bs
    → AreBindings (demote at o h d bs)
AreBindings-demote at o h d bs b = record {
  one_key = λ p q t. rw (count_key-demote at o h d p q t bs) (b.one_key p q t);
  one_now = λ p q. omega (arith, count_now-demote at o h d p q bs, b.one_now p q);
}

AreBindings-bind_past :
    (r : ContactHandleBindingRecord) (bs : List ContactHandleBindingRecord)
    → r.is_current ≡ false
    → AreBindings bs
    → AreBindings (bind r bs)
AreBindings-bind_past r bs e b = record {
  one_key = λ o h d. count_key-bind r o h d bs (b.one_key o h d);
  one_now = λ o h. omega (arith, count_now-bind r o h bs (ground arith), b.one_now o h);
}

one_now_of_keys :
    (o h d : Text) (bs : List ContactHandleBindingRecord)
    → count (is_rival o h d) bs ≡ 0
    → count (is_key o h d) bs ≤ 1
    → count (is_now o h) bs ≤ 1
one_now_of_keys o h d bs e k = omega (
  arith,
  count_cover (is_now o h) (is_rival o h d) (is_key o h d) (λ x p q. ground arith) bs,
  e,
  k,
)

-- A current binding keeps the tables' keys where no other is current.
AreBindings-bind :
    (r : ContactHandleBindingRecord) (bs : List ContactHandleBindingRecord)
    → count (is_rival r.owner_did r.handle r.did) bs ≡ 0
    → AreBindings bs
    → AreBindings (bind r bs)
AreBindings-bind r bs e b = record {
  one_key = λ o h d. count_key-bind r o h d bs (b.one_key o h d);
  one_now = λ o h. elim (Bool-cases (is_now o h r)) [
    | inr f ↦ omega (arith, count_now-bind r o h bs f, b.one_now o h)
    | inl f ↦
        let q = eq_of_same r.owner_did o (ground arith) in
        let s = eq_of_same r.handle h (ground arith) in
        rw (sym q, sym s)
          (one_now_of_keys r.owner_did r.handle r.did _ (rw (count_rival-bind r bs) e)
            (count_key-bind r _ _ _ bs (b.one_key r.owner_did r.handle r.did)))
  ];
}

AreBindings-put :
    (at : Text) (r : ContactHandleBindingRecord) (bs : List ContactHandleBindingRecord) (c : Bool)
    → r.is_current ≡ c
    → AreBindings bs
    → AreBindings (bind r (if c then demote at r.owner_did r.handle r.did bs else bs))
AreBindings-put at r bs true e b =
    AreBindings-bind r _ (count_rival-demote at r.owner_did r.handle r.did bs)
      (AreBindings-demote at r.owner_did r.handle r.did bs b)
AreBindings-put at r bs false e b = AreBindings-bind_past r bs e b

pub AreBindings-upsert :
    (now : Text) (r : ContactHandleBindingRecord) (bs : List ContactHandleBindingRecord)
    → AreBindings bs
    → AreBindings (upsert_contact_handle_binding now r bs)
unfolding upsert_contact_handle_binding
AreBindings-upsert now r bs b =
    elim (Bool-cases (is_empty (trim_space r.handle) || is_empty (trim_space r.did))) [
      | inl e ↦ rw e b
      | inr e ↦ rw e (AreBindings-put _ _ bs r.is_current refl b)
    ]
