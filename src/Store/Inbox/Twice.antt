-- ===== src/Store/Inbox/Twice.antt =====
-- StoreMessage of internal/store/dao.go, called a second time with the same message.
use awiki_cli.Base.{
  ◌≡◌, refl, sym, ap, Bool, true, false, ◌||◌, List, [], ◌∷◌, Option, none, some, if◌then◌else◌,
  arith, Bool-cases, inl, inr, ok, ok_or,
}
use awiki_cli.Base.Int.{ℤ}
use awiki_cli.Text.{Text, is_blank}
use awiki_cli.Text.Order.{same_refl}
use awiki_cli.Store.{default_string}
use awiki_cli.Store.Message.{MessageRecord}
use awiki_cli.Store.Inbox.{
  is_stale, or_else, or_else_seq, updated_message, is_message, store_row, store_message,
  message_record_args,
}

or_else_idem : (a b : Text) → or_else a (or_else a b) ≡ or_else a b
unfolding or_else
or_else_idem [] b = refl
or_else_idem (c ∷ a) b = refl

or_else_seq_idem : (a b : Option ℤ) → or_else_seq a (or_else_seq a b) ≡ or_else_seq a b
unfolding or_else_seq
or_else_seq_idem none b = refl
or_else_seq_idem (some n) b = refl

or_idem : (a b : Bool) → (a || (a || b)) ≡ (a || b)
or_idem true b = refl
or_idem false b = refl

-- The test of an update that is made a second time.
stale_again : (r x : MessageRecord) → is_stale r (updated_message r x) ≡ is_stale r x
unfolding updated_message is_stale
stale_again r x = ground arith

if_idem :
    {A : Type 0} (c : Bool) (a b : A)
    → (if c then (if c then a else b) else b) ≡ (if c then a else b)
if_idem true a b = refl
if_idem false a b = refl

if_or_else_idem :
    (c : Bool) (a b : Text)
    → (if c then (if c then b else or_else a b) else or_else a (if c then b else or_else a b))
      ≡ (if c then b else or_else a b)
if_or_else_idem true a b = refl
if_or_else_idem false a b = or_else_idem a b

updated_message_idem :
    (r x : MessageRecord) → updated_message r (updated_message r x) ≡ updated_message r x
unfolding updated_message
updated_message_idem r x =
    simp (stale_again r x, if_idem, if_or_else_idem, or_else_idem, or_else_seq_idem, or_idem) refl

or_else_self : (a : Text) → or_else a a ≡ a
unfolding or_else
or_else_self [] = refl
or_else_self (c ∷ a) = refl

or_else_seq_self : (a : Option ℤ) → or_else_seq a a ≡ a
unfolding or_else_seq
or_else_seq_self none = refl
or_else_seq_self (some n) = refl

or_self : (b : Bool) → (b || b) ≡ b
or_self true = refl
or_self false = refl

stale_self : (r : MessageRecord) (t : Text) → is_stale (record r { stored_at = t }) r ≡ false
unfolding is_stale
stale_self r t = ground arith

updated_message_self :
    (r : MessageRecord) (t : Text) → updated_message (record r { stored_at = t }) r ≡ r
unfolding updated_message
updated_message_self r t = simp (stale_self r t, or_else_self, or_else_seq_self, or_self) refl

store_row_at :
    (r : MessageRecord) (t : Text) (x : MessageRecord) (xs : List MessageRecord)
    → is_message r.msg_id r.owner_did x ≡ true
    → store_row (record r { stored_at = t }) (updated_message r x ∷ xs) ≡ updated_message r x ∷ xs
unfolding store_row updated_message is_stale
store_row_at r t x xs e = rw e (ap (λ (y : MessageRecord). y ∷ xs) (updated_message_idem r x))

store_row_again :
    (r : MessageRecord) (t : Text) (xs : List MessageRecord)
    → store_row (record r { stored_at = t }) (store_row r xs) ≡ store_row r xs
unfolding store_row
store_row_again r t [] =
    rw (same_refl r.msg_id, same_refl r.owner_did)
      (ap (λ (x : MessageRecord). x ∷ []) (updated_message_self r t))
store_row_again r t (x ∷ xs) = elim (Bool-cases (is_message r.msg_id r.owner_did x)) [
  | inl e ↦ rw e (store_row_at r t x xs e)
  | inr e ↦ rw e (rw e (ap (λ (ys : List MessageRecord). x ∷ ys) (store_row_again r t xs)))
]

-- A message that is stored a second time, at any later time, changes nothing.
pub store_message_twice :
    (now later : Text) (r : MessageRecord) (xs ys : List MessageRecord)
    → store_message now r xs ≡ ok ys
    → store_message later r ys ≡ ok ys
unfolding store_message
store_message_twice now later r xs ys e = elim (Bool-cases (is_blank r.msg_id)) [
  | inl f ↦ absurd (ground arith)
  | inr f ↦ elim (Bool-cases (is_blank r.thread_id)) [
    | inl g ↦ absurd (ground arith)
    | inr g ↦
        let q : store_row (message_record_args now r) xs ≡ ys = ap (ok_or xs) (rw (f, g) at e) in
        rw (f, g, sym q)
          (ap (λ (zs : List MessageRecord). ok zs)
            (unfold message_record_args in
              store_row_again (message_record_args now r) (default_string r.stored_at later) xs))
  ]
]
