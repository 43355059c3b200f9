-- ===== src/Store/Inbox/Laws.antt =====
-- What StoreMessage and StoreMessagesBatch of internal/store/dao.go keep of the messages there are.
use awiki_cli.Base.{
  ◌≡◌, refl, ◌∙◌, true, false, List, [], ◌∷◌, some, arith, All, Bool-cases, inl, inr,
}
use awiki_cli.Text.{Text}
use awiki_cli.Store.Message.{MessageRecord}
use awiki_cli.Store.Inbox.{
  is_wire, is_stale, updated_message, is_message, store_row, store_messages_batch, find_message,
  message_record_args,
}

-- What a message that is stored does not lose: being decrypted, being read, being secure, and the
-- time it was stored at.
pub record Keeps (x y : MessageRecord) : Type 0 where
  pub plain : is_wire x.content_type ≡ false → is_wire y.content_type ≡ false
  pub read : x.is_read ≡ true → y.is_read ≡ true
  pub e2ee : x.is_e2ee ≡ true → y.is_e2ee ≡ true
  pub stored : y.stored_at ≡ x.stored_at

Keeps_refl : (x : MessageRecord) → Keeps x x
Keeps_refl x = record { plain = λ e. e; read = λ e. e; e2ee = λ e. e; stored = refl }

Keeps_trans : (x y z : MessageRecord) → Keeps x y → Keeps y z → Keeps x z
Keeps_trans x y z k l = record {
  plain = λ e. l.plain (k.plain e);
  read = λ e. l.read (k.read e);
  e2ee = λ e. l.e2ee (k.e2ee e);
  stored = l.stored ∙ k.stored;
}

Keeps-updated : (r x : MessageRecord) → Keeps x (updated_message r x)
unfolding updated_message is_stale
Keeps-updated r x = record {
  plain = λ e. ground arith;
  read = λ e. ground arith;
  e2ee = λ e. ground arith;
  stored = refl;
}

value_of_some :
    (id owner : Text) (z x : MessageRecord) (xs : List MessageRecord)
    → is_message id owner z ≡ true
    → find_message id owner (z ∷ xs) ≡ some x
    → x ≡ z
unfolding find_message
value_of_some id owner z x xs f e = ground arith

-- What updates keep, they keep of the message of a key in the table.
module _ (K : MessageRecord → MessageRecord → Type 0) (K_refl : (x : MessageRecord) → K x x)
    (K_trans : (x y z : MessageRecord) → K x y → K y z → K x z) where
  -- A message of the key stands in the table, with what is kept of the one there was.
  abbrev pub Survives : Text → Text → MessageRecord → List MessageRecord → Type 0
  Survives id owner x ys = (y : MessageRecord) × (find_message id owner ys ≡ some y) × K x y

  -- Updating by the row keeps it.
  abbrev pub IsKeeping : MessageRecord → Type 0
  IsKeeping r = (x : MessageRecord) → K x (updated_message r x)

  Survives-row :
      (id owner : Text) (r x : MessageRecord) (xs : List MessageRecord)
      → IsKeeping r
      → find_message id owner xs ≡ some x
      → Survives id owner x (store_row r xs)
  unfolding find_message store_row
  Survives-row id owner r x [] k e = absurd (ground arith)
  Survives-row id owner r x (z ∷ xs) k e = elim (Bool-cases (is_message id owner z)) [
    | inl f ↦ elim (Bool-cases (is_message r.msg_id r.owner_did z)) [
      | inl g ↦
          rw (g, value_of_some id owner z x xs f e)
            (updated_message r z, unfold updated_message in rw f refl, k z)
      | inr g ↦ rw (g, value_of_some id owner z x xs f e) (z, rw f refl, K_refl z)
    ]
    | inr f ↦ elim (Bool-cases (is_message r.msg_id r.owner_did z)) [
      | inl g ↦ rw g (x, unfold updated_message in rw f (rw f at e), K_refl x)
      | inr g ↦ rw (g, f) (Survives-row id owner r x xs k (rw f at e))
    ]
  ]

  Survives-batch :
      (now id owner : Text) (rs : List MessageRecord) (x : MessageRecord) (xs : List MessageRecord)
      → All (λ r. IsKeeping (message_record_args now r)) rs
      → find_message id owner xs ≡ some x
      → Survives id owner x (store_messages_batch now rs xs)
  unfolding store_messages_batch
  Survives-batch now id owner [] x xs k e = (x, e, K_refl x)
  Survives-batch now id owner (r ∷ rs) x xs k e =
      let (y, f, l) = Survives-row id owner (message_record_args now r) x xs k.0 e in
      let (z, g, m) = Survives-batch now id owner rs y _ k.1 f in (z, g, K_trans x y z l m)

All-IsKeeping :
    (now : Text) (rs : List MessageRecord)
    → All (λ r. IsKeeping Keeps Keeps_refl Keeps_trans (message_record_args now r)) rs
All-IsKeeping now [] = tt
All-IsKeeping now (r ∷ rs) =
    (λ x. Keeps-updated (message_record_args now r) x, All-IsKeeping now rs)

-- A message that is stored is there after a batch, and has not come to be unread, not secure,
-- undecrypted or stored at another time.
pub store_messages_batch-Keeps :
    (now id owner : Text) (rs : List MessageRecord) (x : MessageRecord) (xs : List MessageRecord)
    → find_message id owner xs ≡ some x
    → (y : MessageRecord) × (find_message id owner (store_messages_batch now rs xs) ≡ some y)
      × Keeps x y
store_messages_batch-Keeps now id owner rs x xs e =
    Survives-batch Keeps Keeps_refl Keeps_trans now id owner rs x xs (All-IsKeeping now rs) e

-- The text of a decrypted message is the same.
pub record KeepsText (x y : MessageRecord) : Type 0 where
  pub text_of :
      is_wire x.content_type ≡ false
      → (y.content_type ≡ x.content_type) × (y.content ≡ x.content) × (y.metadata ≡ x.metadata)

KeepsText_refl : (x : MessageRecord) → KeepsText x x
KeepsText_refl x = record { text_of = λ e. (refl, refl, refl) }

KeepsText_trans : (x y z : MessageRecord) → KeepsText x y → KeepsText y z → KeepsText x z
KeepsText_trans x y z k l = record {
  text_of = λ e.
      let (a, b, c) = k.text_of e in let (p, q, r) = l.text_of (rw a e) in (p ∙ a, q ∙ b, r ∙ c);
}

KeepsText-updated :
    (r x : MessageRecord) → is_wire r.content_type ≡ true → KeepsText x (updated_message r x)
unfolding updated_message is_stale
KeepsText-updated r x e = record { text_of = λ f. rw (e, f) (refl, refl, refl) }

All-wire :
    (now : Text) (rs : List MessageRecord)
    → All (λ r. is_wire (message_record_args now r).content_type ≡ true) rs
    → All (λ r. IsKeeping KeepsText KeepsText_refl KeepsText_trans (message_record_args now r)) rs
All-wire now [] k = tt
All-wire now (r ∷ rs) k =
    (λ x. KeepsText-updated (message_record_args now r) x k.0, All-wire now rs k.1)

-- A batch of messages that are not decrypted leaves the text, the content type and the metadata of a
-- decrypted message as they were.
pub store_messages_batch-KeepsText :
    (now id owner : Text) (rs : List MessageRecord) (x : MessageRecord) (xs : List MessageRecord)
    → All (λ r. is_wire (message_record_args now r).content_type ≡ true) rs
    → find_message id owner xs ≡ some x
    → is_wire x.content_type ≡ false
    → (y : MessageRecord) × (find_message id owner (store_messages_batch now rs xs) ≡ some y)
      × (y.content_type ≡ x.content_type)
      × (y.content ≡ x.content)
      × (y.metadata ≡ x.metadata)
store_messages_batch-KeepsText now id owner rs x xs k e f =
    let (y, g, l) =
      Survives-batch KeepsText KeepsText_refl KeepsText_trans now id owner rs x xs
        (All-wire now rs k) e in
    let (a, b, c) = l.text_of f in (y, g, a, b, c)
