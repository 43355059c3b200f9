-- ===== src/Store/Message/Laws.antt =====
-- What merging and normalising a message keep, and the thread it falls into.
use awiki_cli.Base.{
  ℕ, ◌≡◌, refl, Bool, true, false, ◌||◌, List, [], ◌∷◌, arith, Option, none, some, ◌∙◌,
}
use awiki_cli.Base.Int.{ℤ, pos, negsuc}
use awiki_cli.Text.{Text, same, trim_space, is_blank, trim_left, trim_right}
use awiki_cli.Text.Order.{same_refl}
use awiki_cli.Store.{
  choose_later_non_empty, first_non_empty, max_int64_ptr, at_least, make_thread_id,
  remap_recovered_self_did, is_in, first_recovered_peer_did,
}
use awiki_cli.Store.Threads.{make_thread_id_comm}
use awiki_cli.Store.Message.{
  MessageRecord, recovered_thread_id, normalize_recovered_message_row, merge_recovered_message,
}

at_least_total : (m n : ℤ) → at_least m n ≡ false → at_least n m ≡ true
unfolding at_least
at_least_total (pos m) (pos n) h = ground arith
at_least_total (pos m) (negsuc n) h = ground arith
at_least_total (negsuc m) (pos n) h = refl
at_least_total (negsuc m) (negsuc n) h = ground arith

at_least_refl : (m : ℤ) → at_least m m ≡ true
unfolding at_least
at_least_refl (pos m) = ground arith
at_least_refl (negsuc m) = ground arith

-- A sequence number is known wherever the other one is, and is not below it.
unfoldable pub covers : Option ℤ → Option ℤ → Bool
covers o none = true
covers none (some n) = false
covers (some m) (some n) = at_least m n

max_int64_ptr-covers :
    (a b : Option ℤ) → (covers (max_int64_ptr a b) a ≡ true) × (covers (max_int64_ptr a b) b ≡ true)
unfolding max_int64_ptr covers
max_int64_ptr-covers none none = (refl, refl)
max_int64_ptr-covers none (some n) = (refl, at_least_refl n)
max_int64_ptr-covers (some m) none = (at_least_refl m, refl)
max_int64_ptr-covers (some m) (some n) =
    (ground (arith, at_least_refl m, at_least_total m n), ground (arith, at_least_refl n))

-- The merge of two copies of a message is marked as read, or as end-to-end encrypted, when one of
-- them is; its content is blank only when that of both is; and its server sequence number is known
-- when that of a copy is, and not below it.
pub merge_recovered_message_lem :
    (parse : Text → Option ℕ) (x y : MessageRecord)
    → let m = merge_recovered_message parse x y in
      (m.is_read ≡ (x.is_read || y.is_read))
      × (m.is_e2ee ≡ (x.is_e2ee || y.is_e2ee))
      × (is_blank m.content ≡ true → (is_blank x.content ≡ true) × (is_blank y.content ≡ true))
      × (covers m.server_seq x.server_seq ≡ true)
      × (covers m.server_seq y.server_seq ≡ true)
unfolding merge_recovered_message choose_later_non_empty
merge_recovered_message_lem parse x y =
    let c = max_int64_ptr-covers x.server_seq y.server_seq in
    (refl, refl, (λ h. (ground arith, ground arith)), c.0, c.1)

-- A normalised message names no old owner as its sender or receiver, where the new owner is none of
-- the old ones.
pub normalize_recovered_message_row-is_in :
    (olds : List Text) (w credential : Text) (row : MessageRecord)
    → is_in w olds ≡ false
    → (is_in (normalize_recovered_message_row olds w credential row).sender_did olds ≡ false)
      × (is_in (normalize_recovered_message_row olds w credential row).receiver_did olds ≡ false)
unfolding normalize_recovered_message_row remap_recovered_self_did
normalize_recovered_message_row-is_in olds w credential row h = (ground arith, ground arith)

no_group : first_non_empty ([] ∷ [] ∷ []) ≡ []
unfolding first_non_empty is_blank trim_space trim_left trim_right
no_group = refl

recovered_sent :
    (w peer : Text)
    → is_blank w ≡ false
    → is_blank peer ≡ false
    → same peer w ≡ false
    → recovered_thread_id w w peer [] [] ≡ make_thread_id w peer []
unfolding recovered_thread_id first_recovered_peer_did
recovered_sent w peer hw hp n = rw (no_group, hw, hp, n, same_refl w) refl

recovered_received :
    (w peer : Text)
    → is_blank peer ≡ false
    → same peer w ≡ false
    → recovered_thread_id w peer w [] [] ≡ make_thread_id w peer []
unfolding recovered_thread_id first_recovered_peer_did
recovered_received w peer hp n = rw (no_group, hp, n) refl

-- A direct message of a new owner with a peer that is another one, neither name blank, falls into
-- the thread of the two, and so does a message from the peer to the new owner.
pub recovered_thread_id_comm :
    (w peer : Text)
    → is_blank w ≡ false
    → is_blank peer ≡ false
    → same peer w ≡ false
    → (recovered_thread_id w w peer [] [] ≡ make_thread_id w peer [])
      × (recovered_thread_id w peer w [] [] ≡ make_thread_id peer w [])
recovered_thread_id_comm w peer hw hp n = (
  recovered_sent w peer hw hp n,
  recovered_received w peer hp n ∙ make_thread_id_comm w peer hw hp,
)
