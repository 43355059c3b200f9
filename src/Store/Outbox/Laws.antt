-- ===== src/Store/Outbox/Laws.antt =====
-- internal/store/dao.go: what the statements on the outbox do to a message that waits.
use awiki_cli.Base.{
  ℕ, zero, suc, ◌≡◌, refl, sym, ap, ◌∙◌, Bool, true, false, ◌&&◌, List, [], ◌∷◌, ◌++◌, not, any,
  Result, ok, err, Option, some, if◌then◌else◌, arith, Bool-cases, inl, inr, some_injective,
}
use awiki_cli.Base.Int.{ℤ}
use awiki_cli.Text.{Text, same, trim_space, is_empty}
use awiki_cli.Text.Order.{eq_of_same}
use awiki_cli.Store.Outbox.{
  E2eeOutboxRecord, Rows, succ, is_owned, update_where, sent_row, failed_row, failure_row,
  mark_e2ee_outbox_sent, mark_e2ee_outbox_failed, update_e2ee_outbox_status,
  set_e2ee_outbox_failure_by_id, first_where, OutboxError, queued, queue_e2ee_outbox, delete_where,
  clear_owner_e2ee_data, clear_recovered_owner_e2ee_data,
}

-- A statement on the outbox, with the time it is run at.
pub data Statement : Type 0 where
  sent : (now id owner session msg : Text) → Option ℤ → (metadata : Text) → Statement
  failed : (now id owner code hint msg : Text) → Option ℤ → (metadata : Text) → Statement
  status : (now id owner credential value : Text) → Statement
  failure : (now id owner credential code hint metadata : Text) → Statement
  queue : (now id : Text) → E2eeOutboxRecord → Statement
  clear : (owner : Text) → Statement
  recover : (owners : List Text) → Statement

-- A queue that is refused changes nothing.
abbrev pub rows_after : Rows → Result OutboxError (Text × Rows) → Rows
rows_after xs (ok (id, ys)) = ys
rows_after xs (err e) = xs

unfoldable pub run : Statement → Rows → Rows
run (sent now id owner session msg seq metadata) xs =
    mark_e2ee_outbox_sent now id owner session msg seq metadata xs
run (failed now id owner code hint msg seq metadata) xs =
    mark_e2ee_outbox_failed now id owner code hint msg seq metadata xs
run (status now id owner credential value) xs =
    update_e2ee_outbox_status now id owner credential value xs
run (failure now id owner credential code hint metadata) xs =
    set_e2ee_outbox_failure_by_id now id owner credential code hint metadata xs
run (queue now id r) xs = rows_after xs (queue_e2ee_outbox now id r xs)
run (clear owner) xs = clear_owner_e2ee_data owner xs
run (recover owners) xs = clear_recovered_owner_e2ee_data owners xs

unfoldable pub run_all : List Statement → Rows → Rows
run_all [] xs = xs
run_all (s ∷ ss) xs = run_all ss (run s xs)

-- The statement marks the message of the owner sent.
abbrev pub is_sent : Text → Text → Statement → Bool
is_sent id owner (sent now i o session msg seq metadata) = same id i && same owner (trim_space o)
is_sent id owner _ = false

-- The statement clears the messages of the owner.
abbrev pub is_clear : Text → Statement → Bool
is_clear owner (clear o) = not (is_empty (trim_space o)) && same owner (trim_space o)
is_clear owner (recover os) = any (same owner) os
is_clear owner _ = false

unfoldable pub sends : Text → Text → List Statement → ℕ
sends id owner [] = 0
sends id owner (s ∷ ss) = if is_sent id owner s then suc (sends id owner ss) else sends id owner ss

-- n more.
unfoldable pub advance : ℕ → ℤ → ℤ
advance zero i = i
advance (suc n) i = advance n (succ i)

-- The message of the owner, and what is the same of it.
abbrev pub Stays : Text → Text → ℤ → E2eeOutboxRecord → Rows → Type 0
Stays id owner n x xs =
    (y : E2eeOutboxRecord) × (first_where (is_owned id owner) xs ≡ some y)
    × (y.attempt_count ≡ n)
    × (y.plaintext ≡ x.plaintext)
    × (y.peer_did ≡ x.peer_did)

first_where-update :
    (id owner : Text) (p : E2eeOutboxRecord → Bool) (f : E2eeOutboxRecord → E2eeOutboxRecord)
    (x : E2eeOutboxRecord) (xs : Rows)
    → ((y : E2eeOutboxRecord) → ((f y).outbox_id ≡ y.outbox_id) × ((f y).owner_did ≡ y.owner_did))
    → first_where (is_owned id owner) xs ≡ some x
    → first_where (is_owned id owner) (update_where p f xs) ≡ some (if p x then f x else x)
unfolding first_where update_where
first_where-update id owner p f x [] k e = ground arith
first_where-update id owner p f x (y ∷ xs) k e = elim (Bool-cases (is_owned id owner y)) [
  | inl g ↦
      let q : y ≡ x = some_injective (rw g at e) in
      elim (Bool-cases (p y)) [
        | inl h ↦ rw (sym q, h) (rw ((k y).0, (k y).1, g) refl)
        | inr h ↦ rw (sym q, h) (rw g refl)
      ]
  | inr g ↦ elim (Bool-cases (p y)) [
    | inl h ↦ rw h (rw ((k y).0, (k y).1, g) (first_where-update id owner p f x xs k (rw g at e)))
    | inr h ↦ rw h (rw g (first_where-update id owner p f x xs k (rw g at e)))
  ]
]

owned_of_found :
    (id owner : Text) (x : E2eeOutboxRecord) (xs : Rows)
    → first_where (is_owned id owner) xs ≡ some x
    → is_owned id owner x ≡ true
unfolding first_where
owned_of_found id owner x [] e = ground arith
owned_of_found id owner x (y ∷ xs) e = elim (Bool-cases (is_owned id owner y)) [
  | inl g ↦ rw (sym (some_injective (rw g at e))) g
  | inr g ↦ owned_of_found id owner x xs (rw g at e)
]

-- A change of a row that leaves its keys, its attempts, its text and its peer.
abbrev IsMeek : (E2eeOutboxRecord → E2eeOutboxRecord) → Type 0
IsMeek f =
    (y : E2eeOutboxRecord)
    → ((f y).outbox_id ≡ y.outbox_id)
      × ((f y).owner_did ≡ y.owner_did)
      × ((f y).attempt_count ≡ y.attempt_count)
      × ((f y).plaintext ≡ y.plaintext)
      × ((f y).peer_did ≡ y.peer_did)

Stays-meek :
    (id owner : Text) (p : E2eeOutboxRecord → Bool) (f : E2eeOutboxRecord → E2eeOutboxRecord)
    (x : E2eeOutboxRecord) (xs : Rows)
    → IsMeek f
    → first_where (is_owned id owner) xs ≡ some x
    → Stays id owner x.attempt_count x (update_where p f xs)
Stays-meek id owner p f x xs k e =
    let u = first_where-update id owner p f x xs (λ y. ((k y).0, (k y).1)) e in
    let (i, o, a, b, c) = k x in
    elim (Bool-cases (p x)) [
      | inl h ↦ (f x, u ∙ rw h refl, a, b, c)
      | inr h ↦ (x, u ∙ rw h refl, refl, refl, refl)
    ]

sent_row-keys :
    (now session msg : Text) (seq : Option ℤ) (metadata : Text) (y : E2eeOutboxRecord)
    → let z = sent_row now session msg seq metadata y in
      (z.outbox_id ≡ y.outbox_id) × (z.owner_did ≡ y.owner_did)
unfolding sent_row
sent_row-keys now session msg seq metadata y = (refl, refl)

Stays-sent :
    (id owner now i o session msg : Text) (seq : Option ℤ) (metadata : Text) (x : E2eeOutboxRecord)
    (xs : Rows)
    → first_where (is_owned id owner) xs ≡ some x
    → x.outbox_id ≡ id
    → x.owner_did ≡ owner
    → Stays id owner
        (if same id i && same owner o then succ x.attempt_count else x.attempt_count)
        x
        (update_where (is_owned i o) (sent_row now session msg seq metadata) xs)
Stays-sent id owner now i o session msg seq metadata x xs e p q =
    let u =
      first_where-update id owner (is_owned i o) (sent_row now session msg seq metadata) x xs
        (sent_row-keys now session msg seq metadata) e in
    elim (Bool-cases (same id i && same owner o)) [
      | inl h ↦ rw h (
        sent_row now session msg seq metadata x,
        u ∙ rw (p, q, h) refl,
        unfold sent_row in refl,
        unfold sent_row in refl,
        unfold sent_row in refl,
      )
      | inr h ↦ rw h (x, u ∙ rw (p, q, h) refl, refl, refl, refl)
    ]

and_first : (a b : Bool) → a && b ≡ true → a ≡ true
and_first a b e = ground arith

and_second : (a b : Bool) → a && b ≡ true → b ≡ true
and_second a b e = ground arith

first_where-append :
    (p : E2eeOutboxRecord → Bool) (x : E2eeOutboxRecord) (xs ys : Rows)
    → first_where p xs ≡ some x
    → first_where p (xs ++ ys) ≡ some x
unfolding first_where
first_where-append p x [] ys e = cc
first_where-append p x (y ∷ xs) ys e = ground (arith, first_where-append p x xs ys)

first_where-delete :
    (p q : E2eeOutboxRecord → Bool)
    → ((y : E2eeOutboxRecord) → p y ≡ true → q y ≡ false)
    → (xs : Rows) → first_where p (delete_where q xs) ≡ first_where p xs
unfolding first_where delete_where
first_where-delete p q k [] = refl
first_where-delete p q k (y ∷ xs) = elim (Bool-cases (q y)) [
  | inl e ↦ elim (Bool-cases (p y)) [
    | inl f ↦ absurd (ground (arith, k y f))
    | inr f ↦ rw (e, f) (first_where-delete p q k xs)
  ]
  | inr e ↦ elim (Bool-cases (p y)) [
    | inl f ↦ rw e (rw f refl)
    | inr f ↦ rw e (rw f (first_where-delete p q k xs))
  ]
]

owner_of_owned :
    (id owner : Text) (y : E2eeOutboxRecord) → is_owned id owner y ≡ true → y.owner_did ≡ owner
owner_of_owned id owner y e = eq_of_same y.owner_did owner (and_second _ _ e)

first_where-queue :
    (p : E2eeOutboxRecord → Bool) (now id : Text) (r x : E2eeOutboxRecord) (xs : Rows)
    → first_where p xs ≡ some x
    → first_where p (rows_after xs (queue_e2ee_outbox now id r xs)) ≡ some x
unfolding queue_e2ee_outbox
first_where-queue p now id r x xs e =
    elim (Bool-cases (any (λ y. same y.outbox_id (queued now id r).outbox_id) xs)) [
      | inl f ↦ rw f e
      | inr f ↦ rw f (first_where-append p x xs _ e)
    ]

first_where-clear :
    (id owner o : Text) (x : E2eeOutboxRecord) (xs : Rows)
    → not (is_empty (trim_space o)) && same owner (trim_space o) ≡ false
    → first_where (is_owned id owner) xs ≡ some x
    → first_where (is_owned id owner) (clear_owner_e2ee_data o xs) ≡ some x
unfolding clear_owner_e2ee_data
first_where-clear id owner o x xs n e = elim (Bool-cases (is_empty (trim_space o))) [
  | inl f ↦ rw f e
  | inr f ↦ rw f (
      first_where-delete (is_owned id owner) (λ y. same y.owner_did (trim_space o))
        (λ y g. rw (owner_of_owned id owner y g) (ground (arith, n, f))) xs
      ∙ e)
]

-- One statement: the message stays, and one more attempt is counted when it is marked sent.
Stays-run :
    (id owner : Text) (s : Statement) (x : E2eeOutboxRecord) (xs : Rows)
    → is_clear owner s ≡ false
    → first_where (is_owned id owner) xs ≡ some x
    → Stays id owner
        (if is_sent id owner s then succ x.attempt_count else x.attempt_count)
        x
        (run s xs)
unfolding run mark_e2ee_outbox_sent mark_e2ee_outbox_failed update_e2ee_outbox_status
    set_e2ee_outbox_failure_by_id failed_row failure_row
Stays-run id owner (sent now i o session msg seq metadata) x xs n e =
    Stays-sent id owner now i (trim_space o) session msg seq metadata x xs e
      (eq_of_same x.outbox_id id (and_first _ _ (owned_of_found id owner x xs e)))
      (eq_of_same x.owner_did owner (and_second _ _ (owned_of_found id owner x xs e)))
Stays-run id owner (failed now i o code hint msg seq metadata) x xs n e =
    Stays-meek id owner _ _ x xs (λ y. (refl, refl, refl, refl, refl)) e
Stays-run id owner (status now i o credential value) x xs n e =
    Stays-meek id owner _ _ x xs (λ y. (refl, refl, refl, refl, refl)) e
Stays-run id owner (failure now i o credential code hint metadata) x xs n e =
    Stays-meek id owner _ _ x xs (λ y. (refl, refl, refl, refl, refl)) e
Stays-run id owner (queue now i r) x xs n e =
    (x, first_where-queue (is_owned id owner) now i r x xs e, refl, refl, refl)
Stays-run id owner (clear o) x xs n e = (x, first_where-clear id owner o x xs n e, refl, refl, refl)
Stays-run id owner (recover os) x xs n e = (
  x,
  unfold clear_recovered_owner_e2ee_data in
      first_where-delete (is_owned id owner) (λ y. any (same y.owner_did) os)
        (λ y g. rw (owner_of_owned id owner y g) n) xs
      ∙ e,
  refl,
  refl,
  refl,
)

step_advance :
    (id owner : Text) (s : Statement) (ss : List Statement) (n : ℤ)
    → advance (sends id owner ss) (if is_sent id owner s then succ n else n)
      ≡ advance (sends id owner (s ∷ ss)) n
unfolding sends advance
step_advance id owner s ss n = elim (Bool-cases (is_sent id owner s)) [
  | inl e ↦ rw e refl
  | inr e ↦ rw e refl
]

-- Through any of the statements of dao.go on the outbox, and those of the recovery merge, a message of
-- an owner stays, with its text and its peer, and its attempts are those that it had and one for each
-- time that it was marked sent, where no statement on the way clears the data of that owner.
pub run_all-Stays :
    (id owner : Text) (ss : List Statement) (x : E2eeOutboxRecord) (xs : Rows)
    → any (is_clear owner) ss ≡ false
    → first_where (is_owned id owner) xs ≡ some x
    → Stays id owner (advance (sends id owner ss) x.attempt_count) x (run_all ss xs)
unfolding run_all
run_all-Stays id owner [] x xs n e = (x, e, unfold sends advance in refl, refl, refl)
run_all-Stays id owner (s ∷ ss) x xs n e =
    let (y, f, a, b, c) = Stays-run id owner s x xs (ground (arith, n)) e in
    let (z, g, p, q, r) = run_all-Stays id owner ss y (run s xs) (ground (arith, n)) f in
    (
      z,
      g,
      p ∙ ap (advance (sends id owner ss)) a ∙ step_advance id owner s ss x.attempt_count,
      q ∙ b,
      r ∙ c,
    )
