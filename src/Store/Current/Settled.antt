-- ===== src/Store/Current/Settled.antt =====
-- internal/store/recover_merge.go: the handles after normalizeRecoveredCurrentHandles.
use awiki_cli.Base.{
  ◌≡◌, refl, sym, ap, ◌∙◌, ◌≤◌, true, false, List, [], ◌∷◌, none, some, any, arith, map, Bool-cases,
  inl, inr, Option-cases, ok, ok_or, err-ne-ok, Result-cases,
}
use awiki_cli.Text.{Text, same, trim_space}
use awiki_cli.Text.Order.{eq_of_same, same_refl}
use awiki_cli.Store.Binding.{ContactHandleBindingRecord}
use awiki_cli.Store.Book.{Book, is_bound, has_handle, is_contact}
use awiki_cli.Store.Book.Counts.{count}
use awiki_cli.Store.Book.Keys.{is_key, is_now}
use awiki_cli.Store.Book.Current.{AreBindings}
use awiki_cli.Store.Current.{
  last_seen, marked, mark_current, move_handle, normalize_current_handle,
  normalize_recovered_current_handles,
}
use awiki_cli.Store.Current.Laws.{
  mark_current-ok, AreBindings-marked, count_now-marked, count_now-other, count_contact-moved,
  count_handle-moved, one_holder_moved,
}

-- The keys of the two tables, and the unique index of the current bindings.
pub record IsKeyed (b : Book) : Type 0 where
  pub bindings_ok : AreBindings b.bindings
  pub one_did : (o d : Text) → count (is_contact o d) b.contacts ≤ 1

-- One binding of the handle is current, and at most one contact has it.
pub record IsSettled (owner handle : Text) (b : Book) : Type 0 where
  pub one_current : count (is_now owner handle) b.bindings ≡ 1
  pub one_holder : count (has_handle owner handle) b.contacts ≤ 1

abbrev move : Text → Text → Book → ContactHandleBindingRecord → Book
move owner handle b row = record {
  contacts = move_handle owner handle row.did b.contacts;
  bindings = map (marked owner handle row.did) b.bindings;
}

count_key-last_seen :
    (owner handle : Text) (xs : List ContactHandleBindingRecord) (row : ContactHandleBindingRecord)
    → last_seen owner handle xs ≡ some row
    → 1 ≤ count (is_key owner handle row.did) xs
unfolding last_seen count
count_key-last_seen owner handle [] row e = ground arith
count_key-last_seen owner handle (x ∷ xs) row e =
    ground (arith, same_refl x.did, count_key-last_seen owner handle xs row)

last_seen-none :
    (owner handle : Text) (xs : List ContactHandleBindingRecord)
    → last_seen owner handle xs ≡ none
    → any (is_bound owner handle) xs ≡ false
unfolding last_seen
last_seen-none owner handle [] e = refl
last_seen-none owner handle (x ∷ xs) e = ground (arith, last_seen-none owner handle xs)

any_bound-marked :
    (owner handle did g : Text) (xs : List ContactHandleBindingRecord)
    → any (is_bound owner g) (map (marked owner handle did) xs) ≡ any (is_bound owner g) xs
any_bound-marked owner handle did g [] = refl
any_bound-marked owner handle did g (x ∷ xs) =
    ground (arith, any_bound-marked owner handle did g xs)

module _ (owner : Text) (plain : trim_space owner ≡ owner) where
  normalize_current_handle-some :
      (h : Text) (b c : Book) (row : ContactHandleBindingRecord)
      → last_seen owner h b.bindings ≡ some row
      → normalize_current_handle owner h b ≡ ok c
      → move owner h b row ≡ c
  unfolding normalize_current_handle
  normalize_current_handle-some h b c row e f =
      elim (Result-cases (mark_current owner h row.did [] b.bindings)) [
        | inl (out, g) ↦
            ap
              (λ rows. record {
                contacts = move_handle owner h row.did b.contacts;
                bindings = rows;
              })
              (mark_current-ok owner h row.did [] b.bindings out g)
            ∙ ap (ok_or b) (rw (plain, e, g) at f)
        | inr (x, g) ↦ absurd (err-ne-ok (rw (plain, e, g) at f))
      ]

  normalize_current_handle-none :
      (h : Text) (b c : Book)
      → last_seen owner h b.bindings ≡ none
      → normalize_current_handle owner h b ≡ ok c
      → b ≡ c
  unfolding normalize_current_handle
  normalize_current_handle-none h b c e f = ap (ok_or b) (rw (plain, e) at f)

  move-IsKeyed :
      (h : Text) (b : Book) (row : ContactHandleBindingRecord)
      → IsKeyed b
      → IsKeyed (move owner h b row)
  move-IsKeyed h b row k = record {
    bindings_ok = AreBindings-marked owner h row.did b.bindings k.bindings_ok;
    one_did = λ o d. rw (count_contact-moved owner h row.did o d b.contacts) (k.one_did o d);
  }

  move-IsSettled :
      (h : Text) (b : Book) (row : ContactHandleBindingRecord)
      → IsKeyed b
      → last_seen owner h b.bindings ≡ some row
      → IsSettled owner h (move owner h b row)
  move-IsSettled h b row k e = record {
    one_current = omega (
      arith,
      count_now-marked owner h row.did b.bindings,
      count_key-last_seen owner h b.bindings row e,
      k.bindings_ok.one_key owner h row.did,
    );
    one_holder = one_holder_moved owner h row.did b.contacts k.one_did;
  }

  -- The change of a handle leaves the others settled.
  move-keeps :
      (h g : Text) (b : Book) (row : ContactHandleBindingRecord)
      → IsKeyed b
      → last_seen owner h b.bindings ≡ some row
      → IsSettled owner g b
      → IsSettled owner g (move owner h b row)
  move-keeps h g b row k e s = elim (Bool-cases (same h g)) [
    | inl f ↦ rw (sym (eq_of_same h g f)) (move-IsSettled h b row k e)
    | inr f ↦ record {
      one_current =
          rw (count_now-other owner h row.did owner g b.bindings (ground (arith, f))) s.one_current;
      one_holder = omega (
        arith,
        count_handle-moved owner h row.did owner g b.contacts (ground (arith, f)),
        s.one_holder,
      );
    }
  ]

  -- What holds of an unchanged book and of one in which the handle has moved, holds behind a step.
  step_ind :
      (P : Book → Type 0) (h : Text) (b c : Book)
      → normalize_current_handle owner h b ≡ ok c
      → P b
      → ((row : ContactHandleBindingRecord)
          → last_seen owner h b.bindings ≡ some row
          → P (move owner h b row))
      → P c
  step_ind P h b c e u v = elim (Option-cases (last_seen owner h b.bindings)) [
    | inl f ↦ rw (sym (normalize_current_handle-none h b c f e)) u
    | inr (row, f) ↦ rw (sym (normalize_current_handle-some h b c row f e)) (v row f)
  ]

  step-IsKeyed :
      (h : Text) (b c : Book) → normalize_current_handle owner h b ≡ ok c → IsKeyed b → IsKeyed c
  step-IsKeyed h b c e k = step_ind IsKeyed h b c e k (λ row f. move-IsKeyed h b row k)

  step-keeps :
      (h g : Text) (b c : Book)
      → normalize_current_handle owner h b ≡ ok c
      → IsKeyed b
      → IsSettled owner g b
      → IsSettled owner g c
  step-keeps h g b c e k s =
      step_ind (IsSettled owner g) h b c e s (λ row f. move-keeps h g b row k f s)

  step-bound :
      (h g : Text) (b c : Book)
      → normalize_current_handle owner h b ≡ ok c
      → any (is_bound owner g) b.bindings ≡ true
      → any (is_bound owner g) c.bindings ≡ true
  step-bound h g b c e s =
      step_ind (λ x. any (is_bound owner g) x.bindings ≡ true) h b c e s
        (λ row f. any_bound-marked owner h row.did g b.bindings ∙ s)

  step-IsSettled :
      (h : Text) (b c : Book)
      → normalize_current_handle owner h b ≡ ok c
      → IsKeyed b
      → any (is_bound owner h) b.bindings ≡ true
      → IsSettled owner h c
  step-IsSettled h b c e k a = elim (Option-cases (last_seen owner h b.bindings)) [
    | inl f ↦ absurd (ground (arith, last_seen-none owner h b.bindings f))
    | inr (row, f) ↦
        rw (sym (normalize_current_handle-some h b c row f e)) (move-IsSettled h b row k f)
  ]

  normalize-keeps :
      (hs : List Text) (g : Text) (b c : Book)
      → normalize_recovered_current_handles owner hs b ≡ ok c
      → IsKeyed b
      → IsSettled owner g b
      → IsKeyed c × IsSettled owner g c
  unfolding normalize_recovered_current_handles
  normalize-keeps [] g b c e k s = rw (sym (ap (ok_or b) e)) (k, s)
  normalize-keeps (h ∷ hs) g b c e k s = elim (Result-cases (normalize_current_handle owner h b)) [
    | inl (m, f) ↦
        normalize-keeps hs g m c (rw f at e) (step-IsKeyed h b m f k) (step-keeps h g b m f k s)
    | inr (x, f) ↦ absurd (err-ne-ok (rw f at e))
  ]

  -- From a book in which the keys of both tables hold, a run that does not fail keeps the keys and the
  -- unique index of the current bindings, and each handle it was given that has a binding has exactly
  -- one current binding and at most one contact behind it, however many contacts had it before. The
  -- owner is trimmed.
  pub normalize_recovered_current_handles-IsSettled :
      (hs : List Text) (g : Text) (b c : Book)
      → normalize_recovered_current_handles owner hs b ≡ ok c
      → IsKeyed b
      → any (same g) hs ≡ true
      → any (is_bound owner g) b.bindings ≡ true
      → IsKeyed c × IsSettled owner g c
  unfolding normalize_recovered_current_handles
  normalize_recovered_current_handles-IsSettled [] g b c e k a d = absurd (ground arith)
  normalize_recovered_current_handles-IsSettled (h ∷ hs) g b c e k a d =
      elim (Result-cases (normalize_current_handle owner h b)) [
        | inr (x, f) ↦ absurd (err-ne-ok (rw f at e))
        | inl (m, f) ↦ elim (Bool-cases (same g h)) [
          | inl u ↦
              normalize-keeps hs g m c (rw f at e) (step-IsKeyed h b m f k)
                (step-IsSettled g b m (rw (eq_of_same g h u) f) k d)
          | inr u ↦
              normalize_recovered_current_handles-IsSettled hs g m c (rw f at e)
                (step-IsKeyed h b m f k) (rw u at a) (step-bound h g b m f d)
        ]
      ]
