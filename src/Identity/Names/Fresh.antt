-- ===== src/Identity/Names/Fresh.antt =====
-- internal/identity/store.go: the names that are chosen are fresh, and the search for one ends.
use awiki_cli.Base.{
  ℕ, zero, suc, ◌+◌, ◌≤◌, ◌<◌, ◌≡◌, ◌≢◌, refl, sym, ◌∙◌, Bool, true, false, List, [], ◌∷◌, ◌++◌,
  none, some, if◌then◌else◌, ◌==◌, arith, length, some_injective, Option-cases, Bool-cases, inl,
  inr,
}
use awiki_cli.Text.{Text, text, same, is_empty}
use awiki_cli.Text.Order.{eq_of_same}
use awiki_cli.Store.{is_in}
use awiki_cli.Identity.Names.{
  numbered, first_unused, unused_name, backup_dir_from, unique_backup_dir, choose_named_identity,
  choose_default_identity_name, sanitize_identity_name,
}

-- The list without the first occurrence.
abbrev drop_one : Text → List Text → List Text
drop_one v [] = []
drop_one v (x ∷ xs) = if same x v then xs else x ∷ drop_one v xs

length-drop_one :
    (v : Text) (xs : List Text) → is_in v xs ≡ true → suc (length (drop_one v xs)) ≡ length xs
unfolding is_in
length-drop_one v [] e = ground arith
length-drop_one v (x ∷ xs) e = ground (arith, length-drop_one v xs)

is_in-drop_one :
    (u v : Text) (xs : List Text) → u ≢ v → is_in u xs ≡ true → is_in u (drop_one v xs) ≡ true
unfolding is_in
is_in-drop_one u v [] n e = e
is_in-drop_one u v (x ∷ xs) n e = elim (Bool-cases (same x v)) [
  | inl f ↦ elim (Bool-cases (same x u)) [
    | inl g ↦ absurd (n (sym (eq_of_same x u g) ∙ eq_of_same x v f))
    | inr g ↦ rw f (rw g at e)
  ]
  | inr f ↦ rw f (ground (arith, is_in-drop_one u v xs n))
]

-- Different numbers are printed differently.
abbrev pub IsPrinting : (ℕ → Text) → Type 0
IsPrinting itoa = (m n : ℕ) → itoa m ≡ itoa n → m ≡ n

tail_eq : (c : ℕ) (t u : Text) → c ∷ t ≡ c ∷ u → t ≡ u
tail_eq c t u e = ground arith

append-cancel : (s t u : Text) → s ++ t ≡ s ++ u → t ≡ u
append-cancel [] t u e = e
append-cancel (c ∷ s) t u e = append-cancel s t u (tail_eq c (s ++ t) (s ++ u) e)

eq_of : (m n : ℕ) → (n == m) ≡ true → n ≡ m
eq_of m n e = ground arith

lt-ne : (m n : ℕ) → suc m ≤ n → m ≢ n
lt-ne m n p e = omega arith

module _ (itoa : ℕ → Text) (printing : IsPrinting itoa) where
  numbered_inj : (base : Text) (m n : ℕ) → numbered itoa base m ≡ numbered itoa base n → m ≡ n
  numbered_inj base m n e = printing m n (tail_eq b'-' (itoa m) (itoa n) (append-cancel base _ _ e))

  -- Where every number of a range is used, there are as many names used as numbers.
  rounds_used :
      (rounds idx : ℕ) (base : Text) (used : List Text)
      → ((n : ℕ) → idx ≤ n → n < idx + rounds → is_in (numbered itoa base n) used ≡ true)
      → rounds ≤ length used
  rounds_used zero idx base used h = omega arith
  rounds_used (suc rounds) idx base used h = omega (
    arith,
    length-drop_one (numbered itoa base idx) used (h idx (omega arith) (omega arith)),
    rounds_used rounds (suc idx) base (drop_one (numbered itoa base idx) used) (λ n p q.
        is_in-drop_one (numbered itoa base n) (numbered itoa base idx) used
          (λ e. lt-ne idx n p (sym (numbered_inj base n idx e))) (h n (omega arith) (omega arith))),
  )

  -- A search that finds none has seen all the names used.
  first_unused-none :
      (rounds idx : ℕ) (base : Text) (used : Text → Bool)
      → first_unused itoa rounds idx base used ≡ none
      → (n : ℕ) → idx ≤ n
      → n < idx + rounds
      → used (numbered itoa base n) ≡ true
  unfolding first_unused
  first_unused-none zero idx base used e n p q = absurd (omega arith)
  first_unused-none (suc rounds) idx base used e n p q =
      elim (Bool-cases (used (numbered itoa base idx))) [
        | inr f ↦ absurd (ground (arith, rw f at e))
        | inl f ↦ elim (Bool-cases (idx == n)) [
          | inl g ↦ rw (sym (eq_of n idx g)) f
          | inr g ↦
              first_unused-none rounds (suc idx) base used (rw f at e) n (ground arith)
                (omega arith)
        ]
      ]

  first_unused-some :
      (rounds idx : ℕ) (base c : Text) (used : Text → Bool)
      → first_unused itoa rounds idx base used ≡ some c
      → used c ≡ false
  unfolding first_unused
  first_unused-some zero idx base c used e = ground arith
  first_unused-some (suc rounds) idx base c used e =
      elim (Bool-cases (used (numbered itoa base idx))) [
        | inl f ↦ first_unused-some rounds (suc idx) base c used (rw f at e)
        | inr f ↦ rw (sym (some_injective (rw f at e))) f
      ]

  -- With fewer than 998 names used, the one that is taken is not used.
  unused_name-fresh :
      (stamp : ℕ) (used : List Text) (base : Text)
      → length used < 998
      → is_in (unused_name itoa stamp used base) used ≡ false
  unfolding unused_name
  unused_name-fresh stamp used base k =
      let b = if is_empty base then text "identity" else base in
      elim (Bool-cases (is_in b used)) [
        | inr e ↦ rw e e
        | inl e ↦ elim (Option-cases (first_unused itoa 998 2 b (λ c. is_in c used))) [
          | inr (c, f) ↦ rw (e, f) (first_unused-some 998 2 b c (λ c. is_in c used) f)
          | inl f ↦ absurd (
              omega (
                arith,
                k,
                rounds_used 998 2 b used (first_unused-none 998 2 b (λ c. is_in c used) f),
              ))
        ]
      ]

  -- Where different numbers are printed differently, no usable name is asked for and fewer than 998 identities exist, the name that is chosen is
  -- none of theirs, be the identity the default one or not.
  pub choose_named_identity-fresh :
      (wide : ℕ → ℕ) (stamp : ℕ) (requested : Text) (existing : List Text) (fallback : Text)
      → sanitize_identity_name wide requested ≡ []
      → length existing < 998
      → (is_in (choose_named_identity itoa wide stamp requested existing fallback) existing ≡ false)
        × (is_in (choose_default_identity_name itoa wide stamp requested existing fallback) existing
            ≡ false)
  unfolding choose_named_identity choose_default_identity_name
  choose_named_identity-fresh wide stamp requested [] fallback e k =
      rw e (unfold is_in in (refl, refl))
  choose_named_identity-fresh wide stamp requested (x ∷ xs) fallback e k =
      rw e (unused_name-fresh stamp (x ∷ xs) _ k, unused_name-fresh stamp (x ∷ xs) _ k)

  backup_dir-some :
      (fuel idx : ℕ) (base : Text) (file_exists : Text → Bool) (candidate c : Text)
      → backup_dir_from itoa fuel idx base file_exists candidate ≡ some c
      → file_exists c ≡ false
  unfolding backup_dir_from
  backup_dir-some zero idx base file_exists candidate c e = ground arith
  backup_dir-some (suc fuel) idx base file_exists candidate c e =
      elim (Bool-cases (file_exists candidate)) [
        | inl f ↦
            backup_dir-some fuel (suc idx) base file_exists (numbered itoa base idx) c (rw f at e)
        | inr f ↦ rw (sym (some_injective (rw f at e))) f
      ]

  backup_dir-rest :
      (rounds idx : ℕ) (base : Text) (file_exists : Text → Bool)
      → backup_dir_from itoa rounds (suc idx) base file_exists (numbered itoa base idx) ≡ none
      → (n : ℕ) → idx ≤ n
      → n < idx + rounds
      → file_exists (numbered itoa base n) ≡ true
  unfolding backup_dir_from
  backup_dir-rest zero idx base file_exists e n p q = absurd (omega arith)
  backup_dir-rest (suc rounds) idx base file_exists e n p q =
      elim (Bool-cases (file_exists (numbered itoa base idx))) [
        | inr f ↦ absurd (ground (arith, rw f at e))
        | inl f ↦ elim (Bool-cases (idx == n)) [
          | inl g ↦ rw (sym (eq_of n idx g)) f
          | inr g ↦
              backup_dir-rest rounds (suc idx) base file_exists (rw f at e) n (ground arith)
                (omega arith)
        ]
      ]

  backup_dir-none :
      (rounds idx : ℕ) (base : Text) (file_exists : Text → Bool) (candidate : Text)
      → backup_dir_from itoa (suc rounds) idx base file_exists candidate ≡ none
      → (file_exists candidate ≡ true)
        × ((n : ℕ) → idx ≤ n → n < idx + rounds → file_exists (numbered itoa base n) ≡ true)
  unfolding backup_dir_from
  backup_dir-none rounds idx base file_exists candidate e =
      elim (Bool-cases (file_exists candidate)) [
        | inr f ↦ absurd (ground (arith, rw f at e))
        | inl f ↦ (f, backup_dir-rest rounds idx base file_exists (rw f at e))
      ]

  -- Where different numbers are printed differently and what exists is among n names, the search for a
  -- directory ends within n + 2 tries, with one that does not exist.
  pub unique_backup_dir-fresh :
      (file_exists : Text → Bool) (files : List Text) (base : Text)
      → ((c : Text) → file_exists c ≡ true → is_in c files ≡ true)
      → (c : Text) × (unique_backup_dir itoa (suc (suc (length files))) file_exists base ≡ some c)
        × (file_exists c ≡ false)
  unfolding unique_backup_dir
  unique_backup_dir-fresh file_exists files base h =
      elim (Option-cases
        (backup_dir_from itoa (suc (suc (length files))) 2 base file_exists base)) [
          | inr (c, e) ↦ (c, e, backup_dir-some _ 2 base file_exists base c e)
          | inl e ↦ absurd (
              omega (
                arith,
                rounds_used (suc (length files)) 2 base files (λ n p q.
                    h (numbered itoa base n)
                      ((backup_dir-none (suc (length files)) 2 base file_exists base e).1 n p q)),
              ))
        ]
