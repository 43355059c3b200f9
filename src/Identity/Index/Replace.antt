-- ===== src/Identity/Index/Replace.antt =====
-- internal/identity/store.go: what replacing an identity and choosing the default one keep of the index.
use awiki_cli.Base.{
  ℕ, ◌≡◌, refl, sym, ap, ◌∙◌, true, false, ◌||◌, List, [], ◌∷◌, Option, some, ok, arith, Bool-cases,
  Option-cases, Result-cases, inl, inr, ok_or, err-ne-ok,
}
use awiki_cli.Text.{Text, same, is_empty, is_blank}
use awiki_cli.Text.Order.{same_refl}
use awiki_cli.Identity.Names.{preferred_dir_name}
use awiki_cli.Identity.Index.{
  IndexEntry, IndexPayload, lookup, is_key, default_name, IndexFile, missing, load_index_from,
  save_index_to, resolve_entry_name, SaveInput, Profile, is_linked, is_claimed, relinked,
  replacement, replace_identity, set_default, current_entry,
}
use awiki_cli.Identity.Index.Laws.{
  Own, IsSound, IsSoundFile, assigned, assigned_of, IsSoundFile-save, default_name_some,
  default_name_key,
}

Own-relinked :
    (f : Text → Text) (entry : IndexEntry) (dir did : Text) (change : IndexEntry → IndexEntry)
    (xs : List (Text × IndexEntry))
    → ((x : IndexEntry) → ((change x).dir_name ≡ dir) × ((change x).did ≡ did))
    → is_claimed entry dir did xs ≡ false
    → Own f xs
    → Own (assigned f dir did) (relinked entry change xs)
unfolding relinked is_claimed
Own-relinked f entry dir did change [] c e o = tt
Own-relinked f entry dir did change (x ∷ xs) c e o = elim (Bool-cases (is_linked entry x.1)) [
  | inl g ↦ rw g (
    rw ((c x.1).0, (c x.1).1, same_refl dir) refl,
    Own-relinked f entry dir did change xs c (ground arith) o.1,
  )
  | inr g ↦ rw g (
    assigned_of f dir did x.1 o.0 (ground arith),
    Own-relinked f entry dir did change xs c (ground arith) o.1,
  )
]

is_key-relinked :
    (entry : IndexEntry) (change : IndexEntry → IndexEntry) (name : Text)
    (xs : List (Text × IndexEntry))
    → is_key name (relinked entry change xs) ≡ is_key name xs
unfolding relinked is_key
is_key-relinked entry change name [] = refl
is_key-relinked entry change name (x ∷ xs) = rw (is_key-relinked entry change name xs) refl

IsSound-relinked :
    (entry : IndexEntry) (dir did : Text) (change : IndexEntry → IndexEntry) (p : IndexPayload)
    → ((x : IndexEntry) → ((change x).dir_name ≡ dir) × ((change x).did ≡ did))
    → is_claimed entry dir did p.credentials ≡ false
    → IsSound p
    → IsSound (record p { credentials = relinked entry change p.credentials })
IsSound-relinked entry dir did change p c e s = record {
  owner = assigned s.owner dir did;
  owned = Own-relinked s.owner entry dir did change p.credentials c e s.owned;
  default_key = λ d. is_key-relinked entry change _ p.credentials ∙ s.default_key d;
  default_some =
      λ name k. s.default_some name (sym (is_key-relinked entry change name p.credentials) ∙ k);
  no_empty = is_key-relinked entry change [] p.credentials ∙ s.no_empty;
}

module _ (wide : ℕ → ℕ) (unescape : Text → Option Text) where
  replacement-parts :
      (now dir : Text) (current : Profile) (input : SaveInput) (x : IndexEntry)
      → ((replacement wide unescape now dir current input x).dir_name ≡ dir)
        × ((replacement wide unescape now dir current input x).did ≡ input.did)
  unfolding replacement
  replacement-parts now dir current input x = (refl, refl)

  -- A replacement of an identity that succeeds keeps these of an index: each directory holds the identity
  -- of one DID, the default identity is there, there is one where there are identities, and no name is
  -- empty.
  pub replace_identity-IsSoundFile :
      (now : Text) (current : Profile) (name : Text) (input : SaveInput) (file out : IndexFile)
      → IsSoundFile file
      → replace_identity wide unescape now current name input file ≡ ok out
      → IsSoundFile out
  unfolding replace_identity
  replace_identity-IsSoundFile now current name input file out k e =
      elim (Bool-cases (is_blank name)) [
        | inl f ↦ absurd (err-ne-ok (rw f at e))
        | inr f ↦ elim (Bool-cases (is_blank input.did || is_blank input.unique_id)) [
          | inl g ↦ absurd (err-ne-ok (rw (f, g) at e))
          | inr g ↦ elim (Result-cases (load_index_from file)) [
            | inr (x, h) ↦ absurd (err-ne-ok (rw (f, g, h) at e))
            | inl (p, h) ↦ elim (Option-cases (resolve_entry_name name p)) [
              | inl t ↦ absurd (err-ne-ok (rw (f, g, h, t) at e))
              | inr ((resolved, entry), t) ↦
                  elim (Result-cases (preferred_dir_name input.unique_id)) [
                    | inr (x, d) ↦ absurd (err-ne-ok (rw (f, g, h, t, d) at e))
                    | inl (dir, d) ↦
                        elim (Bool-cases (is_claimed entry dir input.did p.credentials)) [
                          | inl u ↦ absurd (err-ne-ok (rw (f, g, h, t, d, u) at e))
                          | inr u ↦ rw (sym (ap (ok_or out) (rw (f, g, h, t, d, u) at e))) (
                              IsSoundFile-save _ (
                                IsSound-relinked entry dir input.did _ p
                                  (replacement-parts now dir current input) u (k.loaded p h)))
                        ]
                  ]
            ]
          ]
        ]
      ]

-- The empty name is no key, so a key is not empty.
is_empty_of_key :
    (name : Text) (xs : List (Text × IndexEntry))
    → is_key [] xs ≡ false
    → is_key name xs ≡ true
    → is_empty name ≡ false
is_empty_of_key [] xs n e = ground arith
is_empty_of_key (c ∷ name) xs n e = refl

set_default_value :
    (name : Text) (file : IndexFile) (p : IndexPayload)
    → load_index_from file ≡ ok p
    → is_key name p.credentials ≡ true
    → set_default name file ≡ ok (save_index_to (record p { default_credential_name = name }))
unfolding set_default
set_default_value name file p h f = rw (h, f) refl

current_entry_value :
    (file : IndexFile) (p : IndexPayload) (entry : IndexEntry)
    → load_index_from file ≡ ok p
    → is_empty (default_name p.default_credential_name p.credentials) ≡ false
    → lookup (default_name p.default_credential_name p.credentials) p.credentials ≡ some entry
    → current_entry file ≡ ok entry
unfolding current_entry
current_entry_value file p entry h d g = rw (h, d, g) refl

-- Choosing the default identity leaves a sound index of a sound one.
pub set_default-IsSoundFile :
    (name : Text) (file out : IndexFile)
    → IsSoundFile file
    → set_default name file ≡ ok out
    → IsSoundFile out
unfolding set_default
set_default-IsSoundFile name file out k e = elim (Result-cases (load_index_from file)) [
  | inr (x, h) ↦ absurd (err-ne-ok (rw h at e))
  | inl (p, h) ↦ elim (Bool-cases (is_key name p.credentials)) [
    | inr f ↦ absurd (err-ne-ok (rw (h, f) at e))
    | inl f ↦
        let s = k.loaded p h in
        rw (sym (ap (ok_or out) (sym (set_default_value name file p h f) ∙ e))) (
          IsSoundFile-save _ (record {
            owner = s.owner;
            owned = s.owned;
            default_key = λ d. f;
            default_some = λ n d. is_empty_of_key name p.credentials s.no_empty f;
            no_empty = s.no_empty;
          }))
  ]
]

lookup_of_key :
    (name : Text) (xs : List (Text × IndexEntry))
    → is_key name xs ≡ true
    → (entry : IndexEntry) × (lookup name xs ≡ some entry)
unfolding lookup is_key
lookup_of_key name [] e = absurd (ground arith)
lookup_of_key name (x ∷ xs) e = elim (Bool-cases (same x.0 name)) [
  | inl f ↦ (x.1, rw f refl)
  | inr f ↦ rw f (lookup_of_key name xs (rw f at e))
]

-- Where a sound index has an identity, there is a current one.
pub current_entry-ok :
    (file : IndexFile) (p : IndexPayload) (name : Text)
    → IsSoundFile file
    → load_index_from file ≡ ok p
    → is_key name p.credentials ≡ true
    → (entry : IndexEntry) × (current_entry file ≡ ok entry)
current_entry-ok file p name k e f =
    let s = k.loaded p e in
    let d = default_name_some p.default_credential_name p.credentials (s.default_some name f) in
    let (entry, g) =
      lookup_of_key _ p.credentials
        (default_name_key p.default_credential_name p.credentials s.default_key d) in
    (entry, current_entry_value file p entry e d g)

-- An index that is not there is sound.
pub IsSoundFile-missing : IsSoundFile missing
unfolding load_index_from
IsSoundFile-missing = record {
  loaded = λ p e. rw (sym (ap (ok_or p) e)) (record {
    owner = λ d. d;
    owned = tt;
    default_key = λ f. cc;
    default_some = λ name f. unfold is_key in cc;
    no_empty = unfold is_key in refl;
  });
}
