-- ===== src/Identity/Index/Laws.antt =====
-- internal/identity/store.go: what saving, replacing and choosing a default keep of the index of identities.
use awiki_cli.Base.{
  ℕ, ◌≡◌, refl, sym, ap, ◌∙◌, true, false, not, ◌&&◌, ◌||◌, List, [], ◌∷◌, Option, if◌then◌else◌,
  ok, ◌==◌, arith, Bool-cases, Result-cases, inl, inr, ok_or, err-ne-ok,
}
use awiki_cli.Text.{Text, text, same, trim_space, is_empty, is_blank, trim_left, trim_right}
use awiki_cli.Text.Order.{eq_of_same, same_refl}
use awiki_cli.Identity.Names.{preferred_dir_name}
use awiki_cli.Identity.Index.{
  IndexEntry, IndexPayload, lookup, is_key, without_name, put, default_name, named_entries,
  normalize_index_payload, IndexFile, payload, load_index_from, save_index_to, SaveInput, uses_dir,
  is_taken, put_saved, save,
}

-- Every entry is of the DID that its directory belongs to.
abbrev pub Own : (Text → Text) → List (Text × IndexEntry) → Type 0
Own f [] = Unit
Own f (x ∷ xs) = (f x.1.dir_name ≡ x.1.did) × Own f xs

-- Each directory holds the identity of one DID, the default one is there, there is one where there
-- are identities, and none has the empty name.
pub record IsSound (p : IndexPayload) : Type 0 where
  pub owner : Text → Text
  pub owned : Own owner p.credentials
  pub default_key :
      is_empty p.default_credential_name ≡ false
      → is_key p.default_credential_name p.credentials ≡ true
  pub default_some :
      (name : Text) → is_key name p.credentials ≡ true → is_empty p.default_credential_name ≡ false
  pub no_empty : is_key [] p.credentials ≡ false

-- What is loaded of the file.
pub record IsSoundFile (file : IndexFile) : Type 0 where
  pub loaded : (p : IndexPayload) → load_index_from file ≡ ok p → IsSound p

Own-named :
    (f : Text → Text) (d : Text) (xs : List (Text × IndexEntry))
    → Own f xs
    → Own f (named_entries d xs)
unfolding named_entries
Own-named f d [] o = tt
Own-named f d (x ∷ xs) o = (o.0, Own-named f d xs o.1)

pub is_key-named :
    (d name : Text) (xs : List (Text × IndexEntry))
    → is_key name (named_entries d xs) ≡ is_key name xs
unfolding named_entries is_key
is_key-named d name [] = refl
is_key-named d name (x ∷ xs) = rw (is_key-named d name xs) refl

pub default_name_key :
    (d : Text) (xs : List (Text × IndexEntry))
    → (is_empty d ≡ false → is_key d xs ≡ true)
    → is_empty (default_name d xs) ≡ false
    → is_key (default_name d xs) xs ≡ true
unfolding default_name
default_name_key d xs k e = elim (Bool-cases (is_empty d && is_key (text "default") xs)) [
  | inl f ↦ rw f (ground arith)
  | inr f ↦ rw f (k (rw f at e))
]

pub default_name_some :
    (d : Text) (xs : List (Text × IndexEntry))
    → is_empty d ≡ false
    → is_empty (default_name d xs) ≡ false
unfolding default_name
default_name_some d xs e = ground arith

pub IsSound-normalize : (p : IndexPayload) → IsSound p → IsSound (normalize_index_payload p)
unfolding normalize_index_payload
IsSound-normalize p s = record {
  owner = s.owner;
  owned = Own-named s.owner _ p.credentials s.owned;
  default_key = λ e.
      is_key-named _ (default_name p.default_credential_name p.credentials) p.credentials
      ∙ default_name_key p.default_credential_name p.credentials s.default_key e;
  default_some = λ name e. default_name_some p.default_credential_name p.credentials (
      s.default_some name (
        sym (is_key-named (default_name p.default_credential_name p.credentials) name p.credentials)
        ∙ e));
  no_empty = is_key-named _ [] p.credentials ∙ s.no_empty;
}

pub load_value :
    (p q : IndexPayload) → load_index_from (payload p) ≡ ok q → normalize_index_payload p ≡ q
unfolding load_index_from
load_value p q e =
    elim (Bool-cases (
      not (p.schema_version == 0)
      && (not (p.schema_version == 2) && not (p.schema_version == 3)))) [
        | inl f ↦ absurd (err-ne-ok (rw f at e))
        | inr f ↦ ap (ok_or p) (rw f at e)
      ]

pub IsSoundFile-save : (p : IndexPayload) → IsSound p → IsSoundFile (save_index_to p)
unfolding save_index_to
IsSoundFile-save p s = record {
  loaded = λ q e.
      rw (sym (load_value (normalize_index_payload p) q e))
        (IsSound-normalize _ (IsSound-normalize p s));
}

-- The directory belongs to the DID.
abbrev pub assigned : (Text → Text) → Text → Text → Text → Text
assigned f dir did d = if same d dir then did else f d

pub assigned_of :
    (f : Text → Text) (dir did : Text) (x : IndexEntry)
    → f x.dir_name ≡ x.did
    → same x.dir_name dir && not (same x.did did) ≡ false
    → assigned f dir did x.dir_name ≡ x.did
assigned_of f dir did x o e = elim (Bool-cases (same x.dir_name dir)) [
  | inl g ↦ rw g (sym (eq_of_same x.did did (ground arith)))
  | inr g ↦ rw g o
]

Own-without :
    (f : Text → Text) (name dir did : Text) (xs : List (Text × IndexEntry))
    → uses_dir name dir did xs ≡ false
    → Own f xs
    → Own (assigned f dir did) (without_name name xs)
unfolding without_name uses_dir
Own-without f name dir did [] e o = tt
Own-without f name dir did (x ∷ xs) e o = elim (Bool-cases (same x.0 name)) [
  | inl g ↦ rw g (Own-without f name dir did xs (ground arith) o.1)
  | inr g ↦ rw g (
    assigned_of f dir did x.1 o.0 (ground arith),
    Own-without f name dir did xs (ground arith) o.1,
  )
]

is_key-without :
    (d name : Text) (xs : List (Text × IndexEntry))
    → same name d ≡ false
    → is_key d (without_name name xs) ≡ is_key d xs
unfolding without_name is_key
is_key-without d name [] e = refl
is_key-without d name (x ∷ xs) e = elim (Bool-cases (same x.0 name)) [
  | inl g ↦ rw g (is_key-without d name xs e ∙ sym (rw (eq_of_same x.0 name g, e) refl))
  | inr g ↦ rw g (rw (is_key-without d name xs e) refl)
]

is_key-put :
    (d name : Text) (entry : IndexEntry) (xs : List (Text × IndexEntry))
    → is_key d xs ≡ true
    → is_key d (put name entry xs) ≡ true
unfolding put is_key
is_key-put d name entry xs e = elim (Bool-cases (same name d)) [
  | inl f ↦ rw f refl
  | inr f ↦ rw (f, is_key-without d name xs f) e
]

same_empty : (s : Text) → is_empty s ≡ false → same s [] ≡ false
unfolding same
same_empty [] e = ground arith
same_empty (c ∷ s) e = refl

IsSound-put_saved :
    (created_at dir : Text) (handles : Text × Text) (input : SaveInput) (p : IndexPayload)
    → is_empty input.identity_name ≡ false
    → uses_dir input.identity_name dir input.did p.credentials ≡ false
    → IsSound p
    → IsSound (put_saved created_at dir handles input p)
unfolding put_saved
IsSound-put_saved created_at dir handles input p n e s = record {
  owner = assigned s.owner dir input.did;
  owned =
      unfold put in
      (
        rw (same_refl dir) refl,
        Own-without s.owner input.identity_name dir input.did p.credentials e s.owned,
      );
  default_key = λ d. elim (Bool-cases (is_empty p.default_credential_name)) [
    | inl f ↦ rw f (unfold put is_key in rw (same_refl input.identity_name) refl)
    | inr f ↦
        rw f (
          is_key-put p.default_credential_name input.identity_name _ p.credentials
            (s.default_key f))
  ];
  default_some = λ name k. ground (arith, n);
  no_empty =
      unfold put is_key in
      rw
        (
          same_empty input.identity_name n,
          is_key-without [] input.identity_name p.credentials (same_empty input.identity_name n),
        )
        s.no_empty;
}

pub is_empty_of_blank : (s : Text) → is_blank s ≡ false → is_empty s ≡ false
unfolding is_blank trim_space trim_left trim_right
is_empty_of_blank [] e = ground arith
is_empty_of_blank (c ∷ s) e = refl

module _ (wide : ℕ → ℕ) (unescape : Text → Option Text) where
  -- A save that succeeds keeps these of an index: each directory holds the identity of one DID, the
  -- default identity is there, there is one where there are identities, and no name is empty.
  pub save-IsSoundFile :
      (created_at : Text) (input : SaveInput) (file out : IndexFile)
      → IsSoundFile file
      → save wide unescape created_at input file ≡ ok out
      → IsSoundFile out
  unfolding save
  save-IsSoundFile created_at input file out k e =
      elim (Bool-cases (is_blank input.identity_name)) [
        | inl f ↦ absurd (err-ne-ok (rw f at e))
        | inr f ↦ elim (Bool-cases (is_blank input.did || is_blank input.unique_id)) [
          | inl g ↦ absurd (err-ne-ok (rw (f, g) at e))
          | inr g ↦ elim (Result-cases (load_index_from file)) [
            | inr (x, h) ↦ absurd (err-ne-ok (rw (f, g, h) at e))
            | inl (p, h) ↦
                elim (Bool-cases (
                  is_taken input.did input.replace_existing
                    (lookup input.identity_name p.credentials))) [
                      | inl t ↦ absurd (err-ne-ok (rw (f, g, h, t) at e))
                      | inr t ↦ elim (Result-cases (preferred_dir_name input.unique_id)) [
                        | inr (x, d) ↦ absurd (err-ne-ok (rw (f, g, h, t, d) at e))
                        | inl (dir, d) ↦
                            elim (Bool-cases
                              (uses_dir input.identity_name dir input.did p.credentials)) [
                                | inl u ↦ absurd (err-ne-ok (rw (f, g, h, t, d, u) at e))
                                | inr u ↦ rw (sym (ap (ok_or out) (rw (f, g, h, t, d, u) at e))) (
                                    IsSoundFile-save _ (
                                      IsSound-put_saved created_at dir _ input p
                                        (is_empty_of_blank _ f) u (k.loaded p h)))
                              ]
                      ]
                    ]
          ]
        ]
      ]
