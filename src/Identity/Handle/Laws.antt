-- ===== src/Identity/Handle/Laws.antt =====
-- internal/identity/handle_input.go: what a normalised handle is, and that normalising gives it back.
use awiki_cli.Base.{
  ℕ, ◌≡◌, ◌≢◌, refl, sym, ap, ◌∙◌, Bool, true, false, ◌||◌, [], ◌∷◌, ◌++◌, Option, none, some, ◌==◌,
  arith, ok, ok_or, err-ne-ok, Bool-cases, Option-cases, inl, inr,
}
use awiki_cli.Text.{
  Text, text, trim_space, trim_left, trim_right, has_prefix, cut, is_empty, is_blank, to_lower,
  is_space,
}
use awiki_cli.Text.Split.{Free}
use awiki_cli.Text.Trim.{snoc_trim, trim_right_cons}
use awiki_cli.Identity.Handle.{
  NormalizedHandle, trim_prefix, normalize_handle_domain, full_input, bare_input,
  normalize_handle_input,
}

pub cut-append : (sep : ℕ) (s t : Text) → Free sep s → cut sep (s ++ (sep ∷ t)) ≡ some (s, t)
unfolding cut
cut-append sep [] t f = ground arith
cut-append sep (c ∷ s) t f = rw (cut-append sep s t f.1) (ground (arith, f.0))

cut_here : (sep c : ℕ) (s : Text) → (c == sep) ≡ true → cut sep (c ∷ s) ≡ some ([], s)
unfolding cut
cut_here sep c s e = rw e refl

cut_past :
    (sep c : ℕ) (s b a : Text)
    → (c == sep) ≡ false
    → cut sep s ≡ some (b, a)
    → cut sep (c ∷ s) ≡ some (c ∷ b, a)
unfolding cut
cut_past sep c s b a e f = rw (e, f) refl

Free-cut-none : (sep : ℕ) (s : Text) → cut sep s ≡ none → Free sep s
unfolding cut
Free-cut-none sep [] e = tt
Free-cut-none sep (c ∷ s) e = elim (Bool-cases (c == sep)) [
  | inl f ↦ absurd (ground (arith, cut_here sep c s f))
  | inr f ↦ elim (Option-cases (cut sep s)) [
    | inl g ↦ (ground arith, Free-cut-none sep s g)
    | inr ((b, a), g) ↦ absurd (ground (arith, cut_past sep c s b a f g))
  ]
]

-- The text before the code point.
before : Option (Text × Text) → Text
before none = []
before (some p) = p.0

before_of : (b a p r : Text) → ◌≡◌ {A = Option (Text × Text)} (some (b, a)) (some (p, r)) → b ≡ p
unfolding before
before_of b a p r e = ap before e

Free-cut : (sep : ℕ) (s b a : Text) → cut sep s ≡ some (b, a) → Free sep b
unfolding cut
Free-cut sep [] b a e = absurd (ground arith)
Free-cut sep (c ∷ s) b a e = elim (Bool-cases (c == sep)) [
  | inl f ↦ let q : [] ≡ b = before_of [] s b a (sym (cut_here sep c s f) ∙ e) in rw (sym q) tt
  | inr f ↦ elim (Option-cases (cut sep s)) [
    | inl g ↦ absurd (ground (arith, rw (f, g) at e))
    | inr ((p, r), g) ↦
        let q : c ∷ p ≡ b = before_of (c ∷ p) r b a (sym (cut_past sep c s p r f g) ∙ e) in
        rw (sym q) (ground arith, Free-cut sep s p r g)
  ]
]

Free-trim_left : (sep : ℕ) (s : Text) → Free sep s → Free sep (trim_left s)
unfolding trim_left
Free-trim_left sep [] f = tt
Free-trim_left sep (c ∷ s) f = elim (Bool-cases (is_space c)) [
  | inl e ↦ rw e (Free-trim_left sep s f.1)
  | inr e ↦ rw e f
]

Free-snoc_trim : (sep c : ℕ) (s : Text) → c ≢ sep → Free sep s → Free sep (snoc_trim c s)
unfolding snoc_trim
Free-snoc_trim sep c [] e f = elim (Bool-cases (is_space c)) [
  | inl g ↦ rw g tt
  | inr g ↦ rw g (e, tt)
]
Free-snoc_trim sep c (d ∷ r) e f = (e, f)

Free-trim_right : (sep : ℕ) (s : Text) → Free sep s → Free sep (trim_right s)
Free-trim_right sep [] f = unfold trim_right in tt
Free-trim_right sep (c ∷ s) f =
    rw (trim_right_cons c s) (Free-snoc_trim sep c (trim_right s) f.0 (Free-trim_right sep s f.1))

-- The parts of a normalised handle: neither is empty, and the full handle is the local part, which has
-- no dot, then the first dot and the domain.
pub record IsHandle (n : NormalizedHandle) : Type 0 where
  pub has_local : is_empty n.local_part ≡ false
  pub has_domain : is_empty n.effective_domain ≡ false
  pub is_full : n.full_handle ≡ n.local_part ++ (b'.' ∷ n.effective_domain)
  pub is_cut : cut b'.' n.full_handle ≡ some (n.local_part, n.effective_domain)

Free-trim_space : (sep : ℕ) (s : Text) → Free sep s → Free sep (trim_space s)
unfolding trim_space
Free-trim_space sep s f = Free-trim_right sep (trim_left s) (Free-trim_left sep s f)

module _ (wide : ℕ → ℕ) where
  IsHandle-of :
      (l d : Text) (e : Bool)
      → Free b'.' l
      → is_empty l ≡ false
      → is_empty d ≡ false
      → IsHandle (record {
        local_part = l;
        full_handle = l ++ (b'.' ∷ d);
        effective_domain = d;
        explicit_domain = e;
      })
  IsHandle-of l d e f p q = record {
    has_local = p;
    has_domain = q;
    is_full = refl;
    is_cut = cut-append b'.' l d f;
  }

  full_input-IsHandle :
      (b a : Text) (n : NormalizedHandle) → Free b'.' b → full_input wide b a ≡ ok n → IsHandle n
  unfolding full_input
  full_input-IsHandle b a n f e =
      elim (Bool-cases (is_empty (trim_space b) || is_empty (normalize_handle_domain wide a))) [
        | inl g ↦ absurd (err-ne-ok (rw g at e))
        | inr g ↦ rw (ap (ok_or n) (sym (rw g at e))) (
            IsHandle-of (trim_space b) _ true (Free-trim_space b'.' b f) (ground arith)
              (ground arith))
      ]

  bare_input-IsHandle :
      (h d : Text) (n : NormalizedHandle)
      → Free b'.' h
      → is_empty h ≡ false
      → bare_input wide h d ≡ ok n
      → IsHandle n
  unfolding bare_input
  bare_input-IsHandle h d n f p e = elim (Bool-cases (is_empty (normalize_handle_domain wide d))) [
    | inl g ↦ absurd (err-ne-ok (rw g at e))
    | inr g ↦ rw (ap (ok_or n) (sym (rw g at e))) (IsHandle-of h _ false f p g)
  ]

  -- A handle that is accepted has a local part and a domain that are not empty, and its full handle is
  -- the two with a dot between, the first one of it.
  pub normalize_handle_input-IsHandle :
      (raw d : Text) (n : NormalizedHandle) → normalize_handle_input wide raw d ≡ ok n → IsHandle n
  unfolding normalize_handle_input
  normalize_handle_input-IsHandle raw d n e = elim (Bool-cases (is_blank raw)) [
    | inl f ↦ absurd (err-ne-ok (rw f at e))
    | inr f ↦ elim (Bool-cases (has_prefix (to_lower wide (trim_space raw)) (text "did:"))) [
      | inl g ↦ absurd (err-ne-ok (rw (f, g) at e))
      | inr g ↦
          elim (Bool-cases
            (is_empty (trim_prefix (to_lower wide (trim_space raw)) (text "wba://")))) [
              | inl h ↦ absurd (err-ne-ok (rw (f, g, h) at e))
              | inr h ↦
                  elim (Option-cases
                    (cut b'.' (trim_prefix (to_lower wide (trim_space raw)) (text "wba://")))) [
                      | inl c ↦
                          bare_input-IsHandle _ d n (Free-cut-none b'.' _ c) h
                            (rw (f, g, h, c) at e)
                      | inr ((b, a), c) ↦
                          full_input-IsHandle b a n (Free-cut b'.' _ b a c) (rw (f, g, h, c) at e)
                    ]
            ]
    ]
  ]
