-- ===== src/Identity/Handle/Trip.antt =====
-- internal/identity/handle_input.go: a handle in normal form is given back by normalising, however it is typed.
use awiki_cli.Base.{ℕ, ◌≡◌, refl, sym, ap, ◌∙◌, Bool, true, false, [], ◌∷◌, ◌++◌, none, arith, ok}
use awiki_cli.Text.{
  Text, text, trim_space, has_prefix, cut, is_empty, is_blank, to_lower, is_space, lower,
}
use awiki_cli.Text.Split.{Free}
use awiki_cli.Text.Trim.{HeadOk, LastOk, trim_space-HeadOk, trim_space-LastOk, trim_space_of_ends}
use awiki_cli.Identity.Handle.{
  NormalizedHandle, trim_prefix, trim_dot, normalize_handle_domain, full_input, bare_input,
  normalize_handle_input,
}
use awiki_cli.Identity.Handle.Laws.{cut-append}

-- The parts of a handle in normal form: in lower case, with no space at the ends, a local part with
-- no dot that is neither a DID nor a wba link, and a domain with no dot at its end.
pub record IsNormal (wide : ℕ → ℕ) (l d : Text) : Type 0 where
  pub local_lower : to_lower wide l ≡ l
  pub local_trim : trim_space l ≡ l
  pub local_free : Free b'.' l
  pub local_some : is_empty l ≡ false
  pub no_did : has_prefix l (text "did:") ≡ false
  pub no_wba : has_prefix l (text "wba://") ≡ false
  pub domain_lower : to_lower wide d ≡ d
  pub domain_trim : trim_space d ≡ d
  pub domain_dot : trim_dot d ≡ d
  pub domain_some : is_empty d ≡ false

lower-append :
    (wide : ℕ → ℕ) (s t : Text) → to_lower wide (s ++ t) ≡ to_lower wide s ++ to_lower wide t
unfolding to_lower
lower-append wide [] t = refl
lower-append wide (c ∷ s) t = ap (λ (r : Text). lower wide c ∷ r) (lower-append wide s t)

HeadOk-append : (s t : Text) → is_empty s ≡ false → HeadOk s → HeadOk (s ++ t)
HeadOk-append [] t e h = absurd (ground arith)
HeadOk-append (c ∷ s) t e h = h

LastOk-append : (s t : Text) → is_empty t ≡ false → LastOk t → LastOk (s ++ t)
LastOk-append [] t e h = h
LastOk-append (c ∷ []) [] e h = absurd (ground arith)
LastOk-append (c ∷ []) (d ∷ t) e h = h
LastOk-append (c ∷ b ∷ s) t e h = LastOk-append (b ∷ s) t e h

-- A prefix with no dot ends before the dot.
prefix-append : (s t p : Text) → Free b'.' p → has_prefix (s ++ (b'.' ∷ t)) p ≡ has_prefix s p
unfolding has_prefix
prefix-append [] t [] f = refl
prefix-append [] t (c ∷ p) f = ground (arith, f.0)
prefix-append (c ∷ s) t [] f = refl
prefix-append (c ∷ s) t (d ∷ p) f = ground (arith, prefix-append s t p f.1)

trim_prefix_none : (s p : Text) → has_prefix s p ≡ false → trim_prefix s p ≡ s
unfolding has_prefix trim_prefix
trim_prefix_none s [] e = refl
trim_prefix_none [] (d ∷ p) e = refl
trim_prefix_none (c ∷ s) (d ∷ p) e = rw e refl

trim_prefix_nil : (s : Text) → trim_prefix s [] ≡ s
unfolding trim_prefix
trim_prefix_nil [] = refl
trim_prefix_nil (c ∷ s) = refl

prefix_refl : (p s : Text) → has_prefix (p ++ s) p ≡ true
unfolding has_prefix
prefix_refl [] [] = refl
prefix_refl [] (c ∷ s) = refl
prefix_refl (c ∷ p) s = ground (arith, prefix_refl p s)

trim_prefix-append : (p s : Text) → trim_prefix (p ++ s) p ≡ s
unfolding trim_prefix
trim_prefix-append [] s = trim_prefix_nil s
trim_prefix-append (c ∷ p) s = ground (arith, prefix_refl p s, trim_prefix-append p s)

cut-none_of_Free : (sep : ℕ) (s : Text) → Free sep s → cut sep s ≡ none
unfolding cut
cut-none_of_Free sep [] f = refl
cut-none_of_Free sep (c ∷ s) f = rw (cut-none_of_Free sep s f.1) (ground (arith, f.0))

is_empty-append : (l d : Text) → is_empty (l ++ (b'.' ∷ d)) ≡ false
is_empty-append [] d = refl
is_empty-append (c ∷ l) d = refl

module _ {wide : ℕ → ℕ} {l d : Text} (n : IsNormal wide l d) where
  -- The full handle.
  abbrev pub full : Text
  full = l ++ (b'.' ∷ d)

  HeadOk-local : HeadOk l
  HeadOk-local = rw (sym n.local_trim) (trim_space-HeadOk l)

  LastOk-domain : LastOk (b'.' ∷ d)
  LastOk-domain =
      LastOk-append (b'.' ∷ []) d n.domain_some (rw (sym n.domain_trim) (trim_space-LastOk d))

  full_trim : trim_space full ≡ full
  full_trim =
      trim_space_of_ends _ (HeadOk-append l _ n.local_some HeadOk-local)
        (LastOk-append l (b'.' ∷ d) refl LastOk-domain)

  dot_lower : to_lower wide (b'.' ∷ d) ≡ b'.' ∷ d
  dot_lower = unfold to_lower in ap (λ (r : Text). b'.' ∷ r) n.domain_lower

  full_lower : to_lower wide full ≡ full
  full_lower = lower-append wide l (b'.' ∷ d) ∙ (rw (n.local_lower, dot_lower) refl)

  -- The normal form, from a typed domain or from the default one.
  abbrev pub normal : Bool → NormalizedHandle
  normal e = record {
    local_part = l;
    full_handle = full;
    effective_domain = d;
    explicit_domain = e;
  }

  domain_value : (raw : Text) → to_lower wide raw ≡ d → normalize_handle_domain wide raw ≡ d
  unfolding normalize_handle_domain
  domain_value raw e = rw (e, n.domain_trim, n.domain_dot) refl

  parse_full : full_input wide l d ≡ ok (normal true)
  unfolding full_input
  parse_full = rw (n.local_trim, domain_value d n.domain_lower, n.local_some, n.domain_some) refl

  full_some : is_empty full ≡ false
  full_some = is_empty-append l d

  typed_full : (dd : Text) → normalize_handle_input wide full dd ≡ ok (normal true)
  unfolding normalize_handle_input is_blank
  typed_full dd =
      rw
        (
          full_trim,
          full_lower,
          full_some,
          prefix-append l d (text "did:") (ground arith),
          n.no_did,
          trim_prefix_none full (text "wba://")
              (prefix-append l d (text "wba://") (ground arith) ∙ n.no_wba),
          full_some,
          cut-append b'.' l d n.local_free,
        )
        parse_full

  -- The full handle as a link.
  abbrev pub link : Text
  link = text "wba://" ++ full

  link_trim : trim_space link ≡ link
  link_trim =
      trim_space_of_ends _ (unfold is_space in refl)
        (LastOk-append (text "wba://") full full_some (rw (sym full_trim) (trim_space-LastOk full)))

  link_lower : to_lower wide link ≡ link
  link_lower = lower-append wide (text "wba://") full ∙ (unfold to_lower in rw full_lower refl)

  typed_link : (dd : Text) → normalize_handle_input wide link dd ≡ ok (normal true)
  unfolding normalize_handle_input is_blank
  typed_link dd =
      rw
        (
          link_trim,
          link_lower,
          trim_prefix-append (text "wba://") full,
          full_some,
          cut-append b'.' l d n.local_free,
        )
        (unfold has_prefix in parse_full)

  typed_bare :
      (dd : Text)
      → normalize_handle_domain wide dd ≡ d
      → normalize_handle_input wide l dd ≡ ok (normal false)
  unfolding normalize_handle_input is_blank bare_input
  typed_bare dd e =
      rw
        (
          n.local_trim,
          n.local_lower,
          n.local_some,
          n.no_did,
          trim_prefix_none l (text "wba://") n.no_wba,
          n.local_some,
          cut-none_of_Free b'.' l n.local_free,
          e,
          n.domain_some,
        )
        (rw (n.local_trim, n.local_lower, trim_prefix_none l (text "wba://") n.no_wba) refl)

  -- A handle in normal form is given back when it is typed with its domain, as a link, or without
  -- its domain where that is the default one.
  pub normalize_handle_input-back :
      (dd other : Text)
      → normalize_handle_domain wide dd ≡ d
      → (normalize_handle_input wide l dd ≡ ok (normal false))
        × (normalize_handle_input wide full other ≡ ok (normal true))
        × (normalize_handle_input wide link other ≡ ok (normal true))
  normalize_handle_input-back dd other e = (typed_bare dd e, typed_full other, typed_link other)
