-- ===== src/Text/Split.antt =====
-- Splitting at a code point and joining again.
use awiki_cli.Base.{
  all, not, true, ℕ, ◌≡◌, refl, ◌≢◌, List, [], ◌∷◌, ◌++◌, arith, ap, sym, Bool-cases, inl, inr, ◌∙◌,
  if◌then◌else◌, ◌==◌, ==_iff, All,
}
use awiki_cli.Text.{Text, split, join}

-- The code point does not occur.
abbrev pub Free : ℕ → Text → Type 0
Free sep [] = Unit
Free sep (c ∷ s) = (c ≢ sep) × Free sep s

pub Free-of_all : (sep : ℕ) (s : Text) → all (λ c. not (c == sep)) s ≡ true → Free sep s
Free-of_all sep [] h = tt
Free-of_all sep (c ∷ s) h = (λ e. ground arith, Free-of_all sep s (ground arith))

-- What `split` makes of the parts of the tail.
step : ℕ → ℕ → List Text → List Text
step sep c [] = []
step sep c (part ∷ parts) = if c == sep then [] ∷ part ∷ parts else (c ∷ part) ∷ parts

split_cons : (sep c : ℕ) (s : Text) → split sep (c ∷ s) ≡ step sep c (split sep s)
unfolding split step
split_cons sep c s = ground arith

step_ne_nil : (sep c : ℕ) (ps : List Text) → ps ≢ [] → step sep c ps ≢ []
unfolding step
step_ne_nil sep c [] h e = h refl
step_ne_nil sep c (p ∷ ps) h e = ground arith

pub split-ne-nil : (sep : ℕ) (s : Text) → split sep s ≢ []
split-ne-nil sep [] e = unfold split in cc
split-ne-nil sep (c ∷ s) e =
    step_ne_nil sep c (split sep s) (split-ne-nil sep s) (sym (split_cons sep c s) ∙ e)

join-step : (sep c : ℕ) (ps : List Text) → ps ≢ [] → join sep (step sep c ps) ≡ c ∷ join sep ps
unfolding step join
join-step sep c [] h = absurd (h refl)
join-step sep c (p ∷ []) h = ground (arith, ==_iff c sep)
join-step sep c (p ∷ q ∷ ps) h = ground (arith, ==_iff c sep)

-- Joining the parts gives the text back.
pub join-split : (sep : ℕ) (s : Text) → join sep (split sep s) ≡ s
join-split sep [] = unfold join split in refl
join-split sep (c ∷ s) =
    ap (join sep) (split_cons sep c s)
    ∙ join-step sep c (split sep s) (split-ne-nil sep s)
    ∙ ap (λ r. c ∷ r) (join-split sep s)

step-Free : (sep c : ℕ) (ps : List Text) → All (Free sep) ps → All (Free sep) (step sep c ps)
unfolding step
step-Free sep c [] h = tt
step-Free sep c (p ∷ ps) h = elim (Bool-cases (c == sep)) [
  | inl e ↦ rw e (tt, h)
  | inr e ↦ rw e ((ground arith, h.0), h.1)
]

-- No part holds the separator.
pub split-Free : (sep : ℕ) (s : Text) → All (Free sep) (split sep s)
split-Free sep [] = unfold split in (tt, tt)
split-Free sep (c ∷ s) = rw split_cons (step-Free sep c (split sep s) (split-Free sep s))

pub split_of_Free : (sep : ℕ) (s : Text) → Free sep s → split sep s ≡ s ∷ []
split_of_Free sep [] h = unfold split in refl
split_of_Free sep (c ∷ s) h =
    split_cons sep c s ∙ ap (step sep c) (split_of_Free sep s h.1) ∙ (unfold step in ground arith)

step_sep : (sep : ℕ) (ps : List Text) → ps ≢ [] → step sep sep ps ≡ [] ∷ ps
unfolding step
step_sep sep [] h = absurd (h refl)
step_sep sep (p ∷ ps) h = ground arith

step_ne : (sep c : ℕ) (p : Text) (ps : List Text) → c ≢ sep → step sep c (p ∷ ps) ≡ (c ∷ p) ∷ ps
unfolding step
step_ne sep c p ps h = ground arith

-- A part without the separator comes back as it was.
pub split-append :
    (sep : ℕ) (p r : Text) → Free sep p → split sep (p ++ (sep ∷ r)) ≡ p ∷ split sep r
split-append sep [] r h = split_cons sep sep r ∙ step_sep sep (split sep r) (split-ne-nil sep r)
split-append sep (c ∷ p) r h =
    split_cons sep c (p ++ (sep ∷ r))
    ∙ ap (step sep c) (split-append sep p r h.1)
    ∙ step_ne sep c p (split sep r) h.0
