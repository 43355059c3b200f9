-- ===== src/Store/Owners.antt =====
-- normalizeRecoverOwnerDIDs: which owners the merge reads.
use awiki_cli.Base.{
  ◌≡◌, refl, Bool, true, false, not, ◌&&◌, ◌||◌, List, sym, ◌∙◌, ap, [], ◌∷◌, arith, if◌then◌else◌,
}
use awiki_cli.Text.{Text, same, trim_space, is_empty}
use awiki_cli.Text.Order.{eq_of_same}
use awiki_cli.Store.{is_in, owners_from, normalize_recover_owner_dids}

-- No name occurs twice, or is one of `seen`.
unfoldable pub is_distinct : List Text → List Text → Bool
is_distinct seen [] = true
is_distinct seen (x ∷ xs) = not (is_in x seen) && is_distinct (x ∷ seen) xs

-- Whether the name is the trimmed form of one of the given.
unfoldable pub is_given : List Text → Text → Bool
is_given [] o = false
is_given (p ∷ ps) o = same (trim_space p) o || is_given ps o

-- The independent description: whether an owner is to be merged.
unfoldable pub is_wanted : Text → List Text → Text → Bool
is_wanted new_owner given o = is_given given o && (not (is_empty o) && not (same o new_owner))

owners_from-is_distinct :
    (seen : List Text) (w : Text) (os : List Text) → is_distinct seen (owners_from seen w os) ≡ true
unfolding owners_from is_distinct
owners_from-is_distinct seen w [] = refl
owners_from-is_distinct seen w (o ∷ os) =
    ground
      (arith, owners_from-is_distinct seen w os, owners_from-is_distinct (trim_space o ∷ seen) w os)

-- The names of one round of the loop.
is_in_round :
    (skip known : Bool) (p o : Text) (rest taken : List Text)
    → is_in o (if skip then rest else if known then rest else p ∷ taken)
      ≡ (if skip then is_in o rest else if known then is_in o rest else (same p o || is_in o taken))
unfolding is_in
is_in_round true known p o rest taken = refl
is_in_round false true p o rest taken = refl
is_in_round false false p o rest taken = refl

-- The loop takes a name in the round that meets it first.
round :
    (blank own known hit given fine left : Bool)
    → (hit ≡ true → (fine ≡ (not blank && not own)) × (known ≡ left))
    → (if blank || own
        then ((given && fine) && not left)
        else if known
        then ((given && fine) && not left)
        else (hit || ((given && fine) && not (hit || left))))
      ≡ (((hit || given) && fine) && not left)
round blank own known hit given fine left h = ground arith

round_facts :
    (seen : List Text) (w p o : Text)
    → same p o ≡ true
    → ((not (is_empty o) && not (same o w)) ≡ (not (is_empty p) && not (same p w)))
      × (is_in p seen ≡ is_in o seen)
round_facts seen w p o e =
    let q = eq_of_same p o e in
    (ap (λ x. not (is_empty x) && not (same x w)) (sym q), ap (λ x. is_in x seen) q)

owners_from_cons :
    (seen : List Text) (w : Text) (os : List Text) (p o : Text)
    → is_in o (owners_from seen w os) ≡ (is_wanted w os o && not (is_in o seen))
    → is_in o (owners_from (trim_space p ∷ seen) w os)
      ≡ (is_wanted w os o && not (is_in o (trim_space p ∷ seen)))
    → is_in o (owners_from seen w (p ∷ os)) ≡ (is_wanted w (p ∷ os) o && not (is_in o seen))
unfolding owners_from is_wanted is_given
owners_from_cons seen w os p o hr ht =
    is_in_round (is_empty (trim_space p) || same (trim_space p) w) (is_in (trim_space p) seen)
      (trim_space p) o (owners_from seen w os) (owners_from (trim_space p ∷ seen) w os)
    ∙ rw (hr, ht) (unfold is_in in round _ _ _ _ _ _ _ (round_facts seen w (trim_space p) o))

owners_from-is_wanted :
    (seen : List Text) (w : Text) (os : List Text) (o : Text)
    → is_in o (owners_from seen w os) ≡ (is_wanted w os o && not (is_in o seen))
owners_from-is_wanted seen w [] o = unfold owners_from is_in is_wanted is_given in refl
owners_from-is_wanted seen w (p ∷ os) o =
    owners_from_cons seen w os p o (owners_from-is_wanted seen w os o)
      (owners_from-is_wanted (trim_space p ∷ seen) w os o)

-- The owners to merge have no repetition, and a name is among them exactly when it is the trimmed
-- form of one that was given, is not empty, and is not the new owner's.
pub normalize_recover_owner_dids_lem :
    (w : Text) (os : List Text) (o : Text)
    → (is_distinct [] (normalize_recover_owner_dids os w) ≡ true)
      × (is_in o (normalize_recover_owner_dids os w) ≡ is_wanted (trim_space w) os o)
unfolding normalize_recover_owner_dids
normalize_recover_owner_dids_lem w os o = (
  owners_from-is_distinct [] (trim_space w) os,
  unfold is_in in ground (arith, owners_from-is_wanted [] (trim_space w) os o),
)
