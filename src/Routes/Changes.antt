-- ===== src/Routes/Changes.antt =====
-- Adding and removing a route, under each way that the write of the file may go.
use awiki_cli.Base.{
  ℕ, ◌≡◌, refl, true, false, not, List, [], ◌∷◌, ◌++◌, ap, Result, ok, err, if◌then◌else◌,
  Bool-cases, ◌⊎◌, inl, inr,
}
use awiki_cli.Text.Lower.{IsCase}
use awiki_cli.Routes.{
  Route, RouteError, RegistryFile, WriteFault, fine, fails, create_temp, write_temp, sync_temp,
  close_temp, change_mode, rename, sync_directory, replace, has_key, is_listed, without,
  normalize_route, load_routes, write_routes, add_to, remove_from, add_route, remove_route,
  registry, written,
}
use awiki_cli.Routes.Laws.{
  IsNormal, IsCanonical, normalize_from_of_canonical, IsCanonical-snoc, IsCanonical-without,
  listed_snoc, listed_without, normalize_route_idem, load_routes-IsCanonical,
}

-- The list with the route, and the list without it.
abbrev pub with_route : Route → List Route → List Route
with_route r rs = if is_listed r rs then rs else rs ++ (r ∷ [])

abbrev pub without_route : Route → List Route → List Route
without_route r rs = if is_listed r rs then without r rs else rs

with_route-is_listed : (r : Route) (rs : List Route) → is_listed r (with_route r rs) ≡ true
with_route-is_listed r rs = elim (Bool-cases (is_listed r rs)) [
  | inl e ↦ rw e e
  | inr e ↦ rw e (listed_snoc r rs)
]

without_route-is_listed : (r : Route) (rs : List Route) → is_listed r (without_route r rs) ≡ false
without_route-is_listed r rs = elim (Bool-cases (is_listed r rs)) [
  | inl e ↦ rw e (listed_without r rs)
  | inr e ↦ rw e e
]

module _ (wide : ℕ → ℕ) where
  -- The registry file holds the routes, up to its normal form.
  abbrev pub Loads : RegistryFile → List Route → Type 0
  Loads file rs = load_routes wide file ≡ ok rs

  write_fine :
      (rs : List Route) (file : RegistryFile)
      → IsCanonical wide [] rs
      → write_routes wide fine rs file ≡ (ok tt, registry rs)
  unfolding write_routes replace
  write_fine rs file c = rw (normalize_from_of_canonical wide [] rs c) refl

  written_fine :
      (r : Route) (rs : List Route) (file : RegistryFile)
      → IsCanonical wide [] rs
      → written r rs (write_routes wide fine rs file) ≡ (ok (r, true, rs), registry rs)
  written_fine r rs file c = ap (written r rs) (write_fine rs file c)

  add_to_fine :
      (r : Route) (rs : List Route) (file : RegistryFile)
      → IsCanonical wide [] rs
      → IsNormal wide r
      → Loads file rs
      → ((add_to wide fine r rs file).0 ≡ ok (r, not (is_listed r rs), with_route r rs))
        × Loads (add_to wide fine r rs file).1 (with_route r rs)
  unfolding add_to load_routes has_key
  add_to_fine r rs file c n l = elim (Bool-cases (is_listed r rs)) [
    | inl e ↦ rw e (refl, l)
    | inr e ↦
        let d = IsCanonical-snoc wide [] rs r c n refl e in
        rw (e, written_fine r (rs ++ (r ∷ [])) file d)
          (refl, normalize_from_of_canonical wide [] _ d)
  ]

  remove_from_fine :
      (r : Route) (rs : List Route) (file : RegistryFile)
      → IsCanonical wide [] rs
      → Loads file rs
      → ((remove_from wide fine r rs file).0 ≡ ok (r, is_listed r rs, without_route r rs))
        × Loads (remove_from wide fine r rs file).1 (without_route r rs)
  unfolding remove_from load_routes
  remove_from_fine r rs file c l = elim (Bool-cases (is_listed r rs)) [
    | inl e ↦
        let d = IsCanonical-without wide [] r rs c in
        rw (e, written_fine r (without r rs) file d) (refl, normalize_from_of_canonical wide [] _ d)
    | inr e ↦ rw e (refl, l)
  ]

  again :
      (r item : Route) (rs : List Route) (file : RegistryFile) (fault : WriteFault)
      → normalize_route wide r ≡ ok item
      → Loads file rs
      → is_listed item rs ≡ true
      → add_route wide fault r file ≡ (ok (item, false, rs), file)
  unfolding add_route add_to
  again r item rs file fault n l e = rw (n, l, e) refl

module _ {wide : ℕ → ℕ} (case : IsCase wide) where
  -- A route with a normal form is added to a registry that loads, unless it is there, if the write
  -- goes well; a load of the registry afterwards gives the list that was returned, in which the
  -- route is.
  pub add_route_lem :
      (r item : Route) (rs : List Route) (file : RegistryFile)
      → normalize_route wide r ≡ ok item
      → Loads wide file rs
      → ((add_route wide fine r file).0 ≡ ok (item, not (is_listed item rs), with_route item rs))
        × Loads wide (add_route wide fine r file).1 (with_route item rs)
        × (is_listed item (with_route item rs) ≡ true)
  unfolding add_route
  add_route_lem r item rs file n l =
      let h =
        add_to_fine wide item rs file (load_routes-IsCanonical case file rs l)
          (normalize_route_idem case r item n) l in
      rw (n, l) (h.0, h.1, with_route-is_listed item rs)

  -- A route with a normal form is taken out of a registry that loads, if it is there and the write
  -- goes well; a load of the registry afterwards gives the list that was returned, in which the
  -- route is not.
  pub remove_route_lem :
      (r item : Route) (rs : List Route) (file : RegistryFile)
      → normalize_route wide r ≡ ok item
      → Loads wide file rs
      → ((remove_route wide fine r file).0 ≡ ok (item, is_listed item rs, without_route item rs))
        × Loads wide (remove_route wide fine r file).1 (without_route item rs)
        × (is_listed item (without_route item rs) ≡ false)
  unfolding remove_route
  remove_route_lem r item rs file n l =
      let h = remove_from_fine wide item rs file (load_routes-IsCanonical case file rs l) l in
      rw (n, l) (h.0, h.1, without_route-is_listed item rs)

  -- Adding a route with a normal form a second time, after an addition whose write went well to a
  -- registry that loads, finds it there and leaves the file alone.
  pub add_route_twice :
      (r item : Route) (rs : List Route) (file : RegistryFile) (fault : WriteFault)
      → normalize_route wide r ≡ ok item
      → Loads wide file rs
      → add_route wide fault r (add_route wide fine r file).1
        ≡ (ok (item, false, with_route item rs), (add_route wide fine r file).1)
  add_route_twice r item rs file fault n l =
      let h = add_route_lem r item rs file n l in
      again wide r item (with_route item rs) (add_route wide fine r file).1 fault n h.1 h.2

-- The file after a write is the one before, or holds the list, whichever call fails.
replace_either :
    (fault : WriteFault) (rs : List Route) (file : RegistryFile)
    → ((replace fault rs file).1 ≡ file) ⊎ ((replace fault rs file).1 ≡ registry rs)
unfolding replace
replace_either fine rs file = inr refl
replace_either (fails create_temp) rs file = inl refl
replace_either (fails write_temp) rs file = inl refl
replace_either (fails sync_temp) rs file = inl refl
replace_either (fails close_temp) rs file = inl refl
replace_either (fails change_mode) rs file = inl refl
replace_either (fails rename) rs file = inl refl
replace_either (fails sync_directory) rs file = inr refl

written-file :
    (r : Route) (rs : List Route) (out : Result RouteError (Unit {0}) × RegistryFile)
    → (written r rs out).1 ≡ out.1
written-file r rs (ok x, file) = refl
written-file r rs (err e, file) = refl

module _ (wide : ℕ → ℕ) (fault : WriteFault) where
  -- The registry holds the one list or the other.
  abbrev pub LoadsEither : RegistryFile → List Route → List Route → Type 0
  LoadsEither file rs ss = Loads wide file rs ⊎ Loads wide file ss

  write_either :
      (r : Route) (rs ss : List Route) (file : RegistryFile)
      → IsCanonical wide [] ss
      → Loads wide file rs
      → LoadsEither (written r ss (write_routes wide fault ss file)).1 rs ss
  unfolding write_routes load_routes
  write_either r rs ss file c l =
      rw
        (
          written-file r ss (write_routes wide fault ss file),
          normalize_from_of_canonical wide [] ss c,
        )
        (elim (replace_either fault ss file) [
          | inl e ↦ inl (rw e l)
          | inr e ↦ inr (rw e (normalize_from_of_canonical wide [] ss c))
        ])

  add_to_either :
      (r : Route) (rs : List Route) (file : RegistryFile)
      → IsCanonical wide [] rs
      → IsNormal wide r
      → Loads wide file rs
      → LoadsEither (add_to wide fault r rs file).1 rs (with_route r rs)
  unfolding add_to has_key
  add_to_either r rs file c n l = elim (Bool-cases (is_listed r rs)) [
    | inl e ↦ rw e (inl l)
    | inr e ↦
        rw e (write_either r rs (rs ++ (r ∷ [])) file (IsCanonical-snoc wide [] rs r c n refl e) l)
  ]

  remove_from_either :
      (r : Route) (rs : List Route) (file : RegistryFile)
      → IsCanonical wide [] rs
      → Loads wide file rs
      → LoadsEither (remove_from wide fault r rs file).1 rs (without_route r rs)
  unfolding remove_from
  remove_from_either r rs file c l = elim (Bool-cases (is_listed r rs)) [
    | inl e ↦ rw e (write_either r rs (without r rs) file (IsCanonical-without wide [] r rs c) l)
    | inr e ↦ rw e (inl l)
  ]

module _ {wide : ℕ → ℕ} (case : IsCase wide) (fault : WriteFault) where
  -- Whichever call of the write of the registry fails, a registry that loads still loads after a change
  -- by a route with a normal form, and gives the list as it was or the changed list.
  pub change-LoadsEither :
      (r item : Route) (rs : List Route) (file : RegistryFile)
      → normalize_route wide r ≡ ok item
      → Loads wide file rs
      → LoadsEither wide fault (add_route wide fault r file).1 rs (with_route item rs)
        × LoadsEither wide fault (remove_route wide fault r file).1 rs (without_route item rs)
  unfolding add_route remove_route
  change-LoadsEither r item rs file n l =
      let c = load_routes-IsCanonical case file rs l in
      rw (n, l)
        (
          add_to_either wide fault item rs file c (normalize_route_idem case r item n) l,
          remove_from_either wide fault item rs file c l,
        )
